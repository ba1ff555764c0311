-- ===== src/Store/Aliasing.antt =====
-- src/acs/store/memory.py and src/acs/api/console.py: `get_subscriber` returns the stored object
-- itself, and the console's edit changes it in place before it stores it again.
use auto_configuration_serve.Prelude.{
  ◌≡◌, ◌≢◌, some, arith, eq_iff, Option-cases, inl, inr, eq_refl,
}
use auto_configuration_serve.Prelude.Dict
use auto_configuration_serve.Prelude.Dict.{get-put, get-put_self}
use auto_configuration_serve.Models.{Subscriber}
use auto_configuration_serve.Store.{
  MemoryStore, get_subscriber_by_msisdn, put_subscriber, index_without_old,
}
use auto_configuration_serve.Store.Subscribers.{Provisioned, Provisioned-IsIndexed}

-- The stored object of an IMSI takes other fields, with no call of the store.
unfoldable pub mutate_subscriber : MemoryStore → Subscriber → MemoryStore
mutate_subscriber store edited = record store {
  subscribers = Dict.put store.subscribers edited.imsi edited;
}

unfoldable pub edit_subscriber : MemoryStore → Subscriber → MemoryStore
unfolding mutate_subscriber put_subscriber
edit_subscriber store edited = put_subscriber (mutate_subscriber store edited) edited

-- A subscriber that was found by its number is edited to have another number. The store compares
-- the edited object with itself and keeps the index entry of the old number, so a lookup by the old
-- number still finds the subscriber, whose number is the new one.
pub edit_subscriber_stale :
    {store : MemoryStore} (p : Provisioned store) (old edited : Subscriber)
    → get_subscriber_by_msisdn store old.msisdn ≡ some old
    → edited.imsi ≡ old.imsi
    → edited.msisdn ≢ old.msisdn
    → (get_subscriber_by_msisdn (edit_subscriber store edited) old.msisdn ≡ some edited)
      × (get_subscriber_by_msisdn (edit_subscriber store edited) edited.msisdn ≡ some edited)
unfolding edit_subscriber get_subscriber_by_msisdn index_without_old
edit_subscriber_stale {store} p old edited e same apart =
    elim (Option-cases (Dict.get store.msisdn_index old.msisdn)) [
      | inl unlisted ↦ absurd (ground arith)
      | inr (imsi, there) ↦
          let v = Provisioned-IsIndexed p in
          let own : imsi ≡ edited.imsi = ground (arith, v.keyed imsi old) in
          let once = Dict.put store.subscribers edited.imsi edited in
          ground (
            arith,
            own,
            get-put_self store.subscribers edited.imsi edited,
            get-put_self once edited.imsi edited,
            get-put_self store.msisdn_index edited.msisdn edited.imsi,
            get-put store.msisdn_index edited.msisdn old.msisdn edited.imsi,
            eq_iff edited.msisdn old.msisdn,
            eq_refl edited.msisdn,
          )
    ]
