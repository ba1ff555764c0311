-- ===== src/Store/Subscribers.antt =====
-- src/acs/store/memory.py: the subscriber records and the index from MSISDN to IMSI.
use auto_configuration_serve.Prelude.{
  String, ◌≡◌, refl, ◌≢◌, true, Option, none, some, arith, eq_iff, str_eq, truthy, if◌then◌else◌,
  same_text?, Option-cases, inl, inr, eq_refl,
}
use auto_configuration_serve.Prelude.Dict
use auto_configuration_serve.Prelude.Dict.{Dict, get-put, get-pop, dict_laws}
use auto_configuration_serve.Models.{Subscriber}
use auto_configuration_serve.Store.{
  MemoryStore, empty_store, get_subscriber, get_subscriber_by_msisdn, put_subscriber,
  delete_subscriber, index_without_old,
}

-- The number under which an IMSI is stored.
abbrev pub number_of : Dict Subscriber → String → Option String
number_of subscribers imsi = elim (Dict.get subscribers imsi) [
  | none ↦ none
  | some s ↦ some s.msisdn
]

-- Every index entry leads to a record with that number, and every record stands under its IMSI.
pub record IsIndexed (store : MemoryStore) : Type 0 where
  pub points :
      (msisdn imsi : String)
      → Dict.get store.msisdn_index msisdn ≡ some imsi
      → number_of store.subscribers imsi ≡ some msisdn
  pub keyed :
      (imsi : String) (s : Subscriber) → Dict.get store.subscribers imsi ≡ some s → s.imsi ≡ imsi

IsIndexed-empty : IsIndexed empty_store
unfolding Dict.get
IsIndexed-empty = record { points = λ m i e. cc; keyed = λ i s e. cc }

-- What is left of the index, key by key.
get-index_without_old :
    (old : Option Subscriber) (m : String) (index : Dict String) (k : String)
    → Dict.get (index_without_old old m index) k ≡ elim old [
      | none ↦ Dict.get index k
      | some p ↦
          if str_eq p.msisdn m
          then Dict.get index k
          else if str_eq p.msisdn k
          then none
          else Dict.get index k
    ]
unfolding index_without_old
get-index_without_old none m index k = refl
get-index_without_old (some p) m index k = ground (arith, get-pop index p.msisdn k)

module _ (store : MemoryStore) (s : Subscriber) (v : IsIndexed store) where
  points-put_old :
      (old : Option Subscriber) (m i : String)
      → Dict.get store.subscribers s.imsi ≡ old
      → Dict.get (Dict.put (index_without_old old s.msisdn store.msisdn_index) s.msisdn s.imsi) m
        ≡ some i
      → number_of (Dict.put store.subscribers s.imsi s) i ≡ some m
  points-put_old none m i known e = ground (
    arith,
    v.points m i,
    get-put store.subscribers s.imsi i s,
    get-put (index_without_old none s.msisdn store.msisdn_index) s.msisdn m s.imsi,
    get-index_without_old none s.msisdn store.msisdn_index m,
    eq_iff s.imsi i,
    eq_iff s.msisdn m,
  )
  points-put_old (some p) m i known e = ground (
    arith,
    v.points m i,
    get-put store.subscribers s.imsi i s,
    get-put (index_without_old (some p) s.msisdn store.msisdn_index) s.msisdn m s.imsi,
    get-index_without_old (some p) s.msisdn store.msisdn_index m,
    eq_iff s.imsi i,
    eq_iff s.msisdn m,
    eq_iff p.msisdn m,
    eq_iff p.msisdn s.msisdn,
  )

  -- Storing a subscriber keeps the index true.
  pub put_subscriber-IsIndexed : IsIndexed (put_subscriber store s)
  unfolding put_subscriber
  put_subscriber-IsIndexed = record {
    points = λ m i e. points-put_old (Dict.get store.subscribers s.imsi) m i refl e;
    keyed =
        λ i t e. ground (arith, get-put store.subscribers s.imsi i s, eq_iff s.imsi i, v.keyed i t);
  }

module _ (store : MemoryStore) (imsi : String) (v : IsIndexed store) where
  points-delete :
      (s : Subscriber) (m i : String)
      → Dict.get store.subscribers imsi ≡ some s
      → Dict.get (Dict.pop store.msisdn_index s.msisdn) m ≡ some i
      → number_of (Dict.pop store.subscribers imsi) i ≡ some m
  points-delete s m i known e = ground (
    arith,
    v.points m i,
    get-pop store.subscribers imsi i,
    get-pop store.msisdn_index s.msisdn m,
    eq_iff imsi i,
    eq_iff s.msisdn m,
  )

  pub delete_subscriber-IsIndexed : IsIndexed (delete_subscriber store imsi)
  unfolding delete_subscriber
  delete_subscriber-IsIndexed = elim (Option-cases (Dict.get store.subscribers imsi)) [
    | inl e ↦ rw (e, delete_subscriber) v
    | inr (s, e) ↦
        rw (e, delete_subscriber)
          (record {
            points = λ m i p. points-delete s m i e p;
            keyed = λ i t p. ground (arith, get-pop store.subscribers imsi i, v.keyed i t);
          })
  ]

-- The stores that the two writing methods make from the empty one.
pub data Provisioned : MemoryStore → Type 0 where
  none_yet : Provisioned empty_store
  stored :
      {store : MemoryStore} (s : Subscriber)
      → Provisioned store
      → Provisioned (put_subscriber store s)
  deleted :
      {store : MemoryStore} (imsi : String)
      → Provisioned store
      → Provisioned (delete_subscriber store imsi)

pub Provisioned-IsIndexed : {store : MemoryStore} → Provisioned store → IsIndexed store
Provisioned-IsIndexed none_yet = IsIndexed-empty
Provisioned-IsIndexed (stored {store} s p) =
    put_subscriber-IsIndexed store s (Provisioned-IsIndexed p)
Provisioned-IsIndexed (deleted {store} imsi p) =
    delete_subscriber-IsIndexed store imsi (Provisioned-IsIndexed p)

-- Whatever subscribers were stored and deleted before, in any order, with no stored object changed
-- in place between, a lookup by number returns a record that has that number and stands under its
-- own IMSI.
pub get_subscriber_by_msisdn_sound :
    {store : MemoryStore} (p : Provisioned store) (msisdn : String) (s : Subscriber)
    → get_subscriber_by_msisdn store msisdn ≡ some s
    → (s.msisdn ≡ msisdn) × (get_subscriber store s.imsi ≡ some s)
unfolding get_subscriber_by_msisdn get_subscriber
get_subscriber_by_msisdn_sound {store} p msisdn s e =
    elim (Option-cases (Dict.get store.msisdn_index msisdn)) [
      | inl none_there ↦ absurd (ground arith)
      | inr (imsi, there) ↦
          let v = Provisioned-IsIndexed p in ground (arith, v.points msisdn imsi, v.keyed imsi s)
    ]

module _ (store : MemoryStore) (s : Subscriber) (m : String) (filled : truthy s.imsi ≡ true)
    (v : IsIndexed store) where
  lookup_after : Dict Subscriber → Dict String → Option Subscriber
  lookup_after subscribers index = elim (Dict.get index m) [
    | none ↦ none
    | some imsi ↦ if truthy imsi then Dict.get subscribers imsi else none
  ]

  abbrev LookupAfter : Option Subscriber → Type 0
  LookupAfter old =
      lookup_after (Dict.put store.subscribers s.imsi s)
        (Dict.put (index_without_old old s.msisdn store.msisdn_index) s.msisdn s.imsi)
      ≡ (if str_eq s.msisdn m
          then some s
          else if same_text? (number_of store.subscribers s.imsi) (some m)
          then none
          else get_subscriber_by_msisdn store m)

  LookupAfter-put :
      (old : Option Subscriber) (found : Option String)
      → Dict.get store.subscribers s.imsi ≡ old
      → Dict.get store.msisdn_index m ≡ found
      → LookupAfter old
  unfolding lookup_after get_subscriber_by_msisdn
  LookupAfter-put none none known e = ground (
    arith,
    get-put store.subscribers s.imsi s.imsi s,
    get-put (index_without_old none s.msisdn store.msisdn_index) s.msisdn m s.imsi,
    get-index_without_old none s.msisdn store.msisdn_index m,
    eq_refl s.imsi,
  )
  LookupAfter-put none (some i) known e = ground (
    arith,
    v.points m i e,
    get-put store.subscribers s.imsi s.imsi s,
    get-put store.subscribers s.imsi i s,
    get-put (index_without_old none s.msisdn store.msisdn_index) s.msisdn m s.imsi,
    get-index_without_old none s.msisdn store.msisdn_index m,
    eq_refl s.imsi,
    eq_iff s.imsi i,
  )
  LookupAfter-put (some p) none known e = ground (
    arith,
    get-put store.subscribers s.imsi s.imsi s,
    get-put (index_without_old (some p) s.msisdn store.msisdn_index) s.msisdn m s.imsi,
    get-index_without_old (some p) s.msisdn store.msisdn_index m,
    eq_refl s.imsi,
  )
  LookupAfter-put (some p) (some i) known e = ground (
    arith,
    v.points m i e,
    get-put store.subscribers s.imsi s.imsi s,
    get-put store.subscribers s.imsi i s,
    get-put (index_without_old (some p) s.msisdn store.msisdn_index) s.msisdn m s.imsi,
    get-index_without_old (some p) s.msisdn store.msisdn_index m,
    eq_refl s.imsi,
    eq_iff s.imsi i,
    eq_iff s.msisdn m,
    eq_iff p.msisdn m,
    eq_iff p.msisdn s.msisdn,
  )

  -- In a store whose index is true, storing a subscriber with a non-empty IMSI changes the lookups
  -- by number in two places: its own number now finds it, and a different number under which it
  -- was stored finds nobody. Every other lookup is unchanged.
  pub get_subscriber_by_msisdn-put : get_subscriber_by_msisdn (put_subscriber store s) m ≡ (
      if str_eq s.msisdn m
      then some s
      else if same_text? (number_of store.subscribers s.imsi) (some m)
      then none
      else get_subscriber_by_msisdn store m)
  unfolding put_subscriber lookup_after get_subscriber_by_msisdn
  get_subscriber_by_msisdn-put =
      LookupAfter-put (Dict.get store.subscribers s.imsi) (Dict.get store.msisdn_index m) refl refl

-- Two subscribers may be stored under one number. Deleting either of them then drops the index
-- entry of the number, so a lookup by the number no longer finds the other one, who is still
-- stored under its IMSI.
pub delete_subscriber_shared :
    (store : MemoryStore) (a b : Subscriber)
    → get_subscriber store a.imsi ≡ some a
    → get_subscriber store b.imsi ≡ some b
    → a.imsi ≢ b.imsi
    → a.msisdn ≡ b.msisdn
    → (get_subscriber (delete_subscriber store a.imsi) b.imsi ≡ some b)
      × (get_subscriber_by_msisdn (delete_subscriber store a.imsi) b.msisdn ≡ none)
unfolding get_subscriber get_subscriber_by_msisdn delete_subscriber
delete_subscriber_shared store a b ha hb apart same = ground (
  arith,
  get-pop store.subscribers a.imsi b.imsi,
  get-pop store.msisdn_index a.msisdn b.msisdn,
  eq_iff a.imsi b.imsi,
  eq_iff a.msisdn b.msisdn,
)
