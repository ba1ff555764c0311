-- ===== src/Omadm/Session/Remainders.antt =====
-- src/acs/protocol/omadm/session.py and store/memory.py: a stored remainder that is of no use.
use auto_configuration_serve.Prelude.{
  ◌≡◌, refl, sym, ap, ◌∙◌, String, true, false, Option, none, some, str_eq, arith, Bool-cases,
  Option-cases, inl, inr, ◌⊎◌,
}
use auto_configuration_serve.Prelude.Dict
use auto_configuration_serve.Models.{DmSession, DmPendingPackage}
use auto_configuration_serve.Store.{MemoryStore, get_dm_pending, gone}
use auto_configuration_serve.Omadm.Session.{DmOutside}
use auto_configuration_serve.Omadm.Session.Answer.{usable}
use auto_configuration_serve.Omadm.Session.Partial.{IsPartial}

module _ (outside : DmOutside) where
  -- What is stored as a remainder is of no use to the session: there is none, or one of another phase.
  abbrev pub IsUseless : DmSession → Option DmPendingPackage → Type 0
  IsUseless session o =
      (o ≡ none) ⊎ ((p : DmPendingPackage) × (o ≡ some p) × (str_eq p.phase session.phase ≡ false))

  get_dm_pending_missing :
      (store : MemoryStore) (key : String)
      → Dict.get store.dm_pending key ≡ none
      → get_dm_pending store outside.clock key ≡ (store, none)
  unfolding get_dm_pending
  get_dm_pending_missing store key missing = rw (get_dm_pending, missing) refl

  get_dm_pending_expired :
      (store : MemoryStore) (key : String) (p : DmPendingPackage)
      → Dict.get store.dm_pending key ≡ some p
      → gone p.expires_at outside.clock ≡ true
      → get_dm_pending store outside.clock key
        ≡ (record store { dm_pending = Dict.pop store.dm_pending key }, none)
  unfolding get_dm_pending
  get_dm_pending_expired store key p found expired = rw (get_dm_pending, found, expired) refl

  get_dm_pending_live :
      (store : MemoryStore) (key : String) (p : DmPendingPackage)
      → Dict.get store.dm_pending key ≡ some p
      → gone p.expires_at outside.clock ≡ false
      → get_dm_pending store outside.clock key ≡ (store, some p)
  unfolding get_dm_pending
  get_dm_pending_live store key p found live = rw (get_dm_pending, found, live) refl

  pub get_dm_pending-IsUseless :
      (session : DmSession) (store : MemoryStore)
      → usable session (get_dm_pending store outside.clock session.session_id).1 ≡ none
      → IsUseless session (
          Dict.get
            (get_dm_pending store outside.clock session.session_id).0.dm_pending
            session.session_id)
  get_dm_pending-IsUseless session store unused =
      elim (Option-cases (Dict.get store.dm_pending session.session_id)) [
        | inl missing ↦ inl (rw (get_dm_pending_missing store session.session_id missing) missing)
        | inr (p, found) ↦ elim (Bool-cases (gone p.expires_at outside.clock)) [
          | inl expired ↦ inl (
              rw (get_dm_pending_expired store session.session_id p found expired)
                (Dict.get-pop_self store.dm_pending session.session_id))
          | inr live ↦
              let read = get_dm_pending_live store session.session_id p found live in
              let unusable : usable session (some p) ≡ none =
                ap (λ t. usable session t.1) (sym read) ∙ unused in
              inr (p, rw read found, ground arith)
        ]
      ]

  pub IsUseless-usable :
      (session : DmSession) (store : MemoryStore)
      → IsUseless session (Dict.get store.dm_pending session.session_id)
      → usable session (get_dm_pending store outside.clock session.session_id).1 ≡ none
  IsUseless-usable session store (inl missing) =
      ap (λ t. usable session t.1) (get_dm_pending_missing store session.session_id missing)
  IsUseless-usable session store (inr (p, found, other)) =
      elim (Bool-cases (gone p.expires_at outside.clock)) [
        | inl expired ↦
            ap (λ t. usable session t.1)
              (get_dm_pending_expired store session.session_id p found expired)
        | inr live ↦
            ap (λ t. usable session t.1) (get_dm_pending_live store session.session_id p found live)
            ∙ rw other refl
      ]

  pub IsPartial-IsUseless :
      (session s : DmSession) (before after : MemoryStore)
      → s.session_id ≡ session.session_id
      → str_eq s.phase session.phase ≡ false
      → IsUseless session (Dict.get before.dm_pending session.session_id)
      → IsPartial s before after
      → IsUseless session (Dict.get after.dm_pending session.session_id)
  IsPartial-IsUseless session s before after same differs useless v =
      rw (← same) (go v.remainder_of_lem)
    where
      go :
          (Dict.get after.dm_pending s.session_id ≡ Dict.get before.dm_pending s.session_id)
            ⊎ ((Dict.get after.dm_pending s.session_id ≡ none)
                ⊎ ((p : DmPendingPackage) × (Dict.get after.dm_pending s.session_id ≡ some p)
                    × (p.phase ≡ s.phase)))
          → IsUseless session (Dict.get after.dm_pending s.session_id)
      go (inl kept) = rw (kept, same) useless
      go (inr (inl gone_now)) = inl gone_now
      go (inr (inr (p, now, phase))) = inr (p, now, rw phase differs)

  pub get_dm_pending-others :
      (store : MemoryStore) (key : String)
      → ((get_dm_pending store outside.clock key).0.subscribers ≡ store.subscribers)
        × ((get_dm_pending store outside.clock key).0.dm_sessions ≡ store.dm_sessions)
  get_dm_pending-others store key = elim (Option-cases (Dict.get store.dm_pending key)) [
    | inl missing ↦
        let read = get_dm_pending_missing store key missing in
        (ap (λ t. t.0.subscribers) read, ap (λ t. t.0.dm_sessions) read)
    | inr (p, found) ↦ elim (Bool-cases (gone p.expires_at outside.clock)) [
      | inl expired ↦
          let read = get_dm_pending_expired store key p found expired in
          (ap (λ t. t.0.subscribers) read, ap (λ t. t.0.dm_sessions) read)
      | inr live ↦
          let read = get_dm_pending_live store key p found live in
          (ap (λ t. t.0.subscribers) read, ap (λ t. t.0.dm_sessions) read)
    ]
  ]
