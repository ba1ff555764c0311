-- ===== src/Omadm/Session/Partial.antt =====
-- src/acs/protocol/omadm/session.py, `_DmChanges.commit`: a run that stops between two of the writes.
use auto_configuration_serve.Prelude.{
  ℕ, zero, suc, ◌+◌, ◌≡◌, ◌≤◌, ◌<◌, refl, sym, ap, String, Bool, true, false, Option, none, some,
  List, [], ◌∷◌, ◌++◌, All, length, length-append, take, truthy, str_eq, arith, Bool-cases, inl,
  inr, ◌⊎◌,
}
use mathlib.Core.List.{append_assoc}
use auto_configuration_serve.Prelude.Dict
use auto_configuration_serve.Models.{DmSession, DmPendingPackage, Device}
use auto_configuration_serve.Store.{MemoryStore, put_device, put_dm_pending, delete_dm_pending}
use auto_configuration_serve.Omadm.Changes.{
  DmChanges, Write, save_device, save_session, save_pending, drop_session, drop_pending, write,
  when, for_some, save_remainder, save_progress, commit_writes, perform,
}

-- The changes with which a package starts: the session is saved, and what is stored of the
-- package is its own.
pub record IsStart (changes : DmChanges) (session : DmSession) (stale : String) : Type 0 where
  pub saved : changes.session ≡ some session
  pub kept_id : changes.delete_session_id ≡ ""
  pub stale_id_lem : changes.delete_pending_id ≡ stale
  pub session_last : changes.progress_in_remainder ≡ false
  pub remainder_lem :
      (changes.pending ≡ none)
      ⊎ ((p : DmPendingPackage) × (changes.pending ≡ some p)
          × (p.session_id ≡ session.session_id)
          × (p.phase ≡ session.phase))

-- A write that goes before the session's.
abbrev pub IsEarly : DmSession → Write → Type 0
IsEarly session (save_device d) = Unit
IsEarly session (drop_pending k) = Unit
IsEarly session (save_pending p) = (p.session_id ≡ session.session_id) × (p.phase ≡ session.phase)
IsEarly session (save_session s) = ⊥
IsEarly session (drop_session k) = ⊥

-- The stores that differ in devices and remainders alone, where the remainder of the session is as
-- before, gone, or one of its new phase.
pub record IsPartial (session : DmSession) (before after : MemoryStore) : Type 0 where
  pub sessions_kept : after.dm_sessions ≡ before.dm_sessions
  pub subscribers_kept : after.subscribers ≡ before.subscribers
  pub remainder_of_lem :
      (Dict.get after.dm_pending session.session_id ≡ Dict.get before.dm_pending session.session_id)
      ⊎ ((Dict.get after.dm_pending session.session_id ≡ none)
          ⊎ ((p : DmPendingPackage) × (Dict.get after.dm_pending session.session_id ≡ some p)
              × (p.phase ≡ session.phase)))

module _ (session : DmSession) where
  write-IsPartial :
      (before after : MemoryStore) (w : Write)
      → IsPartial session before after
      → IsEarly session w
      → IsPartial session before (write after w)
  unfolding write put_device put_dm_pending delete_dm_pending
  write-IsPartial before after (save_device d) v early = record {
    sessions_kept = v.sessions_kept;
    subscribers_kept = v.subscribers_kept;
    remainder_of_lem = v.remainder_of_lem;
  }
  write-IsPartial before after (drop_pending k) v early = record {
    sessions_kept = v.sessions_kept;
    subscribers_kept = v.subscribers_kept;
    remainder_of_lem = elim (Bool-cases (str_eq k session.session_id)) [
      | inl own ↦ inr (inl (rw (Dict.get-pop after.dm_pending k session.session_id, own) refl))
      | inr other ↦
          rw (Dict.get-pop after.dm_pending k session.session_id, other) v.remainder_of_lem
    ];
  }
  write-IsPartial before after (save_pending p) v early = record {
    sessions_kept = v.sessions_kept;
    subscribers_kept = v.subscribers_kept;
    remainder_of_lem =
        inr (inr (p, rw (← early.0) (Dict.get-put_self after.dm_pending p.session_id p), early.1));
  }
  write-IsPartial before after (save_session s) v early = absurd early
  write-IsPartial before after (drop_session k) v early = absurd early

  perform-IsPartial :
      (before after : MemoryStore) (ws : List Write)
      → IsPartial session before after
      → All (IsEarly session) ws
      → IsPartial session before (perform after ws)
  unfolding perform
  perform-IsPartial before after [] v early = v
  perform-IsPartial before after (w ∷ ws) v (now, later) =
      perform-IsPartial before (write after w) ws (write-IsPartial before after w v now) later

module _ {A : Type 0} (P : A → Type 0) where
  All-take : (n : ℕ) (xs : List A) → All P xs → All P (take n xs)
  All-take zero xs all = tt
  All-take (suc n) [] all = tt
  All-take (suc n) (x ∷ xs) (now, later) = (now, All-take n xs later)

  All-append : (xs ys : List A) → All P xs → All P ys → All P (xs ++ ys)
  All-append [] ys first second = second
  All-append (x ∷ xs) ys (now, later) second = (now, All-append xs ys later second)

take-append : {A : Type 0} (n : ℕ) (xs ys : List A) → n ≤ length xs → take n (xs ++ ys) ≡ take n xs
take-append zero xs ys le = refl
take-append (suc n) [] ys le = absurd (omega (arith, le))
take-append (suc n) (x ∷ xs) ys le = ap (λ t. x ∷ t) (take-append n xs ys (omega (arith, le)))

early_writes : DmChanges → List Write
early_writes changes = for_some save_device changes.device ++ save_remainder changes

early_writes-IsEarly :
    (changes : DmChanges) (session : DmSession) (stale : String)
    → IsStart changes session stale
    → All (IsEarly session) (early_writes changes)
unfolding early_writes save_remainder
early_writes-IsEarly changes session stale v =
    All-append (IsEarly session) (for_some save_device changes.device) (save_remainder changes)
      (device changes.device)
      (All-append (IsEarly session)
        (when (truthy changes.delete_pending_id) (drop_pending changes.delete_pending_id))
        (for_some save_pending changes.pending
          ++ when (truthy changes.delete_session_id) (drop_pending changes.delete_session_id))
        (dropped (truthy changes.delete_pending_id) changes.delete_pending_id)
        (All-append (IsEarly session) (for_some save_pending changes.pending)
          (when (truthy changes.delete_session_id) (drop_pending changes.delete_session_id))
          (remainder changes.pending v.remainder_lem)
          (dropped (truthy changes.delete_session_id) changes.delete_session_id)))
  where
    device : (d : Option Device) → All (IsEarly session) (for_some save_device d)
    device none = tt
    device (some d) = (tt, tt)

    dropped : (b : Bool) (k : String) → All (IsEarly session) (when b (drop_pending k))
    dropped true k = (tt, tt)
    dropped false k = tt

    remainder :
        (o : Option DmPendingPackage)
        → (o ≡ none)
          ⊎ ((p : DmPendingPackage) × (o ≡ some p)
              × (p.session_id ≡ session.session_id)
              × (p.phase ≡ session.phase))
        → All (IsEarly session) (for_some save_pending o)
    remainder o (inl e) = rw e tt
    remainder o (inr (p, e, same, phase)) = rw e ((same, phase), tt)

save_progress_alone :
    (changes : DmChanges) (session : DmSession) (stale : String)
    → IsStart changes session stale
    → save_progress changes ≡ save_session session ∷ []
unfolding save_progress
save_progress_alone changes session stale v = rw (v.saved, v.kept_id) refl

commit_writes-append :
    (changes : DmChanges) (session : DmSession) (stale : String)
    → IsStart changes session stale
    → commit_writes changes ≡ early_writes changes ++ save_session session ∷ []
unfolding commit_writes early_writes
commit_writes-append changes session stale v =
    rw (v.session_last, save_progress_alone changes session stale v)
      (sym (
        append_assoc (for_some save_device changes.device) (save_remainder changes)
          (save_session session ∷ [])))

-- Before its last write, the start of a package has written no session.
pub commit_writes-IsPartial :
    (store : MemoryStore) (changes : DmChanges) (session : DmSession) (stale : String) (k : ℕ)
    → IsStart changes session stale
    → k < length (commit_writes changes)
    → IsPartial session store (perform store (take k (commit_writes changes)))
commit_writes-IsPartial store changes session stale k v lt =
    let split = commit_writes-append changes session stale v in
    let total = length-append (early_writes changes) (save_session session ∷ []) in
    let short : k < length (early_writes changes) + 1 = rw (← total, ← split) lt in
    rw
      (
        split,
        take-append k (early_writes changes) (save_session session ∷ []) (omega (arith, short)),
      )
      (perform-IsPartial session store store (take k (early_writes changes))
        (record { sessions_kept = refl; subscribers_kept = refl; remainder_of_lem = inl refl })
        (All-take (IsEarly session) k (early_writes changes)
          (early_writes-IsEarly changes session stale v)))
