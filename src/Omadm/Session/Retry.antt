-- ===== src/Omadm/Session/Retry.antt =====
-- src/acs/protocol/omadm/session.py: the message that a client repeats when a run stopped between two
-- of the writes of `commit`.
use auto_configuration_serve.Prelude.{
  ℕ, ◌≡◌, ◌<◌, refl, ap, ◌∙◌, Bool, false, none, some, List, length, take, str_eq, ok, arith,
  Bool-cases, Option-cases, eq_iff, inl, inr, ltb,
}
use mathlib.Core.Path.{subst}
use auto_configuration_serve.Models.{DmSession}
use auto_configuration_serve.Store.{MemoryStore, get_dm_pending}
use auto_configuration_serve.Package.{Bytes, Row, max_acknowledged_commands}
use auto_configuration_serve.Omadm.Message.{SyncMlMessage}
use auto_configuration_serve.Omadm.MoTree.{MoNode}
use auto_configuration_serve.Omadm.Changes.{DmChanges, commit_writes, perform}
use auto_configuration_serve.Omadm.Session.{DmSettings, DmOutside, DmResponse, acks}
use auto_configuration_serve.Omadm.Session.Packages.{Handled}
use auto_configuration_serve.Omadm.Session.Phases.{dispatch}
use auto_configuration_serve.Omadm.Session.Answer.{usable, stale_id, handle_authenticated}
use auto_configuration_serve.Omadm.Session.Steps.{dispatch_steps, next_phase}
use auto_configuration_serve.Omadm.Session.Seen.{seen, dispatch-seen}
use auto_configuration_serve.Omadm.Session.Partial.{commit_writes-IsPartial}
use auto_configuration_serve.Omadm.Session.Starts.{dispatch-IsStart}
use auto_configuration_serve.Omadm.Session.Remainders.{
  get_dm_pending-IsUseless, IsUseless-usable, IsPartial-IsUseless, get_dm_pending-others,
}

module _ (settings : DmSettings) (outside : DmOutside) (tree : List MoNode)
    (json_size : List Row → ℕ) (binary : Bool) (payload : Bytes) where
  -- An authenticated message that is answered with a session to store was not refused for its size.
  handle_authenticated-dispatch :
      (store found_in : MemoryStore) (message : SyncMlMessage) (session s : DmSession)
      (changes : DmChanges) (outcome : DmResponse)
      → handle_authenticated settings outside tree json_size binary payload store message session
        ≡ (found_in, ok (changes, outcome))
      → changes.session ≡ some s
      → (ltb max_acknowledged_commands (length (acks tree message)) ≡ false)
        × (found_in ≡ (get_dm_pending store outside.clock session.session_id).0)
        × (dispatch settings outside tree json_size binary payload
              (get_dm_pending store outside.clock session.session_id).0
              message
              session
              (usable session (get_dm_pending store outside.clock session.session_id).1)
              (stale_id session (get_dm_pending store outside.clock session.session_id).1)
            ≡ ok (changes, outcome))
  unfolding handle_authenticated
  handle_authenticated-dispatch store found_in message session s changes outcome e stored =
      elim (Bool-cases (ltb max_acknowledged_commands (length (acks tree message)))) [
        | inl many ↦ absurd (ground arith)
        | inr few ↦ (few, ground arith, ground arith)
      ]

  handle_authenticated_unused :
      (store : MemoryStore) (message : SyncMlMessage) (session : DmSession)
      → ltb max_acknowledged_commands (length (acks tree message)) ≡ false
      → usable session (get_dm_pending store outside.clock session.session_id).1 ≡ none
      → (handle_authenticated settings outside tree json_size binary payload store message
          session).1
        ≡ dispatch settings outside tree json_size binary payload
            (get_dm_pending store outside.clock session.session_id).0
            message
            session
            none
            (stale_id session (get_dm_pending store outside.clock session.session_id).1)
  unfolding handle_authenticated
  handle_authenticated_unused store message session few unused = rw (few, unused) refl

  seen_stored :
      (h : Handled) (changes : DmChanges) (outcome : DmResponse) (s : DmSession)
      → h ≡ ok (changes, outcome)
      → changes.session ≡ some s
      → seen h ≡ ok (some s, changes.pending, changes.delete_session_id, outcome)
  unfolding seen
  seen_stored h changes outcome s e stored = rw (e, stored) refl

  -- The same, for the store that the message was answered from.
  dispatch_retry :
      (store : MemoryStore) (message : SyncMlMessage) (session s : DmSession) (changes : DmChanges)
      (outcome : DmResponse) (k : ℕ)
      → ltb max_acknowledged_commands (length (acks tree message)) ≡ false
      → usable session (get_dm_pending store outside.clock session.session_id).1 ≡ none
      → dispatch settings outside tree json_size binary payload
          (get_dm_pending store outside.clock session.session_id).0
          message
          session
          none
          (stale_id session (get_dm_pending store outside.clock session.session_id).1)
        ≡ ok (changes, outcome)
      → changes.session ≡ some s
      → str_eq s.phase session.phase ≡ false
      → k < length (commit_writes changes)
      → let found_in = (get_dm_pending store outside.clock session.session_id).0 in
        let after = perform found_in (take k (commit_writes changes)) in
        (after.dm_sessions ≡ store.dm_sessions)
        × (seen
              (handle_authenticated settings outside tree json_size binary payload after message
                session).1
            ≡ ok (some s, changes.pending, changes.delete_session_id, outcome))
  dispatch_retry store message session s changes outcome k few unused e stored moved short =
      let key = session.session_id in
      let found_in = (get_dm_pending store outside.clock key).0 in
      let stale = stale_id session (get_dm_pending store outside.clock key).1 in
      let steps =
        dispatch_steps settings outside tree json_size binary payload found_in message session none
          stale changes outcome s e stored in
      let start =
        dispatch-IsStart settings outside tree json_size binary payload found_in message session s
          stale changes outcome e stored steps.0 steps.1 in
      let partial = commit_writes-IsPartial found_in changes s stale k start short in
      let after = perform found_in (take k (commit_writes changes)) in
      let later = IsUseless-usable outside session after (
        IsPartial-IsUseless outside session s found_in after steps.2.key moved
          (get_dm_pending-IsUseless outside session store unused) partial) in
      let read = get_dm_pending-others outside after key in
      let again = handle_authenticated_unused after message session few later in
      (
        partial.sessions_kept ∙ (get_dm_pending-others outside store key).1,
        ap seen again
            ∙ dispatch-seen settings outside tree json_size binary payload
                (get_dm_pending after outside.clock key).0 found_in message session
                (stale_id session (get_dm_pending after outside.clock key).1) stale
                (read.0 ∙ partial.subscribers_kept) steps.0 steps.1
            ∙ seen_stored
                (dispatch settings outside tree json_size binary payload found_in message session
                  none stale)
                changes outcome s e stored,
      )

  -- When an authenticated message is answered with a session to store whose phase is another than
  -- the found one's, and the run stops before the last of its writes, after any number of them, the
  -- same message at the same reading of the clock is answered as the first was: the sessions are
  -- still as they were, the answer is the same, and so are the session and the remainder to store
  -- with it.
  pub handle_authenticated_retry :
      (store found_in : MemoryStore) (message : SyncMlMessage) (session s : DmSession)
      (changes : DmChanges) (outcome : DmResponse) (k : ℕ)
      → handle_authenticated settings outside tree json_size binary payload store message session
        ≡ (found_in, ok (changes, outcome))
      → changes.session ≡ some s
      → str_eq s.phase session.phase ≡ false
      → k < length (commit_writes changes)
      → ((perform found_in (take k (commit_writes changes))).dm_sessions ≡ store.dm_sessions)
        × (seen
              (handle_authenticated settings outside tree json_size binary payload
                (perform found_in (take k (commit_writes changes)))
                message
                session).1
            ≡ ok (some s, changes.pending, changes.delete_session_id, outcome))
  handle_authenticated_retry store found_in message session s changes outcome k e stored moved
        short =
      let key = session.session_id in
      let pending = usable session (get_dm_pending store outside.clock key).1 in
      let inv =
        handle_authenticated-dispatch store found_in message session s changes outcome e stored in
      let steps =
        dispatch_steps settings outside tree json_size binary payload
          (get_dm_pending store outside.clock key).0 message session pending
          (stale_id session (get_dm_pending store outside.clock key).1) changes outcome s inv.2
          stored in
      elim (Option-cases pending) [
        | inr (p, continued_one) ↦
            let same : s.phase ≡ session.phase =
              subst
                (λ o. s.phase ≡ elim o [ none ↦ next_phase session.phase | some q ↦ session.phase ])
                continued_one steps.2.phase_lem in
            absurd (ground (arith, eq_iff s.phase session.phase))
        | inl none_used ↦ rw (inv.1) (
            dispatch_retry store message session s changes outcome k inv.0 none_used
              (subst
                (λ o.
                  dispatch settings outside tree json_size binary payload
                    (get_dm_pending store outside.clock key).0 message session o
                    (stale_id session (get_dm_pending store outside.clock key).1)
                  ≡ ok (changes, outcome))
                none_used inv.2)
              stored moved short)
      ]
