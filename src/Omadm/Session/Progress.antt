-- ===== src/Omadm/Session/Progress.antt =====
-- src/acs/protocol/omadm/session.py: what a message of a package carries, and what is left of it.
use auto_configuration_serve.Prelude.{
  ℕ, ◌+◌, ◌||◌, ◌≤◌, ◌<◌, ◌≡◌, refl, ap, ◌∙◌, Bool, true, none, some, List, [], ◌∷◌, ◌++◌, map,
  length, drop, ok, arith, ltb, if◌then◌else◌, Result-cases, inl, inr, length-append, length-drop,
  str_eq,
}
use auto_configuration_serve.Models.{DmSession, DmPendingPackage}
use auto_configuration_serve.Store.{MemoryStore}
use auto_configuration_serve.Package.{
  Bytes, Entry, Row, to_stored, from_stored, row_of, fill, max_messages_per_package,
}
use auto_configuration_serve.Package.Bounds.{fill_returned}
use auto_configuration_serve.Omadm.Message.{SyncMlMessage}
use auto_configuration_serve.Omadm.MoTree.{MoNode}
use auto_configuration_serve.Omadm.Changes.{DmChanges, no_changes}
use auto_configuration_serve.Omadm.Session.{
  DmSettings, DmOutside, DmResponse, acks, record_failures, max_msg_size, next_message,
  next_message_with, absorb_device_values, header_status, build_message,
}
use auto_configuration_serve.Omadm.Session.Packages.{continued, close}
use auto_configuration_serve.Omadm.Session.Phases.{continue_package, continuation}

module _ (settings : DmSettings) (outside : DmOutside) (tree : List MoNode) (binary : Bool)
    (payload : Bytes) where
  -- The message with the first `n` entries of a queue, of which it holds at least `required`.
  pub record IsSent (message : SyncMlMessage) (session : DmSession) (queue : List Entry)
      (required : ℕ) (body : Bytes) (rest : List Entry) : Type 0 where
    pub sent : ℕ
    pub enough : required ≤ sent
    pub most : sent ≤ length queue
    pub small : length body ≤ max_msg_size settings outside tree message
    pub built :
        build_message settings outside tree binary payload message session
          (header_status settings outside tree session)
          queue
          sent
        ≡ ok body
    pub left : rest ≡ drop sent queue

  pub next_message-IsSent :
      (message : SyncMlMessage) (session : DmSession) (queue : List Entry) (required : ℕ)
      (body : Bytes) (rest : List Entry)
      → required ≤ length queue
      → next_message settings outside tree binary payload message session queue required
        ≡ ok (body, rest)
      → IsSent message session queue required body rest
  unfolding next_message next_message_with
  next_message-IsSent message session queue required body rest le e =
      let build =
        build_message settings outside tree binary payload message session
          (header_status settings outside tree session) queue in
      elim (Result-cases
        (fill build (length queue) (max_msg_size settings outside tree message) required)) [
          | inl (x, failed) ↦ absurd (ground arith)
          | inr ((b, n), filled) ↦
              let f =
                fill_returned build (max_msg_size settings outside tree message) required
                  (length queue) b n le filled in
              let same : b ≡ body = ground arith in
              record {
                sent = n;
                enough = f.0;
                most = f.1;
                small = ground (arith, f);
                built = f.3 ∙ ap ok same;
                left = ground arith;
              }
        ]

length-to_stored :
    (json_size : List Row → ℕ) (es : List Entry) (rows : List Row)
    → to_stored json_size es ≡ ok rows
    → rows ≡ map row_of es
unfolding to_stored
length-to_stored json_size es rows e = ground arith

module _ (settings : DmSettings) (outside : DmOutside) (tree : List MoNode)
    (json_size : List Row → ℕ) (binary : Bool) (payload : Bytes) (store : MemoryStore) where
  continuation-rest :
      (session : DmSession) (pending : DmPendingPackage) (changes : DmChanges) (body : Bytes)
      (rest : List Entry) (after : DmChanges) (outcome : DmResponse)
      → changes.pending ≡ none
      → changes.delete_pending_id ≡ ""
      → continuation settings outside tree json_size binary payload store session pending changes
          body rest
        ≡ ok (after, outcome)
      → (outcome.body ≡ body)
        × (after.pending ≡ (
            if ltb 0 (length rest)
            then some
                (record pending { entries = map row_of rest; messages = pending.messages + 1 })
            else none))
        × (after.delete_pending_id ≡ (if ltb 0 (length rest) then "" else session.session_id))
        × (after.progress_in_remainder ≡ changes.progress_in_remainder)
  unfolding continuation continued close to_stored
  continuation-rest session pending changes body [] after outcome none_yet kept_yet e = ground arith
  continuation-rest session pending changes body (x ∷ xs) after outcome none_yet kept_yet e =
      ground arith

  record_failures-session_id :
      (message : SyncMlMessage) (session : DmSession)
      → (record_failures message session).session_id ≡ session.session_id
  unfolding record_failures
  record_failures-session_id message session = ground arith

  -- The session as it is after the failures of the message are counted, in the phases that count.
  abbrev pub counted : SyncMlMessage → DmSession → DmSession
  counted message session =
      if str_eq session.phase "configure" || str_eq session.phase "done"
      then record_failures message session
      else session

  -- While a package goes on below its limit of messages, an answer holds the acknowledgements of the
  -- message and one queued entry at least, it is within the size the client accepts, it is the
  -- message of that many entries of the queue, and what is stored for the next message is the rest
  -- of the queue, in order, or nothing when nothing is left. The rest is shorter than what was
  -- queued before the message. The changes delete the rest that was stored for the session when
  -- nothing is left, and otherwise do not name it for deletion.
  pub continue_package_delivers :
      (message : SyncMlMessage) (session : DmSession) (pending : DmPendingPackage)
      (queued : List Entry) (changes : DmChanges) (outcome : DmResponse)
      → continue_package settings outside tree json_size binary payload store message session
          pending
        ≡ ok (changes, outcome)
      → pending.messages < max_messages_per_package
      → from_stored pending.entries ≡ ok queued
      → 0 < length queued
      → (n : ℕ) × (length (acks tree message) < n)
        × (n ≤ length (acks tree message ++ queued))
        × (length outcome.body ≤ max_msg_size settings outside tree message)
        × (build_message settings outside tree binary payload message
              (counted message session)
              (header_status settings outside tree (counted message session))
              (acks tree message ++ queued)
              n
            ≡ ok outcome.body)
        × (changes.pending ≡ (
            if ltb 0 (length (drop n (acks tree message ++ queued)))
            then some (record pending {
              entries = map row_of (drop n (acks tree message ++ queued));
              messages = pending.messages + 1;
            })
            else none))
        × (changes.delete_pending_id ≡ (
            if ltb 0 (length (drop n (acks tree message ++ queued)))
            then ""
            else session.session_id))
        × (length (drop n (acks tree message ++ queued)) < length queued)
  unfolding continue_package
  continue_package_delivers message session pending queued changes outcome e room read some_left =
      let queue = acks tree message ++ queued in
      let required = length (acks tree message) + 1 in
      let total = length-append (acks tree message) queued in
      elim (Result-cases (
        next_message settings outside tree binary payload message (counted message session) queue
          required)) [
            | inl (x, failed) ↦ absurd (ground arith)
            | inr ((body, rest), sent) ↦
                let v =
                  next_message-IsSent settings outside tree binary payload message
                    (counted message session) queue required body rest
                    (omega (arith, total, some_left)) sent in
                let c =
                  continuation-rest (counted message session) pending
                    (record no_changes {
                      device =
                          some (absorb_device_values settings outside tree store message session);
                      progress_in_remainder = true;
                    })
                    body rest changes outcome refl refl (ground arith) in
                let own : (counted message session).session_id ≡ session.session_id =
                  ground (arith, record_failures-session_id message session) in
                (
                  v.sent,
                  omega (arith, v.enough),
                  v.most,
                  rw c.0 v.small,
                  rw c.0 v.built,
                  rw (← v.left) c.1,
                  rw (← v.left, ← own) c.2,
                  omega (arith, total, v.enough, v.most, length-drop v.sent queue, some_left),
                )
          ]
