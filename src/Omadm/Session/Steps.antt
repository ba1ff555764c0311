-- ===== src/Omadm/Session/Steps.antt =====
-- src/acs/protocol/omadm/session.py: the phases as a state machine, and what a stored session keeps.
use auto_configuration_serve.Prelude.{
  ℕ, ◌+◌, ◌≡◌, ◌≢◌, refl, String, Bool, true, false, Option, none, some, List, [], ◌∷◌, ◌++◌, map,
  length, ok, arith, leb, if◌then◌else◌, Bool-cases, Result-cases, inl, inr, str_eq, ◌||◌, not,
}
use mathlib.Core.Path.{subst}
use auto_configuration_serve.Models.{DmSession, DmPendingPackage}
use auto_configuration_serve.Store.{MemoryStore}
use auto_configuration_serve.Package.{
  Bytes, Entry, item, Row, to_stored, from_stored, max_messages_per_package,
}
use auto_configuration_serve.Omadm.Message.{SyncMlMessage, has_alert}
use auto_configuration_serve.Omadm.MoTree.{MoNode, device_query_uris, interior_nodes_for}
use auto_configuration_serve.Omadm.Changes.{DmChanges, no_changes}
use auto_configuration_serve.Omadm.Session.{
  DmSettings, DmOutside, DmResponse, Detail, gets, adds_replaces, acks, record_failures,
  next_message, absorb_device_values,
}
use auto_configuration_serve.Omadm.Session.Progress.{counted}
use auto_configuration_serve.Omadm.Session.Packages.{
  end_session, start_phase, start_package, Handled,
}
use auto_configuration_serve.Omadm.Session.Phases.{
  configuration_values, uri_of, dispatch, handle_init, handle_devinfo, handle_finish,
  continue_package, continuation,
}

abbrev pub next_phase : String → String
next_phase phase =
    if str_eq phase "init"
    then "devinfo"
    else if str_eq phase "devinfo"
    then "configure"
    else "done"

either : {A : Type 0} (P : A → Type 0) (b : Bool) {x y : A} → P x → P y → P (if b then x else y)
either P true p q = p
either P false p q = q

-- A session to store, beside the one that the message found.
pub record IsNext (found s : DmSession) (phase : String) : Type 0 where
  pub key : s.session_id ≡ found.session_id
  pub nonce : s.nonce ≡ found.nonce
  pub imsi : s.imsi ≡ found.imsi
  pub authenticated : s.authenticated ≡ found.authenticated
  pub phase_lem : s.phase ≡ phase

module _ (settings : DmSettings) (outside : DmOutside) (tree : List MoNode)
    (json_size : List Row → ℕ) (binary : Bool) (payload : Bytes) (store : MemoryStore)
    (message : SyncMlMessage) where
  -- The sessions that a result stores.
  abbrev Stores : DmSession → String → Handled → Type 0
  Stores found phase h =
      (changes : DmChanges) (outcome : DmResponse) (s : DmSession)
      → h ≡ ok (changes, outcome)
      → changes.session ≡ some s
      → IsNext found s phase

  start_phase-Stores :
      (found session : DmSession) (stale : String) (queue : List Entry) (metric : String)
      (detail : Detail)
      → IsNext found session session.phase
      → Stores found session.phase (
          start_phase settings outside tree json_size binary payload store message session stale
            queue metric detail)
  unfolding start_phase
  start_phase-Stores found session stale queue metric detail v changes outcome s e stored =
      elim (Result-cases (
        start_package settings outside tree json_size binary payload store message session queue)) [
          | inl (x, failed) ↦ absurd (ground arith)
          | inr ((body, remaining, pending), started) ↦
              let same : session ≡ s = ground arith in
              subst (λ t. IsNext found t session.phase) same v
        ]

  handle_init-Stores :
      (session : DmSession) (stale : String)
      → Stores session "devinfo"
          (handle_init settings outside tree json_size binary payload store message session stale)
  unfolding handle_init
  handle_init-Stores session stale changes outcome s e stored =
      elim (Bool-cases (not (has_alert message "1201" || has_alert message "1200"))) [
        | inl refused ↦ absurd (ground arith)
        | inr alerted ↦
            start_phase-Stores session (record session { phase = "devinfo" }) stale
              (acks tree message ++ map (λ u. item "Get" u "" "" "") (device_query_uris tree))
              "DmInventoryRequested" (gets (length (device_query_uris tree)))
              (record {
                key = refl;
                nonce = refl;
                imsi = refl;
                authenticated = refl;
                phase_lem = refl;
              })
              changes outcome s (ground arith) stored
      ]

  handle_devinfo-Stores :
      (session : DmSession) (stale : String)
      → Stores session "configure" (
          handle_devinfo settings outside tree json_size binary payload store message session stale)
  unfolding handle_devinfo
  handle_devinfo-Stores session stale changes outcome s e stored =
      let values =
        configuration_values settings outside tree json_size binary payload store session in
      let interiors = interior_nodes_for tree (map uri_of values) in
      start_phase-Stores session (record session { phase = "configure" }) stale
        (acks tree message ++ (map (λ u. item "Add" u "" "node" "node") interiors ++ values))
        "DmConfigPushed" (adds_replaces (length interiors) (length values))
        (record { key = refl; nonce = refl; imsi = refl; authenticated = refl; phase_lem = refl })
        changes outcome s e stored

  handle_finish-Stores :
      (session : DmSession) (stale : String)
      → Stores session "done"
          (handle_finish settings outside tree json_size binary payload store message session stale)
  unfolding handle_finish record_failures
  handle_finish-Stores session stale changes outcome s e stored =
      let session' = record (record_failures message session) { phase = "done" } in
      elim (Result-cases (
        start_package settings outside tree json_size binary payload store message session'
          (acks tree message))) [
            | inl (x, failed) ↦ absurd (ground arith)
            | inr ((body, remaining, pending), started) ↦
                let same : session' ≡ s = ground arith in
                subst (λ t. IsNext session t "done") same
                  (record {
                    key = refl;
                    nonce = refl;
                    imsi = refl;
                    authenticated = refl;
                    phase_lem = refl;
                  })
          ]

  continuation-Stores :
      (found session : DmSession) (phase : String) (pending : DmPendingPackage)
      (changes : DmChanges) (body : Bytes) (rest : List Entry)
      → changes.session ≡ none
      → IsNext found session phase
      → Stores found phase (
          continuation settings outside tree json_size binary payload store session pending changes
            body rest)
  unfolding continuation
  continuation-Stores found session phase pending changes body [] fresh v after outcome s e stored =
      elim (Bool-cases (str_eq session.phase "done")) [
        | inl finished ↦ absurd (ground arith)
        | inr going_on ↦
            let same : session ≡ s = ground arith in subst (λ t. IsNext found t phase) same v
      ]
  continuation-Stores found session phase pending changes body (x ∷ xs) fresh v after outcome s e
        stored =
      elim (Result-cases (to_stored json_size (x ∷ xs))) [
        | inl (failure, failed) ↦ absurd (ground arith)
        | inr (rows, written) ↦
            let same : session ≡ s = ground arith in subst (λ t. IsNext found t phase) same v
      ]

  counted-IsNext :
      (session : DmSession)
      → IsNext session
          (counted settings outside tree json_size binary payload store message session)
          session.phase
  unfolding record_failures
  counted-IsNext session =
      either (λ t. IsNext session t session.phase)
        (str_eq session.phase "configure" || str_eq session.phase "done")
        (record { key = refl; nonce = refl; imsi = refl; authenticated = refl; phase_lem = refl })
        (record { key = refl; nonce = refl; imsi = refl; authenticated = refl; phase_lem = refl })

  continue_package-Stores :
      (session : DmSession) (pending : DmPendingPackage)
      → Stores session session.phase (
          continue_package settings outside tree json_size binary payload store message session
            pending)
  unfolding continue_package
  continue_package-Stores session pending changes outcome s e stored =
      let session' = counted settings outside tree json_size binary payload store message session in
      elim (Bool-cases (leb max_messages_per_package pending.messages)) [
        | inl too_many ↦ absurd (ground arith)
        | inr room ↦ elim (Result-cases (from_stored pending.entries)) [
          | inl (x, failed) ↦ absurd (ground arith)
          | inr (queued, read) ↦
              elim (Result-cases (
                next_message settings outside tree binary payload message session'
                  (acks tree message ++ queued) (length (acks tree message) + 1))) [
                    | inl (x, failed) ↦ absurd (ground arith)
                    | inr ((body, rest), sent) ↦
                        continuation-Stores session session' session.phase pending
                          (record no_changes {
                            device =
                                some (
                                  absorb_device_values settings outside tree store message session);
                            progress_in_remainder = true;
                          })
                          body rest refl (counted-IsNext session) changes outcome s (ground arith)
                          stored
                  ]
        ]
      ]

  end_session-Stores :
      (session : DmSession) (stale metric detail : String) (changes : DmChanges)
      (outcome : DmResponse) (s : DmSession)
      → end_session settings outside tree json_size binary payload store message session stale
          metric detail
        ≡ ok (changes, outcome)
      → changes.session ≢ some s
  unfolding end_session
  end_session-Stores session stale metric detail changes outcome s e stored =
      elim (Result-cases (
        next_message settings outside tree binary payload message session (acks tree message)
          (length (acks tree message)))) [
            | inl (x, failed) ↦ absurd (ground arith)
            | inr ((body, rest), sent) ↦ absurd (ground arith)
          ]

  -- What follows when the alerts leave the session open.
  abbrev going : DmSession → Option DmPendingPackage → String → Handled
  going session (some p) stale =
      continue_package settings outside tree json_size binary payload store message session p
  going session none stale =
      if str_eq session.phase "init"
      then handle_init settings outside tree json_size binary payload store message session stale
      else if str_eq session.phase "devinfo"
      then handle_devinfo settings outside tree json_size binary payload store message session stale
      else handle_finish settings outside tree json_size binary payload store message session stale

  going-Stores :
      (session : DmSession) (pending : Option DmPendingPackage) (stale : String)
      → Stores session
          (elim pending [ none ↦ next_phase session.phase | some p ↦ session.phase ])
          (going session pending stale)
  going-Stores session (some p) stale changes outcome s e stored =
      continue_package-Stores session p changes outcome s e stored
  going-Stores session none stale changes outcome s e stored =
      elim (Bool-cases (str_eq session.phase "init")) [
        | inl first ↦
            let at : next_phase session.phase ≡ "devinfo" = ground arith in
            rw at (handle_init-Stores session stale changes outcome s (ground arith) stored)
        | inr later ↦ elim (Bool-cases (str_eq session.phase "devinfo")) [
          | inl second ↦
              let at : next_phase session.phase ≡ "configure" = ground arith in
              rw at (handle_devinfo-Stores session stale changes outcome s (ground arith) stored)
          | inr last ↦
              let at : next_phase session.phase ≡ "done" = ground arith in
              rw at (handle_finish-Stores session stale changes outcome s (ground arith) stored)
        ]
      ]

  -- When an authenticated message is answered and a session is stored with the answer, it is the
  -- session that the message found with the same key, nonce, subscriber and sign-in, and its phase
  -- is the found one while a package is continued and else the one that follows: `devinfo` after
  -- `init`, `configure` after `devinfo`, and `done` after all others. A message that ends the
  -- session or aborts it stores none.
  pub dispatch_steps :
      (session : DmSession) (pending : Option DmPendingPackage) (stale : String)
      (changes : DmChanges) (outcome : DmResponse) (s : DmSession)
      → dispatch settings outside tree json_size binary payload store message session pending stale
        ≡ ok (changes, outcome)
      → changes.session ≡ some s
      → (has_alert message "1223" ≡ false)
        × (has_alert message "1226" ≡ false)
        × IsNext session s
            (elim pending [ none ↦ next_phase session.phase | some p ↦ session.phase ])
  unfolding dispatch
  dispatch_steps session pending stale changes outcome s e stored =
      elim (Bool-cases (has_alert message "1223")) [
        | inl aborted ↦ absurd (
            end_session-Stores session stale "DmSessionAborted" "client_abort" changes outcome s
              (ground arith) stored)
        | inr on ↦ elim (Bool-cases (has_alert message "1226")) [
          | inl ended ↦ absurd (
              end_session-Stores session stale "DmSessionEnded" "client_ended" changes outcome s
                (ground arith) stored)
          | inr stays ↦ (
            on,
            stays,
            going-Stores session pending stale changes outcome s (ground arith) stored,
          )
        ]
      ]
