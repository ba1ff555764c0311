-- ===== src/Omadm/Session/Starts.antt =====
-- src/acs/protocol/omadm/session.py: the changes with which the phases start a package.
use auto_configuration_serve.Prelude.{
  ℕ, ◌≡◌, refl, String, Bool, false, Option, none, some, List, [], ◌∷◌, ◌++◌, map, length, str_eq,
  Result, ok, raise, arith, Bool-cases, Result-cases, inl, inr, ◌⊎◌, ◌==◌, not, ◌||◌, min,
}
use mathlib.Core.Path.{subst}
use auto_configuration_serve.Models.{DmSession, DmPendingPackage}
use auto_configuration_serve.Store.{MemoryStore}
use auto_configuration_serve.Package.{Bytes, Entry, Row, PackageError, item, to_stored}
use auto_configuration_serve.Omadm.Message.{SyncMlMessage, has_alert}
use auto_configuration_serve.Omadm.MoTree.{MoNode, device_query_uris, interior_nodes_for}
use auto_configuration_serve.Omadm.Changes.{DmChanges}
use auto_configuration_serve.Omadm.Session.{
  DmSettings, DmOutside, DmResponse, Detail, acks, gets, adds_replaces, record_failures,
  next_message,
}
use auto_configuration_serve.Omadm.Session.Packages.{
  remainder_of, start_package, first_message, start_phase,
}
use auto_configuration_serve.Omadm.Session.Phases.{
  configuration_values, handle_init, handle_devinfo, handle_finish, last_package, dispatch, uri_of,
}
use auto_configuration_serve.Omadm.Session.Partial.{IsStart}

module _ (settings : DmSettings) (outside : DmOutside) (tree : List MoNode)
    (json_size : List Row → ℕ) (binary : Bool) (payload : Bytes) (store : MemoryStore)
    (message : SyncMlMessage) where
  -- A remainder to store is of the session and of its phase.
  abbrev IsOwn : DmSession → Option DmPendingPackage → Type 0
  IsOwn session pending =
      (pending ≡ none)
      ⊎ ((p : DmPendingPackage) × (pending ≡ some p)
          × (p.session_id ≡ session.session_id)
          × (p.phase ≡ session.phase))

  remainder_of-IsOwn :
      (session : DmSession) (rest : List Entry) (pending : Option DmPendingPackage)
      → remainder_of settings outside tree json_size binary payload store session rest ≡ ok pending
      → IsOwn session pending
  unfolding remainder_of
  remainder_of-IsOwn session [] pending e = inl (ground arith)
  remainder_of-IsOwn session (x ∷ xs) pending e =
      elim (Result-cases (to_stored json_size (x ∷ xs))) [
        | inl (failure, failed) ↦ absurd (ground arith)
        | inr (rows, written) ↦ inr (
          record {
            session_id = session.session_id;
            phase = session.phase;
            entries = rows;
            messages = 1;
            expires_at = session.expires_at;
          },
          ground arith,
          refl,
          refl,
        )
      ]

  start_package-IsOwn :
      (session : DmSession) (queue : List Entry) (body : Bytes) (left : ℕ)
      (pending : Option DmPendingPackage)
      → start_package settings outside tree json_size binary payload store message session queue
        ≡ ok (body, left, pending)
      → IsOwn session pending
  unfolding start_package
  start_package-IsOwn session queue body left pending e =
      elim (Result-cases (
        next_message settings outside tree binary payload message session queue
          (min 1 (length queue)))) [
            | inl (x, failed) ↦ absurd (ground arith)
            | inr ((first, rest), sent) ↦
                elim (Result-cases (
                  remainder_of settings outside tree json_size binary payload store session rest)) [
                    | inl (x, failed) ↦ absurd (ground arith)
                    | inr (kept, remains) ↦ remainder_of-IsOwn session rest pending (ground arith)
                  ]
          ]

  first_message-IsStart :
      (session s : DmSession) (stale metric : String) (detail : Detail)
      (r : Result PackageError (Bytes × ℕ × Option DmPendingPackage)) (changes : DmChanges)
      (outcome : DmResponse)
      → first_message settings outside tree json_size binary payload store message session stale
          metric detail r
        ≡ ok (changes, outcome)
      → changes.session ≡ some s
      → ((body : Bytes) (left : ℕ) (pending : Option DmPendingPackage)
          → r ≡ ok (body, left, pending)
          → IsOwn session pending)
      → IsStart changes s stale
  unfolding first_message
  first_message-IsStart session s stale metric detail (raise x) changes outcome e stored own =
      absurd (ground arith)
  first_message-IsStart session s stale metric detail (ok (body, left, pending)) changes outcome e
        stored own =
      let same : session ≡ s = ground arith in
      let kept : pending ≡ changes.pending = ground arith in
      record {
        saved = stored;
        kept_id = ground arith;
        stale_id_lem = ground arith;
        session_last = ground arith;
        remainder_lem =
            subst (λ t. IsOwn t changes.pending) same
              (subst (λ t. IsOwn session t) kept (own body left pending refl));
      }

  last_package-IsStart :
      (session s : DmSession) (stale : String)
      (r : Result PackageError (Bytes × ℕ × Option DmPendingPackage)) (changes : DmChanges)
      (outcome : DmResponse)
      → last_package settings outside tree json_size binary payload store session stale r
        ≡ ok (changes, outcome)
      → changes.session ≡ some s
      → ((body : Bytes) (left : ℕ) (pending : Option DmPendingPackage)
          → r ≡ ok (body, left, pending)
          → IsOwn session pending)
      → IsStart changes s stale
  unfolding last_package
  last_package-IsStart session s stale (raise x) changes outcome e stored own =
      absurd (ground arith)
  last_package-IsStart session s stale (ok (body, left, pending)) changes outcome e stored own =
      elim (Bool-cases (left == 0)) [
        | inl over ↦ absurd (ground arith)
        | inr going_on ↦
            let same : session ≡ s = ground arith in
            let kept : pending ≡ changes.pending = ground arith in
            record {
              saved = stored;
              kept_id = ground arith;
              stale_id_lem = ground arith;
              session_last = ground arith;
              remainder_lem =
                  subst (λ t. IsOwn t changes.pending) same
                    (subst (λ t. IsOwn session t) kept (own body left pending refl));
            }
      ]

  start_phase-IsStart :
      (session s : DmSession) (stale : String) (queue : List Entry) (metric : String)
      (detail : Detail) (changes : DmChanges) (outcome : DmResponse)
      → start_phase settings outside tree json_size binary payload store message session stale queue
          metric detail
        ≡ ok (changes, outcome)
      → changes.session ≡ some s
      → IsStart changes s stale
  unfolding start_phase
  start_phase-IsStart session s stale queue metric detail changes outcome e stored =
      first_message-IsStart session s stale metric detail
        (start_package settings outside tree json_size binary payload store message session queue)
        changes outcome e stored (start_package-IsOwn session queue)

  handle_init-IsStart :
      (session s : DmSession) (stale : String) (changes : DmChanges) (outcome : DmResponse)
      → handle_init settings outside tree json_size binary payload store message session stale
        ≡ ok (changes, outcome)
      → changes.session ≡ some s
      → IsStart changes s stale
  unfolding handle_init
  handle_init-IsStart session s stale changes outcome e stored =
      elim (Bool-cases (not (has_alert message "1201" || has_alert message "1200"))) [
        | inl refused ↦ absurd (ground arith)
        | inr alerted ↦
            start_phase-IsStart (record session { phase = "devinfo" }) s stale
              (acks tree message ++ map (λ u. item "Get" u "" "" "") (device_query_uris tree))
              "DmInventoryRequested" (gets (length (device_query_uris tree))) changes outcome
              (ground arith) stored
      ]

  handle_devinfo-IsStart :
      (session s : DmSession) (stale : String) (changes : DmChanges) (outcome : DmResponse)
      → handle_devinfo settings outside tree json_size binary payload store message session stale
        ≡ ok (changes, outcome)
      → changes.session ≡ some s
      → IsStart changes s stale
  unfolding handle_devinfo
  handle_devinfo-IsStart session s stale changes outcome e stored =
      let values =
        configuration_values settings outside tree json_size binary payload store session in
      let interiors = interior_nodes_for tree (map uri_of values) in
      start_phase-IsStart (record session { phase = "configure" }) s stale
        (acks tree message ++ (map (λ u. item "Add" u "" "node" "node") interiors ++ values))
        "DmConfigPushed" (adds_replaces (length interiors) (length values)) changes outcome e stored

  handle_finish-IsStart :
      (session s : DmSession) (stale : String) (changes : DmChanges) (outcome : DmResponse)
      → handle_finish settings outside tree json_size binary payload store message session stale
        ≡ ok (changes, outcome)
      → changes.session ≡ some s
      → IsStart changes s stale
  unfolding handle_finish
  handle_finish-IsStart session s stale changes outcome e stored =
      let session' = record (record_failures message session) { phase = "done" } in
      last_package-IsStart session' s stale
        (start_package settings outside tree json_size binary payload store message session'
          (acks tree message))
        changes outcome e stored (start_package-IsOwn session' (acks tree message))

  pub dispatch-IsStart :
      (session s : DmSession) (stale : String) (changes : DmChanges) (outcome : DmResponse)
      → dispatch settings outside tree json_size binary payload store message session none stale
        ≡ ok (changes, outcome)
      → changes.session ≡ some s
      → has_alert message "1223" ≡ false
      → has_alert message "1226" ≡ false
      → IsStart changes s stale
  unfolding dispatch
  dispatch-IsStart session s stale changes outcome e stored stays goes =
      elim (Bool-cases (str_eq session.phase "init")) [
        | inl first ↦ handle_init-IsStart session s stale changes outcome (ground arith) stored
        | inr later ↦ elim (Bool-cases (str_eq session.phase "devinfo")) [
          | inl second ↦
              handle_devinfo-IsStart session s stale changes outcome (ground arith) stored
          | inr last ↦ handle_finish-IsStart session s stale changes outcome (ground arith) stored
        ]
      ]
