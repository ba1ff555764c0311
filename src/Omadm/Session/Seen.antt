-- ===== src/Omadm/Session/Seen.antt =====
-- src/acs/protocol/omadm/session.py: on what of the store the start of a package depends.
use auto_configuration_serve.Prelude.{
  ℕ, ◌≡◌, refl, String, Bool, false, Option, none, List, ◌++◌, map, length, str_eq, Result, ok,
  raise, Bool-cases, inl, inr, ◌==◌, not, ◌||◌,
}
use auto_configuration_serve.Models.{DmSession, DmPendingPackage}
use auto_configuration_serve.Store.{MemoryStore, get_subscriber}
use auto_configuration_serve.Package.{Bytes, Entry, Row, PackageError, item}
use auto_configuration_serve.Omadm.Message.{SyncMlMessage, has_alert}
use auto_configuration_serve.Omadm.MoTree.{MoNode, device_query_uris, interior_nodes_for}
use auto_configuration_serve.Omadm.Session.{
  DmSettings, DmOutside, DmResponse, SessionError, Detail, acks, gets, adds_replaces,
  record_failures,
}
use auto_configuration_serve.Omadm.Session.Packages.{
  Handled, continued, close, start_package, first_message, start_phase,
}
use auto_configuration_serve.Omadm.Session.Phases.{
  configuration_values, handle_init, handle_devinfo, handle_finish, last_package, dispatch, uri_of,
}

-- The parts of a result that the next message depends on, and the answer itself.
abbrev pub Seen : Type 0
Seen = Result SessionError (Option DmSession × Option DmPendingPackage × String × DmResponse)

unfoldable pub seen : Handled → Seen
seen (raise x) = raise x
seen (ok (changes, outcome)) =
    ok (changes.session, changes.pending, changes.delete_session_id, outcome)

module _ (settings : DmSettings) (outside : DmOutside) (tree : List MoNode)
    (json_size : List Row → ℕ) (binary : Bool) (payload : Bytes) (a b : MemoryStore)
    (message : SyncMlMessage) where
  first_message-seen :
      (session : DmSession) (i j metric : String) (detail : Detail)
      (r : Result PackageError (Bytes × ℕ × Option DmPendingPackage))
      → seen (
          first_message settings outside tree json_size binary payload a message session i metric
            detail r)
        ≡ seen (
            first_message settings outside tree json_size binary payload b message session j metric
              detail r)
  unfolding first_message seen
  first_message-seen session i j metric detail (raise x) = refl
  first_message-seen session i j metric detail (ok (body, remaining, pending)) = refl

  start_phase-seen :
      (session : DmSession) (i j : String) (queue : List Entry) (metric : String) (detail : Detail)
      → seen (
          start_phase settings outside tree json_size binary payload a message session i queue
            metric detail)
        ≡ seen (
            start_phase settings outside tree json_size binary payload b message session j queue
              metric detail)
  unfolding start_phase start_package
  start_phase-seen session i j queue metric detail =
      first_message-seen session i j metric detail
        (start_package settings outside tree json_size binary payload a message session queue)

  handle_init-seen :
      (session : DmSession) (i j : String)
      → seen (handle_init settings outside tree json_size binary payload a message session i)
        ≡ seen (handle_init settings outside tree json_size binary payload b message session j)
  unfolding handle_init seen
  handle_init-seen session i j =
      elim (Bool-cases (not (has_alert message "1201" || has_alert message "1200"))) [
        | inl refused ↦ rw refused refl
        | inr alerted ↦ rw alerted (
            start_phase-seen (record session { phase = "devinfo" }) i j
              (acks tree message ++ map (λ u. item "Get" u "" "" "") (device_query_uris tree))
              "DmInventoryRequested" (gets (length (device_query_uris tree))))
      ]

  configuration_values-subscribers :
      (session : DmSession)
      → a.subscribers ≡ b.subscribers
      → configuration_values settings outside tree json_size binary payload a session
        ≡ configuration_values settings outside tree json_size binary payload b session
  unfolding configuration_values get_subscriber
  configuration_values-subscribers session same = rw same refl

  handle_devinfo-seen :
      (session : DmSession) (i j : String)
      → a.subscribers ≡ b.subscribers
      → seen (handle_devinfo settings outside tree json_size binary payload a message session i)
        ≡ seen (handle_devinfo settings outside tree json_size binary payload b message session j)
  unfolding handle_devinfo
  handle_devinfo-seen session i j same =
      let values = configuration_values settings outside tree json_size binary payload b session in
      let interiors = interior_nodes_for tree (map uri_of values) in
      rw (configuration_values-subscribers session same) (
        start_phase-seen (record session { phase = "configure" }) i j
          (acks tree message ++ (map (λ u. item "Add" u "" "node" "node") interiors ++ values))
          "DmConfigPushed" (adds_replaces (length interiors) (length values)))

  last_package-seen :
      (session : DmSession) (i j : String)
      (r : Result PackageError (Bytes × ℕ × Option DmPendingPackage))
      → seen (last_package settings outside tree json_size binary payload a session i r)
        ≡ seen (last_package settings outside tree json_size binary payload b session j r)
  unfolding last_package seen continued close
  last_package-seen session i j (raise x) = refl
  last_package-seen session i j (ok (body, remaining, pending)) =
      elim (Bool-cases (remaining == 0)) [
        | inl none_left ↦ rw none_left refl
        | inr left ↦ rw left refl
      ]

  handle_finish-seen :
      (session : DmSession) (i j : String)
      → seen (handle_finish settings outside tree json_size binary payload a message session i)
        ≡ seen (handle_finish settings outside tree json_size binary payload b message session j)
  unfolding handle_finish start_package
  handle_finish-seen session i j =
      let session' = record (record_failures message session) { phase = "done" } in
      last_package-seen session' i j (
        start_package settings outside tree json_size binary payload a message session'
          (acks tree message))

  -- What a message without a remainder is answered with does not depend on the devices, the
  -- remainders and the sessions of the store.
  pub dispatch-seen :
      (session : DmSession) (i j : String)
      → a.subscribers ≡ b.subscribers
      → has_alert message "1223" ≡ false
      → has_alert message "1226" ≡ false
      → seen (dispatch settings outside tree json_size binary payload a message session none i)
        ≡ seen (dispatch settings outside tree json_size binary payload b message session none j)
  unfolding dispatch
  dispatch-seen session i j same open_a open_b = elim (Bool-cases (str_eq session.phase "init")) [
    | inl first ↦ rw (open_a, open_b, first) (handle_init-seen session i j)
    | inr later ↦ elim (Bool-cases (str_eq session.phase "devinfo")) [
      | inl second ↦ rw (open_a, open_b, later, second) (handle_devinfo-seen session i j same)
      | inr last ↦ rw (open_a, open_b, later, last) (handle_finish-seen session i j)
    ]
  ]
