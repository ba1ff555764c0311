-- ===== src/Omadm/Session/Phases.antt =====
-- src/acs/protocol/omadm/session.py: `_handle_init`, `_handle_devinfo`, `_handle_finish` and
-- `_continue_package`, and which of them a message gets.
use auto_configuration_serve.Prelude.{
  ℕ, ◌+◌, String, Bool, true, false, Option, none, some, List, [], ◌∷◌, ◌++◌, map, truthy, str_eq,
  length, not, ◌||◌, ◌==◌, Result, leb, ok, raise, if◌then◌else◌,
}
use auto_configuration_serve.Prelude.Int.{pos}
use auto_configuration_serve.Prelude.Dict
use auto_configuration_serve.Models.{DmSession, DmPendingPackage, Subscriber}
use auto_configuration_serve.Store.{MemoryStore, get_subscriber}
use auto_configuration_serve.Package.{
  PackageError, Bytes, Entry, item, to_stored, from_stored, max_messages_per_package, Row,
}
use auto_configuration_serve.Omadm.Message.{SyncMlMessage, has_alert}
use auto_configuration_serve.Omadm.MoTree.{
  MoNode, device_query_uris, server_nodes, interior_nodes_for,
}
use auto_configuration_serve.Omadm.Changes.{DmChanges, no_changes}
use auto_configuration_serve.Omadm.Session.{
  DmSettings, DmOutside, RenderContext, from_package, says, gets, adds_replaces, response, acks,
  record_failures, next_message, absorb_device_values,
}
use auto_configuration_serve.Omadm.Session.Packages.{
  Handled, continued, close, start_package, end_session, start_phase,
}

abbrev features_of : Option Subscriber → List String
features_of none = "rcs" ∷ "volte" ∷ []
features_of (some s) = if s.volte_enabled then "rcs" ∷ "volte" ∷ [] else "rcs" ∷ []

abbrev context_of : Option Subscriber → DmSession → RenderContext
context_of none session = record {
  imsi = if truthy session.imsi then session.imsi else "001010000000000";
  msisdn = "";
  device_id = session.device_id;
  provisioning_version = pos 0;
}
context_of (some s) session = record {
  imsi = s.imsi;
  msisdn = s.msisdn;
  device_id = session.device_id;
  provisioning_version = s.provisioning_version;
}

abbrev overrides_of : Option Subscriber → Dict.Dict String
overrides_of none = Dict.empty
overrides_of (some s) = s.overrides

abbrev pub uri_of : Entry → String
uri_of (item command uri value fmt type_) = uri
uri_of other = ""

module _ (settings : DmSettings) (outside : DmOutside) (tree : List MoNode)
    (json_size : List Row → ℕ) (binary : Bool) (payload : Bytes) (store : MemoryStore) where
  unfoldable pub handle_init : SyncMlMessage → DmSession → (stale : String) → Handled
  unfolding start_phase
  handle_init message session stale =
      if not (has_alert message "1201" || has_alert message "1200")
      then ok (
        record no_changes { delete_pending_id = stale },
        response 400 [] "DmProtocolError" (says "first package must carry Alert 1200 or 1201")
            false,
      )
      else (let uris = device_query_uris tree in
          start_phase settings outside tree json_size binary payload store message
            (record session { phase = "devinfo" }) stale
            (acks tree message ++ map (λ u. item "Get" u "" "" "") uris) "DmInventoryRequested"
            (gets (length uris)))

  -- The `Replace` items of the nodes, but for those whose text is empty.
  unfoldable pub rendered : Option Subscriber → DmSession → List MoNode → List Entry
  rendered subscriber session [] = []
  rendered subscriber session (n ∷ ns) =
      let text = outside.render n (context_of subscriber session) (overrides_of subscriber) in
      let rest = rendered subscriber session ns in
      if truthy text then item "Replace" n.uri text n.format n.type_ ∷ rest else rest

  unfoldable pub configuration_values : DmSession → List Entry
  unfolding rendered
  configuration_values session =
      let subscriber = if truthy session.imsi then get_subscriber store session.imsi else none in
      rendered subscriber session (server_nodes (features_of subscriber) tree)

  unfoldable pub handle_devinfo : SyncMlMessage → DmSession → (stale : String) → Handled
  unfolding start_phase configuration_values
  handle_devinfo message session stale =
      let values = configuration_values session in
      let interiors = interior_nodes_for tree (map uri_of values) in
      start_phase settings outside tree json_size binary payload store message
        (record session { phase = "configure" }) stale
        (acks tree message ++ (map (λ u. item "Add" u "" "node" "node") interiors ++ values))
        "DmConfigPushed" (adds_replaces (length interiors) (length values))

  -- The changes and the answer when the last package starts.
  unfoldable pub last_package :
      DmSession
      → (stale : String) → Result PackageError (Bytes × ℕ × Option DmPendingPackage)
      → Handled
  last_package session stale (raise x) = raise (from_package x)
  last_package session stale (ok (body, remaining, pending)) = ok (
      if remaining == 0
      then (
        record no_changes {
          pending = pending;
          delete_pending_id = stale;
          delete_session_id = session.session_id;
        },
        close settings outside tree json_size binary payload store body session,
      )
      else (
        record no_changes { session = some session; pending = pending; delete_pending_id = stale },
        continued settings outside tree json_size binary payload store body remaining,
      ))

  unfoldable pub handle_finish : SyncMlMessage → DmSession → (stale : String) → Handled
  unfolding start_package last_package
  handle_finish message session stale =
      let session' = record (record_failures message session) { phase = "done" } in
      last_package session' stale (
        start_package settings outside tree json_size binary payload store message session'
          (acks tree message))

  -- The changes and the answer when a package goes on, by what is left of it.
  unfoldable pub continuation :
      DmSession → DmPendingPackage → DmChanges → Bytes → List Entry → Handled
  unfolding continued close
  continuation session pending changes body [] = ok (
      if str_eq session.phase "done"
      then (
        record changes {
          delete_pending_id = session.session_id;
          delete_session_id = session.session_id;
        },
        close settings outside tree json_size binary payload store body session,
      )
      else (
        record changes { delete_pending_id = session.session_id; session = some session },
        continued settings outside tree json_size binary payload store body 0,
      ))
  continuation session pending changes body (e ∷ es) = elim (to_stored json_size (e ∷ es)) [
    | raise x ↦ raise (from_package x)
    | ok rows ↦ ok (
      record changes {
        pending = some (record pending { entries = rows; messages = pending.messages + 1 });
        session = some session;
      },
      continued settings outside tree json_size binary payload store body (length (e ∷ es)),
    )
  ]

  unfoldable pub continue_package : SyncMlMessage → DmSession → DmPendingPackage → Handled
  unfolding continuation
  continue_package message session pending =
      if leb max_messages_per_package pending.messages
      then ok (
        record no_changes { delete_session_id = session.session_id },
        response 413 [] "DmTooLarge" (says "too_many_messages") true,
      )
      else (let changes = record no_changes {
        device = some (absorb_device_values settings outside tree store message session);
        progress_in_remainder = true;
      } in
          let session' =
            if str_eq session.phase "configure" || str_eq session.phase "done"
            then record_failures message session
            else session in
          elim (from_stored pending.entries) [
            | raise x ↦ raise (from_package x)
            | ok queued ↦
                elim (next_message settings outside tree binary payload message session'
                  (acks tree message ++ queued) (length (acks tree message) + 1)) [
                    | raise x ↦ raise (from_package x)
                    | ok (body, rest) ↦ continuation session' pending changes body rest
                  ]
          ])

  -- What an authenticated message is answered with, by its alerts, the remainder and the phase.
  unfoldable pub dispatch :
      SyncMlMessage → DmSession → Option DmPendingPackage → (stale : String) → Handled
  unfolding end_session continue_package handle_init handle_devinfo handle_finish
  dispatch message session pending stale =
      if has_alert message "1223"
      then end_session settings outside tree json_size binary payload store message session stale
          "DmSessionAborted" "client_abort"
      else if has_alert message "1226"
      then end_session settings outside tree json_size binary payload store message session stale
          "DmSessionEnded" "client_ended"
      else elim pending [
        | some p ↦ continue_package message session p
        | none ↦
            if str_eq session.phase "init"
            then handle_init message session stale
            else if str_eq session.phase "devinfo"
            then handle_devinfo message session stale
            else handle_finish message session stale
      ]
