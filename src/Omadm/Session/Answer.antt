-- ===== src/Omadm/Session/Answer.antt =====
-- src/acs/protocol/omadm/session.py: `_handle_message` and `handle`.
use auto_configuration_serve.Prelude.{
  ℕ, ◌+◌, ◌*◌, String, Bool, true, false, Option, none, some, List, [], truthy, str_eq, length, not,
  ◌&&◌, ◌||◌, ◌==◌, ltb, Result, ok, raise, if◌then◌else◌,
}
use auto_configuration_serve.Prelude.Texts.{strip, before_code, contains, lower}
use auto_configuration_serve.Models.{DmSession, DmPendingPackage}
use auto_configuration_serve.Store.{MemoryStore, get_dm_session, get_dm_pending}
use auto_configuration_serve.Package.{
  Bytes, message_too_large, package_too_large, encoding_error, max_acknowledged_commands, Row,
}
use auto_configuration_serve.Omadm.Message.{SyncMlMessage}
use auto_configuration_serve.Omadm.Auth.{DmAuthResult}
use auto_configuration_serve.Omadm.MoTree.{MoNode}
use auto_configuration_serve.Omadm.Changes.{no_changes, commit}
use auto_configuration_serve.Omadm.Session.{
  DmSettings, DmOutside, SessionError, challenge_too_large, from_package, says, DmResponse,
  response, session_key, device_id_from, acks, authenticate_message, content_type_wbxml,
}
use auto_configuration_serve.Omadm.Session.Packages.{Handled, unauthorised}
use auto_configuration_serve.Omadm.Session.Phases.{dispatch}

-- A remainder of another phase is stale: it is not used, and its session's is to be deleted.
abbrev pub usable : DmSession → Option DmPendingPackage → Option DmPendingPackage
usable session none = none
usable session (some p) = if str_eq p.phase session.phase then some p else none

abbrev pub stale_id : DmSession → Option DmPendingPackage → String
stale_id session none = ""
stale_id session (some p) = if str_eq p.phase session.phase then "" else session.session_id

module _ (settings : DmSettings) (outside : DmOutside) (tree : List MoNode)
    (json_size : List Row → ℕ) (binary : Bool) (payload : Bytes) where
  unfoldable pub new_session : String → String → DmSession
  new_session key device_id = record {
    session_id = key;
    device_id = device_id;
    wire_session_id = "";
    imsi = "";
    phase = "init";
    last_msg_id = 0;
    server_cmd_id = 0;
    authenticated = false;
    nonce = "";
    reported_failures = 0;
    expires_at = outside.clock + settings.dm_session_ttl_seconds;
  }

  -- The session that a message finds, and the store after the read.
  unfoldable pub session_found : MemoryStore → SyncMlMessage → MemoryStore × DmSession
  unfolding new_session
  session_found store message =
      let device_id = device_id_from message.header.source in
      let key = session_key device_id message.header.session_id in
      let (store', known) = get_dm_session store outside.clock key in
      let session = elim known as (λ _. DmSession) [
        | some s ↦ s
        | none ↦ new_session key device_id
      ] in
      (
        store',
        record session {
          wire_session_id = message.header.session_id;
          device_id = if truthy device_id then device_id else session.device_id;
        },
      )

  abbrev pub signed_in : SyncMlMessage → DmSession → DmAuthResult → DmSession
  signed_in message session auth = record session {
    authenticated = true;
    imsi = if truthy auth.username then auth.username else session.imsi;
    last_msg_id = elim message.header.msg_number [ none ↦ 0 | some n ↦ n ];
  }

  -- An authenticated message: the remainder is read only here.
  unfoldable pub handle_authenticated :
      MemoryStore → SyncMlMessage → DmSession → MemoryStore × Handled
  unfolding dispatch
  handle_authenticated store message session =
      if ltb max_acknowledged_commands (length (acks tree message))
      then (store, ok (no_changes, response 413 [] "DmTooLarge" (says "too_many_commands") false))
      else (let (store', found) = get_dm_pending store outside.clock session.session_id in
          (
            store',
            dispatch settings outside tree json_size binary payload store' message session
                (usable session found) (stale_id session found),
          ))

  -- The message of a session that was found, from its authentication on.
  unfoldable pub handle_found : MemoryStore × DmSession → SyncMlMessage → MemoryStore × Handled
  unfolding handle_authenticated unauthorised
  handle_found (store, session) message =
      let auth = authenticate_message settings outside tree store message session in
      if not auth.authenticated
      then (
        store,
        unauthorised settings outside tree json_size binary payload store message
            (record session { nonce = auth.challenge_nonce; authenticated = false }) auth,
      )
      else handle_authenticated store message (signed_in message session auth)

  unfoldable pub handle_message : MemoryStore → SyncMlMessage → MemoryStore × Handled
  unfolding session_found handle_found
  handle_message store message =
      if not (truthy message.header.session_id) || not (truthy message.header.msg_id)
      then (
        store,
        ok (
          no_changes,
          response 400 [] "DmProtocolError" (says "missing SessionID or MsgID") false,
        ),
      )
      else handle_found (session_found store message) message

  -- The exceptions that `handle` answers; the others leave as `raise`.
  unfoldable pub answer_error : SessionError → Result SessionError DmResponse
  answer_error (from_package encoding_error) =
      ok (response 500 [] "DmEncodingError" (says "response_encoding_failed") false)
  answer_error (from_package (package_too_large size)) =
      ok (response 413 [] "DmTooLarge" (says "package_too_large") false)
  answer_error (challenge_too_large size limit) =
      ok (response 400 [] "DmChallengeTooLarge" (says "challenge_exceeds_max_msg_size") false)
  answer_error (from_package (message_too_large size limit)) =
      ok (response 400 [] "DmMessageTooLarge" (says "message_exceeds_max_msg_size") false)
  answer_error (from_package other) = raise (from_package other)

  unfoldable pub respond : MemoryStore × Handled → MemoryStore × Result SessionError DmResponse
  unfolding answer_error
  respond (store, raise e) = (store, answer_error e)
  respond (store, ok (changes, outcome)) = (
    commit store changes,
    ok (
        if binary && not (length outcome.body == 0)
        then record outcome { content_type = content_type_wbxml }
        else outcome),
  )

-- `content_type.partition(";")[0].strip().lower()`
unfoldable pub media_type : String → String
media_type content_type = lower (strip (before_code 59 content_type))

module _ (settings : DmSettings) (outside : DmOutside) (tree : List MoNode)
    (json_size : List Row → ℕ) where
  unfoldable pub handle :
      MemoryStore → Bytes → (content_type : String) → MemoryStore × Result SessionError DmResponse
  unfolding respond handle_message media_type
  handle store payload content_type =
      let binary = str_eq (media_type content_type) content_type_wbxml in
      if not settings.dm_enabled
      then (store, ok (response 404 [] "DmDisabled" (says "dm_disabled") false))
      else if ltb (settings.dm_max_msg_size * 4) (length payload)
      then (store, ok (response 413 [] "DmTooLarge" (says "payload_too_large") false))
      else if contains (media_type content_type) "wbxml" && not binary
      then (
        store,
        ok (response 415 [] "DmUnsupportedEncoding" (says "unsupported_content_type") false),
      )
      else elim (outside.parse binary payload) [
        | raise text ↦ (store, ok (response 400 [] "DmProtocolError" (says text) false))
        | ok message ↦
            respond settings outside tree json_size binary payload
              (handle_message settings outside tree json_size binary payload store message)
      ]
