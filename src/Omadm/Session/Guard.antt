-- ===== src/Omadm/Session/Guard.antt =====
-- src/acs/protocol/omadm/session.py: what a message that is not authenticated changes, and what a
-- credential that was accepted is worth afterwards.
use auto_configuration_serve.Prelude.{
  ℕ, ◌≡◌, refl, String, Bool, true, false, Option, some, List, [], truthy, str_eq, Result, ok,
  raise, if◌then◌else◌, inl, inr, ◌⊎◌,
}
use auto_configuration_serve.Models.{DmSession, DmPendingPackage}
use auto_configuration_serve.Store.{MemoryStore, put_dm_session}
use auto_configuration_serve.Package.{
  Bytes, Row, Entry, PackageError, message_too_large, package_too_large, unknown_command, bad_row,
  encoding_error, out_of_rounds,
}
use auto_configuration_serve.Omadm.Message.{Credentials, SyncMlMessage, auth_basic, auth_md5}
use auto_configuration_serve.Omadm.Auth.{DmAuthResult}
use auto_configuration_serve.Omadm.MoTree.{MoNode}
use auto_configuration_serve.Omadm.Changes.{
  DmChanges, no_changes, commit, commit_writes, perform, save_progress, save_remainder, write,
}
use auto_configuration_serve.Omadm.Session.{
  DmSettings, DmOutside, DmResponse, SessionError, challenge_too_large, from_package, response,
  says, authenticate_message, next_message_with,
}
use auto_configuration_serve.Omadm.Session.Packages.{Handled, unauthorised, challenged}
use auto_configuration_serve.Omadm.Session.Phases.{dispatch}
use auto_configuration_serve.Omadm.Session.Answer.{
  session_found, signed_in, handle_message, respond, handle_found,
}
use auto_configuration_serve.Omadm.Session.Steps.{dispatch_steps}
use auto_configuration_serve.Omadm.Session.SignIn.{authenticate_message_md5}

module _ (settings : DmSettings) (outside : DmOutside) (tree : List MoNode)
    (json_size : List Row → ℕ) (binary : Bool) (payload : Bytes) where
  -- The changes are none, or the session alone.
  abbrev OnlySession : DmSession → Handled → Type 0
  OnlySession session h =
      ((x : SessionError) × (h ≡ raise x))
      ⊎ ((outcome : DmResponse) × (h ≡ ok (record no_changes { session = some session }, outcome)))

  challenged-OnlySession :
      (store : MemoryStore) (session : DmSession) (auth : DmAuthResult)
      (r : Result PackageError (Bytes × List Entry))
      → OnlySession session
          (challenged settings outside tree json_size binary payload store session auth r)
  unfolding challenged
  challenged-OnlySession store session auth (raise (message_too_large size limit)) =
      inl (challenge_too_large size limit, refl)
  challenged-OnlySession store session auth (raise (package_too_large size)) =
      inl (from_package (package_too_large size), refl)
  challenged-OnlySession store session auth (raise (unknown_command c)) =
      inl (from_package (unknown_command c), refl)
  challenged-OnlySession store session auth (raise bad_row) = inl (from_package bad_row, refl)
  challenged-OnlySession store session auth (raise encoding_error) =
      inl (from_package encoding_error, refl)
  challenged-OnlySession store session auth (raise out_of_rounds) =
      inl (from_package out_of_rounds, refl)
  challenged-OnlySession store session auth (ok (body, rest)) =
      inr (response 200 body "DmAuthRejected" (says auth.reason) false, refl)

  unauthorised-OnlySession :
      (store : MemoryStore) (message : SyncMlMessage) (session : DmSession) (auth : DmAuthResult)
      → OnlySession session
          (unauthorised settings outside tree json_size binary payload store message session auth)
  unfolding unauthorised
  unauthorised-OnlySession store message session auth = challenged-OnlySession store session auth (
      next_message_with settings outside tree binary payload
        (
          if str_eq auth.reason "missing_credentials" then "407" else "401",
          some (
            if str_eq settings.dm_auth_scheme "md5" then auth_md5 else auth_basic,
            auth.challenge_nonce,
          ),
        )
        message session [] 0)

  only_session :
      (store : MemoryStore) (session : DmSession) (h : Handled)
      → OnlySession session h
      → ((respond settings outside tree json_size binary payload (store, h)).0 ≡ store)
        ⊎ ((respond settings outside tree json_size binary payload (store, h)).0
            ≡ put_dm_session store session)
  unfolding respond commit commit_writes perform save_progress save_remainder write
  only_session store session h (inl (x, e)) = inl (rw e refl)
  only_session store session h (inr (outcome, e)) = inr (rw e refl)

  handle_found_unauthenticated :
      (store : MemoryStore) (message : SyncMlMessage) (session : DmSession)
      → (authenticate_message settings outside tree store message session).authenticated ≡ false
      → handle_found settings outside tree json_size binary payload (store, session) message ≡ (
        store,
        unauthorised settings outside tree json_size binary payload store message
            (record session {
              nonce =
                  (authenticate_message settings outside tree store message
                    session).challenge_nonce;
              authenticated = false;
            })
            (authenticate_message settings outside tree store message session),
      )
  unfolding handle_found
  handle_found_unauthenticated store message session refused = rw refused refl

  handle_message_found :
      (store : MemoryStore) (message : SyncMlMessage)
      → truthy message.header.session_id ≡ true
      → truthy message.header.msg_id ≡ true
      → handle_message settings outside tree json_size binary payload store message
        ≡ handle_found settings outside tree json_size binary payload
            (session_found settings outside tree json_size binary payload store message)
            message
  unfolding handle_message
  handle_message_found store message has_session has_msg = rw (has_session, has_msg) refl

  -- A message that carries its ids and is not authenticated changes nothing but its own session:
  -- what is stored is the store after the session was read, or that with the session of the
  -- message, signed out and with the nonce of the challenge. No device, no remainder, and no other
  -- session is written, and neither is a session ended.
  pub handle_message_unauthenticated :
      (store found_in : MemoryStore) (message : SyncMlMessage) (session : DmSession)
      → truthy message.header.session_id ≡ true
      → truthy message.header.msg_id ≡ true
      → session_found settings outside tree json_size binary payload store message
        ≡ (found_in, session)
      → (authenticate_message settings outside tree found_in message session).authenticated ≡ false
      → ((respond settings outside tree json_size binary payload
            (handle_message settings outside tree json_size binary payload store message)).0
          ≡ found_in)
        ⊎ ((respond settings outside tree json_size binary payload
              (handle_message settings outside tree json_size binary payload store message)).0
            ≡ put_dm_session found_in (record session {
              nonce =
                  (authenticate_message settings outside tree found_in message
                    session).challenge_nonce;
              authenticated = false;
            }))
  handle_message_unauthenticated store found_in message session has_session has_msg found refused =
      let challenged = record session {
        nonce =
            (authenticate_message settings outside tree found_in message session).challenge_nonce;
        authenticated = false;
      } in
      let auth = authenticate_message settings outside tree found_in message session in
      rw
        (
          handle_message_found store message has_session has_msg,
          found,
          handle_found_unauthenticated found_in message session refused,
        )
        (only_session found_in challenged
          (unauthorised settings outside tree json_size binary payload found_in message challenged
            auth)
          (unauthorised-OnlySession found_in message challenged auth))

  -- An MD5 credential that was accepted is accepted again: when a message with it has been
  -- answered and a session stored, the same credential, for the same name, signs the next message
  -- of that session in. The nonce of a session does not change when a credential is accepted.
  pub md5_credential_accepted_again :
      (store : MemoryStore) (message again : SyncMlMessage) (session : DmSession) (c : Credentials)
      (pending : Option DmPendingPackage) (stale : String) (changes : DmChanges)
      (outcome : DmResponse) (s : DmSession)
      → message.header.credentials ≡ some c
      → str_eq c.type_ auth_md5 ≡ true
      → (authenticate_message settings outside tree store message session).authenticated ≡ true
      → dispatch settings outside tree json_size binary payload store message
          (signed_in settings outside tree json_size binary payload message session
            (authenticate_message settings outside tree store message session))
          pending
          stale
        ≡ ok (changes, outcome)
      → changes.session ≡ some s
      → again.header.credentials ≡ some c
      → again.header.source_name ≡ message.header.source_name
      → truthy message.header.source_name ≡ true
      → str_eq settings.dm_auth_scheme "none" ≡ false
      → (authenticate_message settings outside tree store again s).authenticated ≡ true
  md5_credential_accepted_again store message again session c pending stale changes outcome s given
        typed signed answered stored given_again same_name named scheme =
      let steps =
        dispatch_steps settings outside tree json_size binary payload store message
          (signed_in settings outside tree json_size binary payload message session
            (authenticate_message settings outside tree store message session))
          pending stale changes outcome s answered stored in
      let same : s.nonce ≡ session.nonce = steps.2.nonce in
      let first =
        authenticate_message_md5 settings outside tree store message session c scheme given typed
          named in
      let second =
        authenticate_message_md5 settings outside tree store again s c scheme given_again typed
          (rw same_name named) in
      rw (second, same_name, same, ← first) signed
