-- ===== src/Omadm/Session/Packages.antt =====
-- src/acs/protocol/omadm/session.py: the start and the end of a package, the challenge, and the
-- changes that go with each. The result of a handler is the changes to commit with the answer, or
-- what it raised.
use auto_configuration_serve.Prelude.{
  ℕ, String, Bool, true, false, Option, none, some, List, [], ◌∷◌, str_eq, length, ◌==◌, min,
  Result, ok, raise, if◌then◌else◌,
}
use auto_configuration_serve.Models.{DmSession, DmPendingPackage}
use auto_configuration_serve.Store.{MemoryStore}
use auto_configuration_serve.Package.{Bytes, Entry, PackageError, message_too_large, to_stored, Row}
use auto_configuration_serve.Omadm.Message.{SyncMlMessage, auth_basic, auth_md5}
use auto_configuration_serve.Omadm.Auth.{DmAuthResult}
use auto_configuration_serve.Omadm.MoTree.{MoNode}
use auto_configuration_serve.Omadm.Changes.{DmChanges, no_changes}
use auto_configuration_serve.Omadm.Session.{
  DmSettings, DmOutside, SessionError, challenge_too_large, from_package, Detail, says,
  pending_entries, failures, DmResponse, response, acks, next_message, next_message_with,
  absorb_device_values,
}

abbrev pub Handled : Type 0
Handled = Result SessionError (DmChanges × DmResponse)

module _ (settings : DmSettings) (outside : DmOutside) (tree : List MoNode)
    (json_size : List Row → ℕ) (binary : Bool) (payload : Bytes) (store : MemoryStore) where
  -- `len` of what is left.
  unfoldable pub continued : Bytes → ℕ → DmResponse
  continued body remaining =
      response 200 body "DmPackageContinued" (pending_entries remaining) false

  unfoldable pub close : Bytes → DmSession → DmResponse
  close body session =
      response 200 body
        (if session.reported_failures == 0
          then "DmSessionComplete"
          else "DmSessionCompleteWithErrors")
        (failures session.reported_failures) true

  -- The remainder of a package that was started, if there is one.
  unfoldable pub remainder_of :
      DmSession → List Entry → Result PackageError (Option DmPendingPackage)
  remainder_of session [] = ok none
  remainder_of session (e ∷ es) = elim (to_stored json_size (e ∷ es)) [
    | raise x ↦ raise x
    | ok rows ↦ ok (
        some (record {
          session_id = session.session_id;
          phase = session.phase;
          entries = rows;
          messages = 1;
          expires_at = session.expires_at;
        }))
  ]

  -- `_start_package`: the body, the entries left, and the remainder to store.
  unfoldable pub start_package :
      SyncMlMessage
      → DmSession
      → List Entry
      → Result PackageError (Bytes × ℕ × Option DmPendingPackage)
  unfolding remainder_of
  start_package message session queue =
      elim (next_message settings outside tree binary payload message session queue
        (min 1 (length queue))) [
          | raise x ↦ raise x
          | ok (body, rest) ↦ elim (remainder_of session rest) [
            | raise x ↦ raise x
            | ok pending ↦ ok (body, length rest, pending)
          ]
        ]

  -- The changes and the answer of `_unauthorised`, by the message that it builds.
  unfoldable pub challenged :
      DmSession → DmAuthResult → Result PackageError (Bytes × List Entry) → Handled
  challenged session auth (raise (message_too_large size limit)) =
      raise (challenge_too_large size limit)
  challenged session auth (raise x) = raise (from_package x)
  challenged session auth (ok (body, rest)) = ok (
    record no_changes { session = some session },
    response 200 body "DmAuthRejected" (says auth.reason) false,
  )

  unfoldable pub unauthorised : SyncMlMessage → DmSession → DmAuthResult → Handled
  unfolding challenged
  unauthorised message session auth =
      let scheme = if str_eq settings.dm_auth_scheme "md5" then auth_md5 else auth_basic in
      let code = if str_eq auth.reason "missing_credentials" then "407" else "401" in
      challenged session auth (
        next_message_with settings outside tree binary payload
          (code, some (scheme, auth.challenge_nonce)) message session [] 0)

  -- `_last_message` and the end of the session; a remainder found stale is dropped with it.
  unfoldable pub end_session :
      SyncMlMessage → DmSession → (stale : String) → (metric detail : String) → Handled
  end_session message session stale metric detail =
      elim (next_message settings outside tree binary payload message session (acks tree message)
        (length (acks tree message))) [
          | raise x ↦ raise (from_package x)
          | ok (body, rest) ↦ ok (
            record no_changes { delete_pending_id = stale; delete_session_id = session.session_id },
            response 200 body metric (says detail) true,
          )
        ]

  -- The changes and the answer when a package starts, by its first message and what is left.
  unfoldable pub first_message :
      SyncMlMessage
      → DmSession
      → (stale : String) → (metric : String) → Detail
      → Result PackageError (Bytes × ℕ × Option DmPendingPackage)
      → Handled
  first_message message session stale metric detail (raise x) = raise (from_package x)
  first_message message session stale metric detail (ok (body, remaining, pending)) = ok (
    record no_changes {
      session = some session;
      device = some (absorb_device_values settings outside tree store message session);
      pending = pending;
      delete_pending_id = stale;
    },
    response 200 body metric detail false,
  )

  -- The start of a package in a phase that does not end the session with it.
  unfoldable pub start_phase :
      SyncMlMessage
      → DmSession
      → (stale : String) → List Entry
      → (metric : String) → Detail
      → Handled
  unfolding start_package first_message
  start_phase message session stale queue metric detail =
      first_message message session stale metric detail (start_package message session queue)
