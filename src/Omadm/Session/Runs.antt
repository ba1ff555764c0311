-- ===== src/Omadm/Session/Runs.antt =====
-- Runs of the session code at a concrete device, and its theorems there. The encoder of the runs
-- writes one byte for each call of the builder, and the digest leaves a text as it is.
use auto_configuration_serve.Prelude.{
  ℕ, ◌+◌, ◌≡◌, refl, List, [], ◌∷◌, map, length, ok, raise, arith, none, some, true, false, drop,
  take, ltb, if◌then◌else◌, ◌≤◌, ◌<◌, ◌++◌, ◌⊎◌,
}
use auto_configuration_serve.Prelude.Int.{pos}
use auto_configuration_serve.Prelude.Dict
use auto_configuration_serve.Prelude.Texts.{strip}
use auto_configuration_serve.Models.{Subscriber, DmSession, DmPendingPackage}
use auto_configuration_serve.Store.{
  MemoryStore, empty_store, put_dm_session, get_subscriber, get_dm_session, get_dm_pending,
}
use auto_configuration_serve.Package.{Entry, Row, item, from_stored, row_of, fill, apply, to_stored}
use auto_configuration_serve.Omadm.Message.{SyncMlMessage, Credentials, auth_md5, has_alert}
use auto_configuration_serve.Omadm.Auth.{authenticate, authenticate_md5}
use auto_configuration_serve.Omadm.MoTree.{MoNode, device_query_uris}
use auto_configuration_serve.Omadm.Changes.{commit_writes, perform, DmChanges, no_changes}
use auto_configuration_serve.Omadm.Session.{
  DmSettings, DmOutside, DmResponse, response, says, acks, max_msg_size, next_message,
  authenticate_message, build_message, header_status,
}
use auto_configuration_serve.Omadm.Session.Packages.{Handled}
use auto_configuration_serve.Omadm.Session.Phases.{continue_package, dispatch}
use auto_configuration_serve.Omadm.Session.Answer.{
  handle_authenticated, session_found, signed_in, handle_message, respond,
}
use auto_configuration_serve.Omadm.Session.Progress.{continue_package_delivers, counted}
use auto_configuration_serve.Omadm.Session.Steps.{dispatch_steps, IsNext}
use auto_configuration_serve.Omadm.Session.SignIn.{IsKnown, authenticate_message_sound}
use auto_configuration_serve.Omadm.Session.Seen.{seen}
use auto_configuration_serve.Omadm.Session.Retry.{handle_authenticated_retry}
use auto_configuration_serve.Omadm.Session.Guard.{
  handle_message_unauthenticated, md5_credential_accepted_again,
}

abbrev settings : DmSettings
settings = record {
  dm_enabled = true;
  dm_max_msg_size = 3;
  dm_auth_scheme = "md5";
  dm_session_ttl_seconds = 600;
  dm_account_uri = "acs";
}

abbrev outside : DmOutside
outside = record {
  clock = 1000;
  fresh_nonce = "n2";
  digest = λ text. text;
  b64decode = λ text. some text;
  parse = λ binary payload. raise "empty";
  encode = λ binary payload frame header calls final. ok (map (λ c. 0) calls);
  render = λ node context overrides. node.default;
}

abbrev tree : List MoNode
tree =
    record {
      uri = "./DevInfo/Man";
      format = "chr";
      type_ = "text/plain";
      from_device = true;
      default = "";
      feature = "";
    }
    ∷ []

abbrev ann : Subscriber
ann = record {
  imsi = "45001";
  msisdn = "+8210";
  entitled = true;
  provisioning_version = pos 1;
  forced_vers = none;
  rcs_profile = "";
  imei_allowlist = [];
  overrides = Dict.empty;
  dm_password = "pw";
  volte_enabled = true;
  created_at = 0;
  updated_at = 0;
}

abbrev store : MemoryStore
store = record empty_store { subscribers = Dict.put Dict.empty "45001" ann }

abbrev credentials : Credentials
credentials = record { type_ = auth_md5; format = "b64"; value = "45001:pw:n1" }

abbrev message : SyncMlMessage
message = record {
  header = record {
    session_id = "1";
    msg_id = "2";
    msg_number = some 2;
    target = "acs";
    source = "IMEI:35";
    source_name = "45001";
    max_msg_size = 0;
    credentials = some credentials;
  };
  commands = record { name = "Alert"; cmd_id = "1"; items = []; value = "1201" } ∷ [];
  final = true;
}

abbrev unsigned : SyncMlMessage
unsigned = record message { header = record (message.header) { credentials = none } }

abbrev session : DmSession
session = record {
  session_id = "35:1";
  device_id = "35";
  wire_session_id = "1";
  imsi = "45001";
  phase = "init";
  last_msg_id = 1;
  server_cmd_id = 0;
  authenticated = true;
  nonce = "n1";
  reported_failures = 0;
  expires_at = 1600;
}

abbrev queued : List Entry
queued =
    item "Get" "./a" "" "" ""
    ∷ item "Add" "./b" "" "node" "node"
    ∷ item "Replace" "./b/c" "1" "chr" "text/plain"
    ∷ []

abbrev pending : DmPendingPackage
pending = record {
  session_id = "35:1";
  phase = "configure";
  entries = map row_of queued;
  messages = 1;
  expires_at = 1600;
}

abbrev json_size : List Row → ℕ
json_size rows = length rows

abbrev answered : Handled → DmChanges × DmResponse
answered (raise x) = (no_changes, response 0 [] "" (says "") false)
answered (ok result) = result

abbrev configuring : DmSession
configuring = record session { phase = "configure" }

abbrev going_on : Handled
going_on =
    continue_package settings outside tree json_size false [] store message configuring pending

going_on_returns : going_on ≡ ok (answered going_on)
unfolding continue_package from_stored row_of next_message fill acks apply to_stored
going_on_returns = refl

queued_read : from_stored pending.entries ≡ ok queued
unfolding from_stored row_of
queued_read = refl

continue_package_delivers_example :
    let changes = (answered going_on).0 in
    let outcome = (answered going_on).1 in
    let now = counted settings outside tree json_size false [] store message configuring in
    (n : ℕ) × (length (acks tree message) < n)
    × (n ≤ length (acks tree message ++ queued))
    × (length outcome.body ≤ max_msg_size settings outside tree message)
    × (build_message settings outside tree false [] message now
          (header_status settings outside tree now)
          (acks tree message ++ queued)
          n
        ≡ ok outcome.body)
    × (changes.pending ≡ (
        if ltb 0 (length (drop n (acks tree message ++ queued)))
        then some (record pending {
          entries = map row_of (drop n (acks tree message ++ queued));
          messages = pending.messages + 1;
        })
        else none))
    × (changes.delete_pending_id ≡ (
        if ltb 0 (length (drop n (acks tree message ++ queued)))
        then ""
        else configuring.session_id))
    × (length (drop n (acks tree message ++ queued)) < length queued)
continue_package_delivers_example =
    continue_package_delivers settings outside tree json_size false [] store message configuring
      pending queued (answered going_on).0 (answered going_on).1 going_on_returns (omega arith)
      queued_read (omega arith)

abbrev started : Handled
started = dispatch settings outside tree json_size false [] store message session none ""

started_returns : started ≡ ok (answered started)
unfolding dispatch has_alert next_message fill acks apply to_stored device_query_uris
started_returns = refl

abbrev stored : DmSession
stored = record session { phase = "devinfo" }

started_stores : (answered started).0.session ≡ some stored
unfolding dispatch has_alert next_message fill acks apply to_stored device_query_uris
started_stores = refl

dispatch_steps_example :
    (has_alert message "1223" ≡ false)
    × (has_alert message "1226" ≡ false)
    × IsNext session stored "devinfo"
dispatch_steps_example =
    dispatch_steps settings outside tree json_size false [] store message session none ""
      (answered started).0 (answered started).1 stored started_returns started_stores

known : (authenticate_message settings outside tree store message session).authenticated ≡ true
unfolding authenticate_message authenticate_md5 get_subscriber strip Dict.get Dict.put
known = refl

authenticate_message_sound_example :
    IsKnown outside store message session
      (authenticate_message settings outside tree store message session).username
authenticate_message_sound_example =
    authenticate_message_sound settings outside tree store message session refl known

abbrev again_started : Handled
again_started =
    dispatch settings outside tree json_size false [] store message
      (signed_in settings outside tree json_size false [] message session
        (authenticate_message settings outside tree store message session))
      none ""

again_returns : again_started ≡ ok (answered again_started)
unfolding dispatch has_alert next_message fill acks apply to_stored device_query_uris
    authenticate_message authenticate_md5 get_subscriber strip Dict.get Dict.put
again_returns = refl

again_stores :
    (answered again_started).0.session
    ≡ some (record session { phase = "devinfo"; last_msg_id = 2 })
unfolding dispatch has_alert next_message fill acks apply to_stored device_query_uris
    authenticate_message authenticate_md5 get_subscriber strip Dict.get Dict.put
again_stores = refl

md5_credential_accepted_again_example :
    (authenticate_message settings outside tree store message
      (record session { phase = "devinfo"; last_msg_id = 2 })).authenticated
    ≡ true
md5_credential_accepted_again_example =
    md5_credential_accepted_again settings outside tree json_size false [] store message message
      session credentials none "" (answered again_started).0 (answered again_started).1
      (record session { phase = "devinfo"; last_msg_id = 2 }) refl refl known again_returns
      again_stores refl refl refl refl

abbrev read : MemoryStore × DmSession
read = session_found settings outside tree json_size false [] store unsigned

refused : (authenticate_message settings outside tree read.0 unsigned read.1).authenticated ≡ false
unfolding session_found authenticate_message authenticate get_dm_session
refused = refl

handle_message_unauthenticated_example :
    ((respond settings outside tree json_size false []
        (handle_message settings outside tree json_size false [] store unsigned)).0
      ≡ read.0)
    ⊎ ((respond settings outside tree json_size false []
          (handle_message settings outside tree json_size false [] store unsigned)).0
        ≡ put_dm_session read.0 (record (read.1) {
          nonce =
              (authenticate_message settings outside tree read.0 unsigned read.1).challenge_nonce;
          authenticated = false;
        }))
handle_message_unauthenticated_example =
    handle_message_unauthenticated settings outside tree json_size false [] store read.0 unsigned
      read.1 refl refl refl refused

-- Messages of one call each, so that a package has a remainder.
abbrev tight : DmSettings
tight = record settings { dm_max_msg_size = 1 }

abbrev cut : MemoryStore × Handled
cut = handle_authenticated tight outside tree json_size false [] store message session

cut_returns : cut ≡ (cut.0, ok (answered cut.1))
unfolding handle_authenticated acks has_alert get_dm_pending Dict.get next_message fill
    device_query_uris apply to_stored
cut_returns = refl

cut_stores : (answered cut.1).0.session ≡ some stored
unfolding handle_authenticated acks has_alert get_dm_pending Dict.get next_message fill
    device_query_uris apply to_stored
cut_stores = refl

cut_writes : length (commit_writes (answered cut.1).0) ≡ 3
unfolding handle_authenticated commit_writes acks has_alert get_dm_pending Dict.get next_message
    fill device_query_uris apply to_stored
cut_writes = refl

handle_authenticated_retry_example :
    ((perform cut.0 (take 2 (commit_writes (answered cut.1).0))).dm_sessions ≡ store.dm_sessions)
    × (seen
          (handle_authenticated tight outside tree json_size false []
            (perform cut.0 (take 2 (commit_writes (answered cut.1).0)))
            message
            session).1
        ≡ ok (
          some stored,
          (answered cut.1).0.pending,
          (answered cut.1).0.delete_session_id,
          (answered cut.1).1,
        ))
handle_authenticated_retry_example =
    handle_authenticated_retry tight outside tree json_size false [] store cut.0 message session
      stored (answered cut.1).0 (answered cut.1).1 2 cut_returns cut_stores refl
      (omega (arith, cut_writes))
