-- ===== src/Service/Runs.antt =====
-- Configuration requests at concrete inputs, and the theorems on them there.
use auto_configuration_serve.Prelude.{◌≡◌, ◌⊎◌, refl, none, some, true, false, [], ◌∷◌, arith, ok}
use auto_configuration_serve.Prelude.Int.{pos, leb_ℤ}
use auto_configuration_serve.Prelude.Dict
use auto_configuration_serve.Models.{Subscriber, OtpChallenge}
use auto_configuration_serve.Store.{
  MemoryStore, empty_store, get_otp, get_subscriber_by_msisdn, put_subscriber, put_device,
  get_device, index_without_old, issue_otp,
}
use auto_configuration_serve.Vers.{next_version, client_holds_current}
use auto_configuration_serve.Token.{issue_token}
use auto_configuration_serve.Otp.{memory_issue, create_challenge, created}
use auto_configuration_serve.Identity.{IdentityMethod, enrichment, authenticated, authenticated_as}
use auto_configuration_serve.Service.{
  ConfigQuery, delivery_failed, ProvisioningOutcome, ConfigDocument, configuration, vers_only,
  no_store,
}
use auto_configuration_serve.Service.Samples.{settings, outside, query}
use auto_configuration_serve.Service.Chain.{resolve_identity}
use auto_configuration_serve.Service.Chain.Proven.{Evidence, resolve_identity_authenticated}
use auto_configuration_serve.Service.Outcome.{handle, serve_configuration, send_otp, device_key}
use auto_configuration_serve.Service.Outcome.Answers.{IsServed, handle_configuration}
use auto_configuration_serve.Service.Outcome.Sending.{
  send_otp_delivery, serve_configuration_version,
}

abbrev ann : Subscriber
ann = record {
  imsi = "45001";
  msisdn = "+8210";
  entitled = true;
  provisioning_version = pos 0;
  forced_vers = none;
  rcs_profile = "";
  imei_allowlist = [];
  overrides = Dict.empty;
  dm_password = "";
  volte_enabled = true;
  created_at = 0;
  updated_at = 0;
}

abbrev store : MemoryStore
store = put_subscriber empty_store ann

by_header_runs : (resolve_identity settings outside store query).1.decision ≡ authenticated
unfolding resolve_identity put_subscriber index_without_old get_subscriber_by_msisdn Dict.get
    Dict.put Dict.pop
by_header_runs = refl

resolve_identity_authenticated_example :
    (s : Subscriber) × (m : IdentityMethod) × ((resolve_identity settings outside store query).1
      ≡ authenticated_as s m)
    × (s.entitled ≡ true)
    × Evidence settings outside store query s m (resolve_identity settings outside store query).0
resolve_identity_authenticated_example =
    resolve_identity_authenticated settings outside store query by_header_runs

-- The document: the version 0 became 1, and a DM password was made.
abbrev document : ConfigDocument
document = record {
  imsi = "45001";
  msisdn = "+8210";
  version = pos 1;
  validity = 86400;
  profile = "UP_2.4";
  token = "t0";
  overrides = Dict.empty;
  dm_password = "pw";
}

abbrev answer : ProvisioningOutcome
answer = record {
  status_code = 200;
  body = configuration document;
  content_type = "text/xml";
  headers = no_store ∷ [];
  metric = "ConfigServed";
  detail = "enrichment";
  version = some (pos 1);
}

abbrev after : MemoryStore
after = (handle settings outside store query).0

handle_runs : handle settings outside store query ≡ (after, ok answer)
unfolding handle put_subscriber index_without_old get_subscriber_by_msisdn Dict.get Dict.put
    Dict.pop issue_token put_device get_device device_key next_version client_holds_current
handle_runs = refl

handle_configuration_example :
    (s : Subscriber) × (m : IdentityMethod) × (mid : MemoryStore) × Evidence settings outside store
      query s m mid
    × (s.entitled ≡ true)
    × (s.forced_vers ≡ none)
    × (answer.status_code ≡ 200)
    × IsServed settings outside after s query document
handle_configuration_example =
    handle_configuration settings outside (omega arith) refl store after query answer document
      handle_runs refl

-- A client that holds the version 3 of a subscriber whose version is 3.
abbrev third : Subscriber
third = record ann { provisioning_version = pos 3 }

abbrev holding_third : ConfigQuery
holding_third = record query { vers = pos 3 }

abbrev unchanged_answer : ProvisioningOutcome
unchanged_answer = record answer {
  body = vers_only (pos 3) 86400;
  metric = "ConfigUnchanged";
  detail = "vers_only";
  version = some (pos 3);
}

serve_runs :
    serve_configuration settings outside store third holding_third enrichment
    ≡ (store, ok unchanged_answer)
unfolding serve_configuration client_holds_current
serve_runs = refl

serve_configuration_version_example :
    (store.tokens ≡ store.tokens)
    × (store.devices ≡ store.devices)
    × ((third.forced_vers ≡ some (pos 3) × store ≡ store)
        ⊎ (third.forced_vers ≡ none
            × client_holds_current (pos 3) (pos 3) ≡ true
            × leb_ℤ (pos 3) (pos 0) ≡ false))
serve_configuration_version_example =
    serve_configuration_version settings outside store store third holding_third enrichment
      unchanged_answer (pos 3) 86400 serve_runs refl

abbrev challenge : OtpChallenge
challenge = record {
  msisdn = "+8210";
  otp_hash = "+8210:42";
  imsi = "45001";
  created_at = 1000;
  expires_at = 1300;
  attempts = 0;
  sms_port = none;
  consumed = false;
  challenge_id = "a1";
}

abbrev challenged : MemoryStore
challenged = record store {
  otp = record { entries = ("+8210", challenge) ∷ [] };
  otp_sends = record { entries = ("+8210", 1000 ∷ []) ∷ [] };
}

create_runs :
    create_challenge outside.digest outside.issue outside.draws store 1000 "+8210" "45001"
      settings.otp_policy none none
    ≡ (challenged, created challenge "42")
unfolding create_challenge memory_issue issue_otp put_subscriber index_without_old Dict.get Dict.put
    get_otp
create_runs = refl

still_there : get_otp challenged "+8210" ≡ some challenge
unfolding get_otp Dict.get
still_there = refl

-- The delivery fails, and the challenge is gone.
send_otp_delivery_example :
    ((send_otp settings outside store ann none query).1.status_code ≡ 503)
    × (get_otp (send_otp settings outside store ann none query).0 "+8210" ≡ none)
send_otp_delivery_example =
    send_otp_delivery settings outside store challenged challenged ann none query challenge "42"
      delivery_failed refl create_runs refl still_there
