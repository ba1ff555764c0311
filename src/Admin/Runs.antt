-- ===== src/Admin/Runs.antt =====
-- The admin API's operations at concrete stores.
use auto_configuration_serve.Prelude.{◌≡◌, refl, String, true, false, none, some, [], ok, raise}
use auto_configuration_serve.Prelude.Int.{pos, negsuc}
use auto_configuration_serve.Prelude.Dict
use auto_configuration_serve.Prelude.Texts.{compare_digest, type_error}
use auto_configuration_serve.Models.{Subscriber, TokenRecord}
use auto_configuration_serve.Store.{
  MemoryStore, empty_store, get_subscriber, put_subscriber, index_without_old, put_token, get_token,
}
use auto_configuration_serve.Store.Subscribers.{IsIndexed, put_subscriber-IsIndexed}
use auto_configuration_serve.Vers.{forceable_versions, next_version}
use auto_configuration_serve.Token.{issue_token, verify_token}
use auto_configuration_serve.Token.RoundTrip.{names}
use auto_configuration_serve.Identity.{enrichment}
use auto_configuration_serve.Service.{ProvisioningOutcome, vers_only}
use auto_configuration_serve.Service.Samples.{settings, outside, query}
use auto_configuration_serve.Service.Outcome.{serve_configuration}
use auto_configuration_serve.Admin.{
  disable_subscriber, remove, invalidate_configuration, require_admin, python_exception,
}
use auto_configuration_serve.Admin.Effects.{disable_subscriber_effect, remove_effect}

abbrev ann : Subscriber
ann = record {
  imsi = "45001";
  msisdn = "+8210";
  entitled = true;
  provisioning_version = pos 4;
  forced_vers = none;
  rcs_profile = "";
  imei_allowlist = [];
  overrides = Dict.empty;
  dm_password = "";
  volte_enabled = true;
  created_at = 0;
  updated_at = 0;
}

abbrev plain : String → String
plain s = s

abbrev with_ann : MemoryStore
with_ann = put_subscriber (issue_token plain "t0" empty_store 1000 "45001" none 600 false).0 ann

abbrev held : TokenRecord
held = record {
  token_hash = "t0";
  imsi = "45001";
  imei = none;
  issued_at = 1000;
  expires_at = 1600;
  revoked = false;
}

accepted : verify_token plain with_ann 1100 "t0" none true ≡ some held
unfolding verify_token put_subscriber index_without_old issue_token put_token get_token Dict.get
    Dict.put
accepted = refl

-- The gate: the scheme in any case, and the configured token.
admitted : require_admin "secret" "BEARER secret" ≡ ok "secret"
unfolding require_admin compare_digest
admitted = refl

-- A token that is not ASCII leaves the gate as a `TypeError`.
foreign : require_admin "secret" "Bearer é" ≡ raise (python_exception type_error)
unfolding require_admin compare_digest
foreign = refl

there : get_subscriber with_ann "45001" ≡ some ann
unfolding put_subscriber index_without_old get_subscriber Dict.get Dict.put issue_token put_token
there = refl

indexed : IsIndexed with_ann
unfolding issue_token put_token Dict.get
indexed =
    put_subscriber-IsIndexed (issue_token plain "t0" empty_store 1000 "45001" none 600 false).0 ann
      (record { points = λ m i e. cc; keyed = λ i s e. cc })

abbrev removed : MemoryStore
removed = (remove with_ann "45001").0

remove_runs : remove with_ann "45001" ≡ (removed, ok ann)
unfolding remove put_subscriber index_without_old get_subscriber Dict.get Dict.put issue_token
    put_token
remove_runs = refl

remove_effect_example :
    (get_subscriber removed "45001" ≡ none)
    × (names "45001" (verify_token plain removed 1200 "t0" none true) ≡ false)
    × (names "45001" (verify_token plain (put_subscriber removed ann) 1200 "t0" none true) ≡ false)
remove_effect_example =
    remove_effect with_ann removed "45001" ann ann plain 1200 "t0" none true remove_runs

abbrev bumped : Subscriber
bumped = record ann { provisioning_version = pos 5 }

invalidate_runs :
    invalidate_configuration with_ann "45001" ≡ (put_subscriber with_ann bumped, ok bumped)
unfolding invalidate_configuration put_subscriber index_without_old get_subscriber Dict.get Dict.put
    issue_token put_token next_version
invalidate_runs = refl

abbrev blocked : Subscriber
blocked = record ann { forced_vers = some (negsuc 3) }

abbrev disabled : MemoryStore
disabled = (disable_subscriber with_ann "45001" (negsuc 3)).0

disable_runs : disable_subscriber with_ann "45001" (negsuc 3) ≡ (disabled, ok blocked)
unfolding disable_subscriber forceable_versions put_subscriber index_without_old get_subscriber
    Dict.get Dict.put issue_token put_token
disable_runs = refl

disable_subscriber_effect_example :
    (get_subscriber disabled "45001" ≡ some blocked)
    × (names "45001" (verify_token plain disabled 1200 "t0" none true) ≡ false)
    × (answer : ProvisioningOutcome) × (serve_configuration settings outside disabled blocked query
          enrichment
        ≡ (disabled, ok answer))
    × (answer.body ≡ vers_only (negsuc 3) settings.provisioning_validity_seconds)
disable_subscriber_effect_example =
    disable_subscriber_effect settings outside with_ann disabled "45001" (negsuc 3) blocked query
      enrichment plain 1200 "t0" none true indexed disable_runs
