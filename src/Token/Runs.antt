-- ===== src/Token/Runs.antt =====
-- Provisioning tokens at concrete inputs.
use auto_configuration_serve.Prelude.{◌≡◌, refl, String, true, false, none, some}
use auto_configuration_serve.Models.{TokenRecord}
use auto_configuration_serve.Store.{MemoryStore, empty_store, revoke_tokens_for_imsi}
use auto_configuration_serve.Token.{issue_token, verify_token}
use auto_configuration_serve.Token.RoundTrip.{
  verify_token-issue_token, verify_token-revoke_tokens_for_imsi,
}

abbrev plain : String → String
plain s = s

abbrev fresh_record : TokenRecord
fresh_record = record {
  token_hash = "t0";
  imsi = "45005";
  imei = some "35";
  issued_at = 1000;
  expires_at = 1600;
  revoked = false;
}

verify_token-issue_token_example :
    verify_token plain
      (issue_token plain "t0" empty_store 1000 "45005" (some "35") 600 true).0
      1500
      "t0"
      (some "35")
      true
    ≡ some fresh_record
verify_token-issue_token_example =
    verify_token-issue_token plain "t0" empty_store 1000 1500 "45005" (some "35") (some "35") 600
      true refl

abbrev with_token : MemoryStore
with_token = (issue_token plain "t0" empty_store 1000 "45005" (some "35") 600 true).0

verify_token-revoke_tokens_for_imsi_example :
    verify_token plain (revoke_tokens_for_imsi with_token "45005").0 1200 "t0" none false ≡ none
verify_token-revoke_tokens_for_imsi_example =
    verify_token-revoke_tokens_for_imsi plain with_token 1500 1200 "t0" (some "35") none true false
      fresh_record verify_token-issue_token_example
