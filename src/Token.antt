-- ===== src/Token.antt =====
-- src/acs/auth/token.py: provisioning tokens. The random token and SHA-256 are parameters.
pub mod RoundTrip
mod Runs
use auto_configuration_serve.Prelude.{
  ℕ, ◌+◌, String, Bool, true, false, Option, none, some, not, ◌&&◌, ◌||◌, truthy, given, same_text?,
  str_eq, if◌then◌else◌,
}
use auto_configuration_serve.Models.{TokenRecord, token_expired}
use auto_configuration_serve.Store.{MemoryStore, put_token, get_token}

-- `token` is the fresh token; the record keeps only its digest.
unfoldable pub issue_token :
    (String → String)
    → String
    → MemoryStore
    → ℕ
    → String
    → Option String
    → ℕ
    → Bool
    → MemoryStore × String
issue_token digest token store clock imsi imei ttl_seconds bind_imei = (
  put_token store (record {
    token_hash = digest token;
    imsi = imsi;
    imei = if bind_imei then imei else none;
    issued_at = clock;
    expires_at = clock + ttl_seconds;
    revoked = false;
  }),
  token,
)

-- The checks on a record that was found.
unfoldable pub accept_record : String → TokenRecord → ℕ → Option String → Bool → Option TokenRecord
unfolding token_expired
accept_record digested token_record clock imei bind_imei =
    if not (str_eq token_record.token_hash digested)
    then none
    else if token_record.revoked || token_expired token_record none clock
    then none
    else if bind_imei && (given token_record.imei && not (same_text? token_record.imei imei))
    then none
    else some token_record

unfoldable pub verify_token :
    (String → String) → MemoryStore → ℕ → String → Option String → Bool → Option TokenRecord
unfolding accept_record
verify_token digest store clock token imei bind_imei =
    if not (truthy token) then none else elim (get_token store (digest token)) [
      | none ↦ none
      | some token_record ↦ accept_record (digest token) token_record clock imei bind_imei
    ]
