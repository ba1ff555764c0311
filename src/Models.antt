-- ===== src/Models.antt =====
-- src/acs/domain/models.py: the entities that the stores keep. Python integers that cannot be
-- negative (clock readings, counters) are ℕ; configuration versions are ℤ.
use auto_configuration_serve.Prelude.{
  ℕ, String, Bool, true, false, Option, none, some, List, [], ◌∷◌, ◌==◌, ◌&&◌, leb, int_or, truthy,
  str_eq, elem, if◌then◌else◌,
}
use auto_configuration_serve.Prelude.Int.{ℤ}
use auto_configuration_serve.Prelude.Dict.{Dict}

pub record Subscriber : Type 0 where
  pub imsi : String
  pub msisdn : String
  pub entitled : Bool
  pub provisioning_version : ℤ
  pub forced_vers : Option ℤ
  pub rcs_profile : String
  pub imei_allowlist : List String
  pub overrides : Dict String
  pub dm_password : String
  pub volte_enabled : Bool
  pub created_at : ℕ
  pub updated_at : ℕ

-- An empty allowlist allows every handset; `None` is in no list.
unfoldable pub imei_allowed : Subscriber → Option String → Bool
imei_allowed subscriber imei = elim subscriber.imei_allowlist [
  | [] ↦ true
  | first ∷ rest ↦ elim imei [ none ↦ false | some i ↦ elem i (first ∷ rest) ]
]

pub record OtpChallenge : Type 0 where
  pub msisdn : String
  pub otp_hash : String
  pub imsi : String
  pub created_at : ℕ
  pub expires_at : ℕ
  pub attempts : ℕ
  pub sms_port : Option ℕ
  pub consumed : Bool
  pub challenge_id : String

-- `(at or now()) >= self.expires_at`, with `clock` for `now()`.
unfoldable pub expired : OtpChallenge → Option ℕ → ℕ → Bool
expired challenge at clock = leb challenge.expires_at (int_or at clock)

-- Equality of the pairs (otp_hash, created_at).
unfoldable pub same_code : OtpChallenge → OtpChallenge → Bool
same_code a b = str_eq a.otp_hash b.otp_hash && (a.created_at == b.created_at)

unfoldable pub same_issue : OtpChallenge → OtpChallenge → Bool
unfolding same_code
same_issue a b =
    if truthy a.challenge_id && truthy b.challenge_id
    then str_eq a.challenge_id b.challenge_id
    else same_code a b

pub record TokenRecord : Type 0 where
  pub token_hash : String
  pub imsi : String
  pub imei : Option String
  pub issued_at : ℕ
  pub expires_at : ℕ
  pub revoked : Bool

unfoldable pub token_expired : TokenRecord → Option ℕ → ℕ → Bool
token_expired token at clock = leb token.expires_at (int_or at clock)

pub record Device : Type 0 where
  pub device_id : String
  pub imsi : String
  pub manufacturer : String
  pub model : String
  pub sw_version : String
  pub client_vendor : String
  pub client_version : String
  pub dm_client_version : String
  pub last_seen_at : ℕ
  pub mo_values : Dict String

pub record DmSession : Type 0 where
  pub session_id : String
  pub device_id : String
  pub wire_session_id : String
  pub imsi : String
  pub phase : String
  pub last_msg_id : ℕ
  pub server_cmd_id : ℕ
  pub authenticated : Bool
  pub nonce : String
  pub reported_failures : ℕ
  pub expires_at : ℕ

pub record DmPendingPackage : Type 0 where
  pub session_id : String
  pub phase : String
  pub entries : List (List String)
  pub messages : ℕ
  pub expires_at : ℕ

pub record SmsMessage : Type 0 where
  pub msisdn : String
  pub body : String
  pub sms_port : Option ℕ
  pub sent_at : ℕ
  pub provider : String
  pub binary : Bool
