-- ===== src/Service.antt =====
-- src/acs/domain/service.py: one configuration request, from the identity chain to the outcome.
-- The state is the store; what a request reads from outside (clock, random draws, the sender of
-- messages, the BSF client, the checks of a trusted header) is the record `Outside`. A body is
-- kept as the document that the builder is asked for, before it is turned into XML.
pub mod Chain
pub mod Outcome
pub mod Samples
mod Runs
use Prim.Native.Char.{Char, code}
use Prim.Native.String.{◌++◌ as str_append}
use auto_configuration_serve.Prelude.{
  ℕ, String, Bool, true, false, Option, none, some, List, [], ◌∷◌, not, ◌&&◌, ◌==◌, str_eq, truthy,
  given, text_or, Result, ok, raise, if◌then◌else◌,
}
use auto_configuration_serve.Vers.{VersError}
use auto_configuration_serve.Prelude.Int.{ℤ, pos, leb_ℤ}
use auto_configuration_serve.Prelude.Dict
use auto_configuration_serve.Prelude.Dict.{Dict}
use auto_configuration_serve.Models.{Subscriber, OtpChallenge, Device, TokenRecord, imei_allowed}
use auto_configuration_serve.Store.{
  MemoryStore, get_subscriber, get_subscriber_by_msisdn, put_subscriber, get_device, put_device,
  OtpIssueRefused, RefusalReason, cooldown, daily_quota,
}
use auto_configuration_serve.Vers.{
  VersError, VersRule, VersAction, rule_for, next_version, client_holds_current,
}
use auto_configuration_serve.Token.{issue_token, verify_token}
use auto_configuration_serve.Otp.{
  OtpPolicy, OtpOutcome, verified, no_challenge, expired_code, mismatch, exhausted,
  already_consumed, Draws, IssueMethod, Interference, Created, created, send_blocked,
  store_contention, create_challenge, verify_challenge, discard_challenge,
}
use auto_configuration_serve.Identity.{
  Identity, IdentityMethod, token, enrichment, gba, otp, no_method, authenticated, challenge_otp,
  unresolved, not_entitled, authenticated_as, challenge_for, unresolved_because, refused_because,
  EnrichmentResult, NafKeys, AuthorizationCheck,
}

-- The settings that this flow reads.
pub record Settings : Type 0 where
  pub xml_content_type : String
  pub default_rcs_profile : String
  pub provisioning_validity_seconds : ℕ
  pub otp_policy : OtpPolicy
  pub token_ttl_seconds : ℕ
  pub token_bind_imei : Bool
  pub gba_enabled : Bool
  pub gba_realm : String
  pub dm_enabled : Bool
  pub dm_bootstrap_in_cp : Bool
  pub sms_sender_id : String

-- The fields of the parsed query that this flow reads.
pub record ConfigQuery : Type 0 where
  pub vers : ℤ
  pub imsi : Option String
  pub imei : Option String
  pub msisdn : Option String
  pub token : Option String
  pub otp : Option String
  pub sms_port : Option ℕ
  pub device_id : Option String
  pub terminal_vendor : Option String
  pub terminal_model : Option String
  pub terminal_sw_version : Option String
  pub client_vendor : Option String
  pub client_version : Option String
  pub rcs_profile : Option String

pub record SmsRequest : Type 0 where
  pub msisdn : String
  pub body : String
  pub sms_port : Option ℕ
  pub sender_id : String

pub data SendOutcome : Type 0 where
  sent delivery_failed unsupported_delivery : SendOutcome

pub record Outside : Type 0 where
  pub clock : ℕ
  -- SHA-256 in hexadecimal
  pub digest : String → String
  -- `secrets`: the OTP's draws, a fresh provisioning token, a fresh DM password, a GBA nonce
  pub draws : Draws
  pub fresh_token : String
  pub fresh_password : String
  pub fresh_nonce : String
  -- the store's `issue_otp`, and what other requests do between this one's operations
  pub issue : IssueMethod
  pub others : Interference
  -- the SMS sender, which may record what it sends, and the text of a message with a code
  pub send : SmsRequest → MemoryStore → MemoryStore × SendOutcome
  pub otp_text : String → String
  -- the result of the trusted header, and of the Authorization header where there is one
  pub enriched : EnrichmentResult
  pub authorization : Option AuthorizationCheck
  -- the BSF client's `fetch_keys`, where one is configured
  pub bsf : Option (String → String → Option NafKeys)

-- The document that the outcome carries: none, only the version, or a whole configuration.
pub record ConfigDocument : Type 0 where
  pub imsi : String
  pub msisdn : String
  pub version : ℤ
  pub validity : ℕ
  pub profile : String
  pub token : String
  pub overrides : Dict String
  pub dm_password : String

-- What `handle` lets out: a forced version outside the table, and its `assert`.
pub data HandlerError : Type 0 where
  bad_version : VersError → HandlerError
  no_subscriber : HandlerError

pub data Body : Type 0 where
  no_body : Body
  vers_only : ℤ → ℕ → Body
  configuration : ConfigDocument → Body

pub data Header : Type 0 where
  no_store : Header
  content_length_zero : Header
  retry_after : ℕ → Header
  www_authenticate : (realm nonce : String) → Header

pub record ProvisioningOutcome : Type 0 where
  pub status_code : ℕ
  pub body : Body
  pub content_type : String
  pub headers : List Header
  pub metric : String
  pub detail : String
  pub version : Option ℤ

abbrev pub otp_delivery_failed_retry_after_seconds : ℕ
otp_delivery_failed_retry_after_seconds = 60

abbrev pub otp_delivery_unsupported_retry_after_seconds : ℕ
otp_delivery_unsupported_retry_after_seconds = 3600

abbrev pub otp_store_contention_retry_after_seconds : ℕ
otp_store_contention_retry_after_seconds = 5
