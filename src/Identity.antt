-- ===== src/Identity.antt =====
-- src/acs/auth/identity.py: the answers of the identity chain; and, from src/acs/auth/gba.py and
-- src/acs/auth/enrichment.py, the results that the chain reads.
use auto_configuration_serve.Prelude.{ℕ, String, Bool, Option, none, some, List}
use auto_configuration_serve.Models.{Subscriber}

pub data IdentityMethod : Type 0 where
  token enrichment gba otp no_method : IdentityMethod

abbrev pub method_value : IdentityMethod → String
method_value token = "token"
method_value enrichment = "enrichment"
method_value gba = "gba"
method_value otp = "otp"
method_value no_method = "none"

pub data IdentityDecision : Type 0 where
  authenticated challenge_otp unresolved not_entitled : IdentityDecision

pub record Identity : Type 0 where
  pub decision : IdentityDecision
  pub method : IdentityMethod
  pub subscriber : Option Subscriber
  pub candidate_msisdn : Option String
  pub detail : String

unfoldable pub authenticated_as : Subscriber → IdentityMethod → Identity
authenticated_as subscriber method = record {
  decision = authenticated;
  method = method;
  subscriber = some subscriber;
  candidate_msisdn = none;
  detail = "";
}

unfoldable pub challenge_for : Subscriber → String → String → Identity
challenge_for subscriber msisdn detail = record {
  decision = challenge_otp;
  method = otp;
  subscriber = some subscriber;
  candidate_msisdn = some msisdn;
  detail = detail;
}

unfoldable pub unresolved_because : String → Identity
unresolved_because detail = record {
  decision = unresolved;
  method = no_method;
  subscriber = none;
  candidate_msisdn = none;
  detail = detail;
}

unfoldable pub refused_because : Subscriber → String → Identity
refused_because subscriber detail = record {
  decision = not_entitled;
  method = no_method;
  subscriber = some subscriber;
  candidate_msisdn = none;
  detail = detail;
}

pub record EnrichmentResult : Type 0 where
  pub msisdn : Option String
  pub trusted : Bool
  pub reason : String

pub record NafKeys : Type 0 where
  pub btid : String
  pub ks_naf : List ℕ
  pub impi : String
  pub lifetime_seconds : ℕ

pub record AuthorizationCheck : Type 0 where
  pub passed : Bool
  pub btid : String
  pub reason : String
