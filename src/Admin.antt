-- ===== src/Admin.antt =====
-- src/acs/api/admin.py: the operations of the admin API on subscribers and tokens. A handler is a
-- function of the store; an `HTTPException` leaves as `raise`. `isdigit` is `str.isdigit`, and
-- `normalise` the number normalisation of src/acs/security/pii.py with the configured prefixes.
-- The handlers change the object that `_load` returned, but never its number, so storing it again
-- is the whole effect.
pub mod Effects
mod Runs
use Prim.Native.Char.{Char, code}
use auto_configuration_serve.Prelude.{
  ℕ, ◌+◌, String, Bool, true, false, Option, none, some, List, [], ◌∷◌, not, ◌&&◌, leb, truthy,
  str_eq, given, text_or, Result, ok, raise, ◌>>=◌, if◌then◌else◌, ◌==◌,
}
use auto_configuration_serve.Prelude.Texts.{PythonError, compare_digest}
use auto_configuration_serve.Prelude.Int.{ℤ, eqb_ℤ}
use auto_configuration_serve.Prelude.Dict.{Dict}
use auto_configuration_serve.Models.{Subscriber}
use auto_configuration_serve.Store.{
  MemoryStore, get_subscriber, put_subscriber, delete_subscriber, list_subscribers,
  revoke_tokens_for_imsi,
}
use auto_configuration_serve.Vers.{forceable_versions, next_version}
use auto_configuration_serve.Token as TokenOps

pub record HttpError : Type 0 where
  pub status_code : ℕ
  pub detail : String

-- The two sides of `text.partition(" ")`.
unfoldable pub before_space : String → String
before_space String.[] = String.[]
before_space (String.◌∷◌ c s) =
    let rest = before_space s in if code c == 32 then String.[] else String.◌∷◌ c rest

unfoldable pub after_space : String → String
after_space String.[] = String.[]
after_space (String.◌∷◌ c s) = let rest = after_space s in if code c == 32 then s else rest

-- The code of a letter in lower case, for ASCII; no other letter becomes one of `bearer`.
unfoldable pub lower_code : Char → ℕ
lower_code c = if leb 65 (code c) && leb (code c) 90 then code c + 32 else code c

unfoldable pub lower_is : String → String → Bool
unfolding lower_code
lower_is String.[] String.[] = true
lower_is String.[] (String.◌∷◌ d t) = false
lower_is (String.◌∷◌ c s) String.[] = false
lower_is (String.◌∷◌ c s) (String.◌∷◌ d t) = (lower_code c == code d) && lower_is s t

-- What leaves the gate when it does not let a request through.
pub data GateError : Type 0 where
  http_exception : HttpError → GateError
  python_exception : PythonError → GateError

unfoldable pub require_admin : (admin_token authorization : String) → Result GateError String
unfolding before_space after_space lower_is compare_digest
require_admin expected authorization =
    if not (truthy expected)
    then raise (
        http_exception (record {
          status_code = 503;
          detail = "admin API disabled: ACS_ADMIN_TOKEN is not configured";
        }))
    else if not (lower_is (before_space authorization) "bearer")
    then raise (http_exception (record { status_code = 401; detail = "invalid admin credentials" }))
    else elim (compare_digest (after_space authorization) expected) [
      | raise x ↦ raise (python_exception x)
      | ok same ↦
          if not same
          then raise
              (http_exception (record { status_code = 401; detail = "invalid admin credentials" }))
          else ok expected
    ]

pub record SubscriberIn : Type 0 where
  pub msisdn : String
  pub entitled : Bool
  pub rcs_profile : String
  pub provisioning_version : ℤ
  pub forced_vers : Option ℤ
  pub imei_allowlist : List String
  pub overrides : Dict String
  pub volte_enabled : Bool

unfoldable pub is_forceable : ℤ → List ℤ → Bool
is_forceable v [] = false
is_forceable v (w ∷ ws) = let rest = is_forceable v ws in if eqb_ℤ v w then true else rest

-- The validator of `forced_vers`.
unfoldable pub forced_allowed : Option ℤ → Bool
unfolding is_forceable
forced_allowed none = true
forced_allowed (some v) = is_forceable v forceable_versions

-- The validators of the payload, in the order of the fields; the framework answers 422.
unfoldable pub validated : (String → Option String) → SubscriberIn → Result HttpError SubscriberIn
unfolding forced_allowed
validated normalise payload = elim (normalise payload.msisdn) [
  | none ↦ raise (record { status_code = 422; detail = "msisdn must be a valid E.164 number" })
  | some number ↦
      if not (forced_allowed payload.forced_vers)
      then raise
          (record { status_code = 422; detail = "forced_vers must be one of [0, -1, -2, -3, -4]" })
      else ok (record payload { msisdn = number })
]

unfoldable pub load : MemoryStore → String → Result HttpError Subscriber
load store imsi = elim (get_subscriber store imsi) [
  | none ↦ raise (record { status_code = 404; detail = "subscriber not found" })
  | some subscriber ↦ ok subscriber
]

unfoldable pub text_length : String → ℕ
text_length String.[] = 0
text_length (String.◌∷◌ c s) = text_length s + 1

abbrev pub Answer : Type 0 → Type 0
Answer A = MemoryStore × Result HttpError A

-- `existing.dm_password if existing else ""`
abbrev password_of : Option Subscriber → String
password_of none = ""
password_of (some existing) = existing.dm_password

-- `put_subscriber` of the admin API, for a payload that passed the validators.
unfoldable pub upsert :
    (String → Bool) → ℕ → MemoryStore → String → SubscriberIn → Answer Subscriber
unfolding text_length
upsert isdigit clock store imsi payload =
    if not (isdigit imsi && (leb 5 (text_length imsi) && leb (text_length imsi) 15))
    then (store, raise (record { status_code = 400; detail = "IMSI must be 5-15 digits" }))
    else (let subscriber : Subscriber = record {
      imsi = imsi;
      msisdn = payload.msisdn;
      entitled = payload.entitled;
      provisioning_version = payload.provisioning_version;
      forced_vers = payload.forced_vers;
      rcs_profile = payload.rcs_profile;
      imei_allowlist = payload.imei_allowlist;
      overrides = payload.overrides;
      dm_password = password_of (get_subscriber store imsi);
      volte_enabled = payload.volte_enabled;
      created_at = clock;
      updated_at = clock;
    } in
        (put_subscriber store subscriber, ok subscriber))

-- `delete_subscriber` of the admin API: the tokens are revoked first.
unfoldable pub remove : MemoryStore → String → Answer Subscriber
unfolding load
remove store imsi = elim (load store imsi) [
  | raise e ↦ (store, raise e)
  | ok subscriber ↦ (delete_subscriber (revoke_tokens_for_imsi store imsi).0 imsi, ok subscriber)
]

unfoldable pub invalidate_configuration : MemoryStore → String → Answer Subscriber
unfolding load
invalidate_configuration store imsi = elim (load store imsi) [
  | raise e ↦ (store, raise e)
  | ok subscriber ↦
      (let subscriber' = record subscriber {
        provisioning_version = next_version subscriber.provisioning_version;
        forced_vers = none;
      } in
        (put_subscriber store subscriber', ok subscriber'))
]

unfoldable pub disable_subscriber : MemoryStore → String → ℤ → Answer Subscriber
unfolding load is_forceable
disable_subscriber store imsi vers =
    if not (is_forceable vers forceable_versions)
    then (
      store,
      raise (record { status_code = 400; detail = "vers must be one of [0, -1, -2, -3, -4]" }),
    )
    else elim (load store imsi) [
      | raise e ↦ (store, raise e)
      | ok subscriber ↦
          (let subscriber' = record subscriber { forced_vers = some vers } in
            ((revoke_tokens_for_imsi (put_subscriber store subscriber') imsi).0, ok subscriber'))
    ]

unfoldable pub enable_subscriber : MemoryStore → String → Answer Subscriber
unfolding load
enable_subscriber store imsi = elim (load store imsi) [
  | raise e ↦ (store, raise e)
  | ok subscriber ↦
      (let subscriber' = record subscriber {
        forced_vers = none;
        entitled = true;
        provisioning_version = next_version subscriber.provisioning_version;
      } in
        (put_subscriber store subscriber', ok subscriber'))
]

unfoldable pub revoke_tokens : MemoryStore → String → Answer ℕ
unfolding load
revoke_tokens store imsi = elim (load store imsi) [
  | raise e ↦ (store, raise e)
  | ok subscriber ↦
      (let (store', revoked) = revoke_tokens_for_imsi store imsi in (store', ok revoked))
]

pub record IssuedToken : Type 0 where
  pub token : String
  pub imsi : String
  pub imei : Option String
  pub expires_at : ℕ

-- `issue_token` of the admin API; `clock` is read twice, here at one time.
unfoldable pub issue_for :
    (String → String) → String → ℕ → ℕ → Bool → MemoryStore → String → String → Answer IssuedToken
unfolding load
issue_for digest fresh clock ttl_seconds bind_imei store imsi imei = elim (load store imsi) [
  | raise e ↦ (store, raise e)
  | ok subscriber ↦
      if not subscriber.entitled
      then (store, raise (record { status_code = 409; detail = "subscriber is not entitled" }))
      else (let wanted = if truthy imei then some imei else none in
          let (store', token) =
            TokenOps.issue_token digest fresh store clock subscriber.imsi wanted ttl_seconds
              (bind_imei && truthy imei) in
          (
            store',
            ok (record {
              token = token;
              imsi = subscriber.imsi;
              imei = wanted;
              expires_at = clock + ttl_seconds;
            }),
          ))
]
