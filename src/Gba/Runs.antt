-- ===== src/Gba/Runs.antt =====
-- The check of a GBA header at concrete directives, with digests that keep their input short.
use Prim.Native.String.{◌++◌ as str_append}
use auto_configuration_serve.Prelude.{
  ok, raise, truthy, ◌≡◌, refl, String, true, false, some, none, [], ◌∷◌, Option,
}
use auto_configuration_serve.Prelude.Dict
use auto_configuration_serve.Prelude.Texts.{compare_digest, type_error}
use auto_configuration_serve.Prelude.Dict.{Dict}
use auto_configuration_serve.Identity.{NafKeys, AuthorizationCheck}
use auto_configuration_serve.Gba.{Crypto, verify_nonce, time_or, directive, verify_authorization}
use auto_configuration_serve.Gba.Checked.{IsFresh, rfc_response, verify_authorization_passed}

abbrev crypto : Crypto
crypto = record {
  signed = λ secret stamp. str_append secret stamp;
  decoded = λ s. some s;
  isdigit = λ s. true;
  number = λ s. some 900;
  utf8 = λ s. [];
  md5 = λ bytes. "d1";
}

abbrev header : Dict String
header = record {
  entries = ("username", "b1") ∷ ("nonce", "900:k900") ∷ ("response", "d1") ∷ ("uri", "/") ∷ [];
}

abbrev keys : NafKeys
keys = record { btid = "b1"; ks_naf = []; impi = "45001@ims"; lifetime_seconds = 3600 }

abbrev known : String → String → Option NafKeys
known btid realm = some keys

abbrev unknown : String → String → Option NafKeys
unknown btid realm = none

abbrev passing : AuthorizationCheck
passing = record { passed = true; btid = "b1"; reason = "verified" }

passed_runs :
    verify_authorization crypto (some header) "r" "k" "GET" known none 1000 300 ≡ ok passing
unfolding verify_authorization compare_digest Dict.get
passed_runs = refl

verify_authorization_passed_example :
    (found : NafKeys) × (known (directive header "username" "") "r" ≡ some found)
    × IsFresh crypto (directive header "nonce" "") "k" 300 (time_or none 1000)
    × (directive header "response" "" ≡ rfc_response crypto header "r" "GET" found.ks_naf)
    × (passing.btid ≡ directive header "username" "")
    × (truthy passing.btid ≡ true)
verify_authorization_passed_example =
    verify_authorization_passed crypto header "r" "k" "GET" none 1000 300 known passing passed_runs
      refl

stale : verify_nonce crypto (directive header "nonce" "") "k" 300 none 1300 ≡ ok false
unfolding verify_nonce compare_digest Dict.get
stale = refl

accepted : verify_nonce crypto "900:k900" "k" 300 none 1000 ≡ ok true
unfolding verify_nonce compare_digest
accepted = refl

-- A signature that is not ASCII leaves the check as a `TypeError`.
foreign : verify_nonce crypto "900:é" "k" 300 none 1000 ≡ raise type_error
unfolding verify_nonce compare_digest
foreign = refl
