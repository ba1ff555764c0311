-- ===== src/Gba.antt =====
-- src/acs/auth/gba.py: the check of a GBA Digest Authorization header. HMAC, MD5, base64 and the
-- readings of digits are parameters, and so are the directives that `parse_authorization` reads.
pub mod Checked
mod Runs
use Prim.Native.Char.{Char, code}
use Prim.Native.String.{◌++◌ as str_append}
use auto_configuration_serve.Prelude.{
  ℕ, ◌-◌, String, Bool, true, false, Option, none, some, List, [], ◌∷◌, ◌++◌, not, ◌&&◌, ◌||◌, leb,
  truthy, str_eq, ◌==◌, if◌then◌else◌, Result, ok, raise, ◌>>=◌,
}
use auto_configuration_serve.Prelude.Texts.{PythonError, value_error, compare_digest}
use auto_configuration_serve.Prelude.Dict
use auto_configuration_serve.Prelude.Dict.{Dict}
use auto_configuration_serve.Identity.{NafKeys, AuthorizationCheck}

-- What the code uses of Python's library. `signed secret stamp` is the first 32 hexadecimal digits
-- of the HMAC; `decoded` is none where base64 or UTF-8 refuse, `number` where `int` raises.
pub record Crypto : Type 0 where
  pub signed : String → String → String
  pub decoded : String → Option String
  pub isdigit : String → Bool
  pub number : String → Option ℕ
  pub utf8 : String → List ℕ
  pub md5 : List ℕ → String

-- `text.partition(":")`: what stands before the first colon, and after it.
unfoldable pub before_colon : String → String
before_colon String.[] = String.[]
before_colon (String.◌∷◌ c s) =
    let rest = before_colon s in if code c == 58 then String.[] else String.◌∷◌ c rest

unfoldable pub after_colon : String → String
after_colon String.[] = String.[]
after_colon (String.◌∷◌ c s) = let rest = after_colon s in if code c == 58 then s else rest

-- `now if now is not None else int(time.time())`
abbrev pub time_or : Option ℕ → ℕ → ℕ
time_or none clock = clock
time_or (some now) clock = now

-- `directives.get(name, default)`
abbrev pub directive : Dict String → (name default : String) → String
directive directives name default = elim (Dict.get directives name) [
  | none ↦ default
  | some text ↦ text
]

module _ (crypto : Crypto) where
  -- `0 <= current - int(stamp) <= max_age`
  unfoldable pub age_accepted : ℕ → ℕ → String → Result PythonError Bool
  age_accepted max_age current stamp = elim (crypto.number stamp) [
    | none ↦ raise value_error
    | some issued ↦ ok (leb issued current && leb (current - issued) max_age)
  ]

  -- The decoded nonce: the stamp, a colon, the signature of the stamp; the stamp not in the future
  -- and not older than the age allowed.
  unfoldable pub stamp_accepted : String → ℕ → ℕ → String → Result PythonError Bool
  unfolding before_colon after_colon compare_digest age_accepted
  stamp_accepted secret max_age current raw =
      let stamp = before_colon raw in
      let signature = after_colon raw in
      if not (truthy signature) || not (crypto.isdigit stamp)
      then ok false
      else compare_digest (crypto.signed secret stamp) signature >>= λ same.
          if not same then ok false else age_accepted max_age current stamp

  unfoldable pub verify_nonce : String → String → ℕ → Option ℕ → ℕ → Result PythonError Bool
  unfolding stamp_accepted
  verify_nonce nonce secret max_age now clock =
      if not (truthy secret) || not (truthy nonce) then ok false else elim (crypto.decoded nonce) [
        | none ↦ ok false
        | some raw ↦ stamp_accepted secret max_age (time_or now clock) raw
      ]

  -- RFC 2617, with Ks_NAF for the password.
  unfoldable pub digest_response :
      (username realm : String) (password : List ℕ) (method uri nonce cnonce nc qop : String)
      → String
  digest_response username realm password method uri nonce cnonce nc qop =
      let ha1 = crypto.md5 (
        crypto.utf8 username
        ++ crypto.utf8 ":"
        ++ crypto.utf8 realm
        ++ crypto.utf8 ":"
        ++ password) in
      let ha2 = crypto.md5 (crypto.utf8 (str_append method (str_append ":" uri))) in
      crypto.md5 (
        crypto.utf8 (
          str_append ha1 (
            str_append ":" (
              str_append nonce (
                str_append ":" (
                  str_append nc (
                    str_append ":" (
                      str_append cnonce
                        (str_append ":" (str_append qop (str_append ":" ha2)))))))))))

  abbrev pub rejected : String → String → AuthorizationCheck
  rejected btid reason = record { passed = false; btid = btid; reason = reason }

  -- The response that the keys of the B-TID give for the directives.
  unfoldable pub expected_response : Dict String → (realm method : String) → NafKeys → String
  unfolding digest_response
  expected_response directives realm method keys =
      digest_response (directive directives "username" "") realm keys.ks_naf method
        (directive directives "uri" "") (directive directives "nonce" "")
        (directive directives "cnonce" "") (directive directives "nc" "00000001")
        (directive directives "qop" "auth")

  -- `directives` is none where `parse_authorization` finds none at all.
  unfoldable pub verify_authorization :
      Option (Dict String)
      → (realm nonce_secret method : String) → (String → String → Option NafKeys)
      → Option ℕ
      → ℕ
      → ℕ
      → Result PythonError AuthorizationCheck
  unfolding verify_nonce expected_response compare_digest
  verify_authorization none realm secret method fetch_keys now clock max_age =
      ok (rejected "" "not_digest")
  verify_authorization (some directives) realm secret method fetch_keys now clock max_age =
      let btid = directive directives "username" "" in
      let nonce = directive directives "nonce" "" in
      let response = directive directives "response" "" in
      let uri = directive directives "uri" "" in
      if not (truthy btid) || (not (truthy nonce) || (not (truthy response) || not (truthy uri)))
      then ok (rejected btid "incomplete")
      else verify_nonce nonce secret max_age now clock >>= λ fresh.
          if not fresh then ok (rejected btid "nonce_invalid") else elim (fetch_keys btid realm) [
            | none ↦ ok (rejected btid "btid_unknown")
            | some keys ↦
                compare_digest (expected_response directives realm method keys) response >>= λ same.
                ok (
                  if not same
                  then rejected btid "response_mismatch"
                  else record { passed = true; btid = btid; reason = "verified" })
          ]
