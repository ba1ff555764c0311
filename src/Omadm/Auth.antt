-- ===== src/Omadm/Auth.antt =====
-- src/acs/protocol/omadm/auth.py: the credentials of a device. `digest` is the base64 of the MD5 of
-- a text, `fresh` the nonce that `make_nonce` draws.
use Prim.Native.String.{◌++◌ as str_append}
use auto_configuration_serve.Prelude.{
  String, Bool, true, false, Option, none, some, truthy, str_eq, not, ◌||◌, if◌then◌else◌,
}
use auto_configuration_serve.Prelude.Texts.{strip}
use auto_configuration_serve.Omadm.Message.{Credentials, decode_basic, auth_basic, auth_md5}

pub record DmAuthResult : Type 0 where
  pub authenticated : Bool
  pub username : String
  pub scheme : String
  pub reason : String
  pub challenge_nonce : String

abbrev pub accepted : (username scheme : String) → DmAuthResult
accepted username scheme = record {
  authenticated = true;
  username = username;
  scheme = scheme;
  reason = "";
  challenge_nonce = "";
}

abbrev pub rejected : (username reason nonce : String) → DmAuthResult
rejected username reason nonce = record {
  authenticated = false;
  username = username;
  scheme = "";
  reason = reason;
  challenge_nonce = nonce;
}

-- `nonce or make_nonce()`
abbrev pub nonce_or : (nonce fresh : String) → String
nonce_or nonce fresh = if truthy nonce then nonce else fresh

unfoldable pub md5_credential : (String → String) → (username password nonce : String) → String
md5_credential digest username password nonce =
    digest
      (str_append (digest (str_append username (str_append ":" password))) (str_append ":" nonce))

-- The name in basic credentials, where they can be read.
abbrev pub basic_name : (String → Option String) → Option Credentials → String
basic_name b64decode none = ""
basic_name b64decode (some credentials) = elim (decode_basic b64decode credentials) [
  | none ↦ ""
  | some (username, password) ↦ username
]

-- `authenticate` for credentials of the basic type.
unfoldable pub authenticate_basic :
    (String → Option String)
    → Credentials
    → (String → Option String)
    → (nonce fresh : String) → DmAuthResult
authenticate_basic b64decode credentials lookup_password nonce fresh =
    elim (decode_basic b64decode credentials) [
      | none ↦ rejected "" "malformed" (nonce_or nonce fresh)
      | some (username, password) ↦ elim (lookup_password username) [
        | none ↦ rejected username "invalid" (nonce_or nonce fresh)
        | some expected ↦
            if not (truthy expected) || not (str_eq expected password)
            then rejected username "invalid" (nonce_or nonce fresh)
            else accepted username auth_basic
      ]
    ]

unfoldable pub authenticate :
    (String → Option String)
    → Option Credentials
    → (scheme : String) → (String → Option String)
    → (nonce fresh : String) → DmAuthResult
unfolding authenticate_basic
authenticate b64decode credentials scheme lookup_password nonce fresh =
    if str_eq scheme "none"
    then accepted (basic_name b64decode credentials) "none"
    else elim credentials [
      | none ↦ rejected "" "missing_credentials" (nonce_or nonce fresh)
      | some given_credentials ↦
          if not (truthy given_credentials.value)
          then rejected "" "missing_credentials" (nonce_or nonce fresh)
          else if str_eq given_credentials.type_ auth_basic
          then authenticate_basic b64decode given_credentials lookup_password nonce fresh
          else if str_eq given_credentials.type_ auth_md5
          then rejected "" "md5_requires_username" (nonce_or nonce fresh)
          else rejected "" "unsupported_scheme" (nonce_or nonce fresh)
    ]

unfoldable pub authenticate_md5 :
    (String → String)
    → Credentials
    → (username : String) → Option String
    → (nonce fresh : String) → DmAuthResult
unfolding md5_credential
authenticate_md5 digest credentials username expected_password nonce fresh =
    if not (truthy credentials.value) || not (str_eq credentials.type_ auth_md5)
    then rejected username "missing_credentials" (nonce_or nonce fresh)
    else elim expected_password [
      | none ↦ rejected username "invalid" (nonce_or nonce fresh)
      | some expected ↦
          if not (truthy expected) || not (truthy nonce)
          then rejected username "invalid" (nonce_or nonce fresh)
          else if not
              (str_eq (md5_credential digest username expected nonce) (strip credentials.value))
          then rejected username "invalid" fresh
          else accepted username auth_md5
    ]
