-- ===== src/Gba/Checked.antt =====
-- src/acs/auth/gba.py: what a passed check rests on, and when the BSF is asked.
use Prim.Native.String.{◌++◌ as str_append}
use auto_configuration_serve.Prelude.{
  ℕ, ◌≤◌, ◌+◌, String, ◌≡◌, true, false, Option, some, List, [], ◌∷◌, ◌++◌, arith, truthy, ok, sym,
  ◌∙◌, refl, Option-cases, Result-cases, inl, inr,
}
use auto_configuration_serve.Prelude.Texts.{compare_digest, compare_digest-ok}
use auto_configuration_serve.Prelude.Dict.{Dict}
use auto_configuration_serve.Identity.{NafKeys, AuthorizationCheck}
use auto_configuration_serve.Gba.{
  Crypto, verify_nonce, stamp_accepted, age_accepted, before_colon, after_colon, time_or, directive,
  expected_response, digest_response, verify_authorization,
}

-- A nonce that the server signed, of which `stamp` is the time.
pub record IsFresh (crypto : Crypto) (nonce secret : String) (max_age current : ℕ) : Type 0 where
  pub raw : String
  pub stamp : ℕ
  pub has_secret : truthy secret ≡ true
  pub decoded : crypto.decoded nonce ≡ some raw
  pub signature : after_colon raw ≡ crypto.signed secret (before_colon raw)
  pub digits : crypto.isdigit (before_colon raw) ≡ true
  pub time : crypto.number (before_colon raw) ≡ some stamp
  pub not_in_future : stamp ≤ current
  pub not_too_old : current ≤ stamp + max_age

age_accepted-ok :
    (crypto : Crypto) (max_age current : ℕ) (text : String)
    → age_accepted crypto max_age current text ≡ ok true
    → (stamp : ℕ) × (crypto.number text ≡ some stamp)
      × (stamp ≤ current)
      × (current ≤ stamp + max_age)
unfolding age_accepted
age_accepted-ok crypto max_age current text e = elim (Option-cases (crypto.number text)) [
  | inl a ↦ absurd (ground arith)
  | inr (stamp, a) ↦ (stamp, a, ground arith, ground arith)
]

-- What the checks of a decoded nonce have found when they accept it.
stamp_accepted-ok :
    (crypto : Crypto) (secret : String) (max_age current : ℕ) (raw : String)
    → stamp_accepted crypto secret max_age current raw ≡ ok true
    → (crypto.isdigit (before_colon raw) ≡ true)
      × (crypto.signed secret (before_colon raw) ≡ after_colon raw)
      × (age_accepted crypto max_age current (before_colon raw) ≡ ok true)
unfolding stamp_accepted
stamp_accepted-ok crypto secret max_age current raw e =
    elim (Result-cases
      (compare_digest (crypto.signed secret (before_colon raw)) (after_colon raw))) [
        | inl (x, a) ↦ absurd (ground arith)
        | inr (false, a) ↦ absurd (ground arith)
        | inr (true, a) ↦ (
          ground arith,
          compare_digest-ok (crypto.signed secret (before_colon raw)) (after_colon raw) a,
          ground arith,
        )
      ]

verify_nonce-IsFresh :
    (crypto : Crypto) (nonce secret : String) (max_age : ℕ) (now : Option ℕ) (clock : ℕ)
    → verify_nonce crypto nonce secret max_age now clock ≡ ok true
    → IsFresh crypto nonce secret max_age (time_or now clock)
unfolding verify_nonce
verify_nonce-IsFresh crypto nonce secret max_age now clock e =
    elim (Option-cases (crypto.decoded nonce)) [
      | inl a ↦ absurd (ground arith)
      | inr (raw, a) ↦
          let (digits, signed, aged) =
            stamp_accepted-ok crypto secret max_age (time_or now clock) raw (ground arith) in
          let (stamp, read, past, young) =
            age_accepted-ok crypto max_age (time_or now clock) (before_colon raw) aged in
          record {
            raw = raw;
            stamp = stamp;
            has_secret = ground arith;
            decoded = a;
            signature = sym signed;
            digits = digits;
            time = read;
            not_in_future = past;
            not_too_old = young;
          }
    ]

-- Texts with a colon between each two.
abbrev pub colons : List String → String
colons [] = ""
colons (a ∷ []) = a
colons (a ∷ (b ∷ rest)) = str_append a (str_append ":" (colons (b ∷ rest)))

-- The response of RFC 2617 with quality of protection, for the directives of a header.
abbrev pub rfc_response : Crypto → Dict String → (realm method : String) → List ℕ → String
rfc_response crypto directives realm method password = crypto.md5 (
    crypto.utf8 (
      colons (
        crypto.md5 (
          crypto.utf8 (directive directives "username" "")
          ++ crypto.utf8 ":"
          ++ crypto.utf8 realm
          ++ crypto.utf8 ":"
          ++ password)
        ∷ (directive directives "nonce" ""
            ∷ (directive directives "nc" "00000001"
                ∷ (directive directives "cnonce" ""
                    ∷ (directive directives "qop" "auth"
                        ∷ (crypto.md5
                              (crypto.utf8 (colons (method ∷ (directive directives "uri" "" ∷ []))))
                            ∷ []))))))))

expected_response-rfc_response :
    (crypto : Crypto) (directives : Dict String) (realm method : String) (keys : NafKeys)
    → expected_response crypto directives realm method keys
      ≡ rfc_response crypto directives realm method keys.ks_naf
unfolding expected_response digest_response
expected_response-rfc_response crypto directives realm method keys = refl

module _ (crypto : Crypto) (directives : Dict String) (realm secret method : String)
    (now : Option ℕ) (clock max_age : ℕ) where
  -- A header passes only with a nonce that decodes to a stamp and its signature under the server's
  -- secret, where the stamp is not in the future and not older than the age allowed, and with the
  -- response of RFC 2617 under the keys that the BSF gives for its B-TID. The check names that
  -- B-TID, which is not empty.
  pub verify_authorization_passed :
      (fetch_keys : String → String → Option NafKeys) (check : AuthorizationCheck)
      → verify_authorization crypto
          (some directives)
          realm
          secret
          method
          fetch_keys
          now
          clock
          max_age
        ≡ ok check
      → check.passed ≡ true
      → (keys : NafKeys) × (fetch_keys (directive directives "username" "") realm ≡ some keys)
        × IsFresh crypto (directive directives "nonce" "") secret max_age (time_or now clock)
        × (directive directives "response" ""
            ≡ rfc_response crypto directives realm method keys.ks_naf)
        × (check.btid ≡ directive directives "username" "")
        × (truthy check.btid ≡ true)
  unfolding verify_authorization
  verify_authorization_passed fetch_keys check e passed =
      let nonce = directive directives "nonce" "" in
      let response = directive directives "response" "" in
      elim (Result-cases (verify_nonce crypto nonce secret max_age now clock)) [
        | inl (x, a) ↦ absurd (ground arith)
        | inr (false, a) ↦ absurd (ground arith)
        | inr (true, a) ↦
            elim (Option-cases (fetch_keys (directive directives "username" "") realm)) [
              | inl b ↦ absurd (ground arith)
              | inr (keys, b) ↦
                  elim (Result-cases (
                    compare_digest (expected_response crypto directives realm method keys)
                      response)) [
                        | inl (x, c) ↦ absurd (ground arith)
                        | inr (false, c) ↦ absurd (ground arith)
                        | inr (true, c) ↦ (
                          keys,
                          b,
                          verify_nonce-IsFresh crypto nonce secret max_age now clock a,
                          sym (
                                compare_digest-ok
                                  (expected_response crypto directives realm method keys) response
                                  c)
                              ∙ expected_response-rfc_response crypto directives realm method keys,
                          ground arith,
                          ground arith,
                        )
                      ]
            ]
      ]

  -- The BSF is asked only for a header whose nonce is accepted: without one the answer is the same
  -- whatever the BSF would say.
  pub verify_authorization_unasked :
      (fetch_keys other_keys : String → String → Option NafKeys)
      → verify_nonce crypto (directive directives "nonce" "") secret max_age now clock ≡ ok false
      → verify_authorization crypto
          (some directives)
          realm
          secret
          method
          fetch_keys
          now
          clock
          max_age
        ≡ verify_authorization crypto
            (some directives)
            realm
            secret
            method
            other_keys
            now
            clock
            max_age
  unfolding verify_authorization
  verify_authorization_unasked fetch_keys other_keys h = ground arith
