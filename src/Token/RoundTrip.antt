-- ===== src/Token/RoundTrip.antt =====
-- src/acs/auth/token.py: when a token is accepted.
use auto_configuration_serve.Prelude.{
  ℕ, ◌+◌, ◌≡◌, ◌∙◌, ap, refl, String, Bool, true, false, Option, none, some, arith, truthy, given,
  same_text?, eq_refl, ltb, if◌then◌else◌, not, ◌&&◌, ◌||◌, str_eq, Option-cases, inl, inr,
}
use auto_configuration_serve.Prelude.Dict.{get-put_self}
use auto_configuration_serve.Models.{TokenRecord}
use auto_configuration_serve.Store.{MemoryStore, put_token, get_token, revoke_tokens_for_imsi}
use auto_configuration_serve.Store.Tokens.{revoked_if, get_token-revoke_tokens_for_imsi}
use auto_configuration_serve.Token.{issue_token, accept_record, verify_token}

-- The checks on a record that is not revoked, at its own digest.
abbrev kept_until : TokenRecord → ℕ → Bool → Option String → Option String → Option TokenRecord
kept_until r clock bind imei imei' =
    if ltb clock r.expires_at && (not bind || (not (given imei) || same_text? imei imei'))
    then some r
    else none

accept_record-issued :
    (r : TokenRecord) (clock : ℕ) (bind : Bool) (imei imei' : Option String)
    → r.revoked ≡ false
    → r.imei ≡ (if bind then imei else none)
    → accept_record r.token_hash r clock imei' bind ≡ kept_until r clock bind imei imei'
unfolding accept_record
accept_record-issued r clock false imei imei' live e = ground (arith, eq_refl r.token_hash)
accept_record-issued r clock true none imei' live e = ground (arith, eq_refl r.token_hash)
accept_record-issued r clock true (some a) none live e = ground (arith, eq_refl r.token_hash)
accept_record-issued r clock true (some a) (some b) live e = ground (arith, eq_refl r.token_hash)

-- A token that was just issued is accepted from the same handset until its lifetime is over, and
-- then refused; the record accepted names the subscriber. If it is bound to a handset (an IMEI was
-- given and both calls bind), any other handset is refused.
pub verify_token-issue_token :
    (digest : String → String) (token : String) (store : MemoryStore) (clock clock' : ℕ)
    (imsi : String) (imei imei' : Option String) (ttl : ℕ) (bind : Bool)
    → truthy token ≡ true
    → verify_token digest
        (issue_token digest token store clock imsi imei ttl bind).0
        clock'
        token
        imei'
        bind
      ≡ (if ltb clock' (clock + ttl) && (not bind || (not (given imei) || same_text? imei imei'))
          then some (record {
            token_hash = digest token;
            imsi = imsi;
            imei = if bind then imei else none;
            issued_at = clock;
            expires_at = clock + ttl;
            revoked = false;
          })
          else none)
unfolding verify_token issue_token put_token get_token
verify_token-issue_token digest token store clock clock' imsi imei imei' ttl bind h =
    rw (h, get-put_self)
      (accept_record-issued
        (record {
          token_hash = digest token;
          imsi = imsi;
          imei = if bind then imei else none;
          issued_at = clock;
          expires_at = clock + ttl;
          revoked = false;
        })
        clock' bind imei imei' refl refl)

verify_token-found :
    (digest : String → String) (store : MemoryStore) (clock : ℕ) (token : String)
    (imei : Option String) (bind : Bool) (r : TokenRecord)
    → verify_token digest store clock token imei bind ≡ some r
    → get_token store (digest token) ≡ some r
unfolding verify_token
verify_token-found digest store clock token imei bind r e = ground arith

verify_token-revoked :
    (digest : String → String) (store : MemoryStore) (clock : ℕ) (token : String)
    (imei : Option String) (bind : Bool) (r : TokenRecord)
    → get_token store (digest token) ≡ some r
    → r.revoked ≡ true
    → verify_token digest store clock token imei bind ≡ none
unfolding verify_token
verify_token-revoked digest store clock token imei bind r e h = ground arith

-- Once the tokens of its subscriber are revoked, an accepted token is refused, whatever the time
-- and the handset; the text of the token and the digest do not matter.
pub verify_token-revoke_tokens_for_imsi :
    (digest : String → String) (store : MemoryStore) (clock clock' : ℕ) (token : String)
    (imei imei' : Option String) (bind bind' : Bool) (r : TokenRecord)
    → verify_token digest store clock token imei bind ≡ some r
    → verify_token digest (revoke_tokens_for_imsi store r.imsi).0 clock' token imei' bind' ≡ none
verify_token-revoke_tokens_for_imsi digest store clock clock' token imei imei' bind bind' r e =
    verify_token-revoked digest _ clock' token imei' bind' (record r { revoked = true })
      (get_token-revoke_tokens_for_imsi store r.imsi (digest token)
        ∙ ground (arith, verify_token-found digest store clock token imei bind r e, eq_refl r.imsi))
      refl

-- Whether a record was accepted that names the subscriber.
abbrev pub names : (imsi : String) → Option TokenRecord → Bool
names imsi none = false
names imsi (some r) = str_eq r.imsi imsi

accept_record-names :
    (digested : String) (r : TokenRecord) (clock : ℕ) (imei : Option String) (bind : Bool)
    (imsi : String)
    → (r.revoked || not (str_eq r.imsi imsi)) ≡ true
    → names imsi (accept_record digested r clock imei bind) ≡ false
unfolding accept_record
accept_record-names digested r clock imei bind imsi h = ground arith

-- Once the tokens of an IMSI are revoked, no text of a token is accepted as a token of it.
pub names-verify_token :
    (digest : String → String) (store : MemoryStore) (imsi : String) (clock : ℕ) (token : String)
    (imei : Option String) (bind : Bool)
    → names imsi (verify_token digest (revoke_tokens_for_imsi store imsi).0 clock token imei bind)
      ≡ false
unfolding verify_token
names-verify_token digest store imsi clock token imei bind =
    let kept = get_token-revoke_tokens_for_imsi store imsi (digest token) in
    elim (Option-cases (get_token store (digest token))) [
      | inl a ↦ ground (arith, kept)
      | inr (r, a) ↦
          let marked : TokenRecord = record r { revoked = r.revoked || str_eq r.imsi imsi } in
          let found : get_token (revoke_tokens_for_imsi store imsi).0 (digest token) ≡ some marked =
            kept ∙ ap (revoked_if (λ t. str_eq t.imsi imsi)) a in
          ground (
            arith,
            found,
            accept_record-names (digest token) marked clock imei bind imsi (ground arith),
          )
    ]
