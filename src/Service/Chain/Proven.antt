-- ===== src/Service/Chain/Proven.antt =====
-- src/acs/domain/service.py, `resolve_identity`: what an authenticated answer is founded on.
use auto_configuration_serve.Prelude.{
  String, ◌≡◌, refl, true, Option, none, some, arith, Option-cases, inl, inr,
}
use auto_configuration_serve.Models.{Subscriber, TokenRecord, imei_allowed}
use auto_configuration_serve.Store.{MemoryStore, get_subscriber, get_subscriber_by_msisdn}
use auto_configuration_serve.Token.{verify_token}
use auto_configuration_serve.Otp.{verified, verify_challenge}
use auto_configuration_serve.Identity.{
  Identity, IdentityMethod, token, enrichment, gba, otp, authenticated, authenticated_as,
  unresolved_because, refused_because, challenge_for, AuthorizationCheck, NafKeys,
}
use auto_configuration_serve.Service.{Settings, ConfigQuery, Outside}
use auto_configuration_serve.Service.Chain.{
  resolve_token, resolve_enriched, resolve_gba, resolve_otp, resolve_candidate, resolve_identity,
  lookup_candidate, user_part,
}

module _ (settings : Settings) (outside : Outside) where
  -- What names the subscriber, and what proves it, for each method.
  pub data Evidence (store : MemoryStore) (query : ConfigQuery)
      : Subscriber → IdentityMethod → MemoryStore → Type 0 where
    by_token :
        {t : String} {r : TokenRecord} {s : Subscriber}
        → query.token ≡ some t
        → verify_token outside.digest store outside.clock t query.imei settings.token_bind_imei
          ≡ some r
        → get_subscriber store r.imsi ≡ some s
        → Evidence store query s token store
    by_header :
        {m : String} {s : Subscriber}
        → outside.enriched.msisdn ≡ some m
        → get_subscriber_by_msisdn store m ≡ some s
        → Evidence store query s enrichment store
    by_gba :
        {check : AuthorizationCheck} {fetch_keys : String → String → Option NafKeys}
        {keys : NafKeys} {s : Subscriber}
        → settings.gba_enabled ≡ true
        → outside.authorization ≡ some check
        → check.passed ≡ true
        → outside.bsf ≡ some fetch_keys
        → fetch_keys check.btid settings.gba_realm ≡ some keys
        → get_subscriber store (user_part keys.impi) ≡ some s
        → Evidence store query s gba store
    by_otp :
        {code : String} {s : Subscriber} {after : MemoryStore}
        → lookup_candidate store query ≡ some s
        → imei_allowed s query.imei ≡ true
        → query.otp ≡ some code
        → (verify_challenge outside.digest outside.others store outside.clock s.msisdn code
            settings.otp_policy none).1
          ≡ verified
        → after
          ≡ (verify_challenge outside.digest outside.others store outside.clock s.msisdn code
              settings.otp_policy none).0
        → Evidence store query s otp after

  -- An answer that, if it is `authenticated`, is so on evidence for an entitled subscriber.
  abbrev Founded : MemoryStore → ConfigQuery → MemoryStore × Identity → Type 0
  Founded store query (after, identity) =
      identity.decision ≡ authenticated
      → (s : Subscriber) × (m : IdentityMethod) × (identity ≡ authenticated_as s m)
        × (s.entitled ≡ true)
        × Evidence store query s m after

  -- The answers of the first three steps leave the store alone.
  abbrev FoundedHere : MemoryStore → ConfigQuery → Option Identity → Type 0
  FoundedHere store query found =
      (identity : Identity) → found ≡ some identity → Founded store query (store, identity)

  resolve_token-Founded :
      (store : MemoryStore) (query : ConfigQuery)
      → FoundedHere store query (resolve_token settings outside store query)
  unfolding resolve_token unresolved_because refused_because authenticated_as
  resolve_token-Founded store query identity e d = elim (Option-cases query.token) [
    | inl a ↦ ground arith
    | inr (t, a) ↦
        elim (Option-cases
          (verify_token outside.digest store outside.clock t query.imei settings.token_bind_imei)) [
            | inl b ↦ ground arith
            | inr (r, b) ↦ elim (Option-cases (get_subscriber store r.imsi)) [
              | inl c ↦ ground arith
              | inr (s, c) ↦ (s, token, ground arith, ground arith, by_token a b c)
            ]
          ]
  ]

  resolve_enriched-Founded :
      (store : MemoryStore) (query : ConfigQuery)
      → FoundedHere store query (resolve_enriched settings outside store)
  unfolding resolve_enriched unresolved_because refused_because authenticated_as
  resolve_enriched-Founded store query identity e d = elim (Option-cases outside.enriched.msisdn) [
    | inl a ↦ ground arith
    | inr (m, a) ↦ elim (Option-cases (get_subscriber_by_msisdn store m)) [
      | inl b ↦ ground arith
      | inr (s, b) ↦ (s, enrichment, ground arith, ground arith, by_header a b)
    ]
  ]

  resolve_gba-Founded :
      (store : MemoryStore) (query : ConfigQuery)
      → FoundedHere store query (resolve_gba settings outside store)
  unfolding resolve_gba unresolved_because refused_because authenticated_as
  resolve_gba-Founded store query identity e d = elim (Option-cases outside.bsf) [
    | inl a ↦ ground arith
    | inr (fetch_keys, a) ↦ elim (Option-cases outside.authorization) [
      | inl b ↦ ground arith
      | inr (check, b) ↦ elim (Option-cases (fetch_keys check.btid settings.gba_realm)) [
        | inl c ↦ ground arith
        | inr (keys, c) ↦ elim (Option-cases (get_subscriber store (user_part keys.impi))) [
          | inl f ↦ ground arith
          | inr (s, f) ↦
              (s, gba, ground arith, ground arith, by_gba (ground arith) b (ground arith) a c f)
        ]
      ]
    ]
  ]

  resolve_candidate-Founded :
      (store : MemoryStore) (query : ConfigQuery)
      → Founded store query (resolve_candidate settings outside store query)
  unfolding resolve_candidate resolve_otp unresolved_because refused_because challenge_for
      authenticated_as
  resolve_candidate-Founded store query d = elim (Option-cases (lookup_candidate store query)) [
    | inl a ↦ ground arith
    | inr (s, a) ↦ elim (Option-cases query.otp) [
      | inl b ↦ ground arith
      | inr (code, b) ↦ (
        s,
        otp,
        ground arith,
        ground arith,
        by_otp a (ground arith) b (ground arith) (ground arith),
      )
    ]
  ]

  or_else-Founded :
      (store : MemoryStore) (query : ConfigQuery) (first : Option Identity)
      (rest : MemoryStore × Identity)
      → FoundedHere store query first
      → Founded store query rest
      → Founded store query (elim first as (λ _. MemoryStore × Identity) [
        | some identity ↦ (store, identity)
        | none ↦ rest
      ])
  or_else-Founded store query none rest h k = k
  or_else-Founded store query (some i) rest h k = h i refl

  -- An answer `authenticated` is founded, whatever the store holds, and whatever other requests do
  -- between the operations of the one-time code's verification (the other evidence is read from the
  -- one store that the request is given): its subscriber is entitled, and either the request's token
  -- was verified and the token's record names the subscriber, or the trusted header's number is
  -- looked up to it, or GBA is on, the Authorization header passed its check and the BSF's keys for
  -- its B-TID name it, or the request's identifiers name it as the candidate, the handset is one it
  -- allows, and the request's one-time code was verified for its number. Only the last changes the
  -- store, to what the verification left.
  pub resolve_identity_authenticated :
      (store : MemoryStore) (query : ConfigQuery)
      → (resolve_identity settings outside store query).1.decision ≡ authenticated
      → (s : Subscriber) × (m : IdentityMethod) × ((resolve_identity settings outside store query).1
          ≡ authenticated_as s m)
        × (s.entitled ≡ true)
        × Evidence store query s m (resolve_identity settings outside store query).0
  unfolding resolve_identity
  resolve_identity_authenticated store query =
      or_else-Founded store query _ _ (resolve_token-Founded store query) (
        or_else-Founded store query _ _ (resolve_enriched-Founded store query) (
          or_else-Founded store query _ _ (resolve_gba-Founded store query)
            (resolve_candidate-Founded store query)))
