-- ===== src/Enrichment/Trusted.antt =====
-- src/acs/auth/enrichment.py: which address counts, and when a header is believed.
use auto_configuration_serve.Prelude.{
  ℕ, ◌≡◌, refl, ap, ◌∙◌, true, Option, some, List, [], ◌∷◌, ◌++◌, ◌==◌, if◌then◌else◌, arith,
  Bool-cases, Option-cases, inl, inr,
}
use auto_configuration_serve.Pii.{Classes}
use auto_configuration_serve.Enrichment.{
  Addresses, split, last_part, client_address, is_trusted_peer, header_value, resolve_at,
  resolve_enriched_identity,
}

module _ (classes : Classes) (addresses : Addresses) (lower : List ℕ → List ℕ) where
  nothing : {address : List ℕ} → last_part classes addresses lower [] ≡ some address → ⊥
  unfolding last_part
  nothing e = ground arith

  last_part-more :
      (p : List ℕ) (ps : List (List ℕ)) (address : List ℕ)
      → last_part classes addresses lower ps ≡ some address
      → last_part classes addresses lower (p ∷ ps) ≡ some address
  unfolding last_part
  last_part-more p ps address e = rw (e) refl

  -- A text with a comma has a first part, and the parts after it give what the last ones give.
  split-comma :
      (forged last address : List ℕ)
      → last_part classes addresses lower (split 0x2c last) ≡ some address
      → (p : List ℕ) × (ps : List (List ℕ)) × (split 0x2c (forged ++ 0x2c ∷ last) ≡ p ∷ ps)
        × (last_part classes addresses lower ps ≡ some address)
  unfolding split
  split-comma [] last address e = go (split 0x2c last) e
    where
      go :
          (parts : List (List ℕ))
          → last_part classes addresses lower parts ≡ some address
          → (p : List ℕ) × (ps : List (List ℕ)) × (elim parts as (λ _. List (List ℕ)) [
            | [] ↦ [] ∷ []
            | part ∷ more ↦ if 0x2c == 0x2c then [] ∷ part ∷ more else (0x2c ∷ part) ∷ more
          ]
              ≡ p ∷ ps)
            × (last_part classes addresses lower ps ≡ some address)
      go [] e' = absurd (nothing e')
      go (part ∷ more) e' = ([], part ∷ more, refl, e')
  split-comma (c ∷ cs) last address e =
      let (p, ps, parts, found) = split-comma cs last address e in
      elim (Bool-cases (c == 0x2c)) [
        | inl comma ↦ ([], p ∷ ps, rw (parts, comma) refl, last_part-more p ps address found)
        | inr other ↦ (c ∷ p, ps, rw (parts, other) refl, found)
      ]

  client_address-forged :
      (peer : Option (List ℕ)) (forged last address : List ℕ)
      → last_part classes addresses lower (split 0x2c last) ≡ some address
      → client_address classes addresses lower peer (some (forged ++ 0x2c ∷ last))
        ≡ client_address classes addresses lower peer (some last)
  unfolding client_address
  client_address-forged peer forged last address e =
      let (p, ps, parts, found) = split-comma forged last address e in
      let whole : last_part classes addresses lower (split 0x2c (forged ++ 0x2c ∷ last))
          ≡ some address =
        ap (λ t. last_part classes addresses lower t) parts ∙ last_part-more p ps address found in
      ground arith

  -- What a caller writes into X-Forwarded-For before the last entry does not count: where that entry
  -- gives an address, the enriched identity is the one that it gives alone.
  pub resolve_enriched_identity_forged :
      (headers : List (List ℕ × List ℕ)) (peer : Option (List ℕ)) (forged last address : List ℕ)
      (header_name : List ℕ) (cidrs : List (List ℕ)) (country trunk : List ℕ)
      → last_part classes addresses lower (split 0x2c last) ≡ some address
      → resolve_enriched_identity classes addresses lower headers peer
          (some (forged ++ 0x2c ∷ last))
          header_name
          cidrs
          country
          trunk
        ≡ resolve_enriched_identity classes addresses lower headers peer
            (some last)
            header_name
            cidrs
            country
            trunk
  unfolding resolve_enriched_identity
  resolve_enriched_identity_forged headers peer forged last address header_name cidrs country trunk
        e =
      ap
        (λ (t : Option (List ℕ)).
          resolve_at classes addresses lower headers t header_name cidrs country trunk)
        (client_address-forged peer forged last address e)

  resolve_at-trusted :
      (headers : List (List ℕ × List ℕ)) (address : Option (List ℕ)) (header_name : List ℕ)
      (cidrs : List (List ℕ)) (country trunk : List ℕ)
      → (resolve_at classes addresses lower headers address header_name cidrs country trunk).trusted
        ≡ true
      → is_trusted_peer classes addresses lower address cidrs ≡ true
  unfolding resolve_at
  resolve_at-trusted headers address header_name [] country trunk e = absurd (ground arith)
  resolve_at-trusted headers address header_name (cidr ∷ cidrs) country trunk e =
      elim (Option-cases (header_value classes addresses lower headers header_name)) [
        | inl absent ↦ absurd (ground arith)
        | inr (raw, found) ↦
            elim (Bool-cases (is_trusted_peer classes addresses lower address (cidr ∷ cidrs))) [
              | inl inside ↦ inside
              | inr outside ↦ absurd (ground arith)
            ]
      ]

  -- An enriched identity is trusted only where the mechanism is enabled and the address of the client
  -- lies in one of the trusted networks.
  pub resolve_enriched_identity_trusted :
      (headers : List (List ℕ × List ℕ)) (peer forwarded_for : Option (List ℕ))
      (header_name : List ℕ) (cidrs : List (List ℕ)) (country trunk : List ℕ)
      → (resolve_enriched_identity classes addresses lower headers peer forwarded_for header_name
          cidrs country trunk).trusted
        ≡ true
      → is_trusted_peer classes addresses lower
          (client_address classes addresses lower peer forwarded_for)
          cidrs
        ≡ true
  unfolding resolve_enriched_identity
  resolve_enriched_identity_trusted headers peer forwarded_for header_name cidrs country trunk e =
      resolve_at-trusted headers (client_address classes addresses lower peer forwarded_for)
        header_name cidrs country trunk e
