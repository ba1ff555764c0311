-- ===== src/Package/Total.antt =====
-- src/acs/protocol/omadm/package.py: the loops of `fill` and `apply` end, whatever the builder does.
use auto_configuration_serve.Prelude.{
  ℕ, zero, suc, ◌+◌, ◌-◌, ◌*◌, ◌/◌, ◌≤◌, ◌<◌, ◌≡◌, ◌≢◌, ap, ◌∙◌, length, ok, raise, arith, ltb, leb,
  Bool-cases, Result-cases, inl, inr,
}
use auto_configuration_serve.Package.{
  Build, Search, out_of_rounds, gallop, bisect, search_from, fill,
}

module _ (build : Build) (limit : ℕ) (builds : (n : ℕ) → build n ≢ raise out_of_rounds) where
  gallop_ends :
      (k : ℕ) (s : Search) (step : ℕ)
      → 0 < step
      → s.too_many ≤ s.fits + k
      → gallop build limit k s step ≢ raise out_of_rounds
  unfolding gallop
  gallop_ends zero s step p near e = elim (Bool-cases (ltb (s.fits + step) s.too_many)) [
    | inl more ↦ absurd (ground arith)
    | inr stop ↦ absurd (ground arith)
  ]
  gallop_ends (suc k) s step p near e = elim (Bool-cases (ltb (s.fits + step) s.too_many)) [
    | inr stop ↦ absurd (ground arith)
    | inl more ↦ elim (Result-cases (build (s.fits + step))) [
      | inl (x, failed) ↦
          let same : x ≡ out_of_rounds = ground arith in
          builds (s.fits + step) (failed ∙ ap raise same)
      | inr (body, made) ↦ elim (Bool-cases (ltb limit (length body))) [
        | inl big ↦ absurd (ground arith)
        | inr fit ↦
            gallop_ends k (record { fits = s.fits + step; best = body; too_many = s.too_many })
              (step * 2) (omega (arith, p)) (omega (arith, p, near)) (ground arith)
      ]
    ]
  ]

  gallop_nearer :
      (k : ℕ) (s t : Search) (step : ℕ)
      → gallop build limit k s step ≡ ok t
      → t.too_many ≤ s.too_many
  unfolding gallop
  gallop_nearer zero s t step e = elim (Bool-cases (ltb (s.fits + step) s.too_many)) [
    | inl more ↦ absurd (ground arith)
    | inr stop ↦ let same : s ≡ t = ground arith in omega (arith, ap (λ r. r.too_many) same)
  ]
  gallop_nearer (suc k) s t step e = elim (Bool-cases (ltb (s.fits + step) s.too_many)) [
    | inr stop ↦ let same : s ≡ t = ground arith in omega (arith, ap (λ r. r.too_many) same)
    | inl more ↦ elim (Result-cases (build (s.fits + step))) [
      | inl (x, failed) ↦ absurd (ground arith)
      | inr (body, made) ↦ elim (Bool-cases (ltb limit (length body))) [
        | inl big ↦
            let same : record s { too_many = s.fits + step } ≡ t = ground arith in
            ground (arith, ap (λ r. r.too_many) same)
        | inr fit ↦
            gallop_nearer k (record { fits = s.fits + step; best = body; too_many = s.too_many }) t
              (step * 2) (ground arith)
      ]
    ]
  ]

  bisect_ends :
      (k : ℕ) (s : Search)
      → s.too_many ≤ s.fits + k + 1
      → bisect build limit k s ≢ raise out_of_rounds
  unfolding bisect
  bisect_ends zero s near e = elim (Bool-cases (ltb 1 (s.too_many - s.fits))) [
    | inl more ↦ absurd (ground arith)
    | inr stop ↦ absurd (ground arith)
  ]
  bisect_ends (suc k) s near e = elim (Bool-cases (ltb 1 (s.too_many - s.fits))) [
    | inr stop ↦ absurd (ground arith)
    | inl more ↦
        let probe = (s.fits + s.too_many) / 2 in
        elim (Result-cases (build probe)) [
          | inl (x, failed) ↦
              let same : x ≡ out_of_rounds = ground arith in builds probe (failed ∙ ap raise same)
          | inr (body, made) ↦ elim (Bool-cases (leb (length body) limit)) [
            | inl fit ↦
                bisect_ends k (record { fits = probe; best = body; too_many = s.too_many })
                  (ground arith) (ground arith)
            | inr big ↦ bisect_ends k (record s { too_many = probe }) (ground arith) (ground arith)
          ]
        ]
  ]

  search_from_ends :
      (required too_many : ℕ) → search_from build limit required too_many ≢ raise out_of_rounds
  unfolding search_from
  search_from_ends required too_many e = elim (Result-cases (build required)) [
    | inl (x, failed) ↦
        let same : x ≡ out_of_rounds = ground arith in builds required (failed ∙ ap raise same)
    | inr (best, made) ↦ elim (Bool-cases (ltb limit (length best))) [
      | inl big ↦ absurd (ground arith)
      | inr fit ↦
          let start : Search = record { fits = required; best = best; too_many = too_many } in
          elim (Result-cases (gallop build limit too_many start 1)) [
            | inl (x, failed) ↦
                let same : x ≡ out_of_rounds = ground arith in
                gallop_ends too_many start 1 (omega arith) (omega arith) (failed ∙ ap raise same)
            | inr (near, galloped) ↦ elim (Result-cases (bisect build limit too_many near)) [
              | inl (x, failed) ↦
                  let same : x ≡ out_of_rounds = ground arith in
                  bisect_ends too_many near
                    (omega (arith, gallop_nearer too_many start near 1 galloped))
                    (failed ∙ ap raise same)
              | inr (found, bisected) ↦ absurd (ground arith)
            ]
          ]
    ]
  ]

  -- The fuel of the loops of `fill` is enough for any builder, size limit and queue: if the builder
  -- never runs out of rounds, neither does `fill`. So it ends with a message or with an error of
  -- the code.
  pub fill_ends : (count required : ℕ) → fill build count limit required ≢ raise out_of_rounds
  unfolding fill
  fill_ends count required e = elim (Bool-cases (ltb required count)) [
    | inr all ↦ search_from_ends required (count + 1) (ground arith)
    | inl more ↦ elim (Result-cases (build count)) [
      | inl (x, failed) ↦
          let same : x ≡ out_of_rounds = ground arith in builds count (failed ∙ ap raise same)
      | inr (whole, made) ↦ elim (Bool-cases (leb (length whole) limit)) [
        | inl fit ↦ absurd (ground arith)
        | inr big ↦ search_from_ends required count (ground arith)
      ]
    ]
  ]
