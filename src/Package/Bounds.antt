-- ===== src/Package/Bounds.antt =====
-- src/acs/protocol/omadm/package.py, `fill`: what a returned message holds, for any builder, and the
-- lengths that stored entries keep.
use auto_configuration_serve.Prelude.{
  ℕ, zero, suc, ◌+◌, ◌≤◌, ◌<◌, ◌≡◌, length, ok, arith, ltb, leb, Bool-cases, Result-cases, inl, inr,
  ◌*◌, ◌-◌, ◌/◌,
}
use mathlib.Core.Path.{subst}
use auto_configuration_serve.Package.{Bytes, Build, Search, gallop, bisect, search_from, fill}

module _ (build : Build) (limit required top : ℕ) where
  -- The best message so far is the one of its count, and fits; the counts stay in their bounds.
  record IsFound (s : Search) : Type 0 where
    built : build s.fits ≡ ok s.best
    enough : required ≤ s.fits
    small : length s.best ≤ limit
    order : s.fits < s.too_many
    below : s.too_many ≤ top

  gallop-IsFound :
      (k : ℕ) (s : Search) (step : ℕ) {t : Search}
      → 0 < step
      → IsFound s
      → gallop build limit k s step ≡ ok t
      → IsFound t
  unfolding gallop
  gallop-IsFound zero s step p v e = elim (Bool-cases (ltb (s.fits + step) s.too_many)) [
    | inl more ↦ cc
    | inr stop ↦ subst IsFound (ground arith) v
  ]
  gallop-IsFound (suc k) s step {t} p v e = elim (Bool-cases (ltb (s.fits + step) s.too_many)) [
    | inr stop ↦ subst IsFound (ground arith) v
    | inl more ↦ elim (Result-cases (build (s.fits + step))) [
      | inl (x, failed) ↦ absurd (ground arith)
      | inr (body, made) ↦ elim (Bool-cases (ltb limit (length body))) [
        | inl big ↦
            let near : IsFound (record s { too_many = s.fits + step }) = record {
              built = v.built;
              enough = v.enough;
              small = v.small;
              order = omega arith;
              below = ground (arith, v);
            } in
            subst IsFound (ground arith) near
        | inr fit ↦
            gallop-IsFound k (record { fits = s.fits + step; best = body; too_many = s.too_many })
              (step * 2) (omega arith)
              (record {
                built = made;
                enough = omega (arith, v.enough);
                small = ground arith;
                order = ground arith;
                below = v.below;
              })
              (ground arith)
      ]
    ]
  ]

  bisect-IsFound :
      (k : ℕ) (s : Search) {t : Search} → IsFound s → bisect build limit k s ≡ ok t → IsFound t
  unfolding bisect
  bisect-IsFound zero s v e = elim (Bool-cases (ltb 1 (s.too_many - s.fits))) [
    | inl more ↦ cc
    | inr stop ↦ subst IsFound (ground arith) v
  ]
  bisect-IsFound (suc k) s v e = elim (Bool-cases (ltb 1 (s.too_many - s.fits))) [
    | inr stop ↦ subst IsFound (ground arith) v
    | inl more ↦
        let probe = (s.fits + s.too_many) / 2 in
        elim (Result-cases (build probe)) [
          | inl (x, failed) ↦ absurd (ground arith)
          | inr (body, made) ↦ elim (Bool-cases (leb (length body) limit)) [
            | inl fit ↦
                bisect-IsFound k (record { fits = probe; best = body; too_many = s.too_many })
                  (record {
                    built = made;
                    enough = ground (arith, v);
                    small = ground arith;
                    order = ground arith;
                    below = v.below;
                  })
                  (ground arith)
            | inr big ↦
                bisect-IsFound k (record s { too_many = probe })
                  (record {
                    built = v.built;
                    enough = v.enough;
                    small = v.small;
                    order = ground arith;
                    below = ground (arith, v);
                  })
                  (ground arith)
          ]
        ]
  ]

module _ (build : Build) (limit required : ℕ) where
  abbrev Fits : ℕ → Bytes → ℕ → Type 0
  Fits top body n = (required ≤ n) × (n < top) × (length body ≤ limit) × (build n ≡ ok body)

  search_from-Fits :
      (too_many : ℕ) (body : Bytes) (n : ℕ)
      → required < too_many
      → search_from build limit required too_many ≡ ok (body, n)
      → Fits too_many body n
  unfolding search_from
  search_from-Fits too_many body n lt e = elim (Result-cases (build required)) [
    | inl (x, failed) ↦ absurd (ground arith)
    | inr (first, made) ↦ elim (Bool-cases (ltb limit (length first))) [
      | inl big ↦ absurd (ground arith)
      | inr fit ↦
          let start : Search = record { fits = required; best = first; too_many = too_many } in
          elim (Result-cases (gallop build limit too_many start 1)) [
            | inl (x, failed) ↦ absurd (ground arith)
            | inr (near, galloped) ↦ elim (Result-cases (bisect build limit too_many near)) [
              | inl (x, failed) ↦ absurd (ground arith)
              | inr (found, bisected) ↦
                  let v =
                    bisect-IsFound build limit required too_many too_many near
                      (gallop-IsFound build limit required too_many too_many start 1 (omega arith)
                        (record {
                          built = made;
                          enough = omega arith;
                          small = ground arith;
                          order = lt;
                          below = omega arith;
                        })
                        galloped)
                      bisected in
                  (ground (arith, v), ground (arith, v), ground (arith, v), ground (arith, v))
            ]
          ]
    ]
  ]

  -- Whatever the builder does, a message that `fill` returns with its count of entries holds those
  -- it must, at most the whole queue, is the builder's message of that count, and is not longer
  -- than the limit, if the entries it must hold are queued.
  pub fill_returned :
      (count : ℕ) (body : Bytes) (n : ℕ)
      → required ≤ count
      → fill build count limit required ≡ ok (body, n)
      → (required ≤ n) × (n ≤ count) × (length body ≤ limit) × (build n ≡ ok body)
  unfolding fill
  fill_returned count body n le e = elim (Bool-cases (ltb required count)) [
    | inr all ↦
        let f = search_from-Fits (count + 1) body n (omega (arith, le)) (ground arith) in
        (f.0, omega (arith, f.1), f.2, f.3)
    | inl more ↦ elim (Result-cases (build count)) [
      | inl (x, failed) ↦ absurd (ground arith)
      | inr (whole, made) ↦ elim (Bool-cases (leb (length whole) limit)) [
        | inl fit ↦ (ground arith, ground arith, ground arith, ground arith)
        | inr big ↦
            let f = search_from-Fits count body n (ground arith) (ground arith) in
            (f.0, omega (arith, f.1), f.2, f.3)
      ]
    ]
  ]
