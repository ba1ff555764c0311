-- ===== src/Package/Fill.antt =====
-- src/acs/protocol/omadm/package.py, `fill`: the galloping and bisecting search, beside a scan of
-- all counts.
use auto_configuration_serve.Prelude.{
  ℕ, zero, suc, ◌+◌, ◌-◌, ◌*◌, ◌/◌, ◌≤◌, ◌<◌, ◌⊎◌, inl, inr, ◌≡◌, refl, false, ltb, leb, length,
  Result, ok, raise, arith, Bool-cases, lt→ltb, if◌then◌else◌,
}
use auto_configuration_serve.Package.{
  Bytes, PackageError, message_too_large, Search, gallop, bisect, search_from, fill,
}

module _ (b : ℕ → Bytes) (count limit required : ℕ) where
  -- What both loops keep.
  record IsBracket (s : Search) : Type 0 where
    above : required ≤ s.fits
    order : s.fits < s.too_many
    below : s.too_many ≤ count + 1
    best : s.best ≡ b s.fits
    fitting : length (b s.fits) ≤ limit
    over : (s.too_many ≡ count + 1) ⊎ (limit < length (b s.too_many))

  abbrev Finds : Result PackageError Search → (Search → Type 0) → Type 0
  Finds r P = (t : Search) × (r ≡ ok t) × IsBracket t × P t

  gallop-Finds :
      (k : ℕ) (s : Search) (step : ℕ)
      → IsBracket s
      → 0 < step
      → s.too_many ≤ s.fits + k
      → Finds
          (gallop (λ n. ok (b n)) limit k s step)
          (λ t. (t.too_many ≤ s.too_many) × (s.fits ≤ t.fits))
  unfolding gallop
  gallop-Finds zero s step v p e = (s, ground arith, v, (omega arith, omega arith))
  gallop-Finds (suc k) s step v p e = elim (Bool-cases (ltb (s.fits + step) s.too_many)) [
    | inr stop ↦ (s, rw stop, v, (omega arith, omega arith))
    | inl go ↦ elim (Bool-cases (ltb limit (length (b (s.fits + step))))) [
      | inl big ↦ (record s { too_many = s.fits + step }, rw (go, big), ground arith, ground arith)
      | inr small ↦
          let (t, r, u, w) =
            gallop-Finds k
              (record { fits = s.fits + step; best = b (s.fits + step); too_many = s.too_many })
              (step * 2) (ground arith) (omega arith) (omega arith) in
          (t, rw (go, small) r, u, ground arith)
    ]
  ]

  bisect-Finds :
      (k : ℕ) (s : Search)
      → IsBracket s
      → s.too_many ≤ s.fits + k
      → Finds (bisect (λ n. ok (b n)) limit k s) (λ t. t.too_many ≤ t.fits + 1)
  unfolding bisect
  bisect-Finds zero s v e = (s, ground arith, v, omega arith)
  bisect-Finds (suc k) s v e = elim (Bool-cases (ltb 1 (s.too_many - s.fits))) [
    | inr stop ↦ (s, rw stop, v, ground arith)
    | inl go ↦ elim (Bool-cases (leb (length (b ((s.fits + s.too_many) / 2))) limit)) [
      | inl small ↦
          let (t, r, u, w) =
            bisect-Finds k
              (record {
                fits = (s.fits + s.too_many) / 2;
                best = b ((s.fits + s.too_many) / 2);
                too_many = s.too_many;
              })
              (ground arith) (ground arith) in
          (t, rw (go, small) r, u, w)
      | inr big ↦
          let (t, r, u, w) =
            bisect-Finds k (record s { too_many = (s.fits + s.too_many) / 2 }) (ground arith)
              (ground arith) in
          (t, rw (go, big) r, u, w)
    ]
  ]

  -- A message at the boundary: it fits, and there is none longer or the next longer one does not fit.
  pub record IsBoundary (n : ℕ) : Type 0 where
    pub at_least : required ≤ n
    pub at_most : n ≤ count
    pub fits : length (b n) ≤ limit
    pub next : (n ≡ count) ⊎ (limit < length (b (n + 1)))

  search_from-IsBoundary :
      (too_many : ℕ)
      → length (b required) ≤ limit
      → required < too_many
      → too_many ≤ count + 1
      → (too_many ≡ count + 1) ⊎ (limit < length (b too_many))
      → (n : ℕ) × (search_from (λ n. ok (b n)) limit required too_many ≡ ok (b n, n)) × IsBoundary n
  unfolding search_from
  search_from-IsBoundary too_many fit order below over =
      let start : Search = record { fits = required; best = b required; too_many = too_many } in
      let v : IsBracket start = record {
        above = omega arith;
        order = order;
        below = below;
        best = refl;
        fitting = fit;
        over = over;
      } in
      let (near, r, u, w) = gallop-Finds too_many start 1 v (omega arith) (omega arith) in
      let (found, r', u', w') = bisect-Finds too_many near u (omega arith) in
      (
        found.fits,
        ground (arith, r, r', u'.best),
        record {
          at_least = u'.above;
          at_most = omega arith;
          fits = u'.fitting;
          next = last found u' w';
        },
      )
    where
      last :
          (t : Search)
          → IsBracket t
          → t.too_many ≤ t.fits + 1
          → (t.fits ≡ count) ⊎ (limit < length (b (t.fits + 1)))
      last t u w = let e : t.too_many ≡ t.fits + 1 = omega arith in ground (arith, e, u.over)

  pub fill-IsBoundary :
      required ≤ count
      → length (b required) ≤ limit
      → (n : ℕ) × (fill (λ n. ok (b n)) count limit required ≡ ok (b n, n)) × IsBoundary n
  unfolding fill
  fill-IsBoundary le fit = elim (Bool-cases (ltb required count)) [
    | inr all ↦
        rw all (search_from-IsBoundary (count + 1) fit (omega arith) (omega arith) (inl refl))
    | inl some_left ↦ elim (Bool-cases (leb (length (b count)) limit)) [
      | inl whole ↦ (count, rw (some_left, whole), ground arith)
      | inr big ↦
          rw (some_left, big)
            (search_from-IsBoundary count fit (ground arith) (omega arith) (inr (ground arith)))
    ]
  ]

  -- The reference: try the counts from `lo + k` down to `lo`, and take the first that fits.
  pub largest_fit : ℕ → ℕ → ℕ
  largest_fit lo zero = lo
  largest_fit lo (suc k) =
      if leb (length (b (lo + suc k))) limit then lo + suc k else largest_fit lo k

search_from_big :
    (b : ℕ → Bytes) (limit required too_many : ℕ)
    → limit < length (b required)
    → search_from (λ i. ok (b i)) limit required too_many
      ≡ raise (message_too_large (length (b required)) limit)
unfolding search_from
search_from_big b limit required too_many big = rw (lt→ltb _ _ big) refl

-- Messages only grow, up to the whole queue.
abbrev pub IsGrowing : (ℕ → Bytes) → ℕ → Type 0
IsGrowing b count = (i j : ℕ) → i ≤ j → j ≤ count → length (b i) ≤ length (b j)

module _ (b : ℕ → Bytes) (count limit required : ℕ) where
  largest_fit-IsBoundary :
      (n k : ℕ)
      → IsGrowing b count
      → IsBoundary b count limit required n
      → n ≤ required + k
      → required + k ≤ count
      → largest_fit b count limit required required k ≡ n
  unfolding largest_fit
  largest_fit-IsBoundary n zero grow v le top = omega (arith, v.at_least)
  largest_fit-IsBoundary n (suc k) grow v le top = ground (
    arith,
    v.at_least,
    v.fits,
    v.next,
    grow (n + 1) (required + suc k),
    largest_fit-IsBoundary n k grow v,
  )

  -- If messages never shrink as the count grows, and the required entries are queued and fit, then
  -- `fill` returns the message that a scan of all counts from the whole queue down finds: the one
  -- with the most entries that fits. None of its loops runs out of rounds.
  pub fill_largest :
      IsGrowing b count
      → required ≤ count
      → length (b required) ≤ limit
      → let n = largest_fit b count limit required required (count - required) in
        fill (λ i. ok (b i)) count limit required ≡ ok (b n, n)
  fill_largest grow le fit =
      let (n, r, v) = fill-IsBoundary b count limit required le fit in
      rw
        (largest_fit-IsBoundary n (count - required) grow v (omega (arith, v.at_most))
          (omega arith))
        r

  -- If messages never shrink and even the required entries do not fit, `fill` raises
  -- `MessageTooLarge` with the size of the message that holds just those, and the limit.
  pub fill_too_large :
      IsGrowing b count
      → required ≤ count
      → limit < length (b required)
      → fill (λ i. ok (b i)) count limit required
        ≡ raise (message_too_large (length (b required)) limit)
  unfolding fill
  fill_too_large grow le big = elim (Bool-cases (ltb required count)) [
    | inr all ↦ rw all (search_from_big b limit required (count + 1) big)
    | inl more ↦
        let over : leb (length (b count)) limit ≡ false =
          ground (arith, grow required count le (omega arith)) in
        rw (more, over) (search_from_big b limit required count big)
  ]
