-- ===== src/Pii/Normal.antt =====
-- src/acs/security/pii.py, `normalise_msisdn`: the form of its results.
use auto_configuration_serve.Prelude.{
  ℕ, ◌≤◌, ◌≡◌, refl, sym, ap, true, false, Option, none, some, List, [], ◌∷◌, leb, ◌==◌, length,
  ◌&&◌, ◌||◌, not, arith, Bool-cases, inl, inr,
}
use mathlib.Core.Path.{subst}
use auto_configuration_serve.Pii.{
  Classes, starts_with, spaces_to_plus, without_dashes, lstrip, rstrip, digits_of, all_decimal,
  checked, international, cleaned, normalise_msisdn,
}

-- A decimal digit is a digit, not white space, `+` or `-`; `+` is neither a digit nor white space.
abbrev pub AreClasses : Classes → Type 0
AreClasses classes =
    ((c : ℕ)
      → classes.is_decimal c ≡ true
      → ((classes.is_digit c && not (classes.is_space c)) && (not (c == 0x20) && not (c == 0x2d)))
        ≡ true)
    × ((classes.is_digit 0x2b || classes.is_space 0x2b) ≡ false)

module _ (classes : Classes) (are : AreClasses classes) where
  rstrip-decimal : (ds : List ℕ) → all_decimal classes ds ≡ true → rstrip classes ds ≡ ds
  unfolding rstrip all_decimal
  rstrip-decimal [] e = refl
  rstrip-decimal (c ∷ cs) e =
      let own = are.0 c (ground arith) in
      let no_space : classes.is_space c ≡ false = ground arith in
      let rest = rstrip-decimal cs (ground arith) in rw (no_space, rest) refl

  cleaned-decimal :
      (ds : List ℕ) → all_decimal classes ds ≡ true → without_dashes (spaces_to_plus ds) ≡ ds
  unfolding without_dashes spaces_to_plus all_decimal
  cleaned-decimal [] e = refl
  cleaned-decimal (c ∷ cs) e =
      let own = are.0 c (ground arith) in
      let no_space : (c == 0x20) ≡ false = ground arith in
      let no_dash : (c == 0x2d) ≡ false = ground arith in
      let rest = cleaned-decimal cs (ground arith) in rw (no_space, no_dash, rest) refl

  digits_of-decimal : (ds : List ℕ) → all_decimal classes ds ≡ true → digits_of classes ds ≡ ds
  unfolding digits_of all_decimal
  digits_of-decimal [] e = refl
  digits_of-decimal (c ∷ cs) e =
      let own = are.0 c (ground arith) in
      let digit : classes.is_digit c ≡ true = ground arith in
      let rest = digits_of-decimal cs (ground arith) in rw (digit, rest) refl

  cleaned-plus :
      (ds : List ℕ) → all_decimal classes ds ≡ true → cleaned classes (0x2b ∷ ds) ≡ 0x2b ∷ ds
  unfolding cleaned rstrip lstrip without_dashes spaces_to_plus
  cleaned-plus ds e =
      let no_space : classes.is_space 0x2b ≡ false = ground (arith, are.1) in
      rw (no_space, rstrip-decimal ds e) (rw (no_space) (ap (λ t. 0x2b ∷ t) (cleaned-decimal ds e)))

  checked-ok :
      (ds n : List ℕ)
      → checked classes ds ≡ some n
      → (n ≡ 0x2b ∷ ds)
        × (all_decimal classes ds ≡ true)
        × (6 ≤ length ds)
        × (length ds ≤ 15)
        × (starts_with (0x30 ∷ []) ds ≡ false)
  unfolding checked
  checked-ok ds n e =
      elim (Bool-cases (all_decimal classes ds && (leb 6 (length ds) && leb (length ds) 15))) [
        | inr wrong ↦ absurd (ground arith)
        | inl right ↦ elim (Bool-cases (starts_with (0x30 ∷ []) ds)) [
          | inl national ↦ absurd (ground arith)
          | inr abroad ↦ (ground arith, ground arith, ground arith, ground arith, abroad)
        ]
      ]

  -- A number in E.164: `+`, then 6 to 15 decimal digits of which the first is not 0.
  abbrev pub IsE164 : List ℕ → Type 0
  IsE164 n =
      (ds : List ℕ) × (n ≡ 0x2b ∷ ds)
      × (all_decimal classes ds ≡ true)
      × (6 ≤ length ds)
      × (length ds ≤ 15)
      × (starts_with (0x30 ∷ []) ds ≡ false)

  normalise_msisdn-IsE164 :
      (raw : Option (List ℕ)) (country trunk n : List ℕ)
      → normalise_msisdn classes raw country trunk ≡ some n
      → IsE164 n
  unfolding normalise_msisdn
  normalise_msisdn-IsE164 none country trunk n e = absurd (ground arith)
  normalise_msisdn-IsE164 (some raw) country trunk n e =
      let text = cleaned classes raw in
      let digits = digits_of classes text in
      let number = international classes (starts_with (0x2b ∷ []) text) country trunk digits in
      elim (Bool-cases (length digits == 0)) [
        | inl empty ↦ absurd (ground arith)
        | inr some_digits ↦
            let (same, decimal, long, short, abroad) = checked-ok number n (ground arith) in
            (number, same, decimal, long, short, abroad)
      ]

  checked-again :
      (ds : List ℕ)
      → all_decimal classes ds ≡ true
      → 6 ≤ length ds
      → length ds ≤ 15
      → starts_with (0x30 ∷ []) ds ≡ false
      → checked classes ds ≡ some (0x2b ∷ ds)
  unfolding checked
  checked-again ds decimal long short abroad =
      let right : (all_decimal classes ds && (leb 6 (length ds) && leb (length ds) 15)) ≡ true =
        ground arith in
      rw (right, abroad) refl

  digits_of-plus :
      (ds : List ℕ) → all_decimal classes ds ≡ true → digits_of classes (0x2b ∷ ds) ≡ ds
  unfolding digits_of
  digits_of-plus ds decimal =
      let no_digit : classes.is_digit 0x2b ≡ false = ground (arith, are.1) in
      rw (no_digit) (digits_of-decimal ds decimal)

  normalise_msisdn-plus :
      (ds country trunk : List ℕ)
      → all_decimal classes ds ≡ true
      → 6 ≤ length ds
      → length ds ≤ 15
      → starts_with (0x30 ∷ []) ds ≡ false
      → normalise_msisdn classes (some (0x2b ∷ ds)) country trunk ≡ some (0x2b ∷ ds)
  unfolding normalise_msisdn international starts_with
  normalise_msisdn-plus ds country trunk decimal long short abroad =
      let some_digits : (length ds == 0) ≡ false = ground arith in
      rw (cleaned-plus ds decimal, digits_of-plus ds decimal, some_digits)
        (checked-again ds decimal long short abroad)

  -- What `normalise_msisdn` returns is `+` with 6 to 15 decimal digits, the first not 0, and it is a
  -- fixed point: normalised again, under any country code and trunk prefix, it is the same number. The
  -- condition is on the classes of characters: a decimal digit is a digit and neither white space nor
  -- `-`, and `+` is neither a digit nor white space.
  pub normalise_msisdn_again :
      (raw : Option (List ℕ)) (country trunk country' trunk' n : List ℕ)
      → normalise_msisdn classes raw country trunk ≡ some n
      → IsE164 n × (normalise_msisdn classes (some n) country' trunk' ≡ some n)
  normalise_msisdn_again raw country trunk country' trunk' n e =
      let (ds, same, decimal, long, short, abroad) =
        normalise_msisdn-IsE164 raw country trunk n e in
      (
        (ds, same, decimal, long, short, abroad),
        subst (λ t. normalise_msisdn classes (some t) country' trunk' ≡ some t) (sym same)
            (normalise_msisdn-plus ds country' trunk' decimal long short abroad),
      )
