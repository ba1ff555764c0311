-- ===== src/Prelude/Outcome.antt =====
-- Code that may raise returns a `Result`: a value, or the exception.
use mathlib.Core.Path.{◌≡◌, refl}
use mathlib.Core.Logic.{◌⊎◌, inl, inr}

pub data Result {ℓ} (E A : Type ℓ) : Type ℓ where
  raise : E → Result E A
  ok : A → Result E A

module _ {ℓ} {E A B : Type ℓ} where
  infixl 5 ◌>>=◌ ◌>>◌
  abbrev pub ◌>>=◌ : Result E A → (next : A → Result E B) → Result E B
  raise exc >>= next = raise exc
  ok value >>= next = next value

  abbrev pub ◌>>◌ : Result E A → (next : Result E B) → Result E B
  raise exc >> next = raise exc
  ok value >> next = next

  -- Inversion of a chain that did not raise.
  pub >>=-eq-ok :
      (first : Result E A) (next : A → Result E B) {result : B}
      → (first >>= next) ≡ ok result
      → (value : A) × (first ≡ ok value) × (next value ≡ ok result)
  >>=-eq-ok (raise exc) next e = cc
  >>=-eq-ok (ok value) next e = (value, refl, e)

pub Result-cases {ℓ} :
    {E A : Type ℓ} (r : Result E A) → ((exc : E) × (r ≡ raise exc)) ⊎ ((value : A) × (r ≡ ok value))
Result-cases (raise exc) = inl (exc, refl)
Result-cases (ok value) = inr (value, refl)
