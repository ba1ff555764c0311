-- ===== src/Pii/Runs.antt =====
-- src/acs/security/pii.py at concrete inputs: a Korean number in its national form, over ASCII.
use auto_configuration_serve.Prelude.{
  ℕ, ◌≡◌, refl, Bool, some, List, [], ◌∷◌, ◌==◌, leb, ◌&&◌, arith,
}
use auto_configuration_serve.Pii.{Classes, normalise_msisdn, mask_tail}
use auto_configuration_serve.Pii.Normal.{AreClasses, IsE164, normalise_msisdn_again}

abbrev ascii_digit : ℕ → Bool
ascii_digit c = leb 0x30 c && leb c 0x39

abbrev ascii : Classes
ascii = record { is_space = λ c. c == 0x20; is_digit = ascii_digit; is_decimal = ascii_digit }

ascii-AreClasses : AreClasses ascii
ascii-AreClasses = ((λ c e. ground arith), refl)

-- 010-1234-5678 with the country code 82.
abbrev national : List ℕ
national = 48 ∷ 49 ∷ 48 ∷ 45 ∷ 49 ∷ 50 ∷ 51 ∷ 52 ∷ 45 ∷ 53 ∷ 54 ∷ 55 ∷ 56 ∷ []

abbrev korea : List ℕ
korea = 56 ∷ 50 ∷ []

abbrev e164 : List ℕ
e164 = 43 ∷ 56 ∷ 50 ∷ 49 ∷ 48 ∷ 49 ∷ 50 ∷ 51 ∷ 52 ∷ 53 ∷ 54 ∷ 55 ∷ 56 ∷ []

normalised : normalise_msisdn ascii (some national) korea (48 ∷ []) ≡ some e164
unfolding normalise_msisdn
normalised = refl

masked : mask_tail (some (49 ∷ 50 ∷ 51 ∷ 52 ∷ 53 ∷ 54 ∷ [])) 4 ≡ 42 ∷ 42 ∷ 51 ∷ 52 ∷ 53 ∷ 54 ∷ []
unfolding mask_tail
masked = refl

normalise_msisdn_again_example :
    IsE164 ascii ascii-AreClasses e164
    × (normalise_msisdn ascii (some e164) [] (49 ∷ []) ≡ some e164)
normalise_msisdn_again_example =
    normalise_msisdn_again ascii ascii-AreClasses (some national) korea (48 ∷ []) [] (49 ∷ []) e164
      normalised
