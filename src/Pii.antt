-- ===== src/Pii.antt =====
-- src/acs/security/pii.py: the mask of a sensitive value, and the E.164 form of a number. A text is the
-- list of its code points; which of them are white space, `isdigit` and `\d` is a parameter.
pub mod Normal
pub mod Runs
use auto_configuration_serve.Prelude.{
  ℕ, zero, suc, ◌+◌, ◌-◌, Bool, true, false, Option, none, some, List, [], ◌∷◌, ◌++◌, ltb, leb,
  ◌==◌, length, take, drop, ◌&&◌, ◌||◌, not, if◌then◌else◌,
}

-- `str.isspace`, `str.isdigit` and the class `\d` of `re`, for one character.
pub record Classes : Type 0 where
  pub is_space : ℕ → Bool
  pub is_digit : ℕ → Bool
  pub is_decimal : ℕ → Bool

unfoldable pub stars : ℕ → List ℕ
stars zero = []
stars (suc n) = 0x2a ∷ stars n

-- `value[-keep:]` is the whole value when `keep` is 0.
unfoldable pub mask_tail : Option (List ℕ) → ℕ → List ℕ
unfolding stars
mask_tail none keep = []
mask_tail (some value) keep =
    if leb (length value) keep
    then stars (length value)
    else stars (length value - keep)
      ++ (if keep == 0 then value else drop (length value - keep) value)

-- `hash_id`: the digest in hexadecimal of a secret and a value; none stands for the ValueError.
unfoldable pub hash_id :
    (List ℕ → List ℕ → List ℕ) → Option (List ℕ) → (secret : List ℕ) → Option (List ℕ)
hash_id hexdigest none secret = some []
hash_id hexdigest (some []) secret = some []
hash_id hexdigest (some (c ∷ cs)) [] = none
hash_id hexdigest (some (c ∷ cs)) (s ∷ secret) = some (take 16 (hexdigest (s ∷ secret) (c ∷ cs)))

-- The argument `mode` of `redact`.
pub data RedactMode : Type 0 where
  clear hashed masked : RedactMode

unfoldable pub redact :
    (List ℕ → List ℕ → List ℕ) → Option (List ℕ) → RedactMode → (secret : List ℕ) → Option (List ℕ)
unfolding hash_id mask_tail
redact hexdigest none mode secret = some []
redact hexdigest (some value) clear secret = some value
redact hexdigest (some value) hashed secret = hash_id hexdigest (some value) secret
redact hexdigest (some value) masked secret = some (mask_tail (some value) 4)

unfoldable pub starts_with : List ℕ → List ℕ → Bool
starts_with [] text = true
starts_with (p ∷ ps) [] = false
starts_with (p ∷ ps) (c ∷ cs) = p == c && starts_with ps cs

unfoldable pub spaces_to_plus : List ℕ → List ℕ
spaces_to_plus [] = []
spaces_to_plus (c ∷ cs) = (if c == 0x20 then 0x2b else c) ∷ spaces_to_plus cs

unfoldable pub without_dashes : List ℕ → List ℕ
without_dashes [] = []
without_dashes (c ∷ cs) = let rest = without_dashes cs in if c == 0x2d then rest else c ∷ rest

module _ (classes : Classes) where
  unfoldable pub lstrip : List ℕ → List ℕ
  lstrip [] = []
  lstrip (c ∷ cs) = let rest = lstrip cs in if classes.is_space c then rest else c ∷ cs

  unfoldable pub rstrip : List ℕ → List ℕ
  rstrip [] = []
  rstrip (c ∷ cs) =
      let rest = rstrip cs in if classes.is_space c && leb (length rest) 0 then [] else c ∷ rest

  unfoldable pub digits_of : List ℕ → List ℕ
  digits_of [] = []
  digits_of (c ∷ cs) = let rest = digits_of cs in if classes.is_digit c then c ∷ rest else rest

  unfoldable pub all_decimal : List ℕ → Bool
  all_decimal [] = true
  all_decimal (c ∷ cs) = classes.is_decimal c && all_decimal cs

  -- From `candidate` on: `_MSISDN_RE`, whose `+` is there, and the first digit.
  unfoldable pub checked : List ℕ → Option (List ℕ)
  unfolding all_decimal starts_with
  checked digits =
      if not (all_decimal digits && (leb 6 (length digits) && leb (length digits) 15))
      then none
      else if starts_with (0x30 ∷ []) digits
      then none
      else some (0x2b ∷ digits)

  unfoldable pub international : Bool → List ℕ → List ℕ → List ℕ → List ℕ
  unfolding starts_with
  international had_plus country trunk digits =
      if (not had_plus && (ltb 0 (length country) && ltb 0 (length trunk)))
        && (starts_with trunk digits && not (starts_with country digits))
      then country ++ drop (length trunk) digits
      else digits

  -- `cleaned`.
  unfoldable pub cleaned : List ℕ → List ℕ
  unfolding lstrip rstrip spaces_to_plus without_dashes
  cleaned raw = without_dashes (spaces_to_plus (lstrip (rstrip raw)))

  unfoldable pub normalise_msisdn : Option (List ℕ) → (country trunk : List ℕ) → Option (List ℕ)
  unfolding cleaned digits_of international checked
  normalise_msisdn none country trunk = none
  normalise_msisdn (some raw) country trunk =
      let text = cleaned raw in
      let digits = digits_of text in
      if length digits == 0
      then none
      else checked (international (starts_with (0x2b ∷ []) text) country trunk digits)
