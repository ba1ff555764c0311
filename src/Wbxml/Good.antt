-- ===== src/Wbxml/Good.antt =====
-- src/acs/protocol/omadm/wbxml.py: a result, or one of the errors of the code, and what is left of the
-- payload after the parts that read it.
use auto_configuration_serve.Prelude.{
  ℕ, zero, suc, ◌+◌, ◌*◌, ◌%◌, ◌≤◌, ◌≡◌, refl, Bool, true, false, Option, none, some, List, [], ◌∷◌,
  length, length-drop, take, drop, ltb, leb, arith, Result, ok, raise, if◌then◌else◌, Option-cases,
  inl, inr, ◌>>=◌,
}
use auto_configuration_serve.Wbxml.{
  WbxmlError, out_of_tokens, truncated_input, integer_exceeds_uint32, integer_exceeds_five_bytes,
  table_out_of_range, output_exceeds_limit, invalid_utf8, invalid_character, unterminated_inline,
  unterminated_entry, max_uint32, integer_loop, integer,
}
use auto_configuration_serve.Wbxml.Decode.{
  Unicode, Piece, Output, utf8, all_valid, until_nul, table_string, take_bytes, byte, inline,
  write_piece, public_offset, identified,
}

abbrev pub is_fuel : WbxmlError → Bool
is_fuel out_of_tokens = true
is_fuel exc = false

-- A result that has the property, or an exception of Python's.
pub data Good {A : Type 0} (P : A → Type 0) : Result WbxmlError A → Type 0 where
  raised : (exc : WbxmlError) → is_fuel exc ≡ false → Good P (raise exc)
  returned : (value : A) → P value → Good P (ok value)

pub if-Good :
    {A : Type 0} {P : A → Type 0} (test : Bool) (a b : Result WbxmlError A)
    → Good P a
    → Good P b
    → Good P (if test then a else b)
if-Good true a b ga gb = ga
if-Good false a b ga gb = gb

pub weaker-Good :
    {A : Type 0} (P Q : A → Type 0) (r : Result WbxmlError A)
    → ((value : A) → P value → Q value)
    → Good P r
    → Good Q r
weaker-Good P Q r weaker (raised exc e) = raised exc e
weaker-Good P Q r weaker (returned value good) = returned value (weaker value good)

pub >>=-Good :
    {A B : Type 0} {P : A → Type 0} {Q : B → Type 0} (first : Result WbxmlError A)
    (next : A → Result WbxmlError B)
    → Good P first
    → ((value : A) → P value → Good Q (next value))
    → Good Q (first >>= next)
>>=-Good first next (raised exc e) then_good = raised exc e
>>=-Good first next (returned value good) then_good = then_good value good

abbrev pub Any : {A : Type 0} → A → Type 0
Any value = true ≡ true

-- What is left of the bytes is no longer than they are.
abbrev pub Left : {A : Type 0} → ℕ → A × List ℕ → Type 0
Left n x = length x.1 ≤ n

pub le_self : (n : ℕ) → n ≤ n
le_self n = omega arith

pub byte-Good : (bytes : List ℕ) → Good (Left (length bytes)) (byte bytes)
unfolding byte
byte-Good [] = raised truncated_input refl
byte-Good (b ∷ bytes) = returned (b, bytes) (omega arith)

pub integer_loop-Good :
    (k value : ℕ) (bytes : List ℕ) → Good (Left (length bytes)) (integer_loop k value bytes)
unfolding integer_loop
integer_loop-Good zero value bytes = raised integer_exceeds_five_bytes refl
integer_loop-Good (suc k) value [] = raised truncated_input refl
integer_loop-Good (suc k) value (b ∷ bytes) =
    let next = value * 128 + b % 128 in
    let more =
      weaker-Good (Left (length bytes)) (Left (suc (length bytes))) (integer_loop k next bytes)
        (λ x shorter. omega (arith, shorter)) (integer_loop-Good k next bytes) in
    if-Good (ltb max_uint32 next) _ _ (raised integer_exceeds_uint32 refl)
      (if-Good (leb 128 b) _ _ more (returned (next, bytes) (omega arith)))

pub integer-Good : (bytes : List ℕ) → Good (Left (length bytes)) (integer bytes)
unfolding integer
integer-Good bytes = integer_loop-Good 5 0 bytes

pub take_bytes-Good : (n : ℕ) (bytes : List ℕ) → Good (Left (length bytes)) (take_bytes n bytes)
unfolding take_bytes
take_bytes-Good n bytes =
    if-Good (ltb (length bytes) n) _ _ (raised truncated_input refl)
      (returned (take n bytes, drop n bytes) (omega (arith, length-drop n bytes)))

until_nul-length :
    (bytes raw rest : List ℕ) → until_nul bytes ≡ some (raw, rest) → length rest ≤ length bytes
unfolding until_nul
until_nul-length [] raw rest e = absurd (ground arith)
until_nul-length (zero ∷ bytes) raw rest e = ground arith
until_nul-length (suc n ∷ bytes) raw rest e = elim (Option-cases (until_nul bytes)) [
  | inl absent ↦ absurd (ground arith)
  | inr ((raw', rest'), found) ↦
      let shorter = until_nul-length bytes raw' rest' found in ground arith
]

pub inline-Good : (bytes : List ℕ) → Good (Left (length bytes)) (inline bytes)
unfolding inline
inline-Good bytes = go (until_nul bytes) (λ raw rest e. until_nul-length bytes raw rest e)
  where
    go :
        (found : Option (List ℕ × List ℕ))
        → ((raw rest : List ℕ) → found ≡ some (raw, rest) → length rest ≤ length bytes)
        → Good (Left (length bytes)) (elim found as (λ _. Result WbxmlError (List ℕ × List ℕ)) [
          | none ↦ raise unterminated_inline
          | some x ↦ ok x
        ])
    go none shorter = raised unterminated_inline refl
    go (some (raw, rest)) shorter = returned (raw, rest) (shorter raw rest refl)

pub table_string-Good : (table : List ℕ) (n : ℕ) → Good Any (table_string table n)
unfolding table_string
table_string-Good table n =
    if-Good (leb (length table) n) _ _ (raised table_out_of_range refl)
      (go (until_nul (drop n table)))
  where
    go :
        (found : Option (List ℕ × List ℕ))
        → Good Any (elim found as (λ _. Result WbxmlError (List ℕ)) [
          | none ↦ raise unterminated_entry
          | some (raw, rest) ↦ ok raw
        ])
    go none = raised unterminated_entry refl
    go (some (raw, rest)) = returned raw refl

module _ (unicode : Unicode) where
  pub utf8-Good : (raw : List ℕ) → Good Any (utf8 unicode raw)
  unfolding utf8
  utf8-Good raw = go (unicode.decode_utf8 raw)
    where
      go :
          (decoded : Option (List ℕ))
          → Good Any (elim decoded as (λ _. Result WbxmlError (List ℕ)) [
            | none ↦ raise invalid_utf8
            | some text ↦ if all_valid text then ok text else raise invalid_character
          ])
      go none = raised invalid_utf8 refl
      go (some text) =
          if-Good (all_valid text) _ _ (returned text refl) (raised invalid_character refl)

  pub write_piece-Good : (o : Output) (p : Piece) → Good Any (write_piece unicode o p)
  unfolding write_piece
  write_piece-Good o p = if-Good _ _ _ (raised output_exceeds_limit refl) (returned _ refl)

  pub identified-Good :
      (code : ℕ) (offset : Option ℕ) (table : List ℕ)
      → Good Any (identified unicode code offset table)
  unfolding identified
  identified-Good code none table = returned code refl
  identified-Good code (some offset) table =
      >>=-Good (table_string table offset) _ (table_string-Good table offset) (λ raw good.
        >>=-Good (utf8 unicode raw) _ (utf8-Good raw) (λ identifier good'. returned _ refl))

  pub public_offset-Good : (code : ℕ) (bytes : List ℕ) → Good Any (public_offset unicode code bytes)
  unfolding public_offset
  public_offset-Good zero bytes =
      >>=-Good (integer bytes) _ (integer-Good bytes) (λ x shorter. returned _ refl)
  public_offset-Good (suc n) bytes = returned (none, bytes) refl
