-- ===== src/Wbxml/Integers.antt =====
-- src/acs/protocol/omadm/wbxml.py, `_mb_uint32` and `_integer`: what one writes, the other reads.
use auto_configuration_serve.Prelude.{
  ℕ, zero, suc, ◌+◌, ◌-◌, ◌^◌, ◌*◌, ◌/◌, ◌%◌, ◌≤◌, ◌<◌, ◌≡◌, refl, ap, ◌∙◌, List, [], ◌∷◌, ◌++◌,
  ltb, ◌==◌, arith, ok, Bool-cases, inl, inr,
}
use auto_configuration_serve.Wbxml.{max_uint32, high_groups, mb_uint32, integer_loop, integer}

inner_byte :
    (k value g : ℕ) (bytes : List ℕ)
    → g < 128
    → value * 128 + g ≤ max_uint32
    → integer_loop (suc k) value ((g + 128) ∷ bytes) ≡ integer_loop k (value * 128 + g) bytes
unfolding integer_loop
inner_byte k value g bytes small fits = ground arith

last_byte :
    (k value g : ℕ) (bytes : List ℕ)
    → g < 128
    → value * 128 + g ≤ max_uint32
    → integer_loop (suc k) value (g ∷ bytes) ≡ ok (value * 128 + g, bytes)
unfolding integer_loop
last_byte k value g bytes small fits = ground arith

high_groups_end : (k : ℕ) (parts : List ℕ) → high_groups k 0 parts ≡ parts
unfolding high_groups
high_groups_end zero parts = refl
high_groups_end (suc k) parts = refl

high_groups_step :
    (k value : ℕ) (parts : List ℕ)
    → 0 < value
    → high_groups (suc k) value parts ≡ high_groups k (value / 128) ((value % 128 + 128) ∷ parts)
unfolding high_groups
high_groups_step k value parts more = ground arith

-- The groups of a value are read back in as many rounds as there are, `k` at most.
integer_loop-high_groups :
    (k n f value : ℕ) (parts : List ℕ)
    → value < 128 ^ k
    → k ≤ n
    → k ≤ f
    → value ≤ max_uint32
    → (j : ℕ) × (f ≤ j + k)
      × (integer_loop f 0 (high_groups n value parts) ≡ integer_loop j value parts)
integer_loop-high_groups zero n f value parts small fuel room fits =
    let none_left : value ≡ 0 = omega arith in
    (f, omega arith, rw (none_left, high_groups_end n parts) refl)
integer_loop-high_groups (suc k) n f zero parts small fuel room fits =
    (f, omega arith, rw (high_groups_end n parts) refl)
integer_loop-high_groups (suc k) zero f (suc v) parts small fuel room fits = absurd (omega arith)
integer_loop-high_groups (suc k) (suc n) f (suc v) parts small fuel room fits =
    let value = suc v in
    let (j, left, read) =
      integer_loop-high_groups k n f (value / 128) ((value % 128 + 128) ∷ parts) (omega arith)
        (omega arith) (omega arith) (omega arith) in
    let one : j ≡ suc (j - 1) = omega (arith, left, room) in
    let whole : value / 128 * 128 + value % 128 ≡ value = omega arith in
    (
      j - 1,
      omega (arith, left, room),
      ap (λ t. integer_loop f 0 t) (high_groups_step n value parts (omega arith))
          ∙ read
          ∙ ap (λ (t : ℕ). integer_loop t (value / 128) ((value % 128 + 128) ∷ parts)) one
          ∙ inner_byte (j - 1) (value / 128) (value % 128) parts (omega arith)
              (omega (arith, whole, fits))
          ∙ ap (λ (t : ℕ). integer_loop (j - 1) t parts) whole,
    )

high_groups-append :
    (k value : ℕ) (parts rest : List ℕ)
    → high_groups k value parts ++ rest ≡ high_groups k value (parts ++ rest)
unfolding high_groups
high_groups-append zero value parts rest = refl
high_groups-append (suc k) value parts rest = elim (Bool-cases (value == 0)) [
  | inl over ↦ rw over refl
  | inr more ↦ rw more (high_groups-append k (value / 128) ((value % 128 + 128) ∷ parts) rest)
]

-- `_integer` reads back the value that `_mb_uint32` wrote, and leaves what follows it.
pub integer-mb_uint32 :
    (value : ℕ) (bytes rest : List ℕ)
    → mb_uint32 value ≡ ok bytes
    → integer (bytes ++ rest) ≡ ok (value, rest)
unfolding mb_uint32 integer
integer-mb_uint32 value bytes rest e = elim (Bool-cases (ltb max_uint32 value)) [
  | inl large ↦ absurd (ground arith)
  | inr fits ↦
      let last : List ℕ = (value % 128) ∷ [] in
      let written : high_groups 5 (value / 128) last ≡ bytes = ground arith in
      let (j, left, read) =
        integer_loop-high_groups 4 5 5 (value / 128) (last ++ rest) (ground arith) (omega arith)
          (omega arith) (ground arith) in
      let one : j ≡ suc (j - 1) = omega (arith, left) in
      let whole : value / 128 * 128 + value % 128 ≡ value = omega arith in
      rw (← written, high_groups-append 5 (value / 128) last rest)
        (read
          ∙ ap (λ (t : ℕ). integer_loop t (value / 128) (value % 128 ∷ rest)) one
          ∙ last_byte (j - 1) (value / 128) (value % 128) rest (omega arith) (ground (arith, whole))
          ∙ ap (λ (t : ℕ). ok (t, rest)) whole)
]
