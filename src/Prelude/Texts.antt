-- ===== src/Prelude/Texts.antt =====
-- Python's methods on `str`, as far as the code uses them.
use Prim.Native.Nat.{ℕ, ◌+◌, ◌-◌}
use Prim.Native.Char.{Char, code}
use Prim.Native.String.{String, len, find, char_at}
use mathlib.Core.Path.{◌≡◌}
use mathlib.Core.Bool.{Bool, true, ◌&&◌, ◌||◌}
use mathlib.Core.Option.{Option, none, some}
use mathlib.Core.List.{List, [], ◌∷◌}
use text.Mathlib.Text.{◌==◌ as str_eq}
use text.Mathlib.TextEquality.{eq_iff}
use native.Mathlib.Omega.{arith}
use auto_configuration_serve.Prelude.Outcome.{Result, ok, raise}
use auto_configuration_serve.Prelude.Tests.{leb, ltb, ◌==◌, if◌then◌else◌}

-- `str.isspace` of one character.
unfoldable pub is_space : Char → Bool
is_space c =
    let n = code c in
    (leb 9 n && leb n 13)
    || ((leb 28 n && leb n 32)
        || (n == 133
            || (n == 160
                || (n == 5760
                    || ((leb 8192 n && leb n 8202)
                        || (n == 8232
                            || (n == 8233 || (n == 8239 || (n == 8287 || n == 12288)))))))))

unfoldable pub lstrip : String → String
unfolding is_space
lstrip String.[] = String.[]
lstrip (String.◌∷◌ c s) = let rest = lstrip s in if is_space c then rest else String.◌∷◌ c s

unfoldable pub rstrip : String → String
unfolding is_space
rstrip String.[] = String.[]
rstrip (String.◌∷◌ c s) =
    let rest = rstrip s in if is_space c && str_eq rest "" then "" else String.◌∷◌ c rest

unfoldable pub strip : String → String
unfolding lstrip rstrip
strip s = lstrip (rstrip s)

-- `s.rstrip(x)` for the character with this code.
unfoldable pub rstrip_code : ℕ → String → String
rstrip_code x String.[] = String.[]
rstrip_code x (String.◌∷◌ c s) =
    let rest = rstrip_code x s in if code c == x && str_eq rest "" then "" else String.◌∷◌ c rest

-- What stands before the first character with this code, `s.partition(x)[0]`.
unfoldable pub before_code : ℕ → String → String
before_code x String.[] = String.[]
before_code x (String.◌∷◌ c s) =
    let rest = before_code x s in if code c == x then "" else String.◌∷◌ c rest

-- What stands after it: none where there is no such character.
unfoldable pub after_code : ℕ → String → Option String
after_code x String.[] = none
after_code x (String.◌∷◌ c s) = let rest = after_code x s in if code c == x then some s else rest

-- `s[len(prefix):]` where `s.startswith(prefix)`.
unfoldable pub after_prefix : String → String → Option String
after_prefix String.[] s = some s
after_prefix (String.◌∷◌ p ps) String.[] = none
after_prefix (String.◌∷◌ p ps) (String.◌∷◌ c s) =
    let rest = after_prefix ps s in if code p == code c then rest else none

-- `part in s`
unfoldable pub contains : String → String → Bool
contains s part = leb (find s part) (len s)

-- The pieces before each character with this code: `x.join(parts[:k])` for k = 1, 2, ...
unfoldable pub cuts : ℕ → String → List String
cuts x String.[] = []
cuts x (String.◌∷◌ c s) =
    let more = prefixed c (cuts x s) in if code c == x then "" ∷ more else more
  where
    prefixed : Char → List String → List String
    prefixed c [] = []
    prefixed c (p ∷ ps) = String.◌∷◌ c p ∷ prefixed c ps

-- `s.count(x)` for the character with this code.
unfoldable pub count_code : ℕ → String → ℕ
count_code x String.[] = 0
count_code x (String.◌∷◌ c s) = let rest = count_code x s in if code c == x then rest + 1 else rest

-- `s.lower()`, for the letters of ASCII.
unfoldable pub lower_char : Char → Char
lower_char c =
    if leb 65 (code c) && leb (code c) 90
    then char_at "abcdefghijklmnopqrstuvwxyz" (code c - 65)
    else c

unfoldable pub lower : String → String
unfolding lower_char
lower String.[] = String.[]
lower (String.◌∷◌ c s) = String.◌∷◌ (lower_char c) (lower s)

-- The exceptions that a test of a text may raise.
pub data PythonError : Type 0 where
  type_error value_error : PythonError

unfoldable pub is_ascii : String → Bool
is_ascii String.[] = true
is_ascii (String.◌∷◌ c s) = ltb (code c) 128 && is_ascii s

-- `hmac.compare_digest` of two texts, which refuses any that is not ASCII.
unfoldable pub compare_digest : String → String → Result PythonError Bool
unfolding is_ascii
compare_digest a b = if is_ascii a && is_ascii b then ok (str_eq a b) else raise type_error

-- Two texts that it finds equal.
pub compare_digest-ok : (a b : String) → compare_digest a b ≡ ok true → a ≡ b
unfolding compare_digest
compare_digest-ok a b e = ground (arith, eq_iff a b)
