-- ===== src/Wbxml/Tags.antt =====
-- src/acs/protocol/omadm/wbxml.py: the two directions of the tag tables.
use auto_configuration_serve.Prelude.{
  ℕ, zero, suc, ◌≤◌, ◌<◌, ◌≡◌, refl, String, Bool, true, false, Option, none, some, List, [], ◌∷◌,
  str_eq, eq_iff, ltb, leb, arith, ◌&&◌, Bool-cases, inl, inr,
}
use auto_configuration_serve.Wbxml.{
  syncml_tags, metinf_tags, name_in, token_in, tags_of, tag_name, tag_token,
}

-- A row of a table that the table itself gives for its token, which is a tag token.
abbrev good_row : List (ℕ × String) → ℕ × String → Bool
good_row tags (t, n) =
    elim (name_in tags t) [ none ↦ false | some m ↦ str_eq m n ] && (leb 5 t && ltb t 64)

good_rows : List (ℕ × String) → List (ℕ × String) → Bool
good_rows tags [] = true
good_rows tags (r ∷ rs) = good_row tags r && good_rows tags rs

syncml_good : good_rows syncml_tags syncml_tags ≡ true
unfolding good_rows syncml_tags name_in
syncml_good = refl

metinf_good : good_rows metinf_tags metinf_tags ≡ true
unfolding good_rows metinf_tags name_in
metinf_good = refl

abbrev Names : List (ℕ × String) → ℕ → String → Type 0
Names tags token name = (name_in tags token ≡ some name) × (5 ≤ token) × (token < 64)

good_row-Names :
    (tags : List (ℕ × String)) (t : ℕ) (n : String) → good_row tags (t, n) ≡ true → Names tags t n
good_row-Names tags t n e = go (name_in tags t) refl
  where
    go : (o : Option String) → name_in tags t ≡ o → Names tags t n
    go none f = absurd (ground arith)
    go (some m) f = (ground (arith, eq_iff m n), ground arith, ground arith)

token_in-Names :
    (tags rows : List (ℕ × String)) (name : String) (token : ℕ)
    → good_rows tags rows ≡ true
    → token_in rows name ≡ some token
    → Names tags token name
unfolding token_in good_rows
token_in-Names tags [] name token good e = absurd (ground arith)
token_in-Names tags ((t, n) ∷ rows) name token good e = elim (Bool-cases (str_eq n name)) [
  | inl own ↦ let v = good_row-Names tags t n (ground arith) in ground (arith, v, eq_iff n name)
  | inr other ↦ token_in-Names tags rows name token (ground arith) (ground arith)
]

-- The token that the encoder writes for a tag is a tag token of the page, and the decoder reads the
-- tag's name from it.
pub tag_name-tag_token :
    (page token : ℕ) (name : String)
    → tag_token page name ≡ some token
    → (tag_name page token ≡ some name) × (5 ≤ token) × (token < 64)
unfolding tag_name tag_token tags_of
tag_name-tag_token zero token name e =
    token_in-Names syncml_tags syncml_tags name token syncml_good e
tag_name-tag_token (suc n) token name e =
    token_in-Names metinf_tags metinf_tags name token metinf_good e
