-- ===== src/Wbxml/Strings.antt =====
-- src/acs/protocol/omadm/wbxml.py: the string table of `encode`, as `_table_string` reads it.
use auto_configuration_serve.Prelude.{
  ℕ, zero, suc, ◌≤◌, ◌≡◌, ◌⊎◌, refl, sym, String, true, false, none, some, List, [], ◌∷◌, ◌++◌,
  length, length-append, drop, ltb, leb, arith, not, ◌&&◌, ok, Bool-cases, Option-cases, inl, inr,
}
use mathlib.Core.Path.{subst}
use mathlib.Core.List.{append_assoc}
use auto_configuration_serve.Wbxml.{codes}
use auto_configuration_serve.Wbxml.Decode.{Unicode, until_nul, table_string, same_list}
use auto_configuration_serve.Wbxml.Encode.{
  Element, PublicIdArgument, default_id, numeric_id, named_id, EncodeOptions, StringTable,
  offset_of, add_text, share_text, share_texts, string_table, texts_of, count_of, named_table,
}
use auto_configuration_serve.Wbxml.Pieces.{nul_free}
use auto_configuration_serve.Wbxml.Texts.{HoldsTexts, until_nul-append, drop-append}

same_list-eq : (xs ys : List ℕ) → same_list xs ys ≡ true → xs ≡ ys
unfolding same_list
same_list-eq [] [] e = refl
same_list-eq [] (y ∷ ys) e = absurd (ground arith)
same_list-eq (x ∷ xs) [] e = absurd (ground arith)
same_list-eq (x ∷ xs) (y ∷ ys) e =
    let tail = same_list-eq xs ys (ground arith) in
    let head : x ≡ y = ground arith in rw (head, tail) refl

until_nul-prefix :
    (xs ys raw rest : List ℕ)
    → until_nul xs ≡ some (raw, rest)
    → until_nul (xs ++ ys) ≡ some (raw, rest ++ ys)
unfolding until_nul
until_nul-prefix [] ys raw rest e = absurd (ground arith)
until_nul-prefix (zero ∷ xs) ys raw rest e = ground arith
until_nul-prefix (suc n ∷ xs) ys raw rest e = elim (Option-cases (until_nul xs)) [
  | inl absent ↦ absurd (ground arith)
  | inr ((raw', rest'), found) ↦ let more = until_nul-prefix xs ys raw' rest' found in ground arith
]

drop-prefix : (n : ℕ) (xs ys : List ℕ) → n ≤ length xs → drop n (xs ++ ys) ≡ drop n xs ++ ys
drop-prefix zero xs ys le = refl
drop-prefix (suc n) [] ys le = absurd (omega arith)
drop-prefix (suc n) (x ∷ xs) ys le = drop-prefix n xs ys (omega (arith, le))

pub table_string-prefix :
    (table more raw : List ℕ) (n : ℕ)
    → table_string table n ≡ ok raw
    → table_string (table ++ more) n ≡ ok raw
unfolding table_string
table_string-prefix table more raw n e = elim (Bool-cases (leb (length table) n)) [
  | inl beyond ↦ absurd (ground arith)
  | inr within ↦ elim (Option-cases (until_nul (drop n table))) [
    | inl absent ↦ absurd (ground arith)
    | inr ((raw', rest), found) ↦
        let moved = drop-prefix n table more (ground arith) in
        let read = until_nul-prefix (drop n table) more raw' rest found in
        let still : leb (length (table ++ more)) n ≡ false =
          ground (arith, length-append table more) in
        rw (still, moved, read) (ground arith)
  ]
]

table_string-append :
    (table text : List ℕ)
    → nul_free text ≡ true
    → table_string (table ++ text ++ 0 ∷ []) (length table) ≡ ok text
unfolding table_string
table_string-append table text free =
    let whole : (table ++ text) ++ 0 ∷ [] ≡ table ++ (text ++ 0 ∷ []) =
      append_assoc table text (0 ∷ []) in
    let some_left : leb (length (table ++ (text ++ 0 ∷ []))) (length table) ≡ false =
      ground (arith, length-append table (text ++ 0 ∷ []), length-append text (0 ∷ [])) in
    rw (whole, some_left, drop-append table (text ++ 0 ∷ []), until_nul-append text [] free) refl

module _ (unicode : Unicode) (namespace : String) where
  -- The texts of a table can be read from it.
  abbrev pub HasTexts : StringTable → Type 0
  HasTexts t = HoldsTexts unicode namespace t.table t.offsets

  add_text-HasTexts : (t : StringTable) (text : List ℕ) → HasTexts t → HasTexts (add_text t text)
  unfolding add_text offset_of
  add_text-HasTexts t text holds raw n free found = elim (Bool-cases (same_list text raw)) [
    | inl own ↦
        let here : n ≡ length t.table = ground arith in
        let same = same_list-eq text raw own in
        subst (λ (x : ℕ). table_string (t.table ++ text ++ 0 ∷ []) x ≡ ok raw) (sym here)
          (subst (λ (x : List ℕ). table_string (t.table ++ x ++ 0 ∷ []) (length t.table) ≡ ok raw)
            (sym same) (table_string-append t.table raw free))
    | inr other ↦
        let before = holds raw n free (ground arith) in
        rw (append_assoc t.table text (0 ∷ []))
          (table_string-prefix t.table (text ++ 0 ∷ []) raw n before)
  ]

  -- What a table holds at its start, it still holds when it has grown.
  abbrev pub StartsWith : List ℕ → StringTable → Type 0
  StartsWith name t = table_string t.table 0 ≡ ok name

  add_text-StartsWith :
      (t : StringTable) (text name : List ℕ) → StartsWith name t → StartsWith name (add_text t text)
  unfolding add_text
  add_text-StartsWith t text name e =
      rw (append_assoc t.table text (0 ∷ []))
        (table_string-prefix t.table (text ++ 0 ∷ []) name 0 e)

  -- Both, of the whole loop: a round either keeps the table or adds a text.
  share_text-cases :
      (texts : List (List ℕ)) (t : StringTable) (text : List ℕ)
      → (share_text texts t text ≡ t) ⊎ (share_text texts t text ≡ add_text t text)
  unfolding share_text
  share_text-cases texts t text =
      elim (Bool-cases (
        (ltb 1 (count_of text texts) && ltb 3 (length text))
        && elim (offset_of t.offsets text) [ none ↦ true | some n ↦ false ])) [
          | inl shared ↦ inr (ground arith)
          | inr left ↦ inl (ground arith)
        ]

  share_texts-HasTexts :
      (texts more : List (List ℕ)) (t : StringTable)
      → HasTexts t
      → HasTexts (share_texts texts more t)
  unfolding share_texts
  share_texts-HasTexts texts [] t holds = holds
  share_texts-HasTexts texts (text ∷ more) t holds =
      share_texts-HasTexts texts more (share_text texts t text)
        (elim (share_text-cases texts t text) [
          | inl kept ↦ subst HasTexts (sym kept) holds
          | inr added ↦ subst HasTexts (sym added) (add_text-HasTexts t text holds)
        ])

  share_texts-StartsWith :
      (texts more : List (List ℕ)) (t : StringTable) (name : List ℕ)
      → StartsWith name t
      → StartsWith name (share_texts texts more t)
  unfolding share_texts
  share_texts-StartsWith texts [] t name e = e
  share_texts-StartsWith texts (text ∷ more) t name e =
      share_texts-StartsWith texts more (share_text texts t text) name
        (elim (share_text-cases texts t text) [
          | inl kept ↦ subst (λ x. StartsWith name x) (sym kept) e
          | inr added ↦
              subst (λ x. StartsWith name x) (sym added) (add_text-StartsWith t text name e)
        ])

  abbrev empty : StringTable
  empty = record { offsets = []; table = [] }

  nothing-HasTexts : HasTexts empty
  unfolding offset_of
  nothing-HasTexts raw n free found = absurd (ground arith)

  named_table-HasTexts : (public_id : PublicIdArgument) → HasTexts (named_table public_id)
  unfolding named_table
  named_table-HasTexts default_id = nothing-HasTexts
  named_table-HasTexts (numeric_id n) = nothing-HasTexts
  named_table-HasTexts (named_id name) = add_text-HasTexts empty (codes name) nothing-HasTexts

  named_table-StartsWith :
      (name : String)
      → nul_free (codes name) ≡ true
      → StartsWith (codes name) (named_table (named_id name))
  unfolding named_table add_text
  named_table-StartsWith name free = table_string-append [] (codes name) free

  pub string_table-HasTexts :
      (options : EncodeOptions) (root : Element) → HasTexts (string_table options root)
  unfolding string_table
  string_table-HasTexts options root =
      let texts = texts_of root [] in
      let named = named_table options.public_id in
      elim (Bool-cases (options.use_string_table && not options.opaque)) [
        | inl shares ↦
            rw shares
              (share_texts-HasTexts texts texts named (named_table-HasTexts options.public_id))
        | inr plain ↦ rw plain (named_table-HasTexts options.public_id)
      ]

  pub string_table-StartsWith :
      (options : EncodeOptions) (root : Element) (name : String)
      → options.public_id ≡ named_id name
      → nul_free (codes name) ≡ true
      → StartsWith (codes name) (string_table options root)
  unfolding string_table
  string_table-StartsWith options root name e free =
      let texts = texts_of root [] in
      let named = named_table options.public_id in
      let first : StartsWith (codes name) named =
        subst (λ (x : PublicIdArgument). StartsWith (codes name) (named_table x)) (sym e)
          (named_table-StartsWith name free) in
      elim (Bool-cases (options.use_string_table && not options.opaque)) [
        | inl shares ↦ rw shares (share_texts-StartsWith texts texts named (codes name) first)
        | inr plain ↦ rw plain first
      ]
