-- ===== src/Wbxml/Heads.antt =====
-- src/acs/protocol/omadm/wbxml.py: the header that `encode` writes is read back.
use auto_configuration_serve.Prelude.{
  ℕ, ◌≡◌, ◌⊎◌, refl, sym, ap, ◌∙◌, String, Bool, true, Option, none, some, List, [], ◌∷◌, ◌++◌,
  length, str_eq, eq_iff, ltb, ◌==◌, arith, ◌&&◌, ◌||◌, ok, Bool-cases, Result-cases, inl, inr,
}
use mathlib.Core.Path.{subst}
use mathlib.Core.List.{append_assoc}
use auto_configuration_serve.Wbxml.{
  PublicId, public_ids, codes, integer, mb_uint32, version_12, version_13, charset_utf8,
}
use auto_configuration_serve.Wbxml.Integers.{integer-mb_uint32}
use auto_configuration_serve.Wbxml.Decode.{
  Unicode, utf8, all_valid, table_string, identified, public_offset, key_of_name, public_id_at,
  header, byte,
}
use auto_configuration_serve.Wbxml.Encode.{
  PublicIdArgument, default_id, numeric_id, named_id, EncodeOptions, numeric_of, key_of_text,
  write_bytes, id_bytes, header_bytes,
}
use auto_configuration_serve.Wbxml.Pieces.{nul_free}
use auto_configuration_serve.Wbxml.Nested.{append_assoc_three}
use auto_configuration_serve.Wbxml.Written.{write_bytes-ok}
use auto_configuration_serve.Wbxml.Texts.{take_bytes-append}

abbrev pub all_ascii : List ℕ → Bool
all_ascii [] = true
all_ascii (b ∷ bs) = ltb b 128 && all_ascii bs

abbrev pub syncml_11 : PublicId
syncml_11 = record {
  key = 0x0fd3;
  name = "-//SYNCML//DTD SyncML 1.1//EN";
  namespace = "SYNCML:SYNCML1.1";
}

abbrev pub syncml_12 : PublicId
syncml_12 = record {
  key = 0x1201;
  name = "-//SYNCML//DTD SyncML 1.2//EN";
  namespace = "SYNCML:SYNCML1.2";
}

pub public_id_at-cases :
    (key : ℕ) (id : PublicId)
    → public_id_at public_ids key ≡ some id
    → (key ≡ id.key) × ((id ≡ syncml_11) ⊎ (id ≡ syncml_12))
unfolding public_id_at
public_id_at-cases key id e = elim (Bool-cases (0x0fd3 == key)) [
  | inl first ↦ let same : syncml_11 ≡ id = ground arith in (ground arith, inl (sym same))
  | inr other ↦ elim (Bool-cases (0x1201 == key)) [
    | inl second ↦ let same : syncml_12 ≡ id = ground arith in (ground arith, inr (sym same))
    | inr neither ↦ absurd (ground arith)
  ]
]

-- A name that `encode` accepts is that of its public identifier.
pub name_of_key :
    (name : String) (id : PublicId)
    → public_id_at public_ids (key_of_text public_ids name) ≡ some id
    → name ≡ id.name
unfolding public_id_at key_of_text
name_of_key name id e = elim (Bool-cases (str_eq "-//SYNCML//DTD SyncML 1.1//EN" name)) [
  | inl first ↦
      let own = eq_iff "-//SYNCML//DTD SyncML 1.1//EN" name in
      let same : syncml_11 ≡ id = ground arith in ground arith
  | inr other ↦ elim (Bool-cases (str_eq "-//SYNCML//DTD SyncML 1.2//EN" name)) [
    | inl second ↦
        let own = eq_iff "-//SYNCML//DTD SyncML 1.2//EN" name in
        let same : syncml_12 ≡ id = ground arith in ground arith
    | inr neither ↦ absurd (ground arith)
  ]
]

codes-nul_free :
    (id : PublicId) → (id ≡ syncml_11) ⊎ (id ≡ syncml_12) → nul_free (codes id.name) ≡ true
unfolding nul_free codes
codes-nul_free id (inl e) = rw (e) refl
codes-nul_free id (inr e) = rw (e) refl

codes-all_ascii :
    (id : PublicId) → (id ≡ syncml_11) ⊎ (id ≡ syncml_12) → all_ascii (codes id.name) ≡ true
unfolding codes
codes-all_ascii id (inl e) = rw (e) refl
codes-all_ascii id (inr e) = rw (e) refl

codes-all_valid :
    (id : PublicId) → (id ≡ syncml_11) ⊎ (id ≡ syncml_12) → all_valid (codes id.name) ≡ true
unfolding codes all_valid
codes-all_valid id (inl e) = rw (e) refl
codes-all_valid id (inr e) = rw (e) refl

key_of_name-codes :
    (id : PublicId)
    → (id ≡ syncml_11) ⊎ (id ≡ syncml_12)
    → key_of_name public_ids (codes id.name) ≡ id.key
unfolding codes key_of_name
key_of_name-codes id (inl e) = rw (e) refl
key_of_name-codes id (inr e) = rw (e) refl

header_bytes-ok :
    (options : EncodeOptions) (numeric : ℕ) (table head : List ℕ)
    → header_bytes options numeric table ≡ ok head
    → (bytes charset size : List ℕ) × (id_bytes options.public_id numeric ≡ ok bytes)
      × (mb_uint32 charset_utf8 ≡ ok charset)
      × (mb_uint32 (length table) ≡ ok size)
      × (head ≡ options.version ∷ (bytes ++ (charset ++ (size ++ table))))
unfolding header_bytes
header_bytes-ok options numeric table head e =
    elim (Result-cases (id_bytes options.public_id numeric)) [
      | inl (x, r₁) ↦ absurd (ground arith)
      | inr (bytes, r₁) ↦ elim (Result-cases (write_bytes (options.version ∷ []) bytes)) [
        | inl (x, r₂) ↦ absurd (ground arith)
        | inr (second, r₂) ↦ elim (Result-cases (mb_uint32 charset_utf8)) [
          | inl (x, r₃) ↦ absurd (ground arith)
          | inr (charset, r₃) ↦ elim (Result-cases (mb_uint32 (length table))) [
            | inl (x, r₄) ↦ absurd (ground arith)
            | inr (size, r₄) ↦
                let w₂ = write_bytes-ok (options.version ∷ []) bytes second r₂ in
                let w₃ = write_bytes-ok second (charset ++ size ++ table) head (ground arith) in
                (
                  bytes,
                  charset,
                  size,
                  r₁,
                  r₃,
                  r₄,
                  w₃
                      ∙ ap (λ t. t ++ (charset ++ size ++ table)) w₂
                      ∙ ap (λ t. options.version ∷ (bytes ++ t)) (append_assoc charset size table),
                )
          ]
        ]
      ]
    ]

module _ (unicode : Unicode)
    (ascii : (bytes : List ℕ)
      → all_ascii bytes ≡ true
      → unicode.decode_utf8 bytes ≡ some bytes) where
  -- What the bytes of the public identifier give in the decoder.
  abbrev ReadsId : PublicId → (bytes table : List ℕ) → Type 0
  ReadsId id bytes table =
      (rest : List ℕ)
      → (code : ℕ) × (offset : Option ℕ) × (after : List ℕ) × (integer (bytes ++ rest)
          ≡ ok (code, after))
        × (public_offset unicode code after ≡ ok (offset, rest))
        × (identified unicode code offset table ≡ ok id.key)

  numeric-ReadsId :
      (id : PublicId) (bytes table : List ℕ)
      → (id ≡ syncml_11) ⊎ (id ≡ syncml_12)
      → mb_uint32 id.key ≡ ok bytes
      → ReadsId id bytes table
  unfolding public_offset identified
  numeric-ReadsId id bytes table (inl e) written rest =
      (id.key, none, rest, integer-mb_uint32 id.key bytes rest written, rw (e) refl, refl)
  numeric-ReadsId id bytes table (inr e) written rest =
      (id.key, none, rest, integer-mb_uint32 id.key bytes rest written, rw (e) refl, refl)

  named-ReadsId :
      (id : PublicId) (table : List ℕ)
      → (id ≡ syncml_11) ⊎ (id ≡ syncml_12)
      → table_string table 0 ≡ ok (codes id.name)
      → ReadsId id (0 ∷ 0 ∷ []) table
  unfolding public_offset identified utf8 mb_uint32
  named-ReadsId id table one held rest =
      let second : integer (0 ∷ rest) ≡ ok (0, rest) = integer-mb_uint32 0 (0 ∷ []) rest refl in
      let decoded = ascii (codes id.name) (codes-all_ascii id one) in
      let valid = codes-all_valid id one in
      let text : utf8 unicode (codes id.name) ≡ ok (codes id.name) = ground arith in
      (
        0,
        some 0,
        0 ∷ rest,
        integer-mb_uint32 0 (0 ∷ []) (0 ∷ rest) refl,
        rw (second) refl,
        rw (held, text) (ap (λ t. ok t) (key_of_name-codes id one)),
      )

  pub id_bytes-ReadsId :
      (public_id : PublicIdArgument) (ns : String) (id : PublicId) (bytes table : List ℕ)
      → public_id_at public_ids (numeric_of public_id ns) ≡ some id
      → ((name : String)
          → public_id ≡ named_id name
          → nul_free (codes name) ≡ true
          → table_string table 0 ≡ ok (codes name))
      → id_bytes public_id id.key ≡ ok bytes
      → ReadsId id bytes table
  unfolding id_bytes numeric_of
  id_bytes-ReadsId default_id ns id bytes table known held written =
      numeric-ReadsId id bytes table (public_id_at-cases (numeric_of default_id ns) id known).1
        written
  id_bytes-ReadsId (numeric_id n) ns id bytes table known held written =
      numeric-ReadsId id bytes table (public_id_at-cases (numeric_of (numeric_id n) ns) id known).1
        written
  id_bytes-ReadsId (named_id name) ns id bytes table known held written =
      let own = name_of_key name id known in
      let one = (public_id_at-cases (key_of_text public_ids name) id known).1 in
      let there : table_string table 0 ≡ ok (codes name) =
        held name refl
          (subst (λ (t : String). nul_free (codes t) ≡ true) (sym own) (codes-nul_free id one)) in
      let two_zeros : 0 ∷ 0 ∷ [] ≡ bytes = ground arith in
      subst (λ (t : List ℕ). ReadsId id t table) two_zeros
        (named-ReadsId id table one
          (subst (λ (t : String). table_string table 0 ≡ ok (codes t)) own there))

  header-parts :
      (id : PublicId) (version : ℕ) (bytes charset size table rest : List ℕ)
      → (version == version_12 || version == version_13) ≡ true
      → public_id_at public_ids id.key ≡ some id
      → ReadsId id bytes table
      → mb_uint32 charset_utf8 ≡ ok charset
      → mb_uint32 (length table) ≡ ok size
      → header unicode (version ∷ (bytes ++ (charset ++ (size ++ (table ++ rest)))))
        ≡ ok (record { namespace = id.namespace; table = table; rest = rest })
  unfolding header byte
  header-parts id version bytes charset size table rest supported known reads e₁ e₂ =
      let (code, offset, after, r₁, r₂, r₃) = reads (charset ++ (size ++ (table ++ rest))) in
      let r₄ = integer-mb_uint32 charset_utf8 charset (size ++ (table ++ rest)) e₁ in
      let r₅ = integer-mb_uint32 (length table) size (table ++ rest) e₂ in
      rw (supported, r₁, r₂, r₄, r₅, take_bytes-append table rest, r₃) (ground arith)

  pub header-header_bytes :
      (options : EncodeOptions) (id : PublicId) (ns : String) (table head rest : List ℕ)
      → (options.version == version_12 || options.version == version_13) ≡ true
      → public_id_at public_ids (numeric_of options.public_id ns) ≡ some id
      → ((name : String)
          → options.public_id ≡ named_id name
          → nul_free (codes name) ≡ true
          → table_string table 0 ≡ ok (codes name))
      → header_bytes options id.key table ≡ ok head
      → header unicode (head ++ rest)
        ≡ ok (record { namespace = id.namespace; table = table; rest = rest })
  header-header_bytes options id ns table head rest version known held written =
      let (bytes, charset, size, e₁, e₂, e₃, whole) =
        header_bytes-ok options id.key table head written in
      let own : numeric_of options.public_id ns ≡ id.key =
        (public_id_at-cases (numeric_of options.public_id ns) id known).0 in
      subst
        (λ (t : List ℕ).
          header unicode t ≡ ok (record { namespace = id.namespace; table = table; rest = rest }))
        (sym (
          ap (λ t. t ++ rest) whole
          ∙ ap (λ t. options.version ∷ t)
              (append_assoc_three bytes charset (size ++ table) rest
                ∙ ap (λ t. bytes ++ (charset ++ t)) (append_assoc size table rest))))
        (header-parts id options.version bytes charset size table rest version
          (subst (λ (t : ℕ). public_id_at public_ids t ≡ some id) own known)
          (id_bytes-ReadsId options.public_id ns id bytes table known held e₁) e₂ e₃)
