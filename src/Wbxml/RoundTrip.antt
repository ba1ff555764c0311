-- ===== src/Wbxml/RoundTrip.antt =====
-- src/acs/protocol/omadm/wbxml.py: `decode` after `encode`.
use auto_configuration_serve.Prelude.{
  ℕ, zero, suc, ◌+◌, ◌≤◌, ◌≡◌, ◌⊎◌, refl, ap, ◌∙◌, String, Bool, true, false, Option, none, some,
  List, [], ◌++◌, length, truthy, str_eq, eq_iff, ltb, ◌==◌, arith, not, ◌&&◌, ◌||◌, Result, ok,
  Bool-cases, Option-cases, Result-cases, inl, inr,
}
use mathlib.Core.Path.{subst}
use mathlib.Core.List.{append-nil}
use auto_configuration_serve.Wbxml.{
  WbxmlError, PublicId, public_ids, version_12, version_13, max_input_bytes, max_xml_bytes,
  max_depth, max_elements, metinf_ns,
}
use auto_configuration_serve.Wbxml.Decode.{
  Unicode, Piece, Output, declaration_of, public_id_at, header, decode_tokens, finished, start,
  decode,
}
use auto_configuration_serve.Wbxml.Encode.{
  Element, element, no_more, child, EncodeOptions, numeric_of, namespace_of, local_of, stripped,
  string_table, header_bytes, element_content, encode_root, encode, page_of,
}
use auto_configuration_serve.Wbxml.Pieces.{readable_element, element_pieces, count, depth}
use auto_configuration_serve.Wbxml.Reach.{at, sizes, extend, Reaches}
use auto_configuration_serve.Wbxml.Strings.{string_table-HasTexts, string_table-StartsWith}
use auto_configuration_serve.Wbxml.Heads.{
  all_ascii, syncml_11, syncml_12, public_id_at-cases, header-header_bytes,
}
use auto_configuration_serve.Wbxml.Nested.{ReadsElement, misplaced}
use auto_configuration_serve.Wbxml.Trees.{element-Written}

-- The namespace of the document that the decoder writes.
abbrev pub document_namespace : EncodeOptions → Element → String
document_namespace options root =
    elim (public_id_at public_ids (numeric_of options.public_id (namespace_of root))) [
      | none ↦ ""
      | some id ↦ id.namespace
    ]

decode_tokens-end :
    (unicode : Unicode) (namespace : String) (table : List ℕ) (k page elements : ℕ)
    (stack : List String) (o : Output)
    → decode_tokens unicode namespace table k (at [] page stack elements o)
      ≡ ok (at [] page stack elements o)
unfolding decode_tokens
decode_tokens-end unicode namespace table zero page elements stack o = refl
decode_tokens-end unicode namespace table (suc k) page elements stack o = refl

count_pos : (e : Element) → 1 ≤ count e
unfolding count
count_pos (element ns local text children) = omega arith

local_of-stripped :
    (is_space : List ℕ → Bool) (e : Element) → local_of (stripped is_space e) ≡ local_of e
unfolding stripped
local_of-stripped is_space (element ns local text no_more) = refl
local_of-stripped is_space (element ns local text (child e tail more)) = refl

namespace_of-stripped :
    (is_space : List ℕ → Bool) (e : Element) → namespace_of (stripped is_space e) ≡ namespace_of e
unfolding stripped
namespace_of-stripped is_space (element ns local text no_more) = refl
namespace_of-stripped is_space (element ns local text (child e tail more)) = refl

str_eq-eq : (s t : String) → str_eq s t ≡ true → s ≡ t
str_eq-eq s t e = ground (arith, eq_iff s t)

-- A root that the encoder accepts stands on the page of SyncML.
root_page :
    (ns : String) (id : PublicId)
    → (id ≡ syncml_11) ⊎ (id ≡ syncml_12)
    → (truthy ns && not (str_eq ns id.namespace)) ≡ false
    → page_of ns ≡ 0
root_page ns id one placed = elim (Bool-cases (str_eq ns metinf_ns)) [
  | inr other ↦ ground arith
  | inl metinf ↦
      let whole : (truthy metinf_ns && not (str_eq metinf_ns id.namespace)) ≡ false =
        subst (λ (t : String). (truthy t && not (str_eq t id.namespace)) ≡ false)
          (str_eq-eq ns metinf_ns metinf) placed in
      absurd (elim one [
        | inl first ↦
            let no =
              subst
                (λ (t : PublicId). (truthy metinf_ns && not (str_eq metinf_ns t.namespace)) ≡ false)
                first whole in
            ground arith
        | inr second ↦
            let no =
              subst
                (λ (t : PublicId). (truthy metinf_ns && not (str_eq metinf_ns t.namespace)) ≡ false)
                second whole in
            ground arith
      ])
]

within_limit : (n : ℕ) → n ≤ max_input_bytes → ltb max_input_bytes n ≡ false
within_limit n le = ground arith

not_zero : (n : ℕ) → 1 ≤ n → (0 + n == 0) ≡ false
not_zero n le = ground arith

document_namespace-known :
    (options : EncodeOptions) (root : Element) (id : PublicId)
    → public_id_at public_ids (numeric_of options.public_id (namespace_of root)) ≡ some id
    → document_namespace options root ≡ id.namespace
document_namespace-known options root id known = go known
  where
    go :
        {o : Option PublicId}
        → o ≡ some id
        → elim o as (λ _. String) [ none ↦ "" | some p ↦ p.namespace ] ≡ id.namespace
    go e = rw e refl

module _ (unicode : Unicode) where
  abbrev pub xml_of : EncodeOptions → Element → List Piece
  xml_of options root =
      element_pieces unicode (declaration_of (document_namespace options root))
        (stripped unicode.is_space root)

  decode-parts :
      (bytes head body table : List ℕ) (namespace : String) (page' : ℕ) (e : Element)
      → length bytes ≤ max_input_bytes
      → bytes ≡ head ++ body
      → header unicode (head ++ body)
        ≡ ok (record { namespace = namespace; table = table; rest = body })
      → ReadsElement unicode namespace table e 0 page' body
      → local_of e ≡ "SyncML"
      → page_of (namespace_of e) ≡ 0
      → depth e ≤ max_depth
      → count e ≤ max_elements
      → sizes unicode (element_pieces unicode (declaration_of namespace) e) ≤ max_xml_bytes
      → decode unicode bytes ≡ ok (element_pieces unicode (declaration_of namespace) e)
  unfolding decode finished
  decode-parts bytes head body table namespace page' e short whole read reads named placed deep many
        fits =
      let o₀ : Output = record { pieces = []; size = 0 } in
      let pieces = element_pieces unicode (declaration_of namespace) e in
      let in_place : misplaced unicode namespace table 0 (namespace_of e) (local_of e) ≡ false =
        rw (placed, named) refl in
      let run =
        reads [] [] 0 o₀ refl in_place
          (omega (arith, deep), omega (arith, many), omega (arith, fits)) in
      let from_start : Reaches unicode namespace table (start unicode body)
          (at [] page' [] (0 + count e) (extend unicode o₀ pieces)) =
        subst
          (λ t.
            Reaches unicode namespace table (at t 0 [] 0 o₀)
              (at [] page' [] (0 + count e) (extend unicode o₀ pieces)))
          (append-nil body) run in
      let (j, enough, same) = from_start (length body) (omega arith) in
      let done =
        same
        ∙ decode_tokens-end unicode namespace table j page' (0 + count e) []
            (extend unicode o₀ pieces) in
      let short_enough : ltb max_input_bytes (length bytes) ≡ false =
        within_limit (length bytes) short in
      let some_elements : (0 + count e == 0) ≡ false = not_zero (count e) (count_pos e) in
      let read' : header unicode bytes
          ≡ ok (record { namespace = namespace; table = table; rest = body }) =
        ap (λ t. header unicode t) whole ∙ read in
      rw (short_enough, read', done, some_elements) refl

  module _ (parse_xml : List ℕ → Result WbxmlError Element) where
    -- What `encode` has checked and written.
    encode-parts :
        (options : EncodeOptions) (payload bytes : List ℕ) (root : Element)
        → parse_xml payload ≡ ok root
        → encode unicode parse_xml options payload ≡ ok bytes
        → (id : PublicId) × (head : List ℕ) × (page' : ℕ) × ((options.version == version_12
              || options.version == version_13)
            ≡ true)
          × (str_eq (local_of root) "SyncML" ≡ true)
          × (public_id_at public_ids (numeric_of options.public_id (namespace_of root)) ≡ some id)
          × ((truthy (namespace_of root) && not (str_eq (namespace_of root) id.namespace)) ≡ false)
          × (header_bytes options id.key
                (string_table options (stripped unicode.is_space root)).table
              ≡ ok head)
          × (element_content id.namespace options.opaque
                (string_table options (stripped unicode.is_space root)).offsets
                0
                head
                (stripped unicode.is_space root)
              ≡ ok (page', bytes))
    unfolding encode encode_root
    encode-parts options payload bytes root parsed e =
        let plain = stripped unicode.is_space root in
        let strings = string_table options plain in
        elim (Bool-cases (str_eq (local_of root) "SyncML")) [
          | inr other ↦ absurd (ground arith)
          | inl named ↦
              elim (Option-cases
                (public_id_at public_ids (numeric_of options.public_id (namespace_of root)))) [
                  | inl unknown ↦ absurd (ground arith)
                  | inr (id, known) ↦
                      elim (Result-cases (header_bytes options id.key strings.table)) [
                        | inl (x, r₁) ↦ absurd (ground arith)
                        | inr (head, r₁) ↦
                            elim (Result-cases (
                              element_content id.namespace options.opaque strings.offsets 0 head
                                plain)) [
                                  | inl (x, r₂) ↦ absurd (ground arith)
                                  | inr ((page', output), r₂) ↦ (
                                    id,
                                    head,
                                    page',
                                    ground arith,
                                    named,
                                    known,
                                    ground arith,
                                    r₁,
                                    ground arith,
                                  )
                                ]
                      ]
                ]
        ]

    -- `decode` reads back the WBXML that `encode` returns, whatever the version, the public identifier
    -- (default, number or name), the string table or OPAQUE: it returns the XML of the parsed tree
    -- without the white space between elements, in the namespace of the public identifier. The
    -- conditions are the decoder's limits (512 KiB of WBXML, depth 64, 16384 elements, 2 MiB of XML),
    -- texts without NUL whose UTF-8 decodes to characters of XML, and that the codec decodes ASCII to
    -- itself.
    pub decode-encode :
        (options : EncodeOptions) (payload bytes : List ℕ) (root : Element)
        → ((text : List ℕ) → all_ascii text ≡ true → unicode.decode_utf8 text ≡ some text)
        → parse_xml payload ≡ ok root
        → encode unicode parse_xml options payload ≡ ok bytes
        → length bytes ≤ max_input_bytes
        → readable_element unicode (stripped unicode.is_space root) ≡ true
        → depth (stripped unicode.is_space root) ≤ max_depth
        → count (stripped unicode.is_space root) ≤ max_elements
        → sizes unicode (xml_of options root) ≤ max_xml_bytes
        → decode unicode bytes ≡ ok (xml_of options root)
    decode-encode options payload bytes root ascii parsed e short good deep many fits =
        let plain = stripped unicode.is_space root in
        let strings = string_table options plain in
        let (id, head, page', version, named, known, placed, r₁, r₂) =
          encode-parts options payload bytes root parsed e in
        let (body, whole, reads) =
          element-Written unicode id.namespace strings.table options.opaque strings.offsets
            (string_table-HasTexts unicode id.namespace options plain) plain 0 page' head bytes good
            r₂ in
        let read =
          header-header_bytes unicode ascii options id (namespace_of root) strings.table head body
            version known
            (λ name f free. string_table-StartsWith unicode id.namespace options plain name f free)
            r₁ in
        let one =
          (public_id_at-cases (numeric_of options.public_id (namespace_of root)) id known).1 in
        let own_local = local_of-stripped unicode.is_space root in
        let own_namespace = namespace_of-stripped unicode.is_space root in
        let same : document_namespace options root ≡ id.namespace =
          document_namespace-known options root id known in
        rw (same) (
          decode-parts bytes head body strings.table id.namespace page' plain short whole read reads
            (own_local ∙ str_eq-eq (local_of root) "SyncML" named)
            (ap (λ (t : String). page_of t) own_namespace
              ∙ root_page (namespace_of root) id one placed)
            deep many
            (subst
              (λ (t : String).
                sizes unicode (element_pieces unicode (declaration_of t) plain) ≤ max_xml_bytes)
              same fits))
