-- ===== src/Wbxml/Document.antt =====
-- src/acs/protocol/omadm/wbxml.py: the document that `decode` returns.
use auto_configuration_serve.Prelude.{
  ℕ, zero, suc, ◌/◌, ◌%◌, ◌≤◌, ◌≡◌, refl, sym, ◌∙◌, String, true, false, some, List, [], ◌∷◌,
  length, ◌==◌, arith, not, ◌&&◌, ◌||◌, ok, Bool-cases, Option-cases, Result-cases, inl, inr,
}
use mathlib.Core.Path.{subst}
use auto_configuration_serve.Wbxml.{max_xml_bytes, tag_name}
use auto_configuration_serve.Wbxml.Decode.{
  Unicode, Piece, Output, Decoder, declaration_of, byte, tag_step, token_step, is_done,
  decode_tokens,
}
use auto_configuration_serve.Wbxml.Reach.{at, sizes, decode_tokens-step}
use auto_configuration_serve.Wbxml.Reader.{no_tags, reading, root_declaration, read_pieces}
use auto_configuration_serve.Wbxml.{
  PublicId, public_ids, integer, version_12, version_13, charset_utf8,
}
use auto_configuration_serve.Wbxml.Decode.{
  Header, header, byte, take_bytes, public_offset, identified, public_id_at, finished, start,
  decode,
}
use auto_configuration_serve.Wbxml.Heads.{public_id_at-cases}
use auto_configuration_serve.Wbxml.Limits.{
  Kept, KeptDecoder, switch_page-Kept, end_element-Kept, text_token-Kept, open_element-Kept,
}

module _ (unicode : Unicode) where
  module _ (namespace : String) (table : List ℕ) where
    tag_step-Kept :
        (token : ℕ) (rest : List ℕ) (page : ℕ) (stack : List String) (elements : ℕ) (o : Output)
        (d' : Decoder)
        → root_declaration (declaration_of namespace) ≡ true
        → (no_tags stack && not (elements == 0)) ≡ false
        → Kept unicode stack elements o
        → tag_step unicode namespace table (at rest page stack elements o) token ≡ ok d'
        → KeptDecoder unicode namespace table d'
    unfolding tag_step
    tag_step-Kept token rest page stack elements o d' root open_yet kept e =
        elim (Option-cases (tag_name page (token % 64))) [
          | inl unknown ↦ absurd (ground arith)
          | inr (name, known) ↦
              open_element-Kept unicode namespace table name (token / 64 % 2 == 1) rest page stack
                elements o d' root open_yet kept (ground arith)
        ]

    token_step-Kept :
        (token : ℕ) (rest : List ℕ) (page : ℕ) (stack : List String) (elements : ℕ) (o : Output)
        (d' : Decoder)
        → root_declaration (declaration_of namespace) ≡ true
        → (no_tags stack && not (elements == 0)) ≡ false
        → Kept unicode stack elements o
        → token_step unicode namespace table (at rest page stack elements o) token ≡ ok d'
        → KeptDecoder unicode namespace table d'
    unfolding token_step
    token_step-Kept token rest page stack elements o d' root open_yet kept e =
        elim (Bool-cases (token == 0x00)) [
          | inl switch ↦
              switch_page-Kept unicode namespace table rest page stack elements o d' kept
                (ground arith)
          | inr no_switch ↦ elim (Bool-cases (token == 0x01)) [
            | inl end ↦
                end_element-Kept unicode namespace table rest page stack elements o d' kept
                  (ground arith)
            | inr no_end ↦ elim (Bool-cases (token == 0x03 || (token == 0x83 || token == 0xc3))) [
              | inl text ↦
                  text_token-Kept unicode namespace table token rest page stack elements o d' kept
                    (ground arith)
              | inr no_text ↦
                  tag_step-Kept token rest page stack elements o d' root open_yet kept
                    (ground arith)
            ]
          ]
        ]

    no_tags-open :
        (rest : List ℕ) (page : ℕ) (stack : List String) (elements : ℕ) (o : Output)
        → is_done unicode namespace table (at rest page stack elements o) ≡ false
        → (no_tags stack && not (elements == 0)) ≡ false
    no_tags-open rest page [] elements o open_yet = open_yet
    no_tags-open rest page (q ∷ stack) elements o open_yet = refl

    decode_tokens-Kept :
        (k : ℕ) (rest : List ℕ) (page : ℕ) (stack : List String) (elements : ℕ) (o : Output)
        (d' : Decoder)
        → root_declaration (declaration_of namespace) ≡ true
        → Kept unicode stack elements o
        → decode_tokens unicode namespace table k (at rest page stack elements o) ≡ ok d'
        → KeptDecoder unicode namespace table d'
    unfolding decode_tokens
    decode_tokens-Kept zero [] page stack elements o d' root kept e =
        let there : at [] page stack elements o ≡ d' = ground arith in
        subst (KeptDecoder unicode namespace table) there kept
    decode_tokens-Kept zero (token ∷ rest) page stack elements o d' root kept e =
        absurd (ground arith)
    decode_tokens-Kept (suc k) [] page stack elements o d' root kept e =
        let there : at [] page stack elements o ≡ d' = ground arith in
        subst (KeptDecoder unicode namespace table) there kept
    decode_tokens-Kept (suc k) (token ∷ rest) page stack elements o d' root kept e =
        elim (Bool-cases (is_done unicode namespace table (at rest page stack elements o))) [
          | inl over ↦ absurd (ground arith)
          | inr open_yet ↦
              elim (Result-cases
                (token_step unicode namespace table (at rest page stack elements o) token)) [
                  | inl (x, r) ↦ absurd (ground arith)
                  | inr (d, r) ↦
                      decode_tokens-Kept k d.rest d.page d.stack d.elements d.output d' root
                        (token_step-Kept token rest page stack elements o d root
                          (no_tags-open rest page stack elements o open_yet) kept r)
                        (sym (
                            decode_tokens-step unicode namespace table k token rest page stack
                              elements o d open_yet r)
                          ∙ e)
                ]
        ]

  known-declaration :
      (key : ℕ) (id : PublicId)
      → public_id_at public_ids key ≡ some id
      → root_declaration (declaration_of id.namespace) ≡ true
  known-declaration key id known = elim (public_id_at-cases key id known).1 [
    | inl first ↦
        subst (λ (t : PublicId). root_declaration (declaration_of t.namespace) ≡ true) (sym first)
          refl
    | inr second ↦
        subst (λ (t : PublicId). root_declaration (declaration_of t.namespace) ≡ true) (sym second)
          refl
  ]

  header-declaration :
      (payload : List ℕ) (h : Header)
      → header unicode payload ≡ ok h
      → root_declaration (declaration_of h.namespace) ≡ true
  unfolding header
  header-declaration payload h e = elim (Result-cases (byte payload)) [
    | inl (x, r) ↦ absurd (ground arith)
    | inr ((version, b₁), r₁) ↦
        elim (Bool-cases (not (version == version_12 || version == version_13))) [
          | inl other ↦ absurd (ground arith)
          | inr supported ↦ elim (Result-cases (integer b₁)) [
            | inl (x, r) ↦ absurd (ground arith)
            | inr ((code, b₂), r₂) ↦ elim (Result-cases (public_offset unicode code b₂)) [
              | inl (x, r) ↦ absurd (ground arith)
              | inr ((offset, b₃), r₃) ↦ elim (Result-cases (integer b₃)) [
                | inl (x, r) ↦ absurd (ground arith)
                | inr ((charset, b₄), r₄) ↦ elim (Bool-cases (not (charset == charset_utf8))) [
                  | inl other ↦ absurd (ground arith)
                  | inr utf ↦ elim (Result-cases (integer b₄)) [
                    | inl (x, r) ↦ absurd (ground arith)
                    | inr ((size, b₅), r₅) ↦ elim (Result-cases (take_bytes size b₅)) [
                      | inl (x, r) ↦ absurd (ground arith)
                      | inr ((strings, b₆), r₆) ↦
                          elim (Result-cases (identified unicode code offset strings)) [
                            | inl (x, r) ↦ absurd (ground arith)
                            | inr (key, r₇) ↦ elim (Option-cases (public_id_at public_ids key)) [
                              | inl unknown ↦ absurd (ground arith)
                              | inr (id, known) ↦
                                  let same : id.namespace ≡ h.namespace = ground arith in
                                  subst (λ (t : String). root_declaration (declaration_of t) ≡ true)
                                    same (known-declaration key id known)
                            ]
                          ]
                    ]
                  ]
                ]
              ]
            ]
          ]
        ]
  ]

  start-Kept : Kept unicode [] 0 (record { pieces = []; size = 0 })
  unfolding read_pieces
  start-Kept = (refl, refl, omega arith)

  finished-read_pieces :
      (rest : List ℕ) (page : ℕ) (stack : List String) (elements : ℕ) (o : Output)
      (pieces : List Piece)
      → Kept unicode stack elements o
      → finished unicode (at rest page stack elements o) ≡ ok pieces
      → (opened : ℕ) × (read_pieces (reading [] 0) pieces ≡ some (reading [] opened))
        × (1 ≤ opened)
        × (sizes unicode pieces ≤ max_xml_bytes)
  unfolding finished
  finished-read_pieces rest page [] elements o pieces (read, sized, small) e =
      elim (Bool-cases (elements == 0)) [
        | inl missing ↦ absurd (ground arith)
        | inr found ↦
            let same : o.pieces ≡ pieces = ground arith in
            (
              elements,
              subst (λ t. read_pieces (reading [] 0) t ≡ some (reading [] elements)) same read,
              ground arith,
              subst (λ t. sizes unicode t ≤ max_xml_bytes) same (omega (arith, sized, small)),
            )
      ]
  finished-read_pieces rest page (q ∷ qs) elements o pieces kept e = absurd (ground arith)

  -- Whatever `decode` returns is one SyncML document: a reader of its XML finds the SyncML root with
  -- the declaration of SyncML 1.1 or 1.2, every other tag inside it, every tag closed in order, no
  -- text outside the root, texts of characters of XML only, nesting up to 64, and up to 16384 elements;
  -- and the XML is at most 2 MiB.
  pub decode-read_pieces :
      (payload : List ℕ) (pieces : List Piece)
      → decode unicode payload ≡ ok pieces
      → (opened : ℕ) × (read_pieces (reading [] 0) pieces ≡ some (reading [] opened))
        × (1 ≤ opened)
        × (sizes unicode pieces ≤ max_xml_bytes)
  unfolding decode
  decode-read_pieces payload pieces e = elim (Result-cases (header unicode payload)) [
    | inl (x, r) ↦ absurd (ground arith)
    | inr (h, r) ↦
        elim (Result-cases
          (decode_tokens unicode h.namespace h.table (length h.rest) (start unicode h.rest))) [
            | inl (x, r₁) ↦ absurd (ground arith)
            | inr (d, r₁) ↦
                finished-read_pieces d.rest d.page d.stack d.elements d.output pieces
                  (decode_tokens-Kept h.namespace h.table (length h.rest) h.rest 0 [] 0
                    (record { pieces = []; size = 0 }) d (header-declaration payload h r) start-Kept
                    r₁)
                  (ground arith)
          ]
  ]
