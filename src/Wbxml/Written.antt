-- ===== src/Wbxml/Written.antt =====
-- src/acs/protocol/omadm/wbxml.py, `element_content`: what it has written when it returns.
use auto_configuration_serve.Prelude.{
  ℕ, ◌+◌, ◌≡◌, String, Bool, true, some, List, [], ◌∷◌, ◌++◌, ◌==◌, arith, ok, if◌then◌else◌,
  Bool-cases, Option-cases, inl, inr, Result-cases,
}
use mathlib.Core.List.{append_assoc}
use auto_configuration_serve.Wbxml.{tag_token}
use auto_configuration_serve.Wbxml.Encode.{
  element, Children, page_of, known_namespace, has_content, write_bytes, text_content, open_tag,
  element_content, children_content,
}

pub write_bytes-ok :
    (output bytes output' : List ℕ)
    → write_bytes output bytes ≡ ok output'
    → output' ≡ output ++ bytes
unfolding write_bytes
write_bytes-ok output bytes output' e = ground arith

-- The bytes of an opening tag.
abbrev pub opening_bytes : ℕ → String → ℕ → Bool → List ℕ
opening_bytes page ns token content =
    (if page_of ns == page then [] else 0x00 ∷ page_of ns ∷ [])
    ++ (if content then token + 64 else token) ∷ []

module _ (namespace : String) (opaque : Bool) (offsets : List (List ℕ × ℕ)) where
  pub open_tag-ok :
      (page : ℕ) (output : List ℕ) (ns local : String) (content : Bool) (page' : ℕ)
      (opened : List ℕ)
      → open_tag namespace opaque offsets page output ns local content ≡ ok (page', opened)
      → (token : ℕ) × (tag_token (page_of ns) local ≡ some token)
        × (page' ≡ page_of ns)
        × (opened ≡ output ++ opening_bytes page ns token content)
  unfolding open_tag
  open_tag-ok page output ns local content page' opened e =
      elim (Bool-cases (known_namespace namespace opaque offsets ns)) [
        | inr unknown ↦ absurd (ground arith)
        | inl known ↦ elim (Option-cases (tag_token (page_of ns) local)) [
          | inl absent ↦ absurd (ground arith)
          | inr (token, found) ↦
              let switch : List ℕ = if page_of ns == page then [] else 0x00 ∷ page_of ns ∷ [] in
              let tag : List ℕ = (if content then token + 64 else token) ∷ [] in
              elim (Result-cases (write_bytes output switch)) [
                | inl (x, r₁) ↦ absurd (ground arith)
                | inr (switched, r₁) ↦ elim (Result-cases (write_bytes switched tag)) [
                  | inl (x, r₂) ↦ absurd (ground arith)
                  | inr (final, r₂) ↦
                      let w₁ = write_bytes-ok output switch switched r₁ in
                      let w₂ = write_bytes-ok switched tag final r₂ in
                      (token, found, ground arith, ground (arith, append_assoc output switch tag))
                ]
              ]
        ]
      ]

  pub element_content-filled :
      (page page' : ℕ) (output output' : List ℕ) (ns local : String) (text : List ℕ)
      (children : Children)
      → has_content text children ≡ true
      → element_content namespace opaque offsets page output (element ns local text children)
        ≡ ok (page', output')
      → (first : ℕ) × (opened written filled : List ℕ) × (open_tag namespace opaque offsets page
            output ns local true
          ≡ ok (first, opened))
        × (text_content namespace opaque offsets opened text ≡ ok written)
        × (children_content namespace opaque offsets first written children ≡ ok (page', filled))
        × (write_bytes filled (0x01 ∷ []) ≡ ok output')
  unfolding element_content
  element_content-filled page page' output output' ns local text children full e =
      elim (Result-cases (open_tag namespace opaque offsets page output ns local true)) [
        | inl (x, r₁) ↦ absurd (ground arith)
        | inr ((first, opened), r₁) ↦
            elim (Result-cases (text_content namespace opaque offsets opened text)) [
              | inl (x, r₂) ↦ absurd (ground arith)
              | inr (written, r₂) ↦
                  elim (Result-cases
                    (children_content namespace opaque offsets first written children)) [
                      | inl (x, r₃) ↦ absurd (ground arith)
                      | inr ((last, filled), r₃) ↦
                          elim (Result-cases (write_bytes filled (0x01 ∷ []))) [
                            | inl (x, r₄) ↦ absurd (ground arith)
                            | inr (ended, r₄) ↦
                                (first, opened, written, filled, r₁, r₂, ground arith, ground arith)
                          ]
                    ]
            ]
      ]
