-- ===== src/Wbxml/Trees.antt =====
-- src/acs/protocol/omadm/wbxml.py: a tree that `element_content` has written is read back.
use auto_configuration_serve.Prelude.{
  ℕ, ◌+◌, ◌≡◌, refl, sym, ap, ◌∙◌, String, Bool, true, false, List, [], ◌∷◌, ◌++◌, arith, ok, inl,
  inr, Result-cases,
}
use mathlib.Core.Path.{subst}
use mathlib.Core.List.{append-nil, append_assoc}
use auto_configuration_serve.Wbxml.Decode.{Unicode}
use auto_configuration_serve.Wbxml.Encode.{
  Element, element, Children, no_more, child, has_content, text_content, open_tag, element_content,
  children_content,
}
use auto_configuration_serve.Wbxml.Pieces.{
  readable, readable_element, readable_children, children_pieces, count_children,
}
use auto_configuration_serve.Wbxml.Reach.{at, extend, extend-nil, no_step-Reaches}
use auto_configuration_serve.Wbxml.Texts.{HoldsTexts, text_content-ReadsText}
use auto_configuration_serve.Wbxml.Written.{
  write_bytes-ok, opening_bytes, open_tag-ok, element_content-filled,
}
use auto_configuration_serve.Wbxml.Nested.{
  ReadsElement, ReadsChildren, same_state, empty-ReadsElement, filled-ReadsElement,
  more-ReadsChildren,
}

module _ (unicode : Unicode) (namespace : String) (table : List ℕ) where
  module _ (opaque : Bool) (offsets : List (List ℕ × ℕ))
      (holds : HoldsTexts unicode namespace table offsets) where
    abbrev pub WrittenElement : Element → (page page' : ℕ) → (output output' : List ℕ) → Type 0
    WrittenElement e page page' output output' =
        (bytes : List ℕ) × (output' ≡ output ++ bytes)
        × ReadsElement unicode namespace table e page page' bytes

    abbrev pub WrittenChildren : Children → (page page' : ℕ) → (output output' : List ℕ) → Type 0
    WrittenChildren children page page' output output' =
        (bytes : List ℕ) × (output' ≡ output ++ bytes)
        × ReadsChildren unicode namespace table children page page' bytes

    empty-WrittenElement :
        (ns local : String) (page page' : ℕ) (output output' : List ℕ)
        → element_content namespace opaque offsets page output (element ns local [] no_more)
          ≡ ok (page', output')
        → WrittenElement (element ns local [] no_more) page page' output output'
    unfolding element_content
    empty-WrittenElement ns local page page' output output' e =
        let made : open_tag namespace opaque offsets page output ns local false
            ≡ ok (page', output') =
          elim (Result-cases (open_tag namespace opaque offsets page output ns local false)) [
            | inl (x, r) ↦ absurd (ground arith)
            | inr ((first, opened), r) ↦ ground arith
          ] in
        let (token, found, turned, w) =
          open_tag-ok namespace opaque offsets page output ns local false page' output' made in
        (
          opening_bytes page ns token false,
          w,
          subst
              (λ (t : ℕ).
                ReadsElement unicode namespace table (element ns local [] no_more) page t
                  (opening_bytes page ns token false))
              (sym turned) (empty-ReadsElement unicode namespace table ns local token page found),
        )

    filled-WrittenElement :
        (ns local : String) (text : List ℕ) (children : Children) (page page' : ℕ)
        (output output' : List ℕ)
        → has_content text children ≡ true
        → readable unicode text ≡ true
        → ((first : ℕ) (written filled : List ℕ)
            → children_content namespace opaque offsets first written children ≡ ok (page', filled)
            → WrittenChildren children first page' written filled)
        → element_content namespace opaque offsets page output (element ns local text children)
          ≡ ok (page', output')
        → WrittenElement (element ns local text children) page page' output output'
    filled-WrittenElement ns local text children page page' output output' full good nested e =
        let (first, opened, written, filled, r₁, r₂, r₃, r₄) =
          element_content-filled namespace opaque offsets page page' output output' ns local text
            children full e in
        let (token, found, turned, w₁) =
          open_tag-ok namespace opaque offsets page output ns local true first opened r₁ in
        let (inside, w₂, texts) =
          text_content-ReadsText unicode namespace table opaque offsets opened text written holds
            good r₂ in
        let (below, w₃, reads) = nested first written filled r₃ in
        let w₄ = write_bytes-ok filled (0x01 ∷ []) output' r₄ in
        let own = opening_bytes page ns token true in
        let z : List ℕ = 0x01 ∷ [] in
        (
          own ++ (inside ++ (below ++ z)),
          w₄
              ∙ ap (λ t. t ++ z) (w₃ ∙ ap (λ t. t ++ below) (w₂ ∙ ap (λ t. t ++ inside) w₁))
              ∙ append_assoc ((output ++ own) ++ inside) below z
              ∙ append_assoc (output ++ own) inside (below ++ z)
              ∙ append_assoc output own (inside ++ (below ++ z)),
          filled-ReadsElement unicode namespace table ns local text children token page page' inside
              below full found texts
              (subst (λ (t : ℕ). ReadsChildren unicode namespace table children t page' below)
                turned reads),
        )

    more-WrittenChildren :
        (e : Element) (tail : List ℕ) (more : Children) (page page' : ℕ) (output output' : List ℕ)
        → readable unicode tail ≡ true
        → ((first : ℕ) (inner : List ℕ)
            → element_content namespace opaque offsets page output e ≡ ok (first, inner)
            → WrittenElement e page first output inner)
        → ((first : ℕ) (written filled : List ℕ)
            → children_content namespace opaque offsets first written more ≡ ok (page', filled)
            → WrittenChildren more first page' written filled)
        → children_content namespace opaque offsets page output (child e tail more)
          ≡ ok (page', output')
        → WrittenChildren (child e tail more) page page' output output'
    unfolding children_content
    more-WrittenChildren e tail more page page' output output' good own_reads nested written =
        elim (Result-cases (element_content namespace opaque offsets page output e)) [
          | inl (x, r₁) ↦ absurd (ground arith)
          | inr ((first, inner), r₁) ↦
              elim (Result-cases (text_content namespace opaque offsets inner tail)) [
                | inl (x, r₂) ↦ absurd (ground arith)
                | inr (outer, r₂) ↦
                    let (own, w₁, reads) = own_reads first inner r₁ in
                    let (text, w₂, texts) =
                      text_content-ReadsText unicode namespace table opaque offsets inner tail outer
                        holds good r₂ in
                    let (below, w₃, rest) = nested first outer output' (ground arith) in
                    (
                      own ++ (text ++ below),
                      w₃
                          ∙ ap (λ t. t ++ below) (w₂ ∙ ap (λ t. t ++ text) w₁)
                          ∙ append_assoc (output ++ own) text below
                          ∙ append_assoc output own (text ++ below),
                      more-ReadsChildren unicode namespace table e tail more page first page' own
                          text below reads texts rest,
                    )
              ]
        ]

    no_more-WrittenChildren :
        (page page' : ℕ) (output output' : List ℕ)
        → children_content namespace opaque offsets page output no_more ≡ ok (page', output')
        → WrittenChildren no_more page page' output output'
    unfolding children_content children_pieces count_children
    no_more-WrittenChildren page page' output output' e =
        let turned : page ≡ page' = ground arith in
        (
          [],
          ground (arith, append-nil output),
          subst (λ (t : ℕ). ReadsChildren unicode namespace table no_more page t []) turned
              (λ rest q stack elements o some_yet room.
                same_state unicode namespace table rest page (q ∷ stack) elements (elements + 0) o
                  (extend unicode o []) (at rest page (q ∷ stack) elements o) (omega arith)
                  (sym (extend-nil unicode o))
                  (no_step-Reaches unicode namespace table (at rest page (q ∷ stack) elements o))),
        )

    mutual
      unfolding readable_element readable_children

      -- An element that was written is read back from its bytes.
      pub element-Written :
          (e : Element) (page page' : ℕ) (output output' : List ℕ)
          → readable_element unicode e ≡ true
          → element_content namespace opaque offsets page output e ≡ ok (page', output')
          → WrittenElement e page page' output output'
      element-Written (element ns local [] no_more) page page' output output' good e =
          empty-WrittenElement ns local page page' output output' e
      element-Written (element ns local (b ∷ text) children) page page' output output' good e =
          filled-WrittenElement ns local (b ∷ text) children page page' output output' refl
            (ground arith)
            (λ first written filled r.
              children-Written children first page' written filled (ground arith) r)
            e
      element-Written (element ns local [] (child c tail more)) page page' output output' good e =
          filled-WrittenElement ns local [] (child c tail more) page page' output output' refl
            (ground arith)
            (λ first written filled r.
              children-Written (child c tail more) first page' written filled (ground arith) r)
            e

      children-Written :
          (children : Children) (page page' : ℕ) (output output' : List ℕ)
          → readable_children unicode children ≡ true
          → children_content namespace opaque offsets page output children ≡ ok (page', output')
          → WrittenChildren children page page' output output'
      children-Written no_more page page' output output' good e =
          no_more-WrittenChildren page page' output output' e
      children-Written (child e tail more) page page' output output' good written =
          more-WrittenChildren e tail more page page' output output' (ground arith)
            (λ first inner r. element-Written e page first output inner (ground arith) r)
            (λ first written' filled r.
              children-Written more first page' written' filled (ground arith) r)
            written
