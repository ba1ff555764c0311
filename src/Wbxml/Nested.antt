-- ===== src/Wbxml/Nested.antt =====
-- src/acs/protocol/omadm/wbxml.py: what `element_content` writes for a tree is read back as the tree.
use auto_configuration_serve.Prelude.{
  ℕ, ◌+◌, ◌≤◌, ◌≡◌, refl, sym, ap, ◌∙◌, String, Bool, true, false, some, List, [], ◌∷◌, ◌++◌,
  length, str_eq, ◌==◌, arith, not, ◌&&◌,
}
use mathlib.Core.Path.{subst}
use mathlib.Core.List.{append_assoc}
use auto_configuration_serve.Wbxml.{max_xml_bytes, max_depth, max_elements, tag_token}
use auto_configuration_serve.Wbxml.Decode.{
  Unicode, Piece, opening, closing, Output, Decoder, qualified_name,
}
use auto_configuration_serve.Wbxml.Encode.{
  Element, element, Children, no_more, child, namespace_of, local_of, page_of, has_content,
}
use auto_configuration_serve.Wbxml.Pieces.{
  text_pieces, element_pieces, children_pieces, count, count_children, depth, depth_children,
}
use auto_configuration_serve.Wbxml.Reach.{
  at, sizes, sizes-append, extend, extend-extend, Reaches, two_runs-Reaches,
}
use auto_configuration_serve.Wbxml.Texts.{ReadsText}
use auto_configuration_serve.Wbxml.Written.{opening_bytes}
use auto_configuration_serve.Wbxml.Elements.{
  IsOpen, declared, open_tag-Reaches, end_element-Reaches,
}

pub append_assoc_three :
    {A : Type 0} (a b c d : List A) → (a ++ (b ++ c)) ++ d ≡ a ++ (b ++ (c ++ d))
append_assoc_three a b c d = append_assoc a (b ++ c) d ∙ ap (λ t. a ++ t) (append_assoc b c d)

append_assoc_four :
    {A : Type 0} (a b c d e : List A) → (a ++ (b ++ (c ++ d))) ++ e ≡ a ++ (b ++ (c ++ (d ++ e)))
append_assoc_four a b c d e =
    append_assoc_three a b (c ++ d) e ∙ ap (λ t. a ++ (b ++ t)) (append_assoc c d e)

module _ (unicode : Unicode) (namespace : String) (table : List ℕ) where
  -- Room for more nesting, elements and XML.
  abbrev pub Room : List String → ℕ → Output → (levels more : ℕ) → List Piece → Type 0
  Room stack elements o levels more pieces =
      (length stack + levels ≤ max_depth)
      × (elements + more ≤ max_elements)
      × (o.size + sizes unicode pieces ≤ max_xml_bytes)

  abbrev pub misplaced : ℕ → String → String → Bool
  misplaced elements ns local = elements == 0 && not (page_of ns == 0 && str_eq local "SyncML")

  -- What an element gives in the decoder.
  abbrev pub ReadsElement : Element → (page page' : ℕ) → (bytes : List ℕ) → Type 0
  ReadsElement e page page' bytes =
      (rest : List ℕ) (stack : List String) (elements : ℕ) (o : Output)
      → IsOpen unicode namespace table stack elements
      → misplaced elements (namespace_of e) (local_of e) ≡ false
      → Room stack elements o (depth e) (count e)
          (element_pieces unicode (declared unicode namespace table elements) e)
      → Reaches unicode namespace table (at (bytes ++ rest) page stack elements o) (
          at rest page' stack (elements + count e) (
            extend unicode o
              (element_pieces unicode (declared unicode namespace table elements) e)))

  abbrev pub ReadsChildren : Children → (page page' : ℕ) → (bytes : List ℕ) → Type 0
  ReadsChildren children page page' bytes =
      (rest : List ℕ) (q : String) (stack : List String) (elements : ℕ) (o : Output)
      → 1 ≤ elements
      → Room (q ∷ stack) elements o (depth_children children) (count_children children)
          (children_pieces unicode children)
      → Reaches unicode namespace table (at (bytes ++ rest) page (q ∷ stack) elements o) (
          at rest page' (q ∷ stack) (elements + count_children children)
            (extend unicode o (children_pieces unicode children)))

  extend_three :
      (o : Output) (a b c : List Piece)
      → extend unicode (extend unicode (extend unicode o a) b) c ≡ extend unicode o (a ++ (b ++ c))
  extend_three o a b c =
      extend-extend unicode (extend unicode o a) b c ∙ extend-extend unicode o a (b ++ c)

  extend_four :
      (o : Output) (a b c d : List Piece)
      → extend unicode (extend unicode (extend unicode (extend unicode o a) b) c) d
        ≡ extend unicode o (a ++ (b ++ (c ++ d)))
  extend_four o a b c d =
      extend_three (extend unicode o a) b c d ∙ extend-extend unicode o a (b ++ (c ++ d))

  sizes_three :
      (a b c : List Piece)
      → sizes unicode (a ++ (b ++ c)) ≡ sizes unicode a + (sizes unicode b + sizes unicode c)
  sizes_three a b c = omega (arith, sizes-append unicode a (b ++ c), sizes-append unicode b c)

  -- The same state at another count and output.
  pub same_state :
      (rest : List ℕ) (page : ℕ) (stack : List String) (m n : ℕ) (o o' : Output) (d : Decoder)
      → m ≡ n
      → o ≡ o'
      → Reaches unicode namespace table d (at rest page stack m o)
      → Reaches unicode namespace table d (at rest page stack n o')
  same_state rest page stack m n o o' d e f reached =
      subst (λ (t : ℕ). Reaches unicode namespace table d (at rest page stack t o')) e
        (subst (λ (t : Output). Reaches unicode namespace table d (at rest page stack m t)) f
          reached)

  pub empty-ReadsElement :
      (ns local : String) (token page : ℕ)
      → tag_token (page_of ns) local ≡ some token
      → ReadsElement
          (element ns local [] no_more)
          page
          (page_of ns)
          (opening_bytes page ns token false)
  unfolding element_pieces count depth
  empty-ReadsElement ns local token page found rest stack elements o open_yet placed
        (deep, many, fits) =
      open_tag-Reaches unicode namespace table page ns local token false rest stack elements o found
        open_yet (omega (arith, deep)) (omega (arith, many)) placed fits

  pub filled-ReadsElement :
      (ns local : String) (text : List ℕ) (children : Children) (token page page' : ℕ)
      (inside below : List ℕ)
      → has_content text children ≡ true
      → tag_token (page_of ns) local ≡ some token
      → ReadsText unicode namespace table text inside
      → ReadsChildren children (page_of ns) page' below
      → ReadsElement
          (element ns local text children)
          page
          page'
          (opening_bytes page ns token true ++ (inside ++ (below ++ 0x01 ∷ [])))
  unfolding element_pieces count depth
  filled-ReadsElement ns local text children token page page' inside below full found texts nested
        rest stack elements o open_yet placed (deep, many, fits) =
      let q = qualified_name (page_of ns) local in
      let first = opening q (declared unicode namespace table elements) (not true) ∷ [] in
      let t = text_pieces unicode text in
      let c = children_pieces unicode children in
      let z = closing q ∷ [] in
      let whole : element_pieces unicode (declared unicode namespace table elements)
            (element ns local text children)
          ≡ first ++ (t ++ (c ++ z)) =
        rw (full) refl in
      let fits' : o.size + sizes unicode (first ++ (t ++ (c ++ z))) ≤ max_xml_bytes =
        subst (λ ps. o.size + sizes unicode ps ≤ max_xml_bytes) whole fits in
      let parts : sizes unicode (first ++ (t ++ (c ++ z)))
          ≡ sizes unicode first + (sizes unicode t + (sizes unicode c + sizes unicode z)) =
        omega (arith, sizes-append unicode first (t ++ (c ++ z)), sizes_three t c z) in
      let o₁ : Output = extend unicode o first in
      let o₂ : Output = extend unicode o₁ t in
      let o₃ : Output = extend unicode o₂ c in
      let after = 0x01 ∷ rest in
      let s₀ : Decoder =
        at (opening_bytes page ns token true ++ (inside ++ (below ++ after))) page stack elements
          o in
      let s₁ : Decoder =
        at (inside ++ (below ++ after)) (page_of ns) (q ∷ stack) (elements + 1) o₁ in
      let s₂ : Decoder = at (below ++ after) (page_of ns) (q ∷ stack) (elements + 1) o₂ in
      let s₃ : Decoder = at after page' (q ∷ stack) (elements + 1 + count_children children) o₃ in
      let s₄ : Decoder =
        at rest page' stack (elements + 1 + count_children children) (extend unicode o₃ z) in
      rw (append_assoc_four (opening_bytes page ns token true) inside below (0x01 ∷ []) rest) (
        same_state rest page' stack (elements + 1 + count_children children)
          (elements + (1 + count_children children)) (extend unicode o₃ z)
          (extend unicode o (
            element_pieces unicode (declared unicode namespace table elements)
              (element ns local text children)))
          s₀ (omega arith) (extend_four o first t c z ∙ ap (λ ps. extend unicode o ps) (sym whole))
          (two_runs-Reaches unicode namespace table s₀ s₁ s₄
            (open_tag-Reaches unicode namespace table page ns local token true
              (inside ++ (below ++ after)) stack elements o found open_yet (omega (arith, deep))
              (omega (arith, many)) placed (omega (arith, fits', parts)))
            (two_runs-Reaches unicode namespace table s₁ s₂ s₄
              (texts (below ++ after) (page_of ns) (elements + 1) q stack o₁
                (omega (arith, fits', parts)))
              (two_runs-Reaches unicode namespace table s₂ s₃ s₄
                (nested after q stack (elements + 1) o₂ (omega arith)
                  (omega (arith, deep), omega (arith, many), omega (arith, fits', parts)))
                (end_element-Reaches unicode namespace table rest page' q stack
                  (elements + 1 + count_children children) o₃ (omega (arith, fits', parts)))))))

  pub more-ReadsChildren :
      (e : Element) (tail : List ℕ) (more : Children) (page first last : ℕ)
      (own outer below : List ℕ)
      → ReadsElement e page first own
      → ReadsText unicode namespace table tail outer
      → ReadsChildren more first last below
      → ReadsChildren (child e tail more) page last (own ++ (outer ++ below))
  unfolding children_pieces count_children depth_children
  more-ReadsChildren e tail more page first last own outer below reads texts nested rest q stack
        elements o some_yet (deep, many, fits) =
      let a = element_pieces unicode "" e in
      let t = text_pieces unicode tail in
      let c = children_pieces unicode more in
      let parts : sizes unicode (a ++ (t ++ c))
          ≡ sizes unicode a + (sizes unicode t + sizes unicode c) =
        sizes_three a t c in
      let inner : declared unicode namespace table elements ≡ "" = ground arith in
      let s₀ : Decoder = at (own ++ (outer ++ (below ++ rest))) page (q ∷ stack) elements o in
      let s₁ : Decoder =
        at (outer ++ (below ++ rest)) first (q ∷ stack) (elements + count e) (extend unicode o a) in
      let s₂ : Decoder =
        at (below ++ rest) first (q ∷ stack) (elements + count e)
          (extend unicode (extend unicode o a) t) in
      let s₃ : Decoder =
        at rest last (q ∷ stack) (elements + count e + count_children more)
          (extend unicode (extend unicode (extend unicode o a) t) c) in
      let one : Reaches unicode namespace table s₀ s₁ =
        subst
          (λ (d : String).
            Room (q ∷ stack) elements o (depth e) (count e) (element_pieces unicode d e)
            → Reaches unicode namespace table s₀ (
                at (outer ++ (below ++ rest)) first (q ∷ stack) (elements + count e)
                  (extend unicode o (element_pieces unicode d e))))
          inner (reads (outer ++ (below ++ rest)) (q ∷ stack) elements o refl (ground arith))
          (omega (arith, deep), omega (arith, many), omega (arith, fits, parts)) in
      rw (append_assoc_three own outer below rest) (
        same_state rest last (q ∷ stack) (elements + count e + count_children more)
          (elements + (count e + count_children more))
          (extend unicode (extend unicode (extend unicode o a) t) c)
          (extend unicode o (a ++ (t ++ c))) s₀ (omega arith) (extend_three o a t c)
          (two_runs-Reaches unicode namespace table s₀ s₁ s₃ one (
            two_runs-Reaches unicode namespace table s₁ s₂ s₃
              (texts (below ++ rest) first (elements + count e) q stack (extend unicode o a)
                (omega (arith, fits, parts)))
              (nested rest q stack (elements + count e) (extend unicode (extend unicode o a) t)
                (omega (arith, some_yet))
                (omega (arith, deep), omega (arith, many), omega (arith, fits, parts))))))
