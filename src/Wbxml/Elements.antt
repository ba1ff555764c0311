-- ===== src/Wbxml/Elements.antt =====
-- src/acs/protocol/omadm/wbxml.py: an element that `element_content` writes is read back, with
-- everything in it.
use auto_configuration_serve.Prelude.{
  ℕ, ◌+◌, ◌/◌, ◌%◌, ◌≤◌, ◌<◌, ◌≡◌, refl, ◌∙◌, String, Bool, true, false, some, List, [], ◌∷◌, ◌++◌,
  length, str_eq, ltb, leb, ◌==◌, arith, not, ◌&&◌, ok, if◌then◌else◌, Bool-cases, inl, inr,
}
use mathlib.Core.Path.{subst}
use mathlib.Core.List.{append_assoc}
use auto_configuration_serve.Wbxml.{max_xml_bytes, max_depth, max_elements, tag_token}
use auto_configuration_serve.Wbxml.Tags.{tag_name-tag_token}
use auto_configuration_serve.Wbxml.Decode.{
  Unicode, opening, closing, Output, Decoder, qualified_name, declaration_of, switch_page,
  end_element, open_element, tag_step, token_step, is_done,
}
use auto_configuration_serve.Wbxml.Encode.{page_of}
use auto_configuration_serve.Wbxml.Reach.{
  at, sizes, extend, write_piece-extend, Reaches, no_step-Reaches, two_runs-Reaches,
  token_step-Reaches,
}
use auto_configuration_serve.Wbxml.Written.{opening_bytes}

module _ (unicode : Unicode) (namespace : String) (table : List ℕ) where
  -- Where the state may open an element.
  abbrev pub IsOpen : List String → ℕ → Type 0
  IsOpen stack elements =
      is_done unicode namespace table (at [] 0 stack elements (record { pieces = []; size = 0 }))
      ≡ false

  abbrev pub declared : ℕ → String
  declared elements = if elements == 0 then declaration_of namespace else ""

  page_of-bound : (ns : String) → leb 2 (page_of ns) ≡ false
  page_of-bound ns = ground arith

  switched :
      (ns : String) (rest : List ℕ) (page : ℕ) (stack : List String) (elements : ℕ) (o : Output)
      → token_step unicode namespace table (at (page_of ns ∷ rest) page stack elements o) 0x00
        ≡ ok (at rest (page_of ns) stack elements o)
  unfolding token_step switch_page
  switched ns rest page stack elements o = rw (page_of-bound ns) refl

  switch_page-Reaches :
      (ns : String) (rest : List ℕ) (page : ℕ) (stack : List String) (elements : ℕ) (o : Output)
      → IsOpen stack elements
      → Reaches unicode namespace table
          (at
            ((if page_of ns == page then [] else 0x00 ∷ page_of ns ∷ []) ++ rest)
            page
            stack
            elements
            o)
          (at rest (page_of ns) stack elements o)
  switch_page-Reaches ns rest page stack elements o open_yet =
      elim (Bool-cases (page_of ns == page)) [
        | inl same ↦
            let already : page ≡ page_of ns = ground arith in
            rw (same) (
              subst
                (λ (t : ℕ).
                  Reaches unicode namespace table (at rest page stack elements o)
                    (at rest t stack elements o))
                already (no_step-Reaches unicode namespace table (at rest page stack elements o)))
        | inr other ↦ rw (other) (
            token_step-Reaches unicode namespace table 0x00 (page_of ns ∷ rest) page stack elements
              o (at rest (page_of ns) stack elements o) open_yet
              (switched ns rest page stack elements o) (omega arith))
      ]

  open_element-extend :
      (rest : List ℕ) (page : ℕ) (name : String) (content : Bool) (stack : List String)
      (elements : ℕ) (o : Output)
      → length stack < max_depth
      → elements < max_elements
      → (elements == 0 && not (page == 0 && str_eq name "SyncML")) ≡ false
      → o.size
          + sizes unicode
              (opening (qualified_name page name) (declared elements) (not content) ∷ [])
        ≤ max_xml_bytes
      → open_element unicode namespace table (at rest page stack elements o) name content
        ≡ ok (
            at rest page
              (if content then qualified_name page name ∷ stack else stack)
              (elements + 1)
              (extend unicode o
                (opening (qualified_name page name) (declared elements) (not content) ∷ [])))
  unfolding open_element
  open_element-extend rest page name content stack elements o shallow few root fits =
      let piece = opening (qualified_name page name) (declared elements) (not content) in
      let room_above : leb max_depth (length stack) ≡ false = ground arith in
      let one_more : ltb max_elements (elements + 1) ≡ false = ground arith in
      rw (room_above, one_more, root, write_piece-extend unicode o piece (omega (arith, fits))) refl

  tag_step-open_element :
      (rest : List ℕ) (page token : ℕ) (name : String) (content : Bool) (stack : List String)
      (elements : ℕ) (o : Output)
      → tag_token page name ≡ some token
      → token_step unicode namespace table
          (at rest page stack elements o)
          (if content then token + 64 else token)
        ≡ open_element unicode namespace table (at rest page stack elements o) name content
  unfolding token_step tag_step
  tag_step-open_element rest page token name true stack elements o e =
      let (named, low, high) = tag_name-tag_token page token name e in
      let own : (token + 64) % 64 ≡ token = omega arith in
      let content : (token + 64) / 64 % 2 ≡ 1 = omega arith in ground arith
  tag_step-open_element rest page token name false stack elements o e =
      let (named, low, high) = tag_name-tag_token page token name e in
      let own : token % 64 ≡ token = omega arith in
      let content : token / 64 % 2 ≡ 0 = omega arith in ground arith

  pub open_tag-Reaches :
      (page : ℕ) (ns local : String) (token : ℕ) (content : Bool) (rest : List ℕ)
      (stack : List String) (elements : ℕ) (o : Output)
      → tag_token (page_of ns) local ≡ some token
      → IsOpen stack elements
      → length stack < max_depth
      → elements < max_elements
      → (elements == 0 && not (page_of ns == 0 && str_eq local "SyncML")) ≡ false
      → o.size
          + sizes unicode
              (opening (qualified_name (page_of ns) local) (declared elements) (not content) ∷ [])
        ≤ max_xml_bytes
      → Reaches unicode namespace table
          (at (opening_bytes page ns token content ++ rest) page stack elements o)
          (at rest
            (page_of ns)
            (if content then qualified_name (page_of ns) local ∷ stack else stack)
            (elements + 1)
            (extend unicode o
              (opening (qualified_name (page_of ns) local) (declared elements) (not content) ∷ [])))
  open_tag-Reaches page ns local token content rest stack elements o found open_yet shallow few root
        fits =
      let tag : ℕ = if content then token + 64 else token in
      let qualified = qualified_name (page_of ns) local in
      let there : Decoder =
        at rest (page_of ns) (if content then qualified ∷ stack else stack) (elements + 1)
          (extend unicode o (opening qualified (declared elements) (not content) ∷ [])) in
      rw (append_assoc (if page_of ns == page then [] else 0x00 ∷ page_of ns ∷ []) (tag ∷ []) rest)
        (two_runs-Reaches unicode namespace table
          (at ((if page_of ns == page then [] else 0x00 ∷ page_of ns ∷ []) ++ tag ∷ rest) page stack
            elements o)
          (at (tag ∷ rest) (page_of ns) stack elements o) there
          (switch_page-Reaches ns (tag ∷ rest) page stack elements o open_yet)
          (token_step-Reaches unicode namespace table tag rest (page_of ns) stack elements o there
            open_yet
            (tag_step-open_element rest (page_of ns) token local content stack elements o found
              ∙ open_element-extend rest (page_of ns) local content stack elements o shallow few
                  root fits)
            (omega arith)))

  ended :
      (rest : List ℕ) (page : ℕ) (q : String) (stack : List String) (elements : ℕ) (o : Output)
      → o.size + sizes unicode (closing q ∷ []) ≤ max_xml_bytes
      → token_step unicode namespace table (at rest page (q ∷ stack) elements o) 0x01
        ≡ ok (at rest page stack elements (extend unicode o (closing q ∷ [])))
  unfolding token_step end_element
  ended rest page q stack elements o fits =
      rw (write_piece-extend unicode o (closing q) (omega (arith, fits))) refl

  pub end_element-Reaches :
      (rest : List ℕ) (page : ℕ) (q : String) (stack : List String) (elements : ℕ) (o : Output)
      → o.size + sizes unicode (closing q ∷ []) ≤ max_xml_bytes
      → Reaches unicode namespace table
          (at (0x01 ∷ rest) page (q ∷ stack) elements o)
          (at rest page stack elements (extend unicode o (closing q ∷ [])))
  end_element-Reaches rest page q stack elements o fits =
      token_step-Reaches unicode namespace table 0x01 rest page (q ∷ stack) elements o
        (at rest page stack elements (extend unicode o (closing q ∷ []))) refl
        (ended rest page q stack elements o fits) (omega arith)
