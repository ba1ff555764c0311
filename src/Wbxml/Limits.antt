-- ===== src/Wbxml/Limits.antt =====
-- src/acs/protocol/omadm/wbxml.py: what `decode` returns, whatever it was given.
use auto_configuration_serve.Prelude.{
  ℕ, ◌+◌, ◌-◌, ◌≤◌, ◌≡◌, refl, sym, ap, ◌∙◌, String, Bool, true, false, some, List, [], ◌∷◌, ◌++◌,
  length, str_eq, eq_refl, ltb, leb, ◌==◌, arith, not, ◌&&◌, ok, if◌then◌else◌, Bool-cases,
  Option-cases, Result-cases, inl, inr,
}
use mathlib.Core.Path.{subst}
use auto_configuration_serve.Wbxml.{max_xml_bytes, max_depth, max_elements}
use auto_configuration_serve.Wbxml.Decode.{
  Unicode, Piece, opening, closing, characters, Output, Decoder, all_valid, qualified_name,
  declaration_of, utf8, piece_size, write_piece, byte, switch_page, end_element, raw_text,
  text_token, open_element,
}
use auto_configuration_serve.Wbxml.Reach.{at, sizes, sizes-append}
use auto_configuration_serve.Wbxml.Reader.{
  no_tags, reading, root_declaration, in_place, read_piece, read_pieces, read_pieces-append,
}

module _ (unicode : Unicode) where
  -- The output so far is read, its size is that of its pieces, and within the limit.
  abbrev pub Kept : List String → ℕ → Output → Type 0
  Kept stack elements o =
      (read_pieces (reading [] 0) o.pieces ≡ some (reading stack elements))
      × (o.size ≡ sizes unicode o.pieces)
      × (o.size ≤ max_xml_bytes)

  write_piece-ok :
      (o o' : Output) (p : Piece)
      → write_piece unicode o p ≡ ok o'
      → (o'.pieces ≡ o.pieces ++ p ∷ [])
        × (o'.size ≡ o.size + piece_size unicode p)
        × (piece_size unicode p ≤ max_xml_bytes - o.size)
  unfolding write_piece
  write_piece-ok o o' p e =
      elim (Bool-cases (ltb (max_xml_bytes - o.size) (piece_size unicode p))) [
        | inl large ↦ absurd (ground arith)
        | inr fits ↦ (ground arith, ground arith, ground arith)
      ]

  write_piece-Kept :
      (stack stack' : List String) (elements elements' : ℕ) (o o' : Output) (p : Piece)
      → Kept stack elements o
      → read_piece (reading stack elements) p ≡ some (reading stack' elements')
      → write_piece unicode o p ≡ ok o'
      → Kept stack' elements' o'
  write_piece-Kept stack stack' elements elements' o o' p (read, sized, small) step e =
      let (pieces, size, fits) = write_piece-ok o o' p e in
      let one : sizes unicode (o.pieces ++ p ∷ []) ≡ sizes unicode o.pieces + piece_size unicode p =
        omega (arith, sizes-append unicode o.pieces (p ∷ [])) in
      (
        ap (λ t. read_pieces (reading [] 0) t) pieces
            ∙ read_pieces-append (reading [] 0) (reading stack elements) o.pieces p read
            ∙ step,
        size ∙ omega (arith, one, sized) ∙ ap (λ t. sizes unicode t) (sym pieces),
        omega (arith, size, fits, small),
      )

  utf8-valid : (raw text : List ℕ) → utf8 unicode raw ≡ ok text → all_valid text ≡ true
  unfolding utf8
  utf8-valid raw text e = elim (Option-cases (unicode.decode_utf8 raw)) [
    | inl broken ↦ absurd (ground arith)
    | inr (text', decoded) ↦ elim (Bool-cases (all_valid text')) [
      | inl valid ↦ ground arith
      | inr invalid ↦ absurd (ground arith)
    ]
  ]

  module _ (namespace : String) (table : List ℕ) where
    abbrev pub KeptDecoder : Decoder → Type 0
    KeptDecoder d = Kept d.stack d.elements d.output

    pub switch_page-Kept :
        (rest : List ℕ) (page : ℕ) (stack : List String) (elements : ℕ) (o : Output) (d' : Decoder)
        → Kept stack elements o
        → switch_page unicode namespace table (at rest page stack elements o) ≡ ok d'
        → KeptDecoder d'
    unfolding switch_page byte
    switch_page-Kept [] page stack elements o d' kept e = absurd (ground arith)
    switch_page-Kept (b ∷ rest) page stack elements o d' kept e = elim (Bool-cases (leb 2 b)) [
      | inl beyond ↦ absurd (ground arith)
      | inr known ↦
          let there : at rest b stack elements o ≡ d' = ground arith in subst KeptDecoder there kept
    ]

    pub end_element-Kept :
        (rest : List ℕ) (page : ℕ) (stack : List String) (elements : ℕ) (o : Output) (d' : Decoder)
        → Kept stack elements o
        → end_element unicode namespace table (at rest page stack elements o) ≡ ok d'
        → KeptDecoder d'
    unfolding end_element read_piece
    end_element-Kept rest page [] elements o d' kept e = absurd (ground arith)
    end_element-Kept rest page (q ∷ stack) elements o d' kept e =
        elim (Result-cases (write_piece unicode o (closing q))) [
          | inl (x, r) ↦ absurd (ground arith)
          | inr (o', r) ↦
              let there : at rest page stack elements o' ≡ d' = ground arith in
              let step : read_piece (reading (q ∷ stack) elements) (closing q)
                  ≡ some (reading stack elements) =
                rw (eq_refl q) refl in
              subst KeptDecoder there
                (write_piece-Kept (q ∷ stack) stack elements elements o o' (closing q) kept step r)
        ]

    pub text_token-Kept :
        (token : ℕ) (rest : List ℕ) (page : ℕ) (stack : List String) (elements : ℕ) (o : Output)
        (d' : Decoder)
        → Kept stack elements o
        → text_token unicode namespace table (at rest page stack elements o) token ≡ ok d'
        → KeptDecoder d'
    unfolding text_token read_piece
    text_token-Kept token rest page [] elements o d' kept e = absurd (ground arith)
    text_token-Kept token rest page (q ∷ stack) elements o d' kept e =
        elim (Result-cases (raw_text unicode namespace table token rest)) [
          | inl (x, r₁) ↦ absurd (ground arith)
          | inr ((raw, after), r₁) ↦ elim (Result-cases (utf8 unicode raw)) [
            | inl (x, r₂) ↦ absurd (ground arith)
            | inr (text, r₂) ↦ elim (Result-cases (write_piece unicode o (characters text))) [
              | inl (x, r₃) ↦ absurd (ground arith)
              | inr (o', r₃) ↦
                  let there : at after page (q ∷ stack) elements o' ≡ d' = ground arith in
                  let step : read_piece (reading (q ∷ stack) elements) (characters text)
                      ≡ some (reading (q ∷ stack) elements) =
                    rw (utf8-valid raw text r₂) refl in
                  subst KeptDecoder there (
                    write_piece-Kept (q ∷ stack) (q ∷ stack) elements elements o o'
                      (characters text) kept step r₃)
            ]
          ]
        ]

    in_place-opening :
        (name : String) (page : ℕ) (stack : List String) (elements : ℕ)
        → root_declaration (declaration_of namespace) ≡ true
        → (no_tags stack && not (elements == 0)) ≡ false
        → (elements == 0 && not (page == 0 && str_eq name "SyncML")) ≡ false
        → in_place
            (reading stack elements)
            (qualified_name page name)
            (if elements == 0 then declaration_of namespace else "")
          ≡ true
    unfolding in_place
    in_place-opening name page stack elements root open_yet placed =
        elim (Bool-cases (elements == 0)) [
          | inl first ↦
              let syncml : (page == 0) ≡ true = ground arith in
              let named : str_eq name "SyncML" ≡ true = ground arith in
              rw (first, syncml, named) root
          | inr later ↦ let inside : no_tags stack ≡ false = ground arith in rw (later, inside) refl
        ]

    opening-read :
        (name : String) (content : Bool) (page : ℕ) (stack : List String) (elements : ℕ)
        → root_declaration (declaration_of namespace) ≡ true
        → (no_tags stack && not (elements == 0)) ≡ false
        → ltb (length stack) max_depth ≡ true
        → ltb elements max_elements ≡ true
        → (elements == 0 && not (page == 0 && str_eq name "SyncML")) ≡ false
        → read_piece (reading stack elements) (
            opening
              (qualified_name page name)
              (if elements == 0 then declaration_of namespace else "")
              (not content))
          ≡ some
              (reading (if content then qualified_name page name ∷ stack else stack) (elements + 1))
    unfolding read_piece
    opening-read name true page stack elements root open_yet shallow few placed =
        rw (in_place-opening name page stack elements root open_yet placed, shallow, few) refl
    opening-read name false page stack elements root open_yet shallow few placed =
        rw (in_place-opening name page stack elements root open_yet placed, shallow, few) refl

    pub open_element-Kept :
        (name : String) (content : Bool) (rest : List ℕ) (page : ℕ) (stack : List String)
        (elements : ℕ) (o : Output) (d' : Decoder)
        → root_declaration (declaration_of namespace) ≡ true
        → (no_tags stack && not (elements == 0)) ≡ false
        → Kept stack elements o
        → open_element unicode namespace table (at rest page stack elements o) name content ≡ ok d'
        → KeptDecoder d'
    unfolding open_element
    open_element-Kept name content rest page stack elements o d' root open_yet kept e =
        let piece =
          opening (qualified_name page name)
            (if elements == 0 then declaration_of namespace else "") (not content) in
        elim (Bool-cases (leb max_depth (length stack))) [
          | inl deep ↦ absurd (ground arith)
          | inr shallow ↦ elim (Bool-cases (ltb max_elements (elements + 1))) [
            | inl many ↦ absurd (ground arith)
            | inr few ↦
                elim (Bool-cases (elements == 0 && not (page == 0 && str_eq name "SyncML"))) [
                  | inl misplaced ↦ absurd (ground arith)
                  | inr placed ↦ elim (Result-cases (write_piece unicode o piece)) [
                    | inl (x, r) ↦ absurd (ground arith)
                    | inr (o', r) ↦
                        let stack' = if content then qualified_name page name ∷ stack else stack in
                        let there : at rest page stack' (elements + 1) o' ≡ d' = ground arith in
                        subst KeptDecoder there (
                          write_piece-Kept stack stack' elements (elements + 1) o o' piece kept
                            (opening-read name content page stack elements root open_yet
                              (ground arith) (ground arith) placed)
                            r)
                  ]
                ]
          ]
        ]
