-- ===== src/Wbxml/Reader.antt =====
-- src/acs/protocol/omadm/wbxml.py: a reader of the XML that `decode` writes, for what it promises: one
-- SyncML document, with the tags closed in order, within the limits.
use auto_configuration_serve.Prelude.{
  ℕ, ◌+◌, ◌≡◌, refl, ap, ◌∙◌, String, Bool, true, false, Option, none, some, List, [], ◌∷◌, ◌++◌,
  length, str_eq, ltb, ◌==◌, arith, not, ◌&&◌, ◌||◌, if◌then◌else◌,
}
use auto_configuration_serve.Wbxml.{max_depth, max_elements}
use auto_configuration_serve.Wbxml.Decode.{
  Piece, opening, closing, characters, all_valid, declaration_of,
}

-- The open tags, the last one first, and the number of tags opened so far.
pub record Reading : Type 0 where
  pub open_tags : List String
  pub opened : ℕ

abbrev pub reading : List String → ℕ → Reading
reading open_tags opened = record { open_tags = open_tags; opened = opened }

abbrev pub root_declaration : String → Bool
root_declaration declaration =
    str_eq declaration (declaration_of "SYNCML:SYNCML1.1")
    || str_eq declaration (declaration_of "SYNCML:SYNCML1.2")

abbrev pub no_tags : List String → Bool
no_tags [] = true
no_tags (q ∷ qs) = false

-- The first tag is the root, and nothing stands outside it.
unfoldable pub in_place : Reading → String → String → Bool
in_place r qualified declaration =
    if r.opened == 0
    then str_eq qualified "SyncML" && root_declaration declaration
    else not (no_tags r.open_tags) && str_eq declaration ""

unfoldable pub read_piece : Reading → Piece → Option Reading
unfolding in_place all_valid
read_piece r (opening qualified declaration empty) =
    if in_place r qualified declaration
      && (ltb (length r.open_tags) max_depth && ltb r.opened max_elements)
    then some (reading (if empty then r.open_tags else qualified ∷ r.open_tags) (r.opened + 1))
    else none
read_piece r (closing qualified) = elim r.open_tags [
  | [] ↦ none
  | q ∷ qs ↦ if str_eq q qualified then some (reading qs r.opened) else none
]
read_piece r (characters text) =
    if not (no_tags r.open_tags) && all_valid text then some r else none

unfoldable pub read_pieces : Reading → List Piece → Option Reading
unfolding read_piece
read_pieces r [] = some r
read_pieces r (p ∷ ps) = elim (read_piece r p) [ none ↦ none | some r' ↦ read_pieces r' ps ]

then_done :
    (r : Option Reading) → elim r as (λ _. Option Reading) [ none ↦ none | some r' ↦ some r' ] ≡ r
then_done none = refl
then_done (some r) = refl

pub read_pieces-append :
    (r r' : Reading) (ps : List Piece) (p : Piece)
    → read_pieces r ps ≡ some r'
    → read_pieces r (ps ++ p ∷ []) ≡ read_piece r' p
unfolding read_pieces
read_pieces-append r r' [] p e =
    let same : r ≡ r' = ground arith in
    then_done (read_piece r p) ∙ ap (λ (t : Reading). read_piece t p) same
read_pieces-append r r' (q ∷ ps) p e =
    step (λ t f. read_pieces-append t r' ps p f) (read_piece r q) e
  where
    step :
        ((t : Reading)
          → read_pieces t ps ≡ some r'
          → read_pieces t (ps ++ p ∷ []) ≡ read_piece r' p)
        → (o : Option Reading)
        → elim o as (λ _. Option Reading) [ none ↦ none | some t ↦ read_pieces t ps ] ≡ some r'
        → elim o as (λ _. Option Reading) [ none ↦ none | some t ↦ read_pieces t (ps ++ p ∷ []) ]
          ≡ read_piece r' p
    step ih none e' = absurd (ground arith)
    step ih (some t) e' = ih t e'
