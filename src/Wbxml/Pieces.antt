-- ===== src/Wbxml/Pieces.antt =====
-- src/acs/protocol/omadm/wbxml.py: the XML of a tree of elements, written directly from the tree, and
-- what of it the decoder limits.
use auto_configuration_serve.Prelude.{
  ℕ, ◌+◌, String, Bool, true, false, none, some, List, [], ◌∷◌, ◌++◌, not, ◌&&◌, if◌then◌else◌,
}
use Prim.Native.Nat.{max}
use auto_configuration_serve.Wbxml.Decode.{
  Unicode, Piece, opening, closing, characters, all_valid, qualified_name,
}
use auto_configuration_serve.Wbxml.Encode.{
  Element, element, Children, no_more, child, page_of, has_content,
}

unfoldable pub nul_free : List ℕ → Bool
nul_free [] = true
nul_free (b ∷ bs) = elim b [ ℕ.zero ↦ false | ℕ.suc n ↦ nul_free bs ]

module _ (unicode : Unicode) where
  -- The characters of a text in UTF-8.
  unfoldable pub chars : List ℕ → List ℕ
  chars raw = elim (unicode.decode_utf8 raw) [ none ↦ [] | some text ↦ text ]

  -- No NUL, UTF-8, and of characters that XML has.
  unfoldable pub readable : List ℕ → Bool
  unfolding nul_free all_valid
  readable [] = true
  readable (b ∷ raw) =
      nul_free (b ∷ raw)
      && elim (unicode.decode_utf8 (b ∷ raw)) [ none ↦ false | some text ↦ all_valid text ]

  unfoldable pub text_pieces : List ℕ → List Piece
  unfolding chars
  text_pieces [] = []
  text_pieces (b ∷ raw) = characters (chars (b ∷ raw)) ∷ []

  unfoldable mutual
    unfolding readable

    pub readable_element : Element → Bool
    readable_element (element ns local text children) = readable text && readable_children children

    pub readable_children : Children → Bool
    readable_children no_more = true
    readable_children (child e tail more) =
        readable_element e && (readable tail && readable_children more)

  -- The pieces of an element; the declaration is the root's.
  unfoldable mutual
    unfolding text_pieces

    pub element_pieces : (declaration : String) → Element → List Piece
    element_pieces declaration (element ns local text children) =
        opening (qualified_name (page_of ns) local) declaration (not (has_content text children))
        ∷ (if has_content text children
            then text_pieces text
              ++ (children_pieces children ++ closing (qualified_name (page_of ns) local) ∷ [])
            else [])

    pub children_pieces : Children → List Piece
    children_pieces no_more = []
    children_pieces (child e tail more) =
        element_pieces "" e ++ (text_pieces tail ++ children_pieces more)

-- The number of elements, and how deep they are nested.
unfoldable mutual
  pub count : Element → ℕ
  count (element ns local text children) = 1 + count_children children

  pub count_children : Children → ℕ
  count_children no_more = 0
  count_children (child e tail more) = count e + count_children more

unfoldable mutual
  pub depth : Element → ℕ
  depth (element ns local text children) = 1 + depth_children children

  pub depth_children : Children → ℕ
  depth_children no_more = 0
  depth_children (child e tail more) = max (depth e) (depth_children more)
