-- ===== src/Wbxml/Reach.antt =====
-- src/acs/protocol/omadm/wbxml.py, the loop of `decode`: from one state to another, with enough fuel.
use auto_configuration_serve.Prelude.{
  ℕ, zero, suc, ◌+◌, ◌-◌, ◌≤◌, ◌≡◌, refl, ◌∙◌, String, false, List, [], ◌∷◌, ◌++◌, length, ltb,
  arith, ok,
}
use mathlib.Core.List.{append-nil, append_assoc}
use auto_configuration_serve.Wbxml.{max_xml_bytes}
use auto_configuration_serve.Wbxml.Decode.{
  Unicode, Piece, Output, Decoder, piece_size, write_piece, token_step, is_done, decode_tokens,
}

abbrev pub at : List ℕ → ℕ → List String → ℕ → Output → Decoder
at rest page stack elements output = record {
  rest = rest;
  page = page;
  stack = stack;
  elements = elements;
  output = output;
}

module _ (unicode : Unicode) where
  abbrev pub sizes : List Piece → ℕ
  sizes [] = 0
  sizes (p ∷ ps) = piece_size unicode p + sizes ps

  -- An output with more pieces.
  abbrev pub extend : Output → List Piece → Output
  extend o ps = record { pieces = o.pieces ++ ps; size = o.size + sizes ps }

  pub sizes-append : (ps qs : List Piece) → sizes (ps ++ qs) ≡ sizes ps + sizes qs
  sizes-append [] qs = omega arith
  sizes-append (p ∷ ps) qs = omega (arith, sizes-append ps qs)

  pub extend-nil : (o : Output) → extend o [] ≡ o
  extend-nil o = let same : o.size + 0 ≡ o.size = omega arith in rw (append-nil o.pieces, same) refl

  pub extend-extend :
      (o : Output) (ps qs : List Piece) → extend (extend o ps) qs ≡ extend o (ps ++ qs)
  extend-extend o ps qs =
      let more : o.size + sizes ps + sizes qs ≡ o.size + sizes (ps ++ qs) =
        omega (arith, sizes-append ps qs) in
      rw (append_assoc o.pieces ps qs, more) refl

  pub write_piece-extend :
      (o : Output) (p : Piece)
      → o.size + piece_size unicode p ≤ max_xml_bytes
      → write_piece unicode o p ≡ ok (extend o (p ∷ []))
  unfolding write_piece
  write_piece-extend o p fits =
      let room : ltb (max_xml_bytes - o.size) (piece_size unicode p) ≡ false = ground arith in
      let same : o.size + (piece_size unicode p + 0) ≡ o.size + piece_size unicode p =
        omega arith in
      rw (room, same) refl

  module _ (namespace : String) (table : List ℕ) where
    -- With fuel for what is left, the loop goes on from the second state, with fuel for what is
    -- left then.
    abbrev pub Reaches : Decoder → Decoder → Type 0
    Reaches d d' =
        (k : ℕ)
        → length d.rest ≤ k
        → (j : ℕ) × (length d'.rest ≤ j)
          × (decode_tokens unicode namespace table k d ≡ decode_tokens unicode namespace table j d')

    pub no_step-Reaches : (d : Decoder) → Reaches d d
    no_step-Reaches d k le = (k, le, refl)

    pub two_runs-Reaches : (a b c : Decoder) → Reaches a b → Reaches b c → Reaches a c
    two_runs-Reaches a b c first second k le =
        let (j, lj, e) = first k le in let (i, li, f) = second j lj in (i, li, e ∙ f)

    pub decode_tokens-step :
        (k token : ℕ) (rest : List ℕ) (page : ℕ) (stack : List String) (elements : ℕ) (o : Output)
        (d' : Decoder)
        → is_done unicode namespace table (at (token ∷ rest) page stack elements o) ≡ false
        → token_step unicode namespace table (at rest page stack elements o) token ≡ ok d'
        → decode_tokens unicode namespace table (suc k) (at (token ∷ rest) page stack elements o)
          ≡ decode_tokens unicode namespace table k d'
    unfolding decode_tokens
    decode_tokens-step k token rest page stack elements o d' open_yet step =
        rw (open_yet, step) refl

    pub token_step-Reaches :
        (token : ℕ) (rest : List ℕ) (page : ℕ) (stack : List String) (elements : ℕ) (o : Output)
        (d' : Decoder)
        → is_done unicode namespace table (at (token ∷ rest) page stack elements o) ≡ false
        → token_step unicode namespace table (at rest page stack elements o) token ≡ ok d'
        → length d'.rest ≤ length rest
        → Reaches (at (token ∷ rest) page stack elements o) d'
    token_step-Reaches token rest page stack elements o d' open_yet step shorter zero le =
        absurd (omega arith)
    token_step-Reaches token rest page stack elements o d' open_yet step shorter (suc k) le = (
      k,
      omega (arith, shorter, le),
      decode_tokens-step k token rest page stack elements o d' open_yet step,
    )
