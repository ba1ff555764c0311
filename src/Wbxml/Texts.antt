-- ===== src/Wbxml/Texts.antt =====
-- src/acs/protocol/omadm/wbxml.py: a text that `text_content` writes is read back.
use auto_configuration_serve.Prelude.{
  ℕ, zero, suc, ◌+◌, ◌≤◌, ◌≡◌, refl, ap, ◌∙◌, String, Bool, true, false, some, List, [], ◌∷◌, ◌++◌,
  length, length-append, take, drop, ltb, arith, ok, Option-cases, inl, inr, >>=-eq-ok,
}
use mathlib.Core.Path.{subst}
use mathlib.Core.List.{append-nil, append_assoc}
use auto_configuration_serve.Wbxml.{max_xml_bytes, mb_uint32}
use auto_configuration_serve.Wbxml.Integers.{integer-mb_uint32}
use auto_configuration_serve.Wbxml.Decode.{
  Unicode, characters, Output, Decoder, utf8, until_nul, table_string, take_bytes, inline, raw_text,
  text_token, token_step,
}
use auto_configuration_serve.Wbxml.Encode.{offset_of, write_bytes, text_bytes, text_content}
use auto_configuration_serve.Wbxml.Written.{write_bytes-ok}
use auto_configuration_serve.Wbxml.Pieces.{nul_free, chars, readable, text_pieces}
use auto_configuration_serve.Wbxml.Reach.{
  at, sizes, extend, extend-nil, write_piece-extend, Reaches, no_step-Reaches, token_step-Reaches,
}

pub until_nul-append :
    (raw rest : List ℕ) → nul_free raw ≡ true → until_nul (raw ++ 0 ∷ rest) ≡ some (raw, rest)
unfolding until_nul nul_free
until_nul-append [] rest free = refl
until_nul-append (zero ∷ raw) rest free = absurd (ground arith)
until_nul-append (suc n ∷ raw) rest free = rw (until_nul-append raw rest free) refl

take-append : (raw rest : List ℕ) → take (length raw) (raw ++ rest) ≡ raw
take-append [] rest = refl
take-append (b ∷ raw) rest = ap (λ t. b ∷ t) (take-append raw rest)

pub drop-append : (raw rest : List ℕ) → drop (length raw) (raw ++ rest) ≡ rest
drop-append [] rest = refl
drop-append (b ∷ raw) rest = drop-append raw rest

pub take_bytes-append : (raw rest : List ℕ) → take_bytes (length raw) (raw ++ rest) ≡ ok (raw, rest)
unfolding take_bytes
take_bytes-append raw rest =
    let enough : ltb (length (raw ++ rest)) (length raw) ≡ false =
      ground (arith, length-append raw rest) in
    rw (enough, take-append raw rest, drop-append raw rest) refl

module _ (unicode : Unicode) where
  pub utf8-chars :
      (b : ℕ) (raw : List ℕ)
      → readable unicode (b ∷ raw) ≡ true
      → utf8 unicode (b ∷ raw) ≡ ok (chars unicode (b ∷ raw))
  unfolding utf8 chars readable
  utf8-chars b raw good = ground arith

  pub nul_free-readable : (raw : List ℕ) → readable unicode raw ≡ true → nul_free raw ≡ true
  unfolding readable nul_free
  nul_free-readable [] good = refl
  nul_free-readable (b ∷ raw) good = ground arith

  module _ (namespace : String) (table : List ℕ) where
    text_token-extend :
        (token b : ℕ) (raw bytes rest : List ℕ) (page elements : ℕ) (q : String)
        (stack : List String) (o : Output)
        → raw_text unicode namespace table token bytes ≡ ok (b ∷ raw, rest)
        → readable unicode (b ∷ raw) ≡ true
        → o.size + sizes unicode (text_pieces unicode (b ∷ raw)) ≤ max_xml_bytes
        → text_token unicode namespace table (at bytes page (q ∷ stack) elements o) token
          ≡ ok
              (at rest page (q ∷ stack) elements (extend unicode o (text_pieces unicode (b ∷ raw))))
    unfolding text_token text_pieces
    text_token-extend token b raw bytes rest page elements q stack o read good fits =
        rw
          (
            read,
            utf8-chars b raw good,
            write_piece-extend unicode o (characters (chars unicode (b ∷ raw)))
                (omega (arith, fits)),
          )
          refl

    text_token-Reaches :
        (token b : ℕ) (raw bytes rest : List ℕ) (page elements : ℕ) (q : String)
        (stack : List String) (o : Output)
        → ((d : Decoder)
            → token_step unicode namespace table d token
              ≡ text_token unicode namespace table d token)
        → raw_text unicode namespace table token (bytes ++ rest) ≡ ok (b ∷ raw, rest)
        → readable unicode (b ∷ raw) ≡ true
        → o.size + sizes unicode (text_pieces unicode (b ∷ raw)) ≤ max_xml_bytes
        → Reaches unicode namespace table
            (at (token ∷ bytes ++ rest) page (q ∷ stack) elements o)
            (at rest page (q ∷ stack) elements (extend unicode o (text_pieces unicode (b ∷ raw))))
    text_token-Reaches token b raw bytes rest page elements q stack o which read good fits =
        token_step-Reaches unicode namespace table token (bytes ++ rest) page (q ∷ stack) elements o
          (at rest page (q ∷ stack) elements (extend unicode o (text_pieces unicode (b ∷ raw))))
          refl
          (which (at (bytes ++ rest) page (q ∷ stack) elements o)
            ∙ text_token-extend token b raw (bytes ++ rest) rest page elements q stack o read good
                fits)
          (omega (arith, length-append bytes rest))

    -- The texts that the encoder shares are in the table.
    abbrev pub HoldsTexts : List (List ℕ × ℕ) → Type 0
    HoldsTexts offsets =
        (raw : List ℕ) (n : ℕ)
        → nul_free raw ≡ true
        → offset_of offsets raw ≡ some n
        → table_string table n ≡ ok raw

    -- What one text gives in the decoder.
    abbrev pub ReadsText : List ℕ → List ℕ → Type 0
    ReadsText raw bytes =
        (rest : List ℕ) (page elements : ℕ) (q : String) (stack : List String) (o : Output)
        → o.size + sizes unicode (text_pieces unicode raw) ≤ max_xml_bytes
        → Reaches unicode namespace table (at (bytes ++ rest) page (q ∷ stack) elements o)
            (at rest page (q ∷ stack) elements (extend unicode o (text_pieces unicode raw)))

    text_token-ReadsText :
        (token b : ℕ) (raw bytes body : List ℕ)
        → ((d : Decoder)
            → token_step unicode namespace table d token
              ≡ text_token unicode namespace table d token)
        → ((rest : List ℕ)
            → raw_text unicode namespace table token (body ++ rest) ≡ ok (b ∷ raw, rest))
        → readable unicode (b ∷ raw) ≡ true
        → token ∷ body ≡ bytes
        → ReadsText (b ∷ raw) bytes
    text_token-ReadsText token b raw bytes body which read good e =
        subst (λ t. ReadsText (b ∷ raw) t) e
          (λ rest page elements q stack o fits.
            text_token-Reaches token b raw body rest page elements q stack o which (read rest) good
              fits)

    inline-raw_text :
        (raw rest : List ℕ)
        → nul_free raw ≡ true
        → raw_text unicode namespace table 0x03 ((raw ++ 0 ∷ []) ++ rest) ≡ ok (raw, rest)
    unfolding raw_text inline
    inline-raw_text raw rest free =
        let found : until_nul ((raw ++ 0 ∷ []) ++ rest) ≡ some (raw, rest) =
          ap until_nul (append_assoc raw (0 ∷ []) rest) ∙ until_nul-append raw rest free in
        ground arith

    shared-raw_text :
        (raw offset rest : List ℕ) (n : ℕ)
        → mb_uint32 n ≡ ok offset
        → table_string table n ≡ ok raw
        → raw_text unicode namespace table 0x83 (offset ++ rest) ≡ ok (raw, rest)
    unfolding raw_text
    shared-raw_text raw offset rest n e held = rw (integer-mb_uint32 n offset rest e, held) refl

    opaque-raw_text :
        (raw size rest : List ℕ)
        → mb_uint32 (length raw) ≡ ok size
        → raw_text unicode namespace table 0xc3 ((size ++ raw) ++ rest) ≡ ok (raw, rest)
    unfolding raw_text
    opaque-raw_text raw size rest e =
        rw (append_assoc size raw rest, integer-mb_uint32 (length raw) size (raw ++ rest) e)
          (take_bytes-append raw rest)

    text_bytes-ReadsText :
        (opaque : Bool) (offsets : List (List ℕ × ℕ)) (b : ℕ) (raw bytes : List ℕ)
        → HoldsTexts offsets
        → readable unicode (b ∷ raw) ≡ true
        → text_bytes namespace opaque offsets (b ∷ raw) ≡ ok bytes
        → ReadsText (b ∷ raw) bytes
    unfolding text_bytes token_step
    text_bytes-ReadsText true offsets b raw bytes holds good e =
        let text = b ∷ raw in
        let (size, e₁, e₂) =
          >>=-eq-ok (mb_uint32 (length text)) (λ size. ok (0xc3 ∷ size ++ text)) e in
        text_token-ReadsText 0xc3 b raw bytes (size ++ text) (λ d. refl)
          (λ rest. opaque-raw_text text size rest e₁) good (ground arith)
    text_bytes-ReadsText false offsets b raw bytes holds good e =
        let text = b ∷ raw in
        elim (Option-cases (offset_of offsets text)) [
          | inl absent ↦
              text_token-ReadsText 0x03 b raw bytes (text ++ 0 ∷ []) (λ d. refl)
                (λ rest. inline-raw_text text rest (nul_free-readable text good)) good
                (ground arith)
          | inr (n, found) ↦
              let (offset, e₁, e₂) =
                >>=-eq-ok (mb_uint32 n) (λ offset. ok (0x83 ∷ offset)) {result = bytes}
                  (ground arith) in
              let held = holds text n (nul_free-readable text good) found in
              text_token-ReadsText 0x83 b raw bytes offset (λ d. refl)
                (λ rest. shared-raw_text text offset rest n e₁ held) good (ground arith)
        ]

    pub text_content-ReadsText :
        (opaque : Bool) (offsets : List (List ℕ × ℕ)) (output raw output' : List ℕ)
        → HoldsTexts offsets
        → readable unicode raw ≡ true
        → text_content namespace opaque offsets output raw ≡ ok output'
        → (bytes : List ℕ) × (output' ≡ output ++ bytes) × ReadsText raw bytes
    unfolding text_content text_pieces
    text_content-ReadsText opaque offsets output [] output' holds good e = (
      [],
      ground (arith, append-nil output),
      λ rest page elements q stack o fits.
          rw (extend-nil unicode o)
            (no_step-Reaches unicode namespace table (at rest page (q ∷ stack) elements o)),
    )
    text_content-ReadsText opaque offsets output (b ∷ raw) output' holds good e =
        let (bytes, e₁, e₂) =
          >>=-eq-ok (text_bytes namespace opaque offsets (b ∷ raw))
            (λ bytes. write_bytes output bytes) e in
        (
          bytes,
          write_bytes-ok output bytes output' e₂,
          text_bytes-ReadsText opaque offsets b raw bytes holds good e₁,
        )
