-- ===== src/Wbxml/Total.antt =====
-- src/acs/protocol/omadm/wbxml.py: the loop of `decode` ends before its rounds do.
use auto_configuration_serve.Prelude.{
  ℕ, zero, suc, ◌+◌, ◌/◌, ◌%◌, ◌≤◌, ◌≢◌, refl, String, Bool, true, false, Option, none, some, List,
  [], ◌∷◌, length, ◌==◌, arith, not, Result, ok, raise, if◌then◌else◌,
}
use auto_configuration_serve.Wbxml.{
  WbxmlError, out_of_tokens, unsupported_version, unsupported_charset, unsupported_public_id,
  unsupported_page, unexpected_end, text_outside_root, exceeds_depth, exceeds_elements,
  root_not_syncml, attributes_not_supported, unsupported_global_token, unknown_tag_token,
  trailing_content, missing_root, missing_end, input_exceeds_limit, PublicId, integer, tag_name,
  public_ids,
}
use auto_configuration_serve.Wbxml.Decode.{
  Unicode, opening, qualified_name, declaration_of, closing, characters, Output, Decoder, Header,
  utf8, table_string, take_bytes, byte, write_piece, public_offset, identified, public_id_at,
  header, switch_page, end_element, raw_text, text_token, open_element, tag_step, token_step,
  is_done, decode_tokens, finished, start, decode,
}
use auto_configuration_serve.Wbxml.Reach.{at}
use auto_configuration_serve.Wbxml.Good.{
  Good, raised, returned, Any, Left, if-Good, weaker-Good, >>=-Good, le_self, byte-Good,
  integer-Good, take_bytes-Good, inline-Good, table_string-Good, utf8-Good, write_piece-Good,
  identified-Good, public_offset-Good,
}

module _ (unicode : Unicode) where
  header-Good : (payload : List ℕ) → Good Any (header unicode payload)
  unfolding header
  header-Good payload = >>=-Good (byte payload) _ (byte-Good payload) (λ (version, b₁) v₁.
      if-Good _ _ _ (raised unsupported_version refl) (
        >>=-Good (integer b₁) _ (integer-Good b₁) (λ (code, b₂) v₂.
          >>=-Good (public_offset unicode code b₂) _ (public_offset-Good unicode code b₂)
            (λ (offset, b₃) v₃. >>=-Good (integer b₃) _ (integer-Good b₃) (λ (charset, b₄) v₄.
              if-Good _ _ _ (raised unsupported_charset refl) (
                >>=-Good (integer b₄) _ (integer-Good b₄) (λ (size, b₅) v₅.
                  >>=-Good (take_bytes size b₅) _ (take_bytes-Good size b₅) (λ (table, b₆) v₆.
                    >>=-Good (identified unicode code offset table) _
                      (identified-Good unicode code offset table)
                      (λ key v₇. go table b₆ (public_id_at public_ids key))))))))))
    where
      go :
          (table rest : List ℕ) (found : Option PublicId)
          → Good Any (elim found as (λ _. Result WbxmlError Header) [
            | none ↦ raise unsupported_public_id
            | some p ↦ ok (record { namespace = p.namespace; table = table; rest = rest })
          ])
      go table rest none = raised unsupported_public_id refl
      go table rest (some p) = returned _ refl

  module _ (namespace : String) (table : List ℕ) where
    -- A state with no more bytes than these.
    abbrev Shorter : ℕ → Decoder → Type 0
    Shorter n d = length d.rest ≤ n

    switch_page-Good :
        (d : Decoder) → Good (Shorter (length d.rest)) (switch_page unicode namespace table d)
    unfolding switch_page
    switch_page-Good d =
        >>=-Good (byte d.rest) _ (byte-Good d.rest) (λ (page, rest) shorter.
          if-Good _ _ _ (raised unsupported_page refl) (returned _ shorter))

    end_element-Good :
        (rest : List ℕ) (page : ℕ) (stack : List String) (elements : ℕ) (o : Output)
        → Good
            (Shorter (length rest))
            (end_element unicode namespace table (at rest page stack elements o))
    unfolding end_element
    end_element-Good rest page [] elements o = raised unexpected_end refl
    end_element-Good rest page (q ∷ stack) elements o =
        >>=-Good (write_piece unicode o (closing q)) _ (write_piece-Good unicode o (closing q))
          (λ o' good. returned _ (omega arith))

    raw_text-Good :
        (token : ℕ) (bytes : List ℕ)
        → Good (Left (length bytes)) (raw_text unicode namespace table token bytes)
    unfolding raw_text
    raw_text-Good token bytes = if-Good _ _ _ (inline-Good bytes) (
        >>=-Good (integer bytes) _ (integer-Good bytes) (λ (n, rest) shorter.
          if-Good _ _ _
            (>>=-Good (table_string table n) _ (table_string-Good table n)
              (λ raw good. returned _ shorter))
            (weaker-Good (Left (length rest)) (Left (length bytes)) _
              (λ x less. omega (arith, less, shorter)) (take_bytes-Good n rest))))

    text_token-Good :
        (token : ℕ) (rest : List ℕ) (page : ℕ) (stack : List String) (elements : ℕ) (o : Output)
        → Good
            (Shorter (length rest))
            (text_token unicode namespace table (at rest page stack elements o) token)
    unfolding text_token
    text_token-Good token rest page [] elements o = raised text_outside_root refl
    text_token-Good token rest page (q ∷ stack) elements o =
        >>=-Good (raw_text unicode namespace table token rest) _ (raw_text-Good token rest)
          (λ (raw, after) shorter.
            >>=-Good (utf8 unicode raw) _ (utf8-Good unicode raw) (λ text good.
              >>=-Good (write_piece unicode o (characters text)) _
                (write_piece-Good unicode o (characters text)) (λ o' good'. returned _ shorter)))

    open_element-Good :
        (name : String) (content : Bool) (rest : List ℕ) (page : ℕ) (stack : List String)
        (elements : ℕ) (o : Output)
        → Good
            (Shorter (length rest))
            (open_element unicode namespace table (at rest page stack elements o) name content)
    unfolding open_element
    open_element-Good name content rest page stack elements o =
        let q = qualified_name page name in
        let declaration = if elements == 0 then declaration_of namespace else "" in
        let piece = opening q declaration (not content) in
        if-Good _ _ _ (raised exceeds_depth refl) (
          if-Good _ _ _ (raised exceeds_elements refl) (
            if-Good _ _ _ (raised root_not_syncml refl) (
              >>=-Good (write_piece unicode o piece)
                (λ o'. ok (at rest page (if content then q ∷ stack else stack) (elements + 1) o'))
                (write_piece-Good unicode o piece)
                (λ o' good. returned _ (le_self (length rest))))))

    tag_step-Good :
        (token : ℕ) (rest : List ℕ) (page : ℕ) (stack : List String) (elements : ℕ) (o : Output)
        → Good
            (Shorter (length rest))
            (tag_step unicode namespace table (at rest page stack elements o) token)
    unfolding tag_step
    tag_step-Good token rest page stack elements o =
        if-Good _ _ _ (raised attributes_not_supported refl)
          (if-Good _ _ _ (raised unsupported_global_token refl) (go (tag_name page (token % 64))))
      where
        go :
            (found : Option String)
            → Good (Shorter (length rest)) (elim found as (λ _. Result WbxmlError Decoder) [
              | none ↦ raise unknown_tag_token
              | some name ↦
                  open_element unicode namespace table
                    (at rest page stack elements o)
                    name
                    (token / 64 % 2 == 1)
            ])
        go none = raised unknown_tag_token refl
        go (some name) = open_element-Good name (token / 64 % 2 == 1) rest page stack elements o

    token_step-Good :
        (token : ℕ) (rest : List ℕ) (page : ℕ) (stack : List String) (elements : ℕ) (o : Output)
        → Good
            (Shorter (length rest))
            (token_step unicode namespace table (at rest page stack elements o) token)
    unfolding token_step
    token_step-Good token rest page stack elements o =
        if-Good (token == 0x00) _ _ (switch_page-Good (at rest page stack elements o)) (
          if-Good (token == 0x01) _ _ (end_element-Good rest page stack elements o) (
            if-Good _ _ _ (text_token-Good token rest page stack elements o)
              (tag_step-Good token rest page stack elements o)))

    decode_tokens-Good :
        (k : ℕ) (rest : List ℕ) (page : ℕ) (stack : List String) (elements : ℕ) (o : Output)
        → length rest ≤ k
        → Good Any (decode_tokens unicode namespace table k (at rest page stack elements o))
    unfolding decode_tokens
    decode_tokens-Good zero [] page stack elements o enough = returned _ refl
    decode_tokens-Good zero (token ∷ rest) page stack elements o enough = absurd (omega arith)
    decode_tokens-Good (suc k) [] page stack elements o enough = returned _ refl
    decode_tokens-Good (suc k) (token ∷ rest) page stack elements o enough =
        go (is_done unicode namespace table (at (token ∷ rest) page stack elements o)) (
          >>=-Good (token_step unicode namespace table (at rest page stack elements o) token)
            (λ d. decode_tokens unicode namespace table k d)
            (token_step-Good token rest page stack elements o)
            (λ d shorter.
              decode_tokens-Good k d.rest d.page d.stack d.elements d.output
                (omega (arith, shorter, enough))))
      where
        go :
            (over : Bool) {more : Result WbxmlError Decoder}
            → Good Any more
            → Good Any (elim over as (λ _. Result WbxmlError Decoder) [
              | true ↦ raise trailing_content
              | false ↦ more
            ])
        go true good = raised trailing_content refl
        go false good = good

  finished-Good :
      (rest : List ℕ) (page : ℕ) (stack : List String) (elements : ℕ) (o : Output)
      → Good Any (finished unicode (at rest page stack elements o))
  unfolding finished
  finished-Good rest page [] elements o = if-Good _ _ _ (raised missing_root refl) (returned _ refl)
  finished-Good rest page (q ∷ stack) elements o = raised missing_end refl

  decode-Good : (payload : List ℕ) → Good Any (decode unicode payload)
  unfolding decode
  decode-Good payload = if-Good _ _ _ (raised input_exceeds_limit refl) (
      >>=-Good (header unicode payload) _ (header-Good payload) (λ h good.
        >>=-Good (decode_tokens unicode h.namespace h.table (length h.rest) (start unicode h.rest))
          _
          (decode_tokens-Good h.namespace h.table (length h.rest) h.rest 0 [] 0
            (record { pieces = []; size = 0 }) (omega arith))
          (λ d good'. finished-Good d.rest d.page d.stack d.elements d.output)))

  Good-fuel : {A : Type 0} (r : Result WbxmlError A) → Good Any r → r ≢ raise out_of_tokens
  Good-fuel r (raised exc e) same = absurd (ground arith)
  Good-fuel r (returned value e) same = absurd (ground arith)

  -- The loop of `decode` ends on every payload: as many rounds as bytes after the header are enough,
  -- so that `decode` returns XML or raises one of the errors of the code.
  pub decode-total : (payload : List ℕ) → decode unicode payload ≢ raise out_of_tokens
  decode-total payload = Good-fuel (decode unicode payload) (decode-Good payload)
