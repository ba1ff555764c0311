-- ===== src/Wbxml/Decode.antt =====
-- src/acs/protocol/omadm/wbxml.py, `_Decoder`. The XML is kept as the pieces that are written, with
-- the length of each in bytes. The UTF-8 codec, `escape` and `str.isspace` are parameters.
use auto_configuration_serve.Prelude.{
  ℕ, zero, suc, ◌+◌, ◌-◌, ◌/◌, ◌%◌, String, Bool, true, false, Option, none, some, List, [], ◌∷◌,
  ◌++◌, str_eq, ltb, leb, ◌==◌, length, take, drop, not, ◌&&◌, ◌||◌, Result, ok, raise, ◌>>=◌,
  if◌then◌else◌,
}
use Prim.Native.String.{len, ◌++◌ as str_append}
use auto_configuration_serve.Wbxml.{
  WbxmlError, invalid_utf8, invalid_character, table_out_of_range, unterminated_entry,
  output_exceeds_limit, input_exceeds_limit, truncated_input, unterminated_inline,
  unsupported_version, unsupported_charset, unsupported_public_id, trailing_content,
  unsupported_page, unexpected_end, text_outside_root, attributes_not_supported,
  unsupported_global_token, unknown_tag_token, exceeds_depth, exceeds_elements, root_not_syncml,
  missing_end, missing_root, out_of_tokens, version_12, version_13, charset_utf8, max_input_bytes,
  max_xml_bytes, max_depth, max_elements, metinf_ns, PublicId, public_ids, tag_name, codes, integer,
}

pub record Unicode : Type 0 where
  pub decode_utf8 : List ℕ → Option (List ℕ)
  pub escaped_size : List ℕ → ℕ
  pub is_space : List ℕ → Bool

-- What `output.write` is given: a tag, or a text by its characters.
pub data Piece : Type 0 where
  opening : (qualified declaration : String) (empty : Bool) → Piece
  closing : (qualified : String) → Piece
  characters : List ℕ → Piece

abbrev pub opening_text : String → String → Bool → String
opening_text qualified declaration empty =
    str_append "<" (str_append qualified (str_append declaration (if empty then "/>" else ">")))

abbrev pub closing_text : String → String
closing_text qualified = str_append "</" (str_append qualified ">")

unfoldable pub valid_character : ℕ → Bool
valid_character c =
    (c == 9 || (c == 10 || c == 13))
    || ((leb 0x20 c && leb c 0xd7ff)
        || ((leb 0xe000 c && leb c 0xfffd) || (leb 0x10000 c && leb c 0x10ffff)))

unfoldable pub all_valid : List ℕ → Bool
unfolding valid_character
all_valid [] = true
all_valid (c ∷ cs) = valid_character c && all_valid cs

-- The bytes before the first NUL, and those after it.
unfoldable pub until_nul : List ℕ → Option (List ℕ × List ℕ)
until_nul [] = none
until_nul (b ∷ bs) = elim b [
  | zero ↦ some ([], bs)
  | suc n ↦ elim (until_nul bs) [ none ↦ none | some (raw, rest) ↦ some (suc n ∷ raw, rest) ]
]

unfoldable pub table_string : List ℕ → ℕ → Result WbxmlError (List ℕ)
unfolding until_nul
table_string table offset =
    if leb (length table) offset
    then raise table_out_of_range
    else elim (until_nul (drop offset table)) [
      | none ↦ raise unterminated_entry
      | some (raw, rest) ↦ ok raw
    ]

-- `_take`, `_byte` and `_inline`, of what is left of the payload.
unfoldable pub take_bytes : ℕ → List ℕ → Result WbxmlError (List ℕ × List ℕ)
take_bytes n bytes =
    if ltb (length bytes) n then raise truncated_input else ok (take n bytes, drop n bytes)

unfoldable pub byte : List ℕ → Result WbxmlError (ℕ × List ℕ)
byte [] = raise truncated_input
byte (b ∷ bytes) = ok (b, bytes)

unfoldable pub inline : List ℕ → Result WbxmlError (List ℕ × List ℕ)
unfolding until_nul
inline bytes = elim (until_nul bytes) [ none ↦ raise unterminated_inline | some found ↦ ok found ]

pub record Output : Type 0 where
  pub pieces : List Piece
  pub size : ℕ

-- `next((key for ...), 0)`, and the row of PUBLIC_IDS.
unfoldable pub same_list : List ℕ → List ℕ → Bool
same_list [] [] = true
same_list [] (y ∷ ys) = false
same_list (x ∷ xs) [] = false
same_list (x ∷ xs) (y ∷ ys) = x == y && same_list xs ys

unfoldable pub key_of_name : List PublicId → List ℕ → ℕ
unfolding same_list codes
key_of_name [] identifier = 0
key_of_name (p ∷ ps) identifier =
    let rest = key_of_name ps identifier in
    if same_list (codes p.name) identifier then p.key else rest

unfoldable pub public_id_at : List PublicId → ℕ → Option PublicId
public_id_at [] key = none
public_id_at (p ∷ ps) key = let rest = public_id_at ps key in if p.key == key then some p else rest

-- What is before the tokens: the namespace, the string table, and the rest.
pub record Header : Type 0 where
  pub namespace : String
  pub table : List ℕ
  pub rest : List ℕ

-- The state of the loop of `decode`; the last element of `stack` is the head.
pub record Decoder : Type 0 where
  pub rest : List ℕ
  pub page : ℕ
  pub stack : List String
  pub elements : ℕ
  pub output : Output

abbrev pub qualified_name : ℕ → String → String
qualified_name page name = if page == 0 then name else str_append "metinf:" name

abbrev pub declaration_of : String → String
declaration_of namespace =
    str_append " xmlns=\""
      (str_append namespace (str_append "\" xmlns:metinf=\"" (str_append metinf_ns "\"")))

module _ (unicode : Unicode) where
  unfoldable pub utf8 : List ℕ → Result WbxmlError (List ℕ)
  unfolding all_valid
  utf8 raw = elim (unicode.decode_utf8 raw) [
    | none ↦ raise invalid_utf8
    | some text ↦ if all_valid text then ok text else raise invalid_character
  ]

  unfoldable pub piece_size : Piece → ℕ
  piece_size (opening qualified declaration empty) = len (opening_text qualified declaration empty)
  piece_size (closing qualified) = len (closing_text qualified)
  piece_size (characters text) = unicode.escaped_size text

  -- `_Output.write` with the limit of the decoder.
  unfoldable pub write_piece : Output → Piece → Result WbxmlError Output
  unfolding piece_size
  write_piece output piece =
      if ltb (max_xml_bytes - output.size) (piece_size piece)
      then raise output_exceeds_limit
      else ok
          (record { pieces = output.pieces ++ piece ∷ []; size = output.size + piece_size piece })

  unfoldable pub identified : ℕ → Option ℕ → List ℕ → Result WbxmlError ℕ
  unfolding utf8 table_string key_of_name
  identified public_id none table = ok public_id
  identified public_id (some offset) table = do
    raw ← table_string table offset
    identifier ← utf8 raw
    ok (key_of_name public_ids identifier)

  unfoldable pub public_offset : ℕ → List ℕ → Result WbxmlError (Option ℕ × List ℕ)
  public_offset zero bytes = do (offset, rest) ← integer bytes; ok (some offset, rest)
  public_offset (suc n) bytes = ok (none, bytes)

  unfoldable pub header : List ℕ → Result WbxmlError Header
  unfolding byte take_bytes public_offset identified public_id_at
  header payload = do
    (version, b₁) ← byte payload
    if not (version == version_12 || version == version_13) then raise unsupported_version else do
      (public_id, b₂) ← integer b₁
      (offset, b₃) ← public_offset public_id b₂
      (charset, b₄) ← integer b₃
      if not (charset == charset_utf8) then raise unsupported_charset else do
        (size, b₅) ← integer b₄
        (table, b₆) ← take_bytes size b₅
        key ← identified public_id offset table
        elim (public_id_at public_ids key) [
          | none ↦ raise unsupported_public_id
          | some p ↦ ok (record { namespace = p.namespace; table = table; rest = b₆ })
        ]

  module _ (namespace : String) (table : List ℕ) where
    unfoldable pub switch_page : Decoder → Result WbxmlError Decoder
    unfolding byte
    switch_page d = do
      (page, rest) ← byte d.rest
      if leb 2 page then raise unsupported_page else ok (record d { rest = rest; page = page })

    unfoldable pub end_element : Decoder → Result WbxmlError Decoder
    unfolding write_piece
    end_element d = elim d.stack [
      | [] ↦ raise unexpected_end
      | qualified ∷ stack ↦ do
        output ← write_piece d.output (closing qualified)
        ok (record d { stack = stack; output = output })
    ]

    -- The bytes of a text by its token: STR_I, STR_T, or OPAQUE.
    unfoldable pub raw_text : ℕ → List ℕ → Result WbxmlError (List ℕ × List ℕ)
    unfolding inline table_string take_bytes
    raw_text token bytes = if token == 0x03 then inline bytes else (do
      (n, rest) ← integer bytes
      if token == 0x83 then (do raw ← table_string table n; ok (raw, rest)) else take_bytes n rest)

    unfoldable pub text_token : Decoder → ℕ → Result WbxmlError Decoder
    unfolding raw_text utf8 write_piece
    text_token d token = elim d.stack [
      | [] ↦ raise text_outside_root
      | q ∷ qs ↦ do
        (raw, rest) ← raw_text token d.rest
        text ← utf8 raw
        output ← write_piece d.output (characters text)
        ok (record d { rest = rest; output = output })
    ]

    -- A tag whose name is known.
    unfoldable pub open_element : Decoder → String → (content : Bool) → Result WbxmlError Decoder
    unfolding write_piece
    open_element d name content =
        if leb max_depth (length d.stack)
        then raise exceeds_depth
        else if ltb max_elements (d.elements + 1)
        then raise exceeds_elements
        else if d.elements == 0 && not (d.page == 0 && str_eq name "SyncML")
        then raise root_not_syncml
        else (do
          let qualified = qualified_name d.page name
          let declaration = if d.elements == 0 then declaration_of namespace else ""
          output ← write_piece d.output (opening qualified declaration (not content))
          ok (record d {
            elements = d.elements + 1;
            output = output;
            stack = if content then qualified ∷ d.stack else d.stack;
          }))

    unfoldable pub tag_step : Decoder → ℕ → Result WbxmlError Decoder
    unfolding open_element tag_name
    tag_step d token =
        if (token == 0x84 || token == 0xc4) || (leb 5 (token % 64) && leb 128 token)
        then raise attributes_not_supported
        else if ltb (token % 64) 5
        then raise unsupported_global_token
        else elim (tag_name d.page (token % 64)) [
          | none ↦ raise unknown_tag_token
          | some name ↦ open_element d name (token / 64 % 2 == 1)
        ]

    unfoldable pub token_step : Decoder → ℕ → Result WbxmlError Decoder
    unfolding switch_page end_element text_token tag_step
    token_step d token =
        if token == 0x00
        then switch_page d
        else if token == 0x01
        then end_element d
        else if token == 0x03 || (token == 0x83 || token == 0xc3)
        then text_token d token
        else tag_step d token

    abbrev pub is_done : Decoder → Bool
    is_done d = elim d.stack [ [] ↦ not (d.elements == 0) | q ∷ qs ↦ false ]

    -- `while self.offset < len(self.payload)`: each round takes a byte at least.
    unfoldable pub decode_tokens : ℕ → Decoder → Result WbxmlError Decoder
    unfolding token_step
    decode_tokens zero d = elim d.rest [ [] ↦ ok d | token ∷ rest ↦ raise out_of_tokens ]
    decode_tokens (suc k) d = elim d.rest [
      | [] ↦ ok d
      | token ∷ rest ↦ elim (is_done d) [
        | true ↦ raise trailing_content
        | false ↦ do d' ← token_step (record d { rest = rest }) token; decode_tokens k d'
      ]
    ]

  -- After the loop.
  unfoldable pub finished : Decoder → Result WbxmlError (List Piece)
  finished d = elim d.stack [
    | [] ↦ if d.elements == 0 then raise missing_root else ok d.output.pieces
    | q ∷ qs ↦ raise missing_end
  ]

  abbrev pub start : List ℕ → Decoder
  start rest = record {
    rest = rest;
    page = 0;
    stack = [];
    elements = 0;
    output = record { pieces = []; size = 0 };
  }

  unfoldable pub decode : List ℕ → Result WbxmlError (List Piece)
  unfolding header decode_tokens finished
  decode payload = if ltb max_input_bytes (length payload) then raise input_exceeds_limit else (do
    h ← header payload
    d ← decode_tokens h.namespace h.table (length h.rest) (start h.rest)
    finished d)
