-- ===== src/Wbxml/Encode.antt =====
-- src/acs/protocol/omadm/wbxml.py, `encode`: from the tree that the XML parser returns to WBXML. A
-- text is its UTF-8 bytes, none is the empty one, and a tag is its namespace and its local name. The
-- parser with its limits is a parameter.
use auto_configuration_serve.Prelude.{
  ℕ, suc, ◌+◌, ◌-◌, String, Bool, true, false, Option, none, some, List, [], ◌∷◌, ◌++◌, str_eq, ltb,
  ◌==◌, length, truthy, not, ◌&&◌, ◌||◌, Result, ok, raise, ◌>>=◌, if◌then◌else◌,
}
use auto_configuration_serve.Wbxml.{
  WbxmlError, output_exceeds_limit, unsupported_version, unsupported_public_id, root_not_syncml,
  xml_exceeds_limit, namespace_mismatch, unsupported_namespace, unknown_xml_tag, version_12,
  version_13, charset_utf8, max_encode_xml_bytes, max_encode_bytes, metinf_ns, PublicId, public_ids,
  tag_token, codes, mb_uint32,
}
use auto_configuration_serve.Wbxml.Decode.{Unicode, same_list, public_id_at}

mutual
  pub data Element : Type 0 where
    element : (ns local : String) (text : List ℕ) (children : Children) → Element

  -- The children of an element, each with its tail.
  pub data Children : Type 0 where
    no_more : Children
    child : Element → (tail : List ℕ) → Children → Children

-- The argument `public_id` of `encode`.
pub data PublicIdArgument : Type 0 where
  default_id : PublicIdArgument
  numeric_id : ℕ → PublicIdArgument
  named_id : String → PublicIdArgument

pub record EncodeOptions : Type 0 where
  pub version : ℕ
  pub public_id : PublicIdArgument
  pub use_string_table : Bool
  pub opaque : Bool

abbrev pub local_of : Element → String
local_of (element ns local text children) = local

abbrev pub namespace_of : Element → String
namespace_of (element ns local text children) = ns

-- The key of a namespace, else of SyncML 1.2; and the key of a name, else 0.
unfoldable pub key_of_namespace : List PublicId → String → ℕ
key_of_namespace [] ns = 0x1201
key_of_namespace (p ∷ ps) ns =
    let rest = key_of_namespace ps ns in if str_eq p.namespace ns then p.key else rest

unfoldable pub key_of_text : List PublicId → String → ℕ
key_of_text [] name = 0
key_of_text (p ∷ ps) name =
    let rest = key_of_text ps name in if str_eq p.name name then p.key else rest

unfoldable pub numeric_of : PublicIdArgument → String → ℕ
unfolding key_of_namespace key_of_text
numeric_of default_id ns = key_of_namespace public_ids ns
numeric_of (numeric_id n) ns = n
numeric_of (named_id name) ns = key_of_text public_ids name

abbrev pub blank_dropped : (List ℕ → Bool) → List ℕ → List ℕ
blank_dropped is_space text = if is_space text then [] else text

-- The loop over `root.iter()` that drops the white space between elements.
unfoldable mutual
  pub stripped : (List ℕ → Bool) → Element → Element
  stripped is_space (element ns local text no_more) = element ns local text no_more
  stripped is_space (element ns local text (child e tail more)) =
      element ns local (blank_dropped is_space text)
        (stripped_children is_space (child e tail more))

  pub stripped_children : (List ℕ → Bool) → Children → Children
  stripped_children is_space no_more = no_more
  stripped_children is_space (child e tail more) =
      child (stripped is_space e) (blank_dropped is_space tail) (stripped_children is_space more)

-- The texts in the order of `for element in root.iter() for text in (element.text, element.tail)`.
unfoldable mutual
  pub texts_of : Element → (tail : List ℕ) → List (List ℕ)
  texts_of (element ns local text children) tail = text ∷ tail ∷ texts_in children

  pub texts_in : Children → List (List ℕ)
  texts_in no_more = []
  texts_in (child e tail more) = texts_of e tail ++ texts_in more

unfoldable pub count_of : List ℕ → List (List ℕ) → ℕ
unfolding same_list
count_of text [] = 0
count_of text (t ∷ ts) = let rest = count_of text ts in if same_list t text then suc rest else rest

-- `offsets` and `table`.
pub record StringTable : Type 0 where
  pub offsets : List (List ℕ × ℕ)
  pub table : List ℕ

unfoldable pub offset_of : List (List ℕ × ℕ) → List ℕ → Option ℕ
unfolding same_list
offset_of [] text = none
offset_of ((t, n) ∷ offsets) text =
    let rest = offset_of offsets text in if same_list t text then some n else rest

unfoldable pub add_text : StringTable → List ℕ → StringTable
add_text t text = record {
  offsets = (text, length t.table) ∷ t.offsets;
  table = t.table ++ text ++ 0 ∷ [];
}

-- One round over `counts.items()`. A text that occurs again is in `offsets` by then.
unfoldable pub share_text : List (List ℕ) → StringTable → List ℕ → StringTable
unfolding count_of offset_of add_text
share_text texts t text =
    if (ltb 1 (count_of text texts) && ltb 3 (length text))
      && elim (offset_of t.offsets text) [ none ↦ true | some n ↦ false ]
    then add_text t text
    else t

unfoldable pub share_texts : List (List ℕ) → List (List ℕ) → StringTable → StringTable
unfolding share_text
share_texts texts [] t = t
share_texts texts (text ∷ more) t = share_texts texts more (share_text texts t text)

-- `if isinstance(public_id, str)`: the name stands first.
unfoldable pub named_table : PublicIdArgument → StringTable
unfolding add_text codes
named_table (named_id name) = add_text (record { offsets = []; table = [] }) (codes name)
named_table default_id = record { offsets = []; table = [] }
named_table (numeric_id n) = record { offsets = []; table = [] }

unfoldable pub string_table : EncodeOptions → Element → StringTable
unfolding share_texts texts_of named_table
string_table options root =
    let named = named_table options.public_id in
    let texts = texts_of root [] in
    if options.use_string_table && not options.opaque then share_texts texts texts named else named

-- `_Output.write` with the limit of the encoder.
unfoldable pub write_bytes : List ℕ → List ℕ → Result WbxmlError (List ℕ)
write_bytes output bytes =
    if ltb (max_encode_bytes - length output) (length bytes)
    then raise output_exceeds_limit
    else ok (output ++ bytes)

abbrev pub page_of : String → ℕ
page_of ns = if str_eq ns metinf_ns then 1 else 0

abbrev pub has_content : List ℕ → Children → Bool
has_content (b ∷ raw) children = true
has_content [] no_more = false
has_content [] (child e tail more) = true

module _ (syncml_namespace : String) (opaque : Bool) (offsets : List (List ℕ × ℕ)) where
  unfoldable pub text_bytes : List ℕ → Result WbxmlError (List ℕ)
  unfolding offset_of
  text_bytes raw =
      if opaque
      then (do size ← mb_uint32 (length raw); ok (0xc3 ∷ size ++ raw))
      else elim (offset_of offsets raw) [
        | some n ↦ do offset ← mb_uint32 n; ok (0x83 ∷ offset)
        | none ↦ ok (0x03 ∷ raw ++ 0 ∷ [])
      ]

  unfoldable pub text_content : List ℕ → List ℕ → Result WbxmlError (List ℕ)
  unfolding text_bytes write_bytes
  text_content output [] = ok output
  text_content output (b ∷ raw) = do bytes ← text_bytes (b ∷ raw); write_bytes output bytes

  abbrev pub known_namespace : String → Bool
  known_namespace ns = str_eq ns "" || (str_eq ns syncml_namespace || str_eq ns metinf_ns)

  -- The page switch and the token of a tag.
  unfoldable pub open_tag : ℕ → List ℕ → String → String → Bool → Result WbxmlError (ℕ × List ℕ)
  unfolding write_bytes tag_token
  open_tag page output ns local content =
      if not (known_namespace ns)
      then raise unsupported_namespace
      else elim (tag_token (page_of ns) local) [
        | none ↦ raise unknown_xml_tag
        | some token ↦ do
          switched ← write_bytes output (if page_of ns == page then [] else 0x00 ∷ page_of ns ∷ [])
          opened ← write_bytes switched ((if content then token + 64 else token) ∷ [])
          ok (page_of ns, opened)
      ]

  -- `element_content`: the page, and the output so far.
  unfoldable mutual
    unfolding text_content open_tag write_bytes

    pub element_content : ℕ → List ℕ → Element → Result WbxmlError (ℕ × List ℕ)
    element_content page output (element ns local text children) = do
      (page', opened) ← open_tag page output ns local (has_content text children)
      if has_content text children
          then (do
            written ← text_content opened text
            (last, filled) ← children_content page' written children
            ended ← write_bytes filled (0x01 ∷ [])
            ok (last, ended))
          else ok (page', opened)

    pub children_content : ℕ → List ℕ → Children → Result WbxmlError (ℕ × List ℕ)
    children_content page output no_more = ok (page, output)
    children_content page output (child e tail more) = do
      (page', inner) ← element_content page output e
      outer ← text_content inner tail
      children_content page' outer more

unfoldable pub id_bytes : PublicIdArgument → ℕ → Result WbxmlError (List ℕ)
unfolding mb_uint32
id_bytes (named_id name) numeric = ok (0 ∷ 0 ∷ [])
id_bytes default_id numeric = mb_uint32 numeric
id_bytes (numeric_id n) numeric = mb_uint32 numeric

unfoldable pub header_bytes : EncodeOptions → ℕ → List ℕ → Result WbxmlError (List ℕ)
unfolding write_bytes id_bytes mb_uint32
header_bytes options numeric table = do
  first ← write_bytes [] (options.version ∷ [])
  id ← id_bytes options.public_id numeric
  second ← write_bytes first id
  charset ← mb_uint32 charset_utf8
  size ← mb_uint32 (length table)
  write_bytes second (charset ++ size ++ table)

module _ (unicode : Unicode) (parse_xml : List ℕ → Result WbxmlError Element) where
  -- From the root on.
  unfoldable pub encode_root : EncodeOptions → Element → Result WbxmlError (List ℕ)
  unfolding numeric_of public_id_at stripped string_table header_bytes element_content
  encode_root options root =
      if not (str_eq (local_of root) "SyncML")
      then raise root_not_syncml
      else elim (public_id_at public_ids (numeric_of options.public_id (namespace_of root))) [
        | none ↦ raise unsupported_public_id
        | some id ↦
            if truthy (namespace_of root) && not (str_eq (namespace_of root) id.namespace)
            then raise namespace_mismatch
            else (do
              let plain = stripped unicode.is_space root
              let strings = string_table options plain
              head ← header_bytes options id.key strings.table
              (page, output) ←
                  element_content id.namespace options.opaque strings.offsets 0 head plain
              ok output)
      ]

  unfoldable pub encode : EncodeOptions → List ℕ → Result WbxmlError (List ℕ)
  unfolding encode_root
  encode options payload =
      if ltb max_encode_xml_bytes (length payload)
      then raise xml_exceeds_limit
      else if not (options.version == version_12 || options.version == version_13)
      then raise unsupported_version
      else (do root ← parse_xml payload; encode_root options root)
