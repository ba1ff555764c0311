-- ===== src/Wbxml.antt =====
-- src/acs/protocol/omadm/wbxml.py: the errors, the limits, the tag tables and the integers of WBXML.
-- A byte is a number below 256, so that `b & 0x7f` is `b % 128` and `b & 0x80` asks whether b is
-- 128 at least.
pub mod Decode
pub mod Encode
pub mod Integers
pub mod Tags
pub mod Reader
pub mod Limits
pub mod Document
pub mod Good
pub mod Total
pub mod Reach
pub mod RoundTrip
pub mod Runs
pub mod Heads
pub mod Strings
pub mod Trees
pub mod Nested
pub mod Written
pub mod Elements
pub mod Texts
pub mod Pieces
use auto_configuration_serve.Prelude.{
  ℕ, zero, suc, ◌+◌, ◌*◌, ◌/◌, ◌%◌, String, Bool, true, false, Option, none, some, List, [], ◌∷◌,
  ◌++◌, str_eq, ltb, leb, ◌==◌, Result, ok, raise, ◌&&◌, if◌then◌else◌,
}
use Prim.Native.Char.{code}
use Prim.Native.String

pub data WbxmlError : Type 0 where
  invalid_utf8 invalid_character : WbxmlError
  table_out_of_range unterminated_entry : WbxmlError
  integer_exceeds_uint32 integer_exceeds_five_bytes : WbxmlError
  output_exceeds_limit input_exceeds_limit truncated_input unterminated_inline : WbxmlError
  unsupported_version unsupported_charset unsupported_public_id : WbxmlError
  trailing_content unsupported_page unexpected_end text_outside_root : WbxmlError
  attributes_not_supported unsupported_global_token unknown_tag_token : WbxmlError
  exceeds_depth exceeds_elements root_not_syncml missing_end missing_root : WbxmlError
  xml_exceeds_limit malformed_xml namespace_mismatch unsupported_namespace unknown_xml_tag :
      WbxmlError
  -- none of Python's: the loop of the model ended before its input
  out_of_tokens : WbxmlError

abbrev pub version_12 : ℕ
version_12 = 2

abbrev pub version_13 : ℕ
version_13 = 3

abbrev pub charset_utf8 : ℕ
charset_utf8 = 106

abbrev pub max_input_bytes : ℕ
max_input_bytes = 512 * 1024

abbrev pub max_xml_bytes : ℕ
max_xml_bytes = 2 * 1024 * 1024

abbrev pub max_depth : ℕ
max_depth = 64

abbrev pub max_elements : ℕ
max_elements = 16384

abbrev pub max_mb_uint32_bytes : ℕ
max_mb_uint32_bytes = 5

abbrev pub max_uint32 : ℕ
max_uint32 = 0xffff_ffff

abbrev pub max_encode_xml_bytes : ℕ
max_encode_xml_bytes = 32 * 1024 * 1024

abbrev pub max_encode_bytes : ℕ
max_encode_bytes = 16 * 1024 * 1024

abbrev pub metinf_ns : String
metinf_ns = "syncml:metinf"

-- A key of PUBLIC_IDS, its name and its namespace.
pub record PublicId : Type 0 where
  pub key : ℕ
  pub name : String
  pub namespace : String

abbrev pub public_ids : List PublicId
public_ids =
    record { key = 0x0fd3; name = "-//SYNCML//DTD SyncML 1.1//EN"; namespace = "SYNCML:SYNCML1.1" }
    ∷ record {
      key = 0x1201;
      name = "-//SYNCML//DTD SyncML 1.2//EN";
      namespace = "SYNCML:SYNCML1.2";
    }
    ∷ []

-- `SYNCML_TAGS` and `METINF_TAGS`: a token and its name.
unfoldable pub syncml_tags : List (ℕ × String)
syncml_tags =
    (0x05, "Add")
    ∷ (0x06, "Alert")
    ∷ (0x07, "Archive")
    ∷ (0x08, "Atomic")
    ∷ (0x09, "Chal")
    ∷ (0x0a, "Cmd")
    ∷ (0x0b, "CmdID")
    ∷ (0x0c, "CmdRef")
    ∷ (0x0d, "Copy")
    ∷ (0x0e, "Cred")
    ∷ (0x0f, "Data")
    ∷ (0x10, "Delete")
    ∷ (0x11, "Exec")
    ∷ (0x12, "Final")
    ∷ (0x13, "Get")
    ∷ (0x14, "Item")
    ∷ (0x15, "Lang")
    ∷ (0x16, "LocName")
    ∷ (0x17, "LocURI")
    ∷ (0x18, "Map")
    ∷ (0x19, "MapItem")
    ∷ (0x1a, "Meta")
    ∷ (0x1b, "MsgID")
    ∷ (0x1c, "MsgRef")
    ∷ (0x1d, "NoResp")
    ∷ (0x1e, "NoResults")
    ∷ (0x1f, "Put")
    ∷ (0x20, "Replace")
    ∷ (0x21, "RespURI")
    ∷ (0x22, "Results")
    ∷ (0x23, "Search")
    ∷ (0x24, "Sequence")
    ∷ (0x25, "SessionID")
    ∷ (0x26, "SftDel")
    ∷ (0x27, "Source")
    ∷ (0x28, "SourceRef")
    ∷ (0x29, "Status")
    ∷ (0x2a, "Sync")
    ∷ (0x2b, "SyncBody")
    ∷ (0x2c, "SyncHdr")
    ∷ (0x2d, "SyncML")
    ∷ (0x2e, "Target")
    ∷ (0x2f, "TargetRef")
    ∷ (0x31, "VerDTD")
    ∷ (0x32, "VerProto")
    ∷ (0x33, "NumberOfChanges")
    ∷ (0x34, "MoreData")
    ∷ (0x35, "Field")
    ∷ (0x36, "Filter")
    ∷ (0x37, "Record")
    ∷ (0x38, "FilterType")
    ∷ (0x39, "SourceParent")
    ∷ (0x3a, "TargetParent")
    ∷ (0x3b, "Move")
    ∷ (0x3c, "Correlator")
    ∷ []

unfoldable pub metinf_tags : List (ℕ × String)
metinf_tags =
    (0x05, "Anchor")
    ∷ (0x06, "EMI")
    ∷ (0x07, "Format")
    ∷ (0x08, "FreeID")
    ∷ (0x09, "FreeMem")
    ∷ (0x0a, "Last")
    ∷ (0x0b, "Mark")
    ∷ (0x0c, "MaxMsgSize")
    ∷ (0x0d, "Mem")
    ∷ (0x0e, "MetInf")
    ∷ (0x0f, "Next")
    ∷ (0x10, "NextNonce")
    ∷ (0x11, "SharedMem")
    ∷ (0x12, "Size")
    ∷ (0x13, "Type")
    ∷ (0x14, "Version")
    ∷ (0x15, "MaxObjSize")
    ∷ (0x16, "FieldLevel")
    ∷ []

unfoldable pub name_in : List (ℕ × String) → ℕ → Option String
name_in [] token = none
name_in ((t, n) ∷ tags) token = let rest = name_in tags token in if t == token then some n else rest

unfoldable pub token_in : List (ℕ × String) → String → Option ℕ
token_in [] name = none
token_in ((t, n) ∷ tags) name =
    let rest = token_in tags name in if str_eq n name then some t else rest

-- `TAG_PAGES[page]`: page 0 is SyncML's, 1 is MetInf's.
unfoldable pub tags_of : ℕ → List (ℕ × String)
tags_of zero = syncml_tags
tags_of (suc n) = metinf_tags

unfoldable pub tag_name : ℕ → ℕ → Option String
unfolding name_in tags_of
tag_name page token = name_in (tags_of page) token

unfoldable pub tag_token : ℕ → String → Option ℕ
unfolding token_in tags_of
tag_token page name = token_in (tags_of page) name

-- The bytes of a text of ASCII.
unfoldable pub codes : String → List ℕ
codes String.[] = []
codes (String.◌∷◌ c s) = code c ∷ codes s

-- `while value:` of `_mb_uint32`; the rounds are those of five bytes.
unfoldable pub high_groups : ℕ → ℕ → List ℕ → List ℕ
high_groups zero value parts = parts
high_groups (suc k) value parts =
    let more = high_groups k (value / 128) ((value % 128 + 128) ∷ parts) in
    if value == 0 then parts else more

unfoldable pub mb_uint32 : ℕ → Result WbxmlError (List ℕ)
unfolding high_groups
mb_uint32 value =
    if ltb max_uint32 value
    then raise integer_exceeds_uint32
    else ok (high_groups max_mb_uint32_bytes (value / 128) ((value % 128) ∷ []))

-- `_integer`: the value, and what follows it.
unfoldable pub integer_loop : ℕ → ℕ → List ℕ → Result WbxmlError (ℕ × List ℕ)
integer_loop zero value bytes = raise integer_exceeds_five_bytes
integer_loop (suc k) value [] = raise truncated_input
integer_loop (suc k) value (byte ∷ bytes) =
    let value' = value * 128 + byte % 128 in
    let more = integer_loop k value' bytes in
    if ltb max_uint32 value'
    then raise integer_exceeds_uint32
    else if leb 128 byte
    then more
    else ok (value', bytes)

unfoldable pub integer : List ℕ → Result WbxmlError (ℕ × List ℕ)
unfolding integer_loop
integer bytes = integer_loop max_mb_uint32_bytes 0 bytes
