-- ===== src/Wbxml/Runs.antt =====
-- src/acs/protocol/omadm/wbxml.py: runs of the codec on a small message, with a codec of ASCII.
use auto_configuration_serve.Prelude.{
  ℕ, ◌≤◌, ◌≡◌, ◌≢◌, refl, String, Bool, true, false, none, some, List, [], ◌∷◌, ◌++◌, length, ◌==◌,
  arith, not, ◌&&◌, ◌||◌, Result, ok, raise, if◌then◌else◌,
}
use auto_configuration_serve.Wbxml.{
  WbxmlError, out_of_tokens, codes, syncml_tags, metinf_tags, max_xml_bytes, max_depth,
  max_elements, integer,
}
use auto_configuration_serve.Wbxml.Decode.{Unicode, piece_size, public_id_at, decode}
use auto_configuration_serve.Wbxml.Encode.{
  Element, element, no_more, child, EncodeOptions, named_id, numeric_of, encode, stripped,
}
use auto_configuration_serve.Wbxml.Pieces.{readable_element, element_pieces, count, depth}
use auto_configuration_serve.Wbxml.Reach.{sizes}
use auto_configuration_serve.Wbxml.Reader.{reading, read_pieces}
use auto_configuration_serve.Wbxml.Heads.{all_ascii}
use auto_configuration_serve.Wbxml.RoundTrip.{xml_of, decode-encode}
use auto_configuration_serve.Wbxml.Document.{decode-read_pieces}
use auto_configuration_serve.Wbxml.Total.{decode-total}

abbrev is_white : List ℕ → Bool
is_white [] = true
is_white (b ∷ bs) = (b == 32 || b == 10) && is_white bs

abbrev ascii_codec : Unicode
ascii_codec = record {
  decode_utf8 = λ bytes. if all_ascii bytes then some bytes else none;
  escaped_size = λ text. length text;
  is_space = λ text. not (length text == 0) && is_white text;
}

ascii_decoded : (text : List ℕ) → all_ascii text ≡ true → ascii_codec.decode_utf8 text ≡ some text
ascii_decoded text e = rw e refl

abbrev leaf : String → String → String → Element
unfolding codes
leaf ns local text = element ns local (codes text) no_more

-- A message with white space between its elements, both pages, and a text that occurs twice.
abbrev message : Element
message = element "SYNCML:SYNCML1.2" "SyncML" (10 ∷ 32 ∷ []) (
    child (leaf "SYNCML:SYNCML1.2" "VerDTD" "1.2") (10 ∷ []) (
      child (leaf "syncml:metinf" "Type" "text/plain") [] (
        child (leaf "syncml:metinf" "Format" "text/plain") (10 ∷ [])
          (child (element "" "Final" [] no_more) [] no_more))))

abbrev named : EncodeOptions
named = record {
  version = 3;
  public_id = named_id "-//SYNCML//DTD SyncML 1.2//EN";
  use_string_table = true;
  opaque = false;
}

abbrev parsed : List ℕ → Result WbxmlError Element
parsed payload = ok message

abbrev wbxml : List ℕ
wbxml =
    (3 ∷ 0 ∷ 0 ∷ 106 ∷ 41 ∷ [])
    ++ (45 ∷ 47 ∷ 47 ∷ 83 ∷ 89 ∷ 78 ∷ 67 ∷ 77 ∷ 76 ∷ 47 ∷ 47 ∷ 68 ∷ 84 ∷ 68 ∷ 32 ∷ [])
    ++ (83 ∷ 121 ∷ 110 ∷ 99 ∷ 77 ∷ 76 ∷ 32 ∷ 49 ∷ 46 ∷ 50 ∷ 47 ∷ 47 ∷ 69 ∷ 78 ∷ 0 ∷ [])
    ++ (116 ∷ 101 ∷ 120 ∷ 116 ∷ 47 ∷ 112 ∷ 108 ∷ 97 ∷ 105 ∷ 110 ∷ 0 ∷ [])
    ++ (109 ∷ 113 ∷ 3 ∷ 49 ∷ 46 ∷ 50 ∷ 0 ∷ 1 ∷ 0 ∷ 1 ∷ 83 ∷ 131 ∷ 30 ∷ 1 ∷ 71 ∷ 131 ∷ 30 ∷ 1 ∷ 0 ∷ 0
        ∷ 18 ∷ 1 ∷ [])

encoded : encode ascii_codec parsed named [] ≡ ok wbxml
unfolding encode codes syncml_tags metinf_tags
encoded = refl

readable_element-message :
    readable_element ascii_codec (stripped ascii_codec.is_space message) ≡ true
unfolding readable_element stripped codes
readable_element-message = refl

depth-message : depth (stripped ascii_codec.is_space message) ≤ max_depth
unfolding depth stripped leaf
depth-message = omega arith

count-message : count (stripped ascii_codec.is_space message) ≤ max_elements
unfolding count stripped leaf
count-message = omega arith

sizes-message : sizes ascii_codec (xml_of ascii_codec named message) ≤ max_xml_bytes
unfolding element_pieces stripped codes piece_size public_id_at numeric_of
sizes-message = omega arith

decode-encode_example : decode ascii_codec wbxml ≡ ok (xml_of ascii_codec named message)
decode-encode_example =
    decode-encode ascii_codec parsed named [] wbxml message ascii_decoded refl encoded (omega arith)
      readable_element-message depth-message count-message sizes-message

encoded_pieces : decode ascii_codec wbxml ≡ ok (xml_of ascii_codec named message)
unfolding decode codes syncml_tags metinf_tags integer element_pieces stripped numeric_of
encoded_pieces = refl

decode-read_pieces_example :
    (opened : ℕ) × (read_pieces (reading [] 0) (xml_of ascii_codec named message)
      ≡ some (reading [] opened))
    × (1 ≤ opened)
    × (sizes ascii_codec (xml_of ascii_codec named message) ≤ max_xml_bytes)
decode-read_pieces_example =
    decode-read_pieces ascii_codec wbxml (xml_of ascii_codec named message) encoded_pieces

decode-total_example : decode ascii_codec (3 ∷ 0 ∷ []) ≢ raise out_of_tokens
decode-total_example = decode-total ascii_codec (3 ∷ 0 ∷ [])
