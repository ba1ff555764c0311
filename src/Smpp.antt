-- ===== src/Smpp.antt =====
-- src/acs/sms/smpp.py: the PDUs, the fields and the user data of a message. A byte is a number below
-- 256; a 32-bit field is four of them, the largest first.
pub mod Session
pub mod Sender
pub mod Wire
pub mod Runs
pub mod Exchange
use auto_configuration_serve.Prelude.{
  ℕ, zero, suc, ◌+◌, ◌-◌, ◌*◌, ◌/◌, ◌%◌, String, Bool, true, false, Option, none, some, List, [],
  ◌∷◌, ◌++◌, ltb, leb, ◌==◌, length, Result, ok, raise, ◌&&◌, ◌||◌, not, ◌>>=◌, if◌then◌else◌,
}
use Prim.Native.Char.{code}
use Prim.Native.String
use auto_configuration_serve.Service.{SmsRequest}

abbrev pub generic_nack : ℕ
generic_nack = 0x80000000

abbrev pub submit_sm : ℕ
submit_sm = 0x00000004

abbrev pub deliver_sm : ℕ
deliver_sm = 0x00000005

abbrev pub deliver_sm_resp : ℕ
deliver_sm_resp = 0x80000005

abbrev pub unbind : ℕ
unbind = 0x00000006

abbrev pub unbind_resp : ℕ
unbind_resp = 0x80000006

abbrev pub bind_transceiver : ℕ
bind_transceiver = 0x00000009

abbrev pub enquire_link : ℕ
enquire_link = 0x00000015

abbrev pub enquire_link_resp : ℕ
enquire_link_resp = 0x80000015

abbrev pub response_bit : ℕ
response_bit = 0x80000000

abbrev pub esme_rok : ℕ
esme_rok = 0

abbrev pub esme_rinvcmdlen : ℕ
esme_rinvcmdlen = 2

abbrev pub esme_rinvcmdid : ℕ
esme_rinvcmdid = 3

abbrev pub esme_rx_t_appn : ℕ
esme_rx_t_appn = 0x64

abbrev pub header_size : ℕ
header_size = 16

abbrev pub max_pdu : ℕ
max_pdu = 64 * 1024

abbrev pub max_user_data_octets : ℕ
max_user_data_octets = 140

abbrev pub max_gsm7_characters : ℕ
max_gsm7_characters = 160

-- The exceptions of the module, with the cause of an SmppError.
pub data SmppFault : Type 0 where
  field_not_ascii field_too_long ports_out_of_range octet_out_of_range : SmppFault
  ported_too_long text_too_long ucs2_too_long : SmppFault
  nacked unbound_by_peer unexpected_response invalid_length closed : SmppFault
  no_host unusable_timeout bind_refused submit_refused : SmppFault
  timed_out os_error : SmppFault
  -- none of Python's: the loop of the model ended before its input
  out_of_pdus : SmppFault

pub record Pdu : Type 0 where
  pub command_id : ℕ
  pub command_status : ℕ
  pub sequence_number : ℕ
  pub body : List ℕ

abbrev pub word : ℕ → List ℕ
word n = (n / 0x1000000 % 256) ∷ (n / 0x10000 % 256) ∷ (n / 0x100 % 256) ∷ (n % 256) ∷ []

abbrev pub of_word : ℕ → ℕ → ℕ → ℕ → ℕ
of_word a b c d = ((a * 256 + b) * 256 + c) * 256 + d

-- `Pdu.encode`.
unfoldable pub encode_pdu : Pdu → List ℕ
encode_pdu pdu =
    word (header_size + length pdu.body)
    ++ (word pdu.command_id ++ (word pdu.command_status ++ (word pdu.sequence_number ++ pdu.body)))

unfoldable pub text_codes : String → List ℕ
text_codes String.[] = []
text_codes (String.◌∷◌ c s) = code c ∷ text_codes s

unfoldable pub below : ℕ → List ℕ → Bool
below limit [] = true
below limit (c ∷ cs) = ltb c limit && below limit cs

unfoldable pub holds_nul : List ℕ → Bool
holds_nul [] = false
holds_nul (c ∷ cs) = c == 0 || holds_nul cs

unfoldable pub c_octet : String → ℕ → Result SmppFault (List ℕ)
unfolding text_codes below holds_nul
c_octet value max_length =
    let raw = text_codes value in
    if not (below 128 raw)
    then raise field_not_ascii
    else if holds_nul raw || ltb max_length (length raw + 1)
    then raise field_too_long
    else ok (raw ++ 0 ∷ [])

unfoldable pub build_udh : ℕ → ℕ → Result SmppFault (List ℕ)
build_udh destination_port source_port =
    if not (leb destination_port 0xffff) || not (leb source_port 0xffff)
    then raise ports_out_of_range
    else ok (
        6
        ∷ 0x05
        ∷ 0x04
        ∷ (destination_port / 256 % 256)
        ∷ (destination_port % 256)
        ∷ (source_port / 256 % 256)
        ∷ (source_port % 256)
        ∷ [])

unfoldable pub is_among : ℕ → List ℕ → Bool
is_among c [] = false
is_among c (d ∷ ds) = c == d || is_among c ds

unfoldable pub gsm7_ascii_safe : List ℕ
unfolding text_codes
gsm7_ascii_safe =
    text_codes
      " !\"#%&'()*+,-./0123456789:;<=>?ABCDEFGHIJKLMNOPQRSTUVWXYZabcdefghijklmnopqrstuvwxyz"

unfoldable pub all_safe : List ℕ → Bool
unfolding is_among gsm7_ascii_safe
all_safe [] = true
all_safe (c ∷ cs) = is_among c gsm7_ascii_safe && all_safe cs

-- What `encode_short_message` returns.
pub record ShortMessage : Type 0 where
  pub esm_class : ℕ
  pub data_coding : ℕ
  pub short_message : List ℕ

-- The encoders of Python.
pub record Codecs : Type 0 where
  pub encode_utf8 : String → List ℕ
  pub encode_utf16_be : String → List ℕ

module _ (codecs : Codecs) where
  -- `if request.sms_port`.
  unfoldable pub encode_ported : String → ℕ → ℕ → Result SmppFault ShortMessage
  unfolding build_udh
  encode_ported body sms_port source_port = do
    udh ← build_udh sms_port source_port
    let user_data = udh ++ codecs.encode_utf8 body
    if ltb max_user_data_octets (length user_data)
        then raise ported_too_long
        else ok (record { esm_class = 0x40; data_coding = 0x04; short_message = user_data })

  unfoldable pub encode_text : String → Result SmppFault ShortMessage
  unfolding all_safe text_codes
  encode_text body =
      if all_safe (text_codes body)
      then (if ltb max_gsm7_characters (length (text_codes body))
          then raise text_too_long
          else ok (record { esm_class = 0; data_coding = 0; short_message = text_codes body }))
      else if ltb max_user_data_octets (length (codecs.encode_utf16_be body))
      then raise ucs2_too_long
      else ok (record {
        esm_class = 0;
        data_coding = 0x08;
        short_message = codecs.encode_utf16_be body;
      })

  unfoldable pub encode_short_message : SmsRequest → ℕ → Result SmppFault ShortMessage
  unfolding encode_ported encode_text
  encode_short_message request source_port = elim request.sms_port [
    | none ↦ encode_text request.body
    | some sms_port ↦
        if sms_port == 0
        then encode_text request.body
        else encode_ported request.body sms_port source_port
  ]
