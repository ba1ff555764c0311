-- ===== src/Smpp/Runs.antt =====
-- src/acs/sms/smpp.py at concrete inputs: a bind and a submit with an enquire_link before each response.
use auto_configuration_serve.Prelude.{
  ℕ, ◌≡◌, refl, String, Bool, false, some, List, [], ◌∷◌, ◌++◌, ok, raise, arith,
}
use auto_configuration_serve.Service.{SmsRequest}
use auto_configuration_serve.Smpp.{
  Pdu, encode_pdu, enquire_link, bind_transceiver, submit_sm, submit_refused, ShortMessage, Codecs,
  encode_short_message, text_codes,
}
use auto_configuration_serve.Smpp.Session.{closes, late, next_sequence, request}
use auto_configuration_serve.Smpp.Sender.{requires_binary, exchange}
use auto_configuration_serve.Smpp.Wire.{
  session, AllAsked, IsResponse, encoded, after_request, request-IsResponse,
}
use auto_configuration_serve.Smpp.Exchange.{
  Carried, encode_short_message-Carried, exchange-IsResponse,
}

abbrev all_taken : List ℕ → Bool
all_taken written = false

accepted : (written : List ℕ) → all_taken written ≡ false
accepted written = refl

abbrev link : Pdu
link = record { command_id = enquire_link; command_status = 0; sequence_number = 7; body = [] }

abbrev bound : Pdu
bound = record { command_id = 0x80000009; command_status = 0; sequence_number = 1; body = 0 ∷ [] }

abbrev throttled : Pdu
throttled = record {
  command_id = 0x80000004;
  command_status = 0x58;
  sequence_number = 2;
  body = [];
}

link-AllAsked : AllAsked all_taken (link ∷ [])
link-AllAsked =
    (((omega arith, omega arith, omega arith, omega arith), omega arith, ground arith), refl)

bound-IsResponse : IsResponse all_taken accepted bind_transceiver (next_sequence 0) bound
unfolding next_sequence
bound-IsResponse =
    ((omega arith, omega arith, omega arith, omega arith), omega arith, omega arith, omega arith)

throttled-IsResponse :
    IsResponse all_taken accepted submit_sm (next_sequence (next_sequence 0)) throttled
unfolding next_sequence
throttled-IsResponse =
    ((omega arith, omega arith, omega arith, omega arith), omega arith, omega arith, omega arith)

request-IsResponse_example :
    request all_taken bind_transceiver
      (0 ∷ [])
      (session 0 (encoded all_taken (link ∷ []) ++ (encode_pdu bound ++ (9 ∷ []))) late [])
    ≡ (
      session (next_sequence 0) (9 ∷ []) late (
          after_request all_taken accepted bind_transceiver
            (next_sequence 0)
            (0 ∷ [])
            (link ∷ [])
            []),
      ok bound,
    )
request-IsResponse_example =
    request-IsResponse all_taken accepted bind_transceiver 0 (0 ∷ []) (link ∷ []) bound (9 ∷ [])
      late [] link-AllAsked bound-IsResponse

abbrev codecs : Codecs
codecs = record { encode_utf8 = text_codes; encode_utf16_be = text_codes }

abbrev no_reference : List ℕ → String
no_reference raw = ""

exchange-IsResponse_example :
    (exchange codecs all_taken no_reference (0 ∷ []) (0 ∷ []) (
      session 0
        (encoded all_taken (link ∷ [])
          ++ (encode_pdu bound
              ++ (encoded all_taken (link ∷ []) ++ (encode_pdu throttled ++ (1 ∷ [])))))
        closes
        [])).1
    ≡ raise submit_refused
exchange-IsResponse_example =
    exchange-IsResponse codecs all_taken no_reference (0 ∷ []) (0 ∷ []) (link ∷ []) (link ∷ [])
      bound throttled (1 ∷ []) closes accepted link-AllAsked link-AllAsked bound-IsResponse
      throttled-IsResponse

abbrev otp_request : SmsRequest
otp_request = record {
  msisdn = "+821012345678";
  body = "123456";
  sms_port = some 37273;
  sender_id = "";
}

abbrev otp_message : ShortMessage
otp_message = record {
  esm_class = 0x40;
  data_coding = 0x04;
  short_message = 6 ∷ 5 ∷ 4 ∷ 145 ∷ 153 ∷ 0 ∷ 0 ∷ 49 ∷ 50 ∷ 51 ∷ 52 ∷ 53 ∷ 54 ∷ [];
}

otp_encoded : encode_short_message codecs otp_request 0 ≡ ok otp_message
unfolding encode_short_message text_codes
otp_encoded = refl

encode_short_message-Carried_example : Carried (requires_binary otp_request) otp_message
encode_short_message-Carried_example =
    encode_short_message-Carried codecs otp_request 0 otp_message otp_encoded
