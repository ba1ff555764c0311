-- ===== src/Smpp/Exchange.antt =====
-- src/acs/sms/smpp.py, `SmppSmsSender`: what a message becomes, and what one send comes to.
use auto_configuration_serve.Prelude.{
  ℕ, ◌≤◌, ◌≡◌, refl, ap, ◌∙◌, String, Bool, true, false, List, [], ◌++◌, ltb, ◌==◌, length, ok,
  raise, arith, not, if◌then◌else◌, Bool-cases, Option-cases, Result-cases, inl, inr,
}
use mathlib.Core.Path.{subst}
use auto_configuration_serve.Service.{SmsRequest}
use auto_configuration_serve.Smpp.{
  bind_refused, submit_refused, Pdu, encode_pdu, submit_sm, bind_transceiver, esme_rok, build_udh,
  ShortMessage, Codecs, encode_ported, encode_text, encode_short_message, all_safe, text_codes,
  max_user_data_octets, max_gsm7_characters,
}
use auto_configuration_serve.Smpp.Session.{
  Session, Ending, Attempt, and_then, next_sequence, request,
}
use auto_configuration_serve.Smpp.Sender.{requires_binary, unbind_session, exchange}
use auto_configuration_serve.Smpp.Wire.{
  session, AllAsked, IsResponse, encoded, after_request, request-IsResponse,
}

-- The user data that one SMS carries by its coding, and how a message is marked.
abbrev pub Carried : Bool → ShortMessage → Type 0
Carried binary m =
    (length m.short_message
      ≤ (if m.data_coding == 0 then max_gsm7_characters else max_user_data_octets))
    × (m.esm_class ≡ (if binary then 0x40 else 0))
    × ((m.data_coding == 0x04) ≡ binary)

module _ (codecs : Codecs) where
  encode_ported-Carried :
      (body : String) (sms_port source_port : ℕ) (m : ShortMessage)
      → encode_ported codecs body sms_port source_port ≡ ok m
      → Carried true m
  unfolding encode_ported
  encode_ported-Carried body sms_port source_port m e =
      elim (Result-cases (build_udh sms_port source_port)) [
        | inl (x, r) ↦ absurd (ground arith)
        | inr (udh, r) ↦
            elim (Bool-cases (ltb max_user_data_octets (length (udh ++ codecs.encode_utf8 body)))) [
              | inl long ↦ absurd (ground arith)
              | inr short ↦
                  let made : record {
                    esm_class = 0x40;
                    data_coding = 0x04;
                    short_message = udh ++ codecs.encode_utf8 body;
                  }
                      ≡ m =
                    ground arith in
                  subst (Carried true) made (ground arith, refl, refl)
            ]
      ]

  encode_text-Carried :
      (body : String) (m : ShortMessage) → encode_text codecs body ≡ ok m → Carried false m
  unfolding encode_text
  encode_text-Carried body m e = elim (Bool-cases (all_safe (text_codes body))) [
    | inl safe ↦ elim (Bool-cases (ltb max_gsm7_characters (length (text_codes body)))) [
      | inl long ↦ absurd (ground arith)
      | inr short ↦
          let made : record { esm_class = 0; data_coding = 0; short_message = text_codes body }
              ≡ m =
            ground arith in
          subst (Carried false) made (ground arith, refl, refl)
    ]
    | inr unsafe ↦
        elim (Bool-cases (ltb max_user_data_octets (length (codecs.encode_utf16_be body)))) [
          | inl long ↦ absurd (ground arith)
          | inr short ↦
              let made : record {
                esm_class = 0;
                data_coding = 0x08;
                short_message = codecs.encode_utf16_be body;
              }
                  ≡ m =
                ground arith in
              subst (Carried false) made (ground arith, refl, refl)
        ]
  ]

  -- A message that is encoded fits in one SMS: 160 octets in the default alphabet, else 140. It has
  -- the 8-bit coding exactly when the request has a port, and the UDH indicator (esm_class 0x40)
  -- then and only then, so that a port-addressed message is never sent as a text.
  pub encode_short_message-Carried :
      (sms : SmsRequest) (source_port : ℕ) (m : ShortMessage)
      → encode_short_message codecs sms source_port ≡ ok m
      → Carried (requires_binary sms) m
  unfolding encode_short_message requires_binary
  encode_short_message-Carried sms source_port m e = elim (Option-cases sms.sms_port) [
    | inl no_port ↦ rw (no_port) (encode_text-Carried sms.body m (ground arith))
    | inr (port, has_port) ↦ elim (Bool-cases (port == 0)) [
      | inl none_given ↦ rw (has_port, none_given) (encode_text-Carried sms.body m (ground arith))
      | inr ported ↦
          rw (has_port, ported) (encode_ported-Carried sms.body port source_port m (ground arith))
    ]
  ]

module _ (codecs : Codecs) (refused : List ℕ → Bool) (reference_of : List ℕ → String) where
  -- `send` after the response to the bind.
  abbrev submitted : Pdu → List ℕ → Session → Attempt (List ℕ)
  submitted bind body s =
      if not (bind.command_status == esme_rok)
      then (s, raise bind_refused)
      else and_then (request refused submit_sm body s) (λ submit s₂. (
        unbind_session codecs refused reference_of s₂,
        if not (submit.command_status == esme_rok) then raise submit_refused else ok submit.body,
      ))

  submitted-request :
      (bind submit : Pdu) (body : List ℕ) (s s₂ : Session)
      → request refused submit_sm body s ≡ (s₂, ok submit)
      → (submitted bind body s).1 ≡ (
          if not (bind.command_status == esme_rok)
          then raise bind_refused
          else if not (submit.command_status == esme_rok)
          then raise submit_refused
          else ok submit.body)
  submitted-request bind submit body s s₂ e =
      elim (Bool-cases (not (bind.command_status == esme_rok))) [
        | inl bad ↦ rw (bad) refl
        | inr good ↦ rw (good) (
            ap
              (λ (t : Attempt Pdu).
                (and_then t (λ p s'. (
                  unbind_session codecs refused reference_of s',
                  if not (p.command_status == esme_rok) then raise submit_refused else ok p.body,
                ))).1)
              e)
      ]

  -- One send comes to what the SMSC answered to the bind and to submit_sm, whatever it does after that
  -- when the session is unbound: refused where one of them is, else accepted with the body of the
  -- response. The conditions: before each response the SMSC sends requests other than unbind, every
  -- PDU is within the limits of the reader, the responses have the kind and the number of their
  -- requests, and nothing that is written is refused.
  pub exchange-IsResponse :
      (bind_body body : List ℕ) (asked asked' : List Pdu) (bind submit : Pdu) (rest : List ℕ)
      (ending : Ending) (accepts : (written : List ℕ) → refused written ≡ false)
      → AllAsked refused asked
      → AllAsked refused asked'
      → IsResponse refused accepts bind_transceiver (next_sequence 0) bind
      → IsResponse refused accepts submit_sm (next_sequence (next_sequence 0)) submit
      → (exchange codecs refused reference_of bind_body body (
          session 0
            (encoded refused asked
              ++ (encode_pdu bind ++ (encoded refused asked' ++ (encode_pdu submit ++ rest))))
            ending
            [])).1
        ≡ (if not (bind.command_status == esme_rok)
            then raise bind_refused
            else if not (submit.command_status == esme_rok)
            then raise submit_refused
            else ok submit.body)
  unfolding exchange
  exchange-IsResponse bind_body body asked asked' bind submit rest ending accepts all all' bind_ok
        submit_ok =
      let after_bind =
        after_request refused accepts bind_transceiver (next_sequence 0) bind_body asked [] in
      let later = encoded refused asked' ++ (encode_pdu submit ++ rest) in
      ap (λ (t : Attempt Pdu). (and_then t (λ p s. submitted p body s)).1)
        (request-IsResponse refused accepts bind_transceiver 0 bind_body asked bind later ending []
          all bind_ok)
      ∙ submitted-request bind submit body (session (next_sequence 0) later ending after_bind)
          (session (next_sequence (next_sequence 0)) rest ending (
            after_request refused accepts submit_sm (next_sequence (next_sequence 0)) body asked'
              after_bind))
          (request-IsResponse refused accepts submit_sm (next_sequence 0) body asked' submit rest
            ending after_bind all' submit_ok)
