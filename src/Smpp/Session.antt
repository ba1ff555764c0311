-- ===== src/Smpp/Session.antt =====
-- src/acs/sms/smpp.py, `_Session`: one connection. What the peer sends in time is one list of bytes,
-- with what the next read meets after it; whether `sendall` fails is a parameter.
use auto_configuration_serve.Prelude.{
  ℕ, zero, suc, ◌+◌, ◌-◌, ◌%◌, Bool, true, List, [], ◌∷◌, ◌++◌, ltb, leb, ◌==◌, length, take, drop,
  Result, ok, raise, ◌||◌, not, if◌then◌else◌,
}
use auto_configuration_serve.Smpp.{
  SmppFault, nacked, unbound_by_peer, unexpected_response, invalid_length, closed, timed_out,
  os_error, out_of_pdus, Pdu, encode_pdu, of_word, generic_nack, deliver_sm, deliver_sm_resp,
  unbind, unbind_resp, enquire_link, enquire_link_resp, response_bit, esme_rok, esme_rinvcmdlen,
  esme_rinvcmdid, esme_rx_t_appn, header_size, max_pdu,
}

-- What `recv` meets when the bytes have run out.
pub data Ending : Type 0 where
  closes late breaks : Ending

abbrev pub fault_of : Ending → SmppFault
fault_of closes = closed
fault_of late = timed_out
fault_of breaks = os_error

-- `sequence` is `_sequence`; `written` is what was sent so far.
pub record Session : Type 0 where
  pub sequence : ℕ
  pub incoming : List ℕ
  pub ending : Ending
  pub written : List ℕ

-- A result or an exception, and the session after it.
abbrev pub Attempt : Type 0 → Type 0
Attempt A = Session × Result SmppFault A

-- What follows where nothing was raised.
abbrev pub and_then : {A B : Type 0} → Attempt A → (A → Session → Attempt B) → Attempt B
and_then (s, raise exc) next = (s, raise exc)
and_then (s, ok value) next = next value s

unfoldable pub next_sequence : ℕ → ℕ
next_sequence sequence = sequence % 0x7fffffff + 1

-- `_read_exact`.
unfoldable pub read_exact : ℕ → Session → Attempt (List ℕ)
read_exact size s =
    if ltb (length s.incoming) size
    then (record s { incoming = [] }, raise (fault_of s.ending))
    else (record s { incoming = drop size s.incoming }, ok (take size s.incoming))

module _ (refused : List ℕ → Bool) where
  -- `write`: `sendall` fails or not by what was sent before it.
  unfoldable pub write : Pdu → Session → Attempt Bool
  unfolding encode_pdu
  write pdu s =
      if refused s.written
      then (s, raise os_error)
      else (record s { written = s.written ++ encode_pdu pdu }, ok true)

  -- After the sixteen bytes of the header.
  unfoldable pub read_body : ℕ → ℕ → ℕ → ℕ → Session → Attempt Pdu
  unfolding write read_exact
  read_body size command_id status sequence s =
      if ltb size header_size || ltb max_pdu size
      then and_then
          (write
            (record {
              command_id = generic_nack;
              command_status = esme_rinvcmdlen;
              sequence_number = sequence;
              body = [];
            })
            s)
          (λ done s'. (s', raise invalid_length))
      else and_then (read_exact (size - header_size) s) (λ body s'. (
        s',
        ok (record {
          command_id = command_id;
          command_status = status;
          sequence_number = sequence;
          body = body;
        }),
      ))

  -- `_HEADER.unpack` of `_read`: four big-endian words. The header is sixteen bytes, since `read_exact`
  -- gives all that it is asked for.
  unfoldable pub read_header : List ℕ → Session → Attempt Pdu
  unfolding read_body
  read_header (a₁ ∷ b₁ ∷ c₁ ∷ d₁ ∷ a₂ ∷ b₂ ∷ c₂ ∷ d₂ ∷ a₃ ∷ b₃ ∷ c₃ ∷ d₃ ∷ a₄ ∷ b₄ ∷ c₄ ∷ d₄ ∷ rest)
        s =
      read_body (of_word a₁ b₁ c₁ d₁) (of_word a₂ b₂ c₂ d₂) (of_word a₃ b₃ c₃ d₃)
        (of_word a₄ b₄ c₄ d₄) s
  read_header header s = (s, raise closed)

  unfoldable pub read : Session → Attempt Pdu
  unfolding read_exact read_header
  read s = and_then (read_exact header_size s) (λ header s'. read_header header s')

  -- `_answer`: what is written, and whether the session is over then.
  abbrev pub answer_pdu : Pdu → Pdu
  answer_pdu pdu =
      if pdu.command_id == enquire_link
      then record {
        command_id = enquire_link_resp;
        command_status = esme_rok;
        sequence_number = pdu.sequence_number;
        body = [];
      }
      else if pdu.command_id == unbind
      then record {
        command_id = unbind_resp;
        command_status = esme_rok;
        sequence_number = pdu.sequence_number;
        body = [];
      }
      else if pdu.command_id == deliver_sm
      then record {
        command_id = deliver_sm_resp;
        command_status = esme_rx_t_appn;
        sequence_number = pdu.sequence_number;
        body = 0 ∷ [];
      }
      else record {
        command_id = generic_nack;
        command_status = esme_rinvcmdid;
        sequence_number = pdu.sequence_number;
        body = [];
      }

  unfoldable pub answer : Pdu → Session → Attempt Bool
  unfolding write
  answer pdu s =
      and_then (write (answer_pdu pdu) s)
        (λ done s'. (s', if pdu.command_id == unbind then raise unbound_by_peer else ok true))

  abbrev pub is_response : Pdu → Bool
  is_response pdu = leb response_bit pdu.command_id

  -- One PDU in the loop of `request`; `more` is the next round.
  unfoldable pub take_pdu :
      (expected sequence : ℕ) → (more : Session → Attempt Pdu) → Pdu → Session → Attempt Pdu
  unfolding answer
  take_pdu expected sequence more pdu s =
      if pdu.command_id == generic_nack
      then (s, raise nacked)
      else if not (is_response pdu)
      then and_then (answer pdu s) (λ done s'. more s')
      else (
        s,
        if not (pdu.command_id == expected) || not (pdu.sequence_number == sequence)
            then raise unexpected_response
            else ok pdu,
      )

  -- `while True` of `request`: each round reads a header at least.
  unfoldable pub await : ℕ → (expected sequence : ℕ) → Session → Attempt Pdu
  unfolding read take_pdu
  await zero expected sequence s = (s, raise out_of_pdus)
  await (suc k) expected sequence s =
      and_then (read s)
        (λ pdu s'. take_pdu expected sequence (λ s''. await k expected sequence s'') pdu s')

  unfoldable pub request : (command_id : ℕ) (body : List ℕ) → Session → Attempt Pdu
  unfolding next_sequence write await
  request command_id body s =
      let sequence = next_sequence s.sequence in
      and_then
        (write
          (record {
            command_id = command_id;
            command_status = esme_rok;
            sequence_number = sequence;
            body = body;
          })
          (record s { sequence = sequence }))
        (λ done s'. await (suc (length s'.incoming)) (command_id + response_bit) sequence s')
