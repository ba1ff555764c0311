-- ===== src/Smpp/Wire.antt =====
-- src/acs/sms/smpp.py: a PDU that was encoded is read back, and the requests of the SMSC are answered
-- until the response comes.
use auto_configuration_serve.Prelude.{
  ℕ, zero, suc, ◌+◌, ◌-◌, ◌/◌, ◌%◌, ◌≤◌, ◌<◌, ◌≡◌, ◌≢◌, refl, sym, ap, ◌∙◌, Bool, true, false, List,
  [], ◌∷◌, ◌++◌, length-append, ltb, ◌==◌, length, take, drop, ok, arith, ◌||◌,
}
use mathlib.Core.List.{append-nil, append_assoc}
use auto_configuration_serve.Smpp.{
  Pdu, encode_pdu, word, of_word, generic_nack, unbind, response_bit, esme_rok, header_size,
  max_pdu,
}
use auto_configuration_serve.Smpp.Session.{
  Session, Ending, Attempt, and_then, next_sequence, read_exact, write, read_body, read_header,
  read, answer_pdu, answer, is_response, take_pdu, await, request,
}

abbrev pub session : ℕ → List ℕ → Ending → List ℕ → Session
session sequence incoming ending written = record {
  sequence = sequence;
  incoming = incoming;
  ending = ending;
  written = written;
}

-- A PDU whose fields are 32-bit and whose length the reader takes.
abbrev pub Fits : Pdu → Type 0
Fits pdu =
    (pdu.command_id < 0x100000000)
    × (pdu.command_status < 0x100000000)
    × (pdu.sequence_number < 0x100000000)
    × (header_size + length pdu.body ≤ max_pdu)

of_word-word :
    (n : ℕ)
    → n < 0x100000000
    → of_word (n / 0x1000000 % 256) (n / 0x10000 % 256) (n / 0x100 % 256) (n % 256) ≡ n
of_word-word n small = omega (arith, small)

take-append : (xs ys : List ℕ) → take (length xs) (xs ++ ys) ≡ xs
take-append [] ys = refl
take-append (x ∷ xs) ys = ap (λ t. x ∷ t) (take-append xs ys)

drop-append : (xs ys : List ℕ) → drop (length xs) (xs ++ ys) ≡ ys
drop-append [] ys = refl
drop-append (x ∷ xs) ys = drop-append xs ys

read_exact-append :
    (sequence : ℕ) (xs ys : List ℕ) (ending : Ending) (written : List ℕ)
    → read_exact (length xs) (session sequence (xs ++ ys) ending written)
      ≡ (session sequence ys ending written, ok xs)
unfolding read_exact
read_exact-append sequence xs ys ending written =
    let enough : ltb (length (xs ++ ys)) (length xs) ≡ false =
      ground (arith, length-append xs ys) in
    rw (enough, take-append xs ys, drop-append xs ys) refl

module _ (refused : List ℕ → Bool) where
  read_body-append :
      (pdu : Pdu) (sequence : ℕ) (rest : List ℕ) (ending : Ending) (written : List ℕ)
      → header_size + length pdu.body ≤ max_pdu
      → read_body refused
          (header_size + length pdu.body)
          pdu.command_id
          pdu.command_status
          pdu.sequence_number
          (session sequence (pdu.body ++ rest) ending written)
        ≡ (session sequence rest ending written, ok pdu)
  unfolding read_body
  read_body-append pdu sequence rest ending written fits =
      let sized : (ltb (header_size + length pdu.body) header_size
            || ltb max_pdu (header_size + length pdu.body))
          ≡ false =
        ground arith in
      let left : header_size + length pdu.body - header_size ≡ length pdu.body = omega arith in
      rw (sized, left, read_exact-append sequence pdu.body rest ending written) refl

  read_header-words :
      (size id status number : ℕ) (s : Session)
      → size < 0x100000000
      → id < 0x100000000
      → status < 0x100000000
      → number < 0x100000000
      → read_header refused (word size ++ (word id ++ (word status ++ word number))) s
        ≡ read_body refused size id status number s
  unfolding read_header
  read_header-words size id status number s e₁ e₂ e₃ e₄ =
      rw (of_word-word size e₁, of_word-word id e₂, of_word-word status e₃, of_word-word number e₄)
        refl

  read-words :
      (size id status number sequence : ℕ) (more : List ℕ) (ending : Ending) (written : List ℕ)
      → read refused (
          session sequence
            ((word size ++ (word id ++ (word status ++ word number))) ++ more)
            ending
            written)
        ≡ read_header refused
            (word size ++ (word id ++ (word status ++ word number)))
            (session sequence more ending written)
  unfolding read
  read-words size id status number sequence more ending written =
      rw
        (read_exact-append sequence (word size ++ (word id ++ (word status ++ word number))) more
          ending written)
        refl

  -- `_read` reads back a PDU that was encoded, and leaves what follows it.
  pub read-encode_pdu :
      (pdu : Pdu) (sequence : ℕ) (rest : List ℕ) (ending : Ending) (written : List ℕ)
      → Fits pdu
      → read refused (session sequence (encode_pdu pdu ++ rest) ending written)
        ≡ (session sequence rest ending written, ok pdu)
  unfolding encode_pdu
  read-encode_pdu pdu sequence rest ending written (id, status, number, fits) =
      let size = header_size + length pdu.body in
      read-words size pdu.command_id pdu.command_status pdu.sequence_number sequence
        (pdu.body ++ rest) ending written
      ∙ read_header-words size pdu.command_id pdu.command_status pdu.sequence_number
          (session sequence (pdu.body ++ rest) ending written) (omega (arith, fits)) id status
          number
      ∙ read_body-append pdu sequence rest ending written fits

  -- A request of the SMSC that does not end the session.
  abbrev pub IsAsked : Pdu → Type 0
  IsAsked pdu = Fits pdu × (pdu.command_id < response_bit) × (pdu.command_id ≢ unbind)

  abbrev pub AllAsked : List Pdu → Type 0
  AllAsked [] = true ≡ true
  AllAsked (p ∷ ps) = IsAsked p × AllAsked ps

  -- The bytes of PDUs, and of the answers to them.
  abbrev pub encoded : List Pdu → List ℕ
  encoded [] = []
  encoded (p ∷ ps) = encode_pdu p ++ encoded ps

  abbrev pub answers : List Pdu → List ℕ
  answers [] = []
  answers (p ∷ ps) = encode_pdu (answer_pdu refused p) ++ answers ps

  module _ (accepts : (written : List ℕ) → refused written ≡ false) where
    pub write-accepted :
        (pdu : Pdu) (sequence : ℕ) (incoming : List ℕ) (ending : Ending) (written : List ℕ)
        → write refused pdu (session sequence incoming ending written)
          ≡ (session sequence incoming ending (written ++ encode_pdu pdu), ok true)
    unfolding write
    write-accepted pdu sequence incoming ending written = rw (accepts written) refl

    answer-asked :
        (pdu : Pdu) (sequence : ℕ) (incoming : List ℕ) (ending : Ending) (written : List ℕ)
        → pdu.command_id ≢ unbind
        → answer refused pdu (session sequence incoming ending written) ≡ (
          session sequence incoming ending (written ++ encode_pdu (answer_pdu refused pdu)),
          ok true,
        )
    unfolding answer
    answer-asked pdu sequence incoming ending written other =
        let stays : (pdu.command_id == unbind) ≡ false = ground arith in
        rw (write-accepted (answer_pdu refused pdu) sequence incoming ending written)
          (rw stays refl)

    take_pdu-asked :
        (p : Pdu) (more : Session → Attempt Pdu) (expected number sequence : ℕ) (incoming : List ℕ)
        (ending : Ending) (written : List ℕ)
        → IsAsked p
        → take_pdu refused expected number more p (session sequence incoming ending written)
          ≡ more (session sequence incoming ending (written ++ encode_pdu (answer_pdu refused p)))
    unfolding take_pdu
    take_pdu-asked p more expected number sequence incoming ending written (fits, id, other) =
        let no_nack : (p.command_id == generic_nack) ≡ false = ground arith in
        let asks : is_response refused p ≡ false = ground arith in
        rw (no_nack, asks)
          (ap (λ (t : Attempt Bool). and_then t (λ done s. more s))
            (answer-asked p sequence incoming ending written other))

    await-one :
        (p : Pdu) (k expected sequence number : ℕ) (more : List ℕ) (ending : Ending)
        (written : List ℕ)
        → IsAsked p
        → await refused
            (suc k)
            expected
            number
            (session sequence (encode_pdu p ++ more) ending written)
          ≡ await refused k expected number
              (session sequence more ending (written ++ encode_pdu (answer_pdu refused p)))
    unfolding await
    await-one p k expected sequence number more ending written (fits, id, other) =
        ap
          (λ (t : Attempt Pdu). and_then t (λ pdu s.
            take_pdu refused expected number (λ s'. await refused k expected number s') pdu s))
          (read-encode_pdu p sequence more ending written fits)
        ∙ take_pdu-asked p (λ s'. await refused k expected number s') expected number sequence more
            ending written (fits, id, other)

    pub await-asked :
        (asked : List Pdu) (k expected sequence number : ℕ) (rest : List ℕ) (ending : Ending)
        (written : List ℕ)
        → AllAsked asked
        → length asked ≤ k
        → await refused k expected number (session sequence (encoded asked ++ rest) ending written)
          ≡ await refused
              (k - length asked)
              expected
              number
              (session sequence rest ending (written ++ answers asked))
    await-asked [] k expected sequence number rest ending written all enough =
        let same : k - 0 ≡ k = omega arith in rw (same, append-nil written) refl
    await-asked (p ∷ ps) zero expected sequence number rest ending written all enough =
        absurd (omega arith)
    await-asked (p ∷ ps) (suc k) expected sequence number rest ending written (one, all) enough =
        let less : suc k - suc (length ps) ≡ k - length ps = omega arith in
        ap (λ t. await refused (suc k) expected number (session sequence t ending written))
          (append_assoc (encode_pdu p) (encoded ps) rest)
        ∙ await-one p k expected sequence number (encoded ps ++ rest) ending written one
        ∙ await-asked ps k expected sequence number rest ending
            (written ++ encode_pdu (answer_pdu refused p)) all (omega (arith, enough))
        ∙ ap (λ t. await refused (k - length ps) expected number (session sequence rest ending t))
            (append_assoc written (encode_pdu (answer_pdu refused p)) (answers ps))
        ∙ ap
            (λ (t : ℕ). await refused t expected number (
              session sequence rest ending
                (written ++ (encode_pdu (answer_pdu refused p) ++ answers ps))))
            (sym less)

    -- The response to the request: of the right kind, and with its number.
    abbrev pub IsResponse : (command_id number : ℕ) → Pdu → Type 0
    IsResponse command_id number p =
        Fits p
        × (p.command_id ≡ command_id + response_bit)
        × (p.sequence_number ≡ number)
        × (0 < command_id)

    take_pdu-response :
        (p : Pdu) (more : Session → Attempt Pdu) (command_id number : ℕ) (s : Session)
        → IsResponse command_id number p
        → take_pdu refused (command_id + response_bit) number more p s ≡ (s, ok p)
    unfolding take_pdu
    take_pdu-response p more command_id number s (fits, id, own, some_id) =
        let no_nack : (p.command_id == generic_nack) ≡ false = ground arith in
        let responds : is_response refused p ≡ true = ground arith in
        let same : (p.command_id == command_id + response_bit) ≡ true = ground arith in
        let same' : (p.sequence_number == number) ≡ true = ground arith in
        rw (no_nack, responds, same, same') refl

    await-response :
        (p : Pdu) (k command_id number sequence : ℕ) (more : List ℕ) (ending : Ending)
        (written : List ℕ)
        → IsResponse command_id number p
        → await refused
            (suc k)
            (command_id + response_bit)
            number
            (session sequence (encode_pdu p ++ more) ending written)
          ≡ (session sequence more ending written, ok p)
    unfolding await
    await-response p k command_id number sequence more ending written (fits, id, own, some_id) =
        ap
          (λ (t : Attempt Pdu). and_then t (λ pdu s.
            take_pdu refused (command_id + response_bit) number
              (λ s'. await refused k (command_id + response_bit) number s') pdu s))
          (read-encode_pdu p sequence more ending written fits)
        ∙ take_pdu-response p (λ s'. await refused k (command_id + response_bit) number s')
            command_id number (session sequence more ending written) (fits, id, own, some_id)

    length-encoded : (asked : List Pdu) → length asked ≤ length (encoded asked)
    unfolding encode_pdu
    length-encoded [] = omega arith
    length-encoded (p ∷ ps) =
        omega (arith, length-encoded ps, length-append (encode_pdu p) (encoded ps))

    -- What the session has written after a request and the answers in between.
    abbrev pub after_request :
        (command_id number : ℕ) → (body : List ℕ) → List Pdu → List ℕ → List ℕ
    after_request command_id number body asked written =
        (written
          ++ encode_pdu (record {
            command_id = command_id;
            command_status = esme_rok;
            sequence_number = number;
            body = body;
          }))
        ++ answers asked

    -- A request returns its response also when the SMSC asks something before it: each such PDU is
    -- answered in its order, and what follows the response is left. The conditions: what the SMSC asks
    -- are requests other than unbind, every PDU is within the limits of the reader, and nothing that is
    -- written is refused.
    pub request-IsResponse :
        (command_id sequence : ℕ) (body : List ℕ) (asked : List Pdu) (p : Pdu) (rest : List ℕ)
        (ending : Ending) (written : List ℕ)
        → AllAsked asked
        → IsResponse command_id (next_sequence sequence) p
        → request refused command_id body
            (session sequence (encoded asked ++ (encode_pdu p ++ rest)) ending written)
          ≡ (
            session
                (next_sequence sequence)
                rest
                ending
                (after_request command_id (next_sequence sequence) body asked written),
            ok p,
          )
    unfolding request
    request-IsResponse command_id sequence body asked p rest ending written all response =
        let number = next_sequence sequence in
        let incoming = encoded asked ++ (encode_pdu p ++ rest) in
        let asking : Pdu = record {
          command_id = command_id;
          command_status = esme_rok;
          sequence_number = number;
          body = body;
        } in
        let fuel : suc (length incoming) - length asked ≡ suc (length incoming - length asked) =
          omega
            (arith, length-encoded asked, length-append (encoded asked) (encode_pdu p ++ rest)) in
        ap
          (λ (t : Attempt Bool). and_then t (λ done s.
            await refused (suc (length s.incoming)) (command_id + response_bit) number s))
          (write-accepted asking number incoming ending written)
        ∙ await-asked asked (suc (length incoming)) (command_id + response_bit) number number
            (encode_pdu p ++ rest) ending (written ++ encode_pdu asking) all
            (omega
              (arith, length-encoded asked, length-append (encoded asked) (encode_pdu p ++ rest)))
        ∙ ap
            (λ (t : ℕ). await refused t (command_id + response_bit) number (
              session number (encode_pdu p ++ rest) ending
                ((written ++ encode_pdu asking) ++ answers asked)))
            fuel
        ∙ await-response p (length incoming - length asked) command_id number number rest ending
            ((written ++ encode_pdu asking) ++ answers asked) response
