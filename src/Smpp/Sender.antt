-- ===== src/Smpp/Sender.antt =====
-- src/acs/sms/smpp.py, `SmppSmsSender`: the bodies of its requests, and one send.
use auto_configuration_serve.Prelude.{
  ℕ, zero, suc, String, Bool, false, Option, none, some, List, [], ◌∷◌, ◌++◌, leb, ◌==◌, length,
  truthy, Result, ok, raise, ◌||◌, not, ◌>>=◌, if◌then◌else◌,
}
use Prim.Native.Char.{code}
use Prim.Native.String.{◌++◌ as str_append}
use auto_configuration_serve.Models.{SmsMessage}
use auto_configuration_serve.Service.{SmsRequest}
use auto_configuration_serve.Store.{MemoryStore, record_sms}
use auto_configuration_serve.Smpp.{
  SmppFault, octet_out_of_range, no_host, unusable_timeout, bind_refused, submit_refused, submit_sm,
  unbind, bind_transceiver, esme_rok, c_octet, Codecs, encode_short_message,
}
use auto_configuration_serve.Smpp.Session.{Session, Attempt, and_then, request}

-- What `__init__` is given.
pub record SenderArguments : Type 0 where
  pub host : String
  pub system_id : String
  pub password : String
  pub system_type : String
  pub source_addr : String
  pub source_addr_ton : ℕ
  pub source_addr_npi : ℕ
  pub dest_addr_ton : ℕ
  pub dest_addr_npi : ℕ
  -- whether `timeout` is finite and above 0
  pub usable_timeout : Bool

-- What it keeps.
pub record Sender : Type 0 where
  pub bind_body : List ℕ
  pub settings : SenderArguments

unfoldable pub bind_body_of : SenderArguments → Result SmppFault (List ℕ)
unfolding c_octet
bind_body_of a = do
  system_id ← c_octet a.system_id 16
  password ← c_octet a.password 9
  system_type ← c_octet a.system_type 13
  ok (system_id ++ (password ++ (system_type ++ 0x34 ∷ 0 ∷ 0 ∷ 0 ∷ [])))

unfoldable pub new_sender : SenderArguments → Result SmppFault Sender
unfolding bind_body_of c_octet
new_sender a = do
  bind_body ← bind_body_of a
  if not (leb a.source_addr_ton 0xff)
        || (not (leb a.source_addr_npi 0xff)
            || (not (leb a.dest_addr_ton 0xff) || not (leb a.dest_addr_npi 0xff)))
      then raise octet_out_of_range
      else if truthy a.source_addr
      then (do
        source ← c_octet a.source_addr 21
        ok (record { bind_body = bind_body; settings = a }))
      else ok (record { bind_body = bind_body; settings = a })

-- `msisdn.lstrip("+")`.
unfoldable pub without_plus : String → String
without_plus String.[] = String.[]
without_plus (String.◌∷◌ c s) =
    let rest = without_plus s in if code c == 0x2b then rest else String.◌∷◌ c s

unfoldable pub requires_binary : SmsRequest → Bool
requires_binary sms = elim sms.sms_port [ none ↦ false | some port ↦ not (port == 0) ]

-- `SmsResult`.
pub record SmsResult : Type 0 where
  pub message_id : String
  pub binary : Bool

-- `submit_sm_resp_body[:end]`, the whole body where no NUL ends it.
unfoldable pub message_id_of : List ℕ → List ℕ
message_id_of [] = []
message_id_of (b ∷ body) = elim b [ zero ↦ [] | suc n ↦ suc n ∷ message_id_of body ]

module _ (codecs : Codecs) (refused : List ℕ → Bool) (reference_of : List ℕ → String) where
  unfoldable pub submit_sm_body : Sender → SmsRequest → Result SmppFault (List ℕ)
  unfolding encode_short_message c_octet without_plus
  submit_sm_body sender sms = do
    message ← encode_short_message codecs sms 0
    let a = sender.settings
    source ← c_octet (if truthy a.source_addr then a.source_addr else sms.sender_id) 21
    dest ← c_octet (without_plus sms.msisdn) 21
    ok (
        (0 ∷ a.source_addr_ton ∷ a.source_addr_npi ∷ [])
        ++ (source
            ++ ((a.dest_addr_ton ∷ a.dest_addr_npi ∷ [])
                ++ (dest
                    ++ ((message.esm_class ∷ 0 ∷ 0 ∷ 0 ∷ 0 ∷ 0 ∷ 0 ∷ message.data_coding ∷ 0 ∷ [])
                        ++ (length message.short_message ∷ message.short_message))))))

  -- `_unbind`: what it raises is dropped.
  unfoldable pub unbind_session : Session → Session
  unfolding request
  unbind_session s = (request refused unbind [] s).0

  -- The requests of `send` on a connection.
  unfoldable pub exchange : List ℕ → List ℕ → Session → Attempt (List ℕ)
  unfolding request unbind_session
  exchange bind_body body s = and_then (request refused bind_transceiver bind_body s) (λ bind s₁.
      if not (bind.command_status == esme_rok)
      then (s₁, raise bind_refused)
      else and_then (request refused submit_sm body s₁) (λ submit s₂. (
        unbind_session s₂,
        if not (submit.command_status == esme_rok) then raise submit_refused else ok submit.body,
      )))

  abbrev pub audit_record : SmsRequest → String → ℕ → SmsMessage
  audit_record sms reference clock = record {
    msisdn = sms.msisdn;
    body = str_append "<redacted:" (str_append reference ">");
    sms_port = sms.sms_port;
    sent_at = clock;
    provider = "smpp";
    binary = requires_binary sms;
  }

  -- The store is none where the sender has none. A connection that fails is an exception.
  unfoldable pub send :
      Sender
      → SmsRequest
      → (connection : Result SmppFault Session) → (clock : ℕ) → Option MemoryStore
      → Option MemoryStore × Result SmppFault SmsResult
  unfolding submit_sm_body exchange message_id_of requires_binary record_sms
  send sender sms connection clock store =
      let a = sender.settings in
      let outcome =
        if not (truthy a.host)
        then raise no_host
        else if not a.usable_timeout
        then raise unusable_timeout
        else (do
          body ← submit_sm_body sender sms
          session ← connection
          (exchange sender.bind_body body session).1) in
      elim outcome as (λ _. Option MemoryStore × Result SmppFault SmsResult) [
        | raise exc ↦ (store, raise exc)
        | ok response ↦
            let reference = reference_of (message_id_of response) in
            (
              elim store [
                | none ↦ none
                | some kept ↦ some (record_sms kept (audit_record sms reference clock))
              ],
              ok (record { message_id = reference; binary = requires_binary sms }),
            )
      ]
