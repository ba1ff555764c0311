-- ===== src/Store.antt =====
-- src/acs/store/memory.py and the port in src/acs/store/base.py: the dictionary-backed store. A
-- method is a function of the store, the clock where it reads one, and its arguments; one that
-- writes returns the new store. The lock makes each method one atomic step.
pub mod Subscribers
pub mod Tokens
pub mod Otps
pub mod Sends
pub mod Aliasing
mod Runs
use auto_configuration_serve.Prelude.{
  ℕ, ◌+◌, ◌-◌, String, Bool, true, false, Option, none, some, List, [], ◌∷◌, ◌++◌, ◌==◌, ◌&&◌, ◌||◌,
  not, ltb, leb, truthy, str_eq, length, take, drop, keep, if◌then◌else◌,
}
use mathlib.Core.List.{reverse}
use auto_configuration_serve.Prelude.Dict
use auto_configuration_serve.Prelude.Dict.{Dict}
use auto_configuration_serve.Models.{
  Subscriber, OtpChallenge, TokenRecord, Device, DmSession, DmPendingPackage, SmsMessage, expired,
  same_code,
}

pub record MemoryStore : Type 0 where
  pub subscribers : Dict Subscriber
  pub msisdn_index : Dict String
  pub otp : Dict OtpChallenge
  pub otp_sends : Dict (List ℕ)
  pub tokens : Dict TokenRecord
  pub devices : Dict Device
  pub dm_sessions : Dict DmSession
  pub dm_pending : Dict DmPendingPackage
  pub sms : List SmsMessage

abbrev pub empty_store : MemoryStore
empty_store = record {
  subscribers = Dict.empty;
  msisdn_index = Dict.empty;
  otp = Dict.empty;
  otp_sends = Dict.empty;
  tokens = Dict.empty;
  devices = Dict.empty;
  dm_sessions = Dict.empty;
  dm_pending = Dict.empty;
  sms = [];
}

-- Subscribers, with the index from MSISDN to IMSI.
unfoldable pub get_subscriber : MemoryStore → String → Option Subscriber
get_subscriber store imsi = Dict.get store.subscribers imsi

unfoldable pub get_subscriber_by_msisdn : MemoryStore → String → Option Subscriber
get_subscriber_by_msisdn store msisdn = elim (Dict.get store.msisdn_index msisdn) [
  | none ↦ none
  | some imsi ↦ if truthy imsi then Dict.get store.subscribers imsi else none
]

-- The index without the entry of a number that a subscriber gives up.
unfoldable pub index_without_old : Option Subscriber → String → Dict String → Dict String
index_without_old none msisdn index = index
index_without_old (some previous) msisdn index =
    if str_eq previous.msisdn msisdn then index else Dict.pop index previous.msisdn

unfoldable pub put_subscriber : MemoryStore → Subscriber → MemoryStore
unfolding index_without_old
put_subscriber store subscriber = record store {
  subscribers = Dict.put store.subscribers subscriber.imsi subscriber;
  msisdn_index =
      Dict.put
        (index_without_old (Dict.get store.subscribers subscriber.imsi) subscriber.msisdn
          store.msisdn_index)
        subscriber.msisdn subscriber.imsi;
}

unfoldable pub delete_subscriber : MemoryStore → String → MemoryStore
delete_subscriber store imsi = elim (Dict.get store.subscribers imsi) [
  | none ↦ store
  | some subscriber ↦ record store {
    subscribers = Dict.pop store.subscribers imsi;
    msisdn_index = Dict.pop store.msisdn_index subscriber.msisdn;
  }
]

unfoldable pub list_subscribers : MemoryStore → ℕ → List Subscriber
list_subscribers store limit = take limit (Dict.values store.subscribers)

-- OTP challenges.
unfoldable pub get_otp : MemoryStore → String → Option OtpChallenge
get_otp store msisdn = Dict.get store.otp msisdn

pub data RefusalReason : Type 0 where
  cooldown daily_quota : RefusalReason

pub record OtpIssueRefused : Type 0 where
  pub reason : RefusalReason
  pub retry_after : ℕ

-- The sends that still count: those of the 86400 seconds before `now`.
unfoldable pub recent_sends : List ℕ → ℕ → List ℕ
recent_sends sends now = keep (λ t. leb (now - 86400) t) sends

unfoldable pub sends_of : MemoryStore → String → List ℕ
sends_of store msisdn = elim (Dict.get store.otp_sends msisdn) [ none ↦ [] | some sends ↦ sends ]

-- Seconds of the cooldown that are left, for a challenge that is neither consumed nor expired.
-- `age < cooldown_seconds` with `age = now - created_at` is written without the difference, which
-- Python lets be negative.
unfoldable pub cooldown_left : Option OtpChallenge → ℕ → ℕ → ℕ → Option ℕ
unfolding expired
cooldown_left none cooldown_seconds now clock = none
cooldown_left (some existing) cooldown_seconds now clock =
    if not existing.consumed
      && (not (expired existing (some now) clock)
          && ltb now (existing.created_at + cooldown_seconds))
    then some (existing.created_at + cooldown_seconds - now)
    else none

unfoldable pub issue_otp :
    MemoryStore → ℕ → OtpChallenge → ℕ → ℕ → ℕ → MemoryStore × Option OtpIssueRefused
unfolding recent_sends sends_of cooldown_left get_otp
issue_otp store clock challenge cooldown_seconds max_sends_per_day now =
    elim (cooldown_left (get_otp store challenge.msisdn) cooldown_seconds now clock) [
      | some left ↦ (store, some (record { reason = cooldown; retry_after = left }))
      | none ↦
          let sends = recent_sends (sends_of store challenge.msisdn) now in
          if leb max_sends_per_day (length sends)
          then (store, some (record { reason = daily_quota; retry_after = 3600 }))
          else (
            record store {
              otp_sends = Dict.put store.otp_sends challenge.msisdn (sends ++ now ∷ []);
              otp = Dict.put store.otp challenge.msisdn challenge;
            },
            none,
          )
    ]

-- The condition of the conditional writes.
unfoldable pub unchanged : OtpChallenge → OtpChallenge → Bool
unfolding same_code
unchanged current expected =
    if not (current.attempts == expected.attempts)
    then false
    else if truthy expected.challenge_id
    then str_eq current.challenge_id expected.challenge_id
    else same_code current expected

unfoldable pub replace_otp : MemoryStore → OtpChallenge → Option OtpChallenge → MemoryStore × Bool
unfolding unchanged
replace_otp store expected replacement = elim (Dict.get store.otp expected.msisdn) [
  | none ↦ (store, false)
  | some current ↦ if not (unchanged current expected) then (store, false) else elim replacement [
    | none ↦ (record store { otp = Dict.pop store.otp expected.msisdn }, true)
    | some next ↦ (record store { otp = Dict.put store.otp expected.msisdn next }, true)
  ]
]

-- Provisioning tokens, by digest.
unfoldable pub put_token : MemoryStore → TokenRecord → MemoryStore
put_token store token = record store { tokens = Dict.put store.tokens token.token_hash token }

unfoldable pub get_token : MemoryStore → String → Option TokenRecord
get_token store token_hash = Dict.get store.tokens token_hash

unfoldable pub revoke_token : MemoryStore → String → MemoryStore
revoke_token store token_hash = elim (Dict.get store.tokens token_hash) [
  | none ↦ store
  | some token ↦ record store {
    tokens = Dict.put store.tokens token_hash (record token { revoked = true });
  }
]

-- One round of the loop of `revoke_tokens_for_imsi`.
unfoldable pub live_token_of : String → TokenRecord → Bool
live_token_of imsi token = str_eq token.imsi imsi && not token.revoked

unfoldable pub revoke_if_live : String → TokenRecord → TokenRecord
unfolding live_token_of
revoke_if_live imsi token =
    if live_token_of imsi token then record token { revoked = true } else token

unfoldable pub revoke_tokens_for_imsi : MemoryStore → String → MemoryStore × ℕ
unfolding revoke_if_live
revoke_tokens_for_imsi store imsi = (
  record store { tokens = Dict.map_values (revoke_if_live imsi) store.tokens },
  length (keep (live_token_of imsi) (Dict.values store.tokens)),
)

-- Devices.
unfoldable pub put_device : MemoryStore → Device → MemoryStore
put_device store device = record store { devices = Dict.put store.devices device.device_id device }

unfoldable pub get_device : MemoryStore → String → Option Device
get_device store device_id = Dict.get store.devices device_id

unfoldable pub list_devices : MemoryStore → ℕ → List Device
list_devices store limit = take limit (Dict.values store.devices)

-- Whether an `expires_at` that is not 0 has passed.
unfoldable pub gone : ℕ → ℕ → Bool
gone expires_at clock = not (expires_at == 0) && ltb expires_at clock

-- OMA-DM sessions and the remainders beside them; reading one that has expired removes it.
unfoldable pub put_dm_session : MemoryStore → DmSession → MemoryStore
put_dm_session store session = record store {
  dm_sessions = Dict.put store.dm_sessions session.session_id session;
}

unfoldable pub get_dm_session : MemoryStore → ℕ → String → MemoryStore × Option DmSession
unfolding gone
get_dm_session store clock session_id = elim (Dict.get store.dm_sessions session_id) [
  | none ↦ (store, none)
  | some session ↦
      if gone session.expires_at clock
      then (record store { dm_sessions = Dict.pop store.dm_sessions session_id }, none)
      else (store, some session)
]

unfoldable pub delete_dm_session : MemoryStore → String → MemoryStore
delete_dm_session store session_id = record store {
  dm_sessions = Dict.pop store.dm_sessions session_id;
}

unfoldable pub put_dm_pending : MemoryStore → DmPendingPackage → MemoryStore
put_dm_pending store pending = record store {
  dm_pending = Dict.put store.dm_pending pending.session_id pending;
}

unfoldable pub get_dm_pending : MemoryStore → ℕ → String → MemoryStore × Option DmPendingPackage
unfolding gone
get_dm_pending store clock session_id = elim (Dict.get store.dm_pending session_id) [
  | none ↦ (store, none)
  | some pending ↦
      if gone pending.expires_at clock
      then (record store { dm_pending = Dict.pop store.dm_pending session_id }, none)
      else (store, some pending)
]

unfoldable pub delete_dm_pending : MemoryStore → String → MemoryStore
delete_dm_pending store session_id = record store {
  dm_pending = Dict.pop store.dm_pending session_id;
}

-- The outbox keeps the last 500 messages.
unfoldable pub record_sms : MemoryStore → SmsMessage → MemoryStore
record_sms store message =
    let all = store.sms ++ message ∷ [] in record store { sms = drop (length all - 500) all }

unfoldable pub addressed_to : Option String → SmsMessage → Bool
addressed_to none message = true
addressed_to (some msisdn) message = str_eq message.msisdn msisdn

unfoldable pub list_sms : MemoryStore → Option String → ℕ → List SmsMessage
unfolding addressed_to
list_sms store msisdn limit = take limit (reverse (keep (addressed_to msisdn) store.sms))
