-- ===== src/Otp.antt =====
-- src/acs/auth/otp.py: issuing, verifying and discarding an SMS one-time password. The operations
-- on the store are atomic, and a request makes several: what other requests do to the store
-- between two of them is a parameter, `Interference`. SHA-256 and the random source are parameters.
pub mod Verify
pub mod Interfered
pub mod Race
mod Runs
use Prim.Native.String.{◌++◌ as str_append}
use auto_configuration_serve.Prelude.{
  ℕ, zero, suc, ◌+◌, String, Bool, true, false, Option, none, some, List, [], ◌∷◌, leb, int_or,
  str_eq, not, if◌then◌else◌,
}
use auto_configuration_serve.Models.{OtpChallenge, expired, same_issue}
use auto_configuration_serve.Store.{MemoryStore, get_otp, issue_otp, replace_otp, OtpIssueRefused}

pub record OtpPolicy : Type 0 where
  pub length : ℕ
  pub ttl_seconds : ℕ
  pub max_attempts : ℕ
  pub resend_cooldown_seconds : ℕ
  pub max_sends_per_day : ℕ

pub data OtpOutcome : Type 0 where
  verified no_challenge expired_code mismatch exhausted already_consumed : OtpOutcome

-- The text of a decimal digit.
abbrev digit_text : ℕ → String
digit_text zero = "0"
digit_text (suc zero) = "1"
digit_text (suc (suc zero)) = "2"
digit_text (suc (suc (suc zero))) = "3"
digit_text (suc (suc (suc (suc zero)))) = "4"
digit_text (suc (suc (suc (suc (suc zero))))) = "5"
digit_text (suc (suc (suc (suc (suc (suc zero)))))) = "6"
digit_text (suc (suc (suc (suc (suc (suc (suc zero))))))) = "7"
digit_text (suc (suc (suc (suc (suc (suc (suc (suc zero)))))))) = "8"
digit_text _ = "9"

-- The joined digits, one for each number drawn below 10.
unfoldable pub generate_otp : List ℕ → String
generate_otp [] = ""
generate_otp (d ∷ ds) = str_append (digit_text d) (generate_otp ds)

-- `digest` is SHA-256 in hexadecimal.
unfoldable pub hash_otp : (String → String) → String → String → String
hash_otp digest msisdn otp = digest (str_append msisdn (str_append ":" otp))

-- How a store's `issue_otp` ends. Only a store that other tasks write to can be contended.
pub data Issue : Type 0 where
  issued : Issue
  refused : OtpIssueRefused → Issue
  contention : Issue

abbrev pub IssueMethod : Type 0
IssueMethod = MemoryStore → ℕ → OtpChallenge → ℕ → ℕ → ℕ → MemoryStore × Issue

unfoldable pub memory_issue : IssueMethod
memory_issue store clock challenge cooldown cap now =
    let (store', refusal) = issue_otp store clock challenge cooldown cap now in
    (store', elim refusal [ none ↦ issued | some r ↦ refused r ])

pub data Created : Type 0 where
  created : OtpChallenge → String → Created
  send_blocked : OtpIssueRefused → Created
  store_contention : Created

-- The random draws: the digits of the code, and the id of the challenge.
pub record Draws : Type 0 where
  pub digits : List ℕ
  pub challenge_id : String

unfoldable pub new_challenge :
    (String → String) → Draws → String → String → OtpPolicy → Option ℕ → ℕ → OtpChallenge
unfolding generate_otp hash_otp
new_challenge digest draws msisdn imsi policy sms_port current = record {
  msisdn = msisdn;
  otp_hash = hash_otp digest msisdn (generate_otp draws.digits);
  imsi = imsi;
  created_at = current;
  expires_at = current + policy.ttl_seconds;
  attempts = 0;
  sms_port = sms_port;
  consumed = false;
  challenge_id = draws.challenge_id;
}

-- `now` is the optional argument, `clock` the reading of the clock.
unfoldable pub create_challenge :
    (String → String)
    → IssueMethod
    → Draws
    → MemoryStore
    → ℕ
    → String
    → String
    → OtpPolicy
    → Option ℕ
    → Option ℕ
    → MemoryStore × Created
unfolding new_challenge
create_challenge digest issue draws store clock msisdn imsi policy sms_port now =
    let current = int_or now clock in
    let challenge = new_challenge digest draws msisdn imsi policy sms_port current in
    let (store', answer) =
      issue store clock challenge policy.resend_cooldown_seconds policy.max_sends_per_day current in
    (
      store',
      elim answer [
        | issued ↦ created challenge (generate_otp draws.digits)
        | refused r ↦ send_blocked r
        | contention ↦ store_contention
      ],
    )

abbrev pub verify_rounds : ℕ
verify_rounds = 5

-- What other requests do to the store before the read and before the write of a round; a round is
-- named by the number of rounds left after it.
pub record Interference : Type 0 where
  pub before_read : ℕ → MemoryStore → MemoryStore
  pub before_write : ℕ → MemoryStore → MemoryStore

abbrev pub alone : Interference
alone = record { before_read = λ k s. s; before_write = λ k s. s }

-- What a round decides on the challenge it read.
pub data Decision : Type 0 where
  refuse : OtpOutcome → Decision
  -- delete the challenge if it is unchanged, and give the outcome whether it was or not
  sweep : OtpOutcome → Decision
  -- write the replacement if the challenge is unchanged, and give the outcome only then
  attempt : OtpOutcome → Option OtpChallenge → Decision

unfoldable pub decide :
    (String → String) → OtpChallenge → String → String → OtpPolicy → ℕ → ℕ → Decision
unfolding expired hash_otp
decide digest c msisdn otp policy current clock =
    if c.consumed
    then refuse already_consumed
    else if expired c (some current) clock
    then sweep expired_code
    else if leb policy.max_attempts c.attempts
    then sweep exhausted
    else if str_eq c.otp_hash (hash_otp digest msisdn otp)
    then attempt verified none
    else if leb policy.max_attempts (c.attempts + 1)
    then attempt exhausted none
    else attempt mismatch (some (record c { attempts = c.attempts + 1 }))

-- The write of a round on the challenge that it read. `none` for the outcome is a lost write.
unfoldable pub settle : MemoryStore → OtpChallenge → Decision → MemoryStore × Option OtpOutcome
settle store c (refuse outcome) = (store, some outcome)
settle store c (sweep outcome) = ((replace_otp store c none).0, some outcome)
settle store c (attempt outcome replacement) =
    let (store', won) = replace_otp store c replacement in
    (store', if won then some outcome else none)

-- A round whose write was lost is followed by the next.
unfoldable pub conclude :
    MemoryStore × Option OtpOutcome
    → (MemoryStore → MemoryStore × OtpOutcome)
    → MemoryStore × OtpOutcome
conclude (store, some outcome) next = (store, outcome)
conclude (store, none) next = next store

module _ (digest : String → String) (others : Interference) (msisdn otp : String)
    (policy : OtpPolicy) (current clock : ℕ) where
  -- `seen` is the store that was read, `held` the one that the write meets.
  unfoldable pub verify_round :
      Option OtpChallenge
      → MemoryStore
      → MemoryStore
      → (MemoryStore → MemoryStore × OtpOutcome)
      → MemoryStore × OtpOutcome
  unfolding decide settle conclude
  verify_round none seen held next = (seen, no_challenge)
  verify_round (some c) seen held next =
      conclude (settle held c (decide digest c msisdn otp policy current clock)) next

  unfoldable pub verify_loop : ℕ → MemoryStore → MemoryStore × OtpOutcome
  unfolding verify_round
  verify_loop zero store = (store, mismatch)
  verify_loop (suc k) store =
      let seen = others.before_read k store in
      verify_round (get_otp seen msisdn) seen (others.before_write k seen) (verify_loop k)

unfoldable pub verify_challenge :
    (String → String)
    → Interference
    → MemoryStore
    → ℕ
    → String
    → String
    → OtpPolicy
    → Option ℕ
    → MemoryStore × OtpOutcome
unfolding verify_loop
verify_challenge digest others store clock msisdn otp policy now =
    verify_loop digest others msisdn otp policy (int_or now clock) clock verify_rounds store

unfoldable pub conclude_discard :
    MemoryStore × Bool → (MemoryStore → MemoryStore × Bool) → MemoryStore × Bool
conclude_discard (store, true) next = (store, true)
conclude_discard (store, false) next = next store

unfoldable pub discard_round :
    OtpChallenge
    → Option OtpChallenge
    → MemoryStore
    → MemoryStore
    → (MemoryStore → MemoryStore × Bool)
    → MemoryStore × Bool
unfolding conclude_discard
discard_round challenge none seen held next = (seen, false)
discard_round challenge (some c) seen held next =
    if not (same_issue c challenge)
    then (seen, false)
    else conclude_discard (replace_otp held c none) next

unfoldable pub discard_loop : Interference → OtpChallenge → ℕ → MemoryStore → MemoryStore × Bool
unfolding discard_round
discard_loop others challenge zero store = (store, false)
discard_loop others challenge (suc k) store =
    let seen = others.before_read k store in
    discard_round challenge (get_otp seen challenge.msisdn) seen (others.before_write k seen)
      (discard_loop others challenge k)

unfoldable pub discard_challenge : Interference → MemoryStore → OtpChallenge → MemoryStore × Bool
unfolding discard_loop
discard_challenge others store challenge = discard_loop others challenge verify_rounds store
