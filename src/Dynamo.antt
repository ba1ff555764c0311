-- ===== src/Dynamo.antt =====
-- src/acs/store/dynamodb.py: issue_otp and replace_otp. The table is DynamoDB's and not in the
-- repository: its reads and its conditional writes are a parameter, and `IsTable` says what its
-- documentation promises of them for one number. `others` is what other requests do to the table
-- between two calls of one request.
pub mod Memory
pub mod Rounds
pub mod Alone
pub mod Among
pub mod Replaced
mod Runs
use auto_configuration_serve.Prelude.{
  ℕ, zero, suc, ◌+◌, ◌≡◌, String, Bool, true, false, Option, none, some, List, [], ◌∷◌, ◌++◌,
  length, truthy, str_eq, ◌&&◌, ◌==◌, leb, ltb, if◌then◌else◌,
}
use auto_configuration_serve.Models.{OtpChallenge}
use auto_configuration_serve.Store.{
  OtpIssueRefused, cooldown, daily_quota, recent_sends, cooldown_left,
}

-- The item `OTPQUOTA#<msisdn>`.
pub record Quota : Type 0 where
  pub sends : List ℕ
  pub version : ℕ

-- `attribute_not_exists(pk)`, or `version = :v`.
pub data QuotaCondition : Type 0 where
  no_quota : QuotaCondition
  version_is : ℕ → QuotaCondition

pub data ChallengeCondition : Type 0 where
  no_challenge : ChallengeCondition
  id_is : (challenge_id : String) (attempts : ℕ) → ChallengeCondition
  code_is : (otp_hash : String) (created_at attempts : ℕ) → ChallengeCondition

-- What the condition expressions mean for the stored item.
unfoldable pub quota_holds : QuotaCondition → Option Quota → Bool
quota_holds no_quota none = true
quota_holds no_quota (some q) = false
quota_holds (version_is v) none = false
quota_holds (version_is v) (some q) = q.version == v

unfoldable pub challenge_holds : ChallengeCondition → Option OtpChallenge → Bool
challenge_holds no_challenge none = true
challenge_holds no_challenge (some c) = false
challenge_holds (id_is i n) none = false
challenge_holds (id_is i n) (some c) = str_eq c.challenge_id i && (c.attempts == n)
challenge_holds (code_is h t n) none = false
challenge_holds (code_is h t n) (some c) =
    str_eq c.otp_hash h && ((c.created_at == t) && (c.attempts == n))

pub data Reply : Type 0 where
  written : Reply
  condition_failed : Reply
  other_error : Reply

pub record Table (T : Type 0) : Type 0 where
  pub get_quota : T → String → Option Quota
  pub get_challenge : T → String → Option OtpChallenge
  pub transact_write_items :
      T → String → QuotaCondition → Quota → ChallengeCondition → OtpChallenge → T × Reply
  pub put_challenge : T → String → ChallengeCondition → OtpChallenge → T × Reply
  pub delete_challenge : T → String → ChallengeCondition → T × Reply

-- The documented behaviour of the writes: one is made if and only if its conditions hold at that
-- moment, it changes the items it names alone, and a write that is refused changes none.
pub record IsTable {T : Type 0} (table : Table T) : Type 0 where
  pub transact_written :
      (t t' : T) (m : String) (qc : QuotaCondition) (q : Quota) (cc : ChallengeCondition)
      (c : OtpChallenge)
      → table.transact_write_items t m qc q cc c ≡ (t', written)
      → (quota_holds qc (table.get_quota t m) ≡ true)
        × (challenge_holds cc (table.get_challenge t m) ≡ true)
        × ((k : String)
            → (table.get_quota t' k ≡ (if str_eq m k then some q else table.get_quota t k))
              × (table.get_challenge t' k
                  ≡ (if str_eq m k then some c else table.get_challenge t k)))
  pub transact_failed :
      (t t' : T) (m : String) (qc : QuotaCondition) (q : Quota) (cc : ChallengeCondition)
      (c : OtpChallenge)
      → table.transact_write_items t m qc q cc c ≡ (t', condition_failed)
      → (t' ≡ t)
        × ((quota_holds qc (table.get_quota t m) && challenge_holds cc (table.get_challenge t m))
            ≡ false)
  pub put_written :
      (t t' : T) (m : String) (cc : ChallengeCondition) (c : OtpChallenge)
      → table.put_challenge t m cc c ≡ (t', written)
      → (challenge_holds cc (table.get_challenge t m) ≡ true)
        × ((k : String)
            → (table.get_quota t' k ≡ table.get_quota t k)
              × (table.get_challenge t' k
                  ≡ (if str_eq m k then some c else table.get_challenge t k)))
  pub put_failed :
      (t t' : T) (m : String) (cc : ChallengeCondition) (c : OtpChallenge)
      → table.put_challenge t m cc c ≡ (t', condition_failed)
      → (t' ≡ t) × (challenge_holds cc (table.get_challenge t m) ≡ false)
  pub delete_written :
      (t t' : T) (m : String) (cc : ChallengeCondition)
      → table.delete_challenge t m cc ≡ (t', written)
      → (challenge_holds cc (table.get_challenge t m) ≡ true)
        × ((k : String)
            → (table.get_quota t' k ≡ table.get_quota t k)
              × (table.get_challenge t' k ≡ (if str_eq m k then none else table.get_challenge t k)))
  pub delete_failed :
      (t t' : T) (m : String) (cc : ChallengeCondition)
      → table.delete_challenge t m cc ≡ (t', condition_failed)
      → (t' ≡ t) × (challenge_holds cc (table.get_challenge t m) ≡ false)

-- `_same_challenge`
unfoldable pub same_challenge : OtpChallenge → ChallengeCondition
same_challenge challenge =
    if truthy challenge.challenge_id
    then id_is challenge.challenge_id challenge.attempts
    else code_is challenge.otp_hash challenge.created_at challenge.attempts

abbrev pub quota_condition : Option Quota → QuotaCondition
quota_condition none = no_quota
quota_condition (some q) = version_is q.version

abbrev pub challenge_condition : Option OtpChallenge → ChallengeCondition
challenge_condition none = no_challenge
challenge_condition (some c) = same_challenge c

abbrev pub history_of : Option Quota → List ℕ
history_of none = []
history_of (some q) = q.sends

abbrev pub version_of : Option Quota → ℕ
version_of none = 0
version_of (some q) = q.version

-- How a call of `issue_otp` ends; `still_open` is a round that lost its conditions.
pub data Issued : Type 0 where
  issued : Issued
  refused : OtpIssueRefused → Issued
  contended : Issued
  faulted : Issued
  still_open : Issued

abbrev pub otp_write_rounds : ℕ
otp_write_rounds = 5

unfoldable pub after_write : Reply → Issued
after_write written = issued
after_write condition_failed = still_open
after_write other_error = faulted

module _ {T : Type 0} (table : Table T) where
  -- The write of a round that was not refused.
  unfoldable pub write_both : T → Option Quota → Option OtpChallenge → OtpChallenge → ℕ → T × Issued
  unfolding after_write same_challenge recent_sends
  write_both t quota existing challenge now =
      let (t', reply) =
        table.transact_write_items t challenge.msisdn (quota_condition quota)
          (record {
            sends = recent_sends (history_of quota) now ++ now ∷ [];
            version = version_of quota + 1;
          })
          (challenge_condition existing) challenge in
      (t', after_write reply)

  -- What was read decides; `t` is the table at the time of the write.
  unfoldable pub decide_issue :
      T → Option Quota → Option OtpChallenge → ℕ → OtpChallenge → ℕ → ℕ → ℕ → T × Issued
  unfolding write_both cooldown_left
  decide_issue t quota existing clock challenge cooldown_seconds max_sends_per_day now =
      elim (cooldown_left existing cooldown_seconds now clock) [
        | some left ↦ (t, refused (record { reason = cooldown; retry_after = left }))
        | none ↦
            if leb max_sends_per_day (length (recent_sends (history_of quota) now))
            then (t, refused (record { reason = daily_quota; retry_after = 3600 }))
            else write_both t quota existing challenge now
      ]

  module _ (others : ℕ → T → T) where
    unfoldable pub issue_round : ℕ → T → ℕ → OtpChallenge → ℕ → ℕ → ℕ → T × Issued
    unfolding decide_issue
    issue_round k t clock challenge cooldown_seconds max_sends_per_day now =
        let seen = others (k + k + k) t in
        let quota = table.get_quota seen challenge.msisdn in
        let between = others (k + k + k + 1) seen in
        let existing = table.get_challenge between challenge.msisdn in
        decide_issue (others (k + k + k + 2) between) quota existing clock challenge
          cooldown_seconds max_sends_per_day now

    -- `for _ in range(_OTP_WRITE_ROUNDS)`; rounds are numbered from the last.
    unfoldable pub issue_rounds : ℕ → T → ℕ → OtpChallenge → ℕ → ℕ → ℕ → T × Issued
    unfolding issue_round
    issue_rounds zero t clock challenge cooldown_seconds max_sends_per_day now = (t, contended)
    issue_rounds (suc k) t clock challenge cooldown_seconds max_sends_per_day now =
        let (t', end) = issue_round k t clock challenge cooldown_seconds max_sends_per_day now in
        let rest = issue_rounds k t' clock challenge cooldown_seconds max_sends_per_day now in
        elim end [
          | issued ↦ (t', issued)
          | refused why ↦ (t', refused why)
          | contended ↦ (t', contended)
          | faulted ↦ (t', faulted)
          | still_open ↦ rest
        ]

    unfoldable pub issue_otp_item : T → ℕ → OtpChallenge → ℕ → ℕ → ℕ → T × Issued
    unfolding issue_rounds
    issue_otp_item = issue_rounds otp_write_rounds

  -- none for an error other than a failed condition, which leaves `replace_otp`.
  abbrev pub condition_held : Reply → Option Bool
  condition_held written = some true
  condition_held condition_failed = some false
  condition_held other_error = none

  unfoldable pub replace_otp_item : T → OtpChallenge → Option OtpChallenge → T × Option Bool
  unfolding same_challenge
  replace_otp_item t expected none =
      let (t', reply) = table.delete_challenge t expected.msisdn (same_challenge expected) in
      (t', condition_held reply)
  replace_otp_item t expected (some replacement) =
      let (t', reply) =
        table.put_challenge t expected.msisdn (same_challenge expected) replacement in
      (t', condition_held reply)
