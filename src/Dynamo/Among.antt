-- ===== src/Dynamo/Among.antt =====
-- src/acs/store/dynamodb.py: issue_otp while other requests change the same items.
use auto_configuration_serve.Prelude.{
  ℕ, zero, suc, ◌+◌, ◌≡◌, ◌≢◌, ◌≤◌, refl, sym, ap, ◌∙◌, true, false, Option, none, some, [], ◌∷◌,
  ◌++◌, length, length-append, eq_refl, arith, inl, inr, ◌⊎◌, leb,
}
use auto_configuration_serve.Models.{OtpChallenge}
use auto_configuration_serve.Store.{cooldown, daily_quota, recent_sends, cooldown_left}
use auto_configuration_serve.Dynamo.{
  Quota, quota_holds, challenge_holds, Reply, written, condition_failed, other_error, Table,
  IsTable, quota_condition, challenge_condition, history_of, version_of, Issued, issued, refused,
  contended, faulted, still_open, after_write, write_both, decide_issue, issue_round, issue_rounds,
  issue_otp_item, otp_write_rounds,
}
use auto_configuration_serve.Dynamo.Rounds.{decide_issue_ends, issue_rounds_ended}

-- A write that let a message through: `u` is the table it was made on, `quota` and `existing` what
-- it was decided on, `after` the table it left.
pub record IsWritten {T : Type 0} (table : Table T) (clock : ℕ) (challenge : OtpChallenge)
    (cooldown_seconds max_sends_per_day now : ℕ) (u : T) (quota : Option Quota)
    (existing : Option OtpChallenge) (after : T) : Type 0 where
  pub no_cooldown : cooldown_left existing cooldown_seconds now clock ≡ none
  pub quota_unchanged :
      quota_holds (quota_condition quota) (table.get_quota u challenge.msisdn) ≡ true
  pub challenge_unchanged :
      challenge_holds (challenge_condition existing) (table.get_challenge u challenge.msisdn) ≡ true
  pub made :
      table.transact_write_items u challenge.msisdn
        (quota_condition quota)
        (record {
          sends = recent_sends (history_of quota) now ++ now ∷ [];
          version = version_of quota + 1;
        })
        (challenge_condition existing)
        challenge
      ≡ (after, written)
  pub sends_kept :
      table.get_quota after challenge.msisdn
      ≡ some (record {
        sends = recent_sends (history_of quota) now ++ now ∷ [];
        version = version_of quota + 1;
      })
  pub within_cap : length (history_of (table.get_quota after challenge.msisdn)) ≤ max_sends_per_day
  pub challenge_stored : table.get_challenge after challenge.msisdn ≡ some challenge

-- The table after an issue that was let through, from the table `t`. The loop comes to a round that
-- starts on the table `start`; others act on it before the round reads the quota, before it reads
-- the challenge, and before it writes.
pub record IsGuarded {T : Type 0} (table : Table T) (clock : ℕ) (challenge : OtpChallenge)
    (cooldown_seconds max_sends_per_day now : ℕ) (others : ℕ → T → T) (rounds : ℕ) (t after : T)
    : Type 0 where
  pub round : ℕ
  pub start : T
  pub reached :
      issue_rounds table others rounds t clock challenge cooldown_seconds max_sends_per_day now
      ≡ issue_rounds table others
          (suc round)
          start
          clock
          challenge
          cooldown_seconds
          max_sends_per_day
          now
  pub wrote :
      IsWritten table clock challenge cooldown_seconds max_sends_per_day now
        (others
          (round + round + round + 2)
          (others (round + round + round + 1) (others (round + round + round) start)))
        (table.get_quota (others (round + round + round) start) challenge.msisdn)
        (table.get_challenge
          (others (round + round + round + 1) (others (round + round + round) start))
          challenge.msisdn)
        after

Issued-cases : (r : Issued) → (r ≡ still_open) ⊎ (r ≢ still_open)
Issued-cases still_open = inl refl
Issued-cases issued = inr (λ e. absurd (ground arith))
Issued-cases (refused r) = inr (λ e. absurd (ground arith))
Issued-cases contended = inr (λ e. absurd (ground arith))
Issued-cases faulted = inr (λ e. absurd (ground arith))

after_write-issued : (r : Reply) → after_write r ≡ issued → r ≡ written
unfolding after_write
after_write-issued written e = refl
after_write-issued condition_failed e = absurd (ground arith)
after_write-issued other_error e = absurd (ground arith)

module _ {T : Type 0} (table : Table T) (laws : IsTable table) (clock : ℕ)
    (challenge : OtpChallenge) (cooldown_seconds max_sends_per_day now : ℕ) where
  write_both-IsWritten :
      (t : T) (quota : Option Quota) (existing : Option OtpChallenge)
      → cooldown_left existing cooldown_seconds now clock ≡ none
      → leb max_sends_per_day (length (recent_sends (history_of quota) now)) ≡ false
      → (write_both table t quota existing challenge now).1 ≡ issued
      → IsWritten table clock challenge cooldown_seconds max_sends_per_day now t quota existing
          (write_both table t quota existing challenge now).0
  unfolding write_both
  write_both-IsWritten t quota existing ready room e =
      let m = challenge.msisdn in
      let sent = recent_sends (history_of quota) now in
      let next : Quota = record { sends = sent ++ now ∷ []; version = version_of quota + 1 } in
      let end =
        table.transact_write_items t m (quota_condition quota) next (challenge_condition existing)
          challenge in
      let done : end ≡ (end.0, written) = ap (λ r. (end.0, r)) (after_write-issued end.1 e) in
      let law =
        laws.transact_written t end.0 m (quota_condition quota) next (challenge_condition existing)
          challenge done in
      let now_quota : table.get_quota end.0 m ≡ some next = (law.2 m).0 ∙ rw (eq_refl m) refl in
      record {
        no_cooldown = ready;
        quota_unchanged = law.0;
        challenge_unchanged = law.1;
        made = done;
        sends_kept = now_quota;
        within_cap = rw now_quota (ground (arith, length-append sent (now ∷ [])));
        challenge_stored = (law.2 m).1 ∙ rw (eq_refl m) refl;
      }

  decide_issue-IsWritten :
      (t : T) (quota : Option Quota) (existing : Option OtpChallenge)
      → (decide_issue table t quota existing clock challenge cooldown_seconds max_sends_per_day
          now).1
        ≡ issued
      → IsWritten table clock challenge cooldown_seconds max_sends_per_day now t quota existing
          (decide_issue table t quota existing clock challenge cooldown_seconds max_sends_per_day
            now).0
  decide_issue-IsWritten t quota existing e =
      elim (decide_issue_ends table t quota existing clock challenge cooldown_seconds
        max_sends_per_day now) [
          | inl (left, cooling, ends) ↦
              let no : refused (record { reason = cooldown; retry_after = left }) ≡ issued =
                ap (λ x. x.1) (sym ends) ∙ e in
              absurd (ground arith)
          | inr (inl (ready, full, ends)) ↦
              let no : refused (record { reason = daily_quota; retry_after = 3600 }) ≡ issued =
                ap (λ x. x.1) (sym ends) ∙ e in
              absurd (ground arith)
          | inr (inr (ready, room, ends)) ↦
              rw ends
                (write_both-IsWritten t quota existing ready room (ap (λ x. x.1) (sym ends) ∙ e))
        ]

  issue_round-IsWritten :
      (others : ℕ → T → T) (k : ℕ) (t : T)
      → (issue_round table others k t clock challenge cooldown_seconds max_sends_per_day now).1
        ≡ issued
      → IsWritten table clock challenge cooldown_seconds max_sends_per_day now
          (others (k + k + k + 2) (others (k + k + k + 1) (others (k + k + k) t)))
          (table.get_quota (others (k + k + k) t) challenge.msisdn)
          (table.get_challenge (others (k + k + k + 1) (others (k + k + k) t)) challenge.msisdn)
          (issue_round table others k t clock challenge cooldown_seconds max_sends_per_day now).0
  unfolding issue_round
  issue_round-IsWritten others k t e =
      let seen = others (k + k + k) t in
      let between = others (k + k + k + 1) seen in
      decide_issue-IsWritten (others (k + k + k + 2) between)
        (table.get_quota seen challenge.msisdn) (table.get_challenge between challenge.msisdn) e

  issue_rounds_open :
      (others : ℕ → T → T) (k : ℕ) (t : T)
      → (issue_round table others k t clock challenge cooldown_seconds max_sends_per_day now).1
        ≡ still_open
      → issue_rounds table others (suc k) t clock challenge cooldown_seconds max_sends_per_day now
        ≡ issue_rounds table others k
            (issue_round table others k t clock challenge cooldown_seconds max_sends_per_day now).0
            clock
            challenge
            cooldown_seconds
            max_sends_per_day
            now
  unfolding issue_rounds
  issue_rounds_open others k t e = rw (issue_rounds, e) refl

  IsGuarded-earlier :
      (others : ℕ → T → T) (j k : ℕ) (t u : T)
      → issue_rounds table others j t clock challenge cooldown_seconds max_sends_per_day now
        ≡ issue_rounds table others k u clock challenge cooldown_seconds max_sends_per_day now
      → IsGuarded table clock challenge cooldown_seconds max_sends_per_day now others k u
          (issue_rounds table others k u clock challenge cooldown_seconds max_sends_per_day now).0
      → IsGuarded table clock challenge cooldown_seconds max_sends_per_day now others j t
          (issue_rounds table others j t clock challenge cooldown_seconds max_sends_per_day now).0
  IsGuarded-earlier others j k t u next later = record {
    round = later.round;
    start = later.start;
    reached = next ∙ later.reached;
    wrote = rw next later.wrote;
  }

  issue_rounds-IsGuarded :
      (others : ℕ → T → T) (k : ℕ) (t : T)
      → (issue_rounds table others k t clock challenge cooldown_seconds max_sends_per_day now).1
        ≡ issued
      → IsGuarded table clock challenge cooldown_seconds max_sends_per_day now others k t
          (issue_rounds table others k t clock challenge cooldown_seconds max_sends_per_day now).0
  unfolding issue_rounds
  issue_rounds-IsGuarded others zero t e = absurd (ground arith)
  issue_rounds-IsGuarded others (suc k) t e =
      let round =
        issue_round table others k t clock challenge cooldown_seconds max_sends_per_day now in
      elim (Issued-cases round.1) [
        | inl lost ↦
            let next = issue_rounds_open others k t lost in
            IsGuarded-earlier others (suc k) k t round.0 next
              (issue_rounds-IsGuarded others k round.0 (ap (λ x. x.1) (sym next) ∙ e))
        | inr over ↦
            let ended =
              issue_rounds_ended table others k t clock challenge cooldown_seconds max_sends_per_day
                now round.1 refl over in
            let wrote = issue_round-IsWritten others k t (ap (λ x. x.1) (sym ended) ∙ e) in
            record { round = k; start = t; reached = refl; wrote = rw ended wrote }
      ]

  -- Whatever other requests do to the table between its calls, an `issue_otp` that lets a message
  -- through comes to a round whose one write is what the table is left with. The quota and then the
  -- challenge that the round read decide it and are the conditions of that write; on the table it is
  -- made on, after the reads, they are still stored, the quota by its version and the challenge by
  -- its id (or its hash and the second of its creation, when it has no id) and its attempts. That
  -- challenge is not in its cooldown, the sends stored are the recent ones of that quota and this
  -- one, they are no more than the daily cap, and the new challenge is the one stored.
  pub issue_otp_item-IsGuarded :
      (others : ℕ → T → T) (t : T)
      → (issue_otp_item table others t clock challenge cooldown_seconds max_sends_per_day now).1
        ≡ issued
      → IsGuarded table clock challenge cooldown_seconds max_sends_per_day now others
          otp_write_rounds t
          (issue_otp_item table others t clock challenge cooldown_seconds max_sends_per_day now).0
  unfolding issue_otp_item
  issue_otp_item-IsGuarded others t e = issue_rounds-IsGuarded others 5 t e
