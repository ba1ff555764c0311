-- ===== src/Dynamo/Rounds.antt =====
-- src/acs/store/dynamodb.py, issue_otp: how a round ends, and when the loop ends with it.
use auto_configuration_serve.Prelude.{
  ℕ, suc, ◌≡◌, ◌≢◌, refl, true, false, Option, none, some, length, Bool-cases, Option-cases, inl,
  inr, ◌⊎◌, leb,
}
use auto_configuration_serve.Models.{OtpChallenge}
use auto_configuration_serve.Store.{cooldown, daily_quota, recent_sends, cooldown_left}
use auto_configuration_serve.Dynamo.{
  Quota, Reply, written, condition_failed, other_error, Table, history_of, Issued, issued, refused,
  contended, faulted, still_open, write_both, decide_issue, issue_round, issue_rounds,
}

pub Reply-cases : (r : Reply) → (r ≡ written) ⊎ ((r ≡ condition_failed) ⊎ (r ≡ other_error))
Reply-cases written = inl refl
Reply-cases condition_failed = inr (inl refl)
Reply-cases other_error = inr (inr refl)

module _ {T : Type 0} (table : Table T) where
  -- The same ends of a decision on the table.
  pub decide_issue_ends :
      (t : T) (quota : Option Quota) (existing : Option OtpChallenge) (clock : ℕ)
      (challenge : OtpChallenge) (cooldown_seconds max_sends_per_day now : ℕ)
      → ((left : ℕ) × (cooldown_left existing cooldown_seconds now clock ≡ some left)
          × (decide_issue table t quota existing clock challenge cooldown_seconds max_sends_per_day
                now
              ≡ (t, refused (record { reason = cooldown; retry_after = left }))))
        ⊎ (((cooldown_left existing cooldown_seconds now clock ≡ none)
              × (leb max_sends_per_day (length (recent_sends (history_of quota) now)) ≡ true)
              × (decide_issue table t quota existing clock challenge cooldown_seconds
                    max_sends_per_day now
                  ≡ (t, refused (record { reason = daily_quota; retry_after = 3600 }))))
            ⊎ ((cooldown_left existing cooldown_seconds now clock ≡ none)
                × (leb max_sends_per_day (length (recent_sends (history_of quota) now)) ≡ false)
                × (decide_issue table t quota existing clock challenge cooldown_seconds
                      max_sends_per_day now
                    ≡ write_both table t quota existing challenge now)))
  unfolding decide_issue
  decide_issue_ends t quota existing clock challenge cooldown_seconds max_sends_per_day now =
      elim (Option-cases (cooldown_left existing cooldown_seconds now clock)) [
        | inr (left, cooling) ↦ inl (left, cooling, rw (decide_issue, cooling) refl)
        | inl ready ↦
            elim (Bool-cases
              (leb max_sends_per_day (length (recent_sends (history_of quota) now)))) [
                | inl full ↦ inr (inl (ready, full, rw (decide_issue, ready, full) refl))
                | inr room ↦ inr (inr (ready, room, rw (decide_issue, ready, room) refl))
              ]
      ]

  -- A round that ends the loop.
  pub issue_rounds_ended :
      (others : ℕ → T → T) (k : ℕ) (t : T) (clock : ℕ) (challenge : OtpChallenge)
      (cooldown_seconds max_sends_per_day now : ℕ) (end : Issued)
      → (issue_round table others k t clock challenge cooldown_seconds max_sends_per_day now).1
        ≡ end
      → end ≢ still_open
      → issue_rounds table others (suc k) t clock challenge cooldown_seconds max_sends_per_day now
        ≡ (
          (issue_round table others k t clock challenge cooldown_seconds max_sends_per_day now).0,
          end,
        )
  unfolding issue_rounds
  issue_rounds_ended others k t clock challenge cooldown_seconds max_sends_per_day now issued e
        over =
      rw (issue_rounds, e) refl
  issue_rounds_ended others k t clock challenge cooldown_seconds max_sends_per_day now (refused r) e
        over =
      rw (issue_rounds, e) refl
  issue_rounds_ended others k t clock challenge cooldown_seconds max_sends_per_day now contended e
        over =
      rw (issue_rounds, e) refl
  issue_rounds_ended others k t clock challenge cooldown_seconds max_sends_per_day now faulted e
        over =
      rw (issue_rounds, e) refl
  issue_rounds_ended others k t clock challenge cooldown_seconds max_sends_per_day now still_open e
        over =
      absurd (over refl)
