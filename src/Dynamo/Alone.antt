-- ===== src/Dynamo/Alone.antt =====
-- src/acs/store/dynamodb.py against store/memory.py: issue_otp when no other request comes between.
use auto_configuration_serve.Prelude.{
  ℕ, ◌+◌, ◌≡◌, ◌≢◌, refl, sym, ap, ◌∙◌, String, Bool, true, false, Option, none, some, [], ◌∷◌,
  ◌++◌, truthy, str_eq, eq_iff, arith, Bool-cases, inl, inr, if◌then◌else◌,
}
use auto_configuration_serve.Models.{OtpChallenge}
use auto_configuration_serve.Store.{
  MemoryStore, OtpIssueRefused, recent_sends, sends_of, get_otp, issue_otp,
}
use auto_configuration_serve.Dynamo.{
  Quota, quota_holds, challenge_holds, written, condition_failed, Table, IsTable, same_challenge,
  quota_condition, challenge_condition, history_of, version_of, Issued, issued, refused, faulted,
  still_open, after_write, write_both, decide_issue, issue_round, issue_otp_item,
}
use auto_configuration_serve.Dynamo.Memory.{
  stored_issue, get_otp-stored_issue, sends_of-stored_issue, issue_otp_cooling, issue_otp_full,
  issue_otp_stored,
}
use auto_configuration_serve.Dynamo.Rounds.{Reply-cases, decide_issue_ends, issue_rounds_ended}

-- The memory store and the table hold the same challenges and the same sends.
pub record IsSame {T : Type 0} (table : Table T) (store : MemoryStore) (t : T) : Type 0 where
  pub challenges_same : (m : String) → get_otp store m ≡ table.get_challenge t m
  pub sends_same : (m : String) → sends_of store m ≡ history_of (table.get_quota t m)

abbrev pub as_issued : Option OtpIssueRefused → Issued
as_issued none = issued
as_issued (some r) = refused r

quota_holds-quota_condition : (o : Option Quota) → quota_holds (quota_condition o) o ≡ true
unfolding quota_holds
quota_holds-quota_condition none = refl
quota_holds-quota_condition (some q) = ground arith

challenge_holds-challenge_condition :
    (o : Option OtpChallenge) → challenge_holds (challenge_condition o) o ≡ true
unfolding challenge_holds same_challenge
challenge_holds-challenge_condition none = refl
challenge_holds-challenge_condition (some c) = elim (Bool-cases (truthy c.challenge_id)) [
  | inl named ↦ rw named (ground (arith, eq_iff c.challenge_id c.challenge_id))
  | inr unnamed ↦ rw unnamed (ground (arith, eq_iff c.otp_hash c.otp_hash))
]

history_of-if :
    (b : Bool) (q : Quota) (o : Option Quota)
    → (if b then q.sends else history_of o) ≡ history_of (if b then some q else o)
history_of-if true q o = refl
history_of-if false q o = refl

module _ {T : Type 0} (table : Table T) (laws : IsTable table) where
  -- What a write ends with when it is conditioned on what is stored.
  write_both_alone :
      (store : MemoryStore) (t : T) (challenge : OtpChallenge) (now : ℕ)
      → IsSame table store t
      → (write_both table t
          (table.get_quota t challenge.msisdn)
          (table.get_challenge t challenge.msisdn)
          challenge
          now).1
        ≢ faulted
      → let end =
          write_both table t
            (table.get_quota t challenge.msisdn)
            (table.get_challenge t challenge.msisdn)
            challenge
            now in
        (end.1 ≡ issued) × IsSame table (stored_issue store challenge now) end.0
  unfolding write_both after_write
  write_both_alone store t challenge now same works =
      let m = challenge.msisdn in
      let quota = table.get_quota t m in
      let existing = table.get_challenge t m in
      let next : Quota = record {
        sends = recent_sends (history_of quota) now ++ now ∷ [];
        version = version_of quota + 1;
      } in
      let end =
        table.transact_write_items t m (quota_condition quota) next (challenge_condition existing)
          challenge in
      elim (Reply-cases end.1) [
        | inl done ↦
            let e : end ≡ (end.0, written) = ap (λ r. (end.0, r)) done in
            let law =
              laws.transact_written t end.0 m (quota_condition quota) next
                (challenge_condition existing) challenge e in
            (
              ap after_write done,
              record {
                challenges_same = λ k.
                    get_otp-stored_issue store challenge now k
                    ∙ ap (λ o. if str_eq m k then some challenge else o) (same.challenges_same k)
                    ∙ sym (law.2 k).1;
                sends_same = λ k.
                    sends_of-stored_issue store challenge now k
                    ∙ ap
                        (λ l.
                          if str_eq m k then recent_sends l now ++ now ∷ [] else sends_of store k)
                        (same.sends_same m)
                    ∙ ap (λ l. if str_eq m k then next.sends else l) (same.sends_same k)
                    ∙ history_of-if (str_eq m k) next (table.get_quota t k)
                    ∙ sym (ap history_of (law.2 k).0);
              },
            )
        | inr (inl lost) ↦
            let e : end ≡ (end.0, condition_failed) = ap (λ r. (end.0, r)) lost in
            let law =
              laws.transact_failed t end.0 m (quota_condition quota) next
                (challenge_condition existing) challenge e in
            absurd (
              ground (
                arith,
                quota_holds-quota_condition quota,
                challenge_holds-challenge_condition existing,
                law.1,
              ))
        | inr (inr broken) ↦ absurd (works (ap after_write broken))
      ]

  -- One decision, when what was read is what is stored.
  decide_issue_alone :
      (store : MemoryStore) (t : T) (clock : ℕ) (challenge : OtpChallenge)
      (cooldown_seconds max_sends_per_day now : ℕ)
      → IsSame table store t
      → (decide_issue table t
          (table.get_quota t challenge.msisdn)
          (table.get_challenge t challenge.msisdn)
          clock
          challenge
          cooldown_seconds
          max_sends_per_day
          now).1
        ≢ faulted
      → let end =
          decide_issue table t
            (table.get_quota t challenge.msisdn)
            (table.get_challenge t challenge.msisdn)
            clock
            challenge
            cooldown_seconds
            max_sends_per_day
            now in
        let memory = issue_otp store clock challenge cooldown_seconds max_sends_per_day now in
        (end.1 ≡ as_issued memory.1) × IsSame table memory.0 end.0
  decide_issue_alone store t clock challenge cooldown_seconds max_sends_per_day now same works =
      let m = challenge.msisdn in
      let quota = table.get_quota t m in
      let existing = table.get_challenge t m in
      let read = same.challenges_same m in
      let sent = same.sends_same m in
      elim (decide_issue_ends table t quota existing clock challenge cooldown_seconds
        max_sends_per_day now) [
          | inl (left, cooling, ends) ↦
              let memory =
                issue_otp_cooling store clock challenge cooldown_seconds max_sends_per_day now left
                  (rw read cooling) in
              rw (ends, memory) (refl, same)
          | inr (inl (ready, full, ends)) ↦
              let memory =
                issue_otp_full store clock challenge cooldown_seconds max_sends_per_day now
                  (rw read ready) (rw sent full) in
              rw (ends, memory) (refl, same)
          | inr (inr (ready, room, ends)) ↦
              let memory =
                issue_otp_stored store clock challenge cooldown_seconds max_sends_per_day now
                  (rw read ready) (rw sent room) in
              rw (ends, memory) (write_both_alone store t challenge now same (rw (← ends) works))
        ]

  as_issued_over : (r : Option OtpIssueRefused) → as_issued r ≢ still_open
  as_issued_over none e = absurd (ground arith)
  as_issued_over (some r) e = absurd (ground arith)

  -- With the same challenges and sends in the table as in the memory store, and no other request
  -- between its calls, `issue_otp` on the table is its first round (they are numbered from the
  -- last, so that the first of five is 4), and ends as it does on the memory store, issued or refused with the same reason and the same wait, and leaves the same challenges
  -- and sends for every number, unless the table fails with an error other than a lost condition.
  pub issue_otp_item_alone :
      (store : MemoryStore) (t : T) (clock : ℕ) (challenge : OtpChallenge)
      (cooldown_seconds max_sends_per_day now : ℕ)
      → IsSame table store t
      → (issue_otp_item table (λ k u. u) t clock challenge cooldown_seconds max_sends_per_day now).1
        ≢ faulted
      → ((issue_otp_item table
            (λ k u. u)
            t
            clock
            challenge
            cooldown_seconds
            max_sends_per_day
            now).1
          ≡ as_issued (issue_otp store clock challenge cooldown_seconds max_sends_per_day now).1)
        × (issue_otp_item table (λ k u. u) t clock challenge cooldown_seconds max_sends_per_day now
            ≡ issue_round table
                (λ k u. u)
                4
                t
                clock
                challenge
                cooldown_seconds
                max_sends_per_day
                now)
        × IsSame table
            (issue_otp store clock challenge cooldown_seconds max_sends_per_day now).0
            (issue_otp_item table
              (λ k u. u)
              t
              clock
              challenge
              cooldown_seconds
              max_sends_per_day
              now).0
  unfolding issue_otp_item issue_round
  issue_otp_item_alone store t clock challenge cooldown_seconds max_sends_per_day now same works =
      let ended =
        issue_rounds_ended table (λ k u. u) 4 t clock challenge cooldown_seconds max_sends_per_day
          now in
      let alone =
        decide_issue_alone store t clock challenge cooldown_seconds max_sends_per_day now same
          (λ broken. works (ap (λ x. x.1) (ended faulted broken (λ e. absurd (ground arith))))) in
      let memory = issue_otp store clock challenge cooldown_seconds max_sends_per_day now in
      let first = ended (as_issued memory.1) alone.0 (as_issued_over memory.1) in
      let round =
        issue_round table (λ k u. u) 4 t clock challenge cooldown_seconds max_sends_per_day now in
      (ap (λ r. r.1) first, first ∙ ap (λ r. (round.0, r)) (sym alone.0), rw first alone.1)
