-- ===== src/Dynamo/Memory.antt =====
-- src/acs/store/memory.py, issue_otp: how it ends, and what it leaves.
use auto_configuration_serve.Prelude.{
  ℕ, ◌≡◌, refl, String, true, false, none, some, [], ◌∷◌, ◌++◌, length, str_eq, Bool-cases, inl,
  inr, leb, if◌then◌else◌,
}
use auto_configuration_serve.Prelude.Dict
use auto_configuration_serve.Models.{OtpChallenge}
use auto_configuration_serve.Store.{
  MemoryStore, cooldown, daily_quota, recent_sends, sends_of, cooldown_left, get_otp, issue_otp,
}

-- The memory store after an issue.
abbrev pub stored_issue : MemoryStore → OtpChallenge → ℕ → MemoryStore
stored_issue store challenge now = record store {
  otp_sends =
      Dict.put store.otp_sends challenge.msisdn
        (recent_sends (sends_of store challenge.msisdn) now ++ now ∷ []);
  otp = Dict.put store.otp challenge.msisdn challenge;
}

pub get_otp-stored_issue :
    (store : MemoryStore) (challenge : OtpChallenge) (now : ℕ) (k : String)
    → get_otp (stored_issue store challenge now) k
      ≡ (if str_eq challenge.msisdn k then some challenge else get_otp store k)
unfolding get_otp
get_otp-stored_issue store challenge now k = Dict.get-put store.otp challenge.msisdn k challenge

pub sends_of-stored_issue :
    (store : MemoryStore) (challenge : OtpChallenge) (now : ℕ) (k : String)
    → sends_of (stored_issue store challenge now) k ≡ (
        if str_eq challenge.msisdn k
        then recent_sends (sends_of store challenge.msisdn) now ++ now ∷ []
        else sends_of store k)
unfolding sends_of
sends_of-stored_issue store challenge now k =
    let list = recent_sends (sends_of store challenge.msisdn) now ++ now ∷ [] in
    let read = Dict.get-put store.otp_sends challenge.msisdn k list in
    elim (Bool-cases (str_eq challenge.msisdn k)) [
      | inl own ↦ rw (sends_of, read, own) refl
      | inr other ↦ rw (sends_of, read, other) refl
    ]

-- The three ends of the memory store's issue_otp.
module _ (store : MemoryStore) (clock : ℕ) (challenge : OtpChallenge)
    (cooldown_seconds max_sends_per_day now : ℕ) where
  pub issue_otp_cooling :
      (left : ℕ)
      → cooldown_left (get_otp store challenge.msisdn) cooldown_seconds now clock ≡ some left
      → issue_otp store clock challenge cooldown_seconds max_sends_per_day now
        ≡ (store, some (record { reason = cooldown; retry_after = left }))
  unfolding issue_otp
  issue_otp_cooling left cooling = rw (issue_otp, cooling) refl

  pub issue_otp_full :
      cooldown_left (get_otp store challenge.msisdn) cooldown_seconds now clock ≡ none
      → leb max_sends_per_day (length (recent_sends (sends_of store challenge.msisdn) now)) ≡ true
      → issue_otp store clock challenge cooldown_seconds max_sends_per_day now
        ≡ (store, some (record { reason = daily_quota; retry_after = 3600 }))
  unfolding issue_otp
  issue_otp_full ready full = rw (issue_otp, ready, full) refl

  pub issue_otp_stored :
      cooldown_left (get_otp store challenge.msisdn) cooldown_seconds now clock ≡ none
      → leb max_sends_per_day (length (recent_sends (sends_of store challenge.msisdn) now)) ≡ false
      → issue_otp store clock challenge cooldown_seconds max_sends_per_day now
        ≡ (stored_issue store challenge now, none)
  unfolding issue_otp
  issue_otp_stored ready room = rw (issue_otp, ready, room) refl
