-- ===== src/Dynamo/Replaced.antt =====
-- src/acs/store/dynamodb.py against store/memory.py: replace_otp, which is one write.
use auto_configuration_serve.Prelude.{
  ◌≡◌, refl, sym, ap, ◌∙◌, String, Bool, true, false, Option, none, some, truthy, str_eq, arith,
  Bool-cases, Option-cases, inl, inr, if◌then◌else◌,
}
use auto_configuration_serve.Prelude.Dict
use auto_configuration_serve.Models.{OtpChallenge, same_code}
use auto_configuration_serve.Store.{MemoryStore, get_otp, sends_of, unchanged, replace_otp}
use auto_configuration_serve.Dynamo.{
  challenge_holds, Table, IsTable, same_challenge, history_of, replace_otp_item,
}
use auto_configuration_serve.Dynamo.Alone.{IsSame}
use auto_configuration_serve.Dynamo.Rounds.{Reply-cases}

-- Whether a stored challenge is the expected one, as the memory store asks.
abbrev is_expected : OtpChallenge → Option OtpChallenge → Bool
is_expected expected none = false
is_expected expected (some current) = unchanged current expected

challenge_holds-same_challenge :
    (expected : OtpChallenge) (o : Option OtpChallenge)
    → challenge_holds (same_challenge expected) o ≡ is_expected expected o
unfolding challenge_holds same_challenge unchanged same_code
challenge_holds-same_challenge expected none = elim (Bool-cases (truthy expected.challenge_id)) [
  | inl named ↦ rw named refl
  | inr unnamed ↦ rw unnamed refl
]
challenge_holds-same_challenge expected (some c) =
    elim (Bool-cases (truthy expected.challenge_id)) [
      | inl named ↦ rw named (ground arith)
      | inr unnamed ↦ rw unnamed (ground arith)
    ]

module _ (store : MemoryStore) (expected : OtpChallenge) where
  replace_otp_refused :
      (replacement : Option OtpChallenge)
      → is_expected expected (get_otp store expected.msisdn) ≡ false
      → replace_otp store expected replacement ≡ (store, false)
  unfolding replace_otp get_otp
  replace_otp_refused replacement other = elim (Option-cases (Dict.get store.otp expected.msisdn)) [
    | inl missing ↦ rw (replace_otp, missing) refl
    | inr (current, found) ↦
        let same : unchanged current expected ≡ false =
          ap (is_expected expected) (sym found) ∙ other in
        rw (replace_otp, found, same) refl
  ]

  replace_otp_deleted :
      is_expected expected (get_otp store expected.msisdn) ≡ true
      → replace_otp store expected none
        ≡ (record store { otp = Dict.pop store.otp expected.msisdn }, true)
  unfolding replace_otp get_otp
  replace_otp_deleted held = elim (Option-cases (Dict.get store.otp expected.msisdn)) [
    | inl missing ↦ absurd (ground (arith, ap (is_expected expected) (sym missing) ∙ held))
    | inr (current, found) ↦
        let same : unchanged current expected ≡ true =
          ap (is_expected expected) (sym found) ∙ held in
        rw (replace_otp, found, same) refl
  ]

  replace_otp-put :
      (next : OtpChallenge)
      → is_expected expected (get_otp store expected.msisdn) ≡ true
      → replace_otp store expected (some next)
        ≡ (record store { otp = Dict.put store.otp expected.msisdn next }, true)
  unfolding replace_otp get_otp
  replace_otp-put next held = elim (Option-cases (Dict.get store.otp expected.msisdn)) [
    | inl missing ↦ absurd (ground (arith, ap (is_expected expected) (sym missing) ∙ held))
    | inr (current, found) ↦
        let same : unchanged current expected ≡ true =
          ap (is_expected expected) (sym found) ∙ held in
        rw (replace_otp, found, same) refl
  ]

module _ {T : Type 0} (table : Table T) (laws : IsTable table) (store : MemoryStore) (t : T)
    (expected : OtpChallenge) (same : IsSame table store t) where
  expected_in_both :
      challenge_holds (same_challenge expected) (table.get_challenge t expected.msisdn)
      ≡ is_expected expected (get_otp store expected.msisdn)
  expected_in_both =
      challenge_holds-same_challenge expected (table.get_challenge t expected.msisdn)
      ∙ ap (is_expected expected) (sym (same.challenges_same expected.msisdn))

  -- What a write of the one challenge leaves the same.
  otp-sends-IsSame :
      (otp : Dict.Dict OtpChallenge) (t' : T)
      → ((k : String) → Dict.get otp k ≡ table.get_challenge t' k)
      → ((k : String) → table.get_quota t' k ≡ table.get_quota t k)
      → IsSame table (record store { otp = otp }) t'
  unfolding get_otp sends_of
  otp-sends-IsSame otp t' challenges quotas = record {
    challenges_same = challenges;
    sends_same = λ k. same.sends_same k ∙ ap history_of (sym (quotas k));
  }

  deleted-IsSame :
      (held : Bool)
      → (replace_otp_item table t expected none).1 ≡ some held
      → ((replace_otp store expected none).1 ≡ held)
        × IsSame table
            (replace_otp store expected none).0
            (replace_otp_item table t expected none).0
  unfolding replace_otp_item get_otp
  deleted-IsSame held e =
      let m = expected.msisdn in
      let end = table.delete_challenge t m (same_challenge expected) in
      elim (Reply-cases end.1) [
        | inl done ↦
            let law =
              laws.delete_written t end.0 m (same_challenge expected) (ap (λ r. (end.0, r)) done) in
            let memory = replace_otp_deleted store expected (sym expected_in_both ∙ law.0) in
            rw memory (
              ground arith,
              otp-sends-IsSame (Dict.pop store.otp m) end.0
                  (λ k.
                    Dict.get-pop store.otp m k
                    ∙ ap (λ o. if str_eq m k then none else o) (same.challenges_same k)
                    ∙ sym (law.1 k).1)
                  (λ k. (law.1 k).0),
            )
        | inr (inl lost) ↦
            let law =
              laws.delete_failed t end.0 m (same_challenge expected) (ap (λ r. (end.0, r)) lost) in
            let memory = replace_otp_refused store expected none (sym expected_in_both ∙ law.1) in
            rw (memory, law.0) (ground arith, same)
        | inr (inr broken) ↦ absurd (ground arith)
      ]

  replaced-IsSame :
      (next : OtpChallenge) (held : Bool)
      → (replace_otp_item table t expected (some next)).1 ≡ some held
      → ((replace_otp store expected (some next)).1 ≡ held)
        × IsSame table
            (replace_otp store expected (some next)).0
            (replace_otp_item table t expected (some next)).0
  unfolding replace_otp_item get_otp
  replaced-IsSame next held e =
      let m = expected.msisdn in
      let end = table.put_challenge t m (same_challenge expected) next in
      elim (Reply-cases end.1) [
        | inl done ↦
            let law =
              laws.put_written t end.0 m (same_challenge expected) next
                (ap (λ r. (end.0, r)) done) in
            let memory = replace_otp-put store expected next (sym expected_in_both ∙ law.0) in
            rw memory (
              ground arith,
              otp-sends-IsSame (Dict.put store.otp m next) end.0
                  (λ k.
                    Dict.get-put store.otp m k next
                    ∙ ap (λ o. if str_eq m k then some next else o) (same.challenges_same k)
                    ∙ sym (law.1 k).1)
                  (λ k. (law.1 k).0),
            )
        | inr (inl lost) ↦
            let law =
              laws.put_failed t end.0 m (same_challenge expected) next
                (ap (λ r. (end.0, r)) lost) in
            let memory =
              replace_otp_refused store expected (some next) (sym expected_in_both ∙ law.1) in
            rw (memory, law.0) (ground arith, same)
        | inr (inr broken) ↦ absurd (ground arith)
      ]

  -- With the same challenges and sends in the table as in the memory store, a `replace_otp` of the
  -- table that returns says what the memory store's says, and leaves the same challenges and sends
  -- for every number: both write, or both leave everything as it was.
  pub replace_otp_item-IsSame :
      (replacement : Option OtpChallenge) (held : Bool)
      → (replace_otp_item table t expected replacement).1 ≡ some held
      → ((replace_otp store expected replacement).1 ≡ held)
        × IsSame table
            (replace_otp store expected replacement).0
            (replace_otp_item table t expected replacement).0
  replace_otp_item-IsSame none held e = deleted-IsSame held e
  replace_otp_item-IsSame (some next) held e = replaced-IsSame next held e
