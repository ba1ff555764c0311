-- ===== src/Dynamo/Runs.antt =====
-- A table kept in two dictionaries, which does what the documentation says, and the theorems at it.
use auto_configuration_serve.Prelude.{
  ℕ, ◌≡◌, ◌==◌, refl, sym, ap, ◌∙◌, String, true, false, none, some, [], ◌∷◌, arith, Bool-cases,
  inl, inr, ◌&&◌, if◌then◌else◌,
}
use auto_configuration_serve.Prelude.Dict
use auto_configuration_serve.Models.{OtpChallenge}
use auto_configuration_serve.Store.{
  replace_otp, MemoryStore, empty_store, get_otp, sends_of, issue_otp,
}
use auto_configuration_serve.Dynamo.{
  Quota, QuotaCondition, ChallengeCondition, quota_holds, challenge_holds, Reply, written,
  condition_failed, Table, IsTable, issued, issue_otp_item, issue_round, otp_write_rounds,
  replace_otp_item,
}
use auto_configuration_serve.Dynamo.Alone.{IsSame, as_issued, issue_otp_item_alone}
use auto_configuration_serve.Dynamo.Replaced.{replace_otp_item-IsSame}
use auto_configuration_serve.Dynamo.Among.{IsGuarded, issue_otp_item-IsGuarded}

record Items : Type 0 where
  quotas : Dict.Dict Quota
  challenges : Dict.Dict OtpChallenge

abbrev no_items : Items
no_items = record { quotas = Dict.empty; challenges = Dict.empty }

unfoldable written_both : Items → String → Quota → OtpChallenge → Items
written_both t m q c = record {
  quotas = Dict.put t.quotas m q;
  challenges = Dict.put t.challenges m c;
}

unfoldable transact :
    Items → String → QuotaCondition → Quota → ChallengeCondition → OtpChallenge → Items × Reply
unfolding written_both
transact t m qc q cc c =
    if quota_holds qc (Dict.get t.quotas m) && challenge_holds cc (Dict.get t.challenges m)
    then (written_both t m q c, written)
    else (t, condition_failed)

abbrev table : Table Items
table = record {
  get_quota = λ t m. Dict.get t.quotas m;
  get_challenge = λ t m. Dict.get t.challenges m;
  transact_write_items = transact;
  put_challenge = λ t m cc c.
      if challenge_holds cc (Dict.get t.challenges m)
      then (record t { challenges = Dict.put t.challenges m c }, written)
      else (t, condition_failed);
  delete_challenge = λ t m cc.
      if challenge_holds cc (Dict.get t.challenges m)
      then (record t { challenges = Dict.pop t.challenges m }, written)
      else (t, condition_failed);
}

table-IsTable : IsTable table
unfolding transact written_both
table-IsTable = record {
  transact_written = λ t t' m qc q cc c e.
      elim (Bool-cases
        (quota_holds qc (Dict.get t.quotas m) && challenge_holds cc (Dict.get t.challenges m))) [
          | inl held ↦
              let same : written_both t m q c ≡ t' = ground arith in
              (
                ground arith,
                ground arith,
                λ k. (
                  ap (λ u. Dict.get u.quotas k) (sym same) ∙ Dict.get-put t.quotas m k q,
                  ap (λ u. Dict.get u.challenges k) (sym same) ∙ Dict.get-put t.challenges m k c,
                ),
              )
          | inr lost ↦ absurd (ground arith)
        ];
  put_written = λ t t' m cc c e. elim (Bool-cases (challenge_holds cc (Dict.get t.challenges m))) [
    | inl held ↦
        let same : record t { challenges = Dict.put t.challenges m c } ≡ t' = ground arith in
        (
          held,
          λ k. (
            ap (λ u. Dict.get u.quotas k) (sym same),
            ap (λ u. Dict.get u.challenges k) (sym same) ∙ Dict.get-put t.challenges m k c,
          ),
        )
    | inr lost ↦ absurd (ground arith)
  ];
  put_failed = λ t t' m cc c e. elim (Bool-cases (challenge_holds cc (Dict.get t.challenges m))) [
    | inl held ↦ absurd (ground arith)
    | inr lost ↦ (ground arith, lost)
  ];
  delete_written = λ t t' m cc e. elim (Bool-cases (challenge_holds cc (Dict.get t.challenges m))) [
    | inl held ↦
        let same : record t { challenges = Dict.pop t.challenges m } ≡ t' = ground arith in
        (
          held,
          λ k. (
            ap (λ u. Dict.get u.quotas k) (sym same),
            ap (λ u. Dict.get u.challenges k) (sym same) ∙ Dict.get-pop t.challenges m k,
          ),
        )
    | inr lost ↦ absurd (ground arith)
  ];
  delete_failed = λ t t' m cc e. elim (Bool-cases (challenge_holds cc (Dict.get t.challenges m))) [
    | inl held ↦ absurd (ground arith)
    | inr lost ↦ (ground arith, lost)
  ];
  transact_failed = λ t t' m qc q cc c e.
      elim (Bool-cases
        (quota_holds qc (Dict.get t.quotas m) && challenge_holds cc (Dict.get t.challenges m))) [
          | inl held ↦ absurd (ground arith)
          | inr lost ↦ (ground arith, lost)
        ];
}

abbrev challenge : OtpChallenge
challenge = record {
  msisdn = "+8210";
  otp_hash = "h";
  imsi = "45001";
  created_at = 1000;
  expires_at = 1300;
  attempts = 0;
  sms_port = none;
  consumed = false;
  challenge_id = "c1";
}

empty-IsSame : IsSame table empty_store no_items
unfolding get_otp sends_of Dict.get
empty-IsSame = record { challenges_same = λ m. refl; sends_same = λ m. refl }

alone_end : (issue_otp_item table (λ k u. u) no_items 1000 challenge 60 5 1000).1 ≡ issued
unfolding issue_otp_item Dict.get transact quota_holds challenge_holds
alone_end = refl

issue_otp_item_alone_example :
    ((issue_otp_item table (λ k u. u) no_items 1000 challenge 60 5 1000).1
      ≡ as_issued (issue_otp empty_store 1000 challenge 60 5 1000).1)
    × (issue_otp_item table (λ k u. u) no_items 1000 challenge 60 5 1000
        ≡ issue_round table (λ k u. u) 4 no_items 1000 challenge 60 5 1000)
    × IsSame table
        (issue_otp empty_store 1000 challenge 60 5 1000).0
        (issue_otp_item table (λ k u. u) no_items 1000 challenge 60 5 1000).0
issue_otp_item_alone_example =
    issue_otp_item_alone table table-IsTable empty_store no_items 1000 challenge 60 5 1000
      empty-IsSame (λ e. absurd (ground (arith, alone_end)))

-- Another request writes the sends of the number before the first round's write, and of another
-- number at each other step.
abbrev others : ℕ → Items → Items
others k u =
    if k == 14
    then written_both u "+8210" (record { sends = 900 ∷ []; version = 1 })
        (record challenge { created_at = 900; challenge_id = "c0" })
    else written_both u "+8220" (record { sends = k ∷ []; version = k }) challenge

among_end : (issue_otp_item table others no_items 1000 challenge 60 5 1000).1 ≡ issued
unfolding issue_otp_item Dict.get written_both Dict.put transact quota_holds challenge_holds
among_end = refl

issue_otp_item-IsGuarded_example :
    IsGuarded table 1000 challenge 60 5 1000 others otp_write_rounds no_items
      (issue_otp_item table others no_items 1000 challenge 60 5 1000).0
issue_otp_item-IsGuarded_example =
    issue_otp_item-IsGuarded table table-IsTable 1000 challenge 60 5 1000 others no_items among_end

-- After the first issue, the challenge is there to be replaced.
abbrev held_items : Items
held_items = (issue_otp_item table (λ k u. u) no_items 1000 challenge 60 5 1000).0

abbrev held_store : MemoryStore
held_store = (issue_otp empty_store 1000 challenge 60 5 1000).0

held-IsSame : IsSame table held_store held_items
held-IsSame =
    (issue_otp_item_alone table table-IsTable empty_store no_items 1000 challenge 60 5 1000
      empty-IsSame (λ e. absurd (ground (arith, alone_end)))).2

replaced :
    (replace_otp_item table held_items challenge (some (record challenge { attempts = 1 }))).1
    ≡ some true
unfolding issue_otp_item Dict.get transact written_both Dict.put quota_holds challenge_holds
    replace_otp_item
replaced = refl

replace_otp_item-IsSame_example :
    ((replace_otp held_store challenge (some (record challenge { attempts = 1 }))).1 ≡ true)
    × IsSame table
        (replace_otp held_store challenge (some (record challenge { attempts = 1 }))).0
        (replace_otp_item table held_items challenge (some (record challenge { attempts = 1 }))).0
replace_otp_item-IsSame_example =
    replace_otp_item-IsSame table table-IsTable held_store held_items challenge held-IsSame
      (some (record challenge { attempts = 1 })) true replaced
