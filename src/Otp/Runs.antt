-- ===== src/Otp/Runs.antt =====
-- Runs of the one-time-password code at concrete inputs, and its theorems there.
use auto_configuration_serve.Prelude.{
  ◌≤◌, ◌≡◌, ◌≢◌, refl, String, none, some, [], ◌∷◌, false, true, arith, eq_iff, length,
}
use auto_configuration_serve.Prelude.Dict
use auto_configuration_serve.Models.{OtpChallenge, expired, same_issue}
use auto_configuration_serve.Store.{
  MemoryStore, empty_store, get_otp, issue_otp, replace_otp, recent_sends,
}
use auto_configuration_serve.Store.Sends.{Sent, fresh, requested, log_send, sends_within_cap}
use auto_configuration_serve.Otp.{
  OtpPolicy, Draws, alone, verified, mismatch, hash_otp, create_challenge, created, memory_issue,
  verify_challenge, discard_challenge, decide, settle,
}
use auto_configuration_serve.Otp.Verify.{IsLive, verify_wrong_code, create_verify}
use auto_configuration_serve.Otp.Interfered.{
  Proof, Discarded, verify_challenge_verified, discard_challenge-Discarded,
}
use auto_configuration_serve.Otp.Race.{World, Run, Step, guessed, guesses_bounded}

abbrev policy : OtpPolicy
policy = record {
  length = 2;
  ttl_seconds = 300;
  max_attempts = 3;
  resend_cooldown_seconds = 60;
  max_sends_per_day = 2;
}

-- A digest that keeps the text, and the digits 4 and 2 drawn.
abbrev plain : String → String
plain s = s

abbrev draws : Draws
draws = record { digits = 4 ∷ 2 ∷ []; challenge_id = "a1" }

abbrev first : OtpChallenge
first = record {
  msisdn = "+8210";
  otp_hash = "+8210:42";
  imsi = "45005";
  created_at = 1000;
  expires_at = 1300;
  attempts = 0;
  sms_port = none;
  consumed = false;
  challenge_id = "a1";
}

abbrev holding : MemoryStore
holding = record empty_store {
  otp = record { entries = ("+8210", first) ∷ [] };
  otp_sends = record { entries = ("+8210", 1000 ∷ []) ∷ [] };
}

create_runs :
    create_challenge plain memory_issue draws empty_store 1000 "+8210" "45005" policy none none
    ≡ (holding, created first "42")
unfolding create_challenge memory_issue issue_otp Dict.get Dict.put get_otp
create_runs = refl

stored : get_otp holding "+8210" ≡ some first
unfolding get_otp Dict.get
stored = refl

live : IsLive policy 1010 1010 first
unfolding expired
live = record { unconsumed = refl; fresh = refl; left = omega arith }

right : hash_otp plain "+8210" "42" ≡ "+8210:42"
unfolding hash_otp
right = refl

wrong : hash_otp plain "+8210" "41" ≢ "+8210:42"
unfolding hash_otp
wrong = ground (arith, eq_iff "+8210:41" "+8210:42")

verify_wrong_code_example :
    ((verify_challenge plain alone holding 1010 "+8210" "41" policy none).1 ≡ mismatch)
    × (get_otp (verify_challenge plain alone holding 1010 "+8210" "41" policy none).0 "+8210"
        ≡ some (record first { attempts = 1 }))
verify_wrong_code_example =
    verify_wrong_code plain "41" policy none 1010 holding first stored live wrong

create_verify_example :
    ((verify_challenge plain alone holding 1010 "+8210" "42" policy none).1 ≡ verified)
    × (get_otp (verify_challenge plain alone holding 1010 "+8210" "42" policy none).0 "+8210"
        ≡ none)
create_verify_example =
    create_verify plain draws empty_store holding 1000 1010 "+8210" "45005" "42" policy none none
      none first create_runs (omega arith) (omega arith)

-- Another request reads and rewrites nothing before the first read, and issues nothing.
verified_runs : (verify_challenge plain alone holding 1010 "+8210" "42" policy none).1 ≡ verified
unfolding verify_challenge replace_otp get_otp Dict.get
verified_runs = refl

verify_challenge_verified_example :
    (p : Proof plain "+8210" "42" policy 1010 1010 alone
      (verify_challenge plain alone holding 1010 "+8210" "42" policy none).0)
    × (get_otp
          (verify_challenge plain alone holding 1010 "+8210" "42" policy none).0
          p.challenge.msisdn
        ≡ none)
verify_challenge_verified_example =
    verify_challenge_verified plain alone holding 1010 "+8210" "42" policy none verified_runs

discarded_runs : (discard_challenge alone holding first).1 ≡ true
unfolding discard_challenge replace_otp get_otp same_issue Dict.get
discarded_runs = refl

discard_challenge-Discarded_example :
    Discarded alone first (discard_challenge alone holding first).0
discard_challenge-Discarded_example = discard_challenge-Discarded alone holding first discarded_runs

-- Two requests guess: one wrongly, then one with the right code, on the challenge as rewritten.
abbrev opened : World
opened = record { store = holding; spent = 0; wins = 0 }

abbrev guessed_once : World
guessed_once = guessed plain policy "+8210" "a1" opened first "41" 1010 1010

abbrev guessed_twice : World
guessed_twice =
    guessed plain policy "+8210" "a1" guessed_once (record first { attempts = 1 }) "42" 1011 1011

two_guesses : Run plain policy "+8210" "a1" opened guessed_twice
two_guesses =
    Run.next (Run.next Run.here (Step.guess first "41" 1010 1010 refl refl))
      (Step.guess (record first { attempts = 1 }) "42" 1011 1011 refl refl)

guesses_bounded_example : (guessed_twice.spent ≤ 3) × (guessed_twice.wins ≤ 1)
guesses_bounded_example =
    guesses_bounded plain policy "+8210" "a1" holding first stored refl two_guesses

-- The bounds are reached: both guesses were counted, and the second won.
two_guesses_counted : (guessed_twice.spent ≡ 2) × (guessed_twice.wins ≡ 1)
unfolding guessed decide settle replace_otp Dict.get Dict.put Dict.pop
two_guesses_counted = (refl, refl)

one-Sent :
    Sent 60 2 "+8210"
      (issue_otp empty_store 1000 first 60 2 1000).0
      (log_send "+8210" first 1000 (issue_otp empty_store 1000 first 60 2 1000).1 [])
      1000
one-Sent = requested 1000 1000 first (omega arith) fresh

one_in_log :
    log_send "+8210" first 1000 (issue_otp empty_store 1000 first 60 2 1000).1 [] ≡ 1000 ∷ []
unfolding issue_otp Dict.get
one_in_log = refl

sends_within_cap_example :
    length (
      recent_sends
        (log_send "+8210" first 1000 (issue_otp empty_store 1000 first 60 2 1000).1 [])
        1000)
    ≤ 2
sends_within_cap_example = sends_within_cap 1000 one-Sent (omega arith)
