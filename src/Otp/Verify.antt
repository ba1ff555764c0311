-- ===== src/Otp/Verify.antt =====
-- src/acs/auth/otp.py: what `verify_challenge` answers and leaves when no other request interferes.
use auto_configuration_serve.Prelude.{
  ℕ, suc, ◌+◌, ◌<◌, String, ◌≡◌, ◌≢◌, refl, false, Option, none, some, arith, leb, int_or, eq_iff,
  eq_refl, if◌then◌else◌,
}
use auto_configuration_serve.Models.{OtpChallenge, expired}
use auto_configuration_serve.Store.{MemoryStore, get_otp}
use auto_configuration_serve.Store.Otps.{
  replace_otp_won, replace_otp_wins, unchanged_refl, get_otp-issue_otp,
}
use auto_configuration_serve.Otp.{
  OtpPolicy, OtpOutcome, verified, mismatch, exhausted, alone, Decision, refuse, sweep, attempt,
  decide, settle, conclude, verify_loop, verify_challenge, hash_otp, Draws, memory_issue,
  create_challenge, new_challenge, created, generate_otp,
}

-- A challenge that may be tried: neither consumed nor expired, with an attempt left.
pub record IsLive (policy : OtpPolicy) (current clock : ℕ) (c : OtpChallenge) : Type 0 where
  pub unconsumed : c.consumed ≡ false
  pub fresh : expired c (some current) clock ≡ false
  pub left : c.attempts < policy.max_attempts

-- What the decision means for the stored challenge once the write is won.
abbrev pub remaining : OtpChallenge → Decision → Option OtpChallenge
remaining c (refuse o) = some c
remaining c (sweep o) = none
remaining c (attempt o r) = r

abbrev pub outcome_of : Decision → OtpOutcome
outcome_of (refuse o) = o
outcome_of (sweep o) = o
outcome_of (attempt o r) = o

-- A write on the challenge that is stored is won.
settle-stored :
    (store : MemoryStore) (c : OtpChallenge) (d : Decision)
    → get_otp store c.msisdn ≡ some c
    → ((settle store c d).1 ≡ some (outcome_of d))
      × (get_otp (settle store c d).0 c.msisdn ≡ remaining c d)
unfolding settle
settle-stored store c (refuse o) h = (refl, h)
settle-stored store c (sweep o) h =
    let w = replace_otp_wins store c none c h (unchanged_refl c) in
    let (cur, a, b, e) = replace_otp_won store c none w in (refl, e)
settle-stored store c (attempt o r) h =
    let w = replace_otp_wins store c r c h (unchanged_refl c) in
    let (cur, a, b, e) = replace_otp_won store c r w in (rw w refl, e)

conclude-some :
    (p : MemoryStore × Option OtpOutcome) (o : OtpOutcome)
    (next : MemoryStore → MemoryStore × OtpOutcome)
    → p.1 ≡ some o
    → conclude p next ≡ (p.0, o)
unfolding conclude
conclude-some (store, some o') o next e = ground arith
conclude-some (store, none) o next e = cc

module _ (digest : String → String) (otp : String) (policy : OtpPolicy) (current clock : ℕ)
    (store : MemoryStore) (c : OtpChallenge) (stored : get_otp store c.msisdn ≡ some c) where
  abbrev verdict : Decision
  verdict = decide digest c c.msisdn otp policy current clock

  abbrev run : ℕ → MemoryStore × OtpOutcome
  run k = verify_loop digest alone c.msisdn otp policy current clock (suc k) store

  -- With no interference one round decides.
  verify_loop-alone :
      (k : ℕ)
      → ((run k).1 ≡ outcome_of verdict) × (get_otp (run k).0 c.msisdn ≡ remaining c verdict)
  unfolding verify_loop
  verify_loop-alone k =
      let (a, b) = settle-stored store c verdict stored in
      rw
        (
          stored,
          conclude-some (settle store c verdict) (outcome_of verdict)
              (verify_loop digest alone c.msisdn otp policy current clock k) a,
        )
        (refl, b)

module _ (digest : String → String) (otp : String) (policy : OtpPolicy) (now : Option ℕ) (clock : ℕ)
    (store : MemoryStore) (c : OtpChallenge) (stored : get_otp store c.msisdn ≡ some c)
    (live : IsLive policy (int_or now clock) clock c) where
  abbrev answer : MemoryStore × OtpOutcome
  answer = verify_challenge digest alone store clock c.msisdn otp policy now

  -- The right code for a live challenge that is stored under its number verifies when nobody
  -- interferes, and the challenge is gone after it.
  pub verify_right_code :
      hash_otp digest c.msisdn otp ≡ c.otp_hash
      → (answer.1 ≡ verified) × (get_otp answer.0 c.msisdn ≡ none)
  unfolding decide verify_challenge
  verify_right_code right = ground (
    arith,
    verify_loop-alone digest otp policy (int_or now clock) clock store c stored 4,
    live,
    eq_iff c.otp_hash (hash_otp digest c.msisdn otp),
  )

  -- A wrong code for a live challenge that is stored under its number costs one attempt when nobody
  -- interferes; the one that uses up the attempts costs the challenge, and is answered `exhausted`.
  pub verify_wrong_code :
      hash_otp digest c.msisdn otp ≢ c.otp_hash
      → (answer.1 ≡ (if leb policy.max_attempts (c.attempts + 1) then exhausted else mismatch))
        × (get_otp answer.0 c.msisdn ≡ (
            if leb policy.max_attempts (c.attempts + 1)
            then none
            else some (record c { attempts = c.attempts + 1 })))
  unfolding decide verify_challenge
  verify_wrong_code wrong = ground (
    arith,
    verify_loop-alone digest otp policy (int_or now clock) clock store c stored 4,
    live,
    eq_iff c.otp_hash (hash_otp digest c.msisdn otp),
  )

create_challenge-created :
    (digest : String → String) (draws : Draws) (store after : MemoryStore) (clock : ℕ)
    (msisdn imsi code : String) (policy : OtpPolicy) (port now : Option ℕ) (c : OtpChallenge)
    → create_challenge digest memory_issue draws store clock msisdn imsi policy port now
      ≡ (after, created c code)
    → (c ≡ new_challenge digest draws msisdn imsi policy port (int_or now clock))
      × (code ≡ generate_otp draws.digits)
      × (get_otp after msisdn ≡ some c)
unfolding create_challenge memory_issue new_challenge
create_challenge-created digest draws store after clock msisdn imsi code policy port now c e =
    ground (
      arith,
      get_otp-issue_otp store clock
          (new_challenge digest draws msisdn imsi policy port (int_or now clock))
          policy.resend_cooldown_seconds policy.max_sends_per_day (int_or now clock) msisdn,
      eq_refl msisdn,
    )

-- A code that was created is accepted: if `create_challenge` on a store with no other tasks returns
-- a code, then verifying that code for the same number before its expiry, with nobody interfering,
-- verifies it and removes the challenge. The policy allows an attempt at least, and `now`, `clock`
-- are the time arguments of the creation, `later`, `clock'` those of the verification.
pub create_verify :
    (digest : String → String) (draws : Draws) (store after : MemoryStore) (clock clock' : ℕ)
    (msisdn imsi code : String) (policy : OtpPolicy) (port now later : Option ℕ) (c : OtpChallenge)
    → create_challenge digest memory_issue draws store clock msisdn imsi policy port now
      ≡ (after, created c code)
    → 0 < policy.max_attempts
    → int_or (some (int_or later clock')) clock' < int_or now clock + policy.ttl_seconds
    → ((verify_challenge digest alone after clock' msisdn code policy later).1 ≡ verified)
      × (get_otp (verify_challenge digest alone after clock' msisdn code policy later).0 msisdn
          ≡ none)
create_verify digest draws store after clock clock' msisdn imsi code policy port now later c e room
      early =
    let (same, text, there) =
      create_challenge-created digest draws store after clock msisdn imsi code policy port now c
        e in
    let number : c.msisdn ≡ msisdn = rw same (unfold new_challenge in refl) in
    let live : IsLive policy (int_or later clock') clock' c =
      rw same (unfold new_challenge expired in ground arith) in
    let right : hash_otp digest c.msisdn code ≡ c.otp_hash =
      rw (same, text) (unfold new_challenge in refl) in
    rw number at
      (verify_right_code digest code policy later clock' after c (simp number there) live right)
