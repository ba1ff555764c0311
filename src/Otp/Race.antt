-- ===== src/Otp/Race.antt =====
-- src/acs/auth/otp.py with src/acs/store/memory.py: any number of requests for one number, as
-- interleaved atomic steps on the store, and what one issued challenge can be used for.
use auto_configuration_serve.Prelude.{
  ℕ, ◌+◌, ◌≤◌, ◌<◌, String, ◌≡◌, ◌≢◌, refl, Bool, true, false, Option, none, some, arith, eq_iff,
  str_eq, truthy, if◌then◌else◌, inl, inr, Bool-cases, sym, ap, ◌∙◌,
}
use auto_configuration_serve.Models.{OtpChallenge}
use auto_configuration_serve.Store.{MemoryStore, get_otp, replace_otp, issue_otp}
use auto_configuration_serve.Store.Otps.{
  replace_otp_won, replace_otp_lost, unchanged-attempts, unchanged-challenge_id, get_otp-issue_otp,
}
use auto_configuration_serve.Otp.{
  OtpPolicy, OtpOutcome, verified, Decision, refuse, sweep, attempt, decide, settle,
}

-- The store, and what was done with the challenge of one id: how many guesses were compared with
-- its code and counted, and how many of them were answered `verified`.
pub record World : Type 0 where
  pub store : MemoryStore
  pub spent : ℕ
  pub wins : ℕ

abbrev pub is_win : Option OtpOutcome → ℕ
is_win (some verified) = 1
is_win _ = 0

-- A guess is counted when the decision compared the code and its write was won.
abbrev pub is_guess : Decision → Option OtpOutcome → ℕ
is_guess (attempt o r) (some _) = 1
is_guess _ _ = 0

module _ (digest : String → String) (policy : OtpPolicy) (msisdn id : String) where
  -- One request's write of a verification round: `c` is any challenge that it read before.
  unfoldable pub guessed : World → OtpChallenge → String → ℕ → ℕ → World
  guessed w c otp current clock =
      let d = decide digest c msisdn otp policy current clock in
      let (store', outcome) = settle w.store c d in
      record {
        store = store';
        spent = w.spent + (if str_eq c.challenge_id id then is_guess d outcome else 0);
        wins = w.wins + (if str_eq c.challenge_id id then is_win outcome else 0);
      }

  -- The atomic steps of requests for the number: issuing under another id, the write of a
  -- verification round, and a delete by a discard. Every challenge has an id.
  pub data Step (w : World) : World → Type 0 where
    issue :
        (c : OtpChallenge) (clock cool cap now : ℕ)
        → c.challenge_id ≢ id
        → truthy c.challenge_id ≡ true
        → Step w (record w { store = (issue_otp w.store clock c cool cap now).0 })
    guess :
        (c : OtpChallenge) (otp : String) (current clock : ℕ)
        → c.msisdn ≡ msisdn
        → truthy c.challenge_id ≡ true
        → Step w (guessed w c otp current clock)
    discard :
        (c : OtpChallenge)
        → c.msisdn ≡ msisdn
        → Step w (record w { store = (replace_otp w.store c none).0 })

  pub data Run (start : World) : World → Type 0 where
    here : Run start start
    next : {w v : World} → Run start w → Step w v → Run start v

  -- While the challenge of the id is stored its attempts are the guesses spent on it, and it has
  -- not been verified; and whatever is stored, guesses and wins are bounded.
  pub record IsFair (w : World) : Type 0 where
    pub counted :
        (c : OtpChallenge)
        → get_otp w.store msisdn ≡ some c
        → c.challenge_id ≡ id
        → (c.attempts ≡ w.spent) × (w.wins ≡ 0)
    pub spent_bound : w.spent ≤ policy.max_attempts
    pub wins_bound : w.wins ≤ 1

  issue-IsFair :
      (w : World) (c : OtpChallenge) (clock cool cap now : ℕ)
      → c.challenge_id ≢ id
      → IsFair w
      → IsFair (record w { store = (issue_otp w.store clock c cool cap now).0 })
  issue-IsFair w c clock cool cap now other f = record {
    counted = λ d e own. ground (
      arith,
      get_otp-issue_otp w.store clock c cool cap now msisdn,
      f.counted d,
      eq_iff c.msisdn msisdn,
    );
    spent_bound = f.spent_bound;
    wins_bound = f.wins_bound;
  }

  -- What `decide` guarantees of a decision: only a compare with an attempt left counts, and it
  -- either removes the challenge or puts it back with one attempt more and no win.
  abbrev IsSound : OtpChallenge → Decision → Type 0
  IsSound c (refuse o) = is_win (some o) ≡ 0
  IsSound c (sweep o) = is_win (some o) ≡ 0
  IsSound c (attempt o none) = c.attempts < policy.max_attempts
  IsSound c (attempt o (some r)) =
      (c.attempts < policy.max_attempts)
      × (is_win (some o) ≡ 0)
      × (r.attempts ≡ c.attempts + 1)
      × (r.challenge_id ≡ c.challenge_id)

  decide-IsSound :
      (c : OtpChallenge) (otp : String) (current clock : ℕ)
      → IsSound c (decide digest c msisdn otp policy current clock)
  unfolding decide
  decide-IsSound c otp current clock = ground arith

  -- The world after a write on the decision `d`.
  abbrev after_write : World → OtpChallenge → Decision → World
  after_write w c d = record {
    store = (settle w.store c d).0;
    spent = w.spent + (if str_eq c.challenge_id id then is_guess d (settle w.store c d).1 else 0);
    wins = w.wins + (if str_eq c.challenge_id id then is_win (settle w.store c d).1 else 0);
  }

  -- A write that leaves the store and the counters as they are.
  same-IsFair :
      (w : World) (store : MemoryStore) (s v : ℕ)
      → store ≡ w.store
      → s ≡ w.spent
      → v ≡ w.wins
      → IsFair w
      → IsFair (record { store = store; spent = s; wins = v })
  same-IsFair w store s v e es ev f = record {
    counted =
        λ d there own. ground (arith, f.counted d (ap (λ t. get_otp t msisdn) (sym e) ∙ there) own);
    spent_bound = omega (arith, f.spent_bound);
    wins_bound = omega (arith, f.wins_bound);
  }

  delete-IsFair :
      (w : World) (c : OtpChallenge)
      → c.msisdn ≡ msisdn
      → IsFair w
      → IsFair (record w { store = (replace_otp w.store c none).0 })
  delete-IsFair w c number f = elim (Bool-cases (replace_otp w.store c none).1) [
    | inl won ↦
        let (current, there, same, gone) = replace_otp_won w.store c none won in
        record {
          counted = λ d e own. absurd (ground (arith, e, gone, number));
          spent_bound = f.spent_bound;
          wins_bound = f.wins_bound;
        }
    | inr lost ↦ same-IsFair w _ _ _ (replace_otp_lost w.store c none lost) refl refl f
  ]

  attempt-won :
      (w : World) (c : OtpChallenge) (o : OtpOutcome) (r : Option OtpChallenge)
      → c.msisdn ≡ msisdn
      → truthy c.challenge_id ≡ true
      → IsSound c (attempt o r)
      → (replace_otp w.store c r).1 ≡ true
      → IsFair w
      → IsFair (record {
        store = (replace_otp w.store c r).0;
        spent = w.spent + (if str_eq c.challenge_id id then 1 else 0);
        wins = w.wins + (if str_eq c.challenge_id id then is_win (some o) else 0);
      })
  attempt-won w c o none number filled sound won f =
      let (current, there, same, after) = replace_otp_won w.store c none won in
      let here' = ap (λ m. get_otp w.store m) (sym number) ∙ there in
      record {
        counted = λ d e own. absurd (ground (arith, e, after, number));
        spent_bound = ground (
          arith,
          f.counted current here',
          f.spent_bound,
          unchanged-attempts current c same,
          unchanged-challenge_id current c filled same,
          eq_iff c.challenge_id id,
        );
        wins_bound = ground (
          arith,
          f.counted current here',
          f.wins_bound,
          unchanged-challenge_id current c filled same,
          eq_iff c.challenge_id id,
        );
      }
  attempt-won w c o (some n) number filled sound won f =
      let (current, there, same, after) = replace_otp_won w.store c (some n) won in
      let here' = ap (λ m. get_otp w.store m) (sym number) ∙ there in
      let after' = ap (λ m. get_otp (replace_otp w.store c (some n)).0 m) (sym number) ∙ after in
      record {
        counted = λ d e own. ground (
          arith,
          e,
          own,
          after',
          sound,
          f.counted current here',
          unchanged-attempts current c same,
          unchanged-challenge_id current c filled same,
          eq_iff c.challenge_id id,
        );
        spent_bound = ground (
          arith,
          f.counted current here',
          f.spent_bound,
          unchanged-attempts current c same,
          unchanged-challenge_id current c filled same,
          eq_iff c.challenge_id id,
        );
        wins_bound = ground (
          arith,
          f.counted current here',
          f.wins_bound,
          unchanged-challenge_id current c filled same,
          eq_iff c.challenge_id id,
        );
      }

  after_write-IsFair :
      (w : World) (c : OtpChallenge) (d : Decision)
      → c.msisdn ≡ msisdn
      → truthy c.challenge_id ≡ true
      → IsSound c d
      → IsFair w
      → IsFair (after_write w c d)
  unfolding settle
  after_write-IsFair w c (refuse o) number filled sound f =
      same-IsFair w _ _ _ refl (ground arith) (ground (arith, sound)) f
  after_write-IsFair w c (sweep o) number filled sound f =
      let g = delete-IsFair w c number f in
      same-IsFair (record w { store = (replace_otp w.store c none).0 }) _ _ _ refl (ground arith)
        (ground (arith, sound)) g
  after_write-IsFair w c (attempt o r) number filled sound f = go (replace_otp w.store c r).1 refl
    where
      go : (b : Bool) → (replace_otp w.store c r).1 ≡ b → IsFair (after_write w c (attempt o r))
      go true won = rw won (attempt-won w c o r number filled sound won f)
      go false lost =
          same-IsFair w _ _ _ (replace_otp_lost w.store c r lost) (ground (arith, lost))
            (ground (arith, lost)) f

  Step-IsFair : {w v : World} → Step w v → IsFair w → IsFair v
  Step-IsFair {w} (issue c clock cool cap now other filled) f =
      issue-IsFair w c clock cool cap now other f
  Step-IsFair {w} (guess c otp current clock number filled) f =
      unfold guessed in
      after_write-IsFair w c (decide digest c msisdn otp policy current clock) number filled
        (decide-IsSound c otp current clock) f
  Step-IsFair {w} (discard c number) f = delete-IsFair w c number f

  Run-IsFair : {start w : World} → IsFair start → Run start w → IsFair w
  Run-IsFair f here = f
  Run-IsFair f (next r s) = Step-IsFair s (Run-IsFair f r)

  -- From a store that holds a fresh challenge of the id under the number, however the requests for
  -- the number interleave, at most `max_attempts` guesses are counted against that challenge, and
  -- at most one of them is answered `verified`.
  pub guesses_bounded :
      {w : World} (store : MemoryStore) (c : OtpChallenge)
      → get_otp store msisdn ≡ some c
      → c.attempts ≡ 0
      → Run (record { store = store; spent = 0; wins = 0 }) w
      → (w.spent ≤ policy.max_attempts) × (w.wins ≤ 1)
  guesses_bounded store c there unused run =
      let f =
        Run-IsFair
          (record {
            counted = λ d e own. ground (arith, e, there, unused);
            spent_bound = omega arith;
            wins_bound = omega arith;
          })
          run in
      (f.spent_bound, f.wins_bound)
