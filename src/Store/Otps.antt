-- ===== src/Store/Otps.antt =====
-- src/acs/store/memory.py: how `issue_otp` and `replace_otp` change the stored challenge of a
-- number.
use auto_configuration_serve.Prelude.{
  ℕ, String, ◌≡◌, refl, true, false, Option, none, some, arith, eq_iff, eq_refl, str_eq, truthy,
  if◌then◌else◌,
}
use auto_configuration_serve.Prelude.Dict
use auto_configuration_serve.Prelude.Dict.{get-put, get-pop, get-put_self, get-pop_self}
use auto_configuration_serve.Models.{OtpChallenge}
use auto_configuration_serve.Store.{MemoryStore, get_otp, issue_otp, replace_otp, unchanged}

-- A challenge is unchanged from itself.
pub unchanged_refl : (c : OtpChallenge) → unchanged c c ≡ true
unfolding unchanged
unchanged_refl c = ground (arith, eq_refl c.challenge_id, eq_refl c.otp_hash)

pub unchanged-attempts : (a b : OtpChallenge) → unchanged a b ≡ true → a.attempts ≡ b.attempts
unfolding unchanged
unchanged-attempts a b h = ground arith

-- A challenge with an id is matched by its id.
pub unchanged-challenge_id :
    (a b : OtpChallenge)
    → truthy b.challenge_id ≡ true
    → unchanged a b ≡ true
    → a.challenge_id ≡ b.challenge_id
unfolding unchanged
unchanged-challenge_id a b t h = ground (arith, eq_iff a.challenge_id b.challenge_id)

-- A write that won found the expected challenge unchanged, and put the replacement in its place.
pub replace_otp_won :
    (store : MemoryStore) (e : OtpChallenge) (r : Option OtpChallenge)
    → (replace_otp store e r).1 ≡ true
    → (current : OtpChallenge) × (get_otp store e.msisdn ≡ some current)
      × (unchanged current e ≡ true)
      × (get_otp (replace_otp store e r).0 e.msisdn ≡ r)
unfolding replace_otp get_otp
replace_otp_won store e r won = go (Dict.get store.otp e.msisdn) r refl won
  where
    go :
        (found : Option OtpChallenge) (r : Option OtpChallenge)
        → Dict.get store.otp e.msisdn ≡ found
        → (replace_otp store e r).1 ≡ true
        → (current : OtpChallenge) × (get_otp store e.msisdn ≡ some current)
          × (unchanged current e ≡ true)
          × (get_otp (replace_otp store e r).0 e.msisdn ≡ r)
    go none r p w = absurd (ground arith)
    go (some c) none p w = (c, p, ground arith, ground (arith, get-pop_self store.otp e.msisdn))
    go (some c) (some n) p w =
        (c, p, ground arith, ground (arith, get-put_self store.otp e.msisdn n))

pub replace_otp_lost :
    (store : MemoryStore) (e : OtpChallenge) (r : Option OtpChallenge)
    → (replace_otp store e r).1 ≡ false
    → (replace_otp store e r).0 ≡ store
unfolding replace_otp
replace_otp_lost store e none h = ground arith
replace_otp_lost store e (some n) h = ground arith

pub replace_otp_wins :
    (store : MemoryStore) (e : OtpChallenge) (r : Option OtpChallenge) (current : OtpChallenge)
    → get_otp store e.msisdn ≡ some current
    → unchanged current e ≡ true
    → (replace_otp store e r).1 ≡ true
unfolding replace_otp get_otp
replace_otp_wins store e none c p u = ground arith
replace_otp_wins store e (some n) c p u = ground arith

-- Challenges of other numbers are not touched.
pub get_otp-replace_otp_ne :
    (store : MemoryStore) (e : OtpChallenge) (r : Option OtpChallenge) (m : String)
    → str_eq e.msisdn m ≡ false
    → get_otp (replace_otp store e r).0 m ≡ get_otp store m
unfolding replace_otp get_otp
get_otp-replace_otp_ne store e none m h = ground (arith, get-pop store.otp e.msisdn m)
get_otp-replace_otp_ne store e (some n) m h = ground (arith, get-put store.otp e.msisdn m n)

-- A refused issue changes nothing; one that was not refused stores the challenge.
pub get_otp-issue_otp :
    (store : MemoryStore) (clock : ℕ) (c : OtpChallenge) (cool cap now : ℕ) (m : String)
    → get_otp (issue_otp store clock c cool cap now).0 m
      ≡ elim (issue_otp store clock c cool cap now).1 [
        | some refusal ↦ get_otp store m
        | none ↦ if str_eq c.msisdn m then some c else get_otp store m
      ]
unfolding issue_otp get_otp
get_otp-issue_otp store clock c cool cap now m = ground (arith, get-put store.otp c.msisdn m c)
