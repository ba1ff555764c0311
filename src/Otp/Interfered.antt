-- ===== src/Otp/Interfered.antt =====
-- src/acs/auth/otp.py: what a `verified` answer and a discard guarantee when other requests act on
-- the store between the atomic operations of this one.
use auto_configuration_serve.Prelude.{
  ℕ, zero, suc, String, ◌≡◌, refl, sym, ◌∙◌, ap, Bool, true, false, Option, none, some, arith,
  int_or, eq_iff, eq_refl, if◌then◌else◌, not, ◌&&◌, ◌||◌, truthy, str_eq,
}
use auto_configuration_serve.Models.{OtpChallenge, same_issue}
use auto_configuration_serve.Store.{MemoryStore, get_otp, replace_otp, unchanged}
use auto_configuration_serve.Store.Otps.{replace_otp_won}
use auto_configuration_serve.Otp.{
  OtpPolicy, OtpOutcome, verified, Interference, decide, settle, conclude, verify_round,
  verify_loop, verify_challenge, hash_otp, conclude_discard, discard_round, discard_loop,
  discard_challenge, verify_rounds,
}
use auto_configuration_serve.Otp.Verify.{IsLive}

module _ (digest : String → String) (msisdn otp : String) (policy : OtpPolicy)
    (current clock : ℕ) where
  accepted :
      (held : MemoryStore) (c : OtpChallenge)
      → (settle held c (decide digest c msisdn otp policy current clock)).1 ≡ some verified
      → IsLive policy current clock c
        × (c.otp_hash ≡ hash_otp digest msisdn otp)
        × ((replace_otp held c none).1 ≡ true)
        × ((settle held c (decide digest c msisdn otp policy current clock)).0
            ≡ (replace_otp held c none).0)
  unfolding decide settle
  accepted held c e = ground (arith, eq_iff c.otp_hash (hash_otp digest msisdn otp))

  -- A round that read a live challenge with the right code, and whose delete was won.
  pub record Proof (others : Interference) (after : MemoryStore) : Type 0 where
    pub round : ℕ
    pub store : MemoryStore
    pub challenge : OtpChallenge
    pub was_read : get_otp (others.before_read round store) msisdn ≡ some challenge
    pub live : IsLive policy current clock challenge
    pub code : challenge.otp_hash ≡ hash_otp digest msisdn otp
    pub won :
        (replace_otp (others.before_write round (others.before_read round store)) challenge none).1
        ≡ true
    pub deleted :
        after
        ≡ (replace_otp
            (others.before_write round (others.before_read round store))
            challenge
            none).0

  module _ (others : Interference) where
    abbrev loop : ℕ → MemoryStore → MemoryStore × OtpOutcome
    loop = verify_loop digest others msisdn otp policy current clock

    verified_in_round :
        (k : ℕ) (store : MemoryStore) (found : Option OtpChallenge)
        → get_otp (others.before_read k store) msisdn ≡ found
        → ((s : MemoryStore) → (loop k s).1 ≡ verified → Proof others (loop k s).0)
        → let seen = others.before_read k store in
          let r =
            verify_round digest others msisdn otp policy current clock found seen
              (others.before_write k seen)
              (loop k) in
          r.1 ≡ verified → Proof others r.0
    unfolding verify_round
    verified_in_round k store none read later e = cc
    verified_in_round k store (some c) read later e =
        let held = others.before_write k (others.before_read k store) in
        go (settle held c (decide digest c msisdn otp policy current clock)) refl e
      where
        go :
            (p : MemoryStore × Option OtpOutcome)
            → settle
                (others.before_write k (others.before_read k store))
                c
                (decide digest c msisdn otp policy current clock)
              ≡ p
            → (conclude p (loop k)).1 ≡ verified
            → Proof others (conclude p (loop k)).0
        go (s, none) same e' = later s e'
        go (s, some o) same e' =
            let held = others.before_write k (others.before_read k store) in
            let (live, code, won, deleted) = accepted held c (ap (λ t. t.1) same ∙ ap some e') in
            record {
              round = k;
              store = store;
              challenge = c;
              was_read = read;
              live = live;
              code = code;
              won = won;
              deleted = sym (ap (λ t. t.0) same) ∙ deleted;
            }

    verified_in_loop :
        (k : ℕ) (store : MemoryStore) → (loop k store).1 ≡ verified → Proof others (loop k store).0
    unfolding verify_loop
    verified_in_loop zero store e = cc
    verified_in_loop (suc k) store e = verified_in_round k store _ refl (verified_in_loop k) e

-- Whatever other requests do between the operations, `verified` is answered only if some round read
-- a live challenge with the hash of the code, and then deleted it by a write that met it unchanged;
-- after it no challenge is stored under the number of that one.
pub verify_challenge_verified :
    (digest : String → String) (others : Interference) (store : MemoryStore) (clock : ℕ)
    (msisdn otp : String) (policy : OtpPolicy) (now : Option ℕ)
    → (verify_challenge digest others store clock msisdn otp policy now).1 ≡ verified
    → (p : Proof digest msisdn otp policy
        (int_or now clock)
        clock
        others
        (verify_challenge digest others store clock msisdn otp policy now).0)
      × (get_otp
            (verify_challenge digest others store clock msisdn otp policy now).0
            p.challenge.msisdn
          ≡ none)
unfolding verify_challenge
verify_challenge_verified digest others store clock msisdn otp policy now e =
    let p =
      verified_in_loop digest msisdn otp policy (int_or now clock) clock others verify_rounds store
        e in
    let (current, a, b, gone) = replace_otp_won _ p.challenge none p.won in (p, rw p.deleted gone)

-- The challenge deleted has the id of the one to discard, when that one and the one read have ids.
abbrev pub id_kept : (current found challenge : OtpChallenge) → Bool
id_kept current found challenge =
    not (truthy found.challenge_id && truthy challenge.challenge_id)
    || str_eq current.challenge_id challenge.challenge_id

-- A discard that reports success: `found` is what it read, `current` what its delete met.
pub record Discarded (others : Interference) (challenge : OtpChallenge) (after : MemoryStore)
    : Type 0 where
  pub round : ℕ
  pub store : MemoryStore
  pub found : OtpChallenge
  pub current : OtpChallenge
  pub was_read : get_otp (others.before_read round store) challenge.msisdn ≡ some found
  pub same : same_issue found challenge ≡ true
  pub met :
      get_otp (others.before_write round (others.before_read round store)) found.msisdn
      ≡ some current
  pub kept : unchanged current found ≡ true
  pub named : id_kept current found challenge ≡ true
  pub gone : get_otp after found.msisdn ≡ none
  pub won :
      (replace_otp (others.before_write round (others.before_read round store)) found none).1 ≡ true
  pub deleted :
      after
      ≡ (replace_otp (others.before_write round (others.before_read round store)) found none).0

same_issue-id_kept :
    (current found challenge : OtpChallenge)
    → same_issue found challenge ≡ true
    → unchanged current found ≡ true
    → id_kept current found challenge ≡ true
unfolding same_issue unchanged
same_issue-id_kept current found challenge same kept = ground (
  arith,
  eq_iff found.challenge_id challenge.challenge_id,
  eq_iff current.challenge_id found.challenge_id,
  eq_refl challenge.challenge_id,
)

module _ (others : Interference) (challenge : OtpChallenge) where
  discard_round-Discarded :
      (k : ℕ) (store : MemoryStore) (found : Option OtpChallenge)
      → get_otp (others.before_read k store) challenge.msisdn ≡ found
      → ((s : MemoryStore)
          → (discard_loop others challenge k s).1 ≡ true
          → Discarded others challenge (discard_loop others challenge k s).0)
      → let seen = others.before_read k store in
        let r =
          discard_round challenge found seen
            (others.before_write k seen)
            (discard_loop others challenge k) in
        r.1 ≡ true → Discarded others challenge r.0
  unfolding discard_round
  discard_round-Discarded k store none read later e = cc
  discard_round-Discarded k store (some c) read later e = go (same_issue c challenge) refl _ refl e
    where
      go :
          (b : Bool)
          → same_issue c challenge ≡ b
          → (p : MemoryStore × Bool)
          → replace_otp (others.before_write k (others.before_read k store)) c none ≡ p
          → let r =
              if not b
              then (others.before_read k store, false)
              else conclude_discard p (discard_loop others challenge k) in
            r.1 ≡ true → Discarded others challenge r.0
      go false t p w e' = cc
      go true t (s, false) w e' = later s e'
      go true t (s, true) w e' =
          let (current, met, kept, gone) = replace_otp_won _ c none (ap (λ q. q.1) w) in
          record {
            round = k;
            store = store;
            found = c;
            current = current;
            was_read = read;
            same = t;
            met = met;
            kept = kept;
            named = same_issue-id_kept current c challenge t kept;
            gone = ap (λ q. get_otp q.0 c.msisdn) (sym w) ∙ gone;
            won = ap (λ q. q.1) w;
            deleted = sym (ap (λ q. q.0) w);
          }

  discard_loop-Discarded :
      (k : ℕ) (store : MemoryStore)
      → (discard_loop others challenge k store).1 ≡ true
      → Discarded others challenge (discard_loop others challenge k store).0
  unfolding discard_loop
  discard_loop-Discarded zero store e = cc
  discard_loop-Discarded (suc k) store e =
      discard_round-Discarded k store _ refl (discard_loop-Discarded k) e

-- Whatever other requests do between the operations, a discard that answers `True` read a challenge
-- of the same issue under the number, and its delete met a challenge unchanged from that one, by the
-- code's own comparisons; no challenge is left under the number of the one read. When the challenge
-- to discard and the one read have ids, the one deleted has that id, so it is not a challenge with
-- another id that was issued meanwhile.
pub discard_challenge-Discarded :
    (others : Interference) (store : MemoryStore) (challenge : OtpChallenge)
    → (discard_challenge others store challenge).1 ≡ true
    → Discarded others challenge (discard_challenge others store challenge).0
unfolding discard_challenge
discard_challenge-Discarded others store challenge e =
    discard_loop-Discarded others challenge verify_rounds store e
