-- ===== src/Store/Sends.antt =====
-- src/acs/store/memory.py, `issue_otp`: the daily cap on sends, over the whole history of a number.
use auto_configuration_serve.Prelude.{
  ℕ, ◌≤◌, ◌<◌, String, ◌≡◌, refl, Bool, true, false, Option, none, some, List, [], ◌∷◌, ◌++◌,
  length, arith, eq_iff, str_eq, if◌then◌else◌, length-append,
}
use auto_configuration_serve.Prelude.Dict
use auto_configuration_serve.Prelude.Dict.{get-put, get-empty}
use auto_configuration_serve.Models.{OtpChallenge}
use auto_configuration_serve.Store.{
  MemoryStore, empty_store, issue_otp, recent_sends, sends_of, OtpIssueRefused,
}

recent-append :
    (xs ys : List ℕ) (n : ℕ) → recent_sends (xs ++ ys) n ≡ recent_sends xs n ++ recent_sends ys n
unfolding recent_sends
recent-append [] ys n = refl
recent-append (x ∷ xs) ys n = ground (arith, recent-append xs ys n)

-- Sends dropped at one time count at no later time.
recent-recent :
    (xs : List ℕ) (m n : ℕ) → m ≤ n → recent_sends (recent_sends xs m) n ≡ recent_sends xs n
unfolding recent_sends
recent-recent [] m n h = refl
recent-recent (x ∷ xs) m n h = ground (arith, recent-recent xs m n h)

length-recent_mono :
    (xs : List ℕ) (m n : ℕ) → m ≤ n → length (recent_sends xs n) ≤ length (recent_sends xs m)
unfolding recent_sends
length-recent_mono [] m n h = omega arith
length-recent_mono (x ∷ xs) m n h = ground (arith, length-recent_mono xs m n h)

-- The list of sends after a request, whether it was refused or not.
sends_of-issue_otp :
    (store : MemoryStore) (clock : ℕ) (c : OtpChallenge) (cool cap now : ℕ) (m : String)
    → sends_of (issue_otp store clock c cool cap now).0 m
      ≡ elim (issue_otp store clock c cool cap now).1 [
        | some refusal ↦ sends_of store m
        | none ↦
            if str_eq c.msisdn m
            then recent_sends (sends_of store c.msisdn) now ++ now ∷ []
            else sends_of store m
      ]
unfolding issue_otp
sends_of-issue_otp store clock c cool cap now m = ground (
  arith,
  get-put store.otp_sends c.msisdn m (recent_sends (sends_of store c.msisdn) now ++ now ∷ []),
)

-- A request that was not refused found room under the cap.
issue_otp-room :
    (store : MemoryStore) (clock : ℕ) (c : OtpChallenge) (cool cap now : ℕ)
    → (issue_otp store clock c cool cap now).1 ≡ none
    → length (recent_sends (sends_of store c.msisdn) now) < cap
unfolding issue_otp
issue_otp-room store clock c cool cap now h = ground arith

-- The times of the messages sent to a number, one more if a request for it was not refused.
abbrev pub log_send : String → OtpChallenge → ℕ → Option OtpIssueRefused → List ℕ → List ℕ
log_send m c now (some refusal) log = log
log_send m c now none log = if str_eq c.msisdn m then log ++ now ∷ [] else log

-- The stores that requests and other operations make from the empty one, with the log of the
-- sends to one number and the time of the last request. Time does not run backwards; the other
-- operations are those that leave the lists of sends alone.
pub data Sent (cool cap : ℕ) (m : String) : MemoryStore → List ℕ → ℕ → Type 0 where
  fresh : Sent cool cap m empty_store [] 0
  requested :
      {store : MemoryStore} {log : List ℕ} {last : ℕ} (clock now : ℕ) (c : OtpChallenge)
      → last ≤ now
      → Sent cool cap m store log last
      → Sent cool cap m
          (issue_otp store clock c cool cap now).0
          (log_send m c now (issue_otp store clock c cool cap now).1 log)
          now
  elsewhere :
      {store : MemoryStore} {log : List ℕ} {last : ℕ} (other : MemoryStore)
      → other.otp_sends ≡ store.otp_sends
      → Sent cool cap m store log last
      → Sent cool cap m other log last

-- The stored list agrees with the log, from the last request on, and is within the cap.
abbrev Agrees : ℕ → String → MemoryStore → List ℕ → ℕ → Type 0
Agrees cap m store log last =
    (now : ℕ)
    → last ≤ now
    → (recent_sends log now ≡ recent_sends (sends_of store m) now)
      × (length (recent_sends log now) ≤ cap)

length-recent : (xs : List ℕ) (n : ℕ) → length (recent_sends xs n) ≤ length xs
unfolding recent_sends
length-recent [] n = omega arith
length-recent (x ∷ xs) n = ground (arith, length-recent xs n)

-- A request that is not refused, for the number that the log is about.
Agrees-sent :
    (cap : ℕ) (log sends : List ℕ) (now n : ℕ)
    → now ≤ n
    → recent_sends log n ≡ recent_sends sends n
    → length (recent_sends sends now) < cap
    → (recent_sends (log ++ now ∷ []) n ≡ recent_sends (recent_sends sends now ++ now ∷ []) n)
      × (length (recent_sends (log ++ now ∷ []) n) ≤ cap)
Agrees-sent cap log sends now n h same room = (
  cc (
    same,
    recent-append log (now ∷ []) n,
    recent-append (recent_sends sends now) (now ∷ []) n,
    recent-recent sends now n h,
  ),
  rw (recent-append log (now ∷ []) n, same, length-append)
      (omega (arith, length-recent (now ∷ []) n, length-recent_mono sends now n h)),
)

module _ (cool cap : ℕ) (m : String) (store : MemoryStore) (clock : ℕ) (c : OtpChallenge) where
  Agrees-requested :
      (log : List ℕ) (last now : ℕ)
      → last ≤ now
      → Agrees cap m store log last
      → Agrees cap m
          (issue_otp store clock c cool cap now).0
          (log_send m c now (issue_otp store clock c cool cap now).1 log)
          now
  Agrees-requested log last now h v n hn =
      rw (sends_of-issue_otp store clock c cool cap now m)
        (go (issue_otp store clock c cool cap now).1 refl (str_eq c.msisdn m) refl)
    where
      room :
          c.msisdn ≡ m
          → length (recent_sends (sends_of store c.msisdn) now) < cap
          → length (recent_sends (sends_of store m) now) < cap
      room same less = rw same at less

      go :
          (r : Option OtpIssueRefused)
          → (issue_otp store clock c cool cap now).1 ≡ r
          → (b : Bool) → str_eq c.msisdn m ≡ b
          → (recent_sends (log_send m c now r log) n
              ≡ recent_sends
                  (elim r [
                    | some refusal ↦ sends_of store m
                    | none ↦
                        if str_eq c.msisdn m
                        then recent_sends (sends_of store c.msisdn) now ++ now ∷ []
                        else sends_of store m
                  ])
                  n)
            × (length (recent_sends (log_send m c now r log) n) ≤ cap)
      go (some refusal) e b t = v n (omega arith)
      go none e false t = rw t (v n (omega arith))
      go none e true t =
          rw (t, (eq_iff c.msisdn m).0 t)
            (Agrees-sent cap log (sends_of store m) now n hn (v n (omega arith)).0
              (room ((eq_iff c.msisdn m).0 t) (issue_otp-room store clock c cool cap now e)))

sends_of_same :
    (store other : MemoryStore) (m : String)
    → other.otp_sends ≡ store.otp_sends
    → sends_of other m ≡ sends_of store m
unfolding sends_of
sends_of_same store other m e = rw e refl

Sent-Agrees :
    {cool cap : ℕ} {m : String} {store : MemoryStore} {log : List ℕ} {last : ℕ}
    → Sent cool cap m store log last
    → Agrees cap m store log last
Sent-Agrees fresh n h = unfold sends_of recent_sends Dict.get in (refl, omega arith)
Sent-Agrees {cool} {cap} {m} (requested {store} {log} {last} clock now c le s) n h =
    Agrees-requested cool cap m store clock c log last now le (Sent-Agrees s) n h
Sent-Agrees {m = m} (elsewhere {store} other e s) n h =
    rw (sends_of_same store other m e) (Sent-Agrees s n h)

-- Over any history of requests and other operations, at any time from the last request on, the
-- messages sent to a number in the 86400 seconds up to that time are at most the daily cap.
pub sends_within_cap :
    {cool cap : ℕ} {m : String} {store : MemoryStore} {log : List ℕ} {last : ℕ} (now : ℕ)
    → Sent cool cap m store log last
    → last ≤ now
    → length (recent_sends log now) ≤ cap
sends_within_cap now s h = (Sent-Agrees s now h).1
