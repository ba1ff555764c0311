-- ===== src/Package/Runs.antt =====
-- Runs of the package code at concrete queues, and its theorems there.
use auto_configuration_serve.Prelude.{
  ℕ, zero, suc, ◌+◌, ◌≡◌, ◌≢◌, ◌≤◌, refl, List, [], ◌∷◌, All, length, replicate, ok, raise, arith,
  eq_iff, inl, inr,
}
use auto_configuration_serve.Package.{
  out_of_rounds, Bytes, Entry, status, item, Row, BuilderCall, status_call, get_call, replace_call,
  Build, fill, apply, to_stored, from_stored,
}
use auto_configuration_serve.Package.Total.{fill_ends}
use auto_configuration_serve.Package.Bounds.{fill_returned}
use auto_configuration_serve.Package.Fill.{IsGrowing, largest_fit, fill_largest}
use auto_configuration_serve.Package.Entries.{
  IsStorable, IsSendable, carried_all, from_stored-to_stored, apply-Delivers,
}

-- A message with one byte for each entry, and two for the envelope.
abbrev message : ℕ → Bytes
message n = replicate (suc (suc n)) 0

length-message : (n : ℕ) → length (message n) ≡ n + 2
length-message zero = refl
length-message (suc n) = omega (arith, length-message n)

growing : IsGrowing message 20
growing i j le top = omega (arith, length-message i, length-message j)

fill_runs : fill (λ n. ok (message n)) 20 9 1 ≡ ok (message 7, 7)
unfolding fill
fill_runs = refl

fill_largest_example :
    let n = largest_fit message 20 9 1 1 19 in fill (λ i. ok (message i)) 20 9 1 ≡ ok (message n, n)
fill_largest_example = fill_largest message 20 9 1 growing (omega arith) (omega arith)

abbrev queue : List Entry
queue =
    status "Alert" "1" "1" "200" ""
    ∷ item "Get" "./DevInfo/Man" "" "" ""
    ∷ item "Get" "./DevInfo/Mod" "" "" ""
    ∷ item "Replace" "./RCS/a" "1" "chr" "text/plain"
    ∷ []

queue-IsSendable : All IsSendable queue
queue-IsSendable =
    (tt, (inl (refl, refl, refl, refl), (inl (refl, refl, refl, refl), (inr (inr refl), tt))))

queue-IsStorable : All IsStorable queue
queue-IsStorable = (
  tt,
  (
    ground (arith, eq_iff "Get" "Status"),
    (ground (arith, eq_iff "Get" "Status"), (ground (arith, eq_iff "Replace" "Status"), tt)),
  ),
)

abbrev queue_rows : List Row
queue_rows =
    ("Status" ∷ "Alert" ∷ "1" ∷ "1" ∷ "200" ∷ "" ∷ [])
    ∷ ("Get" ∷ "./DevInfo/Man" ∷ "" ∷ "" ∷ "" ∷ [])
    ∷ ("Get" ∷ "./DevInfo/Mod" ∷ "" ∷ "" ∷ "" ∷ [])
    ∷ ("Replace" ∷ "./RCS/a" ∷ "1" ∷ "chr" ∷ "text/plain" ∷ [])
    ∷ []

stored_runs : to_stored (λ rows. 100 + length rows) queue ≡ ok queue_rows
unfolding to_stored
stored_runs = refl

from_stored-to_stored_example : from_stored queue_rows ≡ ok queue
from_stored-to_stored_example =
    from_stored-to_stored (λ rows. 100 + length rows) queue queue_rows queue-IsStorable stored_runs

apply_runs :
    apply queue
    ≡ ok (
        status_call "Alert" "1" "1" "200" ""
        ∷ get_call ("./DevInfo/Man" ∷ "./DevInfo/Mod" ∷ [])
        ∷ replace_call
            (record { uri = "./RCS/a"; value = "1"; fmt = "chr"; type_ = "text/plain" } ∷ [])
        ∷ [])
unfolding apply
apply_runs = refl

apply-Delivers_example :
    (calls : List BuilderCall) × (apply queue ≡ ok calls) × (carried_all calls ≡ queue)
apply-Delivers_example = apply-Delivers queue queue-IsSendable

abbrev built : Build
built n = ok (message n)

fill_returned_example : (1 ≤ 7) × (7 ≤ 20) × (length (message 7) ≤ 9) × (built 7 ≡ ok (message 7))
fill_returned_example = fill_returned built 9 1 20 (message 7) 7 (omega arith) fill_runs

fill_ends_example : fill built 20 9 1 ≢ raise out_of_rounds
fill_ends_example = fill_ends built 9 (λ n e. absurd (ground arith)) 20 1
