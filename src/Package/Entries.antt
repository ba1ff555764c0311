-- ===== src/Package/Entries.antt =====
-- src/acs/protocol/omadm/package.py: the stored form of a remainder, and the builder calls that a
-- queue turns into.
use auto_configuration_serve.Prelude.{
  ℕ, zero, suc, ◌≤◌, ◌≡◌, ◌≢◌, refl, ap, sym, ◌∙◌, String, true, List, [], ◌∷◌, ◌++◌, ◌⊎◌, map,
  length, All, Result, ok, arith, eq_iff, eq_refl, Bool-cases, inl, inr,
}
use mathlib.Core.Path.{subst}
use auto_configuration_serve.Package.{
  Entry, status, item, Row, row_of, entry_of, to_stored, from_stored, BuilderCall, status_call,
  get_call, add_call, replace_call, apply, apply_rounds, group_of, after_group, call_for,
  same_command, Value, value_of, PackageError,
}

-- No item calls its command `Status`, the mark of a stored status.
abbrev pub IsStorable : Entry → Type 0
IsStorable (status cmd msg_ref cmd_ref code target_ref) = Unit
IsStorable (item command uri value fmt type_) = command ≢ "Status"

entry_of-row_of : (e : Entry) → IsStorable e → entry_of (row_of e) ≡ ok e
unfolding entry_of row_of
entry_of-row_of (status cmd msg_ref cmd_ref code target_ref) h = refl
entry_of-row_of (item command uri value fmt type_) h = ground (arith, eq_iff command "Status")

from_stored-rows : (es : List Entry) → All IsStorable es → from_stored (map row_of es) ≡ ok es
unfolding from_stored
from_stored-rows [] h = refl
from_stored-rows (e ∷ es) h = rw (entry_of-row_of e h.0, from_stored-rows es h.1)

-- A remainder that could be stored is read back as it was, entry by entry, if no item in it has the
-- command `Status`.
pub from_stored-to_stored :
    (json_size : List Row → ℕ) (es : List Entry) (rows : List Row)
    → All IsStorable es
    → to_stored json_size es ≡ ok rows
    → from_stored rows ≡ ok es
unfolding to_stored
from_stored-to_stored json_size es rows h e =
    let same : map row_of es ≡ rows = ground arith in rw (← same) (from_stored-rows es h)

-- The entries that a builder call carries.
abbrev pub carried : BuilderCall → List Entry
carried (status_call cmd msg_ref cmd_ref code target_ref) =
    status cmd msg_ref cmd_ref code target_ref ∷ []
carried (get_call uris) = map (λ u. item "Get" u "" "" "") uris
carried (add_call vs) = map (λ (v : Value). item "Add" v.uri v.value v.fmt v.type_) vs
carried (replace_call vs) = map (λ (v : Value). item "Replace" v.uri v.value v.fmt v.type_) vs

abbrev pub carried_all : List BuilderCall → List Entry
carried_all [] = []
carried_all (c ∷ cs) = carried c ++ carried_all cs

-- What the session queues: statuses, bare `Get` items, and `Add` and `Replace` items.
abbrev pub IsSendable : Entry → Type 0
IsSendable (status cmd msg_ref cmd_ref code target_ref) = Unit
IsSendable (item command uri value fmt type_) =
    ((command ≡ "Get") × (value ≡ "") × (fmt ≡ "") × (type_ ≡ ""))
    ⊎ ((command ≡ "Add") ⊎ (command ≡ "Replace"))

group-append : (c : String) (es : List Entry) → group_of c es ++ after_group c es ≡ es
unfolding group_of after_group
group-append c [] = refl
group-append c (e ∷ es) = elim (Bool-cases (same_command c e)) [
  | inl same ↦ rw same (ap (λ t. e ∷ t) (group-append c es))
  | inr other ↦ rw other refl
]

length-after_group : (c : String) (es : List Entry) → length (after_group c es) ≤ length es
unfolding after_group
length-after_group c [] = omega arith
length-after_group c (e ∷ es) = ground (arith, length-after_group c es)

after_group-All :
    (P : Entry → Type 0) (c : String) (es : List Entry) → All P es → All P (after_group c es)
unfolding after_group
after_group-All P c [] h = h
after_group-All P c (e ∷ es) h = elim (Bool-cases (same_command c e)) [
  | inl same ↦ rw same (after_group-All P c es h.1)
  | inr other ↦ rw other h
]

group_of-All :
    (P Q : Entry → Type 0) (c : String)
    → ((e : Entry) → same_command c e ≡ true → P e → Q e)
    → (es : List Entry) → All P es
    → All Q (group_of c es)
unfolding group_of
group_of-All P Q c f [] h = tt
group_of-All P Q c f (e ∷ es) h = elim (Bool-cases (same_command c e)) [
  | inl same ↦ rw same (f e same h.0, group_of-All P Q c f es h.1)
  | inr other ↦ rw other tt
]

rebuild :
    {X : Type 0} (g : Entry → X) (f : X → Entry) (es : List Entry)
    → All (λ e. f (g e) ≡ e) es
    → map f (map g es) ≡ es
rebuild g f [] h = refl
rebuild g f (e ∷ es) h = cc (h.0, rebuild g f es h.1)

get-ne-add : ◌≢◌ {A = String} "Get" "Add"
get-ne-add = ground (arith, eq_iff "Get" "Add")

get-ne-replace : ◌≢◌ {A = String} "Get" "Replace"
get-ne-replace = ground (arith, eq_iff "Get" "Replace")

add-ne-replace : ◌≢◌ {A = String} "Add" "Replace"
add-ne-replace = ground (arith, eq_iff "Add" "Replace")

get_again :
    (e : Entry)
    → same_command "Get" e ≡ true
    → IsSendable e
    → item "Get" (value_of e).uri "" "" "" ≡ e
unfolding same_command
get_again (status a b c d t) same s = cc
get_again (item c u v f t) same (inl s) = ground (arith, eq_iff c "Get")
get_again (item c u v f t) same (inr (inl s)) =
    absurd (get-ne-add (sym ((eq_iff c "Get").0 same) ∙ s))
get_again (item c u v f t) same (inr (inr s)) =
    absurd (get-ne-replace (sym ((eq_iff c "Get").0 same) ∙ s))

item_again :
    (k : String) (e : Entry)
    → same_command k e ≡ true
    → IsSendable e
    → (let v = value_of e in item k v.uri v.value v.fmt v.type_) ≡ e
unfolding same_command
item_again k (status a b c d t) same s = cc
item_again k (item c u v f t) same s = ground (arith, eq_iff c k)

-- One call carries a run of items of one command.
Carries : String → List Entry → Type 0
Carries c group = (call : BuilderCall) × (call_for c group ≡ ok call) × (carried call ≡ group)

module _ (c u v f t : String) (es : List Entry) (first : IsSendable (item c u v f t))
    (rest : All IsSendable es) where
  abbrev run : List Entry
  run = item c u v f t ∷ group_of c es

  call_for-get : c ≡ "Get" → Carries c run
  unfolding call_for Carries same_command
  call_for-get e =
      let again = λ (x : Entry) (same : same_command c x ≡ true) (s : IsSendable x).
        get_again x (ap (λ k. same_command k x) (sym e) ∙ same) s in
      (
        get_call (map (λ x. (value_of x).uri) run),
        ground (arith, eq_iff c "Get"),
        rebuild (λ x. (value_of x).uri) (λ n. item "Get" n "" "" "") run
            (
              again (item c u v f t) (eq_refl c) first,
              group_of-All IsSendable (λ x. item "Get" (value_of x).uri "" "" "" ≡ x) c again es
                  rest,
            ),
      )

  again :
      (x : Entry)
      → same_command c x ≡ true
      → IsSendable x
      → (let v = value_of x in item c v.uri v.value v.fmt v.type_) ≡ x
  again x same s = item_again c x same s

  rebuilt : map (λ (v : Value). item c v.uri v.value v.fmt v.type_) (map value_of run) ≡ run
  unfolding same_command
  rebuilt =
      rebuild value_of (λ v. item c v.uri v.value v.fmt v.type_) run
        (
          again (item c u v f t) (eq_refl c) first,
          group_of-All IsSendable
              (λ x. (let v = value_of x in item c v.uri v.value v.fmt v.type_) ≡ x) c again es rest,
        )

  call_for-add : c ≡ "Add" → Carries c run
  unfolding call_for Carries
  call_for-add e = (
    add_call (map value_of run),
    ground (arith, eq_iff c "Get", eq_iff c "Add", get-ne-add),
    subst (λ k. map (λ (v : Value). item k v.uri v.value v.fmt v.type_) (map value_of run) ≡ run) e
        rebuilt,
  )

  call_for-replace : c ≡ "Replace" → Carries c run
  unfolding call_for Carries
  call_for-replace e = (
    replace_call (map value_of run),
    ground
        (arith, eq_iff c "Get", eq_iff c "Add", eq_iff c "Replace", get-ne-replace, add-ne-replace),
    subst (λ k. map (λ (v : Value). item k v.uri v.value v.fmt v.type_) (map value_of run) ≡ run) e
        rebuilt,
  )

  call_for-Carries : Carries c run
  call_for-Carries = go first
    where
      go : IsSendable (item c u v f t) → Carries c run
      go (inl s) = call_for-get s.0
      go (inr (inl e)) = call_for-add e
      go (inr (inr e)) = call_for-replace e

carries_parts :
    (c u v f t : String) (es : List Entry)
    → IsSendable (item c u v f t)
    → All IsSendable es
    → (call : BuilderCall) × (call_for c (item c u v f t ∷ group_of c es) ≡ ok call)
      × (carried call ≡ item c u v f t ∷ group_of c es)
unfolding Carries
carries_parts c u v f t es first rest = call_for-Carries c u v f t es first rest

Delivers : Result PackageError (List BuilderCall) → List Entry → Type 0
Delivers r es = (calls : List BuilderCall) × (r ≡ ok calls) × (carried_all calls ≡ es)

apply_rounds-Delivers :
    (k : ℕ) (es : List Entry) → length es ≤ k → All IsSendable es → Delivers (apply_rounds k es) es
unfolding apply_rounds Delivers
apply_rounds-Delivers k [] le h = ([], refl, refl)
apply_rounds-Delivers zero (e ∷ es) le h = absurd (omega arith)
apply_rounds-Delivers (suc k) (status a b c d t ∷ es) le h =
    let (calls, r, same) = apply_rounds-Delivers k es (omega arith) h.1 in
    (status_call a b c d t ∷ calls, rw r refl, ap (λ l. status a b c d t ∷ l) same)
apply_rounds-Delivers (suc k) (item c u v f t ∷ es) le h =
    let (call, r, own) = carries_parts c u v f t es h.0 h.1 in
    let (calls, r', same) =
      apply_rounds-Delivers k (after_group c es) (omega (arith, length-after_group c es))
        (after_group-All IsSendable c es h.1) in
    (call ∷ calls, rw (r, r') refl, cc (own, same, group-append c es))

-- A queue of what the session sends is turned into builder calls that carry its entries, all of
-- them and in order: `apply` does not raise, and its loop does not run out of rounds.
pub apply-Delivers :
    (es : List Entry)
    → All IsSendable es
    → (calls : List BuilderCall) × (apply es ≡ ok calls) × (carried_all calls ≡ es)
unfolding apply Delivers
apply-Delivers es h = apply_rounds-Delivers (length es) es (omega arith) h
