-- ===== src/Package.antt =====
-- src/acs/protocol/omadm/package.py: how a server package is cut into messages that fit the
-- client's MaxMsgSize, and the stored form of the part that is left. An encoded message is a list
-- of bytes; `json_size` stands for the length of `json.dumps`, which is not in the repository.
pub mod Fill
pub mod Bounds
pub mod Total
pub mod Entries
mod Runs
use auto_configuration_serve.Prelude.{
  ℕ, zero, suc, ◌+◌, ◌-◌, ◌*◌, ◌/◌, String, Bool, true, false, List, [], ◌∷◌, ltb, leb, length, map,
  str_eq, Result, ok, raise, ◌>>=◌, if◌then◌else◌,
}

abbrev pub Bytes : Type 0
Bytes = List ℕ

-- The exceptions that cross this module. `out_of_rounds` is none of Python's: a loop of the model
-- ended without its test.
pub data PackageError : Type 0 where
  message_too_large : (size limit : ℕ) → PackageError
  package_too_large : (size : ℕ) → PackageError
  unknown_command : String → PackageError
  bad_row : PackageError
  encoding_error : PackageError
  out_of_rounds : PackageError

abbrev pub max_stored_bytes : ℕ
max_stored_bytes = 32 * 1024

abbrev pub max_acknowledged_commands : ℕ
max_acknowledged_commands = 100

abbrev pub max_messages_per_package : ℕ
max_messages_per_package = 128

pub data Entry : Type 0 where
  status : (cmd msg_ref cmd_ref code target_ref : String) → Entry
  item : (command uri value fmt type_ : String) → Entry

abbrev pub Row : Type 0
Row = List String

unfoldable pub row_of : Entry → Row
row_of (status cmd msg_ref cmd_ref code target_ref) =
    "Status" ∷ cmd ∷ msg_ref ∷ cmd_ref ∷ code ∷ target_ref ∷ []
row_of (item command uri value fmt type_) = command ∷ uri ∷ value ∷ fmt ∷ type_ ∷ []

unfoldable pub to_stored : (List Row → ℕ) → List Entry → Result PackageError (List Row)
unfolding row_of
to_stored json_size entries =
    let rows = map row_of entries in
    if ltb max_stored_bytes (json_size rows)
    then raise (package_too_large (json_size rows))
    else ok rows

-- `Status(*fields)`: four fields or five.
unfoldable pub status_of : Row → Result PackageError Entry
status_of (cmd ∷ msg_ref ∷ cmd_ref ∷ code ∷ []) = ok (status cmd msg_ref cmd_ref code "")
status_of (cmd ∷ msg_ref ∷ cmd_ref ∷ code ∷ target_ref ∷ []) =
    ok (status cmd msg_ref cmd_ref code target_ref)
status_of _ = raise bad_row

-- `Item(*row)`: two fields to five.
unfoldable pub item_of : Row → Result PackageError Entry
item_of (command ∷ uri ∷ []) = ok (item command uri "" "" "")
item_of (command ∷ uri ∷ value ∷ []) = ok (item command uri value "" "")
item_of (command ∷ uri ∷ value ∷ fmt ∷ []) = ok (item command uri value fmt "")
item_of (command ∷ uri ∷ value ∷ fmt ∷ type_ ∷ []) = ok (item command uri value fmt type_)
item_of _ = raise bad_row

unfoldable pub entry_of : Row → Result PackageError Entry
unfolding status_of item_of
entry_of [] = raise bad_row
entry_of (first ∷ rest) = if str_eq first "Status" then status_of rest else item_of (first ∷ rest)

unfoldable pub from_stored : List Row → Result PackageError (List Entry)
unfolding entry_of
from_stored [] = ok []
from_stored (row ∷ rows) = do e ← entry_of row; es ← from_stored rows; ok (e ∷ es)

-- A call of the SyncML builder's `status`, `get`, `add` or `replace`.
pub record Value : Type 0 where
  pub uri : String
  pub value : String
  pub fmt : String
  pub type_ : String

pub data BuilderCall : Type 0 where
  status_call : (cmd msg_ref cmd_ref code target_ref : String) → BuilderCall
  get_call : List String → BuilderCall
  add_call : List Value → BuilderCall
  replace_call : List Value → BuilderCall

abbrev pub value_of : Entry → Value
value_of (status cmd msg_ref cmd_ref code target_ref) = record {
  uri = "";
  value = "";
  fmt = "";
  type_ = "";
}
value_of (item command uri value fmt type_) = record {
  uri = uri;
  value = value;
  fmt = fmt;
  type_ = type_;
}

-- The run of items of one command at the front of a list.
unfoldable pub same_command : String → Entry → Bool
same_command command (status cmd msg_ref cmd_ref code target_ref) = false
same_command command (item c uri value fmt type_) = str_eq c command

unfoldable pub group_of : String → List Entry → List Entry
unfolding same_command
group_of command [] = []
group_of command (e ∷ es) =
    let more = group_of command es in if same_command command e then e ∷ more else []

unfoldable pub after_group : String → List Entry → List Entry
unfolding same_command
after_group command [] = []
after_group command (e ∷ es) =
    let more = after_group command es in if same_command command e then more else e ∷ es

unfoldable pub call_for : String → List Entry → Result PackageError BuilderCall
call_for command group =
    if str_eq command "Get"
    then ok (get_call (map (λ e. (value_of e).uri) group))
    else if str_eq command "Add"
    then ok (add_call (map value_of group))
    else if str_eq command "Replace"
    then ok (replace_call (map value_of group))
    else raise (unknown_command command)

-- `apply`: the calls that it makes on the builder. One round takes an entry at least, so as many
-- rounds as there are entries are enough.
unfoldable pub apply_rounds : ℕ → List Entry → Result PackageError (List BuilderCall)
unfolding group_of after_group call_for
apply_rounds rounds [] = ok []
apply_rounds zero (e ∷ es) = raise out_of_rounds
apply_rounds (suc k) (status cmd msg_ref cmd_ref code target_ref ∷ es) = do
  calls ← apply_rounds k es
  ok (status_call cmd msg_ref cmd_ref code target_ref ∷ calls)
apply_rounds (suc k) (item command uri value fmt type_ ∷ es) = do
  call ← call_for command (item command uri value fmt type_ ∷ group_of command es)
  calls ← apply_rounds k (after_group command es)
  ok (call ∷ calls)

unfoldable pub apply : List Entry → Result PackageError (List BuilderCall)
unfolding apply_rounds
apply entries = apply_rounds (length entries) entries

-- `fill`: the search for the largest message that fits.
abbrev pub Build : Type 0
Build = ℕ → Result PackageError Bytes

-- The loop variables `fits`, `best` and `too_many`.
pub record Search : Type 0 where
  pub fits : ℕ
  pub best : Bytes
  pub too_many : ℕ

module _ (build : Build) (limit : ℕ) where
  -- `while fits + step < too_many`, doubling the step.
  unfoldable pub gallop : ℕ → Search → ℕ → Result PackageError Search
  gallop zero s step = if ltb (s.fits + step) s.too_many then raise out_of_rounds else ok s
  gallop (suc k) s step =
      let probe = s.fits + step in
      let next = (do
        body ← build probe
        let on = gallop k (record { fits = probe; best = body; too_many = s.too_many }) (step * 2)
        if ltb limit (length body) then ok (record s { too_many = probe }) else on) in
      if ltb probe s.too_many then next else ok s

  -- `while too_many - fits > 1`, halving the distance.
  unfoldable pub bisect : ℕ → Search → Result PackageError Search
  bisect zero s = if ltb 1 (s.too_many - s.fits) then raise out_of_rounds else ok s
  bisect (suc k) s =
      let probe = (s.fits + s.too_many) / 2 in
      let next = (do
        body ← build probe
        let up = bisect k (record { fits = probe; best = body; too_many = s.too_many })
        let down = bisect k (record s { too_many = probe })
        if leb (length body) limit then up else down) in
      if ltb 1 (s.too_many - s.fits) then next else ok s

  -- Both loops bring `fits` and `too_many` nearer to one another in each round, so `too_many`
  -- rounds are enough.
  unfoldable pub search_from : ℕ → ℕ → Result PackageError (Bytes × ℕ)
  unfolding gallop bisect
  search_from required too_many = do
    best ← build required
    if ltb limit (length best) then raise (message_too_large (length best) limit) else do
      near ← gallop too_many (record { fits = required; best = best; too_many = too_many }) 1
      found ← bisect too_many near
      ok (found.best, found.fits)

unfoldable pub fill : Build → ℕ → ℕ → ℕ → Result PackageError (Bytes × ℕ)
unfolding search_from
fill build count limit required =
    if ltb required count
    then (do
      whole ← build count
      if leb (length whole) limit
          then ok (whole, count)
          else search_from build limit required count)
    else search_from build limit required (count + 1)
