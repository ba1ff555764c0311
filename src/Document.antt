-- ===== src/Document.antt =====
-- src/acs/protocol/omacp/document.py: the provisioning document as a tree of characteristics. The
-- methods that change a node in place are functions to the changed node; `child`, whose result is
-- changed by the caller, is given with that change.
pub mod Tree
mod Runs
use Prim.Native.String.{◌++◌ as str_append}
use auto_configuration_serve.Prelude.{
  ℕ, ◌+◌, String, Bool, true, false, Option, none, some, List, [], ◌∷◌, ◌++◌, map, length, truthy,
  str_eq, ◌&&◌, if◌then◌else◌,
}

abbrev pub wap_provisioningdoc_version : String
wap_provisioningdoc_version = "1.1"

pub record Parm : Type 0 where
  pub name : String
  pub value : String

mutual
  pub data Characteristic : Type 0 where
    characteristic : (type_ : String) → (parms : List Parm) → Children → Characteristic

  pub data Children : Type 0 where
    leaf : Children
    node : Characteristic → Children → Children

abbrev pub type_of : Characteristic → String
type_of (characteristic type_ parms children) = type_

abbrev pub parms_of : Characteristic → List Parm
parms_of (characteristic type_ parms children) = parms

abbrev pub children_of : Characteristic → Children
children_of (characteristic type_ parms children) = children

-- `Characteristic(type_)`
abbrev pub bare : String → Characteristic
bare type_ = characteristic type_ [] leaf

unfoldable pub add_parm : String → String → Characteristic → Characteristic
add_parm name value (characteristic type_ parms children) =
    characteristic type_ (parms ++ record { name = name; value = value } ∷ []) children

-- `child(type_)`, changed by its caller: the first child of that type, or a new last one.
unfoldable pub child_in : String → (Characteristic → Characteristic) → Children → Children
child_in type_ change leaf = node (change (bare type_)) leaf
child_in type_ change (node c cs) =
    let rest = child_in type_ change cs in
    if str_eq (type_of c) type_ then node (change c) cs else node c rest

unfoldable pub child : String → (Characteristic → Characteristic) → Characteristic → Characteristic
unfolding child_in
child type_ change (characteristic own parms children) =
    characteristic own parms (child_in type_ change children)

unfoldable pub find_in : List Parm → String → Option Parm
find_in [] name = none
find_in (parm ∷ parms) name =
    let rest = find_in parms name in if str_eq parm.name name then some parm else rest

unfoldable pub find_parm : Characteristic → String → Option Parm
unfolding find_in
find_parm c name = find_in (parms_of c) name

-- The path of a node: its type after that of its parents.
abbrev pub path_under : String → String → String
path_under prefix type_ = if truthy prefix then str_append prefix (str_append "/" type_) else type_

unfoldable mutual
  pub walk : String → Characteristic → List (String × Parm)
  walk prefix (characteristic type_ parms children) =
      map (λ p. (path_under prefix type_, p)) parms
      ++ walk_children (path_under prefix type_) children

  pub walk_children : String → Children → List (String × Parm)
  walk_children here leaf = []
  walk_children here (node c cs) = walk here c ++ walk_children here cs

unfoldable mutual
  pub parm_count : Characteristic → ℕ
  parm_count (characteristic type_ parms children) = length parms + parm_count_in children

  pub parm_count_in : Children → ℕ
  parm_count_in leaf = 0
  parm_count_in (node c cs) = parm_count c + parm_count_in cs

pub record ProvisioningDoc : Type 0 where
  pub version : String
  pub characteristics : List Characteristic

unfoldable pub add : Characteristic → ProvisioningDoc → ProvisioningDoc
add c doc = record doc { characteristics = doc.characteristics ++ c ∷ [] }

-- The test of a node in `application`.
unfoldable pub is_application : String → Characteristic → Bool
unfolding find_parm
is_application app_id c =
    str_eq (type_of c) "APPLICATION"
    && elim (find_parm c "AppID") [ none ↦ false | some parm ↦ str_eq parm.value app_id ]

unfoldable pub application_in : String → List Characteristic → Option Characteristic
unfolding is_application
application_in app_id [] = none
application_in app_id (c ∷ cs) =
    let rest = application_in app_id cs in if is_application app_id c then some c else rest

unfoldable pub application : ProvisioningDoc → String → Option Characteristic
unfolding application_in
application doc app_id = application_in app_id doc.characteristics

unfoldable pub count_all : List Characteristic → ℕ
unfolding parm_count
count_all [] = 0
count_all (c ∷ cs) = parm_count c + count_all cs

unfoldable pub paths_in : List Characteristic → List String
unfolding walk
paths_in [] = []
paths_in (c ∷ cs) = map (λ e. str_append e.0 (str_append "/" e.1.name)) (walk "" c) ++ paths_in cs

unfoldable pub document_parm_count : ProvisioningDoc → ℕ
unfolding count_all
document_parm_count doc = count_all doc.characteristics

unfoldable pub paths : ProvisioningDoc → List String
unfolding paths_in
paths doc = paths_in doc.characteristics
