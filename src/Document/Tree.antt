-- ===== src/Document/Tree.antt =====
-- src/acs/protocol/omacp/document.py: the counts and paths of a tree, the children of a type, and the
-- applications of a document.
use Prim.Native.String.{◌++◌ as str_append}
use auto_configuration_serve.Prelude.{
  String, ◌≡◌, refl, ap, Option, none, some, List, [], ◌∷◌, ◌++◌, map, length, length-append, arith,
  str_eq, eq_refl, eq_iff, if◌then◌else◌,
}
use auto_configuration_serve.Document.{
  Characteristic, characteristic, Children, leaf, node, Parm, ProvisioningDoc, walk, walk_children,
  parm_count, parm_count_in, count_all, paths_in, paths, document_parm_count, child, child_in, bare,
  type_of, children_of, path_under, application, application_in, add, is_application,
}

length-map {ℓ} : {A B : Type ℓ} (f : A → B) (a : List A) → length (map f a) ≡ length a
length-map f [] = refl
length-map f (x ∷ a) = ground (arith, length-map f a)

mutual
  unfolding walk parm_count

  length-walk : (prefix : String) (c : Characteristic) → length (walk prefix c) ≡ parm_count c
  length-walk prefix (characteristic type_ parms children) =
      let here = path_under prefix type_ in
      let pair : Parm → String × Parm = λ p. (here, p) in
      omega (
        arith,
        length-append (map pair parms) (walk_children here children),
        length-map pair parms,
        length-walk_children here children,
      )

  length-walk_children :
      (here : String) (cs : Children) → length (walk_children here cs) ≡ parm_count_in cs
  length-walk_children here leaf = refl
  length-walk_children here (node c cs) = omega (
    arith,
    length-append (walk here c) (walk_children here cs),
    length-walk here c,
    length-walk_children here cs,
  )

length-paths_in : (cs : List Characteristic) → length (paths_in cs) ≡ count_all cs
unfolding paths_in count_all
length-paths_in [] = refl
length-paths_in (c ∷ cs) =
    let show = λ (e : String × Parm). str_append e.0 (str_append "/" e.1.name) in
    omega (
      arith,
      length-append (map show (walk "" c)) (paths_in cs),
      length-map show (walk "" c),
      length-walk "" c,
      length-paths_in cs,
    )

-- The coverage report of a document has as many paths as the document has parameters, at whatever
-- depth they stand: `paths` and `parm_count` agree.
pub length-paths : (doc : ProvisioningDoc) → length (paths doc) ≡ document_parm_count doc
unfolding paths document_parm_count
length-paths doc = length-paths_in doc.characteristics

-- The first child of a type.
abbrev pub first_of : String → Children → Option Characteristic
first_of type_ leaf = none
first_of type_ (node c cs) =
    let rest = first_of type_ cs in if str_eq (type_of c) type_ then some c else rest

abbrev pub or_bare : String → Option Characteristic → Characteristic
or_bare type_ none = bare type_
or_bare type_ (some c) = c

first_of-child_in :
    (t u : String) (f : Characteristic → Characteristic)
    → ((c : Characteristic) → type_of (f c) ≡ type_of c)
    → (cs : Children)
    → first_of u (child_in t f cs)
      ≡ (if str_eq t u then some (f (or_bare t (first_of t cs))) else first_of u cs)
unfolding child_in
first_of-child_in t u f keeps leaf = ground (arith, keeps (bare t))
first_of-child_in t u f keeps (node c cs) = ground (
  arith,
  keeps c,
  first_of-child_in t u f keeps cs,
  eq_iff t u,
  eq_iff (type_of c) t,
  eq_iff (type_of c) u,
)

-- A `child` call whose caller keeps the type of the node: afterwards the first child of that type
-- is the changed one, made of the first that was there, or of a new one if there was none; the
-- first child of every other type is what it was.
pub first_of-child :
    (t u : String) (f : Characteristic → Characteristic) (c : Characteristic)
    → ((x : Characteristic) → type_of (f x) ≡ type_of x)
    → first_of u (children_of (child t f c)) ≡ (
        if str_eq t u
        then some (f (or_bare t (first_of t (children_of c))))
        else first_of u (children_of c))
unfolding child
first_of-child t u f (characteristic own parms children) keeps =
    first_of-child_in t u f keeps children

child_in-twice :
    (t : String) (f g : Characteristic → Characteristic)
    → ((x : Characteristic) → type_of (f x) ≡ type_of x)
    → (cs : Children) → child_in t g (child_in t f cs) ≡ child_in t (λ x. g (f x)) cs
unfolding child_in
child_in-twice t f g keeps leaf = ground (arith, keeps (bare t), eq_refl t)
child_in-twice t f g keeps (node c cs) = ground (arith, keeps c, child_in-twice t f g keeps cs)

-- Two `child` calls of one type in a row reach the same node: they change it one after the other,
-- and add no second child, if the first change keeps the type.
pub child-child :
    (t : String) (f g : Characteristic → Characteristic) (c : Characteristic)
    → ((x : Characteristic) → type_of (f x) ≡ type_of x)
    → child t g (child t f c) ≡ child t (λ x. g (f x)) c
unfolding child
child-child t f g (characteristic own parms children) keeps =
    ap (characteristic own parms) (child_in-twice t f g keeps children)

application_in-append :
    (id : String) (cs : List Characteristic) (c : Characteristic)
    → application_in id (cs ++ c ∷ []) ≡ elim (application_in id cs) [
      | some found ↦ some found
      | none ↦ if is_application id c then some c else none
    ]
unfolding application_in
application_in-append id [] c = refl
application_in-append id (d ∷ cs) c = ground (arith, application_in-append id cs c)

-- A characteristic that is added to a document is found as an application exactly if it is an
-- APPLICATION with that first `AppID` and no earlier one of the document is; an application that
-- was found before is found as before.
pub application-add :
    (doc : ProvisioningDoc) (c : Characteristic) (id : String)
    → application (add c doc) id ≡ elim (application doc id) [
      | some found ↦ some found
      | none ↦ if is_application id c then some c else none
    ]
unfolding application add
application-add doc c id = application_in-append id doc.characteristics c
