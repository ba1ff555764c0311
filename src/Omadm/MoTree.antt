-- ===== src/Omadm/MoTree.antt =====
-- src/acs/protocol/omadm/motree.py: the nodes of the management objects that the server knows. The
-- catalogue files and the rendering of a template are parameters.
use auto_configuration_serve.Prelude.{
  String, Bool, true, false, Option, none, some, List, [], ◌∷◌, ◌++◌, map, keep, elem, truthy,
  str_eq, not, ◌&&◌, ◌||◌, ltb, ◌==◌, if◌then◌else◌, drop,
}
use Prim.Native.Nat.{Ordering}
use Prim.Native.String
use auto_configuration_serve.Prelude.Texts.{rstrip_code, cuts, count_code}

pub record MoNode : Type 0 where
  pub uri : String
  pub format : String
  pub type_ : String
  -- whether the `source` is "device"; else it is "server"
  pub from_device : Bool
  pub default : String
  pub feature : String

abbrev pub is_interior : MoNode → Bool
is_interior node = str_eq node.format "node"

-- A dict by URI: the last node of a URI is the one kept.
unfoldable pub by_uri : List MoNode → String → Option MoNode
by_uri [] wanted = none
by_uri (n ∷ ns) wanted = elim (by_uri ns wanted) [
  | some later ↦ some later
  | none ↦ if str_eq n.uri wanted then some n else none
]

unfoldable pub node_at : List MoNode → String → Option MoNode
unfolding by_uri rstrip_code
node_at tree uri = by_uri tree (rstrip_code 47 uri)

unfoldable pub device_query_uris : List MoNode → List String
device_query_uris tree = map (λ n. n.uri) (keep (λ n. n.from_device && not (is_interior n)) tree)

unfoldable pub server_nodes : List String → List MoNode → List MoNode
server_nodes features tree =
    keep
      (λ n.
        not n.from_device
        && (not (is_interior n) && (not (truthy n.feature) || elem n.feature features)))
      tree

-- The order of `(u.count("/"), u)`.
unfoldable pub before_in_tree : String → String → Bool
unfolding count_code
before_in_tree u v =
    if count_code 47 u == count_code 47 v
    then elim (String.compare u v) [ Ordering.lt ↦ true | _ ↦ false ]
    else ltb (count_code 47 u) (count_code 47 v)

-- A text put into a sorted list, unless it is there: the set, sorted.
unfoldable pub insert_sorted : String → List String → List String
unfolding before_in_tree
insert_sorted u [] = u ∷ []
insert_sorted u (v ∷ vs) =
    let rest = insert_sorted u vs in
    if str_eq u v then v ∷ vs else if before_in_tree u v then u ∷ v ∷ vs else v ∷ rest

unfoldable pub sorted_set : List String → List String
unfolding insert_sorted
sorted_set [] = []
sorted_set (u ∷ us) = insert_sorted u (sorted_set us)

-- `_interior_nodes_for` of session.py: the declared interior nodes above the URIs, parents first.
unfoldable pub needed_for : List String → List String
unfolding cuts
needed_for [] = []
needed_for (u ∷ us) = drop 1 (cuts 47 u) ++ needed_for us

unfoldable pub interior_nodes_for : List MoNode → List String → List String
unfolding needed_for sorted_set
interior_nodes_for tree uris =
    sorted_set (keep (λ u. elem u (map (λ n. n.uri) (keep is_interior tree))) (needed_for uris))
