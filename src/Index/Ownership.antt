-- ===== src/Index/Ownership.antt =====
-- index.go: the ownership map, from a node to the xDS names that each deployment has published
-- there. OwnershipForDeployment ranges over the nodes, and takes the first that knows the deployment.
pub mod Laws
use flowc.Prelude.{String, List, [], ◌∷◌, Option, none, some, string_eq, ◌==◌}
use flowc.Dict
use flowc.Dict.{Dict, lookup}
use flowc.Index.State.{ResourceNames, Indexer}

abbrev pub Ownership : Type 0
Ownership = Dict String (Dict String ResourceNames)

-- ownership[nodeID], empty where it is missing
abbrev pub on_node : Option (Dict String ResourceNames) → Dict String ResourceNames
on_node none = []
on_node (some per_dep) = per_dep

unfoldable pub record_ownership : String → String → ResourceNames → Indexer → Indexer
record_ownership node_id dep names idx = record idx {
  ownership =
      Dict.put node_id (Dict.put dep names (on_node (lookup node_id idx.ownership))) idx.ownership;
}

abbrev pub get_dep : String → Option (Dict String ResourceNames) → Option ResourceNames
get_dep dep none = none
get_dep dep (some per_dep) = lookup dep per_dep

unfoldable pub get_ownership : String → String → Indexer → Option ResourceNames
get_ownership node_id dep idx = get_dep dep (lookup node_id idx.ownership)

unfoldable pub find_owner : String → Ownership → Option (String × ResourceNames)
find_owner dep [] = none
find_owner dep ((node_id, per_dep) ∷ nodes) =
    let rest = find_owner dep nodes in
    elim (lookup dep per_dep) [ none ↦ rest | some names ↦ some (node_id, names) ]

unfoldable pub ownership_for_deployment : String → Indexer → Option (String × ResourceNames)
unfolding find_owner
ownership_for_deployment dep idx = find_owner dep idx.ownership

-- The deployment's entry goes, and the node's with its last deployment.
unfoldable pub drop_entry : String → Dict String ResourceNames → Ownership → Ownership
drop_entry node_id [] nodes = Dict.delete node_id nodes
drop_entry node_id (entry ∷ per_dep) nodes = Dict.put node_id (entry ∷ per_dep) nodes

unfoldable pub clear_ownership : String → String → Indexer → Indexer
unfolding drop_entry
clear_ownership node_id dep idx = elim (lookup node_id idx.ownership) [
  | none ↦ idx
  | some per_dep ↦ record idx {
    ownership = drop_entry node_id (Dict.delete dep per_dep) idx.ownership;
  }
]

unfoldable pub clear_ownership_for_node : String → Indexer → Indexer
clear_ownership_for_node node_id idx = record idx { ownership = Dict.delete node_id idx.ownership }
