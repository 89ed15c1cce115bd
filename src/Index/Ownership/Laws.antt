-- ===== src/Index/Ownership/Laws.antt =====
-- The ownership map of index.go, told by what GetOwnership answers after each operation.
use flowc.Prelude.{
  String, [], ◌∷◌, none, some, ◌&&◌, ◌≡◌, refl, arith, string_eq, ◌==◌, if◌then◌else◌, eq_iff,
  Option-cases, inl, inr,
}
use flowc.Dict
use flowc.Dict.{Dict, lookup, lookup-put, lookup-delete, IsDistinct}
use flowc.Index.State.{ResourceNames, Indexer}
use flowc.Index.Ownership.{
  Ownership, on_node, get_dep, record_ownership, get_ownership, find_owner,
  ownership_for_deployment, drop_entry, clear_ownership, clear_ownership_for_node,
}

-- What a node answers after its entry was dropped.
lookup-drop_entry :
    (node' node : String) (per_dep : Dict String ResourceNames) (nodes : Ownership) (dep : String)
    → get_dep dep (lookup node' (drop_entry node per_dep nodes))
      ≡ (if node == node' then lookup dep per_dep else get_dep dep (lookup node' nodes))
unfolding drop_entry lookup
lookup-drop_entry node' node [] nodes dep = ground (arith, lookup-delete node' node nodes)
lookup-drop_entry node' node (e ∷ per_dep) nodes dep =
    ground (arith, lookup-put node' node (e ∷ per_dep) nodes)

module _ (node dep : String) (idx : Indexer) where
  -- Recording a deployment on a node sets that entry and keeps every other.
  pub get-record :
      (names : ResourceNames) (node' dep' : String)
      → get_ownership node' dep' (record_ownership node dep names idx)
        ≡ (if node == node' && dep == dep' then some names else get_ownership node' dep' idx)
  unfolding get_ownership record_ownership lookup
  get-record names node' dep' = ground (
    arith,
    lookup-put node' node (Dict.put dep names (on_node (lookup node idx.ownership))) idx.ownership,
    lookup-put dep' dep names (on_node (lookup node idx.ownership)),
    eq_iff node node',
  )

  -- Clearing a deployment on a node removes that entry and keeps every other.
  pub get-clear :
      (node' dep' : String)
      → get_ownership node' dep' (clear_ownership node dep idx)
        ≡ (if node == node' && dep == dep' then none else get_ownership node' dep' idx)
  unfolding get_ownership clear_ownership
  get-clear node' dep' = elim (Option-cases (lookup node idx.ownership)) [
    | inl missing ↦ rw (missing, clear_ownership) ground (arith, missing, eq_iff node node')
    | inr (per_dep, found) ↦
        rw (found, clear_ownership) ground
          (
            arith,
            found,
            lookup-drop_entry node' node (Dict.delete dep per_dep) idx.ownership dep',
            lookup-delete dep' dep per_dep,
            eq_iff node node',
          )
  ]

  pub get-clear_node :
      (node' dep' : String)
      → get_ownership node' dep' (clear_ownership_for_node node idx)
        ≡ (if node == node' then none else get_ownership node' dep' idx)
  unfolding get_ownership clear_ownership_for_node
  get-clear_node node' dep' = ground (arith, lookup-delete node' node idx.ownership)

-- A node of the answer owns the deployment, with the names of the answer.
find_owner-Owns :
    (dep : String) (nodes : Ownership)
    → IsDistinct nodes
    → (node : String) (names : ResourceNames) → find_owner dep nodes ≡ some (node, names)
    → get_dep dep (lookup node nodes) ≡ some names
unfolding find_owner lookup
find_owner-Owns dep [] d node names e = ground arith
find_owner-Owns dep ((m, per_dep) ∷ nodes) d node names e =
    elim (Option-cases (lookup dep per_dep)) [
      | inl missing ↦
          let rest : find_owner dep nodes ≡ some (node, names) = ground arith in
          ground (arith, find_owner-Owns dep nodes d.1 node names rest, eq_iff m node, d.0)
      | inr (v, found) ↦ ground (arith, eq_iff m node)
    ]

find_owner-none :
    (dep : String) (nodes : Ownership)
    → find_owner dep nodes ≡ none
    → (node : String) → get_dep dep (lookup node nodes) ≡ none
unfolding find_owner lookup
find_owner-none dep [] e node = refl
find_owner-none dep ((m, per_dep) ∷ nodes) e node = elim (Option-cases (lookup dep per_dep)) [
  | inl missing ↦
      let rest : find_owner dep nodes ≡ none = ground arith in
      ground (arith, find_owner-none dep nodes rest node, eq_iff m node)
  | inr (v, found) ↦ ground arith
]

-- OwnershipForDeployment, on an ownership map with one entry for a node: an answer is an entry that
-- GetOwnership gives back, and no answer means that no node has an entry for the deployment.
pub ownership_for_deployment_lem :
    (dep : String) (idx : Indexer)
    → IsDistinct idx.ownership
    → ((node : String) (names : ResourceNames)
        → ownership_for_deployment dep idx ≡ some (node, names)
        → get_ownership node dep idx ≡ some names)
      × (ownership_for_deployment dep idx ≡ none
          → (node : String) → get_ownership node dep idx ≡ none)
unfolding ownership_for_deployment get_ownership
ownership_for_deployment_lem dep idx d = (
  λ node names e. find_owner-Owns dep idx.ownership d node names e,
  λ e node. find_owner-none dep idx.ownership e node,
)
