-- ===== src/Cache/Merge.antt =====
-- cache.go: the loops of DeployAPI, UnDeployAPI and ReplaceSnapshot over the resources of one kind,
-- which the source writes out for clusters, endpoints and routes. A loop over a Go map, whose order
-- is not fixed, runs over the values of the association list.
pub mod Laws
use flowc.Prelude.{String, List, [], ◌∷◌, map, Option, none, some, Bool, string_eq, if◌then◌else◌}
use flowc.Dict
use flowc.Dict.{Dict, values}

-- A kind of resource: its message type, the field that names it, the type assertion from a general
-- resource, and the message as a general resource.
pub record Kind (R : Type 0) : Type 1 where
  pub Item : Type 0
  pub item_name : Item → String
  pub as_item : R → Option Item
  pub of_item : Item → R

module _ {R I : Type 0} (as_item : R → Option I) (item_name : I → String) where
  -- clusterMap[c.Name] = res, for the resources that are of the kind
  unfoldable pub by_name : List R → Dict String R → Dict String R
  by_name [] m = m
  by_name (r ∷ rs) m =
      by_name rs (elim (as_item r) [ none ↦ m | some i ↦ Dict.put (item_name i) r m ])

  -- the keep loop: a resource of another kind stays, one whose name is dropped goes
  unfoldable pub keep : Dict {0, 0} String Unit → List R → List R
  keep drop [] = []
  keep drop (r ∷ rs) =
      let rest = keep drop rs in
      elim (as_item r) [
        | none ↦ r ∷ rest
        | some i ↦ if Dict.has (item_name i) drop then rest else r ∷ rest
      ]

module _ {R I : Type 0} (of_item : I → R) (item_name : I → String) where
  -- clusterMap[c.Name] = c, for the deployment's own resources
  unfoldable pub overlay : List I → Dict String R → Dict String R
  overlay [] m = m
  overlay (i ∷ is) m = overlay is (Dict.put (item_name i) (of_item i) m)

unfoldable pub string_set : List String → Dict {0, 0} String Unit → Dict {0, 0} String Unit
string_set [] out = out
string_set (i ∷ items) out = string_set items (Dict.put i tt out)

module _ {R : Type 0} (k : Kind R) where
  unfoldable pub merge : Dict String R → List k.Item → List R
  unfolding by_name overlay
  merge old own =
      values (overlay k.of_item k.item_name own (by_name k.as_item k.item_name (values old) []))

  unfoldable pub remaining : Dict String R → List String → List R
  unfolding keep string_set
  remaining old names = keep k.as_item k.item_name (string_set names []) (values old)
