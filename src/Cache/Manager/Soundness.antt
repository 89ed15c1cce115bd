-- ===== src/Cache/Manager/Soundness.antt =====
-- Every snapshot that cache.go installs is typed: each resource is of its type and stands under its
-- name.
use flowc.Prelude.{
  String, List, Option, none, some, Bool, ◌≡◌, arith, string_eq, ◌==◌, if◌then◌else◌, eq_iff,
  Option-cases, Bool-cases, inl, inr, sym, ◌∙◌, ap,
}
use flowc.Cache.Xds.{
  Xds, Laws, ResourceType, cluster_type, endpoint_type, listener_type, route_type,
}
use flowc.Cache.Merge.Laws.{or_else, last_named-Keyed}
use flowc.Cache.Manager.{
  Item, ApiDeployment, SnapshotSpec, Written, deploy_api, undeploy_api, replace_snapshot,
  remove_node,
}
use flowc.Cache.Manager.Effects.{held, published, last, own, dropped, whole, AllTyped, Effect}
use flowc.Cache.Manager.Publishing.{deploy_api-Effect, undeploy_api-Effect, replace_snapshot-Effect}
use flowc.Index.State.{ResourceNames}

module _ (x : Xds) (laws : Laws x) where
  abbrev IsOf : (t : ResourceType) (n : String) → Option x.Resource → Type 0
  IsOf t n o =
      (r : x.Resource)
      → o ≡ some r
      → (i : Item x t) × ((x.kind_of t).as_item r ≡ some i) × ((x.kind_of t).item_name i ≡ n)

  abbrev Fits : (ResourceType → String → Option x.Resource) → Type 0
  Fits want = (t : ResourceType) (n : String) → IsOf t n (want t n)

  Effect-AllTyped :
      (node : String) (want : ResourceType → String → Option x.Resource) (cache : x.SnapshotCache)
      (r : Written x)
      → AllTyped x cache
      → Fits want
      → Effect x node want cache r
      → AllTyped x r.1
  Effect-AllTyped node want cache r typed fits e node' s found = elim (Bool-cases (node == node')) [
    | inl same ↦ elim e.all_or_nothing [
      | inl unchanged ↦ typed node' s (ap (x.get_snapshot node') (sym unchanged) ∙ found)
      | inr gives ↦ λ t n o h. fits t n o (
          sym (gives t n)
          ∙ ap (λ m. held x t n (x.get_snapshot m r.1)) (ground (arith, eq_iff node node'))
          ∙ ap (held x t n) found
          ∙ h)
    ]
    | inr other ↦ typed node' s (sym (e.others node' (ground (arith, eq_iff node node'))) ∙ found)
  ]

  published-IsOf :
      (cache : x.SnapshotCache)
      → AllTyped x cache
      → (node : String) → Fits (λ t n. published x node t n cache)
  published-IsOf cache typed node t n r e = elim (Option-cases (x.get_snapshot node cache)) [
    | inl missing ↦ ground (arith, missing)
    | inr (s, found) ↦ typed node s found t n r (sym (ap (held x t n) found) ∙ e)
  ]

  last-IsOf : (t : ResourceType) (n : String) (is : List (Item x t)) → IsOf t n (last x t n is)
  last-IsOf t n is r e =
      let (i, of, named) =
        last_named-Keyed (x.kind_of t).of_item (x.kind_of t).item_name n is r e in
      (i, ap (x.kind_of t).as_item (sym of) ∙ laws.as-of t i, named)

  own-IsOf : (d : ApiDeployment x) → Fits (own x d)
  own-IsOf d cluster_type n = last-IsOf cluster_type n d.clusters
  own-IsOf d endpoint_type n = last-IsOf endpoint_type n d.endpoints
  own-IsOf d route_type n = last-IsOf route_type n d.routes
  own-IsOf d listener_type n = λ r e. ground arith

  whole-IsOf : (snap : SnapshotSpec x) → Fits (whole x snap)
  whole-IsOf snap cluster_type n = last-IsOf cluster_type n snap.clusters
  whole-IsOf snap endpoint_type n = last-IsOf endpoint_type n snap.endpoints
  whole-IsOf snap listener_type n = last-IsOf listener_type n snap.listeners
  whole-IsOf snap route_type n = last-IsOf route_type n snap.routes

  or_else-IsOf :
      (t : ResourceType) (n : String) (a b : Option x.Resource)
      → IsOf t n a
      → IsOf t n b
      → IsOf t n (or_else a b)
  or_else-IsOf t n none b f g = g
  or_else-IsOf t n (some a) b f g = f

  unless-IsOf :
      (t : ResourceType) (n : String) (b : Bool) (o : Option x.Resource)
      → IsOf t n o
      → IsOf t n (if b then none else o)
  unless-IsOf t n b o f r e = f r (ground arith)

  -- The operations of the manager that write.
  pub data Step (cache : x.SnapshotCache) : x.SnapshotCache → Type 0 where
    deploys :
        (version node : String) (d : ApiDeployment x)
        → Step cache (deploy_api x version node d cache).1
    undeploys :
        (version node : String) (names : ResourceNames)
        → Step cache (undeploy_api x version node names cache).1
    replaces :
        (version node : String) (snap : SnapshotSpec x)
        → Step cache (replace_snapshot x version node snap cache).1
    removes : (node : String) → Step cache (remove_node x node cache)

  -- If go-control-plane keeps its laws: every operation that writes, whether it succeeds or fails,
  -- leaves a cache of typed snapshots from one: each resource is of its type and stands under its
  -- name.
  pub Step-AllTyped :
      {cache cache' : x.SnapshotCache} → Step cache cache' → AllTyped x cache → AllTyped x cache'
  unfolding remove_node
  Step-AllTyped {cache} (deploys version node d) typed =
      Effect-AllTyped node _ cache _ typed
        (λ t n. or_else-IsOf t n _ _ (own-IsOf d t n) (published-IsOf cache typed node t n))
        (deploy_api-Effect x laws version node d cache typed)
  Step-AllTyped {cache} (undeploys version node names) typed =
      Effect-AllTyped node _ cache _ typed
        (λ t n. unless-IsOf t n (dropped x names t n) _ (published-IsOf cache typed node t n))
        (undeploy_api-Effect x laws version node names cache typed)
  Step-AllTyped {cache} (replaces version node snap) typed =
      Effect-AllTyped node _ cache _ typed (whole-IsOf snap)
        (replace_snapshot-Effect x laws version node snap cache)
  Step-AllTyped {cache} (removes node) typed = λ node' s found. elim (Bool-cases (node == node')) [
    | inl same ↦ ground (arith, laws.get-clear node cache, eq_iff node node')
    | inr other ↦
        typed node' s
          (sym (laws.get-clear_other node node' cache (ground (arith, eq_iff node node'))) ∙ found)
  ]
