-- ===== src/Cache/Manager.antt =====
-- cache.go: the ConfigManager. Its state is the snapshot cache; an operation returns its error, if
-- any, and the cache it leaves. `version` is the clock's reading (time.Now().UnixNano()) as text.
pub mod Effects
pub mod Publishing
pub mod Soundness
use flowc.Prelude.{String, List, [], map, Option, none, some, ◌⊎◌, inl, inr}
use flowc.Dict.{values}
use flowc.Cache.Xds.{Xds, ResourceType, cluster_type, endpoint_type, listener_type, route_type}
use flowc.Cache.Merge.{merge, remaining}
use flowc.Index.State.{ResourceNames}

pub data CacheError (E : Type 0) : Type 0 where
  -- failed to create (new) snapshot
  creation : E → CacheError E
  -- snapshot inconsistent
  inconsistent : E → CacheError E
  -- failed to set snapshot
  setting : E → CacheError E

module _ (x : Xds) where
  abbrev pub Item : ResourceType → Type 0
  Item t = (x.kind_of t).Item

  pub record ApiDeployment : Type 0 where
    pub clusters : List (Item cluster_type)
    pub endpoints : List (Item endpoint_type)
    pub routes : List (Item route_type)

  pub record SnapshotSpec : Type 0 where
    pub clusters : List (Item cluster_type)
    pub endpoints : List (Item endpoint_type)
    pub listeners : List (Item listener_type)
    pub routes : List (Item route_type)

  abbrev pub Written : Type 0
  Written = Option (CacheError x.Error) × x.SnapshotCache

  abbrev set_error : Option x.Error → Option (CacheError x.Error)
  set_error none = none
  set_error (some e) = some (setting e)

  unfoldable pub update_snapshot : String → x.Snapshot → x.SnapshotCache → Written
  update_snapshot node_id snapshot cache = elim (x.consistent snapshot) [
    | some e ↦ (some (inconsistent e), cache)
    | none ↦
        let done : Option x.Error × x.SnapshotCache = x.set_snapshot node_id snapshot cache in
        (set_error done.0, done.1)
  ]

  abbrev no_resources : ResourceType → List x.Resource
  no_resources t = []

  unfoldable pub create_empty_snapshot : x.Error ⊎ x.Snapshot
  create_empty_snapshot = x.new_snapshot "0" no_resources

  -- The resources of the four types, by type.
  abbrev pub deployed : x.Snapshot → ApiDeployment → ResourceType → List x.Resource
  deployed s d cluster_type =
      merge (x.kind_of cluster_type) (x.get_resources s cluster_type) d.clusters
  deployed s d endpoint_type =
      merge (x.kind_of endpoint_type) (x.get_resources s endpoint_type) d.endpoints
  deployed s d route_type = merge (x.kind_of route_type) (x.get_resources s route_type) d.routes
  deployed s d listener_type = values (x.get_resources s listener_type)

  abbrev pub undeployed : x.Snapshot → ResourceNames → ResourceType → List x.Resource
  undeployed s names cluster_type =
      remaining (x.kind_of cluster_type) (x.get_resources s cluster_type) names.clusters
  undeployed s names endpoint_type =
      remaining (x.kind_of endpoint_type) (x.get_resources s endpoint_type) names.endpoints
  undeployed s names route_type =
      remaining (x.kind_of route_type) (x.get_resources s route_type) names.routes
  undeployed s names listener_type = values (x.get_resources s listener_type)

  abbrev pub replaced : SnapshotSpec → ResourceType → List x.Resource
  replaced snap cluster_type = map (x.kind_of cluster_type).of_item snap.clusters
  replaced snap endpoint_type = map (x.kind_of endpoint_type).of_item snap.endpoints
  replaced snap listener_type = map (x.kind_of listener_type).of_item snap.listeners
  replaced snap route_type = map (x.kind_of route_type).of_item snap.routes

  -- The common end of the writing operations.
  unfoldable pub install :
      String → String → (ResourceType → List x.Resource) → x.SnapshotCache → Written
  unfolding update_snapshot
  install version node_id resources cache = elim (x.new_snapshot version resources) [
    | inl e ↦ (some (creation e), cache)
    | inr s ↦ update_snapshot node_id s cache
  ]

  -- DeployAPI with the snapshot that it starts from.
  unfoldable pub deploy_on :
      String → String → ApiDeployment → x.SnapshotCache → x.Snapshot → Written
  unfolding install
  deploy_on version node_id deployment cache s =
      install version node_id (deployed s deployment) cache

  unfoldable pub deploy_api : String → String → ApiDeployment → x.SnapshotCache → Written
  unfolding deploy_on create_empty_snapshot
  deploy_api version node_id deployment cache = elim (x.get_snapshot node_id cache) [
    | some s ↦ deploy_on version node_id deployment cache s
    | none ↦ elim create_empty_snapshot [
      | inl e ↦ (some (creation e), cache)
      | inr s ↦ deploy_on version node_id deployment cache s
    ]
  ]

  unfoldable pub undeploy_api : String → String → ResourceNames → x.SnapshotCache → Written
  unfolding install
  undeploy_api version node_id names cache = elim (x.get_snapshot node_id cache) [
    | none ↦ (none, cache)
    | some s ↦ install version node_id (undeployed s names) cache
  ]

  unfoldable pub replace_snapshot : String → String → SnapshotSpec → x.SnapshotCache → Written
  unfolding install
  replace_snapshot version node_id snap cache = install version node_id (replaced snap) cache

  unfoldable pub remove_node : String → x.SnapshotCache → x.SnapshotCache
  remove_node node_id cache = x.clear_snapshot node_id cache
