-- ===== src/Cache/Xds.antt =====
-- What internal/flowc/xds/cache/cache.go uses of go-control-plane, as an interface: the proto messages
-- of the four kinds, the snapshot and the snapshot cache. `Laws` is the documented behaviour that the
-- manager relies on. What Snapshot.Consistent asks of a snapshot is left open: the theorems suppose that a
-- write was answered without an error, or tell what an error leaves.
use flowc.Prelude.{String, List, [], Option, none, some, ◌≡◌, ◌≢◌, string_eq, ◌⊎◌, inr}
use flowc.Dict.{Dict, lookup, IsDistinct}
use flowc.Cache.Merge.{Kind, by_name}

-- The type URLs that the manager names.
pub data ResourceType : Type 0 where
  cluster_type : ResourceType
  endpoint_type : ResourceType
  listener_type : ResourceType
  route_type : ResourceType

pub record Xds : Type 1 where
  -- types.Resource, and its name by GetResourceName
  pub Resource : Type 0
  pub resource_name : Resource → String
  pub kind_of : ResourceType → Kind Resource
  pub Snapshot : Type 0
  pub SnapshotCache : Type 0
  pub Error : Type 0
  pub new_snapshot : String → (ResourceType → List Resource) → Error ⊎ Snapshot
  pub get_resources : Snapshot → ResourceType → Dict String Resource
  pub consistent : Snapshot → Option Error
  pub get_snapshot : String → SnapshotCache → Option Snapshot
  pub set_snapshot : String → Snapshot → SnapshotCache → Option Error × SnapshotCache
  pub clear_snapshot : String → SnapshotCache → SnapshotCache

-- A message is read back as what it is, and is named by its Name or ClusterName field. A new
-- snapshot holds a resource list by name, the last of two equal names. SetSnapshot stores before
-- it answers the watches, so also when it fails.
pub record Laws (x : Xds) : Type 0 where
  pub as-of :
      (t : ResourceType) (i : (x.kind_of t).Item)
      → (x.kind_of t).as_item ((x.kind_of t).of_item i) ≡ some i
  pub named :
      (t : ResourceType) (r : x.Resource) (i : (x.kind_of t).Item)
      → (x.kind_of t).as_item r ≡ some i
      → x.resource_name r ≡ (x.kind_of t).item_name i
  pub resources-new :
      (version : String) (resources : ResourceType → List x.Resource) (s : x.Snapshot)
      → x.new_snapshot version resources ≡ inr s
      → (t : ResourceType) (n : String)
      → lookup n (x.get_resources s t) ≡ lookup n (by_name some x.resource_name (resources t) [])
  pub distinct : (s : x.Snapshot) (t : ResourceType) → IsDistinct (x.get_resources s t)
  pub get-set :
      (node : String) (s : x.Snapshot) (c : x.SnapshotCache)
      → x.get_snapshot node (x.set_snapshot node s c).1 ≡ some s
  pub get-set_other :
      (node node' : String) (s : x.Snapshot) (c : x.SnapshotCache)
      → node ≢ node'
      → x.get_snapshot node' (x.set_snapshot node s c).1 ≡ x.get_snapshot node' c
  pub get-clear :
      (node : String) (c : x.SnapshotCache) → x.get_snapshot node (x.clear_snapshot node c) ≡ none
  pub get-clear_other :
      (node node' : String) (c : x.SnapshotCache)
      → node ≢ node'
      → x.get_snapshot node' (x.clear_snapshot node c) ≡ x.get_snapshot node' c
