-- ===== src/Tests/Cache.antt =====
-- The snapshot cache at concrete inputs, with a control plane that keeps its snapshots as lists.
use flowc.Prelude.{
  String, List, [], ◌∷◌, Option, none, some, Bool, true, false, ◌≡◌, refl, arith, ap, sym,
  string_eq, eq_iff, if◌then◌else◌, ◌⊎◌, inl, inr,
}
use flowc.Dict
use flowc.Dict.{Dict, lookup, lookup-put, lookup-delete, IsDistinct, IsDistinct-put}
use flowc.Cache.Xds.{
  Xds, Laws, ResourceType, cluster_type, endpoint_type, listener_type, route_type,
}
use flowc.Cache.Merge.{by_name}
use flowc.Cache.Merge.Laws.{or_else}
use flowc.Cache.Manager.{ApiDeployment, SnapshotSpec, deploy_api, undeploy_api, replace_snapshot}
use flowc.Cache.Manager.Effects.{published, own, dropped, AllTyped, Effect}
use flowc.Cache.Manager.Publishing.{deploy_api-Effect, undeploy_api-Effect}
use flowc.Cache.Manager.Soundness.{replaces, Step-AllTyped}
use flowc.Index.State.{ResourceNames}

pub record Message : Type 0 where
  pub type : ResourceType
  pub name : String
  pub body : String

abbrev pub same_type : ResourceType → ResourceType → Bool
same_type cluster_type cluster_type = true
same_type endpoint_type endpoint_type = true
same_type listener_type listener_type = true
same_type route_type route_type = true
same_type _ _ = false

pub record Body : Type 0 where
  pub name : String
  pub body : String

abbrev pub read : ResourceType → Message → Option Body
read t m = if same_type t m.type then some (record { name = m.name; body = m.body }) else none

abbrev pub plane : Xds
plane = record {
  Resource = Message;
  resource_name = λ m. m.name;
  kind_of = λ t. record {
    Item = Body;
    item_name = λ b. b.name;
    as_item = read t;
    of_item = λ b. record { type = t; name = b.name; body = b.body };
  };
  Snapshot = ResourceType → List Message;
  SnapshotCache = Dict String (ResourceType → List Message);
  Error = Unit;
  new_snapshot = λ version resources. inr resources;
  get_resources = λ s t. by_name some (λ m. m.name) (s t) [];
  consistent = λ s. none;
  get_snapshot = lookup;
  set_snapshot = λ node s cache. (none, Dict.put node s cache);
  clear_snapshot = Dict.delete;
}

IsDistinct-entered :
    (ms : List Message) (m : Dict String Message)
    → IsDistinct m
    → IsDistinct (by_name some (λ r. r.name) ms m)
unfolding by_name
IsDistinct-entered [] m d = d
IsDistinct-entered (r ∷ ms) m d = IsDistinct-entered ms _ (IsDistinct-put r.name r m d)

read_self :
    (t : ResourceType) (b : Body)
    → read t (record { type = t; name = b.name; body = b.body }) ≡ some b
read_self cluster_type b = refl
read_self endpoint_type b = refl
read_self listener_type b = refl
read_self route_type b = refl

abbrev pub made_from :
    {E : Type 0}
    → (ResourceType → List Message)
    → E ⊎ (ResourceType → List Message)
    → ResourceType
    → List Message
made_from s (inl e) = s
made_from s (inr r) = r

pub plane_laws : Laws plane
plane_laws = record {
  as-of = read_self;
  named = λ t r i e. ground (arith, e);
  resources-new = λ version resources s made t n.
      ap (λ q. lookup n (by_name some (λ m. m.name) (made_from s q t) [])) (sym made);
  distinct = λ s t. IsDistinct-entered (s t) [] tt;
  get-set = λ node s c. ground (arith, lookup-put node node s c, eq_iff node node);
  get-set_other =
      λ node node' s c other. ground (arith, lookup-put node' node s c, eq_iff node node');
  get-clear = λ node c. ground (arith, lookup-delete node node c, eq_iff node node);
  get-clear_other =
      λ node node' c other. ground (arith, lookup-delete node' node c, eq_iff node node');
}

abbrev pub start : Dict String (ResourceType → List Message)
start = []

pub start_typed : AllTyped plane start
unfolding lookup
start_typed node s e = ground arith

abbrev page : SnapshotSpec plane
page = record {
  clusters = record { name = "c"; body = "old" } ∷ [];
  endpoints = [];
  listeners = record { name = "listener_80"; body = "" } ∷ [];
  routes = [];
}

abbrev cache : Dict String (ResourceType → List Message)
cache = (replace_snapshot plane "1" "edge" page start).1

cache_typed : AllTyped plane cache
cache_typed = Step-AllTyped plane plane_laws (replaces "1" "edge" page) start_typed

abbrev pub deployment : ApiDeployment plane
deployment = record {
  clusters = record { name = "c"; body = "new" } ∷ [];
  endpoints = [];
  routes = record { name = "r"; body = "" } ∷ [];
}

abbrev names : ResourceNames
names = record { clusters = "c" ∷ []; endpoints = []; routes = "r" ∷ [] }

deploy_api-Effect_example :
    Effect plane "edge"
      (λ t n. or_else (own plane deployment t n) (published plane "edge" t n cache))
      cache
      (deploy_api plane "2" "edge" deployment cache)
deploy_api-Effect_example =
    deploy_api-Effect plane plane_laws "2" "edge" deployment cache cache_typed

undeploy_api-Effect_example :
    Effect plane "edge"
      (λ t n. if dropped plane names t n then none else published plane "edge" t n cache)
      cache
      (undeploy_api plane "3" "edge" names cache)
undeploy_api-Effect_example =
    undeploy_api-Effect plane plane_laws "3" "edge" names cache cache_typed
