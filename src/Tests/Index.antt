-- ===== src/Tests/Index.antt =====
-- The indexer at concrete inputs.
use mathlib.Core.List.{Memᴰ}
use flowc.Prelude.{
  String, [], ◌∷◌, none, some, true, ◌≡◌, ◌≢◌, ◌↔◌, refl, arith, eq_iff, string_eq, contains,
}
use flowc.Dict
use flowc.Dict.{Dict, lookup, IsDistinct}
use flowc.Store.Resource.{StoredResource, WatchEventType, WatchEvent}
use flowc.V1alpha1.Spec.{
  Listener, Api, Deployment, ApiPolicy, zero_gateway, zero_listener, zero_api,
}
use flowc.Index.Reverse.{refs}
use flowc.Index.Reverse.Mirror.{points}
use flowc.Index.State.{ResourceNames, Indexer, new, gateway_ref, gateway_of, api_of, listener_of}
use flowc.Index.Decode.{Unmarshal}
use flowc.Index.Apply.{apply, put_api, put_api_policy}
use flowc.Index.Apply.Consistency.{
  IsConsistent, IsConsistent-new, nothing-Mirrors, apply-IsConsistent,
}
use flowc.Index.Apply.Idempotence.{apply_idem}
use flowc.Index.Apply.Policies.{api_ref, PoliciesMirror, put_policy-Mirrors, put_policy_stale}
use flowc.Index.Apply.Tasks.{schedules, put_api-schedules}
use flowc.Index.Queries.{
  listeners_for_gateway, deployments_for_gateway, deployments_for_api, deployments_for_listener,
}
use flowc.Index.Queries.Exact.{lookups_exact}

-- The text that decodes to a deployment of the API "pets" on the gateway "edge".
abbrev json : Unmarshal
json = record {
  gateway = λ _. some zero_gateway;
  listener = λ _. some zero_listener;
  api = λ _. some zero_api;
  deployment = λ _. some (record {
    api_ref = "pets";
    gateway = record { name = "edge"; listener = "" };
    strategy = none;
  });
  policy = λ _. none;
}

abbrev resource : String → StoredResource
resource kind = record {
  meta = record {
    kind = kind;
    name = "one";
    revision = 1;
    managed_by = "";
    conflict_policy = "";
    labels = [];
    annotations = [];
    created_at = 0;
    updated_at = 0;
  };
  spec_json = 123 ∷ [];
  status_json = [];
}

abbrev event : WatchEvent
event = record {
  type = WatchEventType.put;
  resource = some (resource "Deployment");
  old_resource = none;
}

abbrev idx : Indexer
idx = (apply json event new).1

apply-IsConsistent_example : IsConsistent idx
apply-IsConsistent_example = apply-IsConsistent json event IsConsistent-new

consistent : IsConsistent idx
consistent = apply-IsConsistent json event IsConsistent-new

apply_idem_example : (apply json event (apply json event new).1).1 ≡ (apply json event new).1
apply_idem_example = apply_idem json event new

abbrev pets : Api
pets = record { name = "pets"; labels = []; annotations = []; spec = zero_api }

put_api-schedules_example :
    schedules "one" (put_api "pets" (some pets) idx).0
    ≡ points api_of "pets" (lookup "one" idx.deployments)
put_api-schedules_example = put_api-schedules "pets" pets consistent "one"

abbrev edge : String
edge = "edge"

lookups_exact_example :
    ((l : Listener)
      → Memᴰ l (listeners_for_gateway "edge" idx) ↔ (
          (n : String) × (lookup n idx.listeners ≡ some l)
          × (gateway_ref l ≡ "edge")
          × (edge ≢ "")))
    × ((d : Deployment)
        → Memᴰ d (deployments_for_gateway "edge" idx) ↔ (
            (n : String) × (lookup n idx.deployments ≡ some d)
            × (gateway_of d ≡ "edge")
            × (edge ≢ "")))
    × ((d : Deployment)
        → Memᴰ d (deployments_for_api "edge" idx) ↔ (
            (n : String) × (lookup n idx.deployments ≡ some d) × (api_of d ≡ "edge") × (edge ≢ "")))
    × ((d : Deployment)
        → Memᴰ d (deployments_for_listener "edge" idx) ↔ (
            (n : String) × (lookup n idx.deployments ≡ some d)
            × (listener_of d ≡ "edge")
            × (edge ≢ "")))
lookups_exact_example = lookups_exact idx "edge" consistent

abbrev policy : String → ApiPolicy
policy kind = record {
  name = "limit";
  labels = [];
  annotations = [];
  spec = record {
    target_ref = record { group = ""; kind = kind; name = "pets"; section_name = "" };
  };
}

none_indexed : PoliciesMirror new
none_indexed = nothing-Mirrors api_ref

abbrev limited : Indexer
limited = (put_api_policy "limit" (some (policy "API")) new).1

put_policy_stale_example :
    let idx' = (put_api_policy "limit" (some (policy "Gateway")) limited).1 in
    (contains (refs "pets" idx'.api_policies_by_target_api) "limit" ≡ true)
    × (lookup "limit" idx'.api_policies ≡ some (policy "Gateway"))
unfolding put_api_policy lookup Dict.put
put_policy_stale_example =
    put_policy_stale "limit" (policy "API") (policy "Gateway") limited
      (put_policy-Mirrors "limit" (policy "API") new tt none_indexed) refl refl refl refl
      (ground (arith, eq_iff "pets" ""))

abbrev names : ResourceNames
names = record { clusters = "c" ∷ []; endpoints = "c" ∷ []; routes = "r" ∷ [] }

abbrev node : String
node = "node"

abbrev one : String
one = "one"

abbrev two : String
two = "two"
