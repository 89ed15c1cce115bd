-- ===== src/Index/Queries.antt =====
-- index.go: the lookups. A lookup by reference reads a reverse map and takes the resource of each
-- name that the primary map holds.
pub mod Exact
use flowc.Prelude.{
  String, List, [], ◌∷◌, Option, none, some, Bool, true, false, not, ◌&&◌, ◌||◌, ◌≡◌, ◌≢◌, ◌↔◌,
  refl, arith, string_eq, ◌==◌, if◌then◌else◌, contains, eq_iff, eq_self, Option-cases, Bool-cases,
  inl, inr, ap, sym, ◌∙◌,
}
use flowc.Dict.{Dict, lookup, values}
use flowc.V1alpha1.Spec.{Gateway, Listener, Api, Deployment, ApiPolicy}
use flowc.Index.Reverse.{Reverse, refs}
use flowc.Index.Reverse.Mirror.{Mirrors}
use flowc.Index.State.{Indexer, gateway_ref, gateway_of, api_of, listener_of}
use flowc.Index.Apply.Consistency.{IsConsistent}

unfoldable pub get_gateway : String → Indexer → Option Gateway
get_gateway name idx = lookup name idx.gateways

unfoldable pub get_listener : String → Indexer → Option Listener
get_listener name idx = lookup name idx.listeners

unfoldable pub get_api : String → Indexer → Option Api
get_api name idx = lookup name idx.apis

unfoldable pub get_deployment : String → Indexer → Option Deployment
get_deployment name idx = lookup name idx.deployments

unfoldable pub gateways : Indexer → List Gateway
gateways idx = values idx.gateways

-- for _, n := range names { if v, ok := primary[n]; ok { out = append(out, v) } }
unfoldable pub collect : {A : Type 0} → List String → Dict String A → List A
collect [] primary = []
collect (n ∷ names) primary =
    let rest = collect names primary in elim (lookup n primary) [ none ↦ rest | some v ↦ v ∷ rest ]

unfoldable pub listeners_for_gateway : String → Indexer → List Listener
unfolding collect
listeners_for_gateway gw idx = collect (refs gw idx.listeners_by_gateway) idx.listeners

unfoldable pub deployments_for_gateway : String → Indexer → List Deployment
unfolding collect
deployments_for_gateway gw idx = collect (refs gw idx.deployments_by_gateway) idx.deployments

unfoldable pub deployments_for_api : String → Indexer → List Deployment
unfolding collect
deployments_for_api api idx = collect (refs api idx.deployments_by_api) idx.deployments

unfoldable pub deployments_for_listener : String → Indexer → List Deployment
unfolding collect
deployments_for_listener listener idx =
    collect (refs listener idx.deployments_by_listener) idx.deployments

unfoldable pub api_policies_for_api : String → Indexer → List ApiPolicy
unfolding collect
api_policies_for_api api idx = collect (refs api idx.api_policies_by_target_api) idx.api_policies
