-- ===== src/Dispatch/Gateway.antt =====
-- gateway.go: the gateway translator. `translated` is translateOne on a deployment, by `or_skip`;
-- `build_listener` is one round of buildListeners, none where the builder fails; `placeholder` is
-- placeholderRouteConfig. Dispatch/Gateway/Build has what the last two make.
pub mod Coverage
pub mod Gathered
pub mod Collected
pub mod Rebuild
pub mod Primaries
pub mod Build
use Prim.Native.String.{◌++◌ as join}
use flowc.Prelude.{
  String, List, [], ◌∷◌, ◌++◌, Option, none, some, Bool, string_eq, ◌==◌, if◌then◌else◌, ◌⊎◌, inl,
  inr,
}
use flowc.Dict
use flowc.Dict.{Dict}
use flowc.V1alpha1.Spec.{Gateway, Listener, Deployment}
use flowc.Index.State.{AffectedTask, ResourceNames, Indexer}
use flowc.Index.Queries.{get_gateway, listeners_for_gateway, deployments_for_gateway}
use flowc.Index.Ownership.{record_ownership, clear_ownership_for_node}
use flowc.Cache.Xds.{Xds, cluster_type, endpoint_type, listener_type, route_type}
use flowc.Cache.Manager.{
  CacheError, Item, ApiDeployment, SnapshotSpec, Written, replace_snapshot, remove_node,
}
use flowc.Dispatch.Deployment.{World, TranslateError, resource_names_from_xds}

-- A listener without hostnames serves all of them.
abbrev pub hostnames_of : Listener → List String
hostnames_of l = elim l.spec.hostnames [ [] ↦ "*" ∷ [] | h ∷ hs ↦ h ∷ hs ]

-- "route_%s_%s"
abbrev pub route_name : Listener → String → String
route_name l hostname = join "route_" (join l.name (join "_" hostname))

-- activeRoutes[rc.Name] = struct{}{}
unfoldable pub activate : List String → Dict {0, 0} String Unit → Dict {0, 0} String Unit
activate [] active = active
activate (n ∷ names) active = activate names (Dict.put n tt active)

module _ (x : Xds) where
  -- A failed translation is logged and skipped.
  unfoldable pub or_skip : TranslateError x ⊎ ApiDeployment x → Option (ApiDeployment x)
  or_skip (inl e) = none
  or_skip (inr xds) = some xds

  pub record Rebuilt : Type 0 where
    pub clusters : List (Item x cluster_type)
    pub endpoints : List (Item x endpoint_type)
    pub routes : List (Item x route_type)
    pub per_dep_names : Dict String ResourceNames
    pub active_routes : Dict {0, 0} String Unit

  abbrev pub nothing_rebuilt : Rebuilt
  nothing_rebuilt = record {
    clusters = [];
    endpoints = [];
    routes = [];
    per_dep_names = [];
    active_routes = [];
  }

  unfoldable pub add_deployment : String → Option (ApiDeployment x) → Rebuilt → Rebuilt
  unfolding activate resource_names_from_xds
  add_deployment name none r = r
  add_deployment name (some xds) r = record {
    clusters = r.clusters ++ xds.clusters;
    endpoints = r.endpoints ++ xds.endpoints;
    routes = r.routes ++ xds.routes;
    per_dep_names = Dict.put name (resource_names_from_xds x xds) r.per_dep_names;
    active_routes = activate (resource_names_from_xds x xds).routes r.active_routes;
  }

  unfoldable pub add_deployments :
      (Deployment → Option (ApiDeployment x)) → List Deployment → Rebuilt → Rebuilt
  unfolding add_deployment
  add_deployments translated [] r = r
  add_deployments translated (dep ∷ deps) r =
      add_deployments translated deps (add_deployment dep.name (translated dep) r)

  module _ (placeholder : String → String → Item x route_type) where
    unfoldable pub add_placeholder : Listener → String → Rebuilt → Rebuilt
    add_placeholder l hostname r =
        if Dict.has (route_name l hostname) r.active_routes then r else record r {
          routes = r.routes ++ placeholder (route_name l hostname) hostname ∷ [];
          active_routes = Dict.put (route_name l hostname) tt r.active_routes;
        }

    unfoldable pub add_hostnames : Listener → List String → Rebuilt → Rebuilt
    unfolding add_placeholder
    add_hostnames l [] r = r
    add_hostnames l (h ∷ hs) r = add_hostnames l hs (add_placeholder l h r)

    unfoldable pub add_placeholders : List Listener → Rebuilt → Rebuilt
    unfolding add_hostnames
    add_placeholders [] r = r
    add_placeholders (l ∷ ls) r = add_placeholders ls (add_hostnames l (hostnames_of l) r)

    module _ (translated : Deployment → Indexer → Option (ApiDeployment x))
        (build_listener : Listener → Option (Item x listener_type)) where
      unfoldable pub build_listeners : List Listener → List (Item x listener_type)
      build_listeners [] = []
      build_listeners (l ∷ ls) =
          let rest = build_listeners ls in
          elim (build_listener l) [ none ↦ rest | some built ↦ built ∷ rest ]

      unfoldable pub rebuild : String → Indexer → Rebuilt
      unfolding add_placeholders add_deployments
      rebuild name idx = add_placeholders (listeners_for_gateway name idx) (
          add_deployments (λ dep. translated dep idx) (deployments_for_gateway name idx)
            nothing_rebuilt)

      abbrev pub snapshot_of : List Listener → Rebuilt → SnapshotSpec x
      snapshot_of listeners r = record {
        clusters = r.clusters;
        endpoints = r.endpoints;
        listeners = build_listeners listeners;
        routes = r.routes;
      }

      unfoldable pub record_all : String → Dict String ResourceNames → Indexer → Indexer
      record_all node_id [] idx = idx
      record_all node_id ((dep, names) ∷ rest) idx =
          record_all node_id rest (record_ownership node_id dep names idx)

      abbrev pub Rebuilding : Type 0
      Rebuilding = Option (CacheError x.Error) × World x

      unfoldable pub reowned : String → Rebuilt → Indexer → Written x → Rebuilding
      unfolding record_all
      reowned node_id r idx (some e, cache) = (some e, record { indexer = idx; cache = cache })
      reowned node_id r idx (none, cache) = (
        none,
        record {
          indexer = record_all node_id r.per_dep_names (clear_ownership_for_node node_id idx);
          cache = cache;
        },
      )

      unfoldable pub rebuild_gateway : String → String → Gateway → World x → Rebuilding
      unfolding reowned rebuild
      rebuild_gateway version name gw w =
          let r = rebuild name w.indexer in
          reowned gw.spec.node_id r w.indexer (
            replace_snapshot x version gw.spec.node_id
              (snapshot_of (listeners_for_gateway name w.indexer) r) w.cache)

      unfoldable pub handle_put : String → AffectedTask → World x → Rebuilding
      unfolding rebuild_gateway
      handle_put version task w = elim (get_gateway task.name w.indexer) [
        | none ↦ (none, w)
        | some gw ↦ rebuild_gateway version task.name gw w
      ]

      unfoldable pub handle_delete : AffectedTask → World x → Rebuilding
      handle_delete task w = if task.node_id == "" then (none, w) else (
        none,
        record {
          indexer = clear_ownership_for_node task.node_id w.indexer;
          cache = remove_node x task.node_id w.cache;
        },
      )

      unfoldable pub translate : String → AffectedTask → World x → Rebuilding
      unfolding handle_put handle_delete
      translate version task w =
          if task.deletion then handle_delete task w else handle_put version task w
