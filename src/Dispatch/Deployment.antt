-- ===== src/Dispatch/Deployment.antt =====
-- deployment.go and the resolution of references in translate.go. What translateOne does with the
-- resolved resources, parsing the API and running the strategies, is the argument `compose`; the
-- translators share the indexer and the snapshot cache.
pub mod Listeners
pub mod Lifecycle
pub mod Removal
use flowc.Prelude.{
  ℕ, String, List, [], ◌∷◌, map, Option, none, some, Bool, length, string_eq, ◌==◌, ◌!=◌,
  if◌then◌else◌, ◌⊎◌, inl, inr,
}
use flowc.V1alpha1.Spec.{Gateway, Listener, Api, Deployment}
use flowc.Index.State.{
  AffectedTask, ResourceNames, Indexer, gateway_ref, gateway_of, api_of, listener_of,
}
use flowc.Index.Queries.{get_gateway, get_listener, get_api, get_deployment, listeners_for_gateway}
use flowc.Index.Ownership.{record_ownership, ownership_for_deployment, clear_ownership}
use flowc.Cache.Xds.{Xds, ResourceType, cluster_type, endpoint_type, route_type}
use flowc.Cache.Manager.{CacheError, Item, ApiDeployment, Written, deploy_api, undeploy_api}

pub data ListenerError : Type 0 where
  listener_missing : String → ListenerError
  listener_foreign : String → String → String → ListenerError
  no_listeners : String → ListenerError
  listener_required : String → ℕ → ListenerError

-- The gateway has exactly one listener.
unfoldable pub only_listener : String → List Listener → ListenerError ⊎ Listener
only_listener gw [] = inl (no_listeners gw)
only_listener gw (l ∷ []) = inr l
only_listener gw (l ∷ m ∷ ls) = inl (listener_required gw (length (l ∷ m ∷ ls)))

unfoldable pub named_listener : String → String → Option Listener → ListenerError ⊎ Listener
named_listener explicit gw none = inl (listener_missing explicit)
named_listener explicit gw (some l) =
    if gateway_ref l != gw then inl (listener_foreign explicit (gateway_ref l) gw) else inr l

unfoldable pub resolve_listener : Deployment → Gateway → Indexer → ListenerError ⊎ Listener
unfolding only_listener named_listener
resolve_listener dep gw idx =
    if listener_of dep != ""
    then named_listener (listener_of dep) gw.name (get_listener (listener_of dep) idx)
    else only_listener gw.name (listeners_for_gateway gw.name idx)

module _ (x : Xds) where
  pub record World : Type 0 where
    pub indexer : Indexer
    pub cache : x.SnapshotCache

  pub data TranslateError : Type 0 where
    api_missing : String → TranslateError
    gateway_missing : String → TranslateError
    listener_error : ListenerError → TranslateError
    compose_error : String → TranslateError
    cache_error : CacheError x.Error → TranslateError

  unfoldable pub resource_names_from_xds : ApiDeployment x → ResourceNames
  resource_names_from_xds xds = record {
    clusters = map (x.kind_of cluster_type).item_name xds.clusters;
    endpoints = map (x.kind_of endpoint_type).item_name xds.endpoints;
    routes = map (x.kind_of route_type).item_name xds.routes;
  }

  module _ (compose : Deployment → Api → Gateway → Listener → String ⊎ ApiDeployment x) where
    abbrev composed :
        Deployment → Api → Gateway → ListenerError ⊎ Listener → TranslateError ⊎ ApiDeployment x
    composed dep api gw (inl e) = inl (listener_error e)
    composed dep api gw (inr l) = elim (compose dep api gw l) [
      | inl e ↦ inl (compose_error e)
      | inr xds ↦ inr xds
    ]

    unfoldable pub translate_one : Deployment → Indexer → TranslateError ⊎ ApiDeployment x
    unfolding resolve_listener
    translate_one dep idx = elim (get_api (api_of dep) idx) [
      | none ↦ inl (api_missing (api_of dep))
      | some api ↦ elim (get_gateway (gateway_of dep) idx) [
        | none ↦ inl (gateway_missing (gateway_of dep))
        | some gw ↦ composed dep api gw (resolve_listener dep gw idx)
      ]
    ]

    abbrev pub Handled : Type 0
    Handled = Option TranslateError × World

    -- RecordOwnership after a deploy that succeeded
    unfoldable pub recorded : String → String → ResourceNames → Indexer → Written x → Handled
    recorded node_id name names idx (some e, cache) =
        (some (cache_error e), record { indexer = idx; cache = cache })
    recorded node_id name names idx (none, cache) =
        (none, record { indexer = record_ownership node_id name names idx; cache = cache })

    unfoldable pub publish_deployment :
        String → String → Gateway → ApiDeployment x → World → Handled
    unfolding recorded resource_names_from_xds
    publish_deployment version name gw xds w =
        recorded gw.spec.node_id name (resource_names_from_xds xds) w.indexer
          (deploy_api x version gw.spec.node_id xds w.cache)

    unfoldable pub handle_put : String → AffectedTask → World → Handled
    unfolding translate_one publish_deployment
    handle_put version task w = elim (get_deployment task.name w.indexer) [
      | none ↦ (none, w)
      | some dep ↦ elim (translate_one dep w.indexer) [
        | inl e ↦ (some e, w)
        | inr xds ↦ elim (get_gateway (gateway_of dep) w.indexer) [
          | none ↦ (some (gateway_missing (gateway_of dep)), w)
          | some gw ↦ publish_deployment version task.name gw xds w
        ]
      ]
    ]

    -- ClearOwnership after an undeploy that succeeded
    unfoldable pub cleared : String → String → Indexer → Written x → Handled
    cleared node_id name idx (some e, cache) =
        (some (cache_error e), record { indexer = idx; cache = cache })
    cleared node_id name idx (none, cache) =
        (none, record { indexer = clear_ownership node_id name idx; cache = cache })

    unfoldable pub handle_delete : String → AffectedTask → World → Handled
    unfolding cleared
    handle_delete version task w = elim (ownership_for_deployment task.name w.indexer) [
      | none ↦ (none, w)
      | some owner ↦
          cleared owner.0 task.name w.indexer (undeploy_api x version owner.0 owner.1 w.cache)
    ]

    unfoldable pub translate : String → AffectedTask → World → Handled
    unfolding handle_put handle_delete
    translate version task w =
        if task.deletion then handle_delete version task w else handle_put version task w
