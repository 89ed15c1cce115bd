-- ===== src/Index/Apply.antt =====
-- index.go: Apply and its appliers. The mutex makes each call one step. An applier returns
-- the translation tasks and the new index; a resource that does not decode is only logged.
pub mod Consistency
pub mod Idempotence
pub mod Policies
pub mod Tasks
use mathlib.Core.Option
use flowc.Prelude.{
  String, List, [], ◌∷◌, map, Option, none, some, Bool, true, false, ◌&&◌, string_eq, ◌==◌, ◌!=◌,
  if◌then◌else◌,
}
use flowc.Dict
use flowc.Dict.{Dict, lookup}
use flowc.Store.Resource.{StoredResource, WatchEvent, WatchEventType}
use flowc.V1alpha1.Spec.{Gateway, Listener, Api, Deployment, ApiPolicy}
use flowc.Index.Reverse.{Reverse, refs, add_to_index, remove_from_index, move_off}
use flowc.Index.State.{
  AffectedTask, Indexer, kind_api, upsert, removal, deployment_tasks_for, gateway_ref, gateway_of,
  api_of, listener_of,
}
use flowc.Index.Decode.{
  Unmarshal, decode_gateway, decode_listener, decode_api, decode_deployment, decode_policy,
}

abbrev pub Applied : Type 0
Applied = List AffectedTask × Indexer

-- For each kind: what a delete of a name does, and what a put of a decoded resource does. `none` is
-- a resource that does not decode.
unfoldable pub delete_gateway : String → Indexer → Applied
delete_gateway name idx =
    let node_id : String = elim (lookup name idx.gateways) [
      | none ↦ ""
      | some old ↦ old.spec.node_id
    ] in
    (removal "Gateway" name node_id ∷ [], record idx { gateways = Dict.delete name idx.gateways })

unfoldable pub put_gateway : String → Option Gateway → Indexer → Applied
put_gateway name none idx = ([], idx)
put_gateway name (some gw) idx =
    (upsert "Gateway" name ∷ [], record idx { gateways = Dict.put name gw idx.gateways })

unfoldable pub delete_listener : String → Indexer → Applied
delete_listener name idx = elim (lookup name idx.listeners) [
  | none ↦ ([], idx)
  | some old ↦ (
    upsert "Gateway" (gateway_ref old) ∷ [],
    record idx {
      listeners = Dict.delete name idx.listeners;
      listeners_by_gateway = remove_from_index (gateway_ref old) name idx.listeners_by_gateway;
    },
  )
]

unfoldable pub put_listener : String → Option Listener → Indexer → Applied
put_listener name none idx = ([], idx)
put_listener name (some l) idx =
    let old = Option.map gateway_ref (lookup name idx.listeners) in
    (
      upsert "Gateway" (gateway_ref l) ∷ [],
      record idx {
        listeners = Dict.put name l idx.listeners;
        listeners_by_gateway =
            add_to_index (gateway_ref l) name
              (move_off old (gateway_ref l) name idx.listeners_by_gateway);
      },
    )

unfoldable pub delete_api : String → Indexer → Applied
delete_api name idx = ([], record idx { apis = Dict.delete name idx.apis })

unfoldable pub put_api : String → Option Api → Indexer → Applied
put_api name none idx = ([], idx)
put_api name (some api) idx = (
  deployment_tasks_for (refs name idx.deployments_by_api),
  record idx { apis = Dict.put name api idx.apis },
)

unfoldable pub delete_deployment : String → Indexer → Applied
delete_deployment name idx = elim (lookup name idx.deployments) [
  | none ↦ ([], idx)
  | some old ↦ (
    removal "Deployment" name "" ∷ [],
    record idx {
      deployments = Dict.delete name idx.deployments;
      deployments_by_gateway = remove_from_index (gateway_of old) name idx.deployments_by_gateway;
      deployments_by_api = remove_from_index (api_of old) name idx.deployments_by_api;
      deployments_by_listener =
          if listener_of old != ""
          then remove_from_index (listener_of old) name idx.deployments_by_listener
          else idx.deployments_by_listener;
    },
  )
]

unfoldable pub put_deployment : String → Option Deployment → Indexer → Applied
put_deployment name none idx = ([], idx)
put_deployment name (some dep) idx =
    let old = lookup name idx.deployments in
    let by_listener =
      move_off (Option.map listener_of old) (listener_of dep) name idx.deployments_by_listener in
    (
      upsert "Deployment" name ∷ [],
      record idx {
        deployments = Dict.put name dep idx.deployments;
        deployments_by_gateway =
            add_to_index (gateway_of dep) name (
              move_off (Option.map gateway_of old) (gateway_of dep) name
                idx.deployments_by_gateway);
        deployments_by_api =
            add_to_index (api_of dep) name
              (move_off (Option.map api_of old) (api_of dep) name idx.deployments_by_api);
        deployments_by_listener =
            if listener_of dep != ""
            then add_to_index (listener_of dep) name by_listener
            else by_listener;
      },
    )

-- Spec.TargetRef of a policy: does it target an API, and its name.
abbrev pub targets_api : ApiPolicy → Bool
targets_api p = p.spec.target_ref.kind == kind_api

abbrev pub target : ApiPolicy → String
target p = p.spec.target_ref.name

-- The name that a stored policy is indexed under, if it targets an API.
unfoldable pub indexed_target : Option ApiPolicy → Option String
indexed_target none = none
indexed_target (some p) = if targets_api p then some (target p) else none

unfoldable pub delete_api_policy : String → Indexer → Applied
delete_api_policy name idx = elim (lookup name idx.api_policies) [
  | none ↦ ([], idx)
  | some old ↦
      let idx' = record idx { api_policies = Dict.delete name idx.api_policies } in
      if targets_api old
      then (
        deployment_tasks_for (refs (target old) idx.deployments_by_api),
        record idx' {
          api_policies_by_target_api =
              remove_from_index (target old) name idx.api_policies_by_target_api;
        },
      )
      else ([], idx')
]

unfoldable pub put_api_policy : String → Option ApiPolicy → Indexer → Applied
put_api_policy name none idx = ([], idx)
put_api_policy name (some pol) idx =
    let by_target =
      move_off (indexed_target (lookup name idx.api_policies)) (target pol) name
        idx.api_policies_by_target_api in
    (
      if targets_api pol
          then deployment_tasks_for (refs (target pol) idx.deployments_by_api)
          else [],
      record idx {
        api_policies = Dict.put name pol idx.api_policies;
        api_policies_by_target_api =
            if targets_api pol then add_to_index (target pol) name by_target else by_target;
      },
    )

-- The appliers, on event.Resource.Meta.Name.
module _ (json : Unmarshal) where
  unfoldable pub apply_gateway : WatchEventType → StoredResource → Indexer → Applied
  apply_gateway WatchEventType.delete res idx = delete_gateway res.meta.name idx
  apply_gateway WatchEventType.put res idx = put_gateway res.meta.name (decode_gateway json res) idx

  unfoldable pub apply_listener : WatchEventType → StoredResource → Indexer → Applied
  apply_listener WatchEventType.delete res idx = delete_listener res.meta.name idx
  apply_listener WatchEventType.put res idx =
      put_listener res.meta.name (decode_listener json res) idx

  unfoldable pub apply_api : WatchEventType → StoredResource → Indexer → Applied
  apply_api WatchEventType.delete res idx = delete_api res.meta.name idx
  apply_api WatchEventType.put res idx = put_api res.meta.name (decode_api json res) idx

  unfoldable pub apply_deployment : WatchEventType → StoredResource → Indexer → Applied
  apply_deployment WatchEventType.delete res idx = delete_deployment res.meta.name idx
  apply_deployment WatchEventType.put res idx =
      put_deployment res.meta.name (decode_deployment json res) idx

  unfoldable pub apply_api_policy : WatchEventType → StoredResource → Indexer → Applied
  apply_api_policy WatchEventType.delete res idx = delete_api_policy res.meta.name idx
  apply_api_policy WatchEventType.put res idx =
      put_api_policy res.meta.name (decode_policy json res) idx

  -- The switch on the kind.
  unfoldable pub apply_kind : String → WatchEventType → StoredResource → Indexer → Applied
  apply_kind kind type res idx =
      if kind == "Gateway"
      then apply_gateway type res idx
      else if kind == "Listener"
      then apply_listener type res idx
      else if kind == kind_api
      then apply_api type res idx
      else if kind == "Deployment"
      then apply_deployment type res idx
      else if kind == "APIPolicy"
      then apply_api_policy type res idx
      else ([], idx)

  unfoldable pub apply : WatchEvent → Indexer → Applied
  apply event idx = elim event.resource [
    | none ↦ ([], idx)
    | some res ↦ apply_kind res.meta.kind event.type res idx
  ]
