-- ===== src/Index/Apply/Tasks.antt =====
-- The tasks that Apply of index.go hands to the dispatcher.
use flowc.Prelude.{
  String, List, [], ◌∷◌, some, Bool, false, not, ◌&&◌, ◌||◌, ◌≡◌, ◌⊎◌, refl, arith, string_eq, ◌==◌,
  contains, Option-cases, inl, inr, if_rule,
}
use flowc.Dict.{lookup}
use flowc.Store.Resource.{StoredResource, WatchEvent, WatchEventType}
use flowc.V1alpha1.Spec.{Api}
use flowc.Index.Reverse.{refs}
use flowc.Index.State.{AffectedTask, Indexer, deployment_tasks_for, api_of}
use flowc.Index.Decode.{Unmarshal, decode_policy}
use flowc.Index.Reverse.Mirror.{points}
use flowc.Index.Apply.{
  Applied, delete_gateway, put_gateway, delete_listener, put_listener, delete_api, put_api,
  delete_deployment, put_deployment, delete_api_policy, put_api_policy, targets_api, target,
  apply_gateway, apply_listener, apply_api, apply_deployment, apply_api_policy, apply,
}
use flowc.Index.Apply.Consistency.{IsConsistent, apply_kind_rule}

-- A task names a kind that has a translator.
abbrev pub IsRoutable : AffectedTask → Type 0
IsRoutable t = (t.kind ≡ "Gateway") ⊎ (t.kind ≡ "Deployment")

abbrev pub AllRoutable : List AffectedTask → Type 0
AllRoutable [] = Unit
AllRoutable (t ∷ ts) = IsRoutable t × AllRoutable ts

tasks_for-AllRoutable : (names : List String) → AllRoutable (deployment_tasks_for names)
unfolding deployment_tasks_for
tasks_for-AllRoutable [] = tt
tasks_for-AllRoutable (n ∷ names) = (inr refl, tasks_for-AllRoutable names)

abbrev Routes : Applied → Type 0
Routes r = AllRoutable r.0

module _ (json : Unmarshal) (res : StoredResource) (idx : Indexer) where
  gateway-Routes : (type : WatchEventType) → Routes (apply_gateway json type res idx)
  unfolding apply_gateway delete_gateway put_gateway
  gateway-Routes type = ground arith

  listener-Routes : (type : WatchEventType) → Routes (apply_listener json type res idx)
  unfolding apply_listener delete_listener put_listener
  listener-Routes type = ground arith

  api-Routes : (type : WatchEventType) → Routes (apply_api json type res idx)
  unfolding apply_api delete_api put_api
  api-Routes type =
      ground (arith, tasks_for-AllRoutable (refs res.meta.name idx.deployments_by_api))

  deployment-Routes : (type : WatchEventType) → Routes (apply_deployment json type res idx)
  unfolding apply_deployment delete_deployment put_deployment
  deployment-Routes type = ground arith

  policy-Routes : (type : WatchEventType) → Routes (apply_api_policy json type res idx)
  unfolding apply_api_policy delete_api_policy put_api_policy
  policy-Routes WatchEventType.delete =
      elim (Option-cases (lookup res.meta.name idx.api_policies)) [
        | inl missing ↦ rw (missing, delete_api_policy) tt
        | inr (old, found) ↦
            rw (found, delete_api_policy)
              (if_rule Routes (targets_api old)
                (λ _. tasks_for-AllRoutable (refs (target old) idx.deployments_by_api)) (λ _. tt))
      ]
  policy-Routes WatchEventType.put = elim (Option-cases (decode_policy json res)) [
    | inl missing ↦ rw (missing, put_api_policy) tt
    | inr (pol, found) ↦
        rw (found, put_api_policy)
          (if_rule AllRoutable (targets_api pol)
            (λ _. tasks_for-AllRoutable (refs (target pol) idx.deployments_by_api)) (λ _. tt))
  ]

-- Every task that Apply hands out, for any event, decodable or not, and any index, is of kind
-- Gateway or Deployment, the two kinds that a translator is registered for.
pub apply-AllRoutable :
    (json : Unmarshal) (event : WatchEvent) (idx : Indexer) → AllRoutable (apply json event idx).0
unfolding apply
apply-AllRoutable json event idx = elim (Option-cases event.resource) [
  | inl missing ↦ rw (missing, apply) tt
  | inr (res, found) ↦
      rw (found, apply)
        (apply_kind_rule json Routes res.meta.kind event.type res idx
          (gateway-Routes json res idx event.type) (listener-Routes json res idx event.type)
          (api-Routes json res idx event.type) (deployment-Routes json res idx event.type)
          (policy-Routes json res idx event.type) tt)
]

abbrev pub schedules : String → List AffectedTask → Bool
schedules n [] = false
schedules n (t ∷ ts) = (t.kind == "Deployment" && t.name == n && not t.deletion) || schedules n ts

schedules-tasks_for :
    (n : String) (names : List String) → schedules n (deployment_tasks_for names) ≡ contains names n
unfolding deployment_tasks_for contains
schedules-tasks_for n [] = refl
schedules-tasks_for n (m ∷ names) = ground (arith, schedules-tasks_for n names)

-- In a consistent index, a put of an API that decodes schedules a re-translation of a deployment
-- exactly when the deployment is stored with that API as its reference and the API's name is not
-- empty.
pub put_api-schedules :
    (name : String) (api : Api) {idx : Indexer}
    → IsConsistent idx
    → (d : String)
    → schedules d (put_api name (some api) idx).0 ≡ points api_of name (lookup d idx.deployments)
unfolding put_api
put_api-schedules name api {idx} h d =
    ground (arith, schedules-tasks_for d (refs name idx.deployments_by_api), h.by_api.exact name d)
