-- ===== src/Index/Apply/Consistency.antt =====
-- Apply of index.go keeps the reverse maps exact.
use flowc.Prelude.{
  String, [], Option, none, some, ◌≡◌, refl, arith, string_eq, ◌==◌, ◌!=◌, if◌then◌else◌, contains,
  Option-cases, inl, inr, if_rule, sym, subst,
}
use flowc.Dict.{Dict, lookup}
use flowc.Store.Resource.{StoredResource, WatchEvent, WatchEventType}
use flowc.V1alpha1.Spec.{Listener, Deployment}
use flowc.Index.Reverse.{Reverse, refs, add_to_index, remove_from_index}
use flowc.Index.Reverse.Laws.{IsTidy}
use flowc.Index.Reverse.Mirror.{Mirrors, Mirrors-put, Mirrors-delete}
use flowc.Index.State.{Indexer, new, kind_api, gateway_ref, gateway_of, api_of, listener_of}
use flowc.Index.Decode.{Unmarshal}
use flowc.Index.Apply.{
  delete_gateway, put_gateway, delete_listener, put_listener, delete_api, put_api,
  delete_deployment, put_deployment, delete_api_policy, put_api_policy, apply_gateway,
  apply_listener, apply_api, apply_deployment, apply_api_policy, apply_kind, apply, Applied,
}

-- Each reverse map of listeners and deployments mirrors its primary map.
pub record IsConsistent (idx : Indexer) : Type 0 where
  pub by_gateway_ref : Mirrors gateway_ref idx.listeners idx.listeners_by_gateway
  pub by_gateway : Mirrors gateway_of idx.deployments idx.deployments_by_gateway
  pub by_api : Mirrors api_of idx.deployments idx.deployments_by_api
  pub by_listener : Mirrors listener_of idx.deployments idx.deployments_by_listener

-- The guards on the empty listener name repeat the test of the two operations.
pub guarded_add :
    (key val : String) (idx : Reverse)
    → (if key != "" then add_to_index key val idx else idx) ≡ add_to_index key val idx
unfolding add_to_index
guarded_add key val idx = ground arith

guarded_remove :
    (key val : String) (idx : Reverse)
    → (if key != "" then remove_from_index key val idx else idx) ≡ remove_from_index key val idx
unfolding remove_from_index
guarded_remove key val idx = ground arith

module _ (name : String) {idx : Indexer} (h : IsConsistent idx) where
  delete_listener-IsConsistent : IsConsistent (delete_listener name idx).1
  unfolding delete_listener
  delete_listener-IsConsistent = elim (Option-cases (lookup name idx.listeners)) [
    | inl missing ↦ rw (missing, delete_listener) h
    | inr (old, found) ↦
        rw (found, delete_listener)
          (record {
            by_gateway_ref = Mirrors-delete gateway_ref name found h.by_gateway_ref;
            by_gateway = h.by_gateway;
            by_api = h.by_api;
            by_listener = h.by_listener;
          })
  ]

  put_listener-IsConsistent : (o : Option Listener) → IsConsistent (put_listener name o idx).1
  unfolding put_listener
  put_listener-IsConsistent none = h
  put_listener-IsConsistent (some l) = record {
    by_gateway_ref = Mirrors-put gateway_ref name l h.by_gateway_ref;
    by_gateway = h.by_gateway;
    by_api = h.by_api;
    by_listener = h.by_listener;
  }

  delete_deployment-IsConsistent : IsConsistent (delete_deployment name idx).1
  unfolding delete_deployment
  delete_deployment-IsConsistent = elim (Option-cases (lookup name idx.deployments)) [
    | inl missing ↦ rw (missing, delete_deployment) h
    | inr (old, found) ↦
        rw (found, delete_deployment)
          (record {
            by_gateway_ref = h.by_gateway_ref;
            by_gateway = Mirrors-delete gateway_of name found h.by_gateway;
            by_api = Mirrors-delete api_of name found h.by_api;
            by_listener =
                rw (guarded_remove (listener_of old) name idx.deployments_by_listener)
                  (Mirrors-delete listener_of name found h.by_listener);
          })
  ]

  put_deployment-IsConsistent : (o : Option Deployment) → IsConsistent (put_deployment name o idx).1
  unfolding put_deployment
  put_deployment-IsConsistent none = h
  put_deployment-IsConsistent (some dep) = record {
    by_gateway_ref = h.by_gateway_ref;
    by_gateway = Mirrors-put gateway_of name dep h.by_gateway;
    by_api = Mirrors-put api_of name dep h.by_api;
    by_listener = rw guarded_add (Mirrors-put listener_of name dep h.by_listener);
  }

-- What the reverse maps and their primaries are; the other parts of the index do not matter.
abbrev Relevant : Type 0
Relevant = Dict String Listener × Dict String Deployment × Reverse × Reverse × Reverse × Reverse

abbrev relevant : Indexer → Relevant
relevant idx = (
  idx.listeners, idx.deployments, idx.listeners_by_gateway, idx.deployments_by_gateway,
  idx.deployments_by_api, idx.deployments_by_listener,
)

abbrev IsConsistentAt : Relevant → Type 0
IsConsistentAt r =
    Mirrors gateway_ref r.0 r.2
    × Mirrors gateway_of r.1 r.3
    × Mirrors api_of r.1 r.4
    × Mirrors listener_of r.1 r.5

untouched :
    (idx idx' : Indexer) → relevant idx' ≡ relevant idx → IsConsistent idx → IsConsistent idx'
untouched idx idx' e h =
    let at : IsConsistentAt (relevant idx') =
      subst IsConsistentAt (sym e) (h.by_gateway_ref, h.by_gateway, h.by_api, h.by_listener) in
    record { by_gateway_ref = at.0; by_gateway = at.1; by_api = at.2; by_listener = at.3 }

module _ (json : Unmarshal) (res : StoredResource) {idx : Indexer} (h : IsConsistent idx) where
  gateway-IsConsistent : (type : WatchEventType) → IsConsistent (apply_gateway json type res idx).1
  unfolding apply_gateway delete_gateway put_gateway
  gateway-IsConsistent type = untouched idx _ (ground arith) h

  listener-IsConsistent :
      (type : WatchEventType) → IsConsistent (apply_listener json type res idx).1
  unfolding apply_listener
  listener-IsConsistent WatchEventType.delete = delete_listener-IsConsistent res.meta.name h
  listener-IsConsistent WatchEventType.put = put_listener-IsConsistent res.meta.name h _

  api-IsConsistent : (type : WatchEventType) → IsConsistent (apply_api json type res idx).1
  unfolding apply_api delete_api put_api
  api-IsConsistent type = untouched idx _ (ground arith) h

  deployment-IsConsistent :
      (type : WatchEventType) → IsConsistent (apply_deployment json type res idx).1
  unfolding apply_deployment
  deployment-IsConsistent WatchEventType.delete = delete_deployment-IsConsistent res.meta.name h
  deployment-IsConsistent WatchEventType.put = put_deployment-IsConsistent res.meta.name h _

  policy-IsConsistent :
      (type : WatchEventType) → IsConsistent (apply_api_policy json type res idx).1
  unfolding apply_api_policy delete_api_policy put_api_policy
  policy-IsConsistent type = untouched idx _ (ground arith) h

-- What every applier keeps, the switch on the kind keeps.
pub apply_kind_rule :
    (json : Unmarshal) (P : Applied → Type 0) (kind : String) (type : WatchEventType)
    (res : StoredResource) (idx : Indexer)
    → P (apply_gateway json type res idx)
    → P (apply_listener json type res idx)
    → P (apply_api json type res idx)
    → P (apply_deployment json type res idx)
    → P (apply_api_policy json type res idx)
    → P ([], idx)
    → P (apply_kind json kind type res idx)
unfolding apply_kind
apply_kind_rule json P kind type res idx gateway listener api deployment policy other =
    if_rule P (kind == "Gateway") (λ _. gateway)
      λ _.
        if_rule P (kind == "Listener") (λ _. listener)
          λ _.
            if_rule P (kind == kind_api) (λ _. api)
              λ _.
                if_rule P (kind == "Deployment") (λ _. deployment)
                  λ _. if_rule P (kind == "APIPolicy") (λ _. policy) (λ _. other)

-- Whatever the event, decodable or not, Apply leaves the four reverse maps of listeners and
-- deployments exact if they were: under each key exactly the names of the stored resources that
-- refer to it, once each.
pub apply-IsConsistent :
    (json : Unmarshal) (event : WatchEvent) {idx : Indexer}
    → IsConsistent idx
    → IsConsistent (apply json event idx).1
unfolding apply
apply-IsConsistent json event {idx} h = elim (Option-cases event.resource) [
  | inl missing ↦ rw (missing, apply) h
  | inr (res, found) ↦
      rw (found, apply)
        (apply_kind_rule json (λ r. IsConsistent r.1) res.meta.kind event.type res idx
          (gateway-IsConsistent json res h event.type) (listener-IsConsistent json res h event.type)
          (api-IsConsistent json res h event.type) (deployment-IsConsistent json res h event.type)
          (policy-IsConsistent json res h event.type) h)
]

IsTidy-nil : IsTidy []
unfolding refs lookup
IsTidy-nil = record { unique = λ k. tt; nonempty = λ k. cc }

pub nothing-Mirrors : {A : Type 0} (f : A → String) → Mirrors f [] []
unfolding refs lookup contains
nothing-Mirrors f = record { tidy = IsTidy-nil; exact = λ k n. refl }

pub IsConsistent-new : IsConsistent new
IsConsistent-new = record {
  by_gateway_ref = nothing-Mirrors gateway_ref;
  by_gateway = nothing-Mirrors gateway_of;
  by_api = nothing-Mirrors api_of;
  by_listener = nothing-Mirrors listener_of;
}
