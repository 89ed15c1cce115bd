-- ===== src/Index/Apply/Idempotence.antt =====
-- Apply of index.go is idempotent: an event that is applied a second time changes nothing, so the
-- events that a Watch echoes after Bootstrap are harmless.
use mathlib.Core.Option
use flowc.Prelude.{
  String, [], ◌∷◌, ◌++◌, Option, none, some, Bool, true, false, ◌≡◌, refl, arith, string_eq, ◌==◌,
  ◌!=◌, if◌then◌else◌, contains, contains-append, eq_self, Option-cases, inl, inr,
}
use mathlib.Core.Path.{ap₂}
use flowc.Dict
use flowc.Dict.{
  Dict, lookup, lookup-put, lookup-put_self, lookup-delete, put-put, delete-delete, delete_absent,
}
use flowc.Store.Resource.{StoredResource, WatchEvent, WatchEventType}
use flowc.V1alpha1.Spec.{Gateway, Listener, Api, Deployment, ApiPolicy}
use flowc.Index.Reverse.{Reverse, refs, add_to_index, move_off}
use flowc.Index.State.{Indexer, kind_api, gateway_ref, gateway_of, api_of, listener_of}
use flowc.Index.Decode.{Unmarshal}
use flowc.Index.Apply.Consistency.{guarded_add}
use flowc.Index.Apply.{
  delete_gateway, put_gateway, delete_listener, put_listener, delete_api, put_api,
  delete_deployment, put_deployment, delete_api_policy, put_api_policy, indexed_target, targets_api,
  target, apply_gateway, apply_listener, apply_api, apply_deployment, apply_api_policy, apply_kind,
  apply, Applied,
}

contains_self : (val : String) → contains (val ∷ []) val ≡ true
unfolding contains
contains_self val = ground (arith, eq_self val)

add_to_index-twice :
    (key val : String) (idx : Reverse)
    → add_to_index key val (add_to_index key val idx) ≡ add_to_index key val idx
unfolding add_to_index refs
add_to_index-twice key val idx = ground (
  arith,
  lookup-put_self key (refs key idx ++ val ∷ []) idx,
  contains-append (refs key idx) (val ∷ []) val,
  contains_self val,
)

move_off_self : (key val : String) (idx : Reverse) → move_off (some key) key val idx ≡ idx
unfolding move_off
move_off_self key val idx = ground (arith, eq_self key)

-- One reverse map after the second of two equal updates.
relink-twice :
    {A : Type 0} (f : A → String) (name : String) (a : A) (primary : Dict String A) (idx : Reverse)
    → let once =
        add_to_index (f a) name (move_off (Option.map f (lookup name primary)) (f a) name idx) in
      add_to_index
        (f a)
        name
        (move_off (Option.map f (lookup name (Dict.put name a primary))) (f a) name once)
      ≡ once
relink-twice f name a primary idx =
    let once =
      add_to_index (f a) name (move_off (Option.map f (lookup name primary)) (f a) name idx) in
    rw (lookup-put_self name a primary) (
      rw (move_off_self (f a) name once) (
        add_to_index-twice (f a) name
          (move_off (Option.map f (lookup name primary)) (f a) name idx)))

-- The same where a guard on the empty key stands before the addition.
relink_guarded-twice :
    {A : Type 0} (f : A → String) (name : String) (a : A) (primary : Dict String A) (idx : Reverse)
    → let link = λ (r : Reverse). if f a != "" then add_to_index (f a) name r else r in
      let once = link (move_off (Option.map f (lookup name primary)) (f a) name idx) in
      link (move_off (Option.map f (lookup name (Dict.put name a primary))) (f a) name once) ≡ once
relink_guarded-twice f name a primary idx = simp guarded_add (relink-twice f name a primary idx)

-- The reverse map of policies after the second of two equal updates.
retarget-twice :
    (name : String) (pol : ApiPolicy) (idx : Indexer)
    → let link = λ (r : Reverse). if targets_api pol then add_to_index (target pol) name r else r in
      let once = link (
        move_off
          (indexed_target (lookup name idx.api_policies))
          (target pol)
          name
          idx.api_policies_by_target_api) in
      link (
        move_off
          (indexed_target (lookup name (Dict.put name pol idx.api_policies)))
          (target pol)
          name
          once)
      ≡ once
unfolding indexed_target move_off
retarget-twice name pol idx =
    let off =
      move_off (indexed_target (lookup name idx.api_policies)) (target pol) name
        idx.api_policies_by_target_api in
    rw (lookup-put_self name pol idx.api_policies)
      (ground (arith, add_to_index-twice (target pol) name off, eq_self (target pol)))

module _ (name : String) (idx : Indexer) where
  put_gateway-twice :
      (o : Option Gateway)
      → (put_gateway name o (put_gateway name o idx).1).1 ≡ (put_gateway name o idx).1
  unfolding put_gateway
  put_gateway-twice none = refl
  put_gateway-twice (some gw) = rw (put-put name gw gw idx.gateways)

  put_api-twice :
      (o : Option Api) → (put_api name o (put_api name o idx).1).1 ≡ (put_api name o idx).1
  unfolding put_api
  put_api-twice none = refl
  put_api-twice (some api) = rw (put-put name api api idx.apis)

  put_listener-twice :
      (o : Option Listener)
      → (put_listener name o (put_listener name o idx).1).1 ≡ (put_listener name o idx).1
  unfolding put_listener
  put_listener-twice none = refl
  put_listener-twice (some l) =
      ap₂ (λ ls r. record idx { listeners = ls; listeners_by_gateway = r })
        (put-put name l l idx.listeners)
        (relink-twice gateway_ref name l idx.listeners idx.listeners_by_gateway)

  delete_listener-twice :
      (delete_listener name (delete_listener name idx).1).1 ≡ (delete_listener name idx).1
  unfolding delete_listener
  delete_listener-twice = ground (arith, lookup-delete name name idx.listeners, eq_self name)

  delete_deployment-twice :
      (delete_deployment name (delete_deployment name idx).1).1 ≡ (delete_deployment name idx).1
  unfolding delete_deployment
  delete_deployment-twice = ground (arith, lookup-delete name name idx.deployments, eq_self name)

  delete_api_policy-twice :
      (delete_api_policy name (delete_api_policy name idx).1).1 ≡ (delete_api_policy name idx).1
  unfolding delete_api_policy
  delete_api_policy-twice = ground (arith, lookup-delete name name idx.api_policies, eq_self name)

  put_deployment-twice :
      (o : Option Deployment)
      → (put_deployment name o (put_deployment name o idx).1).1 ≡ (put_deployment name o idx).1
  unfolding put_deployment
  put_deployment-twice none = refl
  put_deployment-twice (some dep) = λ i. record idx {
    deployments = put-put name dep dep idx.deployments i;
    deployments_by_gateway =
        relink-twice gateway_of name dep idx.deployments idx.deployments_by_gateway i;
    deployments_by_api = relink-twice api_of name dep idx.deployments idx.deployments_by_api i;
    deployments_by_listener =
        relink_guarded-twice listener_of name dep idx.deployments idx.deployments_by_listener i;
  }

  put_api_policy-twice :
      (o : Option ApiPolicy)
      → (put_api_policy name o (put_api_policy name o idx).1).1 ≡ (put_api_policy name o idx).1
  unfolding put_api_policy indexed_target
  put_api_policy-twice none = refl
  put_api_policy-twice (some pol) = λ i. record idx {
    api_policies = put-put name pol pol idx.api_policies i;
    api_policies_by_target_api = retarget-twice name pol idx i;
  }

-- Calling the handler a second time leaves the index as it is.
abbrev Repeats : (Indexer → Applied) → Type 0
Repeats f = (idx : Indexer) → (f (f idx).1).1 ≡ (f idx).1

if-Repeats :
    (b : Bool) (f g : Indexer → Applied)
    → Repeats f
    → Repeats g
    → Repeats (λ idx. if b then f idx else g idx)
if-Repeats true f g p q = p
if-Repeats false f g p q = q

module _ (json : Unmarshal) (res : StoredResource) where
  gateway-Repeats : (type : WatchEventType) → Repeats (apply_gateway json type res)
  unfolding apply_gateway delete_gateway
  gateway-Repeats WatchEventType.delete idx = rw (delete-delete res.meta.name idx.gateways)
  gateway-Repeats WatchEventType.put idx = put_gateway-twice res.meta.name idx _

  listener-Repeats : (type : WatchEventType) → Repeats (apply_listener json type res)
  unfolding apply_listener
  listener-Repeats WatchEventType.delete idx = delete_listener-twice res.meta.name idx
  listener-Repeats WatchEventType.put idx = put_listener-twice res.meta.name idx _

  api-Repeats : (type : WatchEventType) → Repeats (apply_api json type res)
  unfolding apply_api delete_api
  api-Repeats WatchEventType.delete idx = rw (delete-delete res.meta.name idx.apis)
  api-Repeats WatchEventType.put idx = put_api-twice res.meta.name idx _

  deployment-Repeats : (type : WatchEventType) → Repeats (apply_deployment json type res)
  unfolding apply_deployment
  deployment-Repeats WatchEventType.delete idx = delete_deployment-twice res.meta.name idx
  deployment-Repeats WatchEventType.put idx = put_deployment-twice res.meta.name idx _

  policy-Repeats : (type : WatchEventType) → Repeats (apply_api_policy json type res)
  unfolding apply_api_policy
  policy-Repeats WatchEventType.delete idx = delete_api_policy-twice res.meta.name idx
  policy-Repeats WatchEventType.put idx = put_api_policy-twice res.meta.name idx _

  kind-Repeats : (kind : String) (type : WatchEventType) → Repeats (apply_kind json kind type res)
  unfolding apply_kind
  kind-Repeats kind type = if-Repeats (kind == "Gateway") _ _ (gateway-Repeats type) (
      if-Repeats (kind == "Listener") _ _ (listener-Repeats type) (
        if-Repeats (kind == kind_api) _ _ (api-Repeats type) (
          if-Repeats (kind == "Deployment") _ _ (deployment-Repeats type)
            (if-Repeats (kind == "APIPolicy") _ _ (policy-Repeats type) (λ idx. refl)))))

-- Apply is idempotent: for every event and every index, applying the event again changes nothing.
pub apply_idem :
    (json : Unmarshal) (event : WatchEvent) (idx : Indexer)
    → (apply json event (apply json event idx).1).1 ≡ (apply json event idx).1
unfolding apply
apply_idem json event idx = elim (Option-cases event.resource) [
  | inl missing ↦ ground arith
  | inr (res, found) ↦ ground (arith, kind-Repeats json res res.meta.kind event.type idx)
]
