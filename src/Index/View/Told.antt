-- ===== src/Index/View/Told.antt =====
-- What the appliers of index.go do to the map of their kind, and that they leave the others alone.
use flowc.Prelude.{String, Option, none, some, ◌≡◌, arith, eq_iff, string_eq, ◌==◌, if◌then◌else◌}
use flowc.Dict.{Dict, lookup, lookup-put, lookup-delete}
use flowc.Store.Resource.{StoredResource, WatchEventType}
use flowc.V1alpha1.Spec.{Gateway, Listener, Api, Deployment, ApiPolicy}
use flowc.Index.State.{Indexer}
use flowc.Index.Decode.{
  Unmarshal, decode_gateway, decode_listener, decode_api, decode_deployment, decode_policy,
}
use flowc.Index.Apply.{
  delete_gateway, put_gateway, delete_listener, put_listener, delete_api, put_api,
  delete_deployment, put_deployment, delete_api_policy, put_api_policy, apply_gateway,
  apply_listener, apply_api, apply_deployment, apply_api_policy,
}
use flowc.Index.View.{told}

-- What a name leads to in a map after an event on the name m.
abbrev pub Told :
    {A : Type 0}
    → String
    → String
    → WatchEventType
    → Option A
    → Dict String A
    → Dict String A
    → Type 0
Told n m type decoded before after =
    lookup n after ≡ (if m == n then told type decoded (lookup n before) else lookup n before)

module _ (n m : String) (idx : Indexer) where
  put_gateway-Told :
      (o : Option Gateway)
      → Told n m WatchEventType.put o idx.gateways (put_gateway m o idx).1.gateways
  unfolding put_gateway
  put_gateway-Told none = ground arith
  put_gateway-Told (some gw) = lookup-put n m gw idx.gateways

  delete_gateway-Told :
      (o : Option Gateway)
      → Told n m WatchEventType.delete o idx.gateways (delete_gateway m idx).1.gateways
  unfolding delete_gateway
  delete_gateway-Told o = lookup-delete n m idx.gateways

  put_listener-Told :
      (o : Option Listener)
      → Told n m WatchEventType.put o idx.listeners (put_listener m o idx).1.listeners
  unfolding put_listener
  put_listener-Told none = ground arith
  put_listener-Told (some l) = lookup-put n m l idx.listeners

  delete_listener-Told :
      (o : Option Listener)
      → Told n m WatchEventType.delete o idx.listeners (delete_listener m idx).1.listeners
  unfolding delete_listener
  delete_listener-Told o = ground (arith, lookup-delete n m idx.listeners, eq_iff m n)

  put_api-Told : (o : Option Api) → Told n m WatchEventType.put o idx.apis (put_api m o idx).1.apis
  unfolding put_api
  put_api-Told none = ground arith
  put_api-Told (some a) = lookup-put n m a idx.apis

  delete_api-Told :
      (o : Option Api) → Told n m WatchEventType.delete o idx.apis (delete_api m idx).1.apis
  unfolding delete_api
  delete_api-Told o = lookup-delete n m idx.apis

  put_deployment-Told :
      (o : Option Deployment)
      → Told n m WatchEventType.put o idx.deployments (put_deployment m o idx).1.deployments
  unfolding put_deployment
  put_deployment-Told none = ground arith
  put_deployment-Told (some d) = lookup-put n m d idx.deployments

  delete_deployment-Told :
      (o : Option Deployment)
      → Told n m WatchEventType.delete o idx.deployments (delete_deployment m idx).1.deployments
  unfolding delete_deployment
  delete_deployment-Told o = ground (arith, lookup-delete n m idx.deployments, eq_iff m n)

  put_api_policy-Told :
      (o : Option ApiPolicy)
      → Told n m WatchEventType.put o idx.api_policies (put_api_policy m o idx).1.api_policies
  unfolding put_api_policy
  put_api_policy-Told none = ground arith
  put_api_policy-Told (some p) = lookup-put n m p idx.api_policies

  delete_api_policy-Told :
      (o : Option ApiPolicy)
      → Told n m WatchEventType.delete o idx.api_policies (delete_api_policy m idx).1.api_policies
  unfolding delete_api_policy
  delete_api_policy-Told o = ground (arith, lookup-delete n m idx.api_policies, eq_iff m n)

module _ (json : Unmarshal) (n : String) (res : StoredResource) (idx : Indexer) where
  pub gateway-Told :
      (type : WatchEventType)
      → Told n res.meta.name type
          (decode_gateway json res)
          idx.gateways
          (apply_gateway json type res idx).1.gateways
  unfolding apply_gateway
  gateway-Told WatchEventType.put = put_gateway-Told n res.meta.name idx (decode_gateway json res)
  gateway-Told WatchEventType.delete = delete_gateway-Told n res.meta.name idx none

  pub listener-Told :
      (type : WatchEventType)
      → Told n res.meta.name type
          (decode_listener json res)
          idx.listeners
          (apply_listener json type res idx).1.listeners
  unfolding apply_listener
  listener-Told WatchEventType.put =
      put_listener-Told n res.meta.name idx (decode_listener json res)
  listener-Told WatchEventType.delete = delete_listener-Told n res.meta.name idx none

  pub api-Told :
      (type : WatchEventType)
      → Told n res.meta.name type
          (decode_api json res)
          idx.apis
          (apply_api json type res idx).1.apis
  unfolding apply_api
  api-Told WatchEventType.put = put_api-Told n res.meta.name idx (decode_api json res)
  api-Told WatchEventType.delete = delete_api-Told n res.meta.name idx none

  pub deployment-Told :
      (type : WatchEventType)
      → Told n res.meta.name type
          (decode_deployment json res)
          idx.deployments
          (apply_deployment json type res idx).1.deployments
  unfolding apply_deployment
  deployment-Told WatchEventType.put =
      put_deployment-Told n res.meta.name idx (decode_deployment json res)
  deployment-Told WatchEventType.delete = delete_deployment-Told n res.meta.name idx none

  pub api_policy-Told :
      (type : WatchEventType)
      → Told n res.meta.name type
          (decode_policy json res)
          idx.api_policies
          (apply_api_policy json type res idx).1.api_policies
  unfolding apply_api_policy
  api_policy-Told WatchEventType.put =
      put_api_policy-Told n res.meta.name idx (decode_policy json res)
  api_policy-Told WatchEventType.delete = delete_api_policy-Told n res.meta.name idx none

-- The primaries that an applier leaves alone.
abbrev pub primaries :
    Indexer
    → Dict String Gateway
      × Dict String Listener
      × Dict String Api
      × Dict String Deployment
      × Dict String ApiPolicy
primaries idx = (idx.gateways, idx.listeners, idx.apis, idx.deployments, idx.api_policies)

module _ (json : Unmarshal) (type : WatchEventType) (res : StoredResource) (idx : Indexer) where
  pub gateway_alone :
      let after = primaries (apply_gateway json type res idx).1 in
      after ≡ (after.0, idx.listeners, idx.apis, idx.deployments, idx.api_policies)
  unfolding apply_gateway put_gateway delete_gateway
  gateway_alone = ground arith

  pub listener_alone :
      let after = primaries (apply_listener json type res idx).1 in
      after ≡ (idx.gateways, after.1, idx.apis, idx.deployments, idx.api_policies)
  unfolding apply_listener put_listener delete_listener
  listener_alone = ground arith

  pub api_alone :
      let after = primaries (apply_api json type res idx).1 in
      after ≡ (idx.gateways, idx.listeners, after.2, idx.deployments, idx.api_policies)
  unfolding apply_api put_api delete_api
  api_alone = ground arith

  pub deployment_alone :
      let after = primaries (apply_deployment json type res idx).1 in
      after ≡ (idx.gateways, idx.listeners, idx.apis, after.3, idx.api_policies)
  unfolding apply_deployment put_deployment delete_deployment
  deployment_alone = ground arith

  pub api_policy_alone :
      let after = primaries (apply_api_policy json type res idx).1 in
      after ≡ (idx.gateways, idx.listeners, idx.apis, idx.deployments, after.4)
  unfolding apply_api_policy put_api_policy delete_api_policy
  api_policy_alone = ground arith
