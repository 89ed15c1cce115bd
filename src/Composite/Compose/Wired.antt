-- ===== src/Composite/Compose/Wired.antt =====
-- The two halves of translateOne put together: the resolution of references, from Dispatch/Deployment,
-- and the making of the resources.
use flowc.Prelude.{String, [], map, Option, ℕ, ◌⊎◌, inl, inr, string_eq}
use flowc.V1alpha1.Spec.{Api, Deployment}
use flowc.V1alpha1.Spec
use flowc.Cache.Xds.{Xds, cluster_type, route_type}
use flowc.Cache.Manager.{Item}
use flowc.Cache.Manager
use flowc.Composite.Messages.{Cluster, RouteConfiguration}
use flowc.Composite.Compose.{ComposeError, ParserRegistry, compose}

module _ (x : Xds) (parse_duration : String → Option ℕ) (registry : ParserRegistry)
    (describe : ComposeError → String) (cluster_item : Cluster → Item x cluster_type)
    (route_item : RouteConfiguration → Item x route_type) where
  -- The argument `compose` of the deployment translator.
  unfoldable pub compose_item :
      Deployment → Api → Spec.Gateway → Spec.Listener → String ⊎ Manager.ApiDeployment x
  unfolding compose
  compose_item dep api gw l = elim (compose parse_duration registry dep api gw l) [
    | inl e ↦ inl (describe e)
    | inr xds ↦ inr (record {
      clusters = map cluster_item xds.clusters;
      endpoints = [];
      routes = map route_item xds.routes;
    })
  ]
