-- ===== src/Composite/Translate/Closed.antt =====
-- Translate and generateRoutes of composite.go: when a translation succeeds, and that its routes lead
-- to its clusters.
use mathlib.Core.Option
use Prim.Native.String.{◌++◌ as join}
use flowc.Prelude.{
  String, List, [], ◌∷◌, map, Option, none, some, ◌≡◌, ◌⊎◌, inl, inr, refl, arith, Every, Every-map,
  Any, Any-map, Any-weaken, Every-weaken, Option-cases,
}
use flowc.Translator.Factory.{LoadBalancingStrategy, RetryStrategy, StrategySet}
use flowc.Composite.Messages.{Cluster, Route, RouteConfiguration}
use flowc.Composite.Model.{ApiDeployment, TranslationContext, IrApi}
use flowc.Composite.Strategies.{
  DeploymentError, validate, make_clusters, generate_clusters, configure_cluster, retry_policy_of,
  configure_retry,
}
use flowc.Composite.Translate.{
  XdsResources, validation_failed, get_route_config_name, generate_routes, retried, generated,
  translate,
}
use flowc.Composite.Translate.Routed.{LeadsTo, Named, Primary-holds, generate_routes-Routed}

configure_cluster-name :
    (s : LoadBalancingStrategy) (c : Cluster) → (configure_cluster s c).name ≡ c.name
unfolding configure_cluster
configure_cluster-name LoadBalancingStrategy.round_robin c = refl
configure_cluster-name (LoadBalancingStrategy.least_request choices) c = refl
configure_cluster-name LoadBalancingStrategy.random c = refl
configure_cluster-name (LoadBalancingStrategy.consistent_hash on header cookie) c = refl
configure_cluster-name (LoadBalancingStrategy.locality_aware base) c = configure_cluster-name base c

configure_retry-cluster :
    (s : RetryStrategy) (r : Route) → (configure_retry s r).action.cluster ≡ r.action.cluster
unfolding configure_retry
configure_retry-cluster s r = elim (Option-cases (retry_policy_of s)) [
  | inl nothing ↦ rw (nothing, configure_retry) refl
  | inr (p, made) ↦ rw (made, configure_retry) refl
]

abbrev pub error_of : {E A : Type 0} → E ⊎ A → Option E
error_of (inl e) = some e
error_of (inr a) = none

module _ (s : StrategySet) (ctx : TranslationContext) (d : ApiDeployment) where
  generated-valid :
      validate s.deployment d ≡ none
      → generated s d
        ≡ inr (map (configure_cluster s.load_balancing) (make_clusters s.deployment d))
  unfolding generate_clusters
  generated-valid valid = rw (valid, generated, generate_clusters) refl

  -- A valid deployment is translated: the load balancing strategy on each cluster, the retry strategy
  -- on each route.
  pub translate_lem :
      (ir : Option IrApi) (routes : List RouteConfiguration)
      → validate s.deployment d ≡ none
      → generate_routes s ctx d ir ≡ inr routes
      → translate s ctx d ir
        ≡ inr (record {
          clusters = map (configure_cluster s.load_balancing) (make_clusters s.deployment d);
          routes = map (retried s) routes;
        })
  unfolding translate generate_clusters
  translate_lem ir routes valid made = rw (valid, generated-valid valid, made, translate) refl

  pub translate_iff :
      (ir : Option IrApi)
      → ((e : DeploymentError)
          → (validate s.deployment d ≡ some e)
          → translate s ctx d ir ≡ inl (validation_failed e))
        × (validate s.deployment d ≡ none → (r : XdsResources) × (translate s ctx d ir ≡ inr r))
  unfolding translate
  translate_iff ir = (
    λ e invalid. rw (invalid, translate) refl,
    λ valid.
        let (name, names, e, there) = Primary-holds s.deployment d in
        let (routes, made, shape) = generate_routes-Routed s ctx d ir name names e in
        (_, translate_lem ir routes valid made),
  )

  -- Translation fails exactly where the deployment strategy refuses the deployment, and with what it
  -- found: neither the clusters nor the routes nor the other strategies add an error.
  pub translate-error :
      (ir : Option IrApi)
      → error_of (translate s ctx d ir) ≡ Option.map validation_failed (validate s.deployment d)
  translate-error ir = elim (Option-cases (validate s.deployment d)) [
    | inr (e, invalid) ↦ rw ((translate_iff ir).0 e invalid, invalid) refl
    | inl valid ↦ rw (((translate_iff ir).1 valid).1, valid) refl
  ]

  -- What a translation that succeeds has made.
  pub translated :
      (ir : Option IrApi) (r : XdsResources) (routes : List RouteConfiguration)
      → translate s ctx d ir ≡ inr r
      → generate_routes s ctx d ir ≡ inr routes
      → r ≡ record {
        clusters = map (configure_cluster s.load_balancing) (make_clusters s.deployment d);
        routes = map (retried s) routes;
      }
  translated ir r routes done made = elim (Option-cases (validate s.deployment d)) [
    | inr (e, invalid) ↦ absurd (ground (arith, (translate_iff ir).0 e invalid))
    | inl valid ↦ ground (arith, translate_lem ir routes valid made)
  ]

  abbrev pub Closed : XdsResources → RouteConfiguration → Type 0
  Closed r c =
      (c.name ≡ join "route_" (join ctx.listener.id (join "_" ctx.virtual_host.name)))
      × Every (λ h. Every (λ p. Any (Named p.action.cluster) r.clusters) h.routes) c.virtual_hosts

  -- The retry strategy leaves the routes leading where they led, and the load balancing strategy the
  -- clusters' names.
  still-leads :
      (name : String) (clusters : List Cluster) (routes : List Route)
      → Any (Named name) clusters
      → Every (LeadsTo name) routes
      → Every
          (λ p. Any (Named p.action.cluster) (map (configure_cluster s.load_balancing) clusters))
          (map (configure_retry s.retry) routes)
  still-leads name clusters routes there leads = Every-map (configure_retry s.retry) _ routes (
      Every-weaken
        (λ p to. Any-map (configure_cluster s.load_balancing) _ clusters (
          Any-weaken
            (λ c same.
              ground (
                arith,
                configure_retry-cluster s.retry p,
                configure_cluster-name s.load_balancing c,
              ))
            clusters there))
        routes leads)

  -- Whatever strategies are used, a translation that succeeds is closed: each of its route
  -- configurations is named "route_", the id of the context's listener, "_" and the name of its virtual
  -- host, and each of their routes leads to a cluster of the same translation.
  pub translate-Closed :
      (ir : Option IrApi) (r : XdsResources)
      → translate s ctx d ir ≡ inr r
      → Every (Closed r) r.routes
  unfolding get_route_config_name
  translate-Closed ir r done =
      let (name, names, e, there) = Primary-holds s.deployment d in
      let (routes, made, shape) = generate_routes-Routed s ctx d ir name names e in
      rw (translated ir r routes done made, shape.made)
        (
          (
            refl,
            (
              still-leads name (make_clusters s.deployment d) shape.host.routes there shape.leads,
              tt,
            ),
          ),
          tt,
        )

  -- A translation that succeeds has one route configuration.
  pub translate-single :
      (ir : Option IrApi) (r : XdsResources)
      → translate s ctx d ir ≡ inr r
      → (c : RouteConfiguration) × (r.routes ≡ c ∷ []) × (c.name ≡ get_route_config_name ctx)
  translate-single ir r done =
      let (name, names, e, there) = Primary-holds s.deployment d in
      let (routes, made, shape) = generate_routes-Routed s ctx d ir name names e in
      let found : r.routes
          ≡ map (retried s)
              (record { name = get_route_config_name ctx; virtual_hosts = shape.host ∷ [] } ∷ []) =
        ground (arith, translated ir r routes done made, shape.made) in
      (_, found, refl)
