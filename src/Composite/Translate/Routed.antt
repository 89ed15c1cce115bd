-- ===== src/Composite/Translate/Routed.antt =====
-- generateRoutes of composite.go: its one route configuration, by cases on the specification.
use flowc.Prelude.{
  String, List, [], ◌∷◌, Option, none, some, ◌≡◌, ◌⊎◌, inl, inr, refl, ap, ◌∙◌, ◌≢◌, Every, Any,
}
use flowc.Translator.Factory.{DeploymentStrategy, basic, canary, blue_green, StrategySet}
use flowc.Composite.Messages.{Cluster, Route, VirtualHost, RouteConfiguration}
use flowc.Composite.Model.{ApiDeployment, TranslationContext, Endpoint, IrApi}
use flowc.Composite.Strategies.{get_cluster_names, make_clusters}
use flowc.Composite.Translate.{
  get_route_config_name, route_config, endpoint_route, endpoint_routes, catch_all, catch_all_path,
  catch_all_route, per_endpoint, generate_routes, get_base_path,
}

abbrev pub LeadsTo : String → Route → Type 0
LeadsTo name r = r.action.cluster ≡ name

abbrev pub Named : String → Cluster → Type 0
Named name c = c.name ≡ name

-- The name that every route leads to, which a cluster has.
abbrev pub Primary : DeploymentStrategy → ApiDeployment → Type 0
Primary s d =
    (name : String) × (names : List String) × (get_cluster_names s d ≡ name ∷ names)
    × Any (Named name) (make_clusters s d)

pub Primary-holds : (s : DeploymentStrategy) (d : ApiDeployment) → Primary s d
unfolding get_cluster_names make_clusters
Primary-holds basic d = (_, _, refl, inl refl)
Primary-holds (canary c) d = (_, _, refl, inl refl)
Primary-holds (blue_green c) d = (_, _, refl, inl refl)

endpoint_routes-LeadsTo :
    (s : StrategySet) (base name : String) (es : List Endpoint)
    → Every (LeadsTo name) (endpoint_routes s.route_match base name es)
unfolding endpoint_routes endpoint_route
endpoint_routes-LeadsTo s base name [] = tt
endpoint_routes-LeadsTo s base name (e ∷ es) = (refl, endpoint_routes-LeadsTo s base name es)

catch_all_route-LeadsTo : (base name : String) → LeadsTo name (catch_all_route base name)
unfolding catch_all_route
catch_all_route-LeadsTo base name = refl

-- generateRoutes makes one route configuration of the context's name, whose routes lead to a name.
pub record Routed (name : String) (ctx : TranslationContext) (routes : List RouteConfiguration)
    : Type 0 where
  pub host : VirtualHost
  pub made : routes ≡ record { name = get_route_config_name ctx; virtual_hosts = host ∷ [] } ∷ []
  pub leads : Every (LeadsTo name) host.routes

List-cases : {A : Type 0} (xs : List A) → (xs ≡ []) ⊎ ((y : A) × (ys : List A) × (xs ≡ y ∷ ys))
List-cases [] = inl refl
List-cases (y ∷ ys) = inr (y, ys, refl)

module _ (s : StrategySet) (ctx : TranslationContext) (d : ApiDeployment) where
  catch_all-Routed :
      (name : String) (names : List String)
      → get_cluster_names s.deployment d ≡ name ∷ names
      → Routed name ctx (catch_all ctx d (get_cluster_names s.deployment d))
  unfolding catch_all route_config
  catch_all-Routed name names e = rw e (record {
    host = _;
    made = refl;
    leads = (catch_all_route-LeadsTo (catch_all_path d) name, tt);
  })

  generate_routes-none :
      (ir : IrApi)
      → ir.endpoints ≡ []
      → generate_routes s ctx d (some ir) ≡ inr (catch_all ctx d (get_cluster_names s.deployment d))
  unfolding generate_routes
  generate_routes-none ir h = rw (h, generate_routes) refl

  generate_routes-some :
      (ir : IrApi) (p : Endpoint) (ps : List Endpoint)
      → ir.endpoints ≡ p ∷ ps
      → generate_routes s ctx d (some ir)
        ≡ per_endpoint s ctx d ir (get_cluster_names s.deployment d)
  unfolding generate_routes
  generate_routes-some ir p ps h = simp (h, generate_routes)

  -- The routes of a specification with endpoints.
  pub generate_routes-endpoints :
      (ir : IrApi) (name : String) (names : List String)
      → get_cluster_names s.deployment d ≡ name ∷ names
      → ir.endpoints ≢ []
      → generate_routes s ctx d (some ir)
        ≡ inr (
            route_config ctx d
              (endpoint_routes s.route_match (get_base_path d ir) name ir.endpoints)
            ∷ [])
  unfolding per_endpoint
  generate_routes-endpoints ir name names e some_ = elim (List-cases ir.endpoints) [
    | inl nothing ↦ absurd (some_ nothing)
    | inr (p, ps, given) ↦ generate_routes-some ir p ps given ∙ ap (per_endpoint s ctx d ir) e
  ]

  pub generate_routes-Routed :
      (ir : Option IrApi) (name : String) (names : List String)
      → get_cluster_names s.deployment d ≡ name ∷ names
      → (routes : List RouteConfiguration) × (generate_routes s ctx d ir ≡ inr routes)
        × Routed name ctx routes
  unfolding generate_routes route_config
  generate_routes-Routed none name names e = (_, refl, catch_all-Routed name names e)
  generate_routes-Routed (some ir) name names e = elim (List-cases ir.endpoints) [
    | inl nothing ↦ (_, generate_routes-none ir nothing, catch_all-Routed name names e)
    | inr (p, ps, given) ↦
        let more : ir.endpoints ≢ [] = λ none. cc in
        let routes = endpoint_routes s.route_match (get_base_path d ir) name ir.endpoints in
        (
          route_config ctx d routes ∷ [],
          generate_routes-endpoints ir name names e more,
          record {
            host = _;
            made = refl;
            leads = endpoint_routes-LeadsTo s (get_base_path d ir) name ir.endpoints;
          },
        )
  ]
