-- ===== src/Composite/Translate.antt =====
-- composite.go: the composite translator, with the context set and the IR of the API if its
-- specification was given. The debug logs and NewCompositeTranslator's defaults for missing
-- strategies are left out: the factory leaves none missing.
pub mod Routed
pub mod Closed
pub mod Matching
pub mod Served
use Prim.Native.Char.{code}
use Prim.Native.String.{◌++◌ as join}
use flowc.Prelude.{
  ℕ, String, List, [], ◌∷◌, map, Option, none, some, Bool, ◌||◌, ◌&&◌, string_eq, nat_eq, ◌==◌,
  ◌!=◌, if◌then◌else◌, ◌⊎◌, inl, inr,
}
use flowc.Translator.Factory.{StrategySet, RouteMatchStrategy}
use flowc.Translator.Paths.{truncate_path_params, is_special, with_slash, without_slash}
use flowc.Composite.Messages.{
  Cluster, PathSpecifier, RouteMatch, RegexRewrite, RouteAction, Route, VirtualHost,
  RouteConfiguration,
}
use flowc.Composite.Model.{ApiDeployment, TranslationContext, Endpoint, IrApi}
use flowc.Composite.Strategies.{
  DeploymentError, validate, get_cluster_names, generate_clusters, create_matcher,
  configure_cluster, configure_retry,
}

pub record XdsResources : Type 0 where
  pub clusters : List Cluster
  pub routes : List RouteConfiguration

pub data TranslationError : Type 0 where
  validation_failed : DeploymentError → TranslationError
  cluster_generation_failed : DeploymentError → TranslationError
  no_cluster_names : TranslationError

-- regexp.QuoteMeta
abbrev pub is_meta : ℕ → Bool
is_meta c = is_special c || c == b'\\' || c == b'{' || c == b'}'

unfoldable pub quote_meta : String → String
unfolding is_special
quote_meta String.[] = String.[]
quote_meta (String.◌∷◌ c s) =
    let rest = quote_meta s in
    if is_meta (code c) then join "\\" (String.◌∷◌ c rest) else String.◌∷◌ c rest

-- "route_%s_%s"
unfoldable pub get_route_config_name : TranslationContext → String
get_route_config_name ctx = join "route_" (join ctx.listener.id (join "_" ctx.virtual_host.name))

-- The name and the domains in the metadata, or "%s-%s-vhost" and all domains.
unfoldable pub generate_virtual_host_name : ApiDeployment → String
generate_virtual_host_name d =
    let name = d.metadata.gateway.virtual_host.name in
    if name != "" then name else join d.name (join "-" (join d.version "-vhost"))

unfoldable pub get_domains : ApiDeployment → List String
get_domains d = elim d.metadata.gateway.virtual_host.domains [ [] ↦ "*" ∷ [] | h ∷ hs ↦ h ∷ hs ]

-- The base path of the deployment's context.
unfoldable pub context_base_path : ApiDeployment → String
unfolding with_slash without_slash
context_base_path d =
    let path = without_slash (with_slash d.context) in
    if d.context == "" then "" else if path == "/" then "" else path

unfoldable pub get_base_path : ApiDeployment → IrApi → String
unfolding context_base_path
get_base_path d ir = if ir.base_path != "" then ir.base_path else context_base_path d

-- The match and the rewrite of the catch-all route.
unfoldable pub catch_all_path : ApiDeployment → String
unfolding with_slash
catch_all_path d = with_slash (if d.context == "" then "/" else d.context)

unfoldable pub catch_all_route : String → String → Route
unfolding quote_meta
catch_all_route base_path cluster =
    let at_root = base_path == "/" in
    record {
      route_match = record {
        path_specifier =
            if at_root
            then PathSpecifier.prefix base_path
            else PathSpecifier.path_separated_prefix base_path;
        headers = [];
        case_sensitive = none;
      };
      action = record {
        cluster = cluster;
        prefix_rewrite = "";
        regex_rewrite =
            if at_root
            then none
            else some (record {
              regex = join "^" (join (quote_meta base_path) "/?");
              substitution = "/";
            });
        retry_policy = none;
      };
    }

unfoldable pub endpoint_route : RouteMatchStrategy → String → String → Endpoint → Route
unfolding create_matcher
endpoint_route s base_path cluster endpoint = record {
  route_match = create_matcher s (join base_path endpoint.pattern) endpoint.method;
  action = record {
    cluster = cluster;
    prefix_rewrite =
        if base_path != "" && base_path != "/" then truncate_path_params endpoint.pattern else "";
    regex_rewrite = none;
    retry_policy = none;
  };
}

-- One route configuration with one virtual host.
unfoldable pub route_config : TranslationContext → ApiDeployment → List Route → RouteConfiguration
unfolding get_route_config_name generate_virtual_host_name get_domains
route_config ctx d routes = record {
  name = get_route_config_name ctx;
  virtual_hosts =
      record { name = generate_virtual_host_name d; domains = get_domains d; routes = routes } ∷ [];
}

-- for _, endpoint := range irAPI.Endpoints
unfoldable pub endpoint_routes : RouteMatchStrategy → String → String → List Endpoint → List Route
unfolding endpoint_route
endpoint_routes s base_path cluster [] = []
endpoint_routes s base_path cluster (e ∷ es) =
    endpoint_route s base_path cluster e ∷ endpoint_routes s base_path cluster es

-- No specification, or one without endpoints.
unfoldable pub catch_all :
    TranslationContext → ApiDeployment → List String → List RouteConfiguration
unfolding catch_all_path catch_all_route route_config
catch_all ctx d [] = []
catch_all ctx d (primary ∷ names) =
    route_config ctx d (catch_all_route (catch_all_path d) primary ∷ []) ∷ []

unfoldable pub per_endpoint :
    StrategySet
    → TranslationContext
    → ApiDeployment
    → IrApi
    → List String
    → TranslationError ⊎ List RouteConfiguration
unfolding endpoint_routes get_base_path route_config
per_endpoint s ctx d ir [] = inl no_cluster_names
per_endpoint s ctx d ir (primary ∷ names) = inr (
    route_config ctx d (endpoint_routes s.route_match (get_base_path d ir) primary ir.endpoints)
    ∷ [])

unfoldable pub generate_routes :
    StrategySet
    → TranslationContext
    → ApiDeployment
    → Option IrApi
    → TranslationError ⊎ List RouteConfiguration
unfolding catch_all per_endpoint get_cluster_names
generate_routes s ctx d none = inr (catch_all ctx d (get_cluster_names s.deployment d))
generate_routes s ctx d (some ir) = elim ir.endpoints [
  | [] ↦ inr (catch_all ctx d (get_cluster_names s.deployment d))
  | e ∷ es ↦ per_endpoint s ctx d ir (get_cluster_names s.deployment d)
]

-- The retry strategy on every route.
abbrev retried_host : StrategySet → VirtualHost → VirtualHost
retried_host s h = record h { routes = map (configure_retry s.retry) h.routes }

abbrev retried : StrategySet → RouteConfiguration → RouteConfiguration
retried s c = record c { virtual_hosts = map (retried_host s) c.virtual_hosts }

abbrev and_then :
    {A B : Type 0} → TranslationError ⊎ A → (A → TranslationError ⊎ B) → TranslationError ⊎ B
and_then (inl e) f = inl e
and_then (inr a) f = f a

abbrev pub generated : StrategySet → ApiDeployment → TranslationError ⊎ List Cluster
generated s d = elim (generate_clusters s.deployment d) [
  | inl e ↦ inl (cluster_generation_failed e)
  | inr clusters ↦ inr (map (configure_cluster s.load_balancing) clusters)
]

unfoldable pub translate :
    StrategySet
    → TranslationContext
    → ApiDeployment
    → Option IrApi
    → TranslationError ⊎ XdsResources
unfolding validate generate_clusters configure_cluster generate_routes configure_retry
translate s ctx d ir = elim (validate s.deployment d) [
  | some e ↦ inl (validation_failed e)
  | none ↦ and_then (generated s d) λ clusters.
      and_then (generate_routes s ctx d ir)
        λ routes. inr (record { clusters = clusters; routes = map (retried s) routes })
]
