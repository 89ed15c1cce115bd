-- ===== src/Composite/Strategies.antt =====
-- strategy_deployment.go, strategy_routematch.go, strategy_loadbalancing.go and strategy_retry.go:
-- what the strategies do. A deployment is never nil, and a canary or blue-green strategy has its
-- section, since the factory refuses to make it without.
use Prim.Native.String.{◌++◌ as join}
use flowc.Prelude.{
  String, List, [], ◌∷◌, Option, none, some, Bool, true, string_eq, nat_eq, ◌==◌, if◌then◌else◌,
  ltb, ◌⊎◌, inl, inr,
}
use flowc.Translator.Types.{CanaryConfig, BlueGreenConfig}
use flowc.Translator.Factory.{
  DeploymentStrategy, basic, canary, blue_green, RouteMatchStrategy, LoadBalancingStrategy,
  RetryStrategy, no_retry, conservative, aggressive, custom,
}
use flowc.Translator.Paths.{truncate_path_params, convert_path_to_regex}
use flowc.Composite.Messages.{
  LbPolicy, least_request_config, ring_hash_config, Cluster, PathSpecifier, RouteMatch, RetryPolicy,
  Route, create_cluster_with_scheme, milliseconds,
}
use flowc.Composite.Model.{ApiDeployment}

pub data DeploymentError : Type 0 where
  required : String → DeploymentError
  canary_weight_range : DeploymentError

-- if test { return error } and the rest
abbrev pub refuse : Bool → DeploymentError → Option DeploymentError → Option DeploymentError
refuse test e rest = if test then some e else rest

unfoldable pub validate_basic : ApiDeployment → Option DeploymentError
validate_basic d = refuse (d.name == "") (required "deployment name") (
    refuse (d.version == "") (required "deployment version") (
      refuse (d.metadata.upstream.host == "") (required "upstream host")
        (refuse (d.metadata.upstream.port == 0) (required "upstream port") none)))

-- A negative weight is a number above 100 as well.
unfoldable pub validate_canary : CanaryConfig → Option DeploymentError
validate_canary c = refuse (c.baseline_version == "") (required "baseline version") (
    refuse (c.canary_version == "") (required "canary version")
      (refuse (ltb 100 c.canary_weight) canary_weight_range none))

unfoldable pub validate_blue_green : BlueGreenConfig → Option DeploymentError
validate_blue_green c =
    refuse (c.active_version == "") (required "active version")
      (refuse (c.standby_version == "") (required "standby version") none)

unfoldable pub validate : DeploymentStrategy → ApiDeployment → Option DeploymentError
unfolding validate_basic validate_canary validate_blue_green
validate basic d = validate_basic d
validate (canary c) d = validate_canary c
validate (blue_green c) d = validate_blue_green c

-- "%s-%s-cluster" and "%s-%s-%s-cluster"
abbrev pub cluster_name : String → String → String
cluster_name name version = join name (join "-" (join version "-cluster"))

abbrev pub environment_cluster_name : String → String → String → String
environment_cluster_name name version environment =
    join name (join "-" (join version (join "-" (join environment "-cluster"))))

unfoldable pub get_cluster_names : DeploymentStrategy → ApiDeployment → List String
get_cluster_names basic d = cluster_name d.name d.version ∷ []
get_cluster_names (canary c) d =
    cluster_name d.name c.baseline_version ∷ cluster_name d.name c.canary_version ∷ []
get_cluster_names (blue_green c) d =
    environment_cluster_name d.name c.active_version "active"
    ∷ environment_cluster_name d.name c.standby_version "standby"
    ∷ []

abbrev pub default_scheme : String
default_scheme = "http"

-- A cluster of the deployment's upstream under a name.
unfoldable pub upstream_cluster : ApiDeployment → String → Cluster
unfolding create_cluster_with_scheme
upstream_cluster d name =
    let upstream = d.metadata.upstream in
    create_cluster_with_scheme name upstream.host upstream.port
      (if upstream.scheme == "" then default_scheme else upstream.scheme)

unfoldable pub make_clusters : DeploymentStrategy → ApiDeployment → List Cluster
unfolding upstream_cluster
make_clusters basic d = upstream_cluster d (cluster_name d.name d.version) ∷ []
make_clusters (canary c) d =
    upstream_cluster d (cluster_name d.name c.baseline_version)
    ∷ upstream_cluster d (cluster_name d.name c.canary_version)
    ∷ []
make_clusters (blue_green c) d =
    upstream_cluster d (environment_cluster_name d.name c.active_version "active")
    ∷ upstream_cluster d (environment_cluster_name d.name c.standby_version "standby")
    ∷ []

unfoldable pub generate_clusters :
    DeploymentStrategy → ApiDeployment → DeploymentError ⊎ List Cluster
unfolding validate make_clusters
generate_clusters s d = elim (validate s d) [ some e ↦ inl e | none ↦ inr (make_clusters s d) ]

-- The matcher of a path specifier and a method.
abbrev pub matcher : PathSpecifier → String → Bool → RouteMatch
matcher specifier method case_sensitive = record {
  path_specifier = specifier;
  headers = record { name = ":method"; exact = method } ∷ [];
  case_sensitive = some case_sensitive;
}

unfoldable pub create_matcher : RouteMatchStrategy → String → String → RouteMatch
create_matcher (RouteMatchStrategy.prefix cs) path method =
    matcher (PathSpecifier.prefix (truncate_path_params path)) method cs
create_matcher (RouteMatchStrategy.exact cs) path method =
    matcher (PathSpecifier.path path) method cs
create_matcher (RouteMatchStrategy.regex cs) path method =
    matcher (PathSpecifier.safe_regex (convert_path_to_regex path)) method cs
create_matcher (RouteMatchStrategy.header_versioned header cs) path method =
    matcher (PathSpecifier.prefix path) method cs

unfoldable pub configure_cluster : LoadBalancingStrategy → Cluster → Cluster
configure_cluster LoadBalancingStrategy.round_robin c = record c {
  lb_policy = LbPolicy.round_robin;
}
configure_cluster (LoadBalancingStrategy.least_request choices) c = record c {
  lb_policy = LbPolicy.least_request;
  lb_config = some (least_request_config choices);
}
configure_cluster LoadBalancingStrategy.random c = record c { lb_policy = LbPolicy.random }
configure_cluster (LoadBalancingStrategy.consistent_hash on header cookie) c = record c {
  lb_policy = LbPolicy.ring_hash;
  lb_config = some (ring_hash_config 1024);
}
configure_cluster (LoadBalancingStrategy.locality_aware base) c =
    record (configure_cluster base c) { locality_weighted = true }

-- The retry policy of a strategy. The custom strategy is made without status codes and with a budget
-- above 0.
unfoldable pub retry_policy_of : RetryStrategy → Option RetryPolicy
retry_policy_of no_retry = none
retry_policy_of conservative = some (record {
  retry_on = "5xx,reset";
  num_retries = 1;
  per_try_timeout = milliseconds 5000;
  retry_host_predicates = [];
  retriable_status_codes = [];
  retry_back_off = none;
})
retry_policy_of aggressive = some (record {
  retry_on = "5xx,reset,connect-failure,refused-stream";
  num_retries = 3;
  per_try_timeout = milliseconds 2000;
  retry_host_predicates = "envoy.retry_host_predicates.previous_hosts" ∷ [];
  retriable_status_codes = [];
  retry_back_off = none;
})
retry_policy_of (custom retries on timeout) = some (record {
  retry_on = on;
  num_retries = retries;
  per_try_timeout = timeout;
  retry_host_predicates = [];
  retriable_status_codes = [];
  retry_back_off =
      some (record { base_interval = milliseconds 25; max_interval = milliseconds 250 });
})

-- No-op strategies leave the route as it is.
abbrev with_policy : Option RetryPolicy → Route → Route
with_policy none r = r
with_policy (some p) r = record r { action = record r.action { retry_policy = some p } }

unfoldable pub configure_retry : RetryStrategy → Route → Route
unfolding retry_policy_of
configure_retry s r = with_policy (retry_policy_of s) r
