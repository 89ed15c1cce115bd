-- ===== src/Translator/Convert.antt =====
-- internal/flowc/dispatch/translate.go: the settings of a Gateway or a Deployment as the translator's
-- settings. Only the fields that are written here are taken over.
use flowc.Prelude.{Option, none, some}
use flowc.V1alpha1.Strategy
use flowc.Translator.Types.{
  DeploymentStrategyConfig, RouteMatchStrategyConfig, LoadBalancingStrategyConfig,
  RetryStrategyConfig, RateLimitStrategyConfig, StrategyConfig,
}
use flowc.Translator.Resolver.{deployment_type, load_balancing_type, retry_of, rate_limit_of}

abbrev convert_deployment :
    Option Strategy.DeploymentStrategyConfig → Option DeploymentStrategyConfig
convert_deployment none = none
convert_deployment (some c) = some (deployment_type c.type)

abbrev convert_route_matching :
    Option Strategy.RouteMatchStrategyConfig → Option RouteMatchStrategyConfig
convert_route_matching none = none
convert_route_matching (some c) =
    some (record { type = c.type; version_header = ""; case_sensitive = c.case_sensitive })

abbrev convert_load_balancing :
    Option Strategy.LoadBalancingStrategyConfig → Option LoadBalancingStrategyConfig
convert_load_balancing none = none
convert_load_balancing (some c) = some (load_balancing_type c.type 0)

abbrev convert_retry : Option Strategy.RetryStrategyConfig → Option RetryStrategyConfig
convert_retry none = none
convert_retry (some c) = some (retry_of c.type c.max_retries c.retry_on "")

abbrev convert_rate_limit : Option Strategy.RateLimitStrategyConfig → Option RateLimitStrategyConfig
convert_rate_limit none = none
convert_rate_limit (some c) = some (rate_limit_of c.type c.requests_per_minute c.burst_size)

unfoldable pub v1_strategy_to_types : Option Strategy.StrategyConfig → Option StrategyConfig
v1_strategy_to_types none = none
v1_strategy_to_types (some cfg) = some (record {
  deployment = convert_deployment cfg.deployment;
  route_matching = convert_route_matching cfg.route_matching;
  load_balancing = convert_load_balancing cfg.load_balancing;
  retry = convert_retry cfg.retry;
  rate_limit = convert_rate_limit cfg.rate_limit;
  observability = none;
})
