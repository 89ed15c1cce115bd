-- ===== src/Translator/Factory.antt =====
-- resolver.go: the StrategyFactory, with the strategies as the data that their constructors keep. The
-- options and the logger, which the strategies keep too, change no result and are left out.
-- `parse_duration` is time.ParseDuration, in nanoseconds.
use flowc.Prelude.{
  ℕ, String, Option, none, some, Bool, true, ◌||◌, string_eq, nat_eq, ◌==◌, if◌then◌else◌, ◌⊎◌, inl,
  inr,
}
use flowc.Translator.Types.{
  CanaryConfig, BlueGreenConfig, DeploymentStrategyConfig, RouteMatchStrategyConfig,
  LoadBalancingStrategyConfig, RetryStrategyConfig, RateLimitStrategyConfig,
  ObservabilityStrategyConfig, StrategyConfig,
}
use flowc.Translator.Resolver.{
  deployment_type, load_balancing_type, retry_of, default_strategy_config,
}

pub data DeploymentStrategy : Type 0 where
  basic : DeploymentStrategy
  canary : CanaryConfig → DeploymentStrategy
  blue_green : BlueGreenConfig → DeploymentStrategy

pub data RouteMatchStrategy : Type 0 where
  prefix : Bool → RouteMatchStrategy
  exact : Bool → RouteMatchStrategy
  regex : Bool → RouteMatchStrategy
  header_versioned : String → Bool → RouteMatchStrategy

pub data LoadBalancingStrategy : Type 0 where
  round_robin : LoadBalancingStrategy
  least_request : ℕ → LoadBalancingStrategy
  random : LoadBalancingStrategy
  consistent_hash : String → String → String → LoadBalancingStrategy
  locality_aware : LoadBalancingStrategy → LoadBalancingStrategy

pub data RetryStrategy : Type 0 where
  no_retry : RetryStrategy
  conservative : RetryStrategy
  aggressive : RetryStrategy
  -- max_retries, retry_on, per_try_timeout
  custom : ℕ → String → ℕ → RetryStrategy

-- The two kinds of which only the no-op is implemented.
pub data RateLimitStrategy : Type 0 where
  no_rate_limit : RateLimitStrategy

pub data ObservabilityStrategy : Type 0 where
  no_observability : ObservabilityStrategy

pub record StrategySet : Type 0 where
  pub deployment : DeploymentStrategy
  pub route_match : RouteMatchStrategy
  pub load_balancing : LoadBalancingStrategy
  pub retry : RetryStrategy
  pub rate_limit : RateLimitStrategy
  pub observability : ObservabilityStrategy

-- errors.go, and the failure of a duration
pub data StrategyError : Type 0 where
  invalid_strategy_type : String → String → StrategyError
  strategy_config_missing : String → StrategyError
  invalid_per_try_timeout : String → StrategyError

abbrev pub Made : Type 0 → Type 0
Made A = StrategyError ⊎ A

-- if err != nil { return nil, err }
abbrev pub and_then : {A B : Type 0} → Made A → (A → Made B) → Made B
and_then (inl e) f = inl e
and_then (inr a) f = f a

abbrev pub or_default : {A : Type 0} → A → Option A → A
or_default a none = a
or_default a (some b) = b

unfoldable pub make_canary : Option CanaryConfig → Made DeploymentStrategy
make_canary none = inl (strategy_config_missing "canary")
make_canary (some c) = inr (canary c)

unfoldable pub make_blue_green : Option BlueGreenConfig → Made DeploymentStrategy
make_blue_green none = inl (strategy_config_missing "blue-green")
make_blue_green (some c) = inr (blue_green c)

unfoldable pub create_deployment_strategy :
    Option DeploymentStrategyConfig → Made DeploymentStrategy
unfolding make_canary make_blue_green
create_deployment_strategy o =
    let config = or_default (deployment_type "basic") o in
    if config.type == "basic" || config.type == ""
    then inr basic
    else if config.type == "canary"
    then make_canary config.canary
    else if config.type == "blue-green"
    then make_blue_green config.blue_green
    else inl (invalid_strategy_type "deployment" config.type)

abbrev new_header_versioned : String → Bool → RouteMatchStrategy
new_header_versioned header case_sensitive =
    header_versioned (if header == "" then "x-api-version" else header) case_sensitive

unfoldable pub create_route_match_strategy :
    Option RouteMatchStrategyConfig → Made RouteMatchStrategy
create_route_match_strategy o =
    let config =
      or_default (record { type = "prefix"; version_header = ""; case_sensitive = true }) o in
    if config.type == "prefix" || config.type == ""
    then inr (prefix config.case_sensitive)
    else if config.type == "exact"
    then inr (exact config.case_sensitive)
    else if config.type == "regex"
    then inr (regex config.case_sensitive)
    else if config.type == "header-versioned"
    then inr (new_header_versioned config.version_header config.case_sensitive)
    else inl (invalid_strategy_type "route_match" config.type)

abbrev new_least_request : ℕ → LoadBalancingStrategy
new_least_request choices = least_request (if choices == 0 then 2 else choices)

abbrev new_consistent_hash : String → String → String → LoadBalancingStrategy
new_consistent_hash on header cookie =
    consistent_hash (if on == "" then "header" else on) header cookie

unfoldable pub create_load_balancing_strategy :
    Option LoadBalancingStrategyConfig → Made LoadBalancingStrategy
create_load_balancing_strategy o =
    let config = or_default (load_balancing_type "round-robin" 0) o in
    if config.type == "round-robin" || config.type == ""
    then inr round_robin
    else if config.type == "least-request"
    then inr (new_least_request config.choice_count)
    else if config.type == "random"
    then inr random
    else if config.type == "consistent-hash"
    then inr (new_consistent_hash config.hash_on config.header_name config.cookie_name)
    else if config.type == "locality-aware"
    then inr (locality_aware round_robin)
    else inl (invalid_strategy_type "load_balancing" config.type)

module _ (parse_duration : String → Option ℕ) where
  unfoldable pub make_custom : RetryStrategyConfig → Made RetryStrategy
  make_custom config =
      let timeout = if config.per_try_timeout == "" then "5s" else config.per_try_timeout in
      elim (parse_duration timeout) [
        | none ↦ inl (invalid_per_try_timeout timeout)
        | some duration ↦ inr (custom config.max_retries config.retry_on duration)
      ]

  unfoldable pub create_retry_strategy : Option RetryStrategyConfig → Made RetryStrategy
  unfolding make_custom
  create_retry_strategy o =
      let config = or_default (retry_of "conservative" 0 "" "") o in
      if config.type == "none"
      then inr no_retry
      else if config.type == "conservative" || config.type == ""
      then inr conservative
      else if config.type == "aggressive"
      then inr aggressive
      else if config.type == "custom"
      then make_custom config
      else inl (invalid_strategy_type "retry" config.type)

  abbrev create_rate_limit_strategy : Option RateLimitStrategyConfig → Made RateLimitStrategy
  create_rate_limit_strategy o = inr no_rate_limit

  abbrev create_observability_strategy :
      Option ObservabilityStrategyConfig → Made ObservabilityStrategy
  create_observability_strategy o = inr no_observability

  unfoldable pub create_strategy_set : Option StrategyConfig → Made StrategySet
  unfolding create_deployment_strategy create_route_match_strategy create_load_balancing_strategy
      create_retry_strategy
  create_strategy_set o =
      let config = or_default default_strategy_config o in
      and_then (create_deployment_strategy config.deployment) λ deployment.
        and_then (create_route_match_strategy config.route_matching) λ route_match.
          and_then (create_load_balancing_strategy config.load_balancing) λ load_balancing.
            and_then (create_retry_strategy config.retry) λ retry.
              and_then (create_rate_limit_strategy config.rate_limit) λ rate_limit.
                and_then (create_observability_strategy config.observability) λ observability.
                  inr (record {
                    deployment = deployment;
                    route_match = route_match;
                    load_balancing = load_balancing;
                    retry = retry;
                    rate_limit = rate_limit;
                    observability = observability;
                  })
