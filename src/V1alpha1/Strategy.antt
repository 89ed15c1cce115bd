-- ===== src/V1alpha1/Strategy.antt =====
-- api/v1alpha1/common_types.go: the strategy settings of a Gateway or a Deployment. A pointer is an
-- Option, a uint32 a number, an int its two's-complement bit pattern.
use flowc.Prelude.{ℕ, String, Option, Bool}

pub record CanaryConfig : Type 0 where
  pub canary_weight : ℕ

pub record BlueGreenConfig : Type 0 where
  pub active_version : String
  pub standby_version : String

pub record DeploymentStrategyConfig : Type 0 where
  pub type : String
  pub canary : Option CanaryConfig
  pub blue_green : Option BlueGreenConfig

pub record RouteMatchStrategyConfig : Type 0 where
  pub type : String
  pub version_header : String
  pub case_sensitive : Bool

pub record HealthCheckConfig : Type 0 where
  pub enabled : Bool
  pub interval : String
  pub timeout : String
  pub path : String
  pub expected_status : ℕ

pub record LoadBalancingStrategyConfig : Type 0 where
  pub type : String
  pub hash_on : String
  pub header_name : String
  pub health_check : Option HealthCheckConfig

pub record RetryStrategyConfig : Type 0 where
  pub type : String
  pub max_retries : ℕ
  pub retry_on : String
  pub per_try_timeout : String

pub record RateLimitStrategyConfig : Type 0 where
  pub type : String
  pub requests_per_minute : ℕ
  pub burst_size : ℕ

pub record AccessLogsConfig : Type 0 where
  pub enabled : Bool
  pub format : String
  pub path : String

pub record ObservabilityStrategyConfig : Type 0 where
  pub access_logs : Option AccessLogsConfig

pub record StrategyConfig : Type 0 where
  pub deployment : Option DeploymentStrategyConfig
  pub route_matching : Option RouteMatchStrategyConfig
  pub load_balancing : Option LoadBalancingStrategyConfig
  pub retry : Option RetryStrategyConfig
  pub rate_limit : Option RateLimitStrategyConfig
  pub observability : Option ObservabilityStrategyConfig
