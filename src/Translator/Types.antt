-- ===== src/Translator/Types.antt =====
-- pkg/types/types.go: the strategy settings that the translator reads. A pointer is an Option, a
-- uint32 a number, an int or a float64 its bit pattern.
use flowc.Prelude.{ℕ, String, List, Option, Bool}
use flowc.Dict.{Dict}

pub record MatchCriteria : Type 0 where
  pub headers : Dict String String
  pub query_params : Dict String String
  pub source_labels : Dict String String

pub record CanaryConfig : Type 0 where
  pub baseline_version : String
  pub canary_version : String
  pub canary_weight : ℕ
  pub match_criteria : Option MatchCriteria

pub record BlueGreenConfig : Type 0 where
  pub active_version : String
  pub standby_version : String
  pub auto_promote : Bool

pub record DeploymentStrategyConfig : Type 0 where
  pub type : String
  pub canary : Option CanaryConfig
  pub blue_green : Option BlueGreenConfig

pub record RouteMatchStrategyConfig : Type 0 where
  pub type : String
  pub version_header : String
  pub case_sensitive : Bool

pub record HealthCheckConfig : Type 0 where
  pub enabled : Bool
  pub interval : String
  pub timeout : String
  pub healthy_count : ℕ
  pub unhealthy_count : ℕ
  pub path : String
  pub expected_status : ℕ

pub record LoadBalancingStrategyConfig : Type 0 where
  pub type : String
  pub hash_on : String
  pub header_name : String
  pub cookie_name : String
  pub choice_count : ℕ
  pub health_check : Option HealthCheckConfig

pub record RetryStrategyConfig : Type 0 where
  pub type : String
  pub max_retries : ℕ
  pub retry_on : String
  pub per_try_timeout : String
  pub retriable_status_codes : List ℕ
  pub budget_percent : ℕ

pub record RateLimitStrategyConfig : Type 0 where
  pub type : String
  pub requests_per_minute : ℕ
  pub burst_size : ℕ
  pub identify_by : String
  pub claim_name : String
  pub header_name : String
  pub cookie_name : String
  pub external_service : String

pub record TracingConfig : Type 0 where
  pub enabled : Bool
  pub provider : String
  pub sampling_rate : ℕ
  pub endpoint : String

pub record MetricsConfig : Type 0 where
  pub enabled : Bool
  pub provider : String
  pub path : String
  pub port : ℕ

pub record AccessLogsConfig : Type 0 where
  pub enabled : Bool
  pub format : String
  pub path : String

pub record ObservabilityStrategyConfig : Type 0 where
  pub tracing : Option TracingConfig
  pub metrics : Option MetricsConfig
  pub access_logs : Option AccessLogsConfig

pub record StrategyConfig : Type 0 where
  pub deployment : Option DeploymentStrategyConfig
  pub route_matching : Option RouteMatchStrategyConfig
  pub load_balancing : Option LoadBalancingStrategyConfig
  pub retry : Option RetryStrategyConfig
  pub rate_limit : Option RateLimitStrategyConfig
  pub observability : Option ObservabilityStrategyConfig
