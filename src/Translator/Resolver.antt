-- ===== src/Translator/Resolver.antt =====
-- internal/flowc/xds/translator: the built-in settings and Merge of config.go, and the
-- ConfigResolver of resolver.go. The debug log of Resolve is left out.
use flowc.Prelude.{ℕ, String, [], Option, none, some, true, false}
use flowc.Translator.Types.{
  DeploymentStrategyConfig, LoadBalancingStrategyConfig, RetryStrategyConfig,
  RateLimitStrategyConfig, StrategyConfig,
}

-- A composite literal with only a type.
abbrev pub deployment_type : String → DeploymentStrategyConfig
deployment_type t = record { type = t; canary = none; blue_green = none }

abbrev pub load_balancing_type : String → ℕ → LoadBalancingStrategyConfig
load_balancing_type t choices = record {
  type = t;
  hash_on = "";
  header_name = "";
  cookie_name = "";
  choice_count = choices;
  health_check = none;
}

abbrev pub retry_of : String → ℕ → String → String → RetryStrategyConfig
retry_of t retries on timeout = record {
  type = t;
  max_retries = retries;
  retry_on = on;
  per_try_timeout = timeout;
  retriable_status_codes = [];
  budget_percent = 0;
}

abbrev pub rate_limit_of : String → ℕ → ℕ → RateLimitStrategyConfig
rate_limit_of t per_minute burst = record {
  type = t;
  requests_per_minute = per_minute;
  burst_size = burst;
  identify_by = "";
  claim_name = "";
  header_name = "";
  cookie_name = "";
  external_service = "";
}

-- The sampling rate is the bit pattern of 0.01.
abbrev pub default_strategy_config : StrategyConfig
default_strategy_config = record {
  deployment = some (deployment_type "basic");
  route_matching = some (record { type = "prefix"; version_header = ""; case_sensitive = true });
  load_balancing = some (load_balancing_type "round-robin" 2);
  retry = some (retry_of "conservative" 1 "5xx,reset" "5s");
  rate_limit = some (rate_limit_of "none" 0 0);
  observability = some (record {
    tracing = some (record {
      enabled = false;
      provider = "";
      sampling_rate = 4576918229304087675;
      endpoint = "";
    });
    metrics = some (record { enabled = false; provider = ""; path = ""; port = 0 });
    access_logs = some (record { enabled = false; format = "json"; path = "" });
  });
}

-- if c.X != nil { X = c.X } else { X = defaults.X }
abbrev pub prefer : {A : Type 0} → Option A → Option A → Option A
prefer none default = default
prefer (some a) default = some a

unfoldable pub merge : StrategyConfig → Option StrategyConfig → StrategyConfig
merge defaults none = defaults
merge defaults (some c) = record {
  deployment = prefer c.deployment defaults.deployment;
  route_matching = prefer c.route_matching defaults.route_matching;
  load_balancing = prefer c.load_balancing defaults.load_balancing;
  retry = prefer c.retry defaults.retry;
  rate_limit = prefer c.rate_limit defaults.rate_limit;
  observability = prefer c.observability defaults.observability;
}

pub record ConfigResolver : Type 0 where
  pub builtin_defaults : StrategyConfig
  pub profile_defaults : Option StrategyConfig
  pub gateway_defaults : Option StrategyConfig

abbrev pub new_config_resolver : Option StrategyConfig → Option StrategyConfig → ConfigResolver
new_config_resolver profile gateway = record {
  builtin_defaults = default_strategy_config;
  profile_defaults = profile;
  gateway_defaults = gateway;
}

-- The six resolve functions differ in the field that they read: the first of the API's, the
-- gateway's and the profile's settings that is there and has the field, and else the built-in's.
module _ {A : Type 0} (field : StrategyConfig → Option A) where
  -- config != nil && config.X != nil
  abbrev pub field_of : Option StrategyConfig → Option A
  field_of none = none
  field_of (some c) = field c

  unfoldable pub resolve_field : ConfigResolver → Option StrategyConfig → Option A
  resolve_field r api_config = elim (field_of api_config) [
    | some a ↦ some a
    | none ↦ elim (field_of r.gateway_defaults) [
      | some a ↦ some a
      | none ↦ elim (field_of r.profile_defaults) [
        | some a ↦ some a
        | none ↦ field r.builtin_defaults
      ]
    ]
  ]

unfoldable pub resolve : ConfigResolver → Option StrategyConfig → StrategyConfig
unfolding resolve_field
resolve r api_config = record {
  deployment = resolve_field (λ c. c.deployment) r api_config;
  route_matching = resolve_field (λ c. c.route_matching) r api_config;
  load_balancing = resolve_field (λ c. c.load_balancing) r api_config;
  retry = resolve_field (λ c. c.retry) r api_config;
  rate_limit = resolve_field (λ c. c.rate_limit) r api_config;
  observability = resolve_field (λ c. c.observability) r api_config;
}
