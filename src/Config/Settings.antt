-- ===== src/Config/Settings.antt =====
-- config.go: the settings. An int is its two's-complement bit pattern, so a negative one is a number
-- of 2 ^ 63 or more.
use flowc.Prelude.{ℕ, String, Option, Bool}
use flowc.Translator.Types.{StrategyConfig}

pub record KubernetesStoreConfig : Type 0 where
  pub namespace : String
  pub kubeconfig : String

pub record StoreConfig : Type 0 where
  pub backend : String
  pub kubernetes : KubernetesStoreConfig

pub record LeaderElectionConfig : Type 0 where
  pub enabled : Bool
  pub lease_name : String
  pub namespace : String

pub record ControllerXdsConfig : Type 0 where
  pub address : String
  pub use_tls : Bool

pub record EnvoyConfig : Type 0 where
  pub image : String
  pub image_pull_policy : String
  pub admin_port : ℕ

pub record ControllerConfig : Type 0 where
  pub enabled : Bool
  pub namespace : String
  pub leader_election : LeaderElectionConfig
  pub xds : ControllerXdsConfig
  pub envoy : EnvoyConfig
  pub metrics_addr : String
  pub probe_addr : String

abbrev pub store_backend_memory : String
store_backend_memory = "memory"

abbrev pub store_backend_kubernetes : String
store_backend_kubernetes = "kubernetes"

pub record ServerConfig : Type 0 where
  pub api_port : ℕ
  pub xds_port : ℕ
  pub read_timeout : String
  pub write_timeout : String
  pub idle_timeout : String
  pub graceful_shutdown : Bool
  pub shutdown_timeout : String

pub record SnapshotCacheConfig : Type 0 where
  pub ads : Bool

pub record GrpcConfig : Type 0 where
  pub keepalive_time : String
  pub keepalive_timeout : String
  pub keepalive_min_time : String
  pub keepalive_permit_without_stream : Bool

pub record XdsConfig : Type 0 where
  pub default_listener_port : ℕ
  pub default_node_id : String
  pub snapshot_cache : SnapshotCacheConfig
  pub grpc : GrpcConfig

pub record LoggingConfig : Type 0 where
  pub level : String
  pub format : String
  pub output : String
  pub structured : Bool
  pub enable_caller : Bool
  pub enable_stacktrace : Bool

pub record FeaturesConfig : Type 0 where
  pub external_translators : Bool
  pub openapi_validation : Bool
  pub metrics : Bool
  pub tracing : Bool
  pub rate_limiting : Bool

pub record Config : Type 0 where
  pub server : ServerConfig
  pub xds : XdsConfig
  pub default_strategy : Option StrategyConfig
  pub logging : LoggingConfig
  pub features : FeaturesConfig
  pub store : StoreConfig
  pub controller : ControllerConfig

-- What the package takes from strings, strconv and time: ToLower, Atoi, ParseBool and ParseDuration,
-- `none` where they return an error.
pub record Parsers : Type 0 where
  pub to_lower : String → String
  pub atoi : String → Option ℕ
  pub parse_bool : String → Option Bool
  pub parse_duration : String → Option ℕ
