-- ===== src/Config/Env.antt =====
-- env.go: the overrides from the environment. `getenv` is os.Getenv, the empty text for a variable
-- that is not set.
use flowc.Prelude.{ℕ, String, none, some, Bool, ◌&&◌, string_eq, ◌==◌, if◌then◌else◌, ltb}
use flowc.Config.Settings.{ServerConfig, XdsConfig, LoggingConfig, FeaturesConfig, Config, Parsers}

-- if val != "" { field = val }
unfoldable pub override_text : String → String → String
override_text val old = if val == "" then old else val

module _ (std : Parsers) where
  -- port > 0 && port < 65536 of an int that parses
  unfoldable pub override_port : String → ℕ → ℕ
  override_port val old = if val == "" then old else elim (std.atoi val) [
    | none ↦ old
    | some port ↦ if ltb 0 port && ltb port 65536 then port else old
  ]

  unfoldable pub override_flag : String → Bool → Bool
  override_flag val old =
      if val == "" then old else elim (std.parse_bool val) [ none ↦ old | some enabled ↦ enabled ]

  module _ (getenv : String → String) where
    unfoldable pub apply_server_env_overrides : ServerConfig → ServerConfig
    unfolding override_text override_port override_flag
    apply_server_env_overrides s = record {
      api_port = override_port (getenv "FLOWC_API_PORT") s.api_port;
      xds_port = override_port (getenv "FLOWC_XDS_PORT") s.xds_port;
      read_timeout = override_text (getenv "FLOWC_READ_TIMEOUT") s.read_timeout;
      write_timeout = override_text (getenv "FLOWC_WRITE_TIMEOUT") s.write_timeout;
      idle_timeout = override_text (getenv "FLOWC_IDLE_TIMEOUT") s.idle_timeout;
      graceful_shutdown = override_flag (getenv "FLOWC_GRACEFUL_SHUTDOWN") s.graceful_shutdown;
      shutdown_timeout = override_text (getenv "FLOWC_SHUTDOWN_TIMEOUT") s.shutdown_timeout;
    }

    unfoldable pub apply_xds_env_overrides : XdsConfig → XdsConfig
    unfolding override_text override_port override_flag
    apply_xds_env_overrides x = record {
      default_listener_port =
          override_port (getenv "FLOWC_DEFAULT_LISTENER_PORT") x.default_listener_port;
      default_node_id = override_text (getenv "FLOWC_DEFAULT_NODE_ID") x.default_node_id;
      snapshot_cache = record { ads = override_flag (getenv "FLOWC_XDS_ADS") x.snapshot_cache.ads };
      grpc = record {
        keepalive_time = override_text (getenv "FLOWC_GRPC_KEEPALIVE_TIME") x.grpc.keepalive_time;
        keepalive_timeout =
            override_text (getenv "FLOWC_GRPC_KEEPALIVE_TIMEOUT") x.grpc.keepalive_timeout;
        keepalive_min_time =
            override_text (getenv "FLOWC_GRPC_KEEPALIVE_MIN_TIME") x.grpc.keepalive_min_time;
        keepalive_permit_without_stream =
            override_flag (getenv "FLOWC_GRPC_KEEPALIVE_PERMIT_WITHOUT_STREAM")
              x.grpc.keepalive_permit_without_stream;
      };
    }

    unfoldable pub apply_logging_env_overrides : LoggingConfig → LoggingConfig
    unfolding override_text override_flag
    apply_logging_env_overrides l = record {
      level = override_text (getenv "FLOWC_LOG_LEVEL") l.level;
      format = override_text (getenv "FLOWC_LOG_FORMAT") l.format;
      output = override_text (getenv "FLOWC_LOG_OUTPUT") l.output;
      structured = override_flag (getenv "FLOWC_LOG_STRUCTURED") l.structured;
      enable_caller = override_flag (getenv "FLOWC_LOG_ENABLE_CALLER") l.enable_caller;
      enable_stacktrace = override_flag (getenv "FLOWC_LOG_ENABLE_STACKTRACE") l.enable_stacktrace;
    }

    unfoldable pub apply_feature_env_overrides : FeaturesConfig → FeaturesConfig
    unfolding override_flag
    apply_feature_env_overrides f = record {
      external_translators =
          override_flag (getenv "FLOWC_FEATURE_EXTERNAL_TRANSLATORS") f.external_translators;
      openapi_validation =
          override_flag (getenv "FLOWC_FEATURE_OPENAPI_VALIDATION") f.openapi_validation;
      metrics = override_flag (getenv "FLOWC_FEATURE_METRICS") f.metrics;
      tracing = override_flag (getenv "FLOWC_FEATURE_TRACING") f.tracing;
      rate_limiting = override_flag (getenv "FLOWC_FEATURE_RATE_LIMITING") f.rate_limiting;
    }

    unfoldable pub apply_env_overrides : Config → Config
    unfolding apply_server_env_overrides apply_xds_env_overrides apply_logging_env_overrides
        apply_feature_env_overrides
    apply_env_overrides c = record c {
      server = apply_server_env_overrides c.server;
      xds = apply_xds_env_overrides c.xds;
      logging = apply_logging_env_overrides c.logging;
      features = apply_feature_env_overrides c.features;
    }
