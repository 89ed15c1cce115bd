-- ===== src/Config/Defaults.antt =====
-- defaults.go, and mergeWithDefaults of config.go.
pub mod Filled
use flowc.Prelude.{
  ℕ, String, Option, some, Bool, true, false, string_eq, nat_eq, ◌==◌, if◌then◌else◌,
}
use flowc.Translator.Resolver.{default_strategy_config}
use flowc.Config.Settings.{
  ServerConfig, XdsConfig, GrpcConfig, LoggingConfig, StoreConfig, ControllerConfig, Config,
  store_backend_memory,
}

abbrev pub default : Config
default = record {
  server = record {
    api_port = 8080;
    xds_port = 18000;
    read_timeout = "30s";
    write_timeout = "30s";
    idle_timeout = "60s";
    graceful_shutdown = true;
    shutdown_timeout = "10s";
  };
  xds = record {
    default_listener_port = 10000;
    default_node_id = "test-envoy-node";
    snapshot_cache = record { ads = true };
    grpc = record {
      keepalive_time = "30s";
      keepalive_timeout = "5s";
      keepalive_min_time = "5s";
      keepalive_permit_without_stream = true;
    };
  };
  default_strategy = some default_strategy_config;
  logging = record {
    level = "info";
    format = "json";
    output = "stdout";
    structured = true;
    enable_caller = false;
    enable_stacktrace = false;
  };
  features = record {
    external_translators = true;
    openapi_validation = true;
    metrics = false;
    tracing = false;
    rate_limiting = false;
  };
  store = record {
    backend = store_backend_memory;
    kubernetes = record { namespace = "default"; kubeconfig = "" };
  };
  controller = record {
    enabled = false;
    namespace = "";
    leader_election = record { enabled = false; lease_name = "flowc-controller"; namespace = "" };
    xds = record { address = "flowc:18000"; use_tls = false };
    envoy = record {
      image = "envoyproxy/envoy:v1.31-latest";
      image_pull_policy = "IfNotPresent";
      admin_port = 9901;
    };
    metrics_addr = "0";
    probe_addr = ":8081";
  };
}

-- if x == "" { x = d }, if x == 0 { x = d } and if !x { x = d }
abbrev pub or_text : String → String → String
or_text x d = if x == "" then d else x

abbrev pub or_number : ℕ → ℕ → ℕ
or_number x d = if x == 0 then d else x

abbrev pub or_flag : Bool → Bool → Bool
or_flag x d = if x then x else d

unfoldable pub merge_server : ServerConfig → ServerConfig
merge_server c =
    let d = default.server in
    record {
      api_port = or_number c.api_port d.api_port;
      xds_port = or_number c.xds_port d.xds_port;
      read_timeout = or_text c.read_timeout d.read_timeout;
      write_timeout = or_text c.write_timeout d.write_timeout;
      idle_timeout = or_text c.idle_timeout d.idle_timeout;
      graceful_shutdown = or_flag c.graceful_shutdown d.graceful_shutdown;
      shutdown_timeout = or_text c.shutdown_timeout d.shutdown_timeout;
    }

unfoldable pub merge_grpc : GrpcConfig → GrpcConfig
merge_grpc c =
    let d = default.xds.grpc in
    record {
      keepalive_time = or_text c.keepalive_time d.keepalive_time;
      keepalive_timeout = or_text c.keepalive_timeout d.keepalive_timeout;
      keepalive_min_time = or_text c.keepalive_min_time d.keepalive_min_time;
      keepalive_permit_without_stream =
          or_flag c.keepalive_permit_without_stream d.keepalive_permit_without_stream;
    }

unfoldable pub merge_xds : XdsConfig → XdsConfig
unfolding merge_grpc
merge_xds c =
    let d = default.xds in
    record {
      default_listener_port = or_number c.default_listener_port d.default_listener_port;
      default_node_id = or_text c.default_node_id d.default_node_id;
      snapshot_cache = record { ads = or_flag c.snapshot_cache.ads d.snapshot_cache.ads };
      grpc = merge_grpc c.grpc;
    }

unfoldable pub merge_logging : LoggingConfig → LoggingConfig
merge_logging c =
    let d = default.logging in
    record c {
      level = or_text c.level d.level;
      format = or_text c.format d.format;
      output = or_text c.output d.output;
    }

unfoldable pub merge_store : StoreConfig → StoreConfig
merge_store c =
    let d = default.store in
    record {
      backend = or_text c.backend d.backend;
      kubernetes = record c.kubernetes {
        namespace = or_text c.kubernetes.namespace d.kubernetes.namespace;
      };
    }

-- The namespace falls back on the store's, and the lease's on that.
unfoldable pub merge_controller : String → ControllerConfig → ControllerConfig
merge_controller store_namespace c =
    let d = default.controller in
    let namespace = or_text c.namespace store_namespace in
    record c {
      namespace = namespace;
      leader_election = record c.leader_election {
        lease_name = or_text c.leader_election.lease_name d.leader_election.lease_name;
        namespace = or_text c.leader_election.namespace namespace;
      };
      xds = record c.xds { address = or_text c.xds.address d.xds.address };
      envoy = record {
        image = or_text c.envoy.image d.envoy.image;
        image_pull_policy = or_text c.envoy.image_pull_policy d.envoy.image_pull_policy;
        admin_port = or_number c.envoy.admin_port d.envoy.admin_port;
      };
      metrics_addr = or_text c.metrics_addr d.metrics_addr;
      probe_addr = or_text c.probe_addr d.probe_addr;
    }

unfoldable pub merge_with_defaults : Config → Config
unfolding merge_server merge_xds merge_logging merge_store merge_controller
merge_with_defaults c = record c {
  server = merge_server c.server;
  xds = merge_xds c.xds;
  logging = merge_logging c.logging;
  store = merge_store c.store;
  controller = merge_controller (merge_store c.store).kubernetes.namespace c.controller;
}
