-- ===== src/Config/Defaults/Filled.antt =====
-- mergeWithDefaults of config.go fills in what is missing, once.
use flowc.Prelude.{ℕ, String, ◌≡◌, arith, ap, ◌∙◌, string_eq}
use flowc.Config.Settings.{
  ServerConfig, XdsConfig, GrpcConfig, LoggingConfig, StoreConfig, ControllerConfig, Config,
}
use flowc.Config.Defaults.{
  default, or_text, or_number, merge_server, merge_grpc, merge_xds, merge_logging, merge_store,
  merge_controller, merge_with_defaults,
}

or_text_idem : (x d : String) → or_text (or_text x d) d ≡ or_text x d
or_text_idem x d = ground arith

or_number_idem : (x d : ℕ) → or_number (or_number x d) d ≡ or_number x d
or_number_idem x d = ground arith

merge_server_idem : (c : ServerConfig) → merge_server (merge_server c) ≡ merge_server c
unfolding merge_server
merge_server_idem c = ground arith

merge_grpc_idem : (c : GrpcConfig) → merge_grpc (merge_grpc c) ≡ merge_grpc c
unfolding merge_grpc
merge_grpc_idem c = ground arith

merge_xds_idem : (c : XdsConfig) → merge_xds (merge_xds c) ≡ merge_xds c
unfolding merge_xds
merge_xds_idem c = ground (arith, merge_grpc_idem c.grpc)

merge_logging_idem : (c : LoggingConfig) → merge_logging (merge_logging c) ≡ merge_logging c
unfolding merge_logging
merge_logging_idem c = ground arith

merge_store_idem : (c : StoreConfig) → merge_store (merge_store c) ≡ merge_store c
unfolding merge_store
merge_store_idem c = ground arith

merge_controller_idem :
    (namespace : String) (c : ControllerConfig)
    → merge_controller namespace (merge_controller namespace c) ≡ merge_controller namespace c
unfolding merge_controller
merge_controller_idem namespace c =
    let d = default.controller in
    let own = or_text c.namespace namespace in
    let lease = c.leader_election in
    λ i. record c {
      namespace = or_text_idem c.namespace namespace i;
      leader_election = record lease {
        lease_name = or_text_idem lease.lease_name d.leader_election.lease_name i;
        namespace =
            (ap (or_text (or_text lease.namespace own)) (or_text_idem c.namespace namespace)
                ∙ or_text_idem lease.namespace own)
              i;
      };
      xds = record c.xds { address = or_text_idem c.xds.address d.xds.address i };
      envoy = record {
        image = or_text_idem c.envoy.image d.envoy.image i;
        image_pull_policy = or_text_idem c.envoy.image_pull_policy d.envoy.image_pull_policy i;
        admin_port = or_number_idem c.envoy.admin_port d.envoy.admin_port i;
      };
      metrics_addr = or_text_idem c.metrics_addr d.metrics_addr i;
      probe_addr = or_text_idem c.probe_addr d.probe_addr i;
    }

-- Merging a configuration with the defaults a second time changes nothing.
pub merge_with_defaults_idem :
    (c : Config) → merge_with_defaults (merge_with_defaults c) ≡ merge_with_defaults c
unfolding merge_with_defaults
merge_with_defaults_idem c =
    let spaces = ap (λ s. s.kubernetes.namespace) (merge_store_idem c.store) in
    let namespace = (merge_store c.store).kubernetes.namespace in
    λ i. record c {
      server = merge_server_idem c.server i;
      xds = merge_xds_idem c.xds i;
      logging = merge_logging_idem c.logging i;
      store = merge_store_idem c.store i;
      controller =
          (ap (λ n. merge_controller n (merge_controller namespace c.controller)) spaces
              ∙ merge_controller_idem namespace c.controller)
            i;
    }
