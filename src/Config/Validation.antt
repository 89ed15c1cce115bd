-- ===== src/Config/Validation.antt =====
-- validation.go: the checks, in their order; the first error is returned.
pub mod Exact
use flowc.Prelude.{
  ℕ, String, List, [], ◌∷◌, Option, none, some, Bool, ◌||◌, not, string_eq, nat_eq, ◌==◌,
  if◌then◌else◌, ltb, contains, is_some,
}
use flowc.Config.Settings.{
  ServerConfig, XdsConfig, GrpcConfig, LoggingConfig, StoreConfig, Config, Parsers,
  store_backend_memory, store_backend_kubernetes,
}

pub data ConfigError : Type 0 where
  invalid_port : String → ℕ → ConfigError
  same_ports : ℕ → ConfigError
  empty : String → ConfigError
  invalid_duration : String → String → ConfigError
  invalid_choice : String → String → ConfigError
  -- "%s config: %w"
  within : String → ConfigError → ConfigError

-- if err := …; err != nil { return … } and the checks after it
abbrev pub then_check : Option ConfigError → Option ConfigError → Option ConfigError
then_check (some e) rest = some e
then_check none rest = rest

abbrev pub in_section : String → Option ConfigError → Option ConfigError
in_section section none = none
in_section section (some e) = some (within section e)

-- A port of a Go int: below 1 are also the patterns from 2 ^ 63 on, which are above 65535.
unfoldable pub check_port : String → ℕ → Option ConfigError
check_port name port = if ltb port 1 || ltb 65535 port then some (invalid_port name port) else none

unfoldable pub check_choice : String → List String → String → String → Option ConfigError
check_choice name choices wanted given =
    if contains choices wanted then none else some (invalid_choice name given)

abbrev pub valid_backends : List String
valid_backends = store_backend_memory ∷ store_backend_kubernetes ∷ []

abbrev pub valid_levels : List String
valid_levels = "debug" ∷ "info" ∷ "warn" ∷ "error" ∷ []

abbrev pub valid_formats : List String
valid_formats = "json" ∷ "text" ∷ []

unfoldable pub validate_store : StoreConfig → Option ConfigError
unfolding check_choice
validate_store s = check_choice "backend" valid_backends s.backend s.backend

module _ (std : Parsers) where
  unfoldable pub validate_duration : String → String → Option ConfigError
  validate_duration duration name =
      if duration == "" then some (empty name) else elim (std.parse_duration duration) [
        | none ↦ some (invalid_duration name duration)
        | some d ↦ none
      ]

  unfoldable pub validate_server : ServerConfig → Option ConfigError
  unfolding check_port validate_duration
  validate_server s = then_check (check_port "api_port" s.api_port) (
      then_check (check_port "xds_port" s.xds_port) (
        then_check (if s.api_port == s.xds_port then some (same_ports s.api_port) else none) (
          then_check (validate_duration s.read_timeout "read_timeout") (
            then_check (validate_duration s.write_timeout "write_timeout") (
              then_check (validate_duration s.idle_timeout "idle_timeout")
                (validate_duration s.shutdown_timeout "shutdown_timeout"))))))

  unfoldable pub validate_grpc : GrpcConfig → Option ConfigError
  unfolding validate_duration
  validate_grpc g = then_check (validate_duration g.keepalive_time "keepalive_time") (
      then_check (validate_duration g.keepalive_timeout "keepalive_timeout")
        (validate_duration g.keepalive_min_time "keepalive_min_time"))

  unfoldable pub validate_xds : XdsConfig → Option ConfigError
  unfolding check_port validate_grpc
  validate_xds x = then_check (check_port "default_listener_port" x.default_listener_port) (
      then_check (if x.default_node_id == "" then some (empty "default_node_id") else none)
        (in_section "grpc" (validate_grpc x.grpc)))

  unfoldable pub validate_logging : LoggingConfig → Option ConfigError
  unfolding check_choice
  validate_logging l =
      then_check (check_choice "log level" valid_levels (std.to_lower l.level) l.level) (
        then_check (check_choice "log format" valid_formats (std.to_lower l.format) l.format)
          (if l.output == "" then some (empty "log output") else none))

  unfoldable pub validate : Config → Option ConfigError
  unfolding validate_server validate_xds validate_logging validate_store
  validate c = then_check (in_section "server" (validate_server c.server)) (
      then_check (in_section "xds" (validate_xds c.xds)) (
        then_check (in_section "logging" (validate_logging c.logging))
          (in_section "store" (validate_store c.store))))
