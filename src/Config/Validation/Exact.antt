-- ===== src/Config/Validation/Exact.antt =====
-- What the checks of validation.go let through.
use flowc.Prelude.{
  ℕ, String, List, Option, none, some, Bool, true, false, if◌then◌else◌, nat_beq_iff, refl, ◌≡◌,
  ◌≢◌, ◌≤◌, ◌⊎◌, ◌↔◌, arith, eq_iff, string_eq, nat_eq, contains, is_some,
}
use flowc.Config.Settings.{
  ServerConfig, XdsConfig, GrpcConfig, LoggingConfig, StoreConfig, Config, Parsers,
}
use flowc.Config.Validation.{
  ConfigError, then_check, in_section, check_port, check_choice, validate_duration, validate_server,
  validate_grpc, validate_xds, validate_logging, validate_store, validate, valid_levels,
  valid_formats,
}

then_check_iff :
    {A B : Type 0} (a b : Option ConfigError)
    → (a ≡ none) ↔ A
    → (b ≡ none) ↔ B
    → (then_check a b ≡ none) ↔ (A × B)
then_check_iff none b f g = (λ h. (f.0 refl, g.0 h), λ (p, q). g.1 q)
then_check_iff (some e) b f g = (λ h. absurd (ground arith), λ (p, q). f.1 p)

in_section_iff :
    {A : Type 0} (section : String) (a : Option ConfigError)
    → (a ≡ none) ↔ A
    → (in_section section a ≡ none) ↔ A
in_section_iff section none f = f
in_section_iff section (some e) f =
    (λ h. absurd (ground arith), λ p. absurd (ground (arith, f.1 p)))

abbrev pub IsPort : ℕ → Type 0
IsPort p = (1 ≤ p) × (p ≤ 65535)

check_port_iff : (name : String) (p : ℕ) → (check_port name p ≡ none) ↔ IsPort p
unfolding check_port
check_port_iff name p = (λ h. ground arith, λ h. ground arith)

-- if the two are equal { return … }
refuse_iff :
    {A : Type 0} {a b : A} {t : Bool} (e : ConfigError)
    → (t ≡ true) ↔ (a ≡ b)
    → ((if t then some e else none) ≡ none) ↔ (a ≢ b)
refuse_iff {t = true} e f = (λ h. absurd (ground arith), λ n. absurd (n (f.0 refl)))
refuse_iff {t = false} e f = (λ h same. absurd (ground (arith, f.1 same)), λ n. refl)

check_choice_iff :
    (name : String) (choices : List String) (wanted given : String)
    → (check_choice name choices wanted given ≡ none) ↔ (contains choices wanted ≡ true)
unfolding check_choice
check_choice_iff name choices wanted given = (λ h. ground arith, λ h. ground arith)

module _ (std : Parsers) where
  -- A duration that is given and parses.
  abbrev pub IsDuration : String → Type 0
  IsDuration d = (d ≢ "") × (is_some (std.parse_duration d) ≡ true)

  pub record IsValidServer (s : ServerConfig) : Type 0 where
    pub api_port : IsPort s.api_port
    pub xds_port : IsPort s.xds_port
    pub ports_differ : s.api_port ≢ s.xds_port
    pub read : IsDuration s.read_timeout
    pub write : IsDuration s.write_timeout
    pub idle : IsDuration s.idle_timeout
    pub shutdown : IsDuration s.shutdown_timeout

  validate_duration_iff : (d name : String) → (validate_duration std d name ≡ none) ↔ IsDuration d
  unfolding validate_duration
  validate_duration_iff d name =
      (λ h. ground (arith, eq_iff d ""), λ h. ground (arith, eq_iff d "", h.0, h.1))

  pub record IsValidGrpc (g : GrpcConfig) : Type 0 where
    pub time : IsDuration g.keepalive_time
    pub timeout : IsDuration g.keepalive_timeout
    pub min_time : IsDuration g.keepalive_min_time

  pub record IsValidXds (x : XdsConfig) : Type 0 where
    pub port : IsPort x.default_listener_port
    pub node : x.default_node_id ≢ ""
    pub grpc : IsValidGrpc x.grpc

  pub record IsValidLogging (l : LoggingConfig) : Type 0 where
    pub level : contains valid_levels (std.to_lower l.level) ≡ true
    pub format : contains valid_formats (std.to_lower l.format) ≡ true
    pub output : l.output ≢ ""

  -- The settings that the control plane can run with.
  pub record IsValid (c : Config) : Type 0 where
    pub server : IsValidServer c.server
    pub xds : IsValidXds c.xds
    pub logging : IsValidLogging c.logging
    pub backend : (c.store.backend ≡ "memory") ⊎ (c.store.backend ≡ "kubernetes")

  server_iff : (s : ServerConfig) → (validate_server std s ≡ none) ↔ IsValidServer s
  unfolding validate_server
  server_iff s =
      let all = then_check_iff _ _ (check_port_iff "api_port" s.api_port) (
        then_check_iff _ _ (check_port_iff "xds_port" s.xds_port) (
          then_check_iff {A = s.api_port ≢ s.xds_port} _ _
            (refuse_iff _ (nat_beq_iff s.api_port s.xds_port))
            (then_check_iff _ _ (validate_duration_iff s.read_timeout "read_timeout") (
              then_check_iff _ _ (validate_duration_iff s.write_timeout "write_timeout") (
                then_check_iff _ _ (validate_duration_iff s.idle_timeout "idle_timeout")
                  (validate_duration_iff s.shutdown_timeout "shutdown_timeout")))))) in
      (
        λ h.
            let v = all.0 h in
            record {
              api_port = v.0;
              xds_port = v.1.0;
              ports_differ = v.1.1.0;
              read = v.1.1.1.0;
              write = v.1.1.1.1.0;
              idle = v.1.1.1.1.1.0;
              shutdown = v.1.1.1.1.1.1;
            },
        λ v.
            all.1 (
              v.api_port,
              (v.xds_port, (v.ports_differ, (v.read, (v.write, (v.idle, v.shutdown))))),
            ),
      )

  grpc_iff : (g : GrpcConfig) → (validate_grpc std g ≡ none) ↔ IsValidGrpc g
  unfolding validate_grpc
  grpc_iff g =
      let all = then_check_iff _ _ (validate_duration_iff g.keepalive_time "keepalive_time") (
        then_check_iff _ _ (validate_duration_iff g.keepalive_timeout "keepalive_timeout")
          (validate_duration_iff g.keepalive_min_time "keepalive_min_time")) in
      (
        λ h. let v = all.0 h in record { time = v.0; timeout = v.1.0; min_time = v.1.1 },
        λ v. all.1 (v.time, (v.timeout, v.min_time)),
      )

  xds_iff : (x : XdsConfig) → (validate_xds std x ≡ none) ↔ IsValidXds x
  unfolding validate_xds
  xds_iff x =
      let all =
        then_check_iff _ _ (check_port_iff "default_listener_port" x.default_listener_port) (
          then_check_iff {A = x.default_node_id ≢ ""} _ _
            (refuse_iff _ (eq_iff x.default_node_id ""))
            (in_section_iff "grpc" _ (grpc_iff x.grpc))) in
      (
        λ h. let v = all.0 h in record { port = v.0; node = v.1.0; grpc = v.1.1 },
        λ v. all.1 (v.port, (v.node, v.grpc)),
      )

  logging_iff : (l : LoggingConfig) → (validate_logging std l ≡ none) ↔ IsValidLogging l
  unfolding validate_logging
  logging_iff l =
      let all =
        then_check_iff _ _
          (check_choice_iff "log level" valid_levels (std.to_lower l.level) l.level)
          (then_check_iff _ _
            (check_choice_iff "log format" valid_formats (std.to_lower l.format) l.format)
            (refuse_iff _ (eq_iff l.output ""))) in
      (
        λ h. let v = all.0 h in record { level = v.0; format = v.1.0; output = v.1.1 },
        λ v. all.1 (v.level, (v.format, v.output)),
      )

  store_iff :
      (s : StoreConfig)
      → (validate_store s ≡ none) ↔ ((s.backend ≡ "memory") ⊎ (s.backend ≡ "kubernetes"))
  unfolding validate_store check_choice contains
  store_iff s = (
    λ h. ground (arith, eq_iff "memory" s.backend, eq_iff "kubernetes" s.backend),
    λ h. ground (arith, eq_iff "memory" s.backend, eq_iff "kubernetes" s.backend),
  )

  -- Validate passes a configuration exactly when it is valid: the three ports lie between 1 and
  -- 65535, the API and xDS ports differ, the seven durations are given and parse, the default node
  -- ID and the log output are not empty, the log level and format are known up to case, and the
  -- backend is "memory" or "kubernetes".
  pub validate_iff : (c : Config) → (validate std c ≡ none) ↔ IsValid c
  unfolding validate
  validate_iff c =
      let all = then_check_iff _ _ (in_section_iff "server" _ (server_iff c.server)) (
        then_check_iff _ _ (in_section_iff "xds" _ (xds_iff c.xds)) (
          then_check_iff _ _ (in_section_iff "logging" _ (logging_iff c.logging))
            (in_section_iff "store" _ (store_iff c.store)))) in
      (
        λ h.
            let v = all.0 h in
            record { server = v.0; xds = v.1.0; logging = v.1.1.0; backend = v.1.1.1 },
        λ v. all.1 (v.server, (v.xds, (v.logging, v.backend))),
      )
