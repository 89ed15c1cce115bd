-- ===== src/Config/Load/Checked.antt =====
-- What Load of config.go has checked: the configuration before the environment's overrides, of which
-- only the ports are checked.
use flowc.Prelude.{
  ℕ, String, List, Option, none, some, Bool, true, false, ◌≡◌, ◌≢◌, ◌⊎◌, inl, inr, arith, eq_iff,
  string_eq, contains, sym, subst, ◌∙◌, ap, Option-cases, refl,
}
use mathlib.Core.Path.{fun_ext}
use flowc.Config.Settings.{Config, Parsers}
use flowc.Config.Defaults.{merge_with_defaults, or_flag}
use flowc.Config.Validation.{validate, valid_levels}
use flowc.Config.Validation.Exact.{IsPort, IsValid, validate_iff}
use flowc.Config.Env.{override_text, override_port, override_flag, apply_env_overrides}
use flowc.Config.Load.{load_from_data}

override_port-IsPort :
    (std : Parsers) (val : String) (old : ℕ) → IsPort old → IsPort (override_port std val old)
unfolding override_port
override_port-IsPort std val old h = ground (arith, h.0, h.1)

override_flag_on :
    (std : Parsers) (val : String) (b : Bool)
    → val ≡ ""
    → override_flag std val (or_flag b true) ≡ true
unfolding override_flag
override_flag_on std val b unset = rw unset (ground arith)

override_text-ne : (val old : String) → old ≢ "" → override_text val old ≢ ""
unfolding override_text
override_text-ne val old h e = ground (arith, eq_iff val "", h)

module _ (std : Parsers) (getenv : String → String) (unmarshal : List ℕ → Option Config)
    (text : List ℕ) {c : Config} where
  -- What a successful load comes from.
  load_from_data-ok :
      load_from_data std getenv unmarshal text ≡ inr c
      → (file : Config) × (unmarshal text ≡ some file)
        × IsValid std (merge_with_defaults file)
        × (c ≡ apply_env_overrides std getenv (merge_with_defaults file))
  unfolding load_from_data
  load_from_data-ok h = elim (Option-cases (unmarshal text)) [
    | inl bad ↦ absurd (ground arith)
    | inr (file, read) ↦ elim (Option-cases (validate std (merge_with_defaults file))) [
      | inl good ↦ (file, read, (validate_iff std (merge_with_defaults file)).0 good, ground arith)
      | inr (e, refused) ↦ absurd (ground arith)
    ]
  ]

  -- Whatever the file and the environment hold, the three ports of a configuration that loads lie
  -- between 1 and 65535, its default node ID and its log output are not empty, and its backend is
  -- one of the two.
  pub load-IsPort :
      load_from_data std getenv unmarshal text ≡ inr c
      → IsPort c.server.api_port
        × IsPort c.server.xds_port
        × IsPort c.xds.default_listener_port
        × (c.xds.default_node_id ≢ "")
        × (c.logging.output ≢ "")
        × ((c.store.backend ≡ "memory") ⊎ (c.store.backend ≡ "kubernetes"))
  unfolding apply_env_overrides
  load-IsPort h =
      let (file, read, v, e) = load_from_data-ok h in
      rw e (
        override_port-IsPort std (getenv "FLOWC_API_PORT") _ v.server.api_port,
        override_port-IsPort std (getenv "FLOWC_XDS_PORT") _ v.server.xds_port,
        override_port-IsPort std (getenv "FLOWC_DEFAULT_LISTENER_PORT") _ v.xds.port,
        override_text-ne (getenv "FLOWC_DEFAULT_NODE_ID") _ v.xds.node,
        override_text-ne (getenv "FLOWC_LOG_OUTPUT") _ v.logging.output,
        v.backend,
      )

  -- With no variable set, a configuration that loads is valid.
  load_unset-IsValid :
      ((name : String) → getenv name ≡ "")
      → load_from_data std getenv unmarshal text ≡ inr c
      → IsValid std c
  unfolding apply_env_overrides override_text override_port override_flag
  load_unset-IsValid unset h =
      let (file, read, v, e) = load_from_data-ok h in
      let same : apply_env_overrides std getenv (merge_with_defaults file)
          ≡ merge_with_defaults file =
        subst
          (λ env. apply_env_overrides std env (merge_with_defaults file) ≡ merge_with_defaults file)
          (sym (fun_ext unset)) refl in
      subst (IsValid std) (sym (e ∙ same)) v

  -- The overrides of the environment come after the check. A configuration that loads with a log
  -- level from the environment that is not one of the four, with a read timeout from there that does
  -- not parse, or with both ports set there to one number, is not valid.
  pub load_unchecked :
      load_from_data std getenv unmarshal text ≡ inr c
      → (getenv "FLOWC_LOG_LEVEL" ≢ ""
          → contains valid_levels (std.to_lower (getenv "FLOWC_LOG_LEVEL")) ≡ false
          → ¬ IsValid std c)
        × (getenv "FLOWC_READ_TIMEOUT" ≢ ""
            → std.parse_duration (getenv "FLOWC_READ_TIMEOUT") ≡ none
            → ¬ IsValid std c)
        × ((port : ℕ)
            → IsPort port
            → getenv "FLOWC_API_PORT" ≢ ""
            → getenv "FLOWC_XDS_PORT" ≢ ""
            → std.atoi (getenv "FLOWC_API_PORT") ≡ some port
            → std.atoi (getenv "FLOWC_XDS_PORT") ≡ some port
            → ¬ IsValid std c)
  unfolding apply_env_overrides override_text override_port
  load_unchecked h =
      let (file, read, v, e) = load_from_data-ok h in
      (
        λ given bad valid.
            let level : c.logging.level ≡ getenv "FLOWC_LOG_LEVEL" =
              ap (λ d. d.logging.level) e
              ∙ ground (arith, eq_iff (getenv "FLOWC_LOG_LEVEL") "", given) in
            ground (arith, valid.logging.level, level, bad),
        λ given bad valid.
            let time : c.server.read_timeout ≡ getenv "FLOWC_READ_TIMEOUT" =
              ap (λ d. d.server.read_timeout) e
              ∙ ground (arith, eq_iff (getenv "FLOWC_READ_TIMEOUT") "", given) in
            ground (arith, valid.server.read.1, time, bad),
        λ port ok a b p q valid.
            let api : c.server.api_port ≡ port =
              ap (λ d. d.server.api_port) e
              ∙ ground (arith, eq_iff (getenv "FLOWC_API_PORT") "", a, p, ok.0, ok.1) in
            let xds : c.server.xds_port ≡ port =
              ap (λ d. d.server.xds_port) e
              ∙ ground (arith, eq_iff (getenv "FLOWC_XDS_PORT") "", b, q, ok.0, ok.1) in
            valid.server.ports_differ (api ∙ sym xds),
      )

  -- Three settings cannot be turned off in the file: graceful shutdown, the aggregated discovery
  -- service and keepalive pings without streams are on in every configuration that loads, unless
  -- their variable is set in the environment.
  pub load_flags_forced :
      load_from_data std getenv unmarshal text ≡ inr c
      → (getenv "FLOWC_GRACEFUL_SHUTDOWN" ≡ "" → c.server.graceful_shutdown ≡ true)
        × (getenv "FLOWC_XDS_ADS" ≡ "" → c.xds.snapshot_cache.ads ≡ true)
        × (getenv "FLOWC_GRPC_KEEPALIVE_PERMIT_WITHOUT_STREAM" ≡ ""
            → c.xds.grpc.keepalive_permit_without_stream ≡ true)
  unfolding apply_env_overrides merge_with_defaults
  load_flags_forced h =
      let (file, read, v, e) = load_from_data-ok h in
      (
        λ unset.
            ap (λ d. d.server.graceful_shutdown) e
            ∙ override_flag_on std (getenv "FLOWC_GRACEFUL_SHUTDOWN") file.server.graceful_shutdown
                unset,
        λ unset.
            ap (λ d. d.xds.snapshot_cache.ads) e
            ∙ override_flag_on std (getenv "FLOWC_XDS_ADS") file.xds.snapshot_cache.ads unset,
        λ unset.
            ap (λ d. d.xds.grpc.keepalive_permit_without_stream) e
            ∙ override_flag_on std (getenv "FLOWC_GRPC_KEEPALIVE_PERMIT_WITHOUT_STREAM")
                file.xds.grpc.keepalive_permit_without_stream unset,
      )
