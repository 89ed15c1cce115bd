-- ===== src/Config/Load.antt =====
-- config.go: finding, loading and reading back the configuration. `unmarshal` is yaml.Unmarshal into
-- an empty Config, `exists` is os.Stat without an error, and `read_file` is os.ReadFile, `none` where
-- they fail.
pub mod Checked
pub mod Precedence
use flowc.Prelude.{
  ℕ, String, List, [], ◌∷◌, Option, none, some, Bool, ◌&&◌, not, ◌⊎◌, inl, inr, ◌*◌, string_eq,
  ◌==◌, ◌!=◌, if◌then◌else◌,
}
use flowc.Config.Settings.{Config, Parsers}
use flowc.Config.Defaults.{default, merge_with_defaults}
use flowc.Config.Validation.{ConfigError, validate}
use flowc.Config.Env.{apply_env_overrides}

pub data LoadError : Type 0 where
  unreadable : String → LoadError
  unparsable : LoadError
  invalid : ConfigError → LoadError

abbrev pub config_paths : List String
config_paths =
    "flowc-config.yaml" ∷ "flowc-config.yml" ∷ "config/flowc-config.yaml"
    ∷ "config/flowc-config.yml" ∷ "/etc/flowc/config.yaml" ∷ "/etc/flowc/config.yml" ∷ []

unfoldable pub first_existing : (String → Bool) → List String → String
first_existing exists [] = ""
first_existing exists (path ∷ paths) =
    let rest = first_existing exists paths in if exists path then path else rest

module _ (getenv : String → String) (exists : String → Bool) where
  unfoldable pub find_config_file : String
  unfolding first_existing
  find_config_file =
      let env_path = getenv "FLOWC_CONFIG" in
      if env_path != "" && exists env_path then env_path else first_existing exists config_paths

module _ (std : Parsers) (getenv : String → String) where
  -- Validate, and then the overrides.
  abbrev checked : Config → Option ConfigError → LoadError ⊎ Config
  checked c (some e) = inl (invalid e)
  checked c none = inr (apply_env_overrides std getenv c)

  abbrev parsed : Option Config → LoadError ⊎ Config
  parsed none = inl unparsable
  parsed (some c) = let merged = merge_with_defaults c in checked merged (validate std merged)

  module _ (unmarshal : List ℕ → Option Config) where
    unfoldable pub load_from_data : List ℕ → LoadError ⊎ Config
    load_from_data text = parsed (unmarshal text)

    unfoldable pub load_path : (String → Option (List ℕ)) → String → LoadError ⊎ Config
    unfolding load_from_data
    load_path read_file path = if path == "" then inr default else elim (read_file path) [
      | none ↦ inl (unreadable path)
      | some text ↦ load_from_data text
    ]

    unfoldable pub load : (String → Bool) → (String → Option (List ℕ)) → String → LoadError ⊎ Config
    unfolding load_path find_config_file
    load exists read_file config_path =
        load_path read_file
          (if config_path == "" then find_config_file getenv exists else config_path)

-- d, err := time.ParseDuration(text); the fallback where it fails. In nanoseconds.
unfoldable pub duration_or : Parsers → String → ℕ → ℕ
duration_or std text fallback = elim (std.parse_duration text) [ none ↦ fallback | some d ↦ d ]

abbrev pub seconds : ℕ → ℕ
seconds n = n * 1000000000

module _ (std : Parsers) (c : Config) where
  unfoldable pub get_server_read_timeout : ℕ
  unfolding duration_or
  get_server_read_timeout = duration_or std c.server.read_timeout (seconds 30)

  unfoldable pub get_server_write_timeout : ℕ
  unfolding duration_or
  get_server_write_timeout = duration_or std c.server.write_timeout (seconds 30)

  unfoldable pub get_server_idle_timeout : ℕ
  unfolding duration_or
  get_server_idle_timeout = duration_or std c.server.idle_timeout (seconds 60)

  unfoldable pub get_shutdown_timeout : ℕ
  unfolding duration_or
  get_shutdown_timeout = duration_or std c.server.shutdown_timeout (seconds 10)

  unfoldable pub get_keepalive_time : ℕ
  unfolding duration_or
  get_keepalive_time = duration_or std c.xds.grpc.keepalive_time (seconds 30)

  unfoldable pub get_keepalive_timeout : ℕ
  unfolding duration_or
  get_keepalive_timeout = duration_or std c.xds.grpc.keepalive_timeout (seconds 5)

  unfoldable pub get_keepalive_min_time : ℕ
  unfolding duration_or
  get_keepalive_min_time = duration_or std c.xds.grpc.keepalive_min_time (seconds 5)
