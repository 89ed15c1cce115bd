-- ===== src/Tests/Config.antt =====
-- The configuration at concrete inputs: an empty file, with the defaults filled in.
use flowc.Prelude.{
  ℕ, String, List, [], ◌∷◌, Option, none, some, false, ◌≡◌, ◌≢◌, ◌⊎◌, inr, ◌↔◌, refl, arith, eq_iff,
  string_eq, ◌==◌, if◌then◌else◌, contains,
}
use flowc.Config.Settings.{Config, Parsers}
use flowc.Config.Defaults.{default, merge_with_defaults}
use flowc.Config.Validation.{validate, valid_levels}
use flowc.Config.Validation.Exact.{IsPort, IsValid, validate_iff}
use flowc.Config.Env.{apply_env_overrides}
use flowc.Config.Load.{load_from_data}
use flowc.Config.Load.Checked.{load-IsPort, load_unchecked}

abbrev std : Parsers
std = record {
  to_lower = λ s. s;
  atoi = λ s. if s == "9000" then some 9000 else none;
  parse_bool = λ s. if s == "false" then some false else none;
  parse_duration = λ s. if s == "soon" then none else some 30;
}

abbrev getenv : String → String
getenv name =
    if name == "FLOWC_LOG_LEVEL" then "loud" else if name == "FLOWC_API_PORT" then "9000" else ""

-- The file turns graceful shutdown off.
abbrev file : Config
file = record default {
  server = record default.server { graceful_shutdown = false; read_timeout = "" };
}

abbrev unmarshal : List ℕ → Option Config
unmarshal text = some file

abbrev loaded : Config
loaded = apply_env_overrides std getenv (merge_with_defaults file)

validate_iff_example : (validate std default ≡ none) ↔ IsValid std default
validate_iff_example = validate_iff std default

loads : load_from_data std getenv unmarshal (1 ∷ []) ≡ inr loaded
unfolding load_from_data validate contains merge_with_defaults apply_env_overrides
loads = refl

load-IsPort_example :
    IsPort loaded.server.api_port
    × IsPort loaded.server.xds_port
    × IsPort loaded.xds.default_listener_port
    × (loaded.xds.default_node_id ≢ "")
    × (loaded.logging.output ≢ "")
    × ((loaded.store.backend ≡ "memory") ⊎ (loaded.store.backend ≡ "kubernetes"))
load-IsPort_example = load-IsPort std getenv unmarshal (1 ∷ []) loads

load_unchecked_example :
    (getenv "FLOWC_LOG_LEVEL" ≢ ""
      → contains valid_levels (std.to_lower (getenv "FLOWC_LOG_LEVEL")) ≡ false
      → ¬ IsValid std loaded)
    × (getenv "FLOWC_READ_TIMEOUT" ≢ ""
        → std.parse_duration (getenv "FLOWC_READ_TIMEOUT") ≡ none
        → ¬ IsValid std loaded)
    × ((port : ℕ)
        → IsPort port
        → getenv "FLOWC_API_PORT" ≢ ""
        → getenv "FLOWC_XDS_PORT" ≢ ""
        → std.atoi (getenv "FLOWC_API_PORT") ≡ some port
        → std.atoi (getenv "FLOWC_XDS_PORT") ≡ some port
        → ¬ IsValid std loaded)
load_unchecked_example = load_unchecked std getenv unmarshal (1 ∷ []) loads

loud : getenv "FLOWC_LOG_LEVEL" ≢ ""
loud = ground (arith, eq_iff "loud" "")

unknown : contains valid_levels (getenv "FLOWC_LOG_LEVEL") ≡ false
unfolding contains
unknown = refl
