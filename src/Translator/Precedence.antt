-- ===== src/Translator/Precedence.antt =====
-- The order in which the resolver of resolver.go prefers settings.
use flowc.Prelude.{Option, none, some, true, is_some, ◌≡◌, refl, arith}
use flowc.Translator.Types.{StrategyConfig}
use flowc.Translator.Resolver.{
  prefer, merge, ConfigResolver, new_config_resolver, field_of, resolve_field, resolve,
}

-- The built-in settings, overlaid with the profile's, the gateway's and the API's.
abbrev pub layered : ConfigResolver → Option StrategyConfig → StrategyConfig
layered r api_config =
    merge (merge (merge r.builtin_defaults r.profile_defaults) r.gateway_defaults) api_config

module _ {A : Type 0} (field : StrategyConfig → Option A) where
  -- Merge takes the field from the upper settings, and else from the lower ones.
  abbrev Merges : Type 0
  Merges =
      (defaults : StrategyConfig) (c : Option StrategyConfig)
      → field (merge defaults c) ≡ prefer (field_of field c) (field defaults)

  resolve_field-layered :
      (r : ConfigResolver) (api_config : Option StrategyConfig)
      → Merges
      → resolve_field field r api_config ≡ field (layered r api_config)
  unfolding resolve_field
  resolve_field-layered r api_config merges = ground (
    arith,
    merges (merge (merge r.builtin_defaults r.profile_defaults) r.gateway_defaults) api_config,
    merges (merge r.builtin_defaults r.profile_defaults) r.gateway_defaults,
    merges r.builtin_defaults r.profile_defaults,
  )

  resolve_field-is_some :
      (r : ConfigResolver) (api_config : Option StrategyConfig)
      → is_some (field r.builtin_defaults) ≡ true
      → is_some (resolve_field field r api_config) ≡ true
  unfolding resolve_field
  resolve_field-is_some r api_config builtin = ground arith

deployment-Merges : Merges (λ c. c.deployment)
unfolding merge
deployment-Merges defaults none = refl
deployment-Merges defaults (some c) = refl

route_matching-Merges : Merges (λ c. c.route_matching)
unfolding merge
route_matching-Merges defaults none = refl
route_matching-Merges defaults (some c) = refl

load_balancing-Merges : Merges (λ c. c.load_balancing)
unfolding merge
load_balancing-Merges defaults none = refl
load_balancing-Merges defaults (some c) = refl

retry-Merges : Merges (λ c. c.retry)
unfolding merge
retry-Merges defaults none = refl
retry-Merges defaults (some c) = refl

rate_limit-Merges : Merges (λ c. c.rate_limit)
unfolding merge
rate_limit-Merges defaults none = refl
rate_limit-Merges defaults (some c) = refl

observability-Merges : Merges (λ c. c.observability)
unfolding merge
observability-Merges defaults none = refl
observability-Merges defaults (some c) = refl

-- Resolve is Merge from the lowest layer to the highest: for every section, the API's settings win
-- over the gateway's, those over the profile's and those over the built-in ones, also where layers
-- or sections are missing.
pub resolve-layered :
    (r : ConfigResolver) (api_config : Option StrategyConfig)
    → resolve r api_config ≡ layered r api_config
unfolding resolve
resolve-layered r api_config = λ i. record {
  deployment = (resolve_field-layered (λ c. c.deployment) r api_config deployment-Merges) i;
  route_matching =
      (resolve_field-layered (λ c. c.route_matching) r api_config route_matching-Merges) i;
  load_balancing =
      (resolve_field-layered (λ c. c.load_balancing) r api_config load_balancing-Merges) i;
  retry = (resolve_field-layered (λ c. c.retry) r api_config retry-Merges) i;
  rate_limit = (resolve_field-layered (λ c. c.rate_limit) r api_config rate_limit-Merges) i;
  observability =
      (resolve_field-layered (λ c. c.observability) r api_config observability-Merges) i;
}

-- Every section is set.
abbrev pub IsComplete : StrategyConfig → Type 0
IsComplete c =
    (is_some c.deployment ≡ true)
    × (is_some c.route_matching ≡ true)
    × (is_some c.load_balancing ≡ true)
    × (is_some c.retry ≡ true)
    × (is_some c.rate_limit ≡ true)
    × (is_some c.observability ≡ true)

-- The resolver that NewConfigResolver makes resolves every section, whatever the profile, the
-- gateway and the API leave out, so that nothing after it reads a missing section.
pub resolve-IsComplete :
    (profile gateway api_config : Option StrategyConfig)
    → IsComplete (resolve (new_config_resolver profile gateway) api_config)
unfolding resolve
resolve-IsComplete profile gateway api_config =
    let r = new_config_resolver profile gateway in
    (
      resolve_field-is_some (λ c. c.deployment) r api_config refl,
      resolve_field-is_some (λ c. c.route_matching) r api_config refl,
      resolve_field-is_some (λ c. c.load_balancing) r api_config refl,
      resolve_field-is_some (λ c. c.retry) r api_config refl,
      resolve_field-is_some (λ c. c.rate_limit) r api_config refl,
      resolve_field-is_some (λ c. c.observability) r api_config refl,
    )
