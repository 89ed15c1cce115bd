-- ===== src/Translator/Support.antt =====
-- Which settings the StrategyFactory of resolver.go accepts, and what that means for the settings that
-- translate.go hands it.
use flowc.Prelude.{
  ℕ, String, List, [], ◌∷◌, Option, none, some, Bool, true, false, ◌&&◌, ◌||◌, ◌≡◌, ◌∙◌, sym, refl,
  arith, string_eq, ◌==◌, if◌then◌else◌, is_some, inl, inr, eq_iff, Option-cases, Bool-cases,
}
use flowc.V1alpha1.Strategy
use flowc.Translator.Types.{
  CanaryConfig, BlueGreenConfig, DeploymentStrategyConfig, RouteMatchStrategyConfig,
  LoadBalancingStrategyConfig, RetryStrategyConfig, StrategyConfig,
}
use flowc.Translator.Resolver.{new_config_resolver, resolve_field, resolve}
use flowc.Translator.Convert.{v1_strategy_to_types}
use flowc.Translator.Factory.{
  strategy_config_missing, invalid_strategy_type, basic, Made, and_then, make_canary,
  make_blue_green, create_deployment_strategy, create_route_match_strategy,
  create_load_balancing_strategy, make_custom, create_retry_strategy, create_strategy_set,
}

abbrev pub succeeds : {A : Type 0} → Made A → Bool
succeeds (inl e) = false
succeeds (inr a) = true

abbrev pub one_of : String → List String → Bool
one_of s [] = false
one_of s (t ∷ ts) = s == t || one_of s ts

-- A switch: the first case, or the rest.
succeeds-if :
    {A : Type 0} (b : Bool) (a : A) (rest : Made A) (c : Bool)
    → succeeds rest ≡ c
    → succeeds (if b then inr a else rest) ≡ (b || c)
succeeds-if true a rest c h = refl
succeeds-if false a rest c h = h

canary_or_blue_green : (s : String) → (s == "canary" && s == "blue-green") ≡ false
canary_or_blue_green s = elim (Bool-cases (s == "canary")) [
  | inl same ↦ rw ((eq_iff s "canary").0 same) refl
  | inr other ↦ rw other refl
]

or_assoc : (a b c : Bool) → ((a || b) || c) ≡ (a || (b || c))
or_assoc a b c = ground arith

make_canary-succeeds : (o : Option CanaryConfig) → succeeds (make_canary o) ≡ is_some o
unfolding make_canary
make_canary-succeeds none = refl
make_canary-succeeds (some c) = refl

make_blue_green-succeeds : (o : Option BlueGreenConfig) → succeeds (make_blue_green o) ≡ is_some o
unfolding make_blue_green
make_blue_green-succeeds none = refl
make_blue_green-succeeds (some c) = refl

succeeds_branch :
    {A : Type 0} (b : Bool) (m n : Made A)
    → succeeds (if b then m else n) ≡ (if b then succeeds m else succeeds n)
succeeds_branch true m n = refl
succeeds_branch false m n = refl

-- The settings that have a strategy; a missing section has the default one.
abbrev pub deployment_supported : Option DeploymentStrategyConfig → Bool
deployment_supported none = true
deployment_supported (some c) =
    one_of c.type ("" ∷ "basic" ∷ [])
    || (c.type == "canary" && is_some c.canary)
    || (c.type == "blue-green" && is_some c.blue_green)

abbrev pub route_match_supported : Option RouteMatchStrategyConfig → Bool
route_match_supported none = true
route_match_supported (some c) =
    one_of c.type ("prefix" ∷ "" ∷ "exact" ∷ "regex" ∷ "header-versioned" ∷ [])

abbrev pub load_balancing_supported : Option LoadBalancingStrategyConfig → Bool
load_balancing_supported none = true
load_balancing_supported (some c) =
    one_of c.type
      ("round-robin" ∷ "" ∷ "least-request" ∷ "random" ∷ "consistent-hash" ∷ "locality-aware" ∷ [])

module _ (parse_duration : String → Option ℕ) where
  -- Custom retries want a timeout that is a duration; an empty one is five seconds.
  abbrev pub retry_supported : Option RetryStrategyConfig → Bool
  retry_supported none = true
  retry_supported (some c) =
      one_of c.type ("none" ∷ "conservative" ∷ "" ∷ "aggressive" ∷ [])
      || (c.type == "custom"
          && is_some (parse_duration (if c.per_try_timeout == "" then "5s" else c.per_try_timeout)))

  abbrev pub supported : StrategyConfig → Bool
  supported c =
      deployment_supported c.deployment
      && (route_match_supported c.route_matching
          && (load_balancing_supported c.load_balancing && retry_supported c.retry))

  deployment-succeeds :
      (o : Option DeploymentStrategyConfig)
      → succeeds (create_deployment_strategy o) ≡ deployment_supported o
  unfolding create_deployment_strategy make_canary make_blue_green
  deployment-succeeds none = refl
  deployment-succeeds (some c) =
      let other =
        if c.type == "blue-green"
        then make_blue_green c.blue_green
        else inl (invalid_strategy_type "deployment" c.type) in
      let more = if c.type == "canary" then make_canary c.canary else other in
      ground (
        arith,
        succeeds_branch (c.type == "basic" || c.type == "") (inr basic) more,
        succeeds_branch (c.type == "canary") (make_canary c.canary) other,
        succeeds_branch (c.type == "blue-green") (make_blue_green c.blue_green)
            (inl (invalid_strategy_type "deployment" c.type)),
        make_canary-succeeds c.canary,
        make_blue_green-succeeds c.blue_green,
        canary_or_blue_green c.type,
      )

  route_match-succeeds :
      (o : Option RouteMatchStrategyConfig)
      → succeeds (create_route_match_strategy o) ≡ route_match_supported o
  unfolding create_route_match_strategy
  route_match-succeeds none = refl
  route_match-succeeds (some c) =
      succeeds-if (c.type == "prefix" || c.type == "") _ _ _ (
        succeeds-if (c.type == "exact") _ _ _ (
          succeeds-if (c.type == "regex") _ _ _
            (succeeds-if (c.type == "header-versioned") _ _ false refl)))
      ∙ or_assoc (c.type == "prefix") (c.type == "") _

  load_balancing-succeeds :
      (o : Option LoadBalancingStrategyConfig)
      → succeeds (create_load_balancing_strategy o) ≡ load_balancing_supported o
  unfolding create_load_balancing_strategy
  load_balancing-succeeds none = refl
  load_balancing-succeeds (some c) =
      succeeds-if (c.type == "round-robin" || c.type == "") _ _ _ (
        succeeds-if (c.type == "least-request") _ _ _ (
          succeeds-if (c.type == "random") _ _ _ (
            succeeds-if (c.type == "consistent-hash") _ _ _
              (succeeds-if (c.type == "locality-aware") _ _ false refl))))
      ∙ or_assoc (c.type == "round-robin") (c.type == "") _

  make_custom-succeeds :
      (c : RetryStrategyConfig)
      → succeeds (make_custom parse_duration c)
        ≡ is_some (parse_duration (if c.per_try_timeout == "" then "5s" else c.per_try_timeout))
  unfolding make_custom
  make_custom-succeeds c =
      elim (Option-cases
        (parse_duration (if c.per_try_timeout == "" then "5s" else c.per_try_timeout))) [
          | inl bad ↦ rw (bad, make_custom) refl
          | inr (t, good) ↦ rw (good, make_custom) refl
        ]

  custom_shuffle :
      (n c e a cu : Bool) {s ok : Bool}
      → s ≡ ok
      → (n || ((c || e) || (a || (if cu then s else false))))
        ≡ ((n || (c || (e || (a || false)))) || (cu && ok))
  custom_shuffle n c e a cu h = ground (arith, h)

  retry-succeeds :
      (o : Option RetryStrategyConfig)
      → succeeds (create_retry_strategy parse_duration o) ≡ retry_supported o
  unfolding create_retry_strategy
  retry-succeeds none = refl
  retry-succeeds (some c) =
      succeeds-if (c.type == "none") _ _ _ (
        succeeds-if (c.type == "conservative" || c.type == "") _ _ _ (
          succeeds-if (c.type == "aggressive") _ _ _
            (succeeds_branch (c.type == "custom") (make_custom parse_duration c) _)))
      ∙ custom_shuffle (c.type == "none") (c.type == "conservative") (c.type == "")
          (c.type == "aggressive") (c.type == "custom") (make_custom-succeeds c)

  and_then-succeeds :
      {A B : Type 0} (m : Made A) (f : A → Made B) (first rest : Bool)
      → succeeds m ≡ first
      → ((a : A) → succeeds (f a) ≡ rest)
      → succeeds (and_then m f) ≡ (first && rest)
  and_then-succeeds (inl e) f first rest h k = rw (sym h) refl
  and_then-succeeds (inr a) f first rest h k = rw (sym h) (k a)

  and_then_last-succeeds :
      {A B : Type 0} (m : Made A) (f : A → Made B) (first : Bool)
      → succeeds m ≡ first
      → ((a : A) → succeeds (f a) ≡ true)
      → succeeds (and_then m f) ≡ first
  and_then_last-succeeds (inl e) f first h k = h
  and_then_last-succeeds (inr a) f first h k = k a ∙ h

  -- The factory makes a strategy set exactly of the supported settings: known types, with a canary
  -- or blue-green section where the type wants one, and with a timeout that parses for custom
  -- retries.
  pub create_strategy_set-succeeds :
      (c : StrategyConfig) → succeeds (create_strategy_set parse_duration (some c)) ≡ supported c
  unfolding create_strategy_set
  create_strategy_set-succeeds c =
      and_then-succeeds (create_deployment_strategy c.deployment) _ _ _
        (deployment-succeeds c.deployment)
        λ _.
          and_then-succeeds (create_route_match_strategy c.route_matching) _ _ _
            (route_match-succeeds c.route_matching)
            λ _.
              and_then-succeeds (create_load_balancing_strategy c.load_balancing) _ _ _
                (load_balancing-succeeds c.load_balancing)
                λ _.
                  and_then_last-succeeds (create_retry_strategy parse_duration c.retry) _ _
                    (retry-succeeds c.retry) λ _. refl

  -- A Deployment of the CRD whose strategy is of type "canary" or "blue-green" is refused with the
  -- error of a missing section, whatever the section says and whatever the gateway's defaults are:
  -- v1StrategyToTypes takes over the type alone.
  pub staged_deployment-refused :
      (defaults : Option Strategy.StrategyConfig) (cfg : Strategy.StrategyConfig)
      (dc : Strategy.DeploymentStrategyConfig) (type : String)
      → one_of type ("canary" ∷ "blue-green" ∷ []) ≡ true
      → dc.type ≡ type
      → cfg.deployment ≡ some dc
      → create_strategy_set parse_duration (
          some (
            resolve
              (new_config_resolver none (v1_strategy_to_types defaults))
              (v1_strategy_to_types (some cfg))))
        ≡ inl (strategy_config_missing type)
  unfolding create_strategy_set create_deployment_strategy resolve resolve_field
      v1_strategy_to_types make_canary make_blue_green
  staged_deployment-refused defaults cfg dc type staged is there =
      rw (there, resolve_field)
        (rw (is) (elim (Bool-cases (type == "canary")) [
          | inl canary_ ↦ rw ((eq_iff type "canary").0 canary_) refl
          | inr other ↦
              let blue_green_ : type == "blue-green" ≡ true = ground (arith, staged, other) in
              rw ((eq_iff type "blue-green").0 blue_green_) refl
        ]))
