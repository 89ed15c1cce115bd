-- ===== src/Tests/Translator.antt =====
-- Strategy settings at concrete inputs.
use flowc.Prelude.{ℕ, String, Option, none, some, ◌≡◌, refl, inl}
use flowc.V1alpha1.Strategy
use flowc.Translator.Types.{StrategyConfig}
use flowc.Translator.Resolver.{ConfigResolver, new_config_resolver, deployment_type, resolve}
use flowc.Translator.Convert.{v1_strategy_to_types}
use flowc.Translator.Precedence.{layered, resolve-layered}
use flowc.Translator.Factory.{create_strategy_set, strategy_config_missing}
use flowc.Translator.Support.{
  succeeds, supported, create_strategy_set-succeeds, staged_deployment-refused,
}

abbrev five_seconds : String → Option ℕ
five_seconds s = some 5000000000

abbrev staged : StrategyConfig
staged = record {
  deployment = some (deployment_type "canary");
  route_matching = none;
  load_balancing = none;
  retry = none;
  rate_limit = none;
  observability = none;
}

abbrev resolver : ConfigResolver
resolver = new_config_resolver none (some staged)

resolve-layered_example : resolve resolver (some staged) ≡ layered resolver (some staged)
resolve-layered_example = resolve-layered resolver (some staged)

create_strategy_set-succeeds_example :
    succeeds (create_strategy_set five_seconds (some staged)) ≡ supported five_seconds staged
create_strategy_set-succeeds_example = create_strategy_set-succeeds five_seconds staged

abbrev canary_of : Strategy.DeploymentStrategyConfig
canary_of = record {
  type = "canary";
  canary = some (record { canary_weight = 10 });
  blue_green = none;
}

abbrev settings : Strategy.StrategyConfig
settings = record {
  deployment = some canary_of;
  route_matching = none;
  load_balancing = none;
  retry = none;
  rate_limit = none;
  observability = none;
}

staged_deployment-refused_example :
    create_strategy_set five_seconds (
      some (
        resolve
          (new_config_resolver none (v1_strategy_to_types none))
          (v1_strategy_to_types (some settings))))
    ≡ inl (strategy_config_missing "canary")
staged_deployment-refused_example =
    staged_deployment-refused five_seconds none settings canary_of "canary" refl refl refl
