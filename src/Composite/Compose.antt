-- ===== src/Composite/Compose.antt =====
-- The rest of translateOne of dispatch/translate.go, from a deployment, its API, its gateway and its
-- listener to the xDS resources; and the parser registry of ir/parser.go. A parser, from the text of
-- a specification to the IR, is an entry of the registry.
pub mod Naming
pub mod Wired
use flowc.Prelude.{
  ℕ, String, List, [], ◌∷◌, Option, none, some, string_eq, ◌==◌, if◌then◌else◌, ◌⊎◌, inl, inr,
}
use flowc.Dict.{Dict, lookup}
use flowc.V1alpha1.Spec.{ApiSpec, Api, Deployment}
use flowc.V1alpha1.Spec
use flowc.Translator.Convert.{v1_strategy_to_types}
use flowc.Translator.Resolver.{new_config_resolver, resolve}
use flowc.Translator.Factory.{StrategySet, StrategyError, create_strategy_set}
use flowc.Translator.Paths.{normalize_base_path}
use flowc.Composite.Model.{
  GatewayVirtualHost, TranslationContext, IrApi, to_model_deployment, to_model_gateway,
  to_model_listener,
}
use flowc.Composite.Translate.{XdsResources, TranslationError, translate}

pub data ComposeError : Type 0 where
  no_parser : String → ComposeError
  parse_failed : String → ComposeError
  strategy_creation : StrategyError → ComposeError
  translation : TranslationError → ComposeError

abbrev pub Parser : Type 0
Parser = String → String ⊎ IrApi

abbrev pub ParserRegistry : Type 0
ParserRegistry = Dict String Parser

unfoldable pub get_parser : ParserRegistry → String → ComposeError ⊎ Parser
unfolding lookup
get_parser registry api_type = elim (lookup api_type registry) [
  | none ↦ inl (no_parser api_type)
  | some parser ↦ inr parser
]

-- fmt.Errorf with %w
abbrev pub failing : {E A : Type 0} → (E → ComposeError) → E ⊎ A → ComposeError ⊎ A
failing wrap (inl e) = inl (wrap e)
failing wrap (inr a) = inr a

abbrev pub and_then : {A B : Type 0} → ComposeError ⊎ A → (A → ComposeError ⊎ B) → ComposeError ⊎ B
and_then (inl e) f = inl e
and_then (inr a) f = f a

unfoldable pub parse : ParserRegistry → String → String → ComposeError ⊎ IrApi
unfolding get_parser
parse registry api_type data_ =
    and_then (get_parser registry api_type) λ parser. failing parse_failed (parser data_)

-- hostname
unfoldable pub first_hostname : Spec.Listener → String
first_hostname l = elim l.spec.hostnames [ [] ↦ "*" | h ∷ hs ↦ h ]

-- ir.APIType, REST by default
abbrev pub api_type_of : ApiSpec → String
api_type_of spec = if spec.api_type == "" then "rest" else spec.api_type

unfoldable pub parsed_api : ParserRegistry → ApiSpec → ComposeError ⊎ Option IrApi
unfolding parse normalize_base_path
parsed_api registry spec =
    if spec.spec_content == ""
    then inr none
    else and_then (parse registry (api_type_of spec) spec.spec_content)
        λ ir. inr (some (record ir { base_path = normalize_base_path spec.context }))

unfoldable pub context_of : Spec.Gateway → Spec.Listener → TranslationContext
unfolding first_hostname to_model_gateway to_model_listener
context_of gw l = record {
  gateway = to_model_gateway gw.name gw.spec gw.labels;
  listener = to_model_listener l.name l.spec;
  virtual_host = record {
    id = first_hostname l;
    listener_id = l.name;
    name = first_hostname l;
    hostname = first_hostname l;
  };
}

module _ (parse_duration : String → Option ℕ) (registry : ParserRegistry) where
  abbrev pub strategies_of : Deployment → Spec.Gateway → ComposeError ⊎ StrategySet
  strategies_of dep gw =
      let resolver = new_config_resolver none (v1_strategy_to_types gw.spec.defaults) in
      failing strategy_creation (
        create_strategy_set parse_duration
          (some (resolve resolver (v1_strategy_to_types dep.spec.strategy))))

  unfoldable pub compose :
      Deployment → Api → Spec.Gateway → Spec.Listener → ComposeError ⊎ XdsResources
  unfolding parsed_api v1_strategy_to_types create_strategy_set resolve context_of
      to_model_deployment translate
  compose dep api gw l = and_then (parsed_api registry api.spec) λ ir.
      and_then (strategies_of dep gw) λ strategies.
        failing translation (
          translate strategies (context_of gw l) (to_model_deployment dep.name api.name api.spec)
            ir)
