-- ===== src/Tests/Composite.antt =====
-- The composite translator at concrete inputs.
use mathlib.Core.Option
use Prim.Native.String.{◌++◌ as join}
use flowc.Prelude.{
  ℕ, ◌≡◌, refl, string_eq, ◌==◌, [], ◌∷◌, map, Option, none, some, true, false, String, inl, inr,
  Every, ◌⊎◌,
}
use flowc.V1alpha1.Spec.{Api, Gateway, zero_api}
use flowc.Index.State.{Indexer}
use flowc.Dict
use flowc.Cache.Manager
use flowc.Translator.Factory.{
  basic, LoadBalancingStrategy, RouteMatchStrategy, RetryStrategy, StrategySet, no_rate_limit,
  no_observability,
}
use flowc.Translator.Paths.{before_brace, starts_with_slash}
use flowc.Composite.Messages.{Cluster, RouteConfiguration}
use flowc.Composite.Model.{ApiDeployment, TranslationContext, IrApi, to_model_deployment}
use flowc.Composite.Strategies.{validate}
use flowc.Composite.Translate.{XdsResources, validation_failed, translate, get_base_path}
use flowc.Composite.Translate.Closed.{
  Closed, error_of, translate_iff, translate-error, translate-Closed,
}
use flowc.Composite.Translate.Served.{Serves, translate-Forwards}
use flowc.Composite.Compose.{ComposeError, ParserRegistry, context_of, compose}
use flowc.Tests.Cache.{plane, Body}
use flowc.Tests.Deployment.{edge, web, dep, listening}
use flowc.Tests.Paths.{template, template-IsTemplate, template-Instance, template-slash}

abbrev strategies : StrategySet
strategies = record {
  deployment = basic;
  route_match = RouteMatchStrategy.prefix true;
  load_balancing = LoadBalancingStrategy.least_request 2;
  retry = RetryStrategy.aggressive;
  rate_limit = no_rate_limit;
  observability = no_observability;
}

abbrev pets : Api
pets = record {
  name = "pets";
  labels = [];
  annotations = [];
  spec = record zero_api {
    version = "v1";
    context = "pets/";
    upstream = record { host = "h"; port = 80; scheme = ""; timeout = "" };
  };
}

abbrev given : ApiDeployment
given = to_model_deployment "one" "pets" pets.spec

abbrev context : TranslationContext
context = context_of edge web

abbrev users : IrApi
users = record {
  base_path = "/pets";
  endpoints =
      record { pattern = "/u/new"; method = "GET" }
      ∷ record { pattern = template; method = "GET" }
      ∷ [];
}

valid : validate basic given ≡ none
unfolding validate to_model_deployment
valid = refl

abbrev result : XdsResources
result = ((translate_iff strategies context given (some users)).1 valid).0

made : translate strategies context given (some users) ≡ inr result
made = ((translate_iff strategies context given (some users)).1 valid).1

translate-error_example :
    error_of (translate strategies context given none)
    ≡ Option.map validation_failed (validate basic given)
translate-error_example = translate-error strategies context given none

translate-Closed_example : Every (Closed strategies context given result) result.routes
translate-Closed_example = translate-Closed strategies context given (some users) result made

plain : before_brace (get_base_path given users) ≡ none
unfolding get_base_path before_brace
plain = refl

below : (get_base_path given users == "/") ≡ false
unfolding get_base_path
below = refl

new-slash : starts_with_slash "/u/new" ≡ true
unfolding starts_with_slash
new-slash = refl

translate-Forwards_example :
    Serves "GET" (join (get_base_path given users) "/u/7") "/u/7" result.routes
translate-Forwards_example =
    translate-Forwards strategies context given users result "GET" "/u/7" refl made plain below
      (new-slash, (template-slash, tt)) (inr (inl (refl, template-IsTemplate, template-Instance)))

abbrev five_seconds : String → Option ℕ
five_seconds s = some 5000000000

abbrev no_parsers : ParserRegistry
no_parsers = []

abbrev composed : ComposeError ⊎ XdsResources
composed = compose five_seconds no_parsers dep pets edge web

abbrev resources : XdsResources
resources = elim composed [ inl e ↦ record { clusters = []; routes = [] } | inr r ↦ r ]

-- The gateway and the API beside the listener.
abbrev stored : Indexer
stored = record listening { gateways = ("edge", edge) ∷ []; apis = ("pets", pets) ∷ [] }

abbrev described : ComposeError → String
described e = "refused"

abbrev cluster_body : Cluster → Body
cluster_body c = record { name = c.name; body = "" }

abbrev route_body : RouteConfiguration → Body
route_body c = record { name = c.name; body = "" }

abbrev published : Manager.ApiDeployment plane
published = record {
  clusters = map cluster_body resources.clusters;
  endpoints = [];
  routes = map route_body resources.routes;
}
