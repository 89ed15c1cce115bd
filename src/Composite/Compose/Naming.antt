-- ===== src/Composite/Compose/Naming.antt =====
-- What translateOne of dispatch/translate.go makes for a listener, and the names that the gateway
-- translator looks for.
use flowc.Prelude.{
  String, List, [], ◌∷◌, Option, ◌≡◌, refl, inl, inr, ◌⊎◌, ℕ, arith, true, contains, eq_self,
  string_eq,
}
use flowc.V1alpha1.Spec.{Api, Deployment}
use flowc.V1alpha1.Spec
use flowc.Dispatch.Gateway.{hostnames_of, route_name}
use flowc.Translator.Factory.{StrategySet}
use flowc.Composite.Messages.{RouteConfiguration}
use flowc.Composite.Model.{IrApi, to_model_listener, to_model_deployment}
use flowc.Composite.Translate.{XdsResources, get_route_config_name, translate}
use flowc.Composite.Translate.Closed.{translate-single}
use flowc.Composite.Compose.{
  ComposeError, translation, ParserRegistry, failing, and_then, strategies_of, first_hostname,
  context_of, parsed_api, compose,
}

failing-inr :
    {E A : Type 0} (wrap : E → ComposeError) (o : E ⊎ A) (a : A)
    → failing wrap o ≡ inr a
    → o ≡ inr a
failing-inr wrap (inl e) a h = absurd (ground arith)
failing-inr wrap (inr b) a h = ground arith

and_then-inr :
    {A B : Type 0} (o : ComposeError ⊎ A) (f : A → ComposeError ⊎ B) (b : B)
    → and_then o f ≡ inr b
    → (a : A) × (o ≡ inr a) × (f a ≡ inr b)
and_then-inr (inl e) f b h = absurd (ground arith)
and_then-inr (inr a) f b h = (a, refl, h)

first-contained :
    (names : List String)
    → contains {A = String}
        (elim names [ [] ↦ "*" ∷ [] | h ∷ hs ↦ h ∷ hs ])
        (elim names [ [] ↦ "*" | h ∷ hs ↦ h ])
      ≡ true
unfolding contains
first-contained [] = refl
first-contained (h ∷ hs) = ground (arith, eq_self h)

first_hostname-hostnames_of :
    (l : Spec.Listener) → contains (hostnames_of l) (first_hostname l) ≡ true
unfolding first_hostname
first_hostname-hostnames_of l = first-contained l.spec.hostnames

module _ (parse_duration : String → Option ℕ) (registry : ParserRegistry) where
  -- What was translated.
  pub compose-translated :
      (dep : Deployment) (api : Api) (gw : Spec.Gateway) (l : Spec.Listener) (r : XdsResources)
      → compose parse_duration registry dep api gw l ≡ inr r
      → (ir : Option IrApi) × (s : StrategySet) × (parsed_api registry api.spec ≡ inr ir)
        × (translate s (context_of gw l) (to_model_deployment dep.name api.name api.spec) ir
            ≡ inr r)
  unfolding compose
  compose-translated dep api gw l r done =
      let (ir, parsed, next) = and_then-inr _ _ r done in
      let d = to_model_deployment dep.name api.name api.spec in
      let (s, made, last) =
        and_then-inr (strategies_of parse_duration registry dep gw)
          (λ s. failing translation (translate s (context_of gw l) d ir)) r next in
      (ir, s, parsed, failing-inr translation _ r last)

  -- A translation for a listener makes one route configuration. Its name is the one that the filter
  -- chain of the listener's first hostname refers to, whatever the deployment and its API are.
  pub compose-route_name :
      (dep : Deployment) (api : Api) (gw : Spec.Gateway) (l : Spec.Listener) (r : XdsResources)
      → compose parse_duration registry dep api gw l ≡ inr r
      → (c : RouteConfiguration) × (r.routes ≡ c ∷ [])
        × (c.name ≡ route_name l (first_hostname l))
        × (contains (hostnames_of l) (first_hostname l) ≡ true)
  unfolding get_route_config_name context_of to_model_listener
  compose-route_name dep api gw l r done =
      let (ir, s, parsed, translated) = compose-translated dep api gw l r done in
      let (c, only, name) =
        translate-single s (context_of gw l) (to_model_deployment dep.name api.name api.spec) ir r
          translated in
      (c, only, name, first_hostname-hostnames_of l)
