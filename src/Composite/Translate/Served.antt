-- ===== src/Composite/Translate/Served.antt =====
-- generateRoutes of composite.go under the prefix strategy: what Envoy does with a request for an
-- endpoint of the API, by the routes that the translation made.
use Prim.Native.String.{◌++◌ as join}
use text.Mathlib.TextLemmas.{nil-append}
use flowc.Prelude.{
  String, List, [], ◌∷◌, Option, none, some, true, false, ◌≡◌, ◌≢◌, inl, inr, refl, sym, ap, ◌∙◌,
  subst, arith, string_eq, ◌==◌, ◌!=◌, ◌&&◌, eq_iff, eq_self, if◌then◌else◌, Any, Every,
  Option-cases, Bool-cases,
}
use flowc.Translator.Factory.{RouteMatchStrategy, StrategySet}
use flowc.Translator.Paths.{before_brace, truncate_path_params, starts_with_slash}
use flowc.Translator.Paths.Templates.{IsTemplate, Instance, pieces, truncate_path_params-StartsWith}
use flowc.Translator.Paths.Joined.{truncate_path_params-join, truncate_path_params-ne}
use flowc.Composite.Messages.{VirtualHost, RouteConfiguration}
use flowc.Composite.Model.{ApiDeployment, TranslationContext, Endpoint, IrApi}
use flowc.Composite.Strategies.{create_matcher}
use flowc.Composite.Translate.{
  XdsResources, route_config, endpoint_route, endpoint_routes, get_base_path, translate,
}
use flowc.Composite.Translate.Closed.{translated}
use flowc.Composite.Translate.Matching.{
  strip, strip-join, strip-below, strip_sound, rewritten, taken, forwarded,
  forwarded-configure_retry,
}
use flowc.Composite.Translate.Routed.{Primary-holds, generate_routes-endpoints}

abbrev rewrite_of : String → Endpoint → String
rewrite_of base e = if base != "" && base != "/" then truncate_path_params e.pattern else ""

-- The route of an endpoint whose pattern starts with a slash.
module _ (base cluster : String) (e : Endpoint) (q : String) (plain : before_brace base ≡ none)
    (below : (base == "/") ≡ false) (slash : starts_with_slash e.pattern ≡ true) where
  -- Whatever the route takes, it sends on without the base path.
  sent-upstream :
      (rest : String)
      → q ≡ join (truncate_path_params e.pattern) rest
      → rewritten (rewrite_of base e) (join base q) rest ≡ q
  sent-upstream rest there = elim (Bool-cases (base == "")) [
    | inl empty ↦
        let nothing : base ≡ "" = ground (arith, eq_iff base "") in rw nothing (nil-append q)
    | inr other ↦
        let kept : (truncate_path_params e.pattern == "") ≡ false = ground (
          arith,
          eq_iff (truncate_path_params e.pattern) "",
          truncate_path_params-ne e.pattern slash,
        ) in
        rw (other, below, kept) (sym there)
  ]

  -- The prefix of the route is the base path and the start of the pattern.
  stripped :
      strip (truncate_path_params (join base e.pattern)) (join base q)
      ≡ strip (truncate_path_params e.pattern) q
  stripped =
      ap (λ p. strip p (join base q)) (truncate_path_params-join base e.pattern plain slash)
      ∙ strip-below base (truncate_path_params e.pattern) q

  taken-upstream :
      (later : Option String) (rest : String)
      → strip (truncate_path_params e.pattern) q ≡ some rest
      → taken (truncate_path_params (join base e.pattern)) (rewrite_of base e) (join base q) later
        ≡ some q
  taken-upstream later rest found =
      rw (stripped ∙ found, taken)
        (ap some (sent-upstream rest (strip_sound (truncate_path_params e.pattern) q rest found)))

  taken-later :
      (later : Option String)
      → later ≡ some q
      → taken (truncate_path_params (join base e.pattern)) (rewrite_of base e) (join base q) later
        ≡ some q
  taken-later later h = elim (Option-cases (strip (truncate_path_params e.pattern) q)) [
    | inl missed ↦ rw (stripped ∙ missed, taken) h
    | inr (rest, found) ↦ taken-upstream later rest found
  ]

-- A request that the API answers: the path of one of its endpoints, for the endpoint's method.
abbrev pub Answers : String → String → Endpoint → Type 0
Answers method q e =
    (method ≡ e.method) × IsTemplate false e.pattern × Instance (pieces false e.pattern) q

-- The pattern of the endpoint starts with a slash.
abbrev pub IsRooted : Endpoint → Type 0
IsRooted e = starts_with_slash e.pattern ≡ true

module _ (base cluster method q : String) (plain : before_brace base ≡ none)
    (below : (base == "/") ≡ false) where
  endpoint_routes-forwarded :
      (es : List Endpoint)
      → Every IsRooted es
      → Any (Answers method q) es
      → forwarded method
          (join base q)
          (endpoint_routes (RouteMatchStrategy.prefix true) base cluster es)
        ≡ some q
  unfolding endpoint_routes endpoint_route create_matcher forwarded
  endpoint_routes-forwarded [] roots h = elim h [ ]
  endpoint_routes-forwarded (e ∷ es) (root, roots) (inl (same, template, asked)) =
      let (rest, there) = truncate_path_params-StartsWith e.pattern q root template asked in
      let found : strip (truncate_path_params e.pattern) q ≡ some rest =
        ap (strip (truncate_path_params e.pattern)) there
        ∙ strip-join (truncate_path_params e.pattern) rest in
      rw (same, eq_self e.method) (taken-upstream base cluster e q plain below root _ rest found)
  endpoint_routes-forwarded (e ∷ es) (root, roots) (inr hs) =
      let later = endpoint_routes-forwarded es roots hs in
      elim (Bool-cases (e.method == method)) [
        | inl same ↦ rw same (taken-later base cluster e q plain below root _ later)
        | inr other ↦ rw other later
      ]

-- The routes are one configuration with one virtual host, and by Envoy's first match in it the request
-- is forwarded with the path.
abbrev pub Serves : String → String → String → List RouteConfiguration → Type 0
Serves method path upstream routes =
    (c : RouteConfiguration) × (h : VirtualHost) × (routes ≡ c ∷ [])
    × (c.virtual_hosts ≡ h ∷ [])
    × (forwarded method path h.routes ≡ some upstream)

-- Under the case-sensitive prefix strategy, if a translation succeeds, the first of its routes that
-- matches a request for an endpoint of the API, made below the base path, forwards it with the
-- request's path without the base path, whatever the parameters are. That holds if the base path is
-- not "/" and has no brace, every pattern of the API starts with "/", and the pattern of the requested
-- endpoint has no closing brace outside its braces and closes them.
pub translate-Forwards :
    (s : StrategySet) (ctx : TranslationContext) (d : ApiDeployment) (ir : IrApi) (r : XdsResources)
    (method q : String)
    → s.route_match ≡ RouteMatchStrategy.prefix true
    → translate s ctx d (some ir) ≡ inr r
    → before_brace (get_base_path d ir) ≡ none
    → (get_base_path d ir == "/") ≡ false
    → Every IsRooted ir.endpoints
    → Any (Answers method q) ir.endpoints
    → Serves method (join (get_base_path d ir) q) q r.routes
unfolding route_config
translate-Forwards s ctx d ir r method q by_prefix done plain below roots asked =
    let (name, names, e, there) = Primary-holds s.deployment d in
    let base = get_base_path d ir in
    let some_ : ir.endpoints ≢ [] = λ gone. elim (subst (Any (Answers method q)) gone asked) [ ] in
    let found = generate_routes-endpoints s ctx d ir name names e some_ in
    let routes = endpoint_routes s.route_match base name ir.endpoints in
    let served : forwarded method (join base q) routes ≡ some q =
      subst
        (λ m. forwarded method (join base q) (endpoint_routes m base name ir.endpoints) ≡ some q)
        (sym by_prefix)
        (endpoint_routes-forwarded base name method q plain below ir.endpoints roots asked) in
    rw (translated s ctx d (some ir) r _ done found)
      (_, _, refl, refl, forwarded-configure_retry s.retry method (join base q) routes ∙ served)
