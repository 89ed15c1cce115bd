-- ===== src/Composite/Translate/Matching.antt =====
-- How Envoy serves a request by the routes of a virtual host, as far as composite.go's prefix strategy
-- uses it: the first route that matches is taken, and its prefix rewrite replaces the matched prefix.
use Prim.Native.Char.{code}
use Prim.Native.String.{◌++◌ as join}
use text.Mathlib.TextEquality.{Char-path}
use text.Mathlib.TextLemmas.{nil-append, cons-append}
use flowc.Prelude.{
  String, List, [], ◌∷◌, map, Option, none, some, Bool, true, ◌≡◌, refl, sym, ap, ◌∙◌, arith,
  string_eq, nat_eq, ◌==◌, if◌then◌else◌, eq_self, nat_beq_iff, Bool-cases, Option-cases, inl, inr,
}
use flowc.Translator.Factory.{RetryStrategy}
use flowc.Composite.Messages.{PathSpecifier, HeaderMatcher, RegexRewrite, Route}
use flowc.Composite.Strategies.{configure_retry, retry_policy_of}

-- What is left of a text behind a prefix.
unfoldable pub strip : String → String → Option String
strip String.[] s = some s
strip (String.◌∷◌ c p) String.[] = none
strip (String.◌∷◌ c p) (String.◌∷◌ d s) =
    let rest = strip p s in if code c == code d then rest else none

pub strip-join : (p rest : String) → strip p (join p rest) ≡ some rest
unfolding strip
strip-join String.[] rest = ap some (nil-append rest)
strip-join (String.◌∷◌ c p) rest =
    ap (strip (String.◌∷◌ c p)) (cons-append c p rest) ∙ rw (eq_self (code c)) (strip-join p rest)

pub strip-below : (a p s : String) → strip (join a p) (join a s) ≡ strip p s
unfolding strip
strip-below String.[] p s = rw (nil-append p, nil-append s) refl
strip-below (String.◌∷◌ c a) p s =
    rw (cons-append c a p, cons-append c a s) (rw (eq_self (code c)) (strip-below a p s))

pub strip_sound : (p s rest : String) → strip p s ≡ some rest → s ≡ join p rest
unfolding strip
strip_sound String.[] s rest h = let same : s ≡ rest = ground arith in same ∙ sym (nil-append rest)
strip_sound (String.◌∷◌ c p) String.[] rest h = absurd (ground arith)
strip_sound (String.◌∷◌ c p) (String.◌∷◌ d s) rest h = elim (Bool-cases (code c == code d)) [
  | inr other ↦ absurd (ground (arith, other))
  | inl same ↦
      let behind = strip_sound p s rest (ground (arith, same)) in
      ap (λ e. String.◌∷◌ e s) (sym (Char-path c d ((nat_beq_iff (code c) (code d)).0 same)))
      ∙ ap (String.◌∷◌ c) behind
      ∙ sym (cons-append c p rest)
]

-- The path with its prefix replaced, when the rewrite is set.
abbrev pub rewritten : String → String → String → String
rewritten prefix_rewrite path rest = if prefix_rewrite == "" then path else join prefix_rewrite rest

-- One route with a prefix, a case-sensitive match, one exact header matcher on the method and no
-- regular expression rewrite: taken, or passed on to the routes after it.
abbrev pub taken : String → String → String → Option String → Option String
taken prefix rewrite path later = elim (strip prefix path) [
  | none ↦ later
  | some rest ↦ some (rewritten rewrite path rest)
]

-- A route of any other form is not followed: the answer is none.
abbrev pub on_headers :
    List HeaderMatcher → String → String → String → String → Option String → Option String
on_headers [] prefix rewrite method path later = none
on_headers (h ∷ []) prefix rewrite method path later =
    if h.name == ":method"
    then (if h.exact == method then taken prefix rewrite path later else later)
    else none
on_headers (h ∷ i ∷ hs) prefix rewrite method path later = none

abbrev pub on_specifier :
    PathSpecifier
    → Option Bool
    → Option RegexRewrite
    → List HeaderMatcher
    → String
    → String
    → String
    → Option String
    → Option String
on_specifier (PathSpecifier.prefix p) (some true) none headers rewrite method path later =
    on_headers headers p rewrite method path later
on_specifier _ _ _ headers rewrite method path later = none

-- The path that the upstream gets for a request of the method and the path.
unfoldable pub forwarded : String → String → List Route → Option String
forwarded method path [] = none
forwarded method path (r ∷ rs) =
    let later = forwarded method path rs in
    on_specifier r.route_match.path_specifier r.route_match.case_sensitive r.action.regex_rewrite
      r.route_match.headers r.action.prefix_rewrite method path later

-- The retry strategy changes nothing of that.
pub forwarded-configure_retry :
    (s : RetryStrategy) (method path : String) (rs : List Route)
    → forwarded method path (map (configure_retry s) rs) ≡ forwarded method path rs
unfolding forwarded configure_retry
forwarded-configure_retry s method path [] = refl
forwarded-configure_retry s method path (r ∷ rs) = elim (Option-cases (retry_policy_of s)) [
  | inl nothing ↦
      rw (nothing, configure_retry)
        (ap
          (on_specifier r.route_match.path_specifier r.route_match.case_sensitive
            r.action.regex_rewrite r.route_match.headers r.action.prefix_rewrite method path)
          (forwarded-configure_retry s method path rs))
  | inr (p, made) ↦
      rw (made, configure_retry)
        (ap
          (on_specifier r.route_match.path_specifier r.route_match.case_sensitive
            r.action.regex_rewrite r.route_match.headers r.action.prefix_rewrite method path)
          (forwarded-configure_retry s method path rs))
]
