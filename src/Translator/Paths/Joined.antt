-- ===== src/Translator/Paths/Joined.antt =====
-- TruncatePathParams of strategy_routematch.go on a base path in front of a template.
use mathlib.Core.Option
use Prim.Native.Char.{code}
use Prim.Native.String.{◌++◌ as join}
use text.Mathlib.TextLemmas.{cons≢nil, cons-append, nil-append}
use flowc.Prelude.{
  String, Option, none, some, true, false, ◌≡◌, ◌≢◌, inl, inr, refl, sym, ap, ◌∙◌, arith, string_eq,
  nat_eq, ◌==◌, eq_iff, Option-cases,
}
use flowc.Translator.Paths.{before_brace, truncate_path_params, starts_with_slash}
use flowc.Translator.Paths.Templates.{start-ne}

truncate_none : (path : String) → before_brace path ≡ none → truncate_path_params path ≡ path
unfolding truncate_path_params
truncate_none path gone = rw (gone, truncate_path_params) refl

truncate_some :
    (path p : String) → before_brace path ≡ some p → p ≢ "" → truncate_path_params path ≡ p
unfolding truncate_path_params
truncate_some path p found more =
    let test : (p == "") ≡ false = ground (arith, eq_iff p "", more) in
    rw (found, test, truncate_path_params) refl

-- A first part without a brace is in front of what is cut.
before_brace-join :
    (a b : String)
    → before_brace a ≡ none
    → before_brace (join a b) ≡ Option.map (join a) (before_brace b)
unfolding before_brace
before_brace-join String.[] b h = elim (Option-cases (before_brace b)) [
  | inl gone ↦ rw (nil-append b, gone) refl
  | inr (p, found) ↦ rw (nil-append b, found) (ap some (sym (nil-append p)))
]
before_brace-join (String.◌∷◌ c a) b h = elim (Option-cases (before_brace a)) [
  | inr (q, found) ↦ absurd (ground arith)
  | inl gone ↦
      let other : (code c == b'{') ≡ false = ground arith in
      rw (cons-append c a b, other, before_brace-join a b gone) (moved (before_brace b))
]
  where
    moved :
        (o : Option String)
        → Option.map (String.◌∷◌ c) (Option.map (join a) o) ≡ Option.map (join (String.◌∷◌ c a)) o
    moved none = refl
    moved (some p) = ap some (sym (cons-append c a p))

join-ne : (a b : String) → b ≢ "" → join a b ≢ ""
join-ne String.[] b h e = h (sym (nil-append b) ∙ e)
join-ne (String.◌∷◌ c a) b h e = cons≢nil (sym (cons-append c a b) ∙ e)

pub truncate_path_params-join :
    (a b : String)
    → before_brace a ≡ none
    → starts_with_slash b ≡ true
    → truncate_path_params (join a b) ≡ join a (truncate_path_params b)
truncate_path_params-join a b h slash = elim (Option-cases (before_brace b)) [
  | inl gone ↦
      let none_left = before_brace-join a b h ∙ ap (Option.map (join a)) gone in
      truncate_none (join a b) none_left ∙ ap (join a) (sym (truncate_none b gone))
  | inr (p, found) ↦
      let more = start-ne b p slash found in
      let there = before_brace-join a b h ∙ ap (Option.map (join a)) found in
      truncate_some (join a b) (join a p) there (join-ne a p more)
      ∙ ap (join a) (sym (truncate_some b p found more))
]

pub truncate_path_params-ne :
    (b : String) → starts_with_slash b ≡ true → truncate_path_params b ≢ ""
unfolding starts_with_slash
truncate_path_params-ne String.[] slash e = cc
truncate_path_params-ne (String.◌∷◌ c b) slash e =
    elim (Option-cases (before_brace (String.◌∷◌ c b))) [
      | inl gone ↦ cons≢nil (sym (truncate_none (String.◌∷◌ c b) gone) ∙ e)
      | inr (p, found) ↦
          let more = start-ne (String.◌∷◌ c b) p slash found in
          more (sym (truncate_some (String.◌∷◌ c b) p found more) ∙ e)
    ]
