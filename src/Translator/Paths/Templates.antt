-- ===== src/Translator/Paths/Templates.antt =====
-- OpenAPI path templates, told apart from the code that treats them: what a template consists of,
-- which paths are instances of it, and the prefix that TruncatePathParams cuts out of it.
use Prim.Native.Char.{Char, code}
use Prim.Native.String.{◌++◌ as join}
use text.Mathlib.TextLemmas.{cons≢nil, cons-append, nil-append, append-nil}
use flowc.Prelude.{
  String, List, [], ◌∷◌, none, some, Bool, true, false, ◌≡◌, ◌≢◌, refl, sym, ap, ◌∙◌, subst, arith,
  eq_iff, string_eq, nat_eq, ◌==◌, if◌then◌else◌, Bool-cases, Option-cases, inl, inr,
}
use flowc.Translator.Paths.{before_brace, truncate_path_params, next_in_param, starts_with_slash}

-- A character that stands for itself, or a parameter.
pub data Piece : Type 0 where
  lit : Char → Piece
  param : Piece

-- Outside of its braces a template has no closing brace.
abbrev pub IsTemplate : Bool → String → Type 0
IsTemplate in_param String.[] = in_param ≡ false
IsTemplate in_param (String.◌∷◌ c s) =
    (in_param ≡ false → (code c == b'}') ≡ false) × IsTemplate (next_in_param in_param (code c)) s

-- The pieces of a template, whose parameters' names do not matter.
unfoldable pub pieces : Bool → String → List Piece
pieces in_param String.[] = []
pieces in_param (String.◌∷◌ c s) =
    let rest = pieces (next_in_param in_param (code c)) s in
    if code c == b'{'
    then rest
    else if code c == b'}'
    then param ∷ rest
    else if in_param
    then rest
    else lit c ∷ rest

abbrev NoSlash : String → Type 0
NoSlash String.[] = Unit
NoSlash (String.◌∷◌ c s) = ((code c == b'/') ≡ false) × NoSlash s

-- A request path is an instance: each parameter is a segment, not empty and without a slash.
abbrev pub Instance : List Piece → String → Type 0
Instance [] s = s ≡ ""
Instance (lit c ∷ ps) s = (t : String) × (s ≡ String.◌∷◌ c t) × Instance ps t
Instance (param ∷ ps) s =
    (segment : String) × (t : String) × (s ≡ join segment t)
    × (segment ≢ "")
    × NoSlash segment
    × Instance ps t

abbrev StartsWith : String → String → Type 0
StartsWith p s = (rest : String) × (s ≡ join p rest)

lit-StartsWith :
    (c : Char) (p s t : String)
    → s ≡ String.◌∷◌ c t
    → StartsWith p t
    → StartsWith (String.◌∷◌ c p) s
lit-StartsWith c p s t e (rest, h) = (rest, e ∙ ap (String.◌∷◌ c) h ∙ sym (cons-append c p rest))

module _ (c : Char) (path : String) (open_ : (code c == b'{') ≡ false)
    (close : (code c == b'}') ≡ false) where
  pieces-lit : pieces false (String.◌∷◌ c path) ≡ lit c ∷ pieces false path
  unfolding pieces next_in_param
  pieces-lit = rw (open_, close) refl

  next_in_param-lit : next_in_param false (code c) ≡ false
  unfolding next_in_param
  next_in_param-lit = rw (open_, close) refl

  IsTemplate-lit : IsTemplate false (String.◌∷◌ c path) → IsTemplate false path
  IsTemplate-lit t = subst (λ b. IsTemplate b path) next_in_param-lit t.1

-- Up to its first opening brace a template is in each of its instances.
start-StartsWith :
    (path s p : String)
    → IsTemplate false path
    → Instance (pieces false path) s
    → before_brace path ≡ some p
    → StartsWith p s
unfolding before_brace
start-StartsWith String.[] s p t i h = cc
start-StartsWith (String.◌∷◌ c path) s p t i h = elim (Bool-cases (code c == b'{')) [
  | inl open_ ↦ let nothing : p ≡ "" = ground arith in (s, rw nothing (sym (nil-append s)))
  | inr other ↦ elim (Option-cases (before_brace path)) [
    | inl gone ↦ absurd (ground arith)
    | inr (q, found) ↦
        let close = t.0 refl in
        let longer : p ≡ String.◌∷◌ c q = ground arith in
        let (u, e, m) = subst (λ ps. Instance ps s) (pieces-lit c path other close) i in
        rw longer (
          lit-StartsWith c q s u e
            (start-StartsWith path u q (IsTemplate-lit c path other close t) m found))
  ]
]

-- A template without an opening brace has itself as its only instance.
plain-Instance :
    (path s : String)
    → IsTemplate false path
    → Instance (pieces false path) s
    → before_brace path ≡ none
    → s ≡ path
unfolding before_brace pieces
plain-Instance String.[] s t i h = i
plain-Instance (String.◌∷◌ c path) s t i h = elim (Bool-cases (code c == b'{')) [
  | inl open_ ↦ absurd (ground arith)
  | inr other ↦ elim (Option-cases (before_brace path)) [
    | inr (q, found) ↦ absurd (ground arith)
    | inl gone ↦
        let close = t.0 refl in
        let (u, e, m) = subst (λ ps. Instance ps s) (pieces-lit c path other close) i in
        e ∙ ap (String.◌∷◌ c) (plain-Instance path u (IsTemplate-lit c path other close t) m gone)
  ]
]

-- The brace of a path that starts with a slash is not its first character.
pub start-ne :
    (path p : String) → starts_with_slash path ≡ true → before_brace path ≡ some p → p ≢ ""
unfolding before_brace starts_with_slash
start-ne String.[] p h e = cc
start-ne (String.◌∷◌ c path) p h e =
    let other : (code c == b'{') ≡ false = ground arith in
    elim (Option-cases (before_brace path)) [
      | inl gone ↦ absurd (ground arith)
      | inr (q, found) ↦
          let longer : p ≡ String.◌∷◌ c q = ground arith in λ empty. cons≢nil (sym longer ∙ empty)
    ]

-- Prefix matching loses no request: every instance of a template that starts with a slash starts
-- with the prefix that TruncatePathParams cuts out of the template.
pub truncate_path_params-StartsWith :
    (path s : String)
    → starts_with_slash path ≡ true
    → IsTemplate false path
    → Instance (pieces false path) s
    → (rest : String) × (s ≡ join (truncate_path_params path) rest)
unfolding truncate_path_params
truncate_path_params-StartsWith path s h t i = elim (Option-cases (before_brace path)) [
  | inl gone ↦
      rw (gone, truncate_path_params) ("", plain-Instance path s t i gone ∙ sym (append-nil path))
  | inr (p, found) ↦
      let more : (p == "") ≡ false = ground (arith, eq_iff p "", start-ne path p h found) in
      rw (found, more, truncate_path_params) (start-StartsWith path s p t i found)
]
