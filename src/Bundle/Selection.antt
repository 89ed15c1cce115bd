-- ===== src/Bundle/Selection.antt =====
-- Which specification GetSpecFileInfo of pkg/bundle/bundle.go selects.
pub mod Files
use flowc.Prelude.{
  ℕ, ◌≤◌, String, List, [], ◌∷◌, none, some, false, ◌≡◌, inl, inr, refl, sym, ap, ◌∙◌, subst, arith,
  string_eq, ◌==◌, if◌then◌else◌, eq_iff, Bool-cases, Option-cases, Sum-cases, Every, Every-weaken,
  Any,
}
use flowc.Bundle.{
  File, Std, SpecFileInfo, first_of_type, by_precedence, choose, validate_zip, candidates,
  get_spec_file_info,
}

-- The order of the four types.
abbrev pub rank : String → ℕ
rank t =
    if t == "rest"
    then 0
    else if t == "grpc"
    then 1
    else if t == "graphql"
    then 2
    else if t == "asyncapi"
    then 3
    else 4

abbrev pub Is : SpecFileInfo → SpecFileInfo → Type 0
Is info c = c ≡ info

first_found :
    (wanted : String) (cs : List SpecFileInfo) (c : SpecFileInfo)
    → first_of_type wanted cs ≡ some c
    → Any (Is c) cs × (c.api_type ≡ wanted)
unfolding first_of_type
first_found wanted [] c h = absurd (ground arith)
first_found wanted (d ∷ ds) c h = elim (Bool-cases (d.api_type == wanted)) [
  | inl same ↦
      let it : d ≡ c = ground arith in
      (inl it, ap (λ e. e.api_type) (sym it) ∙ (eq_iff d.api_type wanted).0 same)
  | inr other ↦ let more = first_found wanted ds c (ground arith) in (inr more.0, more.1)
]

-- No candidate has the type.
abbrev Lacks : String → SpecFileInfo → Type 0
Lacks wanted c = (c.api_type == wanted) ≡ false

none_found :
    (wanted : String) (cs : List SpecFileInfo)
    → first_of_type wanted cs ≡ none
    → Every (Lacks wanted) cs
unfolding first_of_type
none_found wanted [] h = tt
none_found wanted (d ∷ ds) h = elim (Bool-cases (d.api_type == wanted)) [
  | inl same ↦ absurd (ground arith)
  | inr other ↦ (other, none_found wanted ds (ground arith))
]

Both :
    (P Q : SpecFileInfo → Type 0) (cs : List SpecFileInfo)
    → Every P cs
    → Every Q cs
    → Every (λ c. P c × Q c) cs
Both P Q [] p q = tt
Both P Q (c ∷ cs) (p, ps) (q, qs) = ((p, q), Both P Q cs ps qs)

-- One of the candidates, and none of them comes before it.
abbrev pub IsBest : List SpecFileInfo → SpecFileInfo → Type 0
IsBest cs info = Any (Is info) cs × Every (λ c. rank info.api_type ≤ rank c.api_type) cs

-- Every candidate ranks at least as low.
abbrev pub AtLeast : ℕ → List SpecFileInfo → Type 0
AtLeast n cs = Every (λ c. n ≤ rank c.api_type) cs

found-IsBest :
    (wanted : String) (cs : List SpecFileInfo) (d : SpecFileInfo)
    → first_of_type wanted cs ≡ some d
    → AtLeast (rank wanted) cs
    → IsBest cs d
found-IsBest wanted cs d found low =
    let (there, type) = first_found wanted cs d found in
    (there, subst (λ t. AtLeast (rank t) cs) (sym type) low)

module _ (c : SpecFileInfo) (cs : List SpecFileInfo) where
  abbrev all_candidates : List SpecFileInfo
  all_candidates = c ∷ cs

  lowest : AtLeast 0 all_candidates
  lowest = everywhere all_candidates
    where
      everywhere : (ds : List SpecFileInfo) → AtLeast 0 ds
      everywhere [] = tt
      everywhere (d ∷ ds) = (omega arith, everywhere ds)

  module _ (no_rest : first_of_type "rest" all_candidates ≡ none) where
    not_rest : Every (Lacks "rest") all_candidates
    not_rest = none_found "rest" all_candidates no_rest

    from_grpc : AtLeast 1 all_candidates
    from_grpc = Every-weaken (λ d lacks. ground arith) all_candidates not_rest

    module _ (no_grpc : first_of_type "grpc" all_candidates ≡ none) where
      not_grpc : Every (λ d. Lacks "rest" d × Lacks "grpc" d) all_candidates
      not_grpc =
          Both (Lacks "rest") (Lacks "grpc") all_candidates not_rest
            (none_found "grpc" all_candidates no_grpc)

      from_graphql : AtLeast 2 all_candidates
      from_graphql = Every-weaken (λ d lacks. ground arith) all_candidates not_grpc

      module _ (no_graphql : first_of_type "graphql" all_candidates ≡ none) where
        not_graphql :
            Every (λ d. (Lacks "rest" d × Lacks "grpc" d) × Lacks "graphql" d) all_candidates
        not_graphql =
            Both _ (Lacks "graphql") all_candidates not_grpc
              (none_found "graphql" all_candidates no_graphql)

        from_asyncapi : AtLeast 3 all_candidates
        from_asyncapi = Every-weaken (λ d lacks. ground arith) all_candidates not_graphql

        from_other : first_of_type "asyncapi" all_candidates ≡ none → AtLeast 4 all_candidates
        from_other no_async =
            Every-weaken (λ d lacks. ground arith) all_candidates
              (Both _ (Lacks "asyncapi") all_candidates not_graphql
                (none_found "asyncapi" all_candidates no_async))

  by_precedence-IsBest : IsBest all_candidates (by_precedence c all_candidates)
  unfolding by_precedence
  by_precedence-IsBest = elim (Option-cases (first_of_type "rest" all_candidates)) [
    | inr (d, found) ↦
        is d (rw (found, by_precedence) refl) (found-IsBest "rest" all_candidates d found lowest)
    | inl no_rest ↦ elim (Option-cases (first_of_type "grpc" all_candidates)) [
      | inr (d, found) ↦
          is d (rw (no_rest, found, by_precedence) refl)
            (found-IsBest "grpc" all_candidates d found (from_grpc no_rest))
      | inl no_grpc ↦ elim (Option-cases (first_of_type "graphql" all_candidates)) [
        | inr (d, found) ↦
            is d (rw (no_rest, no_grpc, found, by_precedence) refl)
              (found-IsBest "graphql" all_candidates d found (from_graphql no_rest no_grpc))
        | inl no_graphql ↦ elim (Option-cases (first_of_type "asyncapi" all_candidates)) [
          | inr (d, found) ↦ is d (rw (no_rest, no_grpc, no_graphql, found, by_precedence) refl) (
              found-IsBest "asyncapi" all_candidates d found
                (from_asyncapi no_rest no_grpc no_graphql))
          | inl no_async ↦
              let low = from_other no_rest no_grpc no_graphql no_async in
              let last : 4 ≤ rank c.api_type = low.0 in
              let all_last : 4 ≡ rank c.api_type = ground (arith, last) in
              is c (rw (no_rest, no_grpc, no_graphql, no_async, by_precedence) refl)
                (inl refl, subst (λ n. AtLeast n all_candidates) all_last low)
        ]
      ]
    ]
  ]
    where
      is :
          (d : SpecFileInfo)
          → by_precedence c all_candidates ≡ d
          → IsBest all_candidates d
          → IsBest all_candidates (by_precedence c all_candidates)
      is d e best = subst (IsBest all_candidates) (sym e) best

pub choose-IsBest :
    (cs : List SpecFileInfo) (info : SpecFileInfo) → choose "" cs ≡ inr info → IsBest cs info
unfolding choose
choose-IsBest [] info h = absurd (ground arith)
choose-IsBest (c ∷ cs) info h =
    let it : by_precedence c (c ∷ cs) ≡ info = ground arith in
    subst (IsBest (c ∷ cs)) it (by_precedence-IsBest c cs)
