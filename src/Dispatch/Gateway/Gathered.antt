-- ===== src/Dispatch/Gateway/Gathered.antt =====
-- The deployments that the full rebuild of gateway.go takes in, told apart from its loop: their
-- resources, and their names by deployment.
use mathlib.Core.Option
use flowc.Prelude.{
  String, List, [], ◌∷◌, ◌++◌, map, Option, none, some, ◌≡◌, refl, sym, ap, ◌∙◌, string_eq, ◌==◌,
  if◌then◌else◌, Bool-cases, Option-cases, inl, inr,
}
use flowc.Dict.{lookup, lookup-put}
use flowc.V1alpha1.Spec.{Deployment}
use flowc.Index.State.{ResourceNames}
use flowc.Cache.Xds.{Xds, cluster_type, endpoint_type, route_type}
use flowc.Cache.Merge.Laws.{or_else}
use flowc.Cache.Manager.{ApiDeployment}
use flowc.Dispatch.Deployment.{resource_names_from_xds}
use flowc.Dispatch.Gateway.{Rebuilt, add_deployment, add_deployments}

pub append_assoc : {A : Type 0} (xs ys zs : List A) → (xs ++ ys) ++ zs ≡ xs ++ (ys ++ zs)
append_assoc [] ys zs = refl
append_assoc (x ∷ xs) ys zs = ap (λ l. x ∷ l) (append_assoc xs ys zs)

pub append_nil : {A : Type 0} (xs : List A) → xs ++ [] ≡ xs
append_nil [] = refl
append_nil (x ∷ xs) = ap (λ l. x ∷ l) (append_nil xs)

module _ (x : Xds) where
  abbrev pub Made : Type 0
  Made = List (String × ApiDeployment x)

  -- The deployments that translate, in their order, with what they give.
  abbrev pub collected : (Deployment → Option (ApiDeployment x)) → List Deployment → Made
  collected translated [] = []
  collected translated (d ∷ ds) =
      let rest = collected translated ds in
      elim (translated d) [ none ↦ rest | some xds ↦ (d.name, xds) ∷ rest ]

  -- One kind of resource of all of them.
  abbrev pub together : {I : Type 0} → (ApiDeployment x → List I) → Made → List I
  together part [] = []
  together part ((n, xds) ∷ made) = part xds ++ together part made

  -- What the last deployment of a name gives.
  abbrev pub last_of : String → Made → Option (ApiDeployment x)
  last_of n [] = none
  last_of n ((m, xds) ∷ made) = or_else (last_of n made) (if m == n then some xds else none)

  abbrev pub names_of : ApiDeployment x → ResourceNames
  names_of xds = record {
    clusters = map (x.kind_of cluster_type).item_name xds.clusters;
    endpoints = map (x.kind_of endpoint_type).item_name xds.endpoints;
    routes = map (x.kind_of route_type).item_name xds.routes;
  }

  -- The names that a deployment owns: those of the last one that translates under its name.
  abbrev pub owned : String → Made → Option ResourceNames
  owned n made = Option.map names_of (last_of n made)

  pub record Adds (made : Made) (r r' : Rebuilt x) : Type 0 where
    pub clusters : r'.clusters ≡ r.clusters ++ together (λ d. d.clusters) made
    pub endpoints : r'.endpoints ≡ r.endpoints ++ together (λ d. d.endpoints) made
    pub routes : r'.routes ≡ r.routes ++ together (λ d. d.routes) made
    pub names :
        (n : String) → lookup n r'.per_dep_names ≡ or_else (owned n made) (lookup n r.per_dep_names)

  owned-cons :
      (n m : String) (xds : ApiDeployment x) (made : Made) (before : Option ResourceNames)
      → or_else (owned n made) (if m == n then some (names_of xds) else before)
        ≡ or_else (owned n ((m, xds) ∷ made)) before
  owned-cons n m xds made before = elim (Option-cases (last_of n made)) [
    | inr (later, found) ↦ rw found refl
    | inl none_later ↦ elim (Bool-cases (m == n)) [
      | inl same ↦ rw (none_later, same) refl
      | inr other ↦ rw (none_later, other) refl
    ]
  ]

  pub add_deployments-Adds :
      (translated : Deployment → Option (ApiDeployment x)) (deps : List Deployment) (r : Rebuilt x)
      → Adds (collected translated deps) r (add_deployments x translated deps r)
  unfolding add_deployments add_deployment resource_names_from_xds
  add_deployments-Adds translated [] r = record {
    clusters = sym (append_nil r.clusters);
    endpoints = sym (append_nil r.endpoints);
    routes = sym (append_nil r.routes);
    names = λ n. refl;
  }
  add_deployments-Adds translated (d ∷ ds) r = elim (Option-cases (translated d)) [
    | inl skipped ↦
        rw (skipped, add_deployments, add_deployment, collected)
          (add_deployments-Adds translated ds r)
    | inr (xds, given) ↦
        let more = add_deployments-Adds translated ds (add_deployment x d.name (some xds) r) in
        rw (given, add_deployments, add_deployment, collected)
          (record {
            clusters = more.clusters ∙ append_assoc r.clusters xds.clusters _;
            endpoints = more.endpoints ∙ append_assoc r.endpoints xds.endpoints _;
            routes = more.routes ∙ append_assoc r.routes xds.routes _;
            names = λ n.
                more.names n
                ∙ ap (or_else (owned n (collected translated ds)))
                    (lookup-put n d.name (names_of xds) r.per_dep_names)
                ∙ owned-cons n d.name xds (collected translated ds) (lookup n r.per_dep_names);
          })
  ]
