-- ===== src/Tests/Removal.antt =====
-- Deleting a deployment whose route configuration a listener refers to.
use flowc.Prelude.{
  String, [], ◌∷◌, Option, none, some, true, ◌≡◌, ◌≢◌, ◌⊎◌, inl, inr, refl, sym, ap, ◌∙◌, subst,
  arith, string_eq, ◌==◌, if◌then◌else◌, contains, Bool-cases,
}
use flowc.Dict
use flowc.Dict.{Dict, lookup}
use flowc.V1alpha1.Spec.{Gateway, Listener, Api, Deployment}
use flowc.Index.State.{ResourceNames, new, removal}
use flowc.Index.Ownership.{ownership_for_deployment, find_owner}
use flowc.Cache.Xds.{Xds, Laws, listener_type, route_type}
use flowc.Cache.Merge.{by_name}
use flowc.Cache.Manager.{
  ApiDeployment, SnapshotSpec, replaced, replace_snapshot, install, update_snapshot,
}
use flowc.Cache.Manager.Effects.{IsTyped, AllTyped}
use flowc.Cache.Manager.Soundness.{replaces, Step-AllTyped}
use flowc.Dispatch.Deployment.{World, handle_delete}
use flowc.Dispatch.Deployment.Removal.{RefusesDangling, handle_delete-refused}
use flowc.Tests.Cache.{Message, plane, plane_laws}

-- A control plane that refuses a listener whose route configuration is missing: the body of a listener
-- names it.
abbrev all_referred : Dict String Message → Dict String Message → Option {0} Unit
all_referred [] routes = none
all_referred ((l, m) ∷ listeners) routes =
    let rest = all_referred listeners routes in if Dict.has m.body routes then rest else some tt

abbrev strict : Xds
strict = record plane {
  consistent =
      λ s. all_referred (plane.get_resources s listener_type) (plane.get_resources s route_type);
}

strict_laws : Laws strict
strict_laws = record {
  as-of = plane_laws.as-of;
  named = plane_laws.named;
  resources-new = plane_laws.resources-new;
  distinct = plane_laws.distinct;
  get-set = plane_laws.get-set;
  get-set_other = plane_laws.get-set_other;
  get-clear = plane_laws.get-clear;
  get-clear_other = plane_laws.get-clear_other;
}

all_referred_sound :
    (listeners routes : Dict String Message) (l : String) (m : Message)
    → all_referred listeners routes ≡ none
    → lookup l listeners ≡ some m
    → Dict.has m.body routes ≡ true
unfolding lookup
all_referred_sound [] routes l m passed found = absurd (ground arith)
all_referred_sound ((k, v) ∷ listeners) routes l m passed found =
    elim (Bool-cases (Dict.has v.body routes)) [
      | inr missing ↦ absurd (ground (arith, missing))
      | inl there ↦ elim (Bool-cases (k == l)) [
        | inl here ↦
            let it : v ≡ m = ground (arith, here) in
            ap (λ u. Dict.has u.body routes) (sym it) ∙ there
        | inr other ↦
            all_referred_sound listeners routes l m (ground (arith, there)) (ground (arith, other))
      ]
    ]

abbrev Refers : Message → String → Type 0
Refers m n = m.body ≡ n

refuses : RefusesDangling strict strict_laws Refers
refuses s l n m passed found used =
    subst (λ k. Dict.has k (plane.get_resources s route_type) ≡ true) used
      (all_referred_sound (plane.get_resources s listener_type) (plane.get_resources s route_type) l
        m passed found)

-- A node with one listener, which refers to the route configuration of the deployment.
abbrev listener : Message
listener = record { type = listener_type; name = "listener_80"; body = "r" }

abbrev only_route : ResourceNames
only_route = record { clusters = []; endpoints = []; routes = "r" ∷ [] }

abbrev page : SnapshotSpec strict
page = record {
  clusters = [];
  endpoints = [];
  listeners = record { name = "listener_80"; body = "r" } ∷ [];
  routes = record { name = "r"; body = "" } ∷ [];
}

abbrev serving : strict.Snapshot
serving = replaced strict page

abbrev empty : strict.SnapshotCache
empty = []

empty_typed : AllTyped strict empty
unfolding lookup
empty_typed node s e = ground arith

abbrev served : World strict
served = record {
  indexer = record new { ownership = ("n1", ("one", only_route) ∷ []) ∷ [] };
  cache = (replace_snapshot strict "1" "n1" page empty).1;
}

abbrev compose_strict : Deployment → Api → Gateway → Listener → String ⊎ ApiDeployment strict
compose_strict d a g l = inl ""

owner : ownership_for_deployment "one" served.indexer ≡ some ("n1", only_route)
unfolding ownership_for_deployment find_owner lookup
owner = refl

held : strict.get_snapshot "n1" served.cache ≡ some serving
unfolding lookup replace_snapshot install update_snapshot Dict.put Dict.delete by_name
held = refl

serving-IsTyped : IsTyped strict serving
serving-IsTyped =
    Step-AllTyped strict strict_laws (replaces "1" "n1" page) empty_typed "n1" serving held

listed : lookup "listener_80" (strict.get_resources serving listener_type) ≡ some listener
unfolding lookup by_name Dict.put Dict.delete
listed = refl

in_names : contains only_route.routes "r" ≡ true
unfolding contains
in_names = refl

handle_delete-refused_example :
    let after = handle_delete strict compose_strict "2" (removal "Deployment" "one" "") served in
    (after.0 ≢ none) × (after.1 ≡ served)
handle_delete-refused_example =
    handle_delete-refused strict strict_laws Refers compose_strict refuses "2"
      (removal "Deployment" "one" "") served "n1" only_route serving listener "listener_80" "r"
      owner held serving-IsTyped listed refl in_names
