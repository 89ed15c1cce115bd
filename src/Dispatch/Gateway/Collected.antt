-- ===== src/Dispatch/Gateway/Collected.antt =====
-- What the full rebuild of gateway.go collects, told apart from its loops: the resources of the
-- deployments that translate, and the placeholders behind them.
use mathlib.Core.List.{Memᴰ}
use flowc.Prelude.{
  String, List, [], ◌∷◌, ◌++◌, Option, none, some, ◌≡◌, refl, sym, ap, ◌∙◌, string_eq, Every,
  Bool-cases, Option-cases, inl, inr,
}
use flowc.Dict
use flowc.Dict.{Dict, lookup, lookup-put}
use flowc.V1alpha1.Spec.{Listener, Deployment}
use flowc.Index.State.{Indexer}
use flowc.Index.Queries.{listeners_for_gateway, deployments_for_gateway}
use flowc.Cache.Xds.{Xds, listener_type, route_type}
use flowc.Cache.Merge.Laws.{or_else}
use flowc.Cache.Manager.{Item, ApiDeployment}
use flowc.Dispatch.Gateway.{
  hostnames_of, route_name, Rebuilt, nothing_rebuilt, add_deployments, add_placeholder,
  add_hostnames, add_placeholders, build_listeners, rebuild,
}
use flowc.Dispatch.Gateway.Gathered.{
  append_assoc, append_nil, Made, collected, together, owned, add_deployments-Adds,
}

Every-append :
    {A : Type 0} (P : A → Type 0) (xs ys : List A) → Every P xs → Every P ys → Every P (xs ++ ys)
Every-append P [] ys h k = k
Every-append P (x ∷ xs) ys (h, hs) k = (h, Every-append P xs ys hs k)

module _ (x : Xds) where
  module _ (placeholder : String → String → Item x route_type) where
    -- The placeholder of a hostname of one of the listeners.
    abbrev pub IsPlaceholder : List Listener → Item x route_type → Type 0
    IsPlaceholder listeners i =
        (l : Listener) × (h : String) × Memᴰ l listeners
        × Memᴰ h (hostnames_of l)
        × (i ≡ placeholder (route_name l h) h)

    module _ (P : Item x route_type → Type 0) where
      -- Route configurations are put behind the collected ones, and nothing else is changed.
      record Fills (r r' : Rebuilt x) : Type 0 where
        clusters : r'.clusters ≡ r.clusters
        endpoints : r'.endpoints ≡ r.endpoints
        names : r'.per_dep_names ≡ r.per_dep_names
        fill : List (Item x route_type)
        routes : r'.routes ≡ r.routes ++ fill
        all : Every P fill

      Fills-refl : (r : Rebuilt x) → Fills r r
      Fills-refl r = record {
        clusters = refl;
        endpoints = refl;
        names = refl;
        fill = [];
        routes = sym (append_nil r.routes);
        all = tt;
      }

      Fills-trans : {a b c : Rebuilt x} → Fills a b → Fills b c → Fills a c
      Fills-trans {a} f g = record {
        clusters = g.clusters ∙ f.clusters;
        endpoints = g.endpoints ∙ f.endpoints;
        names = g.names ∙ f.names;
        fill = f.fill ++ g.fill;
        routes = g.routes ∙ ap (λ l. l ++ g.fill) f.routes ∙ append_assoc a.routes f.fill g.fill;
        all = Every-append P f.fill g.fill f.all g.all;
      }

      add_placeholder-Fills :
          (l : Listener) (h : String) (r : Rebuilt x)
          → P (placeholder (route_name l h) h)
          → Fills r (add_placeholder x placeholder l h r)
      unfolding add_placeholder
      add_placeholder-Fills l h r p =
          elim (Bool-cases (Dict.has (route_name l h) r.active_routes)) [
            | inl there ↦ rw (there, add_placeholder) (Fills-refl r)
            | inr missing ↦
                rw (missing, add_placeholder)
                  (record {
                    clusters = refl;
                    endpoints = refl;
                    names = refl;
                    fill = placeholder (route_name l h) h ∷ [];
                    routes = refl;
                    all = (p, tt);
                  })
          ]

      add_hostnames-Fills :
          (l : Listener) (hs : List String) (r : Rebuilt x)
          → ((h : String) → Memᴰ h hs → P (placeholder (route_name l h) h))
          → Fills r (add_hostnames x placeholder l hs r)
      unfolding add_hostnames
      add_hostnames-Fills l [] r p = Fills-refl r
      add_hostnames-Fills l (h ∷ hs) r p =
          Fills-trans (add_placeholder-Fills l h r (p h (Memᴰ.head refl)))
            (add_hostnames-Fills l hs _ (λ k m. p k (Memᴰ.tail m)))

      add_placeholders-Fills :
          (ls : List Listener) (r : Rebuilt x)
          → ((l : Listener) (h : String)
              → Memᴰ l ls
              → Memᴰ h (hostnames_of l)
              → P (placeholder (route_name l h) h))
          → Fills r (add_placeholders x placeholder ls r)
      unfolding add_placeholders
      add_placeholders-Fills [] r p = Fills-refl r
      add_placeholders-Fills (l ∷ ls) r p =
          Fills-trans (add_hostnames-Fills l (hostnames_of l) r (λ h. p l h (Memᴰ.head refl)))
            (add_placeholders-Fills ls _ (λ k h m. p k h (Memᴰ.tail m)))

    module _ (translated : Deployment → Indexer → Option (ApiDeployment x))
        (build_listener : Listener → Option (Item x listener_type)) where
      -- The listeners that can be buildable.
      abbrev pub buildable : List Listener → List (Item x listener_type)
      buildable [] = []
      buildable (l ∷ ls) =
          let rest = buildable ls in elim (build_listener l) [ none ↦ rest | some b ↦ b ∷ rest ]

      pub build_listeners-buildable :
          (ls : List Listener)
          → build_listeners x placeholder translated build_listener ls ≡ buildable ls
      unfolding build_listeners
      build_listeners-buildable [] = refl
      build_listeners-buildable (l ∷ ls) = elim (Option-cases (build_listener l)) [
        | inl failed ↦ rw (failed, build_listeners, buildable) (build_listeners-buildable ls)
        | inr (b, ok) ↦
            rw (ok, build_listeners, buildable) (ap (λ bs. b ∷ bs) (build_listeners-buildable ls))
      ]

      -- The deployments of the gateway that translate.
      abbrev pub made_for : String → Indexer → Made x
      made_for gw idx = collected x (λ d. translated d idx) (deployments_for_gateway gw idx)

      pub record Collects (gw : String) (idx : Indexer) (r : Rebuilt x) : Type 0 where
        pub clusters : r.clusters ≡ together x (λ d. d.clusters) (made_for gw idx)
        pub endpoints : r.endpoints ≡ together x (λ d. d.endpoints) (made_for gw idx)
        pub fill : List (Item x route_type)
        pub all : Every (IsPlaceholder (listeners_for_gateway gw idx)) fill
        pub routes : r.routes ≡ together x (λ d. d.routes) (made_for gw idx) ++ fill
        pub names : (n : String) → lookup n r.per_dep_names ≡ owned x n (made_for gw idx)

      or_else-none : {A : Type 0} (o : Option A) → or_else o none ≡ o
      or_else-none none = refl
      or_else-none (some a) = refl

      pub rebuild-Collects :
          (gw : String) (idx : Indexer)
          → Collects gw idx (rebuild x placeholder translated build_listener gw idx)
      unfolding rebuild lookup
      rebuild-Collects gw idx =
          let ls = listeners_for_gateway gw idx in
          let a =
            add_deployments-Adds x (λ d. translated d idx) (deployments_for_gateway gw idx)
              (nothing_rebuilt x) in
          let f =
            add_placeholders-Fills (IsPlaceholder ls) ls
              (add_deployments x (λ d. translated d idx) (deployments_for_gateway gw idx)
                (nothing_rebuilt x))
              (λ l h m k. (l, h, m, k, refl)) in
          record {
            clusters = f.clusters ∙ a.clusters;
            endpoints = f.endpoints ∙ a.endpoints;
            fill = f.fill;
            all = f.all;
            routes = f.routes ∙ ap (λ l. l ++ f.fill) a.routes;
            names =
                λ n. ap (lookup n) f.names ∙ a.names n ∙ or_else-none (owned x n (made_for gw idx));
          }
