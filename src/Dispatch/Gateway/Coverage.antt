-- ===== src/Dispatch/Gateway/Coverage.antt =====
-- The placeholders of gateway.go: every route table that a listener refers to is in the snapshot.
use mathlib.Core.List.{Memᴰ}
use flowc.Prelude.{
  String, List, [], ◌∷◌, ◌++◌, map, Option, none, some, true, ◌||◌, ◌≡◌, refl, arith, string_eq,
  ◌==◌, eq_iff, eq_self, contains, Bool-cases, inl, inr, sym, ◌∙◌, ap, subst,
}
use flowc.Dict
use flowc.Dict.{Dict, lookup, lookup-put}
use flowc.V1alpha1.Spec.{Listener, Deployment}
use flowc.Index.State.{Indexer}
use flowc.Index.Queries.{listeners_for_gateway, deployments_for_gateway}
use flowc.Cache.Xds.{Xds, listener_type, route_type}
use flowc.Cache.Manager.{Item, ApiDeployment}
use flowc.Dispatch.Deployment.{resource_names_from_xds}
use flowc.Dispatch.Gateway.{
  hostnames_of, route_name, activate, Rebuilt, nothing_rebuilt, add_deployment, add_deployments,
  add_placeholder, add_hostnames, add_placeholders, rebuild,
}

has-activate :
    (n : String) (names : List String) (active : Dict {0, 0} String Unit)
    → Dict.has n (activate names active) ≡ (contains names n || Dict.has n active)
unfolding activate contains
has-activate n [] active = refl
has-activate n (m ∷ names) active =
    ground (arith, has-activate n names (Dict.put m tt active), lookup-put n m tt active)

module _ (x : Xds) where
  abbrev pub names_of_routes : Rebuilt x → List String
  names_of_routes r = map (x.kind_of route_type).item_name r.routes

  -- The active route names are those of the collected routes.
  abbrev IsActive : Rebuilt x → Type 0
  IsActive r = (n : String) → Dict.has n r.active_routes ≡ contains (names_of_routes r) n

  contains-map_append :
      (n : String) (is js : List (Item x route_type))
      → contains (map (x.kind_of route_type).item_name (is ++ js)) n ≡ (
          contains (map (x.kind_of route_type).item_name is) n
          || contains (map (x.kind_of route_type).item_name js) n)
  unfolding contains
  contains-map_append n [] js = refl
  contains-map_append n (i ∷ is) js = ground (arith, contains-map_append n is js)

  nothing-IsActive : IsActive (nothing_rebuilt x)
  unfolding contains lookup
  nothing-IsActive n = refl

  add_deployment-IsActive :
      (name : String) (o : Option (ApiDeployment x)) (r : Rebuilt x)
      → IsActive r
      → IsActive (add_deployment x name o r)
  unfolding add_deployment resource_names_from_xds
  add_deployment-IsActive name none r h n = h n
  add_deployment-IsActive name (some xds) r h n = ground (
    arith,
    has-activate n (map (x.kind_of route_type).item_name xds.routes) r.active_routes,
    contains-map_append n r.routes xds.routes,
    h n,
  )

  add_deployments-IsActive :
      (translated : Deployment → Option (ApiDeployment x)) (deps : List Deployment) (r : Rebuilt x)
      → IsActive r
      → IsActive (add_deployments x translated deps r)
  unfolding add_deployments
  add_deployments-IsActive translated [] r h = h
  add_deployments-IsActive translated (dep ∷ deps) r h =
      add_deployments-IsActive translated deps _
        (add_deployment-IsActive dep.name (translated dep) r h)

  module _ (placeholder : String → String → Item x route_type)
      (named : (n h : String) → (x.kind_of route_type).item_name (placeholder n h) ≡ n) where
    placeholder-step :
        (l : Listener) (h : String) (r : Rebuilt x) (n : String)
        → Dict.has n (add_placeholder x placeholder l h r).active_routes
          ≡ ((route_name l h == n) || Dict.has n r.active_routes)
    unfolding add_placeholder lookup
    placeholder-step l h r n = elim (Bool-cases (Dict.has (route_name l h) r.active_routes)) [
      | inl there ↦ rw (there, add_placeholder) (ground (arith, there, eq_iff (route_name l h) n))
      | inr missing ↦
          rw (missing, add_placeholder)
            (ground (arith, lookup-put n (route_name l h) tt r.active_routes))
    ]

    placeholder-IsActive :
        (l : Listener) (h : String) (r : Rebuilt x)
        → IsActive r
        → IsActive (add_placeholder x placeholder l h r)
    unfolding add_placeholder contains
    placeholder-IsActive l h r a n = elim (Bool-cases (Dict.has (route_name l h) r.active_routes)) [
      | inl there ↦ rw (there, add_placeholder) (a n)
      | inr missing ↦
          rw (missing, add_placeholder)
            (ground (
              arith,
              lookup-put n (route_name l h) tt r.active_routes,
              contains-map_append n r.routes (placeholder (route_name l h) h ∷ []),
              named (route_name l h) h,
              a n,
            ))
    ]

    hostnames-IsActive :
        (l : Listener) (hs : List String) (r : Rebuilt x)
        → IsActive r
        → IsActive (add_hostnames x placeholder l hs r)
    unfolding add_hostnames
    hostnames-IsActive l [] r a = a
    hostnames-IsActive l (h ∷ hs) r a = hostnames-IsActive l hs _ (placeholder-IsActive l h r a)

    placeholders-IsActive :
        (ls : List Listener) (r : Rebuilt x)
        → IsActive r
        → IsActive (add_placeholders x placeholder ls r)
    unfolding add_placeholders
    placeholders-IsActive [] r a = a
    placeholders-IsActive (l ∷ ls) r a =
        placeholders-IsActive ls _ (hostnames-IsActive l (hostnames_of l) r a)

    hostnames_keep :
        (l : Listener) (hs : List String) (r : Rebuilt x) (n : String)
        → Dict.has n r.active_routes ≡ true
        → Dict.has n (add_hostnames x placeholder l hs r).active_routes ≡ true
    unfolding add_hostnames
    hostnames_keep l [] r n h = h
    hostnames_keep l (k ∷ hs) r n h =
        hostnames_keep l hs (add_placeholder x placeholder l k r) n
          (ground (arith, placeholder-step l k r n, h))

    placeholders_keep :
        (ls : List Listener) (r : Rebuilt x) (n : String)
        → Dict.has n r.active_routes ≡ true
        → Dict.has n (add_placeholders x placeholder ls r).active_routes ≡ true
    unfolding add_placeholders
    placeholders_keep [] r n h = h
    placeholders_keep (l ∷ ls) r n h =
        placeholders_keep ls _ n (hostnames_keep l (hostnames_of l) r n h)

    hostnames_cover :
        (l : Listener) (hs : List String) (r : Rebuilt x) (h : String)
        → Memᴰ h hs
        → Dict.has (route_name l h) (add_hostnames x placeholder l hs r).active_routes ≡ true
    unfolding add_hostnames
    hostnames_cover l [] r h m = elim m [ ]
    hostnames_cover l (k ∷ hs) r h (Memᴰ.head e) =
        hostnames_keep l hs (add_placeholder x placeholder l k r) (route_name l h) (
          placeholder-step l k r (route_name l h)
          ∙ ap (λ b. b || Dict.has (route_name l h) r.active_routes)
              (ap (λ j. route_name l j == route_name l h) (sym e) ∙ eq_self (route_name l h)))
    hostnames_cover l (k ∷ hs) r h (Memᴰ.tail m) = hostnames_cover l hs _ h m

    placeholders_cover :
        (ls : List Listener) (r : Rebuilt x) (l : Listener) (h : String)
        → Memᴰ l ls
        → Memᴰ h (hostnames_of l)
        → Dict.has (route_name l h) (add_placeholders x placeholder ls r).active_routes ≡ true
    unfolding add_placeholders
    placeholders_cover [] r l h m k = elim m [ ]
    placeholders_cover (j ∷ ls) r l h (Memᴰ.head e) k = placeholders_keep ls _ (route_name l h) (
        subst
          (λ i.
            Dict.has (route_name l h)
              (add_hostnames x placeholder i (hostnames_of i) r).active_routes
            ≡ true)
          e (hostnames_cover l (hostnames_of l) r h k))
    placeholders_cover (j ∷ ls) r l h (Memᴰ.tail m) k = placeholders_cover ls _ l h m k

    -- A gateway rebuild has a route configuration under the route name of every listener of the
    -- gateway and each of its hostnames, whichever deployments translate, if a placeholder carries
    -- the name that it is given.
    pub rebuild-covers :
        (translated : Deployment → Indexer → Option (ApiDeployment x))
        (build_listener : Listener → Option (Item x listener_type)) (gw : String) (idx : Indexer)
        (l : Listener) (h : String)
        → Memᴰ l (listeners_for_gateway gw idx)
        → Memᴰ h (hostnames_of l)
        → contains
            (names_of_routes (rebuild x placeholder translated build_listener gw idx))
            (route_name l h)
          ≡ true
    unfolding rebuild
    rebuild-covers translated build_listener gw idx l h m k =
        let deps =
          add_deployments x (λ dep. translated dep idx) (deployments_for_gateway gw idx)
            (nothing_rebuilt x) in
        sym (
          placeholders-IsActive (listeners_for_gateway gw idx) deps
            (add_deployments-IsActive _ (deployments_for_gateway gw idx) (nothing_rebuilt x)
              nothing-IsActive)
            (route_name l h))
        ∙ placeholders_cover (listeners_for_gateway gw idx) deps l h m k
