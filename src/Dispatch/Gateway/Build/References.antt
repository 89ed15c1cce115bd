-- ===== src/Dispatch/Gateway/Build/References.antt =====
-- What buildListeners of gateway.go makes of a listener: its filter chains, and that the route tables
-- that they refer to are in the rebuilt snapshot.
use mathlib.Core.List.{Memᴰ}
use mathlib.Core.Option
use flowc.Prelude.{
  ℕ, zero, suc, ◌≤◌, ◌/◌, String, List, [], ◌∷◌, map, Option, none, some, true, false, ◌≡◌, ◌⊎◌,
  inl, inr, refl, arith, sym, subst, string_eq, ◌==◌, if◌then◌else◌, length, contains, Every,
  Sum-cases, ltb,
}
use flowc.V1alpha1.Spec.{Listener, Deployment}
use flowc.Index.State.{Indexer}
use flowc.Index.Queries.{listeners_for_gateway}
use flowc.Cache.Xds.{Xds, listener_type, route_type}
use flowc.Cache.Manager.{Item, ApiDeployment}
use flowc.Dispatch.Gateway.{hostnames_of, route_name, rebuild}
use flowc.Dispatch.Gateway.Coverage.{names_of_routes, rebuild-covers}
use flowc.Dispatch.Gateway.Build.{
  ListenerConfig, ConnectionManager, FilterChain, XdsListener, decimal_by, has_tls, manager_of,
  and_then, create_filter_chains, create_listener_with_filter_chains, filter_chain_config,
  listener_config, build_listener, placeholder_route_config,
}
use flowc.Composite.Messages.{RouteConfiguration}

-- More rounds than the number's value plus one write the same digits.
decimal_by-enough : (f g n : ℕ) → n ≤ f → n ≤ g → decimal_by (suc f) n ≡ decimal_by (suc g) n
unfolding decimal_by
decimal_by-enough zero zero n h k = refl
decimal_by-enough zero (suc g) n h k = let small : ltb n 10 ≡ true = ground arith in rw small refl
decimal_by-enough (suc f) zero n h k = let small : ltb n 10 ≡ true = ground arith in rw small refl
decimal_by-enough (suc f) (suc g) n h k =
    let fewer_f : n / 10 ≤ f = omega arith in
    let fewer_g : n / 10 ≤ g = omega arith in
    rw (decimal_by-enough f g (n / 10) fewer_f fewer_g) refl

and_then-inr :
    {E A B : Type 0} (o : E ⊎ A) (f : A → E ⊎ B) (b : B)
    → and_then o f ≡ inr b
    → (a : A) × (o ≡ inr a) × (f a ≡ inr b)
and_then-inr (inl e) f b h = absurd (ground arith)
and_then-inr (inr a) f b h = (a, refl, h)

configs-plain : (l : Listener) (hs : List String) → has_tls (map (filter_chain_config l) hs) ≡ false
unfolding has_tls
configs-plain l [] = refl
configs-plain l (h ∷ hs) = configs-plain l hs

module _ {E Any : Type 0} (pack : ConnectionManager → E ⊎ Any) where
  -- The filter chains of a list of hostnames.
  data Chains (l : Listener) : List String → List (FilterChain Any) → Type 0 where
    none_left : Chains l [] []
    one :
        {h : String} {hs : List String} {packed : Any} {chains : List (FilterChain Any)}
        → pack (record { route_config_name = route_name l h; http2_options = l.spec.http2 })
          ≡ inr packed
        → Chains l hs chains
        → Chains l (h ∷ hs) (record { typed_config = packed; filter_chain_match = none } ∷ chains)

  create_filter_chains-Chains :
      (l : Listener) (hs : List String) (chains : List (FilterChain Any))
      → create_filter_chains pack l.spec.http2 false (map (filter_chain_config l) hs) ≡ inr chains
      → Chains l hs chains
  unfolding create_filter_chains
  create_filter_chains-Chains l [] chains h =
      let it : chains ≡ [] = ground arith in subst (Chains l []) (sym it) none_left
  create_filter_chains-Chains l (k ∷ hs) chains h =
      let (packed, first, next) =
        and_then-inr (pack (manager_of l.spec.http2 (filter_chain_config l k))) _ chains h in
      let (rest, others, last) = and_then-inr _ _ chains next in
      let it : chains ≡ record { typed_config = packed; filter_chain_match = none } ∷ rest =
        ground arith in
      subst (Chains l (k ∷ hs)) (sym it) (one first (create_filter_chains-Chains l hs rest others))

  module _ (pack_inspector : E ⊎ Any) where
    create-plain :
        (config : ListenerConfig) (b : XdsListener Any)
        → has_tls config.filter_chains ≡ false
        → create_listener_with_filter_chains pack pack_inspector config ≡ inr b
        → (create_filter_chains pack config.http2 false config.filter_chains ≡ inr b.filter_chains)
          × (b.listener_filters ≡ [])
    unfolding create_listener_with_filter_chains
    create-plain config b plain made =
        elim (Sum-cases (create_filter_chains pack config.http2 false config.filter_chains)) [
          | inl (e, failed) ↦ absurd (ground (arith, made, plain, failed))
          | inr (chains, ok) ↦
              let it : b ≡ record {
                name = config.name;
                address = if config.address == "" then "0.0.0.0" else config.address;
                port_value = config.port;
                filter_chains = chains;
                listener_filters = [];
              } =
                ground (arith, made, plain, ok) in
              rw it (ok, refl)
        ]

    -- A listener is built with one filter chain for each of its hostnames, and without a match.
    build_listener-Chains :
        (l : Listener) (built : XdsListener Any)
        → build_listener pack pack_inspector l ≡ some built
        → Chains l (hostnames_of l) built.filter_chains × (built.listener_filters ≡ [])
    unfolding build_listener listener_config
    build_listener-Chains l built h =
        elim (Sum-cases
          (create_listener_with_filter_chains pack pack_inspector (listener_config l))) [
            | inl (e, failed) ↦ absurd (ground (arith, failed))
            | inr (b, made) ↦
                let it : built ≡ b = ground (arith, made) in
                let (chains, filters) =
                  create-plain (listener_config l) b (configs-plain l (hostnames_of l)) made in
                rw it
                  (create_filter_chains-Chains l (hostnames_of l) b.filter_chains chains, filters)
          ]

    -- Whatever the TLS settings of a listener are, it is built without the TLS inspector, and its filter
    -- chains, as many as it has hostnames, all match every connection.
    pub build_listener-plain :
        (l : Listener) (built : XdsListener Any)
        → build_listener pack pack_inspector l ≡ some built
        → (length built.filter_chains ≡ length (hostnames_of l))
          × Every (λ c. c.filter_chain_match ≡ none) built.filter_chains
          × (built.listener_filters ≡ [])
    build_listener-plain l built h =
        let (chains, filters) = build_listener-Chains l built h in
        let (as_many, plain) = alike (hostnames_of l) built.filter_chains chains in
        (as_many, plain, filters)
      where
        alike :
            (hs : List String) (chains : List (FilterChain Any))
            → Chains l hs chains
            → (length chains ≡ length hs) × Every (λ c. c.filter_chain_match ≡ none) chains
        alike _ _ none_left = (refl, tt)
        alike _ _ (one first rest) =
            let (as_many, plain) = alike _ _ rest in (omega (arith, as_many), (refl, plain))

    module _ (x : Xds) (unpack : Any → Option ConnectionManager)
        (unpacks : (m : ConnectionManager) (a : Any) → pack m ≡ inr a → unpack a ≡ some m)
        (listener_item : XdsListener Any → Item x listener_type)
        (route_item : RouteConfiguration → Item x route_type)
        (named : (c : RouteConfiguration)
          → (x.kind_of route_type).item_name (route_item c) ≡ c.name)
        (translated : Deployment → Indexer → Option (ApiDeployment x)) where
      -- The gateway translator's arguments.
      abbrev pub placeholder_item : String → String → Item x route_type
      placeholder_item name domain = route_item (placeholder_route_config name domain)

      abbrev pub built_item : Listener → Option (Item x listener_type)
      built_item l = Option.map listener_item (build_listener pack pack_inspector l)

      -- A filter chain whose route table is in the rebuilt snapshot.
      abbrev pub Resolves : String → Indexer → FilterChain Any → Type 0
      Resolves gw idx c =
          (m : ConnectionManager) × (unpack c.typed_config ≡ some m)
          × (contains (names_of_routes x (rebuild x placeholder_item translated built_item gw idx))
                m.route_config_name
              ≡ true)

      placeholder-name :
          (name domain : String)
          → (x.kind_of route_type).item_name (placeholder_item name domain) ≡ name
      unfolding placeholder_route_config
      placeholder-name name domain = named (placeholder_route_config name domain)

      all-Resolves :
          (gw : String) (idx : Indexer) (l : Listener) (hs : List String)
          (chains : List (FilterChain Any))
          → Chains l hs chains
          → ((h : String)
              → Memᴰ h hs
              → contains
                  (names_of_routes x (rebuild x placeholder_item translated built_item gw idx))
                  (route_name l h)
                ≡ true)
          → Every (Resolves gw idx) chains
      all-Resolves gw idx l _ _ none_left covered = tt
      all-Resolves gw idx l _ _ (one {h} first rest) covered = (
        (_, unpacks _ _ first, covered h (Memᴰ.head refl)),
        all-Resolves gw idx l _ _ rest (λ k m. covered k (Memᴰ.tail m)),
      )

      -- If a packed connection manager is read back as what it is: every filter chain of every listener
      -- that is built for a gateway refers to a route table that is in the gateway's rebuilt snapshot,
      -- whichever deployments translate.
      pub rebuild-Resolves :
          (gw : String) (idx : Indexer) (l : Listener) (built : XdsListener Any)
          → Memᴰ l (listeners_for_gateway gw idx)
          → build_listener pack pack_inspector l ≡ some built
          → Every (Resolves gw idx) built.filter_chains
      rebuild-Resolves gw idx l built m h =
          all-Resolves gw idx l (hostnames_of l) built.filter_chains
            (build_listener-Chains l built h).0
            (λ host k.
              rebuild-covers x placeholder_item (λ name domain. placeholder-name name domain)
                translated built_item gw idx l host m k)
