-- ===== src/Dispatch/Gateway/Build.antt =====
-- buildListeners and placeholderRouteConfig of gateway.go, and CreateListenerWithFilterChains of
-- internal/flowc/xds/resources/listener. A message of go-control-plane is the record of the fields
-- that the code sets; `pack` is anypb.New on a connection manager, whose packed message the filter
-- keeps, and `pack_inspector` is anypb.New on the TLS inspector, which has no fields.
pub mod References
use mathlib.Core.Option
use Prim.Native.String.{◌++◌ as join, slice}
use flowc.Prelude.{
  ℕ, zero, suc, ◌/◌, ◌%◌, String, List, [], ◌∷◌, map, Option, none, some, Bool, true, false, ◌||◌,
  ◌&&◌, string_eq, ◌==◌, ◌!=◌, if◌then◌else◌, ltb, ◌⊎◌, inl, inr,
}
use flowc.V1alpha1.Spec.{TlsConfig, Listener}
use flowc.Dispatch.Gateway.{hostnames_of, route_name}
use flowc.Composite.Messages.{RouteConfiguration}

pub record FilterChainConfig : Type 0 where
  pub name : String
  pub hostname : String
  pub route_config_name : String
  pub tls : Option TlsConfig

pub record ListenerConfig : Type 0 where
  pub name : String
  pub port : ℕ
  pub address : String
  pub filter_chains : List FilterChainConfig
  pub http2 : Bool

-- hcmv3.HttpConnectionManager: the name of the RDS route configuration, and whether the HTTP/2
-- options are set.
pub record ConnectionManager : Type 0 where
  pub route_config_name : String
  pub http2_options : Bool

-- The server names of the match, if there is one.
pub record FilterChain (Any : Type 0) : Type 0 where
  pub typed_config : Any
  pub filter_chain_match : Option (List String)

pub record XdsListener (Any : Type 0) : Type 0 where
  pub name : String
  pub address : String
  pub port_value : ℕ
  pub filter_chains : List (FilterChain Any)
  pub listener_filters : List String

-- "%d": a number has no more digits than its value, plus one.
abbrev digit : ℕ → String
digit d = slice "0123456789" d (suc d)

unfoldable pub decimal_by : ℕ → ℕ → String
decimal_by zero n = ""
decimal_by (suc fuel) n =
    let rest = decimal_by fuel (n / 10) in if ltb n 10 then digit n else join rest (digit (n % 10))

unfoldable pub decimal : ℕ → String
unfolding decimal_by
decimal n = decimal_by (suc n) n

-- hasTLS
unfoldable pub has_tls : List FilterChainConfig → Bool
has_tls [] = false
has_tls (c ∷ cs) = let rest = has_tls cs in elim c.tls [ some t ↦ true | none ↦ rest ]

abbrev pub manager_of : Bool → FilterChainConfig → ConnectionManager
manager_of http2 c = record { route_config_name = c.route_config_name; http2_options = http2 }

abbrev match_of : Bool → FilterChainConfig → Option (List String)
match_of tls c =
    if tls && c.hostname != "" && c.hostname != "*" then some (c.hostname ∷ []) else none

abbrev pub and_then : {E A B : Type 0} → E ⊎ A → (A → E ⊎ B) → E ⊎ B
and_then (inl e) f = inl e
and_then (inr a) f = f a

abbrev pub filter_chain_config : Listener → String → FilterChainConfig
filter_chain_config l hostname = record {
  name = hostname;
  hostname = hostname;
  route_config_name = route_name l hostname;
  tls = none;
}

unfoldable pub listener_config : Listener → ListenerConfig
unfolding decimal
listener_config l = record {
  name = join "listener_" (decimal l.spec.port);
  port = l.spec.port;
  address = if l.spec.address == "" then "0.0.0.0" else l.spec.address;
  filter_chains = map (filter_chain_config l) (hostnames_of l);
  http2 = l.spec.http2;
}

module _ {E Any : Type 0} (pack : ConnectionManager → E ⊎ Any) where
  unfoldable pub create_filter_chains :
      Bool → Bool → List FilterChainConfig → E ⊎ List (FilterChain Any)
  create_filter_chains http2 tls [] = inr []
  create_filter_chains http2 tls (c ∷ cs) =
      let rest = create_filter_chains http2 tls cs in
      and_then (pack (manager_of http2 c)) λ packed. and_then rest λ chains.
        inr (record { typed_config = packed; filter_chain_match = match_of tls c } ∷ chains)

  module _ (pack_inspector : E ⊎ Any) where
    -- The TLS inspector, if a filter chain needs it.
    abbrev inspectors : Bool → E ⊎ List String
    inspectors false = inr []
    inspectors true =
        and_then pack_inspector λ packed. inr ("envoy.filters.listener.tls_inspector" ∷ [])

    unfoldable pub create_listener_with_filter_chains : ListenerConfig → E ⊎ XdsListener Any
    unfolding create_filter_chains has_tls
    create_listener_with_filter_chains config =
        let tls = has_tls config.filter_chains in
        and_then (create_filter_chains config.http2 tls config.filter_chains) λ chains.
          and_then (inspectors tls) λ filters. inr (record {
            name = config.name;
            address = if config.address == "" then "0.0.0.0" else config.address;
            port_value = config.port;
            filter_chains = chains;
            listener_filters = filters;
          })

    -- One round of the loop; a failure is logged and skipped.
    unfoldable pub build_listener : Listener → Option (XdsListener Any)
    unfolding create_listener_with_filter_chains listener_config
    build_listener l = elim (create_listener_with_filter_chains (listener_config l)) [
      | inl e ↦ none
      | inr built ↦ some built
    ]

unfoldable pub placeholder_route_config : String → String → RouteConfiguration
placeholder_route_config name domain = record {
  name = name;
  virtual_hosts = record { name = "placeholder"; domains = domain ∷ []; routes = [] } ∷ [];
}
