-- ===== src/Tests/Gateway.antt =====
-- The gateway translator at concrete inputs.
use mathlib.Core.List.{Memᴰ}
use flowc.Prelude.{
  String, List, ◌++◌, Option, none, some, ◌≡◌, ◌≢◌, refl, arith, eq_iff, string_eq, ◌==◌,
  if◌then◌else◌, [], ◌∷◌, length, false, ◌⊎◌, inl, inr, Every, ap, sym,
}
use flowc.Dict.{lookup}
use flowc.V1alpha1.Spec.{Listener, Deployment}
use flowc.Index.State.{Indexer, upsert, removal}
use flowc.Index.Reverse.{refs}
use flowc.Index.Queries.{get_gateway, listeners_for_gateway, collect}
use flowc.Index.Ownership.{get_ownership}
use flowc.Cache.Xds.{ResourceType, listener_type, route_type}
use flowc.Cache.Manager.{ApiDeployment, Item, replace_snapshot, install, update_snapshot}
use flowc.Cache.Manager.Effects.{published, whole}
use flowc.Dispatch.Gateway.{
  or_skip, hostnames_of, handle_put, rebuild_gateway, reowned, handle_delete,
}
use flowc.Dispatch.Deployment.{translate_one}
use flowc.Dispatch.Gateway.Build.{ConnectionManager, XdsListener, build_listener}
use flowc.Dispatch.Gateway.Build.References.{Resolves, rebuild-Resolves, build_listener-plain}
use flowc.Composite.Messages.{RouteConfiguration}
use flowc.Dispatch.Gateway.Gathered.{together, owned}
use flowc.Dispatch.Gateway.Collected.{IsPlaceholder, buildable, made_for}
use flowc.Dispatch.Gateway.Rebuild.{rebuild_lem, handle_delete_lem}
use flowc.Tests.Cache.{plane, plane_laws}
use flowc.Tests.Deployment.{edge, web, idx, world, compose}

abbrev placeholder : String → String → Item plane route_type
placeholder name domain = record { name = name; body = domain }

abbrev translated : Deployment → Indexer → Option (ApiDeployment plane)
translated dep i = or_skip plane (translate_one plane compose dep i)

abbrev build : Listener → Option (Item plane listener_type)
build l = some (record { name = l.name; body = "" })

served : Memᴰ web (listeners_for_gateway "edge" idx)
unfolding listeners_for_gateway collect refs lookup
served = Memᴰ.head refl

there : get_gateway "edge" world.indexer ≡ some edge
unfolding get_gateway lookup
there = refl

done : (handle_put plane placeholder translated build "1" (upsert "Gateway" "edge") world).0 ≡ none
unfolding handle_put rebuild_gateway reowned replace_snapshot install update_snapshot get_gateway
    lookup or_skip translate_one
done = refl

rebuild_lem_example :
    let after =
      (handle_put plane placeholder translated build "1" (upsert "Gateway" "edge") world).1 in
    let made = made_for plane placeholder translated build "edge" world.indexer in
    let listeners = listeners_for_gateway "edge" world.indexer in
    (fill : List (Item plane route_type)) × Every (IsPlaceholder plane placeholder listeners) fill
    × ((t : ResourceType) (n : String)
        → published plane edge.spec.node_id t n after.cache
          ≡ whole plane
              (record {
                clusters = together plane (λ d. d.clusters) made;
                endpoints = together plane (λ d. d.endpoints) made;
                listeners = buildable plane placeholder translated build listeners;
                routes = together plane (λ d. d.routes) made ++ fill;
              })
              t
              n)
    × ((m dep : String)
        → get_ownership m dep after.indexer ≡ (
            if edge.spec.node_id == m
            then owned plane dep made
            else get_ownership m dep world.indexer))
rebuild_lem_example =
    rebuild_lem plane placeholder translated build plane_laws "1" (upsert "Gateway" "edge") world
      there done

known : (removal "Gateway" "edge" "n1").node_id ≢ ""
known = ground (arith, eq_iff "n1" "")

handle_delete_lem_example :
    let task = removal "Gateway" "edge" "n1" in
    let after = (handle_delete plane placeholder translated build task world).1 in
    (plane.get_snapshot task.node_id after.cache ≡ none)
    × ((m dep : String)
        → get_ownership m dep after.indexer
          ≡ (if task.node_id == m then none else get_ownership m dep world.indexer))
    × ((m : String)
        → task.node_id ≢ m
        → plane.get_snapshot m after.cache ≡ plane.get_snapshot m world.cache)
handle_delete_lem_example =
    handle_delete_lem plane placeholder translated build plane_laws (removal "Gateway" "edge" "n1")
      world known

abbrev pack : ConnectionManager → String ⊎ ConnectionManager
pack m = inr m

abbrev pack_inspector : String ⊎ ConnectionManager
pack_inspector = inl "no inspector"

abbrev built : XdsListener ConnectionManager
built = record {
  name = "listener_0";
  address = "0.0.0.0";
  port_value = 0;
  filter_chains =
      record {
        typed_config = record { route_config_name = "route_web_*"; http2_options = false };
        filter_chain_match = none;
      }
      ∷ [];
  listener_filters = [];
}

builds : build_listener pack pack_inspector web ≡ some built
unfolding build_listener
builds = refl

abbrev listener_body : XdsListener ConnectionManager → Item plane listener_type
listener_body l = record { name = l.name; body = "" }

abbrev route_body : RouteConfiguration → Item plane route_type
route_body c = record { name = c.name; body = "" }

unwrap : (m a : ConnectionManager) → pack m ≡ inr a → m ≡ a
unwrap m a e = ground (arith, e)

rebuild-Resolves_example :
    Every
      (Resolves pack pack_inspector plane some
        (λ m a e. ap some (sym (unwrap m a e)))
        listener_body
        route_body
        (λ c. refl)
        translated
        "edge"
        idx)
      built.filter_chains
rebuild-Resolves_example =
    rebuild-Resolves pack pack_inspector plane some (λ m a e. ap some (sym (unwrap m a e)))
      listener_body route_body (λ c. refl) translated "edge" idx web built served builds

build_listener-plain_example :
    (length built.filter_chains ≡ length (hostnames_of web))
    × Every (λ c. c.filter_chain_match ≡ none) built.filter_chains
    × (built.listener_filters ≡ [])
build_listener-plain_example = build_listener-plain pack pack_inspector web built builds
