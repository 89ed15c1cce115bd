-- ===== src/Dispatch/Gateway/Rebuild.antt =====
-- What the handlers of gateway.go leave in the cache and in the ownership map.
use flowc.Prelude.{
  String, List, [], ◌∷◌, ◌++◌, Every, Option, none, some, ◌≡◌, ◌≢◌, refl, arith, string_eq, ◌==◌,
  eq_iff, if◌then◌else◌, Bool-cases, Option-cases, inl, inr, sym, ◌∙◌, ap, subst,
}
use flowc.Dict.{Dict, lookup, IsDistinct, IsDistinct-put}
use flowc.V1alpha1.Spec.{Gateway, Listener, Deployment}
use flowc.Index.State.{AffectedTask, ResourceNames, Indexer}
use flowc.Index.Queries.{get_gateway, listeners_for_gateway, deployments_for_gateway}
use flowc.Index.Ownership.{get_ownership, record_ownership, clear_ownership_for_node}
use flowc.Index.Ownership.Laws.{get-record, get-clear_node}
use flowc.Cache.Xds.{Xds, Laws, ResourceType, listener_type, route_type}
use flowc.Cache.Merge.Laws.{or_else}
use flowc.Dispatch.Gateway.Gathered.{together, owned}
use flowc.Dispatch.Gateway.Collected.{
  IsPlaceholder, buildable, build_listeners-buildable, made_for, rebuild-Collects,
}
use flowc.Cache.Manager.{Item, ApiDeployment, SnapshotSpec, Written, replace_snapshot, remove_node}
use flowc.Cache.Manager.Effects.{published, whole}
use flowc.Cache.Manager.Publishing.{replace_snapshot-Effect}
use flowc.Dispatch.Deployment.{World, resource_names_from_xds}
use flowc.Dispatch.Gateway.{
  hostnames_of, Rebuilt, nothing_rebuilt, add_deployment, add_deployments, add_placeholder,
  add_hostnames, add_placeholders, rebuild, snapshot_of, record_all, reowned, rebuild_gateway,
  handle_put, handle_delete,
}

module _ (x : Xds) where
  add_deployments-IsDistinct :
      (translated : Deployment → Option (ApiDeployment x)) (deps : List Deployment) (r : Rebuilt x)
      → IsDistinct r.per_dep_names
      → IsDistinct (add_deployments x translated deps r).per_dep_names
  unfolding add_deployments add_deployment
  add_deployments-IsDistinct translated [] r d = d
  add_deployments-IsDistinct translated (dep ∷ deps) r d = elim (Option-cases (translated dep)) [
    | inl skipped ↦
        rw (skipped, add_deployments, add_deployment)
          (add_deployments-IsDistinct translated deps r d)
    | inr (xds, made) ↦
        rw (made, add_deployments, add_deployment)
          (add_deployments-IsDistinct translated deps _
            (IsDistinct-put dep.name (resource_names_from_xds x xds) r.per_dep_names d))
  ]

  module _ (placeholder : String → String → Item x route_type) where
    hostnames_names :
        (l : Listener) (hs : List String) (r : Rebuilt x)
        → (add_hostnames x placeholder l hs r).per_dep_names ≡ r.per_dep_names
    unfolding add_hostnames add_placeholder
    hostnames_names l [] r = refl
    hostnames_names l (h ∷ hs) r =
        hostnames_names l hs (add_placeholder x placeholder l h r) ∙ ground arith

    placeholders_names :
        (ls : List Listener) (r : Rebuilt x)
        → (add_placeholders x placeholder ls r).per_dep_names ≡ r.per_dep_names
    unfolding add_placeholders
    placeholders_names [] r = refl
    placeholders_names (l ∷ ls) r =
        placeholders_names ls (add_hostnames x placeholder l (hostnames_of l) r)
        ∙ hostnames_names l (hostnames_of l) r

    module _ (translated : Deployment → Indexer → Option (ApiDeployment x))
        (build_listener : Listener → Option (Item x listener_type)) where
      rebuild-IsDistinct :
          (gw : String) (idx : Indexer)
          → IsDistinct (rebuild x placeholder translated build_listener gw idx).per_dep_names
      unfolding rebuild
      rebuild-IsDistinct gw idx =
          subst (λ m. IsDistinct m) (sym (placeholders_names (listeners_for_gateway gw idx) _))
            (add_deployments-IsDistinct (λ dep. translated dep idx) (deployments_for_gateway gw idx)
              (nothing_rebuilt x) tt)

      get-record_all :
          (node m dep : String) (names : Dict String ResourceNames) (idx : Indexer)
          → IsDistinct names
          → get_ownership m dep (record_all x placeholder translated build_listener node names idx)
            ≡ (if node == m
                then or_else (lookup dep names) (get_ownership m dep idx)
                else get_ownership m dep idx)
      unfolding record_all lookup
      get-record_all node m dep [] idx d = ground arith
      get-record_all node m dep ((k, v) ∷ names) idx d = ground (
        arith,
        get-record_all node m dep names (record_ownership node k v idx) d.1,
        get-record node k idx v m dep,
        eq_iff k dep,
        d.0,
      )

      reowned-ok :
          (node : String) (r : Rebuilt x) (idx : Indexer) (written : Written x)
          → (reowned x placeholder translated build_listener node r idx written).0 ≡ none
          → (written.0 ≡ none)
            × ((reowned x placeholder translated build_listener node r idx written).1 ≡ record {
              indexer =
                  record_all x placeholder translated build_listener node r.per_dep_names
                    (clear_ownership_for_node node idx);
              cache = written.1;
            })
      unfolding reowned
      reowned-ok node r idx (some e, cache) h = ground arith
      reowned-ok node r idx (none, cache) h = (refl, refl)

      abbrev told : String → Indexer → List (Item x route_type) → SnapshotSpec x
      told gw idx fill =
          let made = made_for x placeholder translated build_listener gw idx in
          record {
            clusters = together x (λ d. d.clusters) made;
            endpoints = together x (λ d. d.endpoints) made;
            listeners =
                buildable x placeholder translated build_listener (listeners_for_gateway gw idx);
            routes = together x (λ d. d.routes) made ++ fill;
          }

      module _ (laws : Laws x) where
        -- If go-control-plane keeps its laws: handlePut of a stored gateway, without an error,
        -- gives the gateway's node exactly the clusters, endpoints and routes of the gateway's
        -- deployments that translate, the gateway's listeners that can be built, and behind the
        -- routes nothing but placeholders for hostnames of the gateway's listeners. It leaves the
        -- node exactly the ownership entries of the deployments that translate, with the names of
        -- their resources; the other nodes keep their entries.
        pub rebuild_lem :
            (version : String) (task : AffectedTask) (w : World x) {gw : Gateway}
            → get_gateway task.name w.indexer ≡ some gw
            → (handle_put x placeholder translated build_listener version task w).0 ≡ none
            → let after = (handle_put x placeholder translated build_listener version task w).1 in
              let made = made_for x placeholder translated build_listener task.name w.indexer in
              let listeners = listeners_for_gateway task.name w.indexer in
              (fill : List (Item x route_type)) × Every (IsPlaceholder x placeholder listeners) fill
              × ((t : ResourceType) (n : String)
                  → published x gw.spec.node_id t n after.cache
                    ≡ whole x
                        (record {
                          clusters = together x (λ d. d.clusters) made;
                          endpoints = together x (λ d. d.endpoints) made;
                          listeners = buildable x placeholder translated build_listener listeners;
                          routes = together x (λ d. d.routes) made ++ fill;
                        })
                        t
                        n)
              × ((m dep : String)
                  → get_ownership m dep after.indexer ≡ (
                      if gw.spec.node_id == m
                      then owned x dep made
                      else get_ownership m dep w.indexer))
        unfolding handle_put rebuild_gateway
        rebuild_lem version task w {gw} stored done =
            let r = rebuild x placeholder translated build_listener task.name w.indexer in
            let node = gw.spec.node_id in
            let snap =
              snapshot_of x placeholder translated build_listener
                (listeners_for_gateway task.name w.indexer) r in
            let written = replace_snapshot x version node snap w.cache in
            let run : handle_put x placeholder translated build_listener version task w
                ≡ reowned x placeholder translated build_listener node r w.indexer written =
              rw (stored, handle_put) refl in
            let ok = reowned-ok node r w.indexer written (ap (λ q. q.0) (sym run) ∙ done) in
            let left = ap (λ q. q.1) run ∙ ok.1 in
            let c = rebuild-Collects x placeholder translated build_listener task.name w.indexer in
            let same : snap ≡ told task.name w.indexer c.fill = λ i. record {
              clusters = c.clusters i;
              endpoints = c.endpoints i;
              listeners =
                  (build_listeners-buildable x placeholder translated build_listener
                      (listeners_for_gateway task.name w.indexer))
                    i;
              routes = c.routes i;
            } in
            (
              c.fill,
              c.all,
              λ t n.
                  ap (λ u. published x node t n u.cache) left
                  ∙ (replace_snapshot-Effect x laws version node snap w.cache).gives ok.0 t n
                  ∙ ap (λ q. whole x q t n) same,
              λ m dep.
                  ap (λ u. get_ownership m dep u.indexer) left
                  ∙ ground (
                    arith,
                    get-record_all node m dep r.per_dep_names
                        (clear_ownership_for_node node w.indexer)
                        (rebuild-IsDistinct task.name w.indexer),
                    get-clear_node node "" w.indexer m dep,
                    c.names dep,
                  ),
            )

        -- If go-control-plane keeps its laws: handleDelete of a task that knows the node leaves
        -- the node without a snapshot and without ownership entries, and every other node its
        -- snapshot and its entries.
        pub handle_delete_lem :
            (task : AffectedTask) (w : World x)
            → task.node_id ≢ ""
            → let after = (handle_delete x placeholder translated build_listener task w).1 in
              (x.get_snapshot task.node_id after.cache ≡ none)
              × ((m dep : String)
                  → get_ownership m dep after.indexer
                    ≡ (if task.node_id == m then none else get_ownership m dep w.indexer))
              × ((m : String)
                  → task.node_id ≢ m
                  → x.get_snapshot m after.cache ≡ x.get_snapshot m w.cache)
        unfolding handle_delete remove_node
        handle_delete_lem task w known = elim (Bool-cases (task.node_id == "")) [
          | inl unknown ↦ absurd (ground (arith, unknown, eq_iff task.node_id ""))
          | inr known_ ↦ rw known_ (
            laws.get-clear task.node_id w.cache,
            λ m dep. get-clear_node task.node_id "" w.indexer m dep,
            λ m other. laws.get-clear_other task.node_id m w.cache other,
          )
        ]
