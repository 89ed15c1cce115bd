-- ===== src/Dispatch/Deployment/Lifecycle.antt =====
-- A deployment published by handlePut of deployment.go.
use flowc.Prelude.{String, none, some, ◌≡◌, refl, arith, string_eq, eq_self, ◌⊎◌, inr, sym, ◌∙◌, ap}
use flowc.V1alpha1.Spec.{Gateway, Listener, Api, Deployment}
use flowc.Index.State.{AffectedTask, ResourceNames, Indexer, gateway_of}
use flowc.Index.Queries.{get_gateway, get_deployment}
use flowc.Index.Ownership.{get_ownership, record_ownership}
use flowc.Index.Ownership.Laws.{get-record}
use flowc.Cache.Xds.{Xds, Laws, ResourceType}
use flowc.Cache.Merge.Laws.{or_else}
use flowc.Cache.Manager.{ApiDeployment, Written, deploy_api}
use flowc.Cache.Manager.Effects.{published, own, AllTyped}
use flowc.Cache.Manager.Publishing.{deploy_api-Effect}
use flowc.Dispatch.Deployment.{
  World, resource_names_from_xds, translate_one, recorded, publish_deployment, handle_put,
}

module _ (x : Xds) where
  module _ (compose : Deployment → Api → Gateway → Listener → String ⊎ ApiDeployment x) where
    recorded-ok :
        (node name : String) (names : ResourceNames) (idx : Indexer) (r : Written x)
        → (recorded x compose node name names idx r).0 ≡ none
        → (r.0 ≡ none)
          × ((recorded x compose node name names idx r).1
              ≡ record { indexer = record_ownership node name names idx; cache = r.1 })
    unfolding recorded
    recorded-ok node name names idx (some e, cache) h = ground arith
    recorded-ok node name names idx (none, cache) h = (refl, refl)

    -- A deployment that is stored, translates, and has its gateway stored.
    pub record Translates (task : AffectedTask) (w : World x) (dep : Deployment) (gw : Gateway)
        (xds : ApiDeployment x) : Type 0 where
      pub stored : get_deployment task.name w.indexer ≡ some dep
      pub translated : translate_one x compose dep w.indexer ≡ inr xds
      pub gateway : get_gateway (gateway_of dep) w.indexer ≡ some gw

    module _ (laws : Laws x) (version : String) (task : AffectedTask) (w : World x)
        {dep : Deployment} {gw : Gateway} {xds : ApiDeployment x}
        (ready : Translates task w dep gw xds) (typed : AllTyped x w.cache)
        (done : (handle_put x compose version task w).0 ≡ none) where
      abbrev pub node : String
      node = gw.spec.node_id

      abbrev pub after : World x
      after = (handle_put x compose version task w).1

      handle_put-publishes :
          handle_put x compose version task w
          ≡ publish_deployment x compose version task.name gw xds w
      unfolding handle_put
      handle_put-publishes =
          rw (ready.stored, handle_put) (rw ready.translated (rw ready.gateway refl))

      handle_put-steps :
          ((deploy_api x version node xds w.cache).0 ≡ none)
          × (after ≡ record {
            indexer = record_ownership node task.name (resource_names_from_xds x xds) w.indexer;
            cache = (deploy_api x version node xds w.cache).1;
          })
      unfolding publish_deployment
      handle_put-steps =
          let ok =
            recorded-ok node task.name (resource_names_from_xds x xds) w.indexer
              (deploy_api x version node xds w.cache)
              (ap (λ r. r.0) (sym handle_put-publishes) ∙ done) in
          (ok.0, ap (λ r. r.1) handle_put-publishes ∙ ok.1)

      -- If go-control-plane keeps its laws: handlePut without an error, of a stored deployment
      -- that translates and whose gateway is stored, on a cache of typed snapshots, gives the
      -- gateway's node the deployment's resources by name, and else what it was given before, and
      -- records the names of the deployment's resources for that node.
      pub handle_put_lem :
          ((t : ResourceType) (n : String)
            → published x node t n after.cache
              ≡ or_else (own x xds t n) (published x node t n w.cache))
          × (get_ownership node task.name after.indexer ≡ some (resource_names_from_xds x xds))
      handle_put_lem =
          let effect = deploy_api-Effect x laws version node xds w.cache typed in
          (
            λ t n.
                ap (λ u. published x node t n u.cache) handle_put-steps.1
                ∙ effect.gives handle_put-steps.0 t n,
            ap (λ u. get_ownership node task.name u.indexer) handle_put-steps.1
                ∙ get-record node task.name w.indexer (resource_names_from_xds x xds) node task.name
                ∙ ground (arith, eq_self node, eq_self task.name),
          )
