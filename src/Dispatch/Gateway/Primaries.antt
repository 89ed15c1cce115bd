-- ===== src/Dispatch/Gateway/Primaries.antt =====
-- The translators of deployment.go and gateway.go write the ownership map of the index and no other
-- part of it.
use flowc.Prelude.{
  String, [], ◌∷◌, Option, none, some, ◌⊎◌, inl, inr, ◌≡◌, refl, arith, string_eq, Option-cases,
  Sum-cases, if_rule, ◌==◌,
}
use flowc.Dict.{Dict}
use flowc.V1alpha1.Spec.{Gateway, Listener, Api, Deployment}
use flowc.Index.State.{AffectedTask, ResourceNames, Indexer, gateway_of}
use flowc.Index.Ownership.{
  record_ownership, ownership_for_deployment, clear_ownership, clear_ownership_for_node,
}
use flowc.Index.Queries.{get_deployment, get_gateway, listeners_for_gateway}
use flowc.Index.View.Told.{primaries}
use flowc.Cache.Xds.{Xds, listener_type, route_type}
use flowc.Cache.Manager.{ApiDeployment, Item, Written, replace_snapshot}
use flowc.Dispatch.Deployment.{World, Handled, recorded, cleared, publish_deployment, translate_one}
use flowc.Dispatch.Deployment
use flowc.Dispatch.Gateway.{Rebuilt, Rebuilding, rebuild, snapshot_of, record_all, reowned}
use flowc.Dispatch.Gateway

primaries-clear :
    (node_id dep : String) (idx : Indexer)
    → primaries (clear_ownership node_id dep idx) ≡ primaries idx
unfolding clear_ownership
primaries-clear node_id dep idx = ground arith

module _ (x : Xds)
    (compose : Deployment → Api → Gateway → Listener → String ⊎ ApiDeployment x) where
  recorded-kept :
      (node_id name : String) (names : ResourceNames) (idx : Indexer) (written : Written x)
      → primaries (recorded x compose node_id name names idx written).1.indexer ≡ primaries idx
  unfolding recorded record_ownership
  recorded-kept node_id name names idx (some e, cache) = refl
  recorded-kept node_id name names idx (none, cache) = refl

  cleared-kept :
      (node_id name : String) (idx : Indexer) (written : Written x)
      → primaries (cleared x compose node_id name idx written).1.indexer ≡ primaries idx
  unfolding cleared
  cleared-kept node_id name idx (some e, cache) = refl
  cleared-kept node_id name idx (none, cache) = primaries-clear node_id name idx

  put-kept :
      (version : String) (task : AffectedTask) (w : World x)
      → primaries (Deployment.handle_put x compose version task w).1.indexer ≡ primaries w.indexer
  unfolding Deployment.handle_put publish_deployment
  put-kept version task w = elim (Option-cases (get_deployment task.name w.indexer)) [
    | inl missing ↦ rw (missing, Deployment.handle_put) refl
    | inr (dep, stored) ↦ elim (Sum-cases (translate_one x compose dep w.indexer)) [
      | inl (e, failed) ↦ rw (stored, failed, Deployment.handle_put) refl
      | inr (xds, made) ↦ elim (Option-cases (get_gateway (gateway_of dep) w.indexer)) [
        | inl gone ↦ rw (stored, made, gone, Deployment.handle_put) refl
        | inr (gw, there) ↦
            rw (stored, made, there, Deployment.handle_put)
              (recorded-kept gw.spec.node_id task.name _ w.indexer _)
      ]
    ]
  ]

  delete-kept :
      (version : String) (task : AffectedTask) (w : World x)
      → primaries (Deployment.handle_delete x compose version task w).1.indexer
        ≡ primaries w.indexer
  unfolding Deployment.handle_delete
  delete-kept version task w = elim (Option-cases (ownership_for_deployment task.name w.indexer)) [
    | inl missing ↦ rw (missing, Deployment.handle_delete) refl
    | inr (owner, found) ↦
        rw (found, Deployment.handle_delete) (cleared-kept owner.0 task.name w.indexer _)
  ]

  -- The deployment translator leaves the primary maps of the index as they are.
  pub deployment-kept :
      (version : String) (task : AffectedTask) (w : World x)
      → primaries (Deployment.translate x compose version task w).1.indexer ≡ primaries w.indexer
  unfolding Deployment.translate
  deployment-kept version task w =
      if_rule (λ (r : Handled x compose). primaries r.1.indexer ≡ primaries w.indexer) task.deletion
        (λ _. delete-kept version task w) (λ _. put-kept version task w)

module _ (x : Xds) (placeholder : String → String → Item x route_type)
    (translated : Deployment → Indexer → Option (ApiDeployment x))
    (build_listener : Listener → Option (Item x listener_type)) where
  primaries-record_all :
      (node_id : String) (names : Dict String ResourceNames) (idx : Indexer)
      → primaries (record_all x placeholder translated build_listener node_id names idx)
        ≡ primaries idx
  unfolding record_all record_ownership
  primaries-record_all node_id [] idx = refl
  primaries-record_all node_id ((dep, n) ∷ names) idx =
      primaries-record_all node_id names (record_ownership node_id dep n idx)

  reowned-kept :
      (node_id : String) (r : Rebuilt x) (idx : Indexer) (written : Written x)
      → primaries (reowned x placeholder translated build_listener node_id r idx written).1.indexer
        ≡ primaries idx
  unfolding reowned clear_ownership_for_node
  reowned-kept node_id r idx (some e, cache) = refl
  reowned-kept node_id r idx (none, cache) =
      primaries-record_all node_id r.per_dep_names (clear_ownership_for_node node_id idx)

  -- So does the gateway translator.
  pub gateway-kept :
      (version : String) (task : AffectedTask) (w : World x)
      → primaries
          (Gateway.translate x placeholder translated build_listener version task w).1.indexer
        ≡ primaries w.indexer
  unfolding Gateway.translate Gateway.handle_put Gateway.handle_delete Gateway.rebuild_gateway
      clear_ownership_for_node
  gateway-kept version task w =
      if_rule
        (λ (r : Rebuilding x placeholder translated build_listener).
          primaries r.1.indexer ≡ primaries w.indexer)
        task.deletion
        (λ _.
          if_rule
            (λ (r : Rebuilding x placeholder translated build_listener).
              primaries r.1.indexer ≡ primaries w.indexer)
            (task.node_id == "") (λ _. refl) (λ _. refl))
        (λ _. elim (Option-cases (get_gateway task.name w.indexer)) [
          | inl missing ↦ rw (missing, Gateway.handle_put) refl
          | inr (gw, there) ↦
              rw (there, Gateway.handle_put)
                (let r = rebuild x placeholder translated build_listener task.name w.indexer in
                  reowned-kept gw.spec.node_id r w.indexer (
                    replace_snapshot x version gw.spec.node_id
                      (snapshot_of x placeholder translated build_listener
                        (listeners_for_gateway task.name w.indexer) r)
                      w.cache))
        ])
