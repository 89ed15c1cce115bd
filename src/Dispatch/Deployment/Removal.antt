-- ===== src/Dispatch/Deployment/Removal.antt =====
-- handleDelete of deployment.go where a listener of the node still refers to a route configuration of
-- the deployment.
use flowc.Prelude.{
  String, none, some, true, ◌≡◌, ◌≢◌, ◌⊎◌, inl, inr, refl, arith, string_eq, contains, is_some,
  if◌then◌else◌, Option-cases, Sum-cases, ap, ◌∙◌,
}
use flowc.Dict.{lookup}
use flowc.V1alpha1.Spec.{Gateway, Listener, Api, Deployment}
use flowc.Index.State.{AffectedTask, ResourceNames}
use flowc.Index.Ownership.{ownership_for_deployment}
use flowc.Cache.Xds.{Xds, Laws, listener_type, route_type}
use flowc.Cache.Manager.{
  CacheError, creation, inconsistent, ApiDeployment, undeployed, update_snapshot, install,
  undeploy_api,
}
use flowc.Cache.Manager.Effects.{IsTyped, undeployed-named}
use flowc.Dispatch.Deployment.{World, cleared, handle_delete}

module _ (x : Xds) (laws : Laws x) (Refers : x.Resource → String → Type 0) where
  -- What Snapshot.Consistent of go-control-plane asks of listeners and routes: each route
  -- configuration that a listener refers to is in the snapshot.
  abbrev pub RefusesDangling : Type 0
  RefusesDangling =
      (s : x.Snapshot) (l n : String) (r : x.Resource)
      → x.consistent s ≡ none
      → lookup l (x.get_resources s listener_type) ≡ some r
      → Refers r n
      → is_some (lookup n (x.get_resources s route_type)) ≡ true

  module _ (strict : RefusesDangling) (version node : String) (names : ResourceNames)
      (cache : x.SnapshotCache) {s : x.Snapshot} {r : x.Resource} (l n : String)
      (held : x.get_snapshot node cache ≡ some s) (typed : IsTyped x s)
      (listed : lookup l (x.get_resources s listener_type) ≡ some r) (used : Refers r n)
      (owned : contains names.routes n ≡ true) where
    -- The snapshot without the deployment's resources is not consistent.
    refused :
        (left : x.Snapshot)
        → x.new_snapshot version (undeployed x s names) ≡ inr left
        → x.consistent left ≢ none
    refused left made passed =
        let stays : lookup l (x.get_resources left listener_type) ≡ some r =
          laws.resources-new version (undeployed x s names) left made listener_type l
          ∙ undeployed-named x laws s typed l names listener_type
          ∙ listed in
        let gone : lookup n (x.get_resources left route_type) ≡ none =
          laws.resources-new version (undeployed x s names) left made route_type n
          ∙ undeployed-named x laws s typed n names route_type
          ∙ ap (λ b. if b then none else lookup n (x.get_resources s route_type)) owned in
        let there = strict left l n r passed stays used in absurd (ground (arith, gone, there))

    undeploy_api-refused :
        (e : CacheError x.Error) × (undeploy_api x version node names cache ≡ (some e, cache))
    unfolding undeploy_api install update_snapshot
    undeploy_api-refused = elim (Sum-cases (x.new_snapshot version (undeployed x s names))) [
      | inl (e, failed) ↦ (creation e, rw (held, undeploy_api) (rw (failed, install) refl))
      | inr (left, made) ↦ elim (Option-cases (x.consistent left)) [
        | inl passed ↦ absurd (refused left made passed)
        | inr (e, bad) ↦ (
          inconsistent e,
          rw (held, undeploy_api) (rw (made, install) (rw (bad, update_snapshot) refl)),
        )
      ]
    ]

  module _ (compose : Deployment → Api → Gateway → Listener → String ⊎ ApiDeployment x) where
    -- If go-control-plane keeps its laws, and its consistency check asks for every route configuration
    -- that a listener refers to: a deployment of which a route configuration is referred to by a listener
    -- of its node cannot be deleted. handleDelete answers an error, and the snapshot and the ownership
    -- entry stay as they are.
    pub handle_delete-refused :
        RefusesDangling
        → (version : String) (task : AffectedTask) (w : World x) (node : String)
          (names : ResourceNames) (s : x.Snapshot) (r : x.Resource) (l n : String)
        → ownership_for_deployment task.name w.indexer ≡ some (node, names)
        → x.get_snapshot node w.cache ≡ some s
        → IsTyped x s
        → lookup l (x.get_resources s listener_type) ≡ some r
        → Refers r n
        → contains names.routes n ≡ true
        → ((handle_delete x compose version task w).0 ≢ none)
          × ((handle_delete x compose version task w).1 ≡ w)
    unfolding handle_delete cleared
    handle_delete-refused strict version task w node names s r l n owner held typed listed used
          owned =
        let (e, kept) =
          undeploy_api-refused strict version node names w.cache l n held typed listed used owned in
        rw (owner, handle_delete) (rw (kept, cleared) ((λ ok. ground arith), refl))
