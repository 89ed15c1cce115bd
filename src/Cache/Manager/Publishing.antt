-- ===== src/Cache/Manager/Publishing.antt =====
-- DeployAPI, UnDeployAPI, ReplaceSnapshot and RemoveNode of cache.go, by what a node is given after.
use flowc.Prelude.{
  String, none, Bool, ◌≡◌, refl, arith, string_eq, if◌then◌else◌, Option-cases, inl, inr, ◌∙◌, ap,
}
use flowc.Dict.{lookup}
use flowc.Cache.Xds.{Xds, Laws, ResourceType}
use flowc.Cache.Merge.{by_name}
use flowc.Cache.Merge.Laws.{or_else}
use flowc.Cache.Manager.{
  creation, ApiDeployment, SnapshotSpec, create_empty_snapshot, deployed, undeployed, replaced,
  deploy_on, deploy_api, undeploy_api, replace_snapshot,
}
use flowc.Cache.Manager.Effects.{
  Sum-cases, held, published, own, dropped, whole, IsTyped, AllTyped, Effect, failed-Effect,
  install-Effect, deployed-named, undeployed-named, replaced-named,
}
use flowc.Index.State.{ResourceNames}

same_branches : {A : Type 0} (a : A) (b : Bool) → a ≡ (if b then a else a)
same_branches a b = ground arith

-- What a node that starts empty is given stays none.
module _ (x : Xds) (laws : Laws x) where
  empty-named :
      (s : x.Snapshot)
      → create_empty_snapshot x ≡ inr s
      → (t : ResourceType) (n : String) → lookup n (x.get_resources s t) ≡ none
  unfolding create_empty_snapshot by_name lookup
  empty-named s made t n = laws.resources-new "0" _ s made t n

  empty-IsTyped : (s : x.Snapshot) → create_empty_snapshot x ≡ inr s → IsTyped x s
  empty-IsTyped s made t n r found = ground (arith, empty-named s made t n)

  -- If go-control-plane keeps its laws: DeployAPI on a cache whose snapshots are typed, without an
  -- error, gives the node, for each type and name, the deployment's last resource of that name,
  -- and else what it was given before, so every listener stays; an error before SetSnapshot
  -- changes nothing; in every case the node is given all of that or the cache is as before; the
  -- other nodes keep their snapshots.
  pub deploy_api-Effect :
      (version node : String) (d : ApiDeployment x) (cache : x.SnapshotCache)
      → AllTyped x cache
      → Effect x node
          (λ t n. or_else (own x d t n) (published x node t n cache))
          cache
          (deploy_api x version node d cache)
  unfolding deploy_api deploy_on
  deploy_api-Effect version node d cache typed = elim (Option-cases (x.get_snapshot node cache)) [
    | inr (s, found) ↦
        rw (found, deploy_api)
          (install-Effect x laws version node (deployed x s d) _ cache
            λ t n. deployed-named x laws s (typed node s found) n d t)
    | inl missing ↦ elim (Sum-cases (create_empty_snapshot x)) [
      | inl (e, failed) ↦
          rw (missing, failed, deploy_api) (failed-Effect x node _ cache (creation e))
      | inr (s, made) ↦
          rw (missing, made, deploy_api)
            (install-Effect x laws version node (deployed x s d) _ cache λ t n.
              deployed-named x laws s (empty-IsTyped s made) n d t
              ∙ ap (or_else (own x d t n)) (empty-named s made t n))
    ]
  ]

  -- If go-control-plane keeps its laws: UnDeployAPI on a cache whose snapshots are typed, without
  -- an error, gives the node exactly what it was given before less the named clusters, endpoints
  -- and routes, so every listener stays; an error before SetSnapshot changes nothing; in every
  -- case the node is given all of that or the cache is as before; the other nodes keep their
  -- snapshots.
  pub undeploy_api-Effect :
      (version node : String) (names : ResourceNames) (cache : x.SnapshotCache)
      → AllTyped x cache
      → Effect x node
          (λ t n. if dropped x names t n then none else published x node t n cache)
          cache
          (undeploy_api x version node names cache)
  unfolding undeploy_api
  undeploy_api-Effect version node names cache typed =
      elim (Option-cases (x.get_snapshot node cache)) [
        | inr (s, found) ↦
            rw (found, undeploy_api)
              (install-Effect x laws version node (undeployed x s names) _ cache
                λ t n. undeployed-named x laws s (typed node s found) n names t)
        | inl missing ↦
            rw (missing, undeploy_api)
              (record {
                gives = λ _ t n. ap (held x t n) missing ∙ same_branches none (dropped x names t n);
                keeps_inconsistent = λ e h. ground arith;
                keeps_uncreated = λ e h. ground arith;
                all_or_nothing = inl refl;
                others = λ _ _. refl;
              })
      ]

  -- If go-control-plane keeps its laws: ReplaceSnapshot, without an error, gives the node exactly
  -- the resources of the new snapshot, the last of a name, listeners too; an error before
  -- SetSnapshot changes nothing; in every case the node is given all of that or the cache is as
  -- before; the other nodes keep their snapshots.
  pub replace_snapshot-Effect :
      (version node : String) (snap : SnapshotSpec x) (cache : x.SnapshotCache)
      → Effect x node (whole x snap) cache (replace_snapshot x version node snap cache)
  unfolding replace_snapshot
  replace_snapshot-Effect version node snap cache =
      install-Effect x laws version node (replaced x snap) _ cache
        λ t n. replaced-named x laws n snap t
