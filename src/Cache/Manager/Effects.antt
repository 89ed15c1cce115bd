-- ===== src/Cache/Manager/Effects.antt =====
-- What the operations of cache.go publish, by node, type and resource name.
use flowc.Prelude.{
  String, List, [], map, Option, none, some, Bool, false, ◌≡◌, ◌≢◌, refl, arith, string_eq,
  if◌then◌else◌, contains, Option-cases, ◌⊎◌, inl, inr, ◌∙◌, ap,
}
use flowc.Dict.{lookup, values}
use flowc.Cache.Xds.{
  Xds, Laws, ResourceType, cluster_type, endpoint_type, listener_type, route_type,
}
use flowc.Cache.Merge.{by_name, merge, remaining}
use flowc.Cache.Merge.Laws.{
  or_else, last_named, lookup-values, lookup-merge, lookup-remaining, lookup-items,
}
use flowc.Cache.Manager.{
  CacheError, creation, inconsistent, Item, ApiDeployment, SnapshotSpec, Written, update_snapshot,
  deployed, undeployed, replaced, install,
}
use flowc.Index.State.{ResourceNames}

abbrev pub Sum-cases :
    {A B : Type 0} (s : A ⊎ B) → ((a : A) × (s ≡ inl a)) ⊎ ((b : B) × (s ≡ inr b))
Sum-cases (inl a) = inl (a, refl)
Sum-cases (inr b) = inr (b, refl)

module _ (x : Xds) where
  abbrev pub held : ResourceType → String → Option x.Snapshot → Option x.Resource
  held t n none = none
  held t n (some s) = lookup n (x.get_resources s t)

  -- The resource that a node is given, by type and name.
  abbrev pub published : String → ResourceType → String → x.SnapshotCache → Option x.Resource
  published node t n cache = held t n (x.get_snapshot node cache)

  -- The last resource of a name in a list.
  abbrev pub last : (t : ResourceType) → String → List (Item x t) → Option x.Resource
  last t n is = last_named (x.kind_of t).of_item (x.kind_of t).item_name n is

  -- What a deployment provides.
  abbrev pub own : ApiDeployment x → ResourceType → String → Option x.Resource
  own d cluster_type n = last cluster_type n d.clusters
  own d endpoint_type n = last endpoint_type n d.endpoints
  own d route_type n = last route_type n d.routes
  own d listener_type n = none

  -- What a removal names.
  abbrev pub dropped : ResourceNames → ResourceType → String → Bool
  dropped names cluster_type n = contains names.clusters n
  dropped names endpoint_type n = contains names.endpoints n
  dropped names route_type n = contains names.routes n
  dropped names listener_type n = false

  abbrev pub whole : SnapshotSpec x → ResourceType → String → Option x.Resource
  whole snap cluster_type n = last cluster_type n snap.clusters
  whole snap endpoint_type n = last endpoint_type n snap.endpoints
  whole snap listener_type n = last listener_type n snap.listeners
  whole snap route_type n = last route_type n snap.routes

  -- Every resource of a snapshot is of its type and stands under its name.
  abbrev pub IsTyped : x.Snapshot → Type 0
  IsTyped s =
      (t : ResourceType) (n : String) (r : x.Resource)
      → lookup n (x.get_resources s t) ≡ some r
      → (i : Item x t) × ((x.kind_of t).as_item r ≡ some i) × ((x.kind_of t).item_name i ≡ n)

  abbrev pub AllTyped : x.SnapshotCache → Type 0
  AllTyped cache = (node : String) (s : x.Snapshot) → x.get_snapshot node cache ≡ some s → IsTyped s

  -- What a write leaves: without an error the node is given `want`; an error before SetSnapshot
  -- changes nothing; other nodes keep theirs.
  pub record Effect (node : String) (want : ResourceType → String → Option x.Resource)
      (cache : x.SnapshotCache) (r : Written x) : Type 0 where
    pub gives : r.0 ≡ none → (t : ResourceType) (n : String) → published node t n r.1 ≡ want t n
    pub keeps_inconsistent : (e : x.Error) → r.0 ≡ some (inconsistent e) → r.1 ≡ cache
    pub keeps_uncreated : (e : x.Error) → r.0 ≡ some (creation e) → r.1 ≡ cache
    pub all_or_nothing :
        (r.1 ≡ cache) ⊎ ((t : ResourceType) (n : String) → published node t n r.1 ≡ want t n)
    pub others :
        (node' : String) → node ≢ node' → x.get_snapshot node' r.1 ≡ x.get_snapshot node' cache

  -- An error before SetSnapshot.
  pub failed-Effect :
      (node : String) (want : ResourceType → String → Option x.Resource) (cache : x.SnapshotCache)
      (e : CacheError x.Error)
      → Effect node want cache (some e, cache)
  failed-Effect node want cache e = record {
    gives = λ none_. ground arith;
    keeps_inconsistent = λ _ _. refl;
    keeps_uncreated = λ _ _. refl;
    all_or_nothing = inl refl;
    others = λ _ _. refl;
  }

  module _ (laws : Laws x) where
    update_snapshot-Effect :
        (node : String) (s : x.Snapshot) (want : ResourceType → String → Option x.Resource)
        (cache : x.SnapshotCache)
        → ((t : ResourceType) (n : String) → lookup n (x.get_resources s t) ≡ want t n)
        → Effect node want cache (update_snapshot x node s cache)
    unfolding update_snapshot
    update_snapshot-Effect node s want cache same = elim (Option-cases (x.consistent s)) [
      | inr (e, bad) ↦ rw (bad, update_snapshot) (failed-Effect node want cache (inconsistent e))
      | inl good ↦
          rw (good, update_snapshot)
            (record {
              gives = λ none_ t n. ap (held t n) (laws.get-set node s cache) ∙ same t n;
              keeps_inconsistent = λ e h. elim (Option-cases (x.set_snapshot node s cache).0) [
                | inl done ↦ ground (arith, done)
                | inr (e', failed) ↦ ground (arith, failed)
              ];
              keeps_uncreated = λ e h. elim (Option-cases (x.set_snapshot node s cache).0) [
                | inl done ↦ ground (arith, done)
                | inr (e', failed) ↦ ground (arith, failed)
              ];
              all_or_nothing = inr λ t n. ap (held t n) (laws.get-set node s cache) ∙ same t n;
              others = λ node' other. laws.get-set_other node node' s cache other;
            })
    ]

    pub install-Effect :
        (version node : String) (resources : ResourceType → List x.Resource)
        (want : ResourceType → String → Option x.Resource) (cache : x.SnapshotCache)
        → ((t : ResourceType) (n : String)
            → lookup n (by_name some x.resource_name (resources t) []) ≡ want t n)
        → Effect node want cache (install x version node resources cache)
    unfolding install
    install-Effect version node resources want cache same =
        elim (Sum-cases (x.new_snapshot version resources)) [
          | inl (e, failed) ↦ rw (failed, install) (failed-Effect node want cache (creation e))
          | inr (s, made) ↦
              rw (made, install)
                (update_snapshot-Effect node s want cache
                  λ t n. laws.resources-new version resources s made t n ∙ same t n)
        ]

    module _ (s : x.Snapshot) (typed : IsTyped s) (n : String) (t : ResourceType) where
      abbrev held_by_name : List x.Resource → Option x.Resource
      held_by_name rs = lookup n (by_name some x.resource_name rs [])

      merging :
          (is : List (Item x t))
          → held_by_name (merge (x.kind_of t) (x.get_resources s t) is)
            ≡ or_else (last t n is) (lookup n (x.get_resources s t))
      merging is =
          lookup-merge (x.kind_of t) x.resource_name (laws.as-of t) (laws.named t) n is
            (x.get_resources s t) (laws.distinct s t) (typed t)

      removing :
          (names : List String)
          → held_by_name (remaining (x.kind_of t) (x.get_resources s t) names)
            ≡ (if contains names n then none else lookup n (x.get_resources s t))
      removing names =
          lookup-remaining (x.kind_of t) x.resource_name (laws.as-of t) (laws.named t) n names
            (x.get_resources s t) (laws.distinct s t) (typed t)

      copying : held_by_name (values (x.get_resources s t)) ≡ lookup n (x.get_resources s t)
      copying =
          lookup-values (x.kind_of t) x.resource_name (laws.as-of t) (laws.named t) n
            (x.get_resources s t) (laws.distinct s t) (typed t)

    module _ (s : x.Snapshot) (typed : IsTyped s) (n : String) where
      pub deployed-named :
          (d : ApiDeployment x) (t : ResourceType)
          → held_by_name s typed n t (deployed x s d t)
            ≡ or_else (own d t n) (lookup n (x.get_resources s t))
      deployed-named d cluster_type = merging s typed n cluster_type d.clusters
      deployed-named d endpoint_type = merging s typed n endpoint_type d.endpoints
      deployed-named d route_type = merging s typed n route_type d.routes
      deployed-named d listener_type = copying s typed n listener_type

      pub undeployed-named :
          (names : ResourceNames) (t : ResourceType)
          → held_by_name s typed n t (undeployed x s names t)
            ≡ (if dropped names t n then none else lookup n (x.get_resources s t))
      undeployed-named names cluster_type = removing s typed n cluster_type names.clusters
      undeployed-named names endpoint_type = removing s typed n endpoint_type names.endpoints
      undeployed-named names route_type = removing s typed n route_type names.routes
      undeployed-named names listener_type = copying s typed n listener_type

    listing :
        (n : String) (t : ResourceType) (is : List (Item x t))
        → lookup n (by_name some x.resource_name (map (x.kind_of t).of_item is) []) ≡ last t n is
    unfolding lookup
    listing n t is =
        ground
          (arith, lookup-items (x.kind_of t) x.resource_name (laws.as-of t) (laws.named t) n is [])

    pub replaced-named :
        (n : String) (snap : SnapshotSpec x) (t : ResourceType)
        → lookup n (by_name some x.resource_name (replaced x snap t) []) ≡ whole snap t n
    replaced-named n snap cluster_type = listing n cluster_type snap.clusters
    replaced-named n snap endpoint_type = listing n endpoint_type snap.endpoints
    replaced-named n snap listener_type = listing n listener_type snap.listeners
    replaced-named n snap route_type = listing n route_type snap.routes
