-- ===== src/Reconciler/Starting.antt =====
-- What Start of reconciler.go leaves when it enters its loop.
use flowc.Prelude.{
  ℕ, String, List, [], ◌∷◌, Option, false, none, some, ◌≡◌, ◌≢◌, string_eq, refl, sym, ap, ◌∙◌,
  subst,
}
use flowc.Store.Resource.{StoredResource, WatchFilter}
use flowc.Store.Watch.{Contexts}
use flowc.Store.Memory.{MemoryStore, Outcome, ok, watch}
use flowc.Store.Memory.Soundness.{IsSound}
use flowc.Store.Memory.Watchers.{watch-IsSound}
use flowc.Index.State.{AffectedTask, new}
use flowc.Index.Decode.{Unmarshal}
use flowc.Index.Queries.{gateways}
use flowc.Index.Bootstrap.{bootstrap}
use flowc.Index.Bootstrap.Exact.{bootstrap_lem}
use flowc.Index.Reflection.{Reflects}
use flowc.Cache.Xds.{Xds}
use flowc.Dispatch.Queue.{enqueue}
use flowc.Dispatch.Queue.Laws.{translators-enqueue}
use flowc.Reconciler.{
  Environment, Reconciler, Started, watched, booted, start, full_rebuild, startup_tasks,
  new_reconciler,
}
use flowc.Reconciler.System.{System, queue, Reach, drain}
use flowc.Store.Memory.Subscribed.{queue_of, watch-all}
use flowc.Dict.{lookup}
use flowc.Index.View.{IndexedKind, view_of}
use flowc.Index.Bootstrap.After.{stored}
use flowc.Reconciler.Following.{
  wiring, new_reconciler_lem, IsFollowing, flush-IsFollowing, Reach-IsFollowing,
}

module _ (x : Xds) (env : Environment x) (json : Unmarshal) where
  -- The reconciler that NewReconciler returns.
  abbrev pub fresh : x.SnapshotCache → Reconciler x
  fresh cache = record {
    world = record { indexer = new; cache = cache };
    dispatcher = record { translators = wiring x env; pending = []; scheduled = false };
  }

  full_rebuild-IsFollowing :
      (tasks : List AffectedTask) (sys : System x)
      → IsFollowing x env json sys
      → IsFollowing x env json (record sys { reconciler = full_rebuild x env tasks sys.reconciler })
  unfolding full_rebuild
  full_rebuild-IsFollowing [] sys h = h
  full_rebuild-IsFollowing (t ∷ tasks) sys h =
      flush-IsFollowing x env json
        (record sys {
          reconciler = record sys.reconciler {
            dispatcher = enqueue (t ∷ tasks) sys.reconciler.dispatcher;
          };
        })
        (record {
          sound = h.sound;
          waits = h.waits;
          listens = h.listens;
          wired = translators-enqueue (t ∷ tasks) sys.reconciler.dispatcher ∙ h.wired;
          follows = h.follows;
        })

  module _ (cache : x.SnapshotCache) {r0 : Reconciler x}
      (made : new_reconciler x env cache ≡ some r0) where
    pub new_reconciler-fresh : fresh cache ≡ r0
    new_reconciler-fresh =
        let either : Option (Reconciler x) → Reconciler x =
          λ o. elim o [ none ↦ fresh cache | some r ↦ r ] in
        ap either (sym (new_reconciler_lem x env json cache) ∙ made)

  module _ (contexts : Contexts) (ctx : ℕ) (listed s : MemoryStore) (r0 : Reconciler x) where
    abbrev pub started : Started x env json × Reconciler x × MemoryStore
    started = start x env json contexts ctx listed s r0

    abbrev pub running : System x
    running = record {
      store = started.2;
      channel = s.next_channel;
      ctx = ctx;
      reconciler = started.1;
    }

  -- The resources of one store beside the watchers and channels of another.
  mixed-IsSound :
      (listed s : MemoryStore)
      → IsSound listed
      → IsSound s
      → IsSound (record s { resources = listed.resources })
  mixed-IsSound listed s old new_ = record {
    distinct = old.distinct;
    keyed = old.keyed;
    watching = new_.watching;
    watchers_unique = new_.watchers_unique;
    cleanups_unique = new_.cleanups_unique;
    open_ = new_.open_;
    fresh = new_.fresh;
  }

  module _ (contexts : Contexts) (ctx : ℕ) (listed s : MemoryStore) (live : contexts ctx ≡ none)
      (old : IsSound listed) (sound : IsSound s) where
    -- Where booting from an index ends: the loop follows the listed resources.
    abbrev Ends : Reconciler x → Option (String × Outcome (List StoredResource)) → Type 0
    Ends r o =
        let out = booted x env json contexts ctx s o r in
        (out.0 ≡ watched (ok s.next_channel))
        × (out.2.resources ≡ s.resources)
        × (queue_of s.next_channel out.2 ≡ [])
        × IsFollowing x env json (record {
          store = record out.2 { resources = listed.resources };
          channel = s.next_channel;
          ctx = ctx;
          reconciler = out.1;
        })

    booted-Ends :
        (r : Reconciler x)
        → r.dispatcher.translators ≡ wiring x env
        → Reflects json listed.resources r.world.indexer
        → Ends r none
    unfolding booted drain
    booted-Ends r wired shows =
        let all : WatchFilter = record { kind = "" } in
        let after = (watch contexts ctx all s).1 in
        let (outcome, kept, empty, waits, listens) = watch-all contexts ctx s live in
        (
          ap watched outcome,
          kept,
          empty,
          full_rebuild-IsFollowing (startup_tasks (gateways r.world.indexer))
              (record {
                store = record after { resources = listed.resources };
                channel = s.next_channel;
                ctx = ctx;
                reconciler = r;
              })
              (record {
                sound = mixed-IsSound listed after old (watch-IsSound contexts ctx s sound all).0;
                waits = waits;
                listens = listens;
                wired = wired;
                follows =
                    subst (λ q. Reflects json listed.resources (drain json q r.world.indexer))
                      (sym empty) shows;
              }),
        )

    -- Where Start ends.
    Begins : Reconciler x → Type 0
    Begins r =
        ((started contexts ctx listed s r).0 ≡ watched (ok s.next_channel))
        × ((started contexts ctx listed s r).2.resources ≡ s.resources)
        × (queue (running contexts ctx listed s r) ≡ [])
        × IsFollowing x env json (record (running contexts ctx listed s r) {
          store = record (started contexts ctx listed s r).2 { resources = listed.resources };
        })

    fresh-Begins : (cache : x.SnapshotCache) → Begins (fresh cache)
    unfolding start Begins
    fresh-Begins cache =
        let b = bootstrap_lem json contexts ctx listed live old in
        let idx = (bootstrap json contexts ctx listed new).1 in
        let r = record (fresh cache) { world = record { indexer = idx; cache = cache } } in
        subst (Ends r) (sym b.0) (booted-Ends r refl b.1)

    start-Begins :
        (cache : x.SnapshotCache) {r0 : Reconciler x}
        → new_reconciler x env cache ≡ some r0
        → Begins r0
    start-Begins cache made = subst Begins (new_reconciler-fresh cache made) (fresh-Begins cache)

    -- If the store was not written to between Bootstrap and Watch, the loop follows it.
    start-IsFollowing :
        (cache : x.SnapshotCache) {r0 : Reconciler x}
        → new_reconciler x env cache ≡ some r0
        → s.resources ≡ listed.resources
        → ((started contexts ctx listed s r0).0 ≡ watched (ok s.next_channel))
          × IsFollowing x env json (running contexts ctx listed s r0)
    unfolding Begins
    start-IsFollowing cache {r0} made same =
        let (opened, kept, empty, follows) = start-Begins cache made in
        let end = running contexts ctx listed s r0 in
        (
          opened,
          subst
              (λ m.
                IsFollowing x env json (record end { store = record end.store { resources = m } }))
              (sym (kept ∙ same)) follows,
        )

    -- The reconciler that NewReconciler makes is started with a context that is not done, and no
    -- resource is written between the lists of Bootstrap and the call of Watch. Then Start opens its
    -- watch, and after every run of writers of the store, of the loop and of the debounce timer, in any
    -- order, the events that are still in the loop's channel take the index to one that shows exactly
    -- what the stored resources decode to; so it shows that itself when the channel is empty. The writes
    -- succeed while the loop's context is live and its channel has room, and what they write decodes.
    pub Reach-Reflects :
        (cache : x.SnapshotCache) {r0 : Reconciler x} {sys : System x}
        → new_reconciler x env cache ≡ some r0
        → s.resources ≡ listed.resources
        → Reach x env json (running contexts ctx listed s r0) sys
        → ((started contexts ctx listed s r0).0 ≡ watched (ok s.next_channel))
          × Reflects json sys.store.resources (drain json (queue sys) sys.reconciler.world.indexer)
          × (queue sys ≡ [] → Reflects json sys.store.resources sys.reconciler.world.indexer)
    unfolding drain
    Reach-Reflects cache {r0} {sys} made same run =
        let begun = start-IsFollowing cache made same in
        let now = (Reach-IsFollowing x env json run begun.1).follows in
        (
          begun.0,
          now,
          λ empty.
              subst
                (λ q. Reflects json sys.store.resources (drain json q sys.reconciler.world.indexer))
                empty now,
        )

    -- Start misses what is written between the lists of Bootstrap and the call of Watch: it opens its
    -- watch and enters the loop, and then no event is in the channel, and wherever the stored resources
    -- decode to something else than the listed ones did, the index does not show it.
    pub start_misses :
        (cache : x.SnapshotCache) {r0 : Reconciler x}
        → new_reconciler x env cache ≡ some r0
        → let end = running contexts ctx listed s r0 in
          ((started contexts ctx listed s r0).0 ≡ watched (ok s.next_channel))
          × (queue end ≡ [])
          × ((v : IndexedKind) (n : String)
              → stored (view_of json v) n end.store.resources
                ≢ stored (view_of json v) n listed.resources
              → lookup n ((view_of json v).primary end.reconciler.world.indexer)
                ≢ stored (view_of json v) n end.store.resources)
    unfolding Begins drain
    start_misses cache {r0} made =
        let (opened, kept, empty, follows) = start-Begins cache made in
        let end = running contexts ctx listed s r0 in
        let shows : Reflects json listed.resources end.reconciler.world.indexer =
          subst (λ q. Reflects json listed.resources (drain json q end.reconciler.world.indexer))
            empty follows.follows in
        (opened, empty, λ v n differs there. differs (sym there ∙ shows v n))
