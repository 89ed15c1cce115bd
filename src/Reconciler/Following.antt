-- ===== src/Reconciler/Following.antt =====
-- The index of a running reconciler follows the store.
use flowc.Prelude.{
  String, List, [], ◌∷◌, ◌++◌, Option, none, some, true, false, nat_eq, contains, ◌&&◌, ◌≡◌, refl,
  sym, ap, ◌∙◌, subst, string_eq, ◌==◌, if◌then◌else◌, if_rule, Option-cases, inl, inr,
}
use flowc.Dict
use flowc.Dict.{Dict, lookup, values}
use mathlib.Core.List.{tail}
use flowc.Store.Resource.{key_eq, WatchEvent, StoredResource}
use flowc.Store.Watch.{Contexts}
use flowc.Store.Memory.{MemoryStore}
use flowc.Store.Memory.Delivery.{wanted}
use flowc.Store.Memory.Subscribed.{Appends, put-Sends, delete-Sends, receive-queue}
use flowc.Store.Memory.Watchers.{receive-IsSound}
use flowc.Store.Memory.Soundness.{IsSound, put-IsSound, delete-IsSound}
use flowc.Index.State.{AffectedTask, Indexer, new}
use flowc.Index.Decode.{Unmarshal}
use flowc.Index.Apply.{apply}
use flowc.Index.View.{IndexedKind, view_of, told}
use flowc.Index.View.Told.{primaries}
use flowc.Index.View.Laws.{apply_kind-Seen}
use flowc.Index.Reflection.{Reflects, put-Reflects, delete-Reflects}
use flowc.Cache.Xds.{Xds}
use flowc.Dispatch.Deployment.{World}
use flowc.Dispatch.Queue.{Translator, register, flush, run_tasks, run_task}
use flowc.Dispatch.Queue.Laws.{translators-enqueue}
use flowc.Dispatch.Gateway.Primaries.{deployment-kept, gateway-kept}
use flowc.Reconciler.{
  Environment, Reconciler, translated, new_reconciler, handle, flush_now, deployment_translator,
  gateway_translator,
}
use flowc.Reconciler.System.{
  System, queue, Serve, receives, fires, Step, puts, deletes, serves, Reach, here, next, drain,
}

drain-append :
    (json : Unmarshal) (queue : List WatchEvent) (e : WatchEvent) (idx : Indexer)
    → drain json (queue ++ e ∷ []) idx ≡ (apply json e (drain json queue idx)).1
unfolding drain
drain-append json [] e idx = refl
drain-append json (d ∷ queue) e idx = drain-append json queue e (apply json d idx).1

-- Two indexes show the same under every name of every kind.
abbrev pub Alike : Unmarshal → Indexer → Indexer → Type 0
Alike json a b =
    (v : IndexedKind) (n : String)
    → lookup n ((view_of json v).primary a) ≡ lookup n ((view_of json v).primary b)

apply-Alike :
    (json : Unmarshal) (e : WatchEvent) (a b : Indexer)
    → Alike json a b
    → Alike json (apply json e a).1 (apply json e b).1
unfolding apply
apply-Alike json e a b h v n = elim (Option-cases e.resource) [
  | inl missing ↦ rw (missing, apply) (h v n)
  | inr (res, found) ↦
      rw (found, apply)
        (apply_kind-Seen json n e.type res a v
          ∙ ap
              (λ o.
                if res.meta.kind == (view_of json v).kind && res.meta.name == n
                then told e.type ((view_of json v).decode res) o
                else o)
              (h v n)
          ∙ sym (apply_kind-Seen json n e.type res b v))
]

drain-Alike :
    (json : Unmarshal) (queue : List WatchEvent) (a b : Indexer)
    → Alike json a b
    → Alike json (drain json queue a) (drain json queue b)
unfolding drain
drain-Alike json [] a b h = h
drain-Alike json (e ∷ queue) a b h = drain-Alike json queue _ _ (apply-Alike json e a b h)

Alike-primaries : (json : Unmarshal) (a b : Indexer) → primaries a ≡ primaries b → Alike json a b
Alike-primaries json a b e IndexedKind.gateway n = ap (λ p. lookup n p.0) e
Alike-primaries json a b e IndexedKind.listener n = ap (λ p. lookup n p.1) e
Alike-primaries json a b e IndexedKind.api n = ap (λ p. lookup n p.2) e
Alike-primaries json a b e IndexedKind.deployment n = ap (λ p. lookup n p.3) e
Alike-primaries json a b e IndexedKind.api_policy n = ap (λ p. lookup n p.4) e

module _ (x : Xds) (env : Environment x) where
  -- The two translators, as NewReconciler registers them.
  unfoldable pub wiring : Dict String (Translator (World x))
  wiring =
      Dict.put "Deployment" (deployment_translator x env)
        (Dict.put "Gateway" (gateway_translator x env) [])

  run_task-kept :
      (task : AffectedTask) (w : World x)
      → primaries (run_task wiring task w).indexer ≡ primaries w.indexer
  unfolding run_task wiring Dict.put Dict.delete lookup deployment_translator gateway_translator
  run_task-kept task w =
      let P = λ (o : Option (Translator (World x))).
        primaries (elim o as (λ _. World x) [ none ↦ w | some t ↦ (t task w).1 ]).indexer
        ≡ primaries w.indexer in
      if_rule P ("Deployment" == task.kind)
        (λ _. deployment-kept x env.compose (env.version task w) task w)
        λ _.
          if_rule P ("Gateway" == task.kind)
            (λ _.
              gateway-kept x env.placeholder (translated x env) env.build_listener
                (env.version task w) task w)
            (λ _. refl)

  run_tasks-kept :
      (tasks : List AffectedTask) (w : World x)
      → primaries (run_tasks wiring tasks w).indexer ≡ primaries w.indexer
  unfolding run_tasks
  run_tasks-kept [] w = refl
  run_tasks-kept (t ∷ tasks) w = run_tasks-kept tasks (run_task wiring t w) ∙ run_task-kept t w

  module _ (json : Unmarshal) where
    -- The store is sound, the loop's channel is open and selects every resource, the two translators
    -- are registered, and the events on the way take the index to what the store holds.
    pub record IsFollowing (sys : System x) : Type 0 where
      pub sound : IsSound sys.store
      pub waits : contains sys.store.cleanups sys.channel ≡ true
      pub listens :
          (contexts : Contexts) (r : StoredResource)
          → contexts sys.ctx ≡ none
          → wanted contexts sys.store.watchers r sys.channel ≡ true
      pub wired : sys.reconciler.dispatcher.translators ≡ wiring
      pub follows :
          Reflects json sys.store.resources (drain json (queue sys) sys.reconciler.world.indexer)

    pub flush-IsFollowing :
        (sys : System x)
        → IsFollowing sys
        → IsFollowing (record sys { reconciler = flush_now x env sys.reconciler })
    unfolding flush_now flush
    flush-IsFollowing sys h = record {
      sound = h.sound;
      waits = h.waits;
      listens = h.listens;
      wired = h.wired;
      follows = λ v n.
          drain-Alike json (queue sys) _ _
            (Alike-primaries json _ _ (
              subst
                (λ tr.
                  primaries
                    (run_tasks tr (values sys.reconciler.dispatcher.pending)
                      sys.reconciler.world).indexer
                  ≡ primaries sys.reconciler.world.indexer)
                (sym h.wired)
                (run_tasks-kept (values sys.reconciler.dispatcher.pending) sys.reconciler.world)))
            v n
          ∙ h.follows v n;
    }

    wired-handle :
        (e : WatchEvent) (r : Reconciler x)
        → (handle x env json e r).dispatcher.translators ≡ r.dispatcher.translators
    unfolding handle
    wired-handle e r = translators-enqueue _ r.dispatcher

    -- A store that took a write: the loop's channel has its event.
    written-IsFollowing :
        (event : WatchEvent) (sys : System x) (s' : MemoryStore)
        → IsFollowing sys
        → IsSound s'
        → Appends sys.channel event sys.store s'
        → Reflects json s'.resources
            (apply json event (drain json (queue sys) sys.reconciler.world.indexer)).1
        → IsFollowing (record sys { store = s' })
    written-IsFollowing event sys s' h sound appends shows = record {
      sound = sound;
      waits = ap (λ cs. contains cs sys.channel) appends.cleanups ∙ h.waits;
      listens = λ contexts r live.
          ap (λ ws. wanted contexts ws r sys.channel) appends.watchers ∙ h.listens contexts r live;
      wired = h.wired;
      follows =
          subst (λ q. Reflects json s'.resources (drain json q sys.reconciler.world.indexer))
            (sym appends.queue)
            (subst (Reflects json s'.resources)
              (sym (drain-append json (queue sys) event sys.reconciler.world.indexer)) shows);
    }

    Serve-IsFollowing :
        {sys sys' : System x} → Serve x env json sys sys' → IsFollowing sys → IsFollowing sys'
    unfolding handle drain
    Serve-IsFollowing (receives e rest sys queued) h = record {
      sound = receive-IsSound sys.channel sys.store h.sound;
      waits = h.waits;
      listens = h.listens;
      wired = wired-handle e sys.reconciler ∙ h.wired;
      follows =
          subst
            (λ q.
              Reflects json sys.store.resources
                (drain json q (handle x env json e sys.reconciler).world.indexer))
            (sym (receive-queue sys.channel sys.store ∙ ap tail queued))
            (subst
              (λ q. Reflects json sys.store.resources (drain json q sys.reconciler.world.indexer))
              queued h.follows);
    }
    Serve-IsFollowing (fires sys) h = flush-IsFollowing sys h

    Step-IsFollowing :
        {sys sys' : System x} → Step x env json sys sys' → IsFollowing sys → IsFollowing sys'
    Step-IsFollowing (puts contexts ctx res opts now out sys done live room dec) h =
        let (old, appends) =
          put-Sends contexts ctx sys.store h.sound sys.channel h.waits room
            (λ r. h.listens contexts r live) res opts now done in
        written-IsFollowing _ sys _ h (put-IsSound contexts ctx sys.store h.sound res opts now).0
          appends (put-Reflects json _ sys.store contexts ctx res opts now old done h.follows dec)
    Step-IsFollowing (deletes contexts ctx k opts sys done live room) h =
        let (existing, there, appends) =
          delete-Sends contexts ctx sys.store h.sound sys.channel h.waits room
            (λ r. h.listens contexts r live) k opts done in
        written-IsFollowing _ sys _ h (delete-IsSound contexts ctx sys.store h.sound k opts).0
          appends
          (delete-Reflects json _ sys.store contexts ctx k opts existing (some existing) done
            (h.sound.keyed k existing there) h.follows)
    Step-IsFollowing (serves st) h = Serve-IsFollowing st h

    pub Reach-IsFollowing :
        {sys sys' : System x} → Reach x env json sys sys' → IsFollowing sys → IsFollowing sys'
    Reach-IsFollowing here h = h
    Reach-IsFollowing (next r st) h = Step-IsFollowing st (Reach-IsFollowing r h)

    -- NewReconciler does not panic: the kinds of its translators differ.
    pub new_reconciler_lem :
        (cache : x.SnapshotCache)
        → new_reconciler x env cache
          ≡ some (record {
            world = record { indexer = new; cache = cache };
            dispatcher = record { translators = wiring; pending = []; scheduled = false };
          })
    unfolding new_reconciler register lookup Dict.put Dict.delete wiring
    new_reconciler_lem cache = refl
