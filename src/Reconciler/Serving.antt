-- ===== src/Reconciler/Serving.antt =====
-- The reconciler of reconciler.go serves what it takes in: no task is left without a flush or
-- without a translator, and the loop can always catch up.
use flowc.Prelude.{
  ℕ, String, List, [], ◌∷◌, Option, none, some, true, false, ◌≡◌, ◌≢◌, refl, subst, string_eq, ◌==◌,
  Bool-cases, inl, inr, sym, ap, ◌∙◌, Every,
}
use flowc.Dict
use flowc.Dict.{Dict, lookup, values}
use flowc.Store.Resource.{WatchEvent, StoredResource}
use flowc.Store.Watch.{Contexts}
use flowc.Store.Memory.{MemoryStore, Outcome}
use flowc.Store.Memory.Soundness.{IsSound}
use flowc.Index.State.{AffectedTask}
use flowc.V1alpha1.Spec.{Gateway}
use flowc.Index.Decode.{Unmarshal}
use flowc.Index.Bootstrap.{bootstrap}
use flowc.Index.Apply.Tasks.{AllRoutable, apply-AllRoutable}
use flowc.Index.Queries.{gateways}
use flowc.Index.Reflection.{Reflects}
use flowc.Cache.Xds.{Xds}
use flowc.Dispatch.Queue.{TaskKey, task_key, task_key_eq, Dispatcher, pend, enqueue, flush}
use flowc.Reconciler.{
  Environment, Reconciler, handle, flush_now, full_rebuild, startup_tasks, start, booted,
  new_reconciler,
}
use flowc.Reconciler.System.{
  System, queue, receives, fires, Served, idle, then_, Step, puts, deletes, serves, Reach, here,
  next,
}
use flowc.Reconciler.Following.{wiring}
use mathlib.Core.List.{tail}
use flowc.Store.Watch.{receive}
use flowc.Store.Memory.Subscribed.{receive-queue}
use flowc.Dispatch.Queue.Laws.{translators-enqueue}
use flowc.Reconciler.Starting.{new_reconciler-fresh, started, running, Reach-Reflects}

values-delete-AllRoutable :
    (k : TaskKey) (d : Dict TaskKey AffectedTask)
    → AllRoutable (values d)
    → AllRoutable (values (Dict.delete k d))
unfolding values Dict.delete
values-delete-AllRoutable k [] h = h
values-delete-AllRoutable k ((j, t) ∷ d) h = elim (Bool-cases (j == k)) [
  | inl same ↦ rw same (values-delete-AllRoutable k d h.1)
  | inr other ↦ rw other (h.0, values-delete-AllRoutable k d h.1)
]

pend-AllRoutable :
    (tasks : List AffectedTask) (d : Dict TaskKey AffectedTask)
    → AllRoutable tasks
    → AllRoutable (values d)
    → AllRoutable (values (pend tasks d))
unfolding pend values Dict.put
pend-AllRoutable [] d a h = h
pend-AllRoutable (t ∷ tasks) d a h =
    pend-AllRoutable tasks _ a.1 (a.0, values-delete-AllRoutable (task_key t) d h)

startup_tasks-AllRoutable : (gws : List Gateway) → AllRoutable (startup_tasks gws)
unfolding startup_tasks
startup_tasks-AllRoutable [] = tt
startup_tasks-AllRoutable (gw ∷ gws) = (inl refl, startup_tasks-AllRoutable gws)

-- Each pending task has a translator, and a flush is scheduled while there is one.
pub record IsServing {T : Type 0} (d : Dispatcher T) : Type 0 where
  pub routable : AllRoutable (values d.pending)
  pub armed : d.scheduled ≡ false → d.pending ≡ []

enqueue-IsServing :
    {T : Type 0} (tasks : List AffectedTask) {d : Dispatcher T}
    → AllRoutable tasks
    → IsServing d
    → IsServing (enqueue tasks d)
unfolding enqueue
enqueue-IsServing [] a h = h
enqueue-IsServing (t ∷ tasks) {d} a h = record {
  routable = pend-AllRoutable (t ∷ tasks) d.pending a h.routable;
  armed = λ off. cc;
}

flush-IsServing : {T : Type 0} (d : Dispatcher T) (s : T) → IsServing (flush d s).0
unfolding flush values
flush-IsServing d s = record { routable = tt; armed = λ off. refl }

module _ (x : Xds) (env : Environment x) (json : Unmarshal) where
  -- The dispatcher is serving, with the two translators of NewReconciler.
  abbrev Serves : Reconciler x → Type 0
  Serves r = IsServing r.dispatcher × (r.dispatcher.translators ≡ wiring x env)

  handle-Serves : (e : WatchEvent) (r : Reconciler x) → Serves r → Serves (handle x env json e r)
  unfolding handle
  handle-Serves e r h = (
    enqueue-IsServing _ (apply-AllRoutable json e r.world.indexer) h.0,
    translators-enqueue _ r.dispatcher ∙ h.1,
  )

  flush_now-Serves : (r : Reconciler x) → Serves r → Serves (flush_now x env r)
  unfolding flush_now flush
  flush_now-Serves r h = (flush-IsServing r.dispatcher r.world, h.1)

  Step-Serves :
      {sys sys' : System x}
      → Step x env json sys sys'
      → Serves sys.reconciler
      → Serves sys'.reconciler
  Step-Serves (puts contexts ctx res opts now out sys done live room dec) h = h
  Step-Serves (deletes contexts ctx k opts sys done live room) h = h
  Step-Serves (serves (receives e rest sys queued)) h = handle-Serves e sys.reconciler h
  Step-Serves (serves (fires sys)) h = flush_now-Serves sys.reconciler h

  Reach-Serves :
      {sys sys' : System x}
      → Reach x env json sys sys'
      → Serves sys.reconciler
      → Serves sys'.reconciler
  Reach-Serves here h = h
  Reach-Serves (next r st) h = Step-Serves st (Reach-Serves r h)

  -- Serving alone is a run.
  Reach-Served :
      {a b c : System x} → Reach x env json a b → Served x env json b c → Reach x env json a c
  Reach-Served r idle = r
  Reach-Served r (then_ q st) = next (Reach-Served r q) (serves st)

  Served-trans :
      {a b c : System x} → Served x env json a b → Served x env json b c → Served x env json a c
  Served-trans r idle = r
  Served-trans r (then_ q st) = then_ (Served-trans r q) st

  -- The loop takes in the whole queue.
  take_all :
      (events : List WatchEvent) (sys : System x)
      → queue sys ≡ events
      → (end : System x) × Served x env json sys end
        × (end.store.resources ≡ sys.store.resources)
        × (queue end ≡ [])
  take_all [] sys e = (sys, idle, refl, e)
  take_all (ev ∷ events) sys e =
      let after = record sys {
        store = record sys.store { channels = receive sys.channel sys.store.channels };
        reconciler = handle x env json ev sys.reconciler;
      } in
      let (end, more, kept, empty) =
        take_all events after (receive-queue sys.channel sys.store ∙ ap tail e) in
      (end, Served-trans (then_ idle (receives ev events sys e)) more, kept, empty)

  full_rebuild-Serves :
      (tasks : List AffectedTask) (r : Reconciler x)
      → AllRoutable tasks
      → Serves r
      → Serves (full_rebuild x env tasks r)
  unfolding full_rebuild
  full_rebuild-Serves [] r a h = h
  full_rebuild-Serves (t ∷ tasks) r a h =
      flush_now-Serves _
        (enqueue-IsServing (t ∷ tasks) a h.0, translators-enqueue (t ∷ tasks) r.dispatcher ∙ h.1)

  booted-Serves :
      (contexts : Contexts) (ctx : ℕ) (s : MemoryStore)
      (o : Option (String × Outcome (List StoredResource))) (r : Reconciler x)
      → Serves r
      → Serves (booted x env json contexts ctx s o r).1
  unfolding booted
  booted-Serves contexts ctx s (some (kind, e)) r h = h
  booted-Serves contexts ctx s none r h =
      full_rebuild-Serves (startup_tasks (gateways r.world.indexer)) r
        (startup_tasks-AllRoutable (gateways r.world.indexer)) h

  wiring-has :
      (tasks : List AffectedTask)
      → AllRoutable tasks
      → Every (λ t. Dict.has t.kind (wiring x env) ≡ true) tasks
  unfolding wiring Dict.put Dict.delete lookup
  wiring-has [] h = tt
  wiring-has (t ∷ tasks) (inl k, hs) = (rw k refl, wiring-has tasks hs)
  wiring-has (t ∷ tasks) (inr k, hs) = (rw k refl, wiring-has tasks hs)

  module _ (contexts : Contexts) (ctx : ℕ) (listed s : MemoryStore) (cache : x.SnapshotCache)
      {r0 : Reconciler x} (made : new_reconciler x env cache ≡ some r0) where
    new_reconciler-Serves : Serves r0
    unfolding values
    new_reconciler-Serves =
        subst Serves (new_reconciler-fresh x env json cache made)
          (record { routable = tt; armed = λ off. refl }, refl)

    start-Serves : Serves (started x env json contexts ctx listed s r0).1
    unfolding start
    start-Serves =
        booted-Serves contexts ctx s (bootstrap json contexts ctx listed r0.world.indexer).0 _
          new_reconciler-Serves

    -- However Start ended, after every run of the reconciler that NewReconciler makes, each pending
    -- task is of a kind that the dispatcher has a translator for, and while a task is pending a flush is
    -- scheduled: no task waits for another event.
    pub Reach-IsServing :
        {sys : System x}
        → Reach x env json (running x env json contexts ctx listed s r0) sys
        → Every
            (λ t. Dict.has t.kind sys.reconciler.dispatcher.translators ≡ true)
            (values sys.reconciler.dispatcher.pending)
          × (sys.reconciler.dispatcher.pending ≢ [] → sys.reconciler.dispatcher.scheduled ≡ true)
    Reach-IsServing {sys} run =
        let (h, wired) = Reach-Serves run start-Serves in
        (
          subst
              (λ d.
                Every (λ t. Dict.has t.kind d ≡ true) (values sys.reconciler.dispatcher.pending))
              (sym wired) (wiring-has (values sys.reconciler.dispatcher.pending) h.routable),
          λ waiting. elim (Bool-cases sys.reconciler.dispatcher.scheduled) [
            | inl on ↦ on
            | inr off ↦ absurd (waiting (h.armed off))
          ],
        )

    -- Catching up is always possible: from every state that a run reaches, of the reconciler that
    -- NewReconciler makes, started with a context that was not done and no write between Bootstrap and
    -- Watch, the steps of the loop and of the timer alone lead to a state with the same resources, no
    -- event in the loop's channel and no task pending, where the index shows exactly what the stored
    -- resources decode to.
    pub Reach-settles :
        {sys : System x}
        → contexts ctx ≡ none
        → IsSound listed
        → IsSound s
        → s.resources ≡ listed.resources
        → Reach x env json (running x env json contexts ctx listed s r0) sys
        → (settled : System x) × Served x env json sys settled
          × (settled.store.resources ≡ sys.store.resources)
          × (queue settled ≡ [])
          × (settled.reconciler.dispatcher.pending ≡ [])
          × Reflects json sys.store.resources settled.reconciler.world.indexer
    unfolding flush_now flush
    Reach-settles {sys} live old sound same run =
        let (end, taken, kept, empty) = take_all (queue sys) sys refl in
        let settled = record end { reconciler = flush_now x env end.reconciler } in
        let there = then_ taken (fires end) in
        (
          settled,
          there,
          kept,
          empty,
          refl,
          subst (λ m. Reflects json m settled.reconciler.world.indexer) kept
              ((Reach-Reflects x env json contexts ctx listed s live old sound cache made same
                  (Reach-Served run there)).2
                empty),
        )
