-- ===== src/Dispatch/Queue/Laws.antt =====
-- Coalescing and flushing in dispatch.go.
use mathlib.Core.List.Memᴰ
use mathlib.Core.List.{Memᴰ}
use flowc.Prelude.{
  String, List, [], ◌∷◌, ◌++◌, Option, some, Bool, true, false, ◌≡◌, ◌↔◌, refl, arith, string_eq,
  ◌==◌, if◌then◌else◌, Bool-cases, Option-cases, inl, inr, subst, sym, ◌∙◌, ap,
}
use flowc.Dict
use flowc.Dict.{Dict, lookup, values, lookup-put, IsDistinct, IsDistinct-put, values-mem}
use flowc.Index.State.{AffectedTask}
use flowc.Dispatch.Queue.{
  TaskKey, task_key_beq_iff, task_key_eq, task_key, Translator, Dispatcher, pend, enqueue, run_task,
  run_tasks, flush,
}

-- The last task of a key.
abbrev pub latest : TaskKey → List AffectedTask → Option AffectedTask → Option AffectedTask
latest k [] before = before
latest k (t ∷ tasks) before = latest k tasks (if task_key t == k then some t else before)

lookup-pend :
    (k : TaskKey) (tasks : List AffectedTask) (pending : Dict TaskKey AffectedTask)
    → lookup k (pend tasks pending) ≡ latest k tasks (lookup k pending)
unfolding pend
lookup-pend k [] pending = refl
lookup-pend k (t ∷ tasks) pending =
    lookup-pend k tasks (Dict.put (task_key t) t pending)
    ∙ ap (latest k tasks) (lookup-put k (task_key t) t pending)

IsDistinct-pend :
    (tasks : List AffectedTask) (pending : Dict TaskKey AffectedTask)
    → IsDistinct pending
    → IsDistinct (pend tasks pending)
unfolding pend
IsDistinct-pend [] pending d = d
IsDistinct-pend (t ∷ tasks) pending d =
    IsDistinct-pend tasks _ (IsDistinct-put (task_key t) t pending d)

pend-append :
    (a b : List AffectedTask) (pending : Dict TaskKey AffectedTask)
    → pend (a ++ b) pending ≡ pend b (pend a pending)
unfolding pend
pend-append [] b pending = refl
pend-append (t ∷ a) b pending = pend-append a b (Dict.put (task_key t) t pending)

-- The dispatcher's pending map has one task for a kind and name, which it names.
pub record IsCoalesced {T : Type 0} (d : Dispatcher T) : Type 0 where
  pub distinct : IsDistinct d.pending
  pub keyed : (k : TaskKey) (t : AffectedTask) → lookup k d.pending ≡ some t → task_key t ≡ k

latest-Keyed :
    (k : TaskKey) (tasks : List AffectedTask) (before : Option AffectedTask)
    → ((t : AffectedTask) → before ≡ some t → task_key t ≡ k)
    → (t : AffectedTask) → latest k tasks before ≡ some t
    → task_key t ≡ k
latest-Keyed k [] before b t e = b t e
latest-Keyed k (u ∷ tasks) before b t e =
    latest-Keyed k tasks _
      (λ v h. elim (Bool-cases (task_key u == k)) [
        | inl same ↦
            let it : u ≡ v = ground arith in
            ap task_key (sym it) ∙ (task_key_beq_iff (task_key u) k).0 same
        | inr other ↦ b v (ground arith)
      ])
      t e

module _ {T : Type 0} where
  pub translators-enqueue :
      (tasks : List AffectedTask) (d : Dispatcher T) → (enqueue tasks d).translators ≡ d.translators
  unfolding enqueue
  translators-enqueue [] d = refl
  translators-enqueue (t ∷ tasks) d = refl

  pub pending-enqueue :
      (tasks : List AffectedTask) (d : Dispatcher T)
      → (enqueue tasks d).pending ≡ pend tasks d.pending
  unfolding enqueue
  pending-enqueue [] d = refl
  pending-enqueue (t ∷ tasks) d = refl

  -- Enqueue keeps one task for a kind and name: for every key the pending task is the last of the
  -- batch with that key, and else the one that was pending.
  pub enqueue-last_wins :
      (tasks : List AffectedTask) (d : Dispatcher T) (k : TaskKey)
      → lookup k (enqueue tasks d).pending ≡ latest k tasks (lookup k d.pending)
  enqueue-last_wins tasks d k =
      ap (lookup k) (pending-enqueue tasks d) ∙ lookup-pend k tasks d.pending

  -- Two batches enqueued one after the other are enqueued like the one batch of both.
  pub enqueue-append :
      (a b : List AffectedTask) (d : Dispatcher T) → enqueue b (enqueue a d) ≡ enqueue (a ++ b) d
  unfolding enqueue
  enqueue-append [] b d = refl
  enqueue-append (t ∷ a) [] d = λ i. record d {
    pending = (sym (pend-append a [] (Dict.put (task_key t) t d.pending))) i;
    scheduled = true;
  }
  enqueue-append (t ∷ a) (u ∷ b) d = λ i. record d {
    pending = (sym (pend-append a (u ∷ b) (Dict.put (task_key t) t d.pending))) i;
    scheduled = true;
  }

  pub enqueue-IsCoalesced :
      (tasks : List AffectedTask) {d : Dispatcher T} → IsCoalesced d → IsCoalesced (enqueue tasks d)
  enqueue-IsCoalesced tasks {d} c = record {
    distinct =
        subst (λ p. IsDistinct p) (sym (pending-enqueue tasks d))
          (IsDistinct-pend tasks d.pending c.distinct);
    keyed = λ k t e. latest-Keyed k tasks _ (c.keyed k) t (sym (enqueue-last_wins tasks d k) ∙ e);
  }

-- The pending tasks of a kind that has a translator.
abbrev pub routed :
    {T : Type 0} → Dict String (Translator T) → List AffectedTask → List AffectedTask
routed translators [] = []
routed translators (t ∷ tasks) =
    let rest = routed translators tasks in if Dict.has t.kind translators then t ∷ rest else rest

module _ {T : Type 0} (translators : Dict String (Translator T)) where
  routed_sound :
      (t : AffectedTask) (tasks : List AffectedTask)
      → Memᴰ t (routed translators tasks)
      → Memᴰ t tasks × (Dict.has t.kind translators ≡ true)
  routed_sound t [] h = elim h [ ]
  routed_sound t (u ∷ tasks) h =
      let at : Bool → Type 0 =
        λ b. Memᴰ t (if b then u ∷ routed translators tasks else routed translators tasks) in
      elim (Bool-cases (Dict.has u.kind translators)) [
        | inl registered ↦ elim (Memᴰ.cases_cons (subst at registered h)) [
          | inl e ↦ (Memᴰ.head e, ap (λ v. Dict.has v.kind translators) e ∙ registered)
          | inr later ↦ let rest = routed_sound t tasks later in (Memᴰ.tail rest.0, rest.1)
        ]
        | inr other ↦
            let rest = routed_sound t tasks (subst at other h) in (Memᴰ.tail rest.0, rest.1)
      ]

  routed_complete :
      (t : AffectedTask) (tasks : List AffectedTask)
      → Memᴰ t tasks
      → Dict.has t.kind translators ≡ true
      → Memᴰ t (routed translators tasks)
  routed_complete t [] h registered = elim h [ ]
  routed_complete t (u ∷ tasks) (Memᴰ.head e) registered =
      rw (ap (λ v. Dict.has v.kind translators) (sym e) ∙ registered) (Memᴰ.head e)
  routed_complete t (u ∷ tasks) (Memᴰ.tail h) registered =
      let rest = routed_complete t tasks h registered in
      elim (Bool-cases (Dict.has u.kind translators)) [
        | inl here ↦ rw here (Memᴰ.tail rest)
        | inr other ↦ rw other rest
      ]

  -- A run of translators over a list of tasks: each task is given, in turn, to the translator that is
  -- registered for its kind, and each takes what the one before it left.
  pub data Ran : List AffectedTask → T → T → Type 0 where
    done : (s : T) → Ran [] s s
    step :
        (t : AffectedTask) {tasks : List AffectedTask} {s s' : T} (translate : Translator T)
        → lookup t.kind translators ≡ some translate
        → Ran tasks (translate t s).1 s'
        → Ran (t ∷ tasks) s s'

  run_task-registered :
      (t : AffectedTask) (s : T) (translate : Translator T)
      → lookup t.kind translators ≡ some translate
      → run_task translators t s ≡ (translate t s).1
  unfolding run_task
  run_task-registered t s translate found = rw (found, run_task) refl

  run_tasks-Ran :
      (tasks : List AffectedTask) (s : T)
      → Ran (routed translators tasks) s (run_tasks translators (routed translators tasks) s)
  unfolding run_tasks
  run_tasks-Ran [] s = done s
  run_tasks-Ran (t ∷ tasks) s = elim (Option-cases (lookup t.kind translators)) [
    | inl missing ↦ rw missing (run_tasks-Ran tasks s)
    | inr (translate, found) ↦ rw found (
        step t translate found
          (rw (run_task-registered t s translate found) (run_tasks-Ran tasks (translate t s).1)))
  ]

  run_task-skip :
      (t : AffectedTask) (s : T)
      → Dict.has t.kind translators ≡ false
      → run_task translators t s ≡ s
  unfolding run_task
  run_task-skip t s missing = ground (arith, missing)

  run_tasks-routed :
      (tasks : List AffectedTask) (s : T)
      → run_tasks translators tasks s ≡ run_tasks translators (routed translators tasks) s
  unfolding run_tasks
  run_tasks-routed [] s = refl
  run_tasks-routed (t ∷ tasks) s = elim (Bool-cases (Dict.has t.kind translators)) [
    | inl registered ↦ rw registered (run_tasks-routed tasks (run_task translators t s))
    | inr missing ↦
        rw missing
          (ap (run_tasks translators tasks) (run_task-skip t s missing) ∙ run_tasks-routed tasks s)
  ]

module _ {T : Type 0} (tasks : List AffectedTask) {d : Dispatcher T} (c : IsCoalesced d) where
  abbrev pub ran : List AffectedTask
  ran = routed d.translators (values (enqueue tasks d).pending)

  -- Tasks enqueued on a coalesced dispatcher and then flushed: the tasks of a list are given, one
  -- after the other, to the translators registered for their kinds; a task is in the list exactly when
  -- its kind has a translator and it is the last one enqueued for its kind and name (or the pending
  -- one, when none was); and flushing again changes nothing.
  pub flush-enqueue :
      (s : T)
      → let after = flush (enqueue tasks d) s in
        Ran d.translators ran s after.1
        × ((t : AffectedTask)
            → Memᴰ t ran ↔ (
                (latest (task_key t) tasks (lookup (task_key t) d.pending) ≡ some t)
                × (Dict.has t.kind d.translators ≡ true)))
        × (flush after.0 after.1 ≡ after)
  unfolding flush run_tasks values
  flush-enqueue s =
      let pending = (enqueue tasks d).pending in
      let coalesced = enqueue-IsCoalesced tasks c in
      (
        subst (Ran d.translators ran s)
            (sym (
              ap (λ tr. run_tasks tr (values pending) s) (translators-enqueue tasks d)
              ∙ run_tasks-routed d.translators (values pending) s))
            (run_tasks-Ran d.translators (values pending) s),
        λ t. (
          λ h.
              let (mem, registered) = routed_sound d.translators t _ h in
              let (k, found) = (values-mem pending t coalesced.distinct).0 mem in
              (
                sym (enqueue-last_wins tasks d (task_key t))
                    ∙ ap (λ j. lookup j pending) (coalesced.keyed k t found)
                    ∙ found,
                registered,
              ),
          λ h.
              routed_complete d.translators t _
                ((values-mem pending t coalesced.distinct).1
                  (task_key t, enqueue-last_wins tasks d (task_key t) ∙ h.0))
                h.1,
        ),
        refl,
      )
