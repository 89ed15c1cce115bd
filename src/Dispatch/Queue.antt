-- ===== src/Dispatch/Queue.antt =====
-- dispatch.go: the dispatcher. Its state is the registered translators, the pending tasks by kind
-- and name, and whether a flush is scheduled. What translators do is a state of its own, T, that
-- they change; a failed translation is only logged. A flush visits the pending map in the order of
-- its association list; Go leaves that order open.
pub mod Laws
use flowc.Prelude.{
  String, List, [], ◌∷◌, Option, none, some, Bool, true, false, ◌&&◌, ◌||◌, ◌≡◌, ◌↔◌, Eq, string_eq,
  ◌==◌, arith, eq_iff, ap,
}
use flowc.Dict
use flowc.Dict.{Dict, lookup, values}
use flowc.Index.State.{AffectedTask}

pub record TaskKey : Type 0 where
  pub kind : String
  pub name : String

abbrev task_key_beq : TaskKey → TaskKey → Bool
task_key_beq a b = a.kind == b.kind && a.name == b.name

pub task_key_beq_iff : (a b : TaskKey) → (task_key_beq a b ≡ true) ↔ (a ≡ b)
task_key_beq_iff a b = (
  λ h.
      let kinds : a.kind ≡ b.kind = ground (arith, eq_iff a.kind b.kind) in
      let names : a.name ≡ b.name = ground (arith, eq_iff a.name b.name) in
      λ i. record { kind = kinds i; name = names i },
  λ e.
      let kinds : a.kind ≡ b.kind = ap (λ k. k.kind) e in
      let names : a.name ≡ b.name = ap (λ k. k.name) e in
      ground (arith, eq_iff a.kind b.kind, eq_iff a.name b.name),
)

instance abbrev pub task_key_eq : Eq TaskKey
task_key_eq = record { eqb = task_key_beq; eqb_iff = task_key_beq_iff }

abbrev pub task_key : AffectedTask → TaskKey
task_key t = record { kind = t.kind; name = t.name }

-- Translator.Translate on the state that translators share: an error, if any, and the state after.
abbrev pub Translator : Type 0 → Type 0
Translator T = AffectedTask → T → Option String × T

pub record Dispatcher (T : Type 0) : Type 0 where
  pub translators : Dict String (Translator T)
  pub pending : Dict TaskKey AffectedTask
  pub scheduled : Bool

-- d.pending[taskKey{t.Kind, t.Name}] = t, for each task
unfoldable pub pend : List AffectedTask → Dict TaskKey AffectedTask → Dict TaskKey AffectedTask
pend [] pending = pending
pend (t ∷ tasks) pending = pend tasks (Dict.put (task_key t) t pending)

module _ {T : Type 0} where
  abbrev pub new : Dispatcher T
  new = record { translators = []; pending = []; scheduled = false }

  -- `none` is a panic: the kind is registered already.
  unfoldable pub register : String → Translator T → Dispatcher T → Option (Dispatcher T)
  register kind t d = elim (lookup kind d.translators) [
    | some registered ↦ none
    | none ↦ some (record d { translators = Dict.put kind t d.translators })
  ]

  unfoldable pub enqueue : List AffectedTask → Dispatcher T → Dispatcher T
  unfolding pend
  enqueue [] d = d
  enqueue (t ∷ tasks) d = record d { pending = pend (t ∷ tasks) d.pending; scheduled = true }

  -- One task of a flush. A kind without a translator is skipped.
  unfoldable pub run_task : Dict String (Translator T) → AffectedTask → T → T
  run_task translators task s = elim (lookup task.kind translators) [
    | none ↦ s
    | some translate ↦ (translate task s).1
  ]

  unfoldable pub run_tasks : Dict String (Translator T) → List AffectedTask → T → T
  run_tasks translators [] s = s
  run_tasks translators (task ∷ tasks) s = run_tasks translators tasks (run_task translators task s)

  unfoldable pub flush : Dispatcher T → T → Dispatcher T × T
  unfolding run_tasks values
  flush d s =
      (record d { pending = []; scheduled = false }, run_tasks d.translators (values d.pending) s)
