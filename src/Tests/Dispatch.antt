-- ===== src/Tests/Dispatch.antt =====
-- The dispatcher at concrete inputs.
use mathlib.Core.List.{Memᴰ}
use flowc.Prelude.{ℕ, List, [], ◌∷◌, none, some, true, ◌+◌, ◌≡◌, ◌↔◌, arith, string_eq}
use flowc.Dict
use flowc.Dict.{lookup}
use flowc.Index.State.{AffectedTask, upsert, removal}
use flowc.Dispatch.Queue.{TaskKey, task_key_eq, task_key, Translator, Dispatcher, enqueue, flush}
use flowc.Dispatch.Queue.Laws.{latest, IsCoalesced, ran, Ran, flush-enqueue}

abbrev counting : Translator ℕ
counting task n = (none, n + 1)

abbrev dispatcher : Dispatcher ℕ
dispatcher = record { translators = ("Deployment", counting) ∷ []; pending = []; scheduled = true }

abbrev tasks : List AffectedTask
tasks = upsert "Deployment" "one" ∷ removal "Deployment" "one" "" ∷ upsert "Gateway" "edge" ∷ []

abbrev one : TaskKey
one = record { kind = "Deployment"; name = "one" }

coalesced : IsCoalesced dispatcher
unfolding lookup
coalesced = record { distinct = tt; keyed = λ k t e. ground arith }

flush-enqueue_example :
    let after = flush (enqueue tasks dispatcher) 0 in
    Ran dispatcher.translators (ran tasks coalesced) 0 after.1
    × ((t : AffectedTask)
        → Memᴰ t (ran tasks coalesced) ↔ (
            (latest (task_key t) tasks (lookup (task_key t) dispatcher.pending) ≡ some t)
            × (Dict.has t.kind dispatcher.translators ≡ true)))
    × (flush after.0 after.1 ≡ after)
flush-enqueue_example = flush-enqueue tasks coalesced 0
