-- ===== src/Tests/Reconciler.antt =====
-- Bootstrap, the reflection of the store and the reconciler at concrete inputs.
use flowc.Prelude.{
  String, [], ◌∷◌, none, some, true, ◌≡◌, ◌≢◌, ◌<◌, length, Every, refl, arith, string_eq, nat_eq,
}
use flowc.Dict
use flowc.Dict.{lookup, values}
use flowc.V1alpha1.Spec.{zero_gateway, zero_listener, zero_api, zero_deployment, zero_policy}
use flowc.Store.Resource.{
  StoredResource, ResourceKey, key, key_eq, key_beq, matches_watch_filter, PutOptions,
}
use flowc.Store.Watch.{watch_buffer_size, Contexts, notify, offer, send}
use flowc.Store.Memory.{MemoryStore, ok, put, put_found, publish, stamp, list, select, watch, new}
use flowc.Store.Memory.Soundness.{IsSound, IsSound-new, put-IsSound}
use flowc.Index.State
use flowc.Index.State.{Indexer}
use flowc.Index.Decode.{Unmarshal, decode}
use flowc.Index.View.{IndexedKind, view_of}
use flowc.Index.Bootstrap.{bootstrap, bootstrap_kinds}
use flowc.Index.Bootstrap.After.{stored}
use flowc.Index.Bootstrap.Exact.{bootstrap_lem}
use flowc.Index.Reflection.{Reflects, Decodes}
use flowc.Dispatch.Queue
use flowc.Dispatch.Queue.{register}
use flowc.Reconciler.{Environment, Reconciler, watched, start, booted, new_reconciler}
use flowc.Reconciler.System.{System, queue, Served, puts, Reach, here, next, drain}
use flowc.Reconciler.Starting.{started, running, Reach-Reflects, start_misses}
use flowc.Reconciler.Serving.{Reach-IsServing, Reach-settles}
use flowc.Tests.Cache.{plane}
use flowc.Tests.Cache
use flowc.Tests.Deployment.{compose}

abbrev json : Unmarshal
json = record {
  gateway = λ _. some zero_gateway;
  listener = λ _. some zero_listener;
  api = λ _. some zero_api;
  deployment = λ _. some zero_deployment;
  policy = λ _. some zero_policy;
}

abbrev live : Contexts
live ctx = none

abbrev gateway : StoredResource
gateway = record {
  meta = record {
    kind = "Gateway";
    name = "edge";
    revision = 0;
    managed_by = "";
    conflict_policy = "";
    labels = [];
    annotations = [];
    created_at = 0;
    updated_at = 0;
  };
  spec_json = 123 ∷ [];
  status_json = [];
}

abbrev edge : ResourceKey
edge = key gateway

abbrev by : PutOptions
by = record { expected_revision = 0; managed_by = "" }

abbrev kept : StoredResource
kept = record gateway {
  meta = record gateway.meta { revision = 1; created_at = 7; updated_at = 7 };
}

abbrev store : MemoryStore
store = (put live 0 gateway by 7 new).1

sound : IsSound store
sound = (put-IsSound live 0 new IsSound-new gateway by 7).0

decodes : Decodes json kept
unfolding decode
decodes IndexedKind.gateway e = refl
decodes IndexedKind.listener e = refl
decodes IndexedKind.api e = refl
decodes IndexedKind.deployment e = refl
decodes IndexedKind.api_policy e = refl

bootstrap_lem_example :
    ((bootstrap json live 0 store State.new).0 ≡ none)
    × ((v : IndexedKind) (n : String)
        → lookup n ((view_of json v).primary (bootstrap json live 0 store State.new).1)
          ≡ stored (view_of json v) n store.resources)
bootstrap_lem_example = bootstrap_lem json live 0 store refl sound

abbrev env : Environment plane
env = record {
  compose = compose;
  placeholder = λ name domain. record { name = name; body = domain };
  build_listener = λ l. some (record { name = l.name; body = "" });
  version = λ task w. "1";
  deployment_text = λ e. "deployment";
  gateway_text = λ e. "gateway";
}

abbrev cache : plane.SnapshotCache
cache = Cache.start

-- The reconciler that NewReconciler makes.
abbrev fresh : Reconciler plane
fresh = elim (new_reconciler plane env cache) [
  | none ↦ record { world = record { indexer = State.new; cache = cache }; dispatcher = Queue.new }
  | some r ↦ r
]

made : new_reconciler plane env cache ≡ some fresh
unfolding new_reconciler register lookup Dict.put Dict.delete
made = refl

-- Started on an empty store.
abbrev begun : System plane
begun = running plane env json live 0 new new fresh

written_ok : (put live 0 gateway by 7 begun.store).0 ≡ ok kept
unfolding start booted bootstrap bootstrap_kinds list select values watch put put_found publish
    stamp lookup notify offer send matches_watch_filter key_beq Dict.put Dict.delete new_reconciler
    register
written_ok = refl

empty : queue begun ≡ []
unfolding start booted bootstrap bootstrap_kinds list select values watch lookup Dict.put
    Dict.delete new_reconciler register
empty = refl

room : length (queue begun) < watch_buffer_size
room = rw empty (omega arith)

abbrev written : System plane
written = record begun { store = (put live 0 gateway by 7 begun.store).1 }

run : Reach plane env json begun written
run = next here (puts live 0 gateway by 7 kept begun written_ok refl room decodes)

Reach-Reflects_example :
    ((started plane env json live 0 new new fresh).0 ≡ watched (ok 0))
    × Reflects json written.store.resources
        (drain json (queue written) written.reconciler.world.indexer)
    × (queue written ≡ [] → Reflects json written.store.resources written.reconciler.world.indexer)
Reach-Reflects_example =
    Reach-Reflects plane env json live 0 new new refl IsSound-new IsSound-new cache made refl run

-- Started where the gateway was written after the lists of Bootstrap.
start_misses_example :
    let end = running plane env json live 0 new store fresh in
    ((started plane env json live 0 new store fresh).0 ≡ watched (ok store.next_channel))
    × (queue end ≡ [])
    × ((v : IndexedKind) (n : String)
        → stored (view_of json v) n end.store.resources ≢ stored (view_of json v) n new.resources
        → lookup n ((view_of json v).primary end.reconciler.world.indexer)
          ≢ stored (view_of json v) n end.store.resources)
start_misses_example =
    start_misses plane env json live 0 new store refl IsSound-new sound cache made

Reach-IsServing_example :
    Every
      (λ t. Dict.has t.kind written.reconciler.dispatcher.translators ≡ true)
      (values written.reconciler.dispatcher.pending)
    × (written.reconciler.dispatcher.pending ≢ [] → written.reconciler.dispatcher.scheduled ≡ true)
Reach-IsServing_example = Reach-IsServing plane env json live 0 new new cache made run

Reach-settles_example :
    (settled : System plane) × Served plane env json written settled
    × (settled.store.resources ≡ written.store.resources)
    × (queue settled ≡ [])
    × (settled.reconciler.dispatcher.pending ≡ [])
    × Reflects json written.store.resources settled.reconciler.world.indexer
Reach-settles_example =
    Reach-settles plane env json live 0 new new cache made refl IsSound-new IsSound-new refl run
