-- ===== src/Reconciler.antt =====
-- reconciler.go: the event loop over the store's watch channel, the indexer and the dispatcher with
-- its two translators. The translators write into the indexer and the snapshot cache, the World.
-- What they take from elsewhere, the clock of the snapshot versions included, is the Environment.
pub mod System
pub mod Following
pub mod Starting
pub mod Serving
use mathlib.Core.Option
use flowc.Prelude.{ℕ, String, List, [], ◌∷◌, map, Option, none, some, ◌⊎◌, string_eq}
use flowc.Dict.{lookup}
use flowc.V1alpha1.Spec.{Gateway, Listener, Api, Deployment}
use flowc.Store.Resource.{StoredResource, WatchEvent, StoreError}
use flowc.Store.Watch.{Contexts}
use flowc.Store.Memory.{MemoryStore, Outcome, watch}
use flowc.Index.State.{AffectedTask, Indexer, new, upsert}
use flowc.Index.Decode.{Unmarshal}
use flowc.Index.Apply.{apply}
use flowc.Index.Queries.{gateways}
use flowc.Index.Bootstrap.{bootstrap}
use flowc.Cache.Xds.{Xds, listener_type, route_type}
use flowc.Cache.Manager.{CacheError, Item, ApiDeployment}
use flowc.Dispatch.Queue.{Translator, Dispatcher, register, enqueue, flush}
use flowc.Dispatch.Queue
use flowc.Dispatch.Deployment
use flowc.Dispatch.Deployment.{World, TranslateError, translate_one}
use flowc.Dispatch.Gateway
use flowc.Dispatch.Gateway.{or_skip}

pub record Environment (x : Xds) : Type 0 where
  pub compose : Deployment → Api → Gateway → Listener → String ⊎ ApiDeployment x
  pub placeholder : String → String → Item x route_type
  pub build_listener : Listener → Option (Item x listener_type)
  pub version : AffectedTask → World x → String
  pub deployment_text : TranslateError x → String
  pub gateway_text : CacheError x.Error → String

pub record Reconciler (x : Xds) : Type 0 where
  pub world : World x
  pub dispatcher : Dispatcher (World x)

-- One gateway task for each known gateway.
unfoldable pub startup_tasks : List Gateway → List AffectedTask
startup_tasks gws = map (λ gw. upsert "Gateway" gw.name) gws

-- What the select of the loop takes: an event, a debounced flush that its timer fires meanwhile,
-- the closed channel, or the end of the context.
pub data Input : Type 0 where
  event : WatchEvent → Input
  fire closed done : Input

module _ (x : Xds) (env : Environment x) where
  abbrev pub translated : Deployment → Indexer → Option (ApiDeployment x)
  translated dep idx = or_skip x (translate_one x env.compose dep idx)

  unfoldable pub deployment_translator : Translator (World x)
  deployment_translator task w =
      let (e, after) = Deployment.translate x env.compose (env.version task w) task w in
      (Option.map env.deployment_text e, after)

  unfoldable pub gateway_translator : Translator (World x)
  gateway_translator task w =
      let (e, after) =
        Gateway.translate x env.placeholder translated env.build_listener (env.version task w) task
          w in
      (Option.map env.gateway_text e, after)

  abbrev pub with_dispatcher :
      x.SnapshotCache → Option (Dispatcher (World x)) → Option (Reconciler x)
  with_dispatcher cache none = none
  with_dispatcher cache (some d) =
      some (record { world = record { indexer = new; cache = cache }; dispatcher = d })

  abbrev pub and_register :
      String → Translator (World x) → Option (Dispatcher (World x)) → Option (Dispatcher (World x))
  and_register kind t none = none
  and_register kind t (some d) = register kind t d

  -- `none` is the panic of a kind that is registered twice.
  unfoldable pub new_reconciler : x.SnapshotCache → Option (Reconciler x)
  new_reconciler cache = with_dispatcher cache (
      and_register "Deployment" deployment_translator
        (register "Gateway" gateway_translator Queue.new))

  unfoldable pub flush_now : Reconciler x → Reconciler x
  flush_now r = let (d, w) = flush r.dispatcher r.world in record { world = w; dispatcher = d }

  -- if len(startupTasks) > 0 { Enqueue; Flush }
  unfoldable pub full_rebuild : List AffectedTask → Reconciler x → Reconciler x
  unfolding flush_now
  full_rebuild [] r = r
  full_rebuild (t ∷ tasks) r =
      flush_now (record r { dispatcher = enqueue (t ∷ tasks) r.dispatcher })

  module _ (json : Unmarshal) where
    -- tasks := r.indexer.Apply(event); r.dispatcher.Enqueue(ctx, tasks)
    unfoldable pub handle : WatchEvent → Reconciler x → Reconciler x
    handle e r =
        let (tasks, idx) = apply json e r.world.indexer in
        record {
          world = record { indexer = idx; cache = r.world.cache };
          dispatcher = enqueue tasks r.dispatcher;
        }

    unfoldable pub loop : List Input → Reconciler x → Reconciler x
    unfolding handle flush_now
    loop [] r = r
    loop (event e ∷ inputs) r = loop inputs (handle e r)
    loop (fire ∷ inputs) r = loop inputs (flush_now r)
    loop (closed ∷ inputs) r = r
    loop (done ∷ inputs) r = r

    -- How Start ends before the loop, or the channel that the loop reads.
    pub data Started : Type 0 where
      bootstrap_failed : String → Outcome (List StoredResource) → Started
      watched : Outcome ℕ → Started

    -- The full rebuild, and Watch on the store as it is then.
    unfoldable pub booted :
        Contexts
        → ℕ
        → MemoryStore
        → Option (String × Outcome (List StoredResource))
        → Reconciler x
        → Started × Reconciler x × MemoryStore
    unfolding full_rebuild startup_tasks
    booted contexts ctx s (some (kind, e)) r = (bootstrap_failed kind e, r, s)
    booted contexts ctx s none r =
        let (outcome, s') = watch contexts ctx (record { kind = "" }) s in
        (watched outcome, full_rebuild (startup_tasks (gateways r.world.indexer)) r, s')

    -- Start up to its loop. Bootstrap lists the first store; Watch is called later, on the second one,
    -- into which the first has turned by the writes of others. Bootstrap's lists are taken at one time.
    unfoldable pub start :
        Contexts
        → ℕ
        → MemoryStore
        → MemoryStore
        → Reconciler x
        → Started × Reconciler x × MemoryStore
    unfolding booted
    start contexts ctx listed s r =
        let (e, idx) = bootstrap json contexts ctx listed r.world.indexer in
        booted contexts ctx s e
          (record r { world = record { indexer = idx; cache = r.world.cache } })
