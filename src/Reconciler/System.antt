-- ===== src/Reconciler/System.antt =====
-- The reconciler of reconciler.go running beside the store of memory.go: writers, the loop and the
-- debounce timer as steps in any order. The loop reads the channel that Watch gave it, with the
-- context that it gave to Watch.
use flowc.Prelude.{ℕ, List, [], ◌∷◌, none, ◌≡◌, ◌<◌, length}
use flowc.Store.Resource.{StoredResource, ResourceKey, PutOptions, DeleteOptions, WatchEvent}
use flowc.Store.Watch.{watch_buffer_size, Contexts, receive}
use flowc.Store.Memory.{MemoryStore, ok, put, delete}
use flowc.Store.Memory.Subscribed.{queue_of}
use flowc.Index.State.{Indexer}
use flowc.Index.Decode.{Unmarshal}
use flowc.Index.Apply.{apply}
use flowc.Index.Reflection.{Decodes}
use flowc.Cache.Xds.{Xds}
use flowc.Reconciler.{Environment, Reconciler, handle, flush_now}

pub record System (x : Xds) : Type 0 where
  pub store : MemoryStore
  pub channel : ℕ
  pub ctx : ℕ
  pub reconciler : Reconciler x

-- The events that wait in the loop's channel.
abbrev pub queue : {x : Xds} → System x → List WatchEvent
queue sys = queue_of sys.channel sys.store

module _ (x : Xds) (env : Environment x) (json : Unmarshal) where
  -- A step of the loop or of the timer: an event is received and handled, or the timer flushes.
  pub data Serve : System x → System x → Type 0 where
    receives :
        (e : WatchEvent) (rest : List WatchEvent) (sys : System x)
        → queue sys ≡ e ∷ rest
        → Serve sys (record sys {
          store = record sys.store { channels = receive sys.channel sys.store.channels };
          reconciler = handle x env json e sys.reconciler;
        })
    fires :
        (sys : System x) → Serve sys (record sys { reconciler = flush_now x env sys.reconciler })

  pub data Served (sys : System x) : System x → Type 0 where
    idle : Served sys sys
    then_ : {t u : System x} → Served sys t → Serve t u → Served sys u

  -- A write is a Put or a Delete of the store that succeeds while the loop's context is live and its
  -- channel has room; a written resource decodes.
  pub data Step : System x → System x → Type 0 where
    puts :
        (contexts : Contexts) (ctx : ℕ) (res : StoredResource) (opts : PutOptions) (now : ℕ)
        (out : StoredResource) (sys : System x)
        → (put contexts ctx res opts now sys.store).0 ≡ ok out
        → contexts sys.ctx ≡ none
        → length (queue sys) < watch_buffer_size
        → Decodes json out
        → Step sys (record sys { store = (put contexts ctx res opts now sys.store).1 })
    deletes :
        (contexts : Contexts) (ctx : ℕ) (k : ResourceKey) (opts : DeleteOptions) (sys : System x)
        → (delete contexts ctx k opts sys.store).0 ≡ ok tt
        → contexts sys.ctx ≡ none
        → length (queue sys) < watch_buffer_size
        → Step sys (record sys { store = (delete contexts ctx k opts sys.store).1 })
    serves : {sys sys' : System x} → Serve sys sys' → Step sys sys'

  pub data Reach (sys : System x) : System x → Type 0 where
    here : Reach sys sys
    next : {t u : System x} → Reach sys t → Step t u → Reach sys u

-- The index after the events of a queue.
unfoldable pub drain : Unmarshal → List WatchEvent → Indexer → Indexer
drain json [] idx = idx
drain json (e ∷ queue) idx = drain json queue (apply json e idx).1
