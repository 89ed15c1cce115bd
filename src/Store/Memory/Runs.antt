-- ===== src/Store/Memory/Runs.antt =====
-- Runs of the in-memory store of memory.go: its operations, the cleanup goroutines and the readers
-- of the channels as steps in any order, and what holds after every run.
use flowc.Prelude.{ℕ, true, ◌≡◌, nat_eq, contains}
use flowc.Store.Resource.{ResourceKey, StoredResource, PutOptions, DeleteOptions, WatchFilter}
use flowc.Store.Watch.{Contexts, receive}
use flowc.Store.Memory.{MemoryStore, new, put, delete, watch, cleanup}
use flowc.Store.Memory.Soundness.{IsSound, IsSound-new, Returns, put-IsSound, delete-IsSound}
use flowc.Store.Memory.Watchers.{watch-IsSound, cleanup-IsSound, receive-IsSound}

-- Each step takes the contexts as they are then. A cleanup goroutine runs once, at any time after
-- its start.
pub data Step : MemoryStore → MemoryStore → Type 0 where
  puts :
      (contexts : Contexts) (ctx : ℕ) (res : StoredResource) (opts : PutOptions) (now : ℕ)
      (s : MemoryStore)
      → Step s (put contexts ctx res opts now s).1
  deletes :
      (contexts : Contexts) (ctx : ℕ) (k : ResourceKey) (opts : DeleteOptions) (s : MemoryStore)
      → Step s (delete contexts ctx k opts s).1
  watches :
      (contexts : Contexts) (ctx : ℕ) (f : WatchFilter) (s : MemoryStore)
      → Step s (watch contexts ctx f s).1
  cleans : (ch : ℕ) (s : MemoryStore) → contains s.cleanups ch ≡ true → Step s (cleanup ch s).1
  receives : (ch : ℕ) (s : MemoryStore) → Step s (record s { channels = receive ch s.channels })

pub data Reach (s : MemoryStore) : MemoryStore → Type 0 where
  here : Reach s s
  next : {t u : MemoryStore} → Reach s t → Step t u → Reach s u

Step-IsSound : {s t : MemoryStore} → Step s t → IsSound s → IsSound t
Step-IsSound (puts contexts ctx res opts now s) h = (put-IsSound contexts ctx s h res opts now).0
Step-IsSound (deletes contexts ctx k opts s) h = (delete-IsSound contexts ctx s h k opts).0
Step-IsSound (watches contexts ctx f s) h = (watch-IsSound contexts ctx s h f).0
Step-IsSound (cleans ch s waits) h = (cleanup-IsSound ch s h waits).0
Step-IsSound (receives ch s) h = receive-IsSound ch s h

-- After every run from the empty store: a resource stands under its own key and each key once, a
-- registered watcher's cleanup still waits, and a waiting cleanup's channel is its own, open and
-- within its capacity.
pub Reach-IsSound : {s : MemoryStore} → Reach new s → IsSound s
Reach-IsSound here = IsSound-new
Reach-IsSound (next r st) = Step-IsSound st (Reach-IsSound r)

-- After every run from the empty store no Put, no Delete and no waiting cleanup panics, in any
-- context: no send goes to a closed channel, and none is closed twice.
pub Reach-returns :
    {s : MemoryStore}
    → Reach new s
    → ((contexts : Contexts) (ctx : ℕ) (res : StoredResource) (opts : PutOptions) (now : ℕ)
        → Returns (put contexts ctx res opts now s).0)
      × ((contexts : Contexts) (ctx : ℕ) (k : ResourceKey) (opts : DeleteOptions)
          → Returns (delete contexts ctx k opts s).0)
      × ((ch : ℕ) → contains s.cleanups ch ≡ true → Returns (cleanup ch s).0)
Reach-returns {s} r =
    let h = Reach-IsSound r in
    (
      λ contexts ctx res opts now. (put-IsSound contexts ctx s h res opts now).1,
      λ contexts ctx k opts. (delete-IsSound contexts ctx s h k opts).1,
      λ ch waits. (cleanup-IsSound ch s h waits).1,
    )
