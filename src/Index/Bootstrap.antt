-- ===== src/Index/Bootstrap.antt =====
-- index.go: Bootstrap, which lists the store kind by kind and applies each resource as a put.
pub mod After
pub mod Exact
use flowc.Prelude.{String, List, [], ◌∷◌, Option, none, some, ◌⊎◌, inl, inr, ℕ}
use flowc.Store.Resource.{StoredResource, ListFilter, StoreError, WatchEvent}
use flowc.Store.Watch.{Contexts}
use flowc.Store.Memory.{MemoryStore, Outcome, ok, err, panic, list}
use flowc.Index.State.{Indexer, kind_api}
use flowc.Index.Decode.{Unmarshal}
use flowc.Index.Apply.{apply}
use flowc.Index.View.{put_event}

-- The order of the kinds.
abbrev pub kinds : List String
kinds = "Gateway" ∷ "Listener" ∷ kind_api ∷ "Deployment" ∷ "APIPolicy" ∷ []

module _ (json : Unmarshal) where
  -- for _, res := range items { i.Apply(…) }
  unfoldable pub apply_items : List StoredResource → Indexer → Indexer
  apply_items [] idx = idx
  apply_items (res ∷ items) idx = apply_items items (apply json (put_event res) idx).1

  module _ (contexts : Contexts) (ctx : ℕ) (s : MemoryStore) where
    -- The rest of the kinds after the List of one; `none` is no error.
    abbrev Booted : Type 0
    Booted = Option (String × Outcome (List StoredResource)) × Indexer

    unfoldable pub bootstrap_kinds : List String → Indexer → Booted
    unfolding apply_items
    bootstrap_kinds [] idx = (none, idx)
    bootstrap_kinds (kind ∷ rest) idx =
        elim (list contexts ctx (record { kind = kind; labels = [] }) s) [
          | ok items ↦ bootstrap_kinds rest (apply_items items idx)
          | err e ↦ (some (kind, err e), idx)
          | panic ↦ (some (kind, panic), idx)
        ]

    unfoldable pub bootstrap : Indexer → Booted
    unfolding bootstrap_kinds
    bootstrap = bootstrap_kinds kinds
