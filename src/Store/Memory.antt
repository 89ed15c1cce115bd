-- ===== src/Store/Memory.antt =====
-- memory.go: MemoryStore and its operations. The mutex makes each operation one step, so an
-- operation takes the store and returns its outcome with the new store. `now` is time.Now(), and
-- `contexts` gives ctx.Err() of every context at the time of the call.
pub mod Writes
pub mod Sequences
pub mod Listing
pub mod Delivery
pub mod Soundness
pub mod Watchers
pub mod Subscribed
pub mod Runs
use flowc.Prelude.{
  ℕ, ◌+◌, String, List, [], ◌∷◌, ◌++◌, Option, none, some, Bool, true, false, ◌&&◌, nat_eq,
  string_eq, remove_first, ◌==◌, ◌!=◌, if◌then◌else◌,
}
use flowc.Dict
use flowc.Dict.{Dict, lookup, values}
use flowc.Store.Resource.{
  StoreMeta, ResourceKey, key_eq, StoredResource, key, clone, conflict_strict, PutOptions,
  DeleteOptions, ListFilter, WatchEvent, WatchEventType, WatchFilter, StoreError, ctx_err,
  not_found, revision_conflict, ownership_conflict, next_revision, matches_list_filter,
}
use flowc.Store.Watch.{Contexts, Channels, Watcher, notify}

-- `cleanups` holds the channels whose cleanup goroutine still waits for its context.
pub record MemoryStore : Type 0 where
  pub resources : Dict ResourceKey StoredResource
  pub watchers : List Watcher
  pub channels : Channels
  pub next_channel : ℕ
  pub cleanups : List ℕ

abbrev pub new : MemoryStore
new = record { resources = []; watchers = []; channels = []; next_channel = 0; cleanups = [] }

pub data Outcome {ℓ} (A : Type ℓ) : Type ℓ where
  ok : A → Outcome A
  err : StoreError → Outcome A
  panic : Outcome A

unfoldable pub get : Contexts → ℕ → ResourceKey → MemoryStore → Outcome StoredResource
get contexts ctx k s = elim (contexts ctx) [
  | some e ↦ err (ctx_err e)
  | none ↦ elim (lookup k s.resources) [ none ↦ err not_found | some res ↦ ok (clone res) ]
]

-- opts.ExpectedRevision != 0 && existing.Meta.Revision != opts.ExpectedRevision
abbrev pub stale : ℕ → StoreMeta → Bool
stale expected existing = expected != 0 && existing.revision != expected

-- The switch on the policy: an owner conflict is refused under `strict`, which is also the default,
-- and let through otherwise.
unfoldable pub refused_by_policy : String → Bool
refused_by_policy policy = (if policy == "" then conflict_strict else policy) == conflict_strict

-- The two checks that Put makes of a resource that is there.
unfoldable pub check_put : ResourceKey → StoreMeta → PutOptions → Option StoreError
unfolding refused_by_policy
check_put k existing opts =
    if stale opts.expected_revision existing
    then some (revision_conflict k opts.expected_revision existing.revision)
    else if opts.managed_by != ""
        && existing.managed_by != ""
        && existing.managed_by != opts.managed_by
    then (if refused_by_policy existing.conflict_policy
        then some (ownership_conflict k existing.managed_by opts.managed_by)
        else none)
    else none

-- The copy that is stored, with its server-side fields set.
unfoldable pub stamp : StoredResource → PutOptions → ℕ → ℕ → ℕ → StoredResource
stamp res opts revision created_at now =
    let m = (clone res).meta in
    record (clone res) {
      meta = record m {
        revision = revision;
        created_at = created_at;
        updated_at = now;
        managed_by = if opts.managed_by != "" then opts.managed_by else m.managed_by;
      };
    }

-- s.resources[key] = stored; s.notify(…); return stored.Clone()
unfoldable pub publish :
    Contexts
    → ResourceKey
    → StoredResource
    → Option StoredResource
    → MemoryStore
    → Outcome StoredResource × MemoryStore
publish contexts k stored old s =
    let s' = record s { resources = Dict.put k stored s.resources } in
    let event : WatchEvent = record {
      type = WatchEventType.put;
      resource = some (clone stored);
      old_resource = old;
    } in
    elim (notify contexts s.watchers event s.channels) [
      | none ↦ (panic, s')
      | some channels ↦ (ok (clone stored), record s' { channels = channels })
    ]

-- The two halves of Put, by whether the key is taken.
unfoldable pub put_found :
    Contexts
    → StoredResource
    → PutOptions
    → ℕ
    → MemoryStore
    → Option StoredResource
    → Outcome StoredResource × MemoryStore
put_found contexts res opts now s none =
    publish contexts (key res) (stamp res opts 1 now now) none s
put_found contexts res opts now s (some existing) = elim (check_put (key res) existing.meta opts) [
  | some e ↦ (err e, s)
  | none ↦
      publish contexts (key res)
        (stamp res opts (next_revision existing.meta.revision) existing.meta.created_at now)
        (some (clone existing)) s
]

unfoldable pub put :
    Contexts
    → ℕ
    → StoredResource
    → PutOptions
    → ℕ
    → MemoryStore
    → Outcome StoredResource × MemoryStore
put contexts ctx res opts now s = elim (contexts ctx) [
  | some e ↦ (err (ctx_err e), s)
  | none ↦ put_found contexts res opts now s (lookup (key res) s.resources)
]

-- delete(s.resources, key); s.notify(…)
unfoldable pub retract :
    Contexts → ResourceKey → StoredResource → MemoryStore → Outcome (Unit {0}) × MemoryStore
retract contexts k existing s =
    let s' = record s { resources = Dict.delete k s.resources } in
    let event : WatchEvent = record {
      type = WatchEventType.delete;
      resource = some (clone existing);
      old_resource = some (clone existing);
    } in
    elim (notify contexts s.watchers event s.channels) [
      | none ↦ (panic, s')
      | some channels ↦ (ok tt, record s' { channels = channels })
    ]

unfoldable pub delete :
    Contexts → ℕ → ResourceKey → DeleteOptions → MemoryStore → Outcome (Unit {0}) × MemoryStore
delete contexts ctx k opts s = elim (contexts ctx) [
  | some e ↦ (err (ctx_err e), s)
  | none ↦ elim (lookup k s.resources) [
    | none ↦ (err not_found, s)
    | some existing ↦
        if stale opts.expected_revision existing.meta
        then (err (revision_conflict k opts.expected_revision existing.meta.revision), s)
        else retract contexts k existing s
  ]
]

-- the loop of List over the resources of the map
unfoldable pub select : List StoredResource → ListFilter → List StoredResource
select [] f = []
select (res ∷ rest) f =
    let more = select rest f in if matches_list_filter res f then clone res ∷ more else more

unfoldable pub list : Contexts → ℕ → ListFilter → MemoryStore → Outcome (List StoredResource)
list contexts ctx f s = elim (contexts ctx) [
  | some e ↦ err (ctx_err e)
  | none ↦ ok (select (values s.resources) f)
]

-- The channel is made, the watcher appended, and the cleanup goroutine started.
unfoldable pub watch : Contexts → ℕ → WatchFilter → MemoryStore → Outcome ℕ × MemoryStore
watch contexts ctx f s = elim (contexts ctx) [
  | some e ↦ (err (ctx_err e), s)
  | none ↦ (
    ok s.next_channel,
    record s {
      watchers = s.watchers ++ record { filter = f; ch = s.next_channel; ctx = ctx } ∷ [];
      channels = Dict.put s.next_channel (record { buffer = []; closed = false }) s.channels;
      next_channel = s.next_channel + 1;
      cleanups = s.cleanups ++ s.next_channel ∷ [];
    },
  )
]

-- The loop of the cleanup goroutine; a watcher is known by its channel.
unfoldable pub remove_watcher : ℕ → List Watcher → List Watcher
remove_watcher ch [] = []
remove_watcher ch (w ∷ watchers) =
    let rest = remove_watcher ch watchers in if w.ch == ch then watchers else w ∷ rest

-- close(ch) panics on a closed channel.
unfoldable pub close : ℕ → Channels → Option Channels
close ch channels = elim (lookup ch channels) [
  | none ↦ none
  | some c ↦ if c.closed then none else some (Dict.put ch (record c { closed = true }) channels)
]

-- The body of the cleanup goroutine, once its context is done.
unfoldable pub cleanup : ℕ → MemoryStore → Outcome (Unit {0}) × MemoryStore
cleanup ch s =
    let s' = record s {
      watchers = remove_watcher ch s.watchers;
      cleanups = remove_first ch s.cleanups;
    } in
    elim (close ch s.channels) [
      | none ↦ (panic, s')
      | some channels ↦ (ok tt, record s' { channels = channels })
    ]
