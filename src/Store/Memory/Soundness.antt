-- ===== src/Store/Memory/Soundness.antt =====
-- The invariant of the in-memory store of memory.go: each operation keeps it, and under it none
-- panics.
use flowc.Prelude.{
  ℕ, ◌<◌, List, [], ◌∷◌, Option, none, some, true, ◌≡◌, refl, arith, nat_eq, contains, IsUnique,
  Bool-cases, Option-cases, inl, inr, eq_self,
}
use flowc.Dict
use flowc.Dict.{
  Dict, lookup, lookup-put, lookup-delete, IsDistinct, IsDistinct-put, IsDistinct-delete,
}
use flowc.Store.Resource.{
  ResourceKey, key_eq, key_beq_iff, StoredResource, key, PutOptions, DeleteOptions, next_revision,
  WatchEventType, WatchEvent,
}
use flowc.Store.Watch.{Contexts, Channels}
use flowc.Store.Memory.{
  MemoryStore, Outcome, ok, err, panic, new, publish, put, put_found, check_put, stale, retract,
  delete, stamp,
}
use flowc.Store.Memory.Delivery.{
  ids, is_open, AllOpen, delivered, delivered-is_open, wanted, notify_lem,
}

-- Between two operations: a resource stands under its own key; a watcher's goroutine still waits,
-- and as long as it does its channel is open; no two goroutines have one channel.
pub record IsSound (s : MemoryStore) : Type 0 where
  pub distinct : IsDistinct s.resources
  pub keyed : (k : ResourceKey) (r : StoredResource) → lookup k s.resources ≡ some r → key r ≡ k
  pub watching : (c : ℕ) → contains (ids s.watchers) c ≡ true → contains s.cleanups c ≡ true
  pub watchers_unique : IsUnique (ids s.watchers)
  pub cleanups_unique : IsUnique s.cleanups
  pub open_ : (c : ℕ) → contains s.cleanups c ≡ true → is_open (lookup c s.channels) ≡ true
  pub fresh : (c : ℕ) → contains s.cleanups c ≡ true → c < s.next_channel

pub IsSound-new : IsSound new
unfolding lookup contains
IsSound-new = record {
  distinct = tt;
  keyed = λ k r h. cc;
  watching = λ c h. cc;
  watchers_unique = tt;
  cleanups_unique = tt;
  open_ = λ c h. cc;
  fresh = λ c h. absurd (ground arith);
}

AllOpen-of :
    (channels : Channels) (cs : List ℕ)
    → ((c : ℕ) → contains cs c ≡ true → is_open (lookup c channels) ≡ true)
    → AllOpen channels cs
unfolding contains
AllOpen-of channels [] h = tt
AllOpen-of channels (c ∷ cs) h =
    (h c (ground (arith, eq_self c)), AllOpen-of channels cs (λ d m. h d (ground arith)))

module _ (contexts : Contexts) (k : ResourceKey) (s : MemoryStore) (sound : IsSound s) where
  pub watchers_open : AllOpen s.channels (ids s.watchers)
  watchers_open = AllOpen-of s.channels (ids s.watchers) (λ c h. sound.open_ c (sound.watching c h))

  -- The store after a notification, whatever happened to its resources.
  notified-IsSound :
      (resources : Dict ResourceKey StoredResource) (channels : Channels) (event : WatchEvent)
      (res : StoredResource)
      → IsDistinct resources
      → ((j : ResourceKey) (r : StoredResource) → lookup j resources ≡ some r → key r ≡ j)
      → ((c : ℕ)
          → lookup c channels
            ≡ delivered (wanted contexts s.watchers res c) event (lookup c s.channels))
      → IsSound (record s { resources = resources; channels = channels })
  notified-IsSound resources channels event res d kd told = record {
    distinct = d;
    keyed = kd;
    watching = sound.watching;
    watchers_unique = sound.watchers_unique;
    cleanups_unique = sound.cleanups_unique;
    open_ = λ c h. rw (told c) (delivered-is_open _ event (lookup c s.channels) (sound.open_ c h));
    fresh = sound.fresh;
  }

  publish-IsSound :
      (stored : StoredResource) (old : Option StoredResource)
      → key stored ≡ k
      → IsSound (publish contexts k stored old s).1
        × ((publish contexts k stored old s).0 ≡ ok stored)
  unfolding publish
  publish-IsSound stored old kd =
      let event : WatchEvent = record {
        type = WatchEventType.put;
        resource = some stored;
        old_resource = old;
      } in
      let (channels, sent, told) =
        notify_lem contexts s.watchers event stored s.channels refl sound.watchers_unique
          watchers_open in
      rw (sent, publish)
        (
          notified-IsSound (Dict.put k stored s.resources) channels event stored
              (IsDistinct-put k stored s.resources sound.distinct)
              (λ j r h.
                ground
                  (arith, sound.keyed j r, lookup-put j k stored s.resources, key_beq_iff k j, kd))
              told,
          refl,
        )

  retract-IsSound :
      (existing : StoredResource)
      → IsSound (retract contexts k existing s).1 × ((retract contexts k existing s).0 ≡ ok tt)
  unfolding retract
  retract-IsSound existing =
      let event : WatchEvent = record {
        type = WatchEventType.delete;
        resource = some existing;
        old_resource = some existing;
      } in
      let (channels, sent, told) =
        notify_lem contexts s.watchers event existing s.channels refl sound.watchers_unique
          watchers_open in
      rw (sent, retract)
        (
          notified-IsSound (Dict.delete k s.resources) channels event existing
              (IsDistinct-delete k s.resources sound.distinct)
              (λ j r h. ground (arith, sound.keyed j r, lookup-delete j k s.resources)) told,
          refl,
        )

-- An outcome that is no panic.
abbrev pub Returns {ℓ} : {A : Type ℓ} → Outcome A → Type 0
Returns (ok a) = Unit
Returns (err e) = Unit
Returns panic = ⊥

module _ (contexts : Contexts) (ctx : ℕ) (s : MemoryStore) (sound : IsSound s) where
  key-stamp :
      (res : StoredResource) (opts : PutOptions) (revision created_at now : ℕ)
      → key (stamp res opts revision created_at now) ≡ key res
  unfolding stamp
  key-stamp res opts revision created_at now = refl

  published :
      (res : StoredResource) (opts : PutOptions) (revision created_at now : ℕ)
      (old : Option StoredResource)
      → let stored = stamp res opts revision created_at now in
        IsSound (publish contexts (key res) stored old s).1
        × Returns (publish contexts (key res) stored old s).0
  published res opts revision created_at now old =
      let stored = stamp res opts revision created_at now in
      let (kept, done) =
        publish-IsSound contexts (key res) s sound stored old
          (key-stamp res opts revision created_at now) in
      (kept, rw done tt)

  put_found-IsSound :
      (res : StoredResource) (opts : PutOptions) (now : ℕ) (o : Option StoredResource)
      → IsSound (put_found contexts res opts now s o).1
        × Returns (put_found contexts res opts now s o).0
  unfolding put_found
  put_found-IsSound res opts now none = published res opts 1 now now none
  put_found-IsSound res opts now (some existing) =
      elim (Option-cases (check_put (key res) existing.meta opts)) [
        | inr (e, refused) ↦ rw (refused, put_found) (sound, tt)
        | inl passed ↦
            rw (passed, put_found)
              (published res opts (next_revision existing.meta.revision) existing.meta.created_at
                now (some existing))
      ]

  pub put-IsSound :
      (res : StoredResource) (opts : PutOptions) (now : ℕ)
      → IsSound (put contexts ctx res opts now s).1 × Returns (put contexts ctx res opts now s).0
  unfolding put
  put-IsSound res opts now = elim (Option-cases (contexts ctx)) [
    | inr (e, over) ↦ rw (over, put) (sound, tt)
    | inl live ↦ rw (live, put) (put_found-IsSound res opts now (lookup (key res) s.resources))
  ]

  delete_found-IsSound :
      (k : ResourceKey) (opts : DeleteOptions)
      → contexts ctx ≡ none
      → IsSound (delete contexts ctx k opts s).1 × Returns (delete contexts ctx k opts s).0
  unfolding delete
  delete_found-IsSound k opts live = elim (Option-cases (lookup k s.resources)) [
    | inl missing ↦ rw (live, missing, delete) (sound, tt)
    | inr (existing, found) ↦ elim (Bool-cases (stale opts.expected_revision existing.meta)) [
      | inl refused ↦ rw (live, found, refused, delete) (sound, tt)
      | inr current ↦
          let (kept, done) = retract-IsSound contexts k s sound existing in
          rw (live, found, current, delete) (kept, rw done tt)
    ]
  ]

  pub delete-IsSound :
      (k : ResourceKey) (opts : DeleteOptions)
      → IsSound (delete contexts ctx k opts s).1 × Returns (delete contexts ctx k opts s).0
  unfolding delete
  delete-IsSound k opts = elim (Option-cases (contexts ctx)) [
    | inr (e, over) ↦ rw (over, delete) (sound, tt)
    | inl live ↦ delete_found-IsSound k opts live
  ]
