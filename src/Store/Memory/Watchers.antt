-- ===== src/Store/Memory/Watchers.antt =====
-- The invariant of the in-memory store of memory.go: Watch, the cleanup goroutines and the
-- readers keep it, and none of them panics.
use flowc.Prelude.{
  ℕ, ◌≤◌, length, List, [], ◌∷◌, ◌++◌, none, some, true, false, ◌≡◌, ap, refl, arith, nat_eq, ◌==◌,
  contains, contains-append, IsUnique-snoc, remove_first, contains-remove_first,
  IsUnique-remove_first, Bool-cases, Option-cases, inl, inr, nat_beq_iff,
}
use mathlib.Core.List.{tail}
use flowc.Dict
use flowc.Dict.{
  Dict, lookup, lookup-put, lookup-delete, IsDistinct, IsDistinct-put, IsDistinct-delete,
}
use flowc.Store.Resource.{key_eq, WatchEvent, WatchFilter}
use flowc.Store.Watch.{Contexts, Channel, Watcher, shift, receive}
use flowc.Store.Memory.{MemoryStore, watch, remove_watcher, close, cleanup}
use flowc.Store.Memory.Delivery.{ids}
use flowc.Store.Memory.Soundness.{IsSound, Returns}

ids-snoc : (ws : List Watcher) (w : Watcher) → ids (ws ++ w ∷ []) ≡ ids ws ++ w.ch ∷ []
ids-snoc [] w = refl
ids-snoc (v ∷ ws) w = ap (λ cs. v.ch ∷ cs) (ids-snoc ws w)

contains-one : (a b : ℕ) → contains (a ∷ []) b ≡ (a == b)
unfolding contains
contains-one a b = ground arith

length-tail : (xs : List WatchEvent) → length (tail xs) ≤ length xs
length-tail [] = omega arith
length-tail (x ∷ xs) = omega arith

module _ (contexts : Contexts) (ctx : ℕ) (s : MemoryStore) (sound : IsSound s) where
  -- The number of the next channel is new.
  next_unused : contains s.cleanups s.next_channel ≡ false
  next_unused = elim (Bool-cases (contains s.cleanups s.next_channel)) [
    | inl taken ↦ absurd (omega (arith, sound.fresh s.next_channel taken))
    | inr unused ↦ unused
  ]

  next_unwatched : contains (ids s.watchers) s.next_channel ≡ false
  next_unwatched = elim (Bool-cases (contains (ids s.watchers) s.next_channel)) [
    | inl taken ↦ cc (sound.watching s.next_channel taken, next_unused)
    | inr unused ↦ unused
  ]

  watched-IsSound : (f : WatchFilter) → contexts ctx ≡ none → IsSound (watch contexts ctx f s).1
  unfolding watch
  watched-IsSound f live =
      let n = s.next_channel in
      let w : Watcher = record { filter = f; ch = n; ctx = ctx } in
      rw (live, watch)
        (record {
          distinct = sound.distinct;
          keyed = sound.keyed;
          watching = λ c h. ground (
            arith,
            sound.watching c,
            rw (ids-snoc s.watchers w) at h,
            contains-append (ids s.watchers) (n ∷ []) c,
            contains-append s.cleanups (n ∷ []) c,
          );
          watchers_unique =
              rw (ids-snoc s.watchers w)
                (IsUnique-snoc (ids s.watchers) n sound.watchers_unique next_unwatched);
          cleanups_unique = IsUnique-snoc s.cleanups n sound.cleanups_unique next_unused;
          open_ = λ c h. ground (
            arith,
            sound.open_ c,
            contains-append s.cleanups (n ∷ []) c,
            lookup-put c n (record { buffer = []; closed = false }) s.channels,
            nat_beq_iff n c,
            contains-one n c,
          );
          fresh = λ c h. ground (
            arith,
            sound.fresh c,
            contains-append s.cleanups (n ∷ []) c,
            contains-one n c,
            nat_beq_iff n c,
          );
        })

  pub watch-IsSound :
      (f : WatchFilter) → IsSound (watch contexts ctx f s).1 × Returns (watch contexts ctx f s).0
  unfolding watch
  watch-IsSound f = elim (Option-cases (contexts ctx)) [
    | inr (e, over) ↦ rw (over, watch) (sound, tt)
    | inl live ↦ (watched-IsSound f live, rw (live, watch) tt)
  ]

module _ (ch : ℕ) (s : MemoryStore) (sound : IsSound s) where
  ids-remove_watcher : (ws : List Watcher) → ids (remove_watcher ch ws) ≡ remove_first ch (ids ws)
  unfolding remove_watcher remove_first
  ids-remove_watcher [] = refl
  ids-remove_watcher (w ∷ ws) = elim (Bool-cases (w.ch == ch)) [
    | inl same ↦ rw same
    | inr other ↦ rw other (ap (λ cs. w.ch ∷ cs) (ids-remove_watcher ws))
  ]

  closed_channel :
      {c : Channel}
      → lookup ch s.channels ≡ some c
      → c.closed ≡ false
      → close ch s.channels ≡ some (Dict.put ch (record c { closed = true }) s.channels)
  unfolding close
  closed_channel found unclosed = ground arith

  cleaned-IsSound :
      (c : Channel)
      → IsSound (record s {
        watchers = remove_watcher ch s.watchers;
        channels = Dict.put ch (record c { closed = true }) s.channels;
        cleanups = remove_first ch s.cleanups;
      })
  cleaned-IsSound c = record {
    distinct = sound.distinct;
    keyed = sound.keyed;
    watching = λ d h. ground (
      arith,
      sound.watching d,
      rw (ids-remove_watcher s.watchers) at h,
      contains-remove_first ch d (ids s.watchers) sound.watchers_unique,
      contains-remove_first ch d s.cleanups sound.cleanups_unique,
    );
    watchers_unique =
        rw (ids-remove_watcher s.watchers)
          (IsUnique-remove_first ch (ids s.watchers) sound.watchers_unique);
    cleanups_unique = IsUnique-remove_first ch s.cleanups sound.cleanups_unique;
    open_ = λ d h. ground (
      arith,
      sound.open_ d,
      contains-remove_first ch d s.cleanups sound.cleanups_unique,
      lookup-put d ch (record c { closed = true }) s.channels,
      nat_beq_iff ch d,
    );
    fresh = λ d h.
        ground (arith, sound.fresh d, contains-remove_first ch d s.cleanups sound.cleanups_unique);
  }

  pub cleanup-IsSound :
      contains s.cleanups ch ≡ true → IsSound (cleanup ch s).1 × Returns (cleanup ch s).0
  unfolding cleanup close
  cleanup-IsSound waits = elim (Option-cases (lookup ch s.channels)) [
    | inl missing ↦ cc (sound.open_ ch waits, missing)
    | inr (c, found) ↦
        let unclosed : c.closed ≡ false = ground (arith, sound.open_ ch waits) in
        rw (closed_channel found unclosed, cleanup) (cleaned-IsSound c, tt)
  ]

  pub receive-IsSound : IsSound (record s { channels = receive ch s.channels })
  unfolding receive
  receive-IsSound = elim (Option-cases (lookup ch s.channels)) [
    | inl missing ↦ rw (missing, receive) sound
    | inr (c, found) ↦
        rw (found, receive)
          (record {
            distinct = sound.distinct;
            keyed = sound.keyed;
            watching = sound.watching;
            watchers_unique = sound.watchers_unique;
            cleanups_unique = sound.cleanups_unique;
            open_ = λ d h. ground (
              arith,
              sound.open_ d,
              lookup-put d ch (shift c) s.channels,
              nat_beq_iff ch d,
              length-tail c.buffer,
            );
            fresh = sound.fresh;
          })
  ]
