-- ===== src/Store/Memory/Subscribed.antt =====
-- memory.go for the reader of one watch channel: what each write of the store puts into the channel's
-- buffer, and what a read takes out of it.
use flowc.Prelude.{
  ℕ, ◌<◌, List, [], ◌∷◌, ◌++◌, Option, none, some, true, ◌≡◌, refl, ap, ◌∙◌, arith, nat_eq, ltb,
  length, contains, contains-append, if◌then◌else◌, eq_self, Bool-cases, Option-cases, inl, inr,
}
use mathlib.Core.List.{tail}
use flowc.Dict.{lookup, lookup-put}
use flowc.Store.Resource.{
  ResourceKey, key_eq, StoredResource, key, PutOptions, DeleteOptions, WatchEvent, WatchEventType,
  matches_watch_filter,
}
use flowc.Store.Watch.{watch_buffer_size, Contexts, Channel, Watcher, shift, receive}
use flowc.Store.Memory.{
  MemoryStore, ok, check_put, publish, put_found, put, retract, stale, delete, watch,
}
use flowc.Store.Memory.Delivery.{is_open, delivered, wanted, notify_lem}
use flowc.Store.Memory.Soundness.{IsSound, watchers_open}

-- The events in the buffer of a channel.
abbrev pub buffer_of : Option Channel → List WatchEvent
buffer_of none = []
buffer_of (some c) = c.buffer

abbrev pub queue_of : ℕ → MemoryStore → List WatchEvent
queue_of ch s = buffer_of (lookup ch s.channels)

delivered-buffer :
    (event : WatchEvent) (o : Option Channel)
    → is_open o ≡ true
    → length (buffer_of o) < watch_buffer_size
    → buffer_of (delivered true event o) ≡ buffer_of o ++ event ∷ []
delivered-buffer event none open_ room = absurd (ground arith)
delivered-buffer event (some c) open_ room =
    let fits : ltb (length c.buffer) watch_buffer_size ≡ true = ground (arith, room) in rw fits refl

-- The event is appended to the channel's buffer; the watchers stay, and so do the cleanups.
pub record Appends (ch : ℕ) (event : WatchEvent) (s s' : MemoryStore) : Type 0 where
  pub queue : queue_of ch s' ≡ queue_of ch s ++ event ∷ []
  pub watchers : s'.watchers ≡ s.watchers
  pub cleanups : s'.cleanups ≡ s.cleanups

module _ (contexts : Contexts) (k : ResourceKey) (s : MemoryStore) (sound : IsSound s) (ch : ℕ)
    (waits : contains s.cleanups ch ≡ true)
    (room : length (queue_of ch s) < watch_buffer_size) where
  publish-Appends :
      (stored : StoredResource) (old : Option StoredResource)
      → wanted contexts s.watchers stored ch ≡ true
      → Appends ch
          (record { type = WatchEventType.put; resource = some stored; old_resource = old })
          s
          (publish contexts k stored old s).1
  unfolding publish
  publish-Appends stored old selected =
      let event : WatchEvent = record {
        type = WatchEventType.put;
        resource = some stored;
        old_resource = old;
      } in
      let (channels, sent, told) =
        notify_lem contexts s.watchers event stored s.channels refl sound.watchers_unique
          (watchers_open contexts k s sound) in
      rw (sent, publish)
        (record {
          queue =
              ap buffer_of (told ch)
              ∙ ap (λ b. buffer_of (delivered b event (lookup ch s.channels))) selected
              ∙ delivered-buffer event (lookup ch s.channels) (sound.open_ ch waits) room;
          watchers = refl;
          cleanups = refl;
        })

  retract-Appends :
      (existing : StoredResource)
      → wanted contexts s.watchers existing ch ≡ true
      → Appends ch
          (record {
            type = WatchEventType.delete;
            resource = some existing;
            old_resource = some existing;
          })
          s
          (retract contexts k existing s).1
  unfolding retract
  retract-Appends existing selected =
      let event : WatchEvent = record {
        type = WatchEventType.delete;
        resource = some existing;
        old_resource = some existing;
      } in
      let (channels, sent, told) =
        notify_lem contexts s.watchers event existing s.channels refl sound.watchers_unique
          (watchers_open contexts k s sound) in
      rw (sent, retract)
        (record {
          queue =
              ap buffer_of (told ch)
              ∙ ap (λ b. buffer_of (delivered b event (lookup ch s.channels))) selected
              ∙ delivered-buffer event (lookup ch s.channels) (sound.open_ ch waits) room;
          watchers = refl;
          cleanups = refl;
        })

module _ (contexts : Contexts) (ctx : ℕ) (s : MemoryStore) (sound : IsSound s) (ch : ℕ)
    (waits : contains s.cleanups ch ≡ true) (room : length (queue_of ch s) < watch_buffer_size)
    (selected : (r : StoredResource) → wanted contexts s.watchers r ch ≡ true) where
  -- What a write sends to the channel: the written resource, with some previous version.
  abbrev pub Sends : StoredResource → MemoryStore → Type 0
  Sends out s' =
      (old : Option StoredResource) × Appends ch
        (record { type = WatchEventType.put; resource = some out; old_resource = old }) s s'

  published-Sends :
      (k : ResourceKey) (stored : StoredResource) (old : Option StoredResource)
      {out : StoredResource}
      → (publish contexts k stored old s).0 ≡ ok out
      → Sends out (publish contexts k stored old s).1
  unfolding publish
  published-Sends k stored old {out} done =
      let it : stored ≡ out = ground arith in
      (
        old,
        rw (← it) (publish-Appends contexts k s sound ch waits room stored old (selected stored)),
      )

  put_found-Sends :
      (res : StoredResource) (opts : PutOptions) (now : ℕ) (o : Option StoredResource)
      {out : StoredResource}
      → (put_found contexts res opts now s o).0 ≡ ok out
      → Sends out (put_found contexts res opts now s o).1
  unfolding put_found
  put_found-Sends res opts now none done = published-Sends (key res) _ none done
  put_found-Sends res opts now (some e) done =
      elim (Option-cases (check_put (key res) e.meta opts)) [
        | inr (x, refused) ↦ absurd (ground (arith, refused))
        | inl passed ↦
            rw (passed, put_found)
              (published-Sends (key res) _ (some e) (rw (passed, put_found) at done))
      ]

  -- A successful Put appends its event to the channel of a watcher that selects it, if there is room.
  pub put-Sends :
      (res : StoredResource) (opts : PutOptions) (now : ℕ) {out : StoredResource}
      → (put contexts ctx res opts now s).0 ≡ ok out
      → Sends out (put contexts ctx res opts now s).1
  unfolding put
  put-Sends res opts now done = elim (Option-cases (contexts ctx)) [
    | inr (e, over) ↦ absurd (ground (arith, over))
    | inl live ↦
        rw (live, put)
          (put_found-Sends res opts now (lookup (key res) s.resources) (rw (live, put) at done))
  ]

  -- And so does a successful Delete, with the resource that it found.
  pub delete-Sends :
      (k : ResourceKey) (opts : DeleteOptions)
      → (delete contexts ctx k opts s).0 ≡ ok tt
      → (existing : StoredResource) × (lookup k s.resources ≡ some existing)
        × Appends ch
            (record {
              type = WatchEventType.delete;
              resource = some existing;
              old_resource = some existing;
            })
            s
            (delete contexts ctx k opts s).1
  unfolding delete
  delete-Sends k opts done = elim (Option-cases (contexts ctx)) [
    | inr (e, over) ↦ absurd (ground (arith, over))
    | inl live ↦ elim (Option-cases (lookup k s.resources)) [
      | inl missing ↦ absurd (ground (arith, live, missing))
      | inr (existing, found) ↦ elim (Bool-cases (stale opts.expected_revision existing.meta)) [
        | inl refused ↦ absurd (ground (arith, live, found, refused))
        | inr current ↦ (
          existing,
          found,
          rw (live, found, current, delete)
              (retract-Appends contexts k s sound ch waits room existing (selected existing)),
        )
      ]
    ]
  ]

-- A read takes the first event out of the buffer.
pub receive-queue :
    (ch : ℕ) (s : MemoryStore)
    → queue_of ch (record s { channels = receive ch s.channels }) ≡ tail (queue_of ch s)
unfolding receive
receive-queue ch s = elim (Option-cases (lookup ch s.channels)) [
  | inl missing ↦ rw (missing, receive) (rw missing refl)
  | inr (c, found) ↦
      rw (found, receive)
        (ap buffer_of (lookup-put ch ch (shift c) s.channels)
          ∙ ap (λ b. buffer_of (if b then some (shift c) else lookup ch s.channels)) (eq_self ch))
]

wanted-snoc :
    (contexts : Contexts) (ws : List Watcher) (w : Watcher) (r : StoredResource)
    → wanted contexts (w ∷ []) r w.ch ≡ true
    → wanted contexts (ws ++ w ∷ []) r w.ch ≡ true
unfolding wanted
wanted-snoc contexts [] w r h = h
wanted-snoc contexts (v ∷ ws) w r h = ground (arith, wanted-snoc contexts ws w r h)

only-wanted :
    (contexts : Contexts) (ctx ch : ℕ) (r : StoredResource)
    → contexts ctx ≡ none
    → wanted contexts (record { filter = record { kind = "" }; ch = ch; ctx = ctx } ∷ []) r ch
      ≡ true
unfolding wanted matches_watch_filter
only-wanted contexts ctx ch r live = rw (live, eq_self ch) refl

last_contained : (xs : List ℕ) (a : ℕ) → contains (xs ++ a ∷ []) a ≡ true
unfolding contains
last_contained xs a = ground (arith, contains-append xs (a ∷ []) a, eq_self a)

-- Watch without a kind in the filter, on a sound store and a live context: the channel is the next
-- one and is empty, its cleanup waits, and its watcher selects every resource while its context is
-- live.
pub watch-all :
    (contexts : Contexts) (ctx : ℕ) (s : MemoryStore)
    → contexts ctx ≡ none
    → let (outcome, after) = watch contexts ctx (record { kind = "" }) s in
      (outcome ≡ ok s.next_channel)
      × (after.resources ≡ s.resources)
      × (queue_of s.next_channel after ≡ [])
      × (contains after.cleanups s.next_channel ≡ true)
      × ((later : Contexts) (r : StoredResource)
          → later ctx ≡ none
          → wanted later after.watchers r s.next_channel ≡ true)
unfolding watch
watch-all contexts ctx s live =
    rw (live, watch)
      (
        refl,
        refl,
        ap buffer_of (lookup-put s.next_channel s.next_channel _ s.channels)
            ∙ rw (eq_self s.next_channel) refl,
        last_contained s.cleanups s.next_channel,
        λ later r still.
            wanted-snoc later s.watchers _ r (only-wanted later ctx s.next_channel r still),
      )
