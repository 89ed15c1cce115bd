-- ===== src/Store/Memory/Delivery.antt =====
-- notify of memory.go: it never sends on a closed channel, and each channel gets each event at most
-- once, exactly if its watcher is live, its filter selects the event and its buffer has room.
use flowc.Prelude.{
  ℕ, List, [], ◌∷◌, Option, none, some, Bool, true, false, not, ◌&&◌, ◌||◌, ◌≡◌, ◌∙◌, ap, refl,
  arith, nat_eq, ◌==◌, if◌then◌else◌, ltb, length, length-append, contains, IsUnique, is_some,
  Bool-cases, Option-cases, inl, inr, nat_beq_iff,
}
use flowc.Dict
use flowc.Dict.{Dict, lookup, lookup-put}
use flowc.Store.Resource.{StoredResource, WatchEvent, matches_watch_filter}
use flowc.Store.Watch.{
  watch_buffer_size, Contexts, Channel, Channels, Watcher, push, send, offer, notify,
}

abbrev pub ids : List Watcher → List ℕ
ids [] = []
ids (w ∷ ws) = w.ch ∷ ids ws

-- A channel that can be sent on: made, not closed, and with no more than its capacity in it.
abbrev pub is_open : Option Channel → Bool
is_open none = false
is_open (some c) = not c.closed && not (ltb watch_buffer_size (length c.buffer))

-- What a channel holds after an event was offered to it.
abbrev pub deliver : WatchEvent → Channel → Channel
deliver event c = if ltb (length c.buffer) watch_buffer_size then push event c else c

-- The event goes to this channel: one of the watchers reads from it, is live, and selects the event.
unfoldable pub wanted : Contexts → List Watcher → StoredResource → ℕ → Bool
wanted contexts [] res ch = false
wanted contexts (w ∷ ws) res ch =
    (w.ch == ch && not (is_some (contexts w.ctx)) && matches_watch_filter res w.filter)
    || wanted contexts ws res ch

abbrev pub delivered : Bool → WatchEvent → Option Channel → Option Channel
delivered b event none = none
delivered b event (some c) = some (if b then deliver event c else c)

-- All channels of these watchers are open.
abbrev pub AllOpen : Channels → List ℕ → Type 0
AllOpen channels [] = Unit
AllOpen channels (c ∷ cs) = (is_open (lookup c channels) ≡ true) × AllOpen channels cs

send-total :
    (ch : ℕ) (event : WatchEvent) (channels : Channels)
    → is_open (lookup ch channels) ≡ true
    → (channels' : Channels) × (send ch event channels ≡ some channels')
      × ((k : ℕ) → lookup k channels' ≡ delivered (ch == k) event (lookup k channels))
unfolding send
send-total ch event channels h = elim (Option-cases (lookup ch channels)) [
  | inl missing ↦ absurd (ground arith)
  | inr (c, found) ↦ elim (Bool-cases (ltb (length c.buffer) watch_buffer_size)) [
    | inl room ↦ (
      Dict.put ch (push event c) channels,
      ground arith,
      λ k. ground (arith, lookup-put k ch (push event c) channels, nat_beq_iff ch k),
    )
    | inr full ↦ (channels, ground arith, λ k. ground (arith, nat_beq_iff ch k))
  ]
]

offer-total :
    (contexts : Contexts) (w : Watcher) (event : WatchEvent) (res : StoredResource)
    (channels : Channels)
    → is_open (lookup w.ch channels) ≡ true
    → (channels' : Channels) × (offer contexts w event (some res) channels ≡ some channels')
      × ((k : ℕ)
          → lookup k channels'
            ≡ delivered
                (w.ch == k && not (is_some (contexts w.ctx)) && matches_watch_filter res w.filter)
                event
                (lookup k channels))
unfolding offer
offer-total contexts w event res channels h =
    let (channels', sent, told) = send-total w.ch event channels h in
    elim (Bool-cases (not (is_some (contexts w.ctx)) && matches_watch_filter res w.filter)) [
      | inl taken ↦ (channels', ground arith, λ k. ground (arith, told k))
      | inr left ↦ (channels, ground arith, λ k. ground arith)
    ]

-- A delivery closes no channel and overfills none.
pub delivered-is_open :
    (b : Bool) (event : WatchEvent) (o : Option Channel)
    → is_open o ≡ true
    → is_open (delivered b event o) ≡ true
delivered-is_open b event none h = cc
delivered-is_open b event (some c) h = ground (arith, length-append c.buffer (event ∷ []))

pub AllOpen-delivered :
    (f : ℕ → Bool) (event : WatchEvent) (channels channels' : Channels) (cs : List ℕ)
    → ((k : ℕ) → lookup k channels' ≡ delivered (f k) event (lookup k channels))
    → AllOpen channels cs
    → AllOpen channels' cs
AllOpen-delivered f event channels channels' [] told h = tt
AllOpen-delivered f event channels channels' (c ∷ cs) told h = (
  rw (told c) (delivered-is_open (f c) event (lookup c channels) h.0),
  AllOpen-delivered f event channels channels' cs told h.1,
)

not_wanted :
    (contexts : Contexts) (ws : List Watcher) (res : StoredResource) (ch : ℕ)
    → contains (ids ws) ch ≡ false
    → wanted contexts ws res ch ≡ false
unfolding wanted contains
not_wanted contexts [] res ch h = refl
not_wanted contexts (w ∷ ws) res ch h = ground (arith, not_wanted contexts ws res ch)

notify-cons :
    (contexts : Contexts) (w : Watcher) (ws : List Watcher) (event : WatchEvent)
    (res : StoredResource) (channels : Channels) {one all : Channels}
    → event.resource ≡ some res
    → offer contexts w event (some res) channels ≡ some one
    → notify contexts ws event one ≡ some all
    → notify contexts (w ∷ ws) event channels ≡ some all
unfolding notify
notify-cons contexts w ws event res channels e sent rest =
    let offered : offer contexts w event event.resource channels ≡ some _ =
      ap (λ o. offer contexts w event o channels) e ∙ sent in
    ground arith

-- Two offers of one event are one where at most one of them is taken.
delivered-twice :
    (a b : Bool) (event : WatchEvent) (o : Option Channel)
    → (a ≡ true → b ≡ false)
    → delivered b event (delivered a event o) ≡ delivered (a || b) event o
delivered-twice a b event none h = refl
delivered-twice true b event (some c) h = rw (h refl)
delivered-twice false b event (some c) h = refl

-- With open channels that differ and an event that has a resource, notify does not panic, and
-- afterwards each channel holds the event once more, if it has a live watcher whose filter selects
-- the event and room in its buffer, and what it held before otherwise.
pub notify_lem :
    (contexts : Contexts) (ws : List Watcher) (event : WatchEvent) (res : StoredResource)
    (channels : Channels)
    → event.resource ≡ some res
    → IsUnique (ids ws)
    → AllOpen channels (ids ws)
    → (channels' : Channels) × (notify contexts ws event channels ≡ some channels')
      × ((k : ℕ)
          → lookup k channels' ≡ delivered (wanted contexts ws res k) event (lookup k channels))
unfolding notify wanted
notify_lem contexts [] event res channels e u h = (channels, refl, λ k. ground arith)
notify_lem contexts (w ∷ ws) event res channels e u h =
    let (one, sent, told) = offer-total contexts w event res channels h.0 in
    let (all, rest, told') =
      notify_lem contexts ws event res one e u.1
        (AllOpen-delivered _ event channels one (ids ws) told h.1) in
    (
      all,
      notify-cons contexts w ws event res channels e sent rest,
      λ k.
          told' k
          ∙ ap (delivered (wanted contexts ws res k) event) (told k)
          ∙ delivered-twice
              (w.ch == k && not (is_some (contexts w.ctx)) && matches_watch_filter res w.filter)
              (wanted contexts ws res k) event (lookup k channels)
              (λ taken.
                rw (← (nat_beq_iff w.ch k).0 (ground arith)) (not_wanted contexts ws res w.ch u.0)),
    )
