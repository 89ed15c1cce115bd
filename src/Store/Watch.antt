-- ===== src/Store/Watch.antt =====
-- memory.go: watchers, their buffered channels, and `notify`. A channel is a buffer of at most
-- `watch_buffer_size` events under a number that stands for its identity; the contexts that the
-- watchers hold belong to their callers, so their present state is an argument. `none` is a panic:
-- a send on a closed channel, or a nil resource.
use flowc.Prelude.{
  ℕ, List, [], ◌∷◌, ◌++◌, Option, none, some, Bool, not, ltb, length, nat_eq, if◌then◌else◌,
  is_some,
}
use flowc.Dict.{Dict, lookup}
use mathlib.Core.List.{tail}
use flowc.Dict
use flowc.Store.Resource.{StoredResource, WatchEvent, WatchFilter, CtxError, matches_watch_filter}

abbrev pub watch_buffer_size : ℕ
watch_buffer_size = 64

abbrev pub Contexts : Type 0
Contexts = ℕ → Option CtxError

pub record Channel : Type 0 where
  pub buffer : List WatchEvent
  pub closed : Bool

abbrev pub Channels : Type 0
Channels = Dict ℕ Channel

pub record Watcher : Type 0 where
  pub filter : WatchFilter
  pub ch : ℕ
  pub ctx : ℕ

-- w.ch <- event, on an open channel
abbrev pub push : WatchEvent → Channel → Channel
push event c = record c { buffer = c.buffer ++ event ∷ [] }

-- select { case ch <- event: default: }
unfoldable pub send : ℕ → WatchEvent → Channels → Option Channels
send ch event channels = elim (lookup ch channels) [
  | none ↦ none
  | some c ↦
      if c.closed
      then none
      else if ltb (length c.buffer) watch_buffer_size
      then some (Dict.put ch (push event c) channels)
      else some channels
]

-- one round of the loop of `notify`
unfoldable pub offer :
    Contexts → Watcher → WatchEvent → Option StoredResource → Channels → Option Channels
offer contexts w event none channels = if is_some (contexts w.ctx) then some channels else none
offer contexts w event (some res) channels =
    if is_some (contexts w.ctx)
    then some channels
    else if not (matches_watch_filter res w.filter)
    then some channels
    else send w.ch event channels

unfoldable pub notify : Contexts → List Watcher → WatchEvent → Channels → Option Channels
notify contexts [] event channels = some channels
notify contexts (w ∷ watchers) event channels =
    elim (offer contexts w event event.resource channels) [
      | none ↦ none
      | some channels' ↦ notify contexts watchers event channels'
    ]

-- A reader takes the event at the head of the buffer, if there is one.
abbrev pub shift : Channel → Channel
shift c = record c { buffer = tail c.buffer }

unfoldable pub receive : ℕ → Channels → Channels
receive ch channels = elim (lookup ch channels) [
  | none ↦ channels
  | some c ↦ Dict.put ch (shift c) channels
]
