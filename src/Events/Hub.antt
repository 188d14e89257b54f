-- ===== src/Events/Hub.antt =====
-- internal/server/events_hub.go: the in-memory broadcast hub. A Go map of subscribers is the list of
-- them, a buffered channel the queue of what its reader has not taken. Every operation runs under the
-- hub's lock, so that it is one step. The proofs are in the modules below.
pub mod Invariant
pub mod Delivery
use any.Common.{
  ℕ, zero, suc, ◌+◌, Bool, true, false, not, ◌&&◌, List, [], ◌∷◌, ◌++◌, Option, none, some, Bytes,
  codes, length, ◌==◌, ltb, if◌then◌else◌,
}
use any.Strings.{eq_bytes, contains}
use any.Events.{Event, EventFilter, matches}

-- eventSubBuffer
abbrev pub sub_buffer : ℕ
sub_buffer = 16

-- api.EventScopeSpace
abbrev pub scope_space : Bytes
scope_space = codes "space"

-- the struct eventSub, with its key in the map and what its channel holds
pub record Sub : Type 0 where
  pub id : ℕ
  pub filter : EventFilter
  pub queue : List Event

-- the struct eventHub; `closed` are the subscribers whose channels were closed
pub record Hub : Type 0 where
  pub next : ℕ
  pub subs : List Sub
  pub closed : List Sub

-- newEventHub
abbrev pub new_hub : Hub
new_hub = record { next = 0; subs = []; closed = [] }

unfoldable pub subscribe : EventFilter → Hub → Hub × ℕ
subscribe f h = (
  record h {
    next = h.next + 1;
    subs = h.subs ++ record { id = h.next; filter = f; queue = [] } ∷ [];
  },
  h.next,
)

-- h.subs[id]
unfoldable pub find : List Sub → ℕ → Option Sub
find [] id = none
find (s ∷ ss) id = if s.id == id then some s else find ss id

-- delete(h.subs, id)
unfoldable pub remove : List Sub → ℕ → List Sub
remove [] id = []
remove (s ∷ ss) id = let rest = remove ss id in if s.id == id then rest else s ∷ rest

close_found : ℕ → Hub → Option Sub → Hub
close_found id h none = h
close_found id h (some s) = record h { subs = remove h.subs id; closed = s ∷ h.closed }

unfoldable pub unsubscribe : ℕ → Hub → Hub
unfolding close_found find remove
unsubscribe id h = close_found id h (find h.subs id)

-- what the fan-out makes of the subscribers: those that stay, those that it drops, and the count
pub record FanOut : Type 0 where
  pub kept : List Sub
  pub dropped : List Sub
  pub delivered : ℕ

-- the `select`: a send if the buffer has room, a drop otherwise
send : Event → Sub → FanOut → FanOut
send ev s rest =
    if ltb (length s.queue) sub_buffer
    then record rest {
      kept = record s { queue = s.queue ++ ev ∷ [] } ∷ rest.kept;
      delivered = rest.delivered + 1;
    }
    else record rest { dropped = s ∷ rest.dropped }

unfoldable pub fanout_loop : Event → List Sub → FanOut
unfolding send
fanout_loop ev [] = record { kept = []; dropped = []; delivered = 0 }
fanout_loop ev (s ∷ ss) =
    let rest = fanout_loop ev ss in
    if not (matches s.filter ev) then record rest { kept = s ∷ rest.kept } else send ev s rest

unfoldable pub fanout : Event → Hub → Hub × ℕ
unfolding fanout_loop
fanout ev h =
    let r = fanout_loop ev h.subs in
    (record h { subs = r.kept; closed = r.dropped ++ h.closed }, r.delivered)

module _ {S : Type 0} where
  run_taps : List (Event → S → S) → Event → S → S
  run_taps [] ev s = s
  run_taps (tap ∷ taps) ev s = run_taps taps ev (tap ev s)

  -- publish, where the taps act on a state of their own
  unfoldable pub publish : List (Event → S → S) → Event → Hub × S → Hub × S × ℕ
  unfolding run_taps fanout
  publish taps ev (h, s) = let (h', n) = fanout ev h in (h', run_taps taps ev s, n)

count_matches : Event → List Sub → ℕ
count_matches ev [] = 0
count_matches ev (s ∷ ss) =
    let rest = count_matches ev ss in
    if not (matches s.filter ev)
    then rest
    else if eq_bytes ev.scope scope_space && not (contains s.filter.space_ids ev.space_id)
    then rest
    else rest + 1

unfoldable pub match_count : Event → Hub → ℕ
unfolding count_matches
match_count ev h = count_matches ev h.subs

-- a reader of the channel takes what was sent first
unfoldable pub receive_loop : ℕ → List Sub → List Sub
receive_loop id [] = []
receive_loop id (s ∷ ss) =
    (if s.id == id then record s { queue = elim s.queue [ [] ↦ [] | _ ∷ q ↦ q ] } else s)
    ∷ receive_loop id ss

unfoldable pub receive : ℕ → Hub → Hub
unfolding receive_loop
receive id h = record h { subs = receive_loop id h.subs }

-- What the handlers and the readers do, in any order.
pub data Step : Hub → Hub → Type 0 where
  subscribes : (h : Hub) (f : EventFilter) → Step h (subscribe f h).0
  unsubscribes : (h : Hub) (id : ℕ) → Step h (unsubscribe id h)
  publishes : (h : Hub) (ev : Event) → Step h (fanout ev h).0
  receives : (h : Hub) (id : ℕ) → Step h (receive id h)

pub data Reach : Hub → Type 0 where
  start : Reach new_hub
  next_step : {h k : Hub} → Reach h → Step h k → Reach k
