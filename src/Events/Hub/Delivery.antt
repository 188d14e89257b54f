-- ===== src/Events/Hub/Delivery.antt =====
-- What a publish does to each subscriber.
use any.Common.{
  ◌∙◌, ap, sym, ℕ, ◌+◌, ◌≤◌, false, List, [], ◌∷◌, ◌++◌, Option, none, some, length, length-append,
  ◌==◌, ltb, leb, if◌then◌else◌, ◌≡◌, refl, arith, All, Bool-cases, inl, inr, append-nil,
  append_assoc,
}
use any.Strings.{eq_bytes}
use any.Events.{Event, EventFilter, matches}
use any.Events.Hub.{
  Sub, Hub, sub_buffer, scope_space, find, fanout, fanout_loop, match_count, count_matches,
}
use any.Events.Hub.Invariant.{IsHub, IsBounded, count_id, fanout-IsHub, find-IsBounded}

-- the subscriber after an event: unchanged if its filter does not match, else with the event behind
-- what it holds, or gone if its buffer is full
abbrev pub after : Event → Option Sub → Option Sub
after ev none = none
after ev (some s) =
    if matches s.filter ev
    then (if ltb (length s.queue) sub_buffer
        then some (record s { queue = s.queue ++ ev ∷ [] })
        else none)
    else some s

find-absent : (id : ℕ) (ss : List Sub) → count_id id ss ≡ 0 → find ss id ≡ none
unfolding find
find-absent id [] h = refl
find-absent id (s ∷ ss) h = ground (arith, find-absent id ss)

kept-absent :
    (id : ℕ) (ev : Event) (ss : List Sub)
    → count_id id ss ≡ 0
    → find (fanout_loop ev ss).kept id ≡ none
unfolding fanout_loop find
kept-absent id ev [] h = refl
kept-absent id ev (s ∷ ss) h = ground (arith, kept-absent id ev ss)

find-kept :
    (id : ℕ) (ev : Event) (ss : List Sub)
    → count_id id ss ≤ 1
    → find (fanout_loop ev ss).kept id ≡ after ev (find ss id)
unfolding fanout_loop find
find-kept id ev [] h = refl
find-kept id ev (s ∷ ss) h = elim (Bool-cases (s.id == id)) [
  | inl e ↦ ground (arith, kept-absent id ev ss)
  | inr e ↦ ground (arith, find-kept id ev ss)
]

-- Of every subscriber of a hub that operations made, a publish makes just this: it is unchanged if its
-- filter does not match the event, has the event behind what it holds if there is room, and is
-- removed if there is none.
pub find-fanout :
    (h : Hub) (ev : Event) (id : ℕ)
    → IsHub h
    → find (fanout ev h).0.subs id ≡ after ev (find h.subs id)
unfolding fanout
find-fanout h ev id inv = find-kept id ev h.subs (omega (arith, inv.once id))

-- the matching events of a sequence
abbrev pub selected : EventFilter → List Event → List Event
selected f [] = []
selected f (ev ∷ evs) = if matches f ev then ev ∷ selected f evs else selected f evs

-- a sequence of publishes, with no read between
unfoldable pub publish_all : List Event → Hub → Hub
publish_all [] h = h
publish_all (ev ∷ evs) h = publish_all evs (fanout ev h).0

-- the subscriber after the sequence
abbrev pub after_all : List Event → Option Sub → Option Sub
after_all evs none = none
after_all evs (some s) =
    if leb (length s.queue + length (selected s.filter evs)) sub_buffer
    then some (record s { queue = s.queue ++ selected s.filter evs })
    else none

after_all-cons :
    (ev : Event) (evs : List Event) (s : Sub)
    → length s.queue ≤ sub_buffer
    → after_all evs (after ev (some s)) ≡ after_all (ev ∷ evs) (some s)
after_all-cons ev evs s h =
    ground (
      arith,
      length-append s.queue (ev ∷ []),
      append_assoc s.queue (ev ∷ []) (selected s.filter evs),
    )

after_all-nil : (s : Sub) → length s.queue ≤ sub_buffer → after_all [] (some s) ≡ some s
after_all-nil s h = ground (arith, append-nil s.queue)

after_all-after :
    (n id : ℕ) (ev : Event) (evs : List Event) (ss : List Sub) (o : Option Sub)
    → All (IsBounded n) ss
    → find ss id ≡ o
    → after_all evs (after ev o) ≡ after_all (ev ∷ evs) o
after_all-after n id ev evs ss none b e = refl
after_all-after n id ev evs ss (some s) b e =
    after_all-cons ev evs s (find-IsBounded n id ss s b e).room

after_all-none :
    (n id : ℕ) (ss : List Sub) (o : Option Sub)
    → All (IsBounded n) ss
    → find ss id ≡ o
    → o ≡ after_all [] o
after_all-none n id ss none b e = refl
after_all-none n id ss (some s) b e = sym (after_all-nil s (find-IsBounded n id ss s b e).room)

-- After any publishes with no read between, a subscriber of a hub that operations made holds, behind
-- what it held, the events that its filter selects, each once and in the order of the publishes, if
-- all of them fit its buffer; otherwise it is gone.
pub find-publish_all :
    (evs : List Event) (h : Hub) (id : ℕ)
    → IsHub h
    → find (publish_all evs h).subs id ≡ after_all evs (find h.subs id)
unfolding publish_all
find-publish_all [] h id inv = after_all-none h.next id h.subs (find h.subs id) inv.live refl
find-publish_all (ev ∷ evs) h id inv =
    find-publish_all evs (fanout ev h).0 id (fanout-IsHub ev h inv)
    ∙ ap (after_all evs) (find-fanout h ev id inv)
    ∙ after_all-after h.next id ev evs h.subs (find h.subs id) inv.live refl

count_matches-fanout :
    (ev : Event) (ss : List Sub)
    → eq_bytes ev.scope scope_space ≡ false
    → count_matches ev ss ≡ (fanout_loop ev ss).delivered + length (fanout_loop ev ss).dropped
unfolding count_matches fanout_loop
count_matches-fanout ev [] h = refl
count_matches-fanout ev (s ∷ ss) h = ground (arith, count_matches-fanout ev ss h)

-- For an event that is not of a space's scope, the subscribers that matchCount counts are those that a
-- publish delivers to and those whose channels it closes.
pub match_count-fanout :
    (ev : Event) (h : Hub)
    → eq_bytes ev.scope scope_space ≡ false
    → match_count ev h + length h.closed ≡ (fanout ev h).1 + length (fanout ev h).0.closed
unfolding match_count fanout
match_count-fanout ev h e = omega (
  arith,
  count_matches-fanout ev h.subs e,
  length-append (fanout_loop ev h.subs).dropped h.closed,
)
