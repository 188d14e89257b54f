-- ===== src/Events/Hub/Invariant.antt =====
-- What holds of the hub after any operations, in any order.
use any.Common.{
  subst, ℕ, ◌+◌, ◌<◌, ◌≤◌, true, not, List, [], ◌∷◌, ◌++◌, some, length, length-append, ◌==◌, ltb,
  if◌then◌else◌, ◌≡◌, refl, arith, All, All-append, Bool-cases, if_cases, inl, inr, Option-cases,
}
use any.Events.{Event, EventFilter, matches}
use any.Events.Hub.{
  Sub, Hub, sub_buffer, subscribe, unsubscribe, close_found, find, remove, fanout, fanout_loop,
  FanOut, receive, receive_loop, Step, subscribes, unsubscribes, publishes, receives, Reach, start,
  next_step,
}

-- how often an id stands in a list
abbrev pub count_id : ℕ → List Sub → ℕ
count_id i [] = 0
count_id i (s ∷ ss) = (if s.id == i then 1 else 0) + count_id i ss

-- The channel holds no more than its buffer, and the id was given out.
pub record IsBounded (next : ℕ) (s : Sub) : Type 0 where
  pub room : length s.queue ≤ sub_buffer
  pub given : s.id < next

pub record IsHub (h : Hub) : Type 0 where
  pub live : All (IsBounded h.next) h.subs
  pub over : All (IsBounded h.next) h.closed
  -- an id stands once, live or closed: no channel is closed twice
  pub once : (i : ℕ) → count_id i h.subs + count_id i h.closed ≤ 1

count_id-append : (i : ℕ) (ss ts : List Sub) → count_id i (ss ++ ts) ≡ count_id i ss + count_id i ts
count_id-append i [] ts = omega arith
count_id-append i (s ∷ ss) ts = omega (arith, count_id-append i ss ts)

-- an id that was not given out stands nowhere
count_id-fresh : (n : ℕ) (ss : List Sub) → All (IsBounded n) ss → count_id n ss ≡ 0
count_id-fresh n [] b = refl
count_id-fresh n (s ∷ ss) (b, bs) = ground (arith, count_id-fresh n ss bs, b.given)

IsBounded-suc : (n : ℕ) (ss : List Sub) → All (IsBounded n) ss → All (IsBounded (n + 1)) ss
IsBounded-suc n [] b = tt
IsBounded-suc n (s ∷ ss) (b, bs) =
    (record { room = b.room; given = let g = b.given in omega arith }, IsBounded-suc n ss bs)

subscribe-once :
    (f : EventFilter) (h : Hub)
    → IsHub h
    → (i : ℕ) → count_id i (subscribe f h).0.subs + count_id i (subscribe f h).0.closed ≤ 1
unfolding subscribe
subscribe-once f h inv i = ground (
  arith,
  inv.once i,
  count_id-append i h.subs (record { id = h.next; filter = f; queue = [] } ∷ []),
  count_id-fresh h.next h.subs inv.live,
  count_id-fresh h.next h.closed inv.over,
)

subscribe-IsHub : (f : EventFilter) (h : Hub) → IsHub h → IsHub (subscribe f h).0
unfolding subscribe
subscribe-IsHub f h inv = record {
  live =
      All-append (IsBounded (h.next + 1)) h.subs _ (IsBounded-suc h.next h.subs inv.live)
        (record { room = omega arith; given = omega arith }, tt);
  over = IsBounded-suc h.next h.closed inv.over;
  once = λ i. subscribe-once f h inv i;
}

pub find-IsBounded :
    (n id : ℕ) (ss : List Sub) (s : Sub)
    → All (IsBounded n) ss
    → find ss id ≡ some s
    → IsBounded n s
unfolding find
find-IsBounded n id [] s b h = cc
find-IsBounded n id (t ∷ ss) s (b, bs) h = elim (Bool-cases (t.id == id)) [
  | inl e ↦ let q : t ≡ s = cc (rw e at h) in subst (IsBounded n) q b
  | inr e ↦ find-IsBounded n id ss s bs (rw e at h)
]

remove-IsBounded :
    (n id : ℕ) (ss : List Sub) → All (IsBounded n) ss → All (IsBounded n) (remove ss id)
unfolding remove
remove-IsBounded n id [] b = tt
remove-IsBounded n id (s ∷ ss) (b, bs) =
    if_cases (All (IsBounded n)) (s.id == id) _ _ (λ _. remove-IsBounded n id ss bs)
      (λ _. (b, remove-IsBounded n id ss bs))

find_id : (id : ℕ) (ss : List Sub) (s : Sub) → find ss id ≡ some s → s.id ≡ id
unfolding find
find_id id [] s h = cc
find_id id (t ∷ ss) s h = ground (arith, find_id id ss s)

count_id-remove :
    (i id : ℕ) (ss : List Sub) → count_id i (remove ss id) ≡ (if i == id then 0 else count_id i ss)
unfolding remove
count_id-remove i id [] = ground arith
count_id-remove i id (s ∷ ss) = ground (arith, count_id-remove i id ss)

count_id-found : (id : ℕ) (ss : List Sub) (s : Sub) → find ss id ≡ some s → 1 ≤ count_id id ss
unfolding find
count_id-found id [] s h = cc
count_id-found id (t ∷ ss) s h = ground (arith, count_id-found id ss s)

unsubscribe-IsHub : (id : ℕ) (h : Hub) → IsHub h → IsHub (unsubscribe id h)
unfolding unsubscribe
unsubscribe-IsHub id h inv = elim (Option-cases (find h.subs id)) [
  | inl e ↦ rw (e, close_found) inv
  | inr (s, e) ↦
      rw (e, close_found)
        (record {
          live = remove-IsBounded h.next id h.subs inv.live;
          over = (find-IsBounded h.next id h.subs s inv.live e, inv.over);
          once = λ i. ground (
            arith,
            inv.once i,
            count_id-remove i id h.subs,
            find_id id h.subs s e,
            count_id-found id h.subs s e,
          );
        })
]

sent-IsBounded :
    (n : ℕ) (ev : Event) (s : Sub)
    → IsBounded n s
    → ltb (length s.queue) sub_buffer ≡ true
    → IsBounded n (record s { queue = s.queue ++ ev ∷ [] })
sent-IsBounded n ev s b fits = record {
  room = ground (arith, length-append s.queue (ev ∷ []));
  given = b.given;
}

fanout_loop-IsBounded :
    (n : ℕ) (ev : Event) (ss : List Sub)
    → All (IsBounded n) ss
    → All (IsBounded n) (fanout_loop ev ss).kept × All (IsBounded n) (fanout_loop ev ss).dropped
unfolding fanout_loop
fanout_loop-IsBounded n ev [] b = (tt, tt)
fanout_loop-IsBounded n ev (s ∷ ss) (b, bs) =
    let rec = fanout_loop-IsBounded n ev ss bs in
    let P : FanOut → Type 0 = λ r. All (IsBounded n) r.kept × All (IsBounded n) r.dropped in
    if_cases P (not (matches s.filter ev)) _ _ (λ _. ((b, rec.0), rec.1))
      (λ _.
        if_cases P (ltb (length s.queue) sub_buffer) _ _
          (λ fits. ((sent-IsBounded n ev s b fits, rec.0), rec.1)) (λ _. (rec.0, (b, rec.1))))

count_id-fanout :
    (i : ℕ) (ev : Event) (ss : List Sub)
    → count_id i (fanout_loop ev ss).kept + count_id i (fanout_loop ev ss).dropped ≡ count_id i ss
unfolding fanout_loop
count_id-fanout i ev [] = refl
count_id-fanout i ev (s ∷ ss) = ground (arith, count_id-fanout i ev ss)

pub fanout-IsHub : (ev : Event) (h : Hub) → IsHub h → IsHub (fanout ev h).0
unfolding fanout
fanout-IsHub ev h inv = record {
  live = (fanout_loop-IsBounded h.next ev h.subs inv.live).0;
  over =
      All-append (IsBounded h.next) (fanout_loop ev h.subs).dropped h.closed
        (fanout_loop-IsBounded h.next ev h.subs inv.live).1 inv.over;
  once = λ i. omega (
    arith,
    inv.once i,
    count_id-append i (fanout_loop ev h.subs).dropped h.closed,
    count_id-fanout i ev h.subs,
  );
}

taken-room :
    (q : List Event) → length q ≤ sub_buffer → length (elim q [ [] ↦ [] | _ ∷ r ↦ r ]) ≤ sub_buffer
taken-room [] h = h
taken-room (e ∷ q) h = omega arith

receive_loop-IsBounded :
    (n id : ℕ) (ss : List Sub) → All (IsBounded n) ss → All (IsBounded n) (receive_loop id ss)
unfolding receive_loop
receive_loop-IsBounded n id [] b = tt
receive_loop-IsBounded n id (s ∷ ss) (b, bs) = (
  if_cases (IsBounded n) (s.id == id) _ _
      (λ _. record { room = taken-room s.queue b.room; given = b.given }) (λ _. b),
  receive_loop-IsBounded n id ss bs,
)

count_id-receive : (i id : ℕ) (ss : List Sub) → count_id i (receive_loop id ss) ≡ count_id i ss
unfolding receive_loop
count_id-receive i id [] = refl
count_id-receive i id (s ∷ ss) = ground (arith, count_id-receive i id ss)

receive-IsHub : (id : ℕ) (h : Hub) → IsHub h → IsHub (receive id h)
unfolding receive
receive-IsHub id h inv = record {
  live = receive_loop-IsBounded h.next id h.subs inv.live;
  over = inv.over;
  once = λ i. omega (arith, inv.once i, count_id-receive i id h.subs);
}

Step-IsHub : {h k : Hub} → Step h k → IsHub h → IsHub k
Step-IsHub (subscribes h f) inv = subscribe-IsHub f h inv
Step-IsHub (unsubscribes h id) inv = unsubscribe-IsHub id h inv
Step-IsHub (publishes h ev) inv = fanout-IsHub ev h inv
Step-IsHub (receives h id) inv = receive-IsHub id h inv

-- After any subscriptions, publishes, reads and unsubscriptions in any order: no channel holds more
-- than 16 events, every id was given out by the hub, and no id stands twice among the live and the
-- closed channels, so that no channel is closed twice.
pub Reach-IsHub : {h : Hub} → Reach h → IsHub h
Reach-IsHub start = record { live = tt; over = tt; once = λ i. omega arith }
Reach-IsHub (next_step r st) = Step-IsHub st (Reach-IsHub r)
