-- ===== src/Processes/Rows.antt =====
-- The registry as a map from keys to rows, and what an event does to it.
use any.Common.{
  ℕ, ◌≤◌, Bool, true, false, ◌&&◌, [], ◌∷◌, Option, none, some, Bytes, if◌then◌else◌, ◌≡◌, inl, inr,
  refl, sym, ap, ◌∙◌, arith, Bool-cases, if_cases,
}
use any.Strings.{eq_bytes}
use any.Strings.Laws.{eq_bytes→eq, eq_bytes_refl}
use any.Events.{Event, Sender}
use any.Processes.{
  Entry, Registry, EventData, State, is_key, find, put, sweep, expired, live, fold_event,
  row_before, sanitize_data, apply_state, event_started,
}

-- No key stands twice.
abbrev pub Unique : Registry → Type 0
Unique [] = Unit
Unique (e ∷ es) = (find es e.identity e.id ≡ none) × Unique es

and_left : (a b : Bool) → (a && b) ≡ true → (a ≡ true) × (b ≡ true)
and_left a b h = ground arith

pub key_identity : (i j : Bytes) (e : Entry) → is_key i j e ≡ true → (e.identity ≡ i) × (e.id ≡ j)
unfolding is_key
key_identity i j e h =
    let both = and_left (eq_bytes e.identity i) (eq_bytes e.id j) h in
    (eq_bytes→eq e.identity i both.0, eq_bytes→eq e.id j both.1)

is_key_self : (e : Entry) → is_key e.identity e.id e ≡ true
unfolding is_key
is_key_self e = rw (eq_bytes_refl e.identity, eq_bytes_refl e.id)

-- an entry that has the key of another
key_agrees :
    (i j : Bytes) (e x : Entry) → is_key e.identity e.id x ≡ true → is_key i j x ≡ is_key i j e
unfolding is_key
key_agrees i j e x h = let both = key_identity e.identity e.id x h in rw (both.0, both.1)

-- the key of an entry, read as the key itself
key_as : (i j : Bytes) (e x : Entry) → is_key i j e ≡ true → is_key e.identity e.id x ≡ is_key i j x
unfolding is_key
key_as i j e x h = let both = key_identity i j e h in rw (both.0, both.1)

find-put :
    (r : Registry) (e : Entry) (i j : Bytes)
    → find (put r e) i j ≡ (if is_key i j e then some e else find r i j)
unfolding find put
find-put [] e i j = refl
find-put (x ∷ r) e i j = elim (Bool-cases (is_key e.identity e.id x)) [
  | inl k ↦ ground (arith, key_agrees i j e x k)
  | inr k ↦ elim (Bool-cases (is_key i j e)) [
    | inl h ↦ ground (arith, key_as i j e x h, find-put r e i j)
    | inr h ↦ ground (arith, find-put r e i j)
  ]
]

find-key :
    (r : Registry) (i j : Bytes) (e : Entry)
    → is_key i j e ≡ true
    → find r e.identity e.id ≡ find r i j
find-key r i j e h = let both = key_identity i j e h in rw (both.0, both.1)

find-sweep-none :
    (now : ℕ) (r : Registry) (i j : Bytes) → find r i j ≡ none → find (sweep now r) i j ≡ none
unfolding find sweep
find-sweep-none now [] i j h = refl
find-sweep-none now (e ∷ r) i j h = ground (arith, find-sweep-none now r i j)

pub find-sweep :
    (now : ℕ) (r : Registry) (i j : Bytes)
    → Unique r
    → find (sweep now r) i j ≡ live now (find r i j)
unfolding find sweep
find-sweep now [] i j u = refl
find-sweep now (e ∷ r) i j (ne, u) = elim (Bool-cases (is_key i j e)) [
  | inl k ↦ ground (arith, find-sweep-none now r i j, find-key r i j e k)
  | inr k ↦ ground (arith, find-sweep now r i j u)
]

other_key : (e x : Entry) → is_key e.identity e.id x ≡ false → is_key x.identity x.id e ≡ false
other_key e x h = elim (Bool-cases (is_key x.identity x.id e)) [
  | inl k ↦ cc (h, key_as x.identity x.id e x k, is_key_self x)
  | inr k ↦ k
]

pub put-Unique : (r : Registry) (e : Entry) → Unique r → Unique (put r e)
unfolding put
put-Unique [] e u = (unfold find in refl, tt)
put-Unique (x ∷ r) e (n, u) = elim (Bool-cases (is_key e.identity e.id x)) [
  | inl k ↦ rw k (sym (find-key r e.identity e.id x k) ∙ n, u)
  | inr k ↦ rw k (find-put r e x.identity x.id ∙ rw (other_key e x k) n, put-Unique r e u)
]

pub sweep-Unique : (now : ℕ) (r : Registry) → Unique r → Unique (sweep now r)
unfolding sweep
sweep-Unique now [] u = tt
sweep-Unique now (e ∷ r) (n, u) =
    if_cases Unique (expired now e) _ _ (λ _. sweep-Unique now r u)
      (λ _. (find-sweep-none now r e.identity e.id n, sweep-Unique now r u))

pub apply_state-Unique :
    (now : ℕ) (state : State) (sender : Sender) (ev : Event) (d : EventData) (r : Registry)
    → Unique r
    → Unique (apply_state now state sender ev d r)
unfolding apply_state
apply_state-Unique now state sender ev d r u = sweep-Unique now _ (put-Unique r _ u)

-- the entry that apply writes
abbrev pub entry_of : ℕ → State → Sender → Event → EventData → Registry → Entry
entry_of now state sender ev d r = record {
  identity = sender.identity;
  id = ev.target;
  proc = fold_event now state ev (sanitize_data d) (
      row_before (eq_bytes ev.type event_started) now sender ev (find r sender.identity ev.target));
  seen = now;
}

-- what has expired stays so
pub live-live : (now t : ℕ) (o : Option Entry) → now ≤ t → live t (live now o) ≡ live t o
unfolding expired
live-live now t none h = refl
live-live now t (some e) h = ground arith

fresh_live : (now : ℕ) (e : Entry) → e.seen ≡ now → live now (some e) ≡ some e
unfolding expired
fresh_live now e h = ground arith

pub find-apply_state :
    (now : ℕ) (state : State) (sender : Sender) (ev : Event) (d : EventData) (r : Registry)
    (i j : Bytes)
    → Unique r
    → find (apply_state now state sender ev d r) i j
      ≡ live now (
          if is_key i j (entry_of now state sender ev d r)
          then some (entry_of now state sender ev d r)
          else find r i j)
unfolding apply_state
find-apply_state now state sender ev d r i j u =
    let e = entry_of now state sender ev d r in
    find-sweep now (put r e) i j (put-Unique r e u) ∙ ap (live now) (find-put r e i j)
