-- ===== src/Processes/Expiry.antt =====
-- Rows live until they were not heard of for their budget.
use any.Common.{
  ℕ, ◌≤◌, ◌-◌, Bool, true, false, Option, none, some, Bytes, ltb, if◌then◌else◌, ◌≡◌, refl, ap, ◌∙◌,
  arith,
}
use any.Strings.{is_empty}
use any.Events.{Event, Sender}
use any.Processes.{
  Entry, Registry, EventData, State, is_key, find, expired, live, row_of, get, ttl_of, state_of,
  apply_state, apply, apply_checked, fold_event,
}
use any.Processes.Rows.{Unique, entry_of, live-live, find-apply_state}

seen_live :
    (now t : ℕ) (state : State) (sender : Sender) (ev : Event) (d : EventData) (r : Registry)
    → row_of (live t (some (entry_of now state sender ev d r))) ≡ (
        if ltb (ttl_of state) (t - now) then none else some (entry_of now state sender ev d r).proc)
unfolding expired fold_event
seen_live now t state sender ev d r = ground arith

module _ (decode : Bytes → EventData) where
  apply_taken :
      (now : ℕ) (state : State) (sender : Sender) (ev : Event) (r : Registry)
      → state_of ev.type ≡ some state
      → ev.sender ≡ some sender
      → is_empty ev.target ≡ false
      → apply decode now ev r ≡ apply_state now state sender ev (decode ev.payload) r
  unfolding apply apply_checked
  apply_taken now state sender ev r a b c = rw (a, b, c)

  -- After a process event with a sender and a target, the row of that sender and target is the one that
  -- the event was folded into, until the budget of its state has passed with no further event: 45
  -- seconds for a running row, 60 for a finished one. At that time or later every other key reads as
  -- if the event had not come.
  pub get-apply :
      (now t : ℕ) (state : State) (sender : Sender) (ev : Event) (r : Registry) (i j : Bytes)
      → Unique r
      → now ≤ t
      → state_of ev.type ≡ some state
      → ev.sender ≡ some sender
      → is_empty ev.target ≡ false
      → get t i j (apply decode now ev r) ≡ (
          if is_key i j (entry_of now state sender ev (decode ev.payload) r)
          then (if ltb (ttl_of state) (t - now)
              then none
              else some (entry_of now state sender ev (decode ev.payload) r).proc)
          else get t i j r)
  unfolding get
  get-apply now t state sender ev r i j u h a b c =
      let e = entry_of now state sender ev (decode ev.payload) r in
      ap (λ (x : Registry). row_of (live t (find x i j))) (apply_taken now state sender ev r a b c)
      ∙ ap (λ (o : Option Entry). row_of (live t o))
          (find-apply_state now state sender ev (decode ev.payload) r i j u)
      ∙ ap row_of (live-live now t (if is_key i j e then some e else find r i j) h)
      ∙ split (is_key i j e)
    where
      split :
          (b : Bool)
          → row_of (
              live t (
                if b
                then some (entry_of now state sender ev (decode ev.payload) r)
                else find r i j))
            ≡ (if b
                then (if ltb (ttl_of state) (t - now)
                    then none
                    else some (entry_of now state sender ev (decode ev.payload) r).proc)
                else row_of (live t (find r i j)))
      split true = seen_live now t state sender ev (decode ev.payload) r
      split false = refl
