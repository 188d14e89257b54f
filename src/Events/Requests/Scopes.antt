-- ===== src/Events/Requests/Scopes.antt =====
-- The scopes that a subscription takes interest in are those of the events that it selects.
use any.Common.{
  Bool, true, false, ◌||◌, [], ◌∷◌, none, Bytes, is_nil, ◌≡◌, refl, arith, Bool-cases, inl, inr,
  subst,
}
use any.Strings.{eq_bytes, contains, is_empty}
use any.Strings.Laws.{eq_bytes→eq}
use any.Events.{Event, EventFilter, matches}
use any.Events.Hub.{scope_space}
use any.Events.Requests.{
  PublishRequest, Interest, interest_of, acquire_keys, events_publish, events_subscribe,
  validate_event_scope, scope_account, scope_device,
}
use any.Events.Requests.Admitted.{subscribe_admits, publish_admits}

network_scope :
    (scope space_id : Bytes)
    → validate_event_scope scope space_id ≡ none
    → eq_bytes scope scope_device ≡ false
    → eq_bytes scope scope_space ≡ false
    → (scope ≡ scope_account) × (space_id ≡ [])
unfolding validate_event_scope
network_scope scope space_id h d n =
    (eq_bytes→eq scope scope_account (ground arith), empty_of space_id (ground arith))
  where
    empty_of : (s : Bytes) → is_empty s ≡ true → s ≡ []
    empty_of [] h = refl
    empty_of (c ∷ s) h = cc

selected_scope :
    (f : EventFilter) (ev : Event)
    → matches f ev ≡ true
    → (is_nil f.scopes || contains f.scopes ev.scope) ≡ true
unfolding matches
selected_scope f ev h = ground arith

selected_space :
    (f : EventFilter) (ev : Event)
    → matches f ev ≡ true
    → is_nil f.space_ids ≡ false
    → contains f.space_ids ev.space_id ≡ true
unfolding matches
selected_space f ev h n = ground arith

account_wanted :
    (f : EventFilter) (scope : Bytes)
    → (is_nil f.scopes || contains f.scopes scope) ≡ true
    → scope ≡ scope_account
    → is_nil f.space_ids ≡ true
    → (interest_of f).want_account ≡ true
unfolding interest_of
account_wanted f scope h same n =
    let h' : (is_nil f.scopes || contains f.scopes scope_account) ≡ true = rw same at h in
    ground arith

-- the two ways that a scope's key is acquired
keys_of :
    (f : EventFilter) (key : Bytes)
    → (is_nil f.space_ids ≡ true → (key ≡ []) × ((interest_of f).want_account ≡ true))
    → (is_nil f.space_ids ≡ false
        → (is_nil f.scopes || contains f.scopes scope_space) ≡ true
          × (contains f.space_ids key ≡ true))
    → contains (acquire_keys (interest_of f)) key ≡ true
unfolding acquire_keys contains
keys_of f key account spaces = elim (Bool-cases (is_nil f.space_ids)) [
  | inl e ↦ let (same, want) = account e in rw (same, want) (unfold eq_bytes in refl)
  | inr e ↦ let (named, member) = spaces e in unfold interest_of in ground (arith, e, named, member)
]

-- An event on the network that a subscription's filter selects, both admitted: the subscription acquires
-- the scope that the event is sent on, whose key is the event's space id, where for an event of a space
-- the filter names spaces at all.
pub interest_reaches :
    (f : EventFilter) (i : Interest) (valid_topic : Bytes → Bool) (account : Bytes)
    (req : PublishRequest) (ev : Event)
    → events_subscribe f ≡ inr i
    → events_publish valid_topic account req ≡ inr ev
    → matches f ev ≡ true
    → eq_bytes ev.scope scope_device ≡ false
    → (eq_bytes ev.scope scope_space ≡ true → is_nil f.space_ids ≡ false)
    → contains (acquire_keys i) ev.space_id ≡ true
interest_reaches f i valid_topic account req ev sub pub_ sel network named =
    let admitted = subscribe_admits f i sub in
    let published = publish_admits valid_topic account req ev pub_ in
    let of_account = (λ (e : is_nil f.space_ids ≡ true).
      network_scope ev.scope ev.space_id published.scoped network (ground arith)) in
    subst (λ (i' : Interest). contains (acquire_keys i') ev.space_id ≡ true) admitted.interest
      (keys_of f ev.space_id
        (λ e. (
          (of_account e).1,
          account_wanted f ev.scope (selected_scope f ev sel) (of_account e).0 e,
        ))
        (λ e. (admitted.placed e, selected_space f ev sel e)))
