-- ===== src/Events/Requests/Admitted.antt =====
-- What the checks of the two handlers leave to their callees.
use any.Common.{
  Bytes, ltb, length, Bool, true, false, not, ◌&&◌, ◌||◌, [], ◌∷◌, Option, none, some, ◌≡◌, refl,
  arith, inr, All, Lacks, subst, is_nil,
}
use any.Strings.{contains, is_empty}
use any.Events.{Event, EventFilter}
use any.Events.Hub.{scope_space}
use any.Events.Topics.{filter_patterns, segments, slash}
use any.Events.Topics.Accepts.{InFamily}
use any.Events.Topics.Family.{IsPlain, prefix_of, filter_patterns-InFamily}
use any.Events.Requests.{
  Refusal, PublishRequest, Interest, events_publish, publish_scoped_request, events_subscribe,
  all_scopes, interest_of, max_length, is_event_type, validate_event_scope, is_target,
}
use any.Events.Requests.Grammar.{
  all_filters-IsPlain, all_targets-Lacks, all_targets-filled, is_target-Lacks,
}

-- What is known of a filter that is admitted.
pub record IsAdmitted (f : EventFilter) (i : Interest) : Type 0 where
  pub scopes : all_scopes f.scopes ≡ true
  pub types : All (λ t. IsPlain (prefix_of t)) f.types
  pub targets : All (λ t. Lacks slash t) f.targets
  pub filled : All (λ t. is_empty t ≡ false) f.targets
  pub named : contains f.scopes scope_space ≡ true → is_nil f.space_ids ≡ false
  pub placed :
      is_nil f.space_ids ≡ false → (is_nil f.scopes || contains f.scopes scope_space) ≡ true
  pub interest : interest_of f ≡ i

pub subscribe_admits :
    (f : EventFilter) (i : Interest) → events_subscribe f ≡ inr i → IsAdmitted f i
unfolding events_subscribe
subscribe_admits f i h = record {
  scopes = ground (arith, h);
  types = all_filters-IsPlain f.types (ground (arith, h));
  targets = all_targets-Lacks f.targets (ground (arith, h));
  filled = all_targets-filled f.targets (ground (arith, h));
  named = λ n. ground (arith, h);
  placed = λ n. ground (arith, h);
  interest = ground (arith, h);
}

-- The patterns of an admitted filter end in their only wildcard.
pub admitted-InFamily :
    (f : EventFilter) (i : Interest)
    → events_subscribe f ≡ inr i
    → All (λ p. InFamily (segments p)) (filter_patterns f)
admitted-InFamily f i h =
    let admitted = subscribe_admits f i h in
    filter_patterns-InFamily f admitted.types admitted.targets

-- What is known of an event that is admitted.
pub record IsPublished (account : Bytes) (ev : Event) : Type 0 where
  pub typed :
      (is_empty ev.type || ltb max_length (length ev.type) || not (is_event_type ev.type)) ≡ false
  pub targeted : (not (is_empty ev.target) && not (is_target ev.target)) ≡ false
  pub scoped : validate_event_scope ev.scope ev.space_id ≡ none
  pub sent : ev.sender ≡ some (record { identity = account; self = true })

abbrev event_of : Bytes → PublishRequest → Event
event_of account req = record {
  type = req.type;
  scope = req.scope;
  space_id = req.space_id;
  target = req.target;
  sender = some (record { identity = account; self = true });
  payload = req.payload;
}

-- behind the check of the scope
scoped_request_admits :
    (valid_topic : Bytes → Bool) (account : Bytes) (req : PublishRequest) (ev : Event)
    (o : Option Refusal)
    → publish_scoped_request valid_topic account req o ≡ inr ev
    → (o ≡ none)
      × ((not (is_empty req.target) && not (is_target req.target)) ≡ false)
      × (event_of account req ≡ ev)
unfolding publish_scoped_request
scoped_request_admits valid_topic account req ev (some refusal) h = cc
scoped_request_admits valid_topic account req ev none h =
    (refl, ground (arith, h), ground (arith, h))

pub publish_admits :
    (valid_topic : Bytes → Bool) (account : Bytes) (req : PublishRequest) (ev : Event)
    → events_publish valid_topic account req ≡ inr ev
    → IsPublished account ev
unfolding events_publish
publish_admits valid_topic account req ev h =
    let behind : publish_scoped_request valid_topic account req
          (validate_event_scope req.scope req.space_id)
        ≡ inr ev =
      ground (arith, h) in
    let (scoped, targeted, is_ev) =
      scoped_request_admits valid_topic account req ev (validate_event_scope req.scope req.space_id)
        behind in
    subst (IsPublished account) is_ev
      (record { typed = ground (arith, h); targeted = targeted; scoped = scoped; sent = refl })

-- The target of such an event stays one segment of its topic.
pub publish_admits_target :
    (valid_topic : Bytes → Bool) (account : Bytes) (req : PublishRequest) (ev : Event)
    → events_publish valid_topic account req ≡ inr ev
    → Lacks slash ev.target
publish_admits_target valid_topic account req ev h =
    target_of ev.target (publish_admits valid_topic account req ev h).targeted
  where
    target_of : (t : Bytes) → (not (is_empty t) && not (is_target t)) ≡ false → Lacks slash t
    target_of [] h = tt
    target_of (c ∷ t) h = is_target-Lacks (c ∷ t) (ground arith)
