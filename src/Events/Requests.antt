-- ===== src/Events/Requests.antt =====
-- internal/server/handlers_events.go, and deliver of internal/server/events_bridge.go: which events and
-- subscriptions the bus admits, on which scopes a subscription takes interest, and the way of an event
-- over the network. The request is decoded before; JSON of the wire event and the check of a rendered
-- topic by the package pubsub are arguments. The proofs are in the modules below.
pub mod Grammar
pub mod Admitted
pub mod Scopes
pub mod Wire
pub mod Once
use any.Common.{
  ℕ, Bool, true, false, not, ◌&&◌, ◌||◌, List, [], ◌∷◌, Option, none, some, Bytes, codes, length,
  leb, ltb, ◌==◌, is_nil, if◌then◌else◌, ◌⊎◌, inl, inr,
}
use any.Strings.{eq_bytes, is_empty, contains, split, cut_suffix, has_prefix}
use any.Events.{Sender, Event, EventFilter}
use any.Events.Hub.{Hub, publish, scope_space}
use any.Events.Topics.{event_topic, acc_topic_prefix, self_owned_type}

-- the codes of a 400
pub data Refusal : Type 0 where
  missing_field invalid_field payload_too_large : Refusal

-- api.EventScopeDevice and api.EventScopeAccount
abbrev pub scope_device : Bytes
scope_device = codes "device"

abbrev pub scope_account : Bytes
scope_account = codes "account"

-- eventDataLimit, eventTypeMaxLen, and the bound in eventTargetRe
abbrev pub data_limit : ℕ
data_limit = 65536

abbrev pub max_length : ℕ
max_length = 128

abbrev pub in_range : ℕ → ℕ → ℕ → Bool
in_range low high c = leb low c && leb c high

-- [a-z0-9_]
abbrev pub slug_char : ℕ → Bool
slug_char c = in_range b'a' b'z' c || in_range b'0' b'9' c || c == b'_'

-- [A-Za-z0-9._-]
abbrev pub target_char : ℕ → Bool
target_char c =
    in_range b'A' b'Z' c
    || in_range b'a' b'z' c
    || in_range b'0' b'9' c
    || c == b'.'
    || c == b'_'
    || c == b'-'

unfoldable pub all_chars : (ℕ → Bool) → Bytes → Bool
all_chars allowed [] = true
all_chars allowed (c ∷ s) = allowed c && all_chars allowed s

-- [a-z0-9_]+
abbrev pub is_slug : Bytes → Bool
is_slug s = not (is_empty s) && all_chars slug_char s

unfoldable pub are_slugs : List Bytes → Bool
unfolding all_chars
are_slugs [] = true
are_slugs (s ∷ ss) = is_slug s && are_slugs ss

-- eventTypeRe
unfoldable pub is_event_type : Bytes → Bool
unfolding are_slugs
is_event_type t = let (first, others) = split b'.' t in are_slugs (first ∷ others)

-- eventFilterRe
unfoldable pub is_event_filter : Bytes → Bool
unfolding is_event_type
is_event_filter t = elim (cut_suffix t (codes ".*")) [
  | none ↦ is_event_type t
  | some prefix ↦ is_event_type prefix
]

-- eventTargetRe
unfoldable pub is_target : Bytes → Bool
unfolding all_chars
is_target t = not (is_empty t) && leb (length t) max_length && all_chars target_char t

abbrev pub is_scope : Bytes → Bool
is_scope scope =
    eq_bytes scope scope_device || eq_bytes scope scope_account || eq_bytes scope scope_space

-- validateEventScope; `none` is a valid pair
unfoldable pub validate_event_scope : Bytes → Bytes → Option Refusal
validate_event_scope scope space_id =
    if not (is_scope scope)
    then (if is_empty scope then some missing_field else some invalid_field)
    else if eq_bytes scope scope_space && is_empty space_id
    then some missing_field
    else if not (eq_bytes scope scope_space) && not (is_empty space_id)
    then some invalid_field
    else none

-- the struct api.EventPublishRequest
pub record PublishRequest : Type 0 where
  pub type : Bytes
  pub scope : Bytes
  pub space_id : Bytes
  pub target : Bytes
  pub payload : Bytes

-- eventsPublish from the scope's check on, where `checked` is its result
publish_scoped_request : (Bytes → Bool) → Bytes → PublishRequest → Option Refusal → Refusal ⊎ Event
publish_scoped_request valid_topic account req (some refusal) = inl refusal
publish_scoped_request valid_topic account req none =
    if not (is_empty req.target) && not (is_target req.target)
    then inl invalid_field
    else if ltb data_limit (length req.payload)
    then inl payload_too_large
    else if not (valid_topic (event_topic req.type req.target account))
    then inl invalid_field
    else inr (record {
      type = req.type;
      scope = req.scope;
      space_id = req.space_id;
      target = req.target;
      sender = some (record { identity = account; self = true });
      payload = req.payload;
    })

-- eventsPublish up to publishScoped: what is refused, or the event that is routed
unfoldable pub events_publish : (Bytes → Bool) → Bytes → PublishRequest → Refusal ⊎ Event
unfolding publish_scoped_request
events_publish valid_topic account req =
    if is_empty req.type
    then inl missing_field
    else if ltb max_length (length req.type) || not (is_event_type req.type)
    then inl invalid_field
    else publish_scoped_request valid_topic account req
        (validate_event_scope req.scope req.space_id)

-- The scopes that a subscription takes interest in on the network.
pub record Interest : Type 0 where
  pub want_account : Bool
  pub space_ids : List Bytes

unfoldable pub all_scopes : List Bytes → Bool
all_scopes [] = true
all_scopes (s ∷ ss) = is_scope s && all_scopes ss

unfoldable pub all_filters : List Bytes → Bool
all_filters [] = true
all_filters (t ∷ ts) = not (ltb max_length (length t) || not (is_event_filter t)) && all_filters ts

unfoldable pub all_targets : List Bytes → Bool
all_targets [] = true
all_targets (t ∷ ts) = is_target t && all_targets ts

-- wantAccount and netSpaceIds
unfoldable pub interest_of : EventFilter → Interest
interest_of f =
    let catch_all = is_nil f.scopes in
    record {
      want_account = (catch_all || contains f.scopes scope_account) && is_nil f.space_ids;
      space_ids = if catch_all || contains f.scopes scope_space then f.space_ids else [];
    }

-- the keys of the scopes that `acquire` registers the patterns on
unfoldable pub acquire_keys : Interest → List Bytes
acquire_keys i = if i.want_account then [] ∷ i.space_ids else i.space_ids

-- eventsSubscribe up to the acquisition
unfoldable pub events_subscribe : EventFilter → Refusal ⊎ Interest
unfolding interest_of
events_subscribe f =
    let has_space_scope = contains f.scopes scope_space in
    if not (all_scopes f.scopes)
    then inl invalid_field
    else if not (all_filters f.types)
    then inl invalid_field
    else if not (all_targets f.targets)
    then inl invalid_field
    else if has_space_scope && is_nil f.space_ids
    then inl missing_field
    else if not (is_nil f.space_ids) && not (is_nil f.scopes) && not has_space_scope
    then inl invalid_field
    else inr (interest_of f)

-- the struct wireEvent
pub record WireEvent : Type 0 where
  pub type : Bytes
  pub target : Bytes
  pub payload : Bytes

-- space.PubSubMessage, of which the bridge reads these
pub record Message : Type 0 where
  pub payload : Bytes
  pub topic : Bytes
  pub sender_identity : Bytes
  pub self : Bool
  pub space_id : Bytes

abbrev pub wire_of : Event → WireEvent
wire_of ev = record { type = ev.type; target = ev.target; payload = ev.payload }

-- networkPublish: the topic and the payload that are sent
unfoldable pub network_publish : (WireEvent → Bytes) → Bytes → Event → Bytes × Bytes
network_publish marshal account ev = (event_topic ev.type ev.target account, marshal (wire_of ev))

deliver_wire : Bytes → Message → Option WireEvent → Option Event
deliver_wire key msg none = none
deliver_wire key msg (some w) =
    if is_empty w.type || ltb max_length (length w.type) || not (is_event_type w.type)
    then none
    else if not (is_empty w.target) && not (is_target w.target)
    then none
    else if eq_bytes w.type self_owned_type && not (has_prefix acc_topic_prefix msg.topic)
    then none
    else some (record {
      type = w.type;
      scope = if is_empty key then scope_account else scope_space;
      space_id = if is_empty key then [] else msg.space_id;
      target = w.target;
      sender = some (record { identity = msg.sender_identity; self = msg.self });
      payload = w.payload;
    })

-- deliver: the event that the hub publishes, if any
unfoldable pub deliver : (Bytes → Option WireEvent) → Bytes → Message → Option Event
unfolding deliver_wire
deliver unmarshal key msg = deliver_wire key msg (unmarshal msg.payload)

-- deliver with its call of the hub, whose taps act on a state of their own
module _ {S : Type 0} where
  unfoldable pub deliver_to :
      List (Event → S → S) → (Bytes → Option WireEvent) → Bytes → Message → Hub × S → Hub × S
  deliver_to taps unmarshal key msg (hub, s) = elim (deliver unmarshal key msg) [
    | none ↦ (hub, s)
    | some ev ↦ let (hub', s', n) = publish taps ev (hub, s) in (hub', s')
  ]
