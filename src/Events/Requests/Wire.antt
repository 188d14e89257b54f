-- ===== src/Events/Requests/Wire.antt =====
-- An event on its way over the network and back into the hub.
use any.Common.{
  Bool, false, not, ◌&&◌, [], ◌∷◌, Option, none, some, Bytes, if◌then◌else◌, ◌≡◌, refl, arith, sym,
  Bool-cases, inl, inr,
}
use any.Strings.{eq_bytes, is_empty, has_prefix}
use any.Strings.Laws.{eq_bytes→eq}
use any.Events.{Event}
use any.Events.Hub.{scope_space}
use any.Events.Topics.{event_topic, acc_topic_prefix, self_owned_type}
use any.Events.Requests.{
  PublishRequest, WireEvent, wire_of, network_publish, deliver, events_publish,
  validate_event_scope, scope_account, scope_device,
}
use any.Events.Requests.Admitted.{publish_admits}

-- the topic of a self-owned type is in its namespace
owned_topic :
    (typ target account : Bytes)
    → (eq_bytes typ self_owned_type
        && not (has_prefix acc_topic_prefix (event_topic typ target account)))
      ≡ false
unfolding event_topic has_prefix
owned_topic typ target account = elim (Bool-cases (eq_bytes typ self_owned_type)) [
  | inl e ↦ rw (e) refl
  | inr e ↦ rw e refl
]

-- the scope that deliver gives to an event from the scope's key
delivered_scope :
    (scope space_id : Bytes)
    → validate_event_scope scope space_id ≡ none
    → eq_bytes scope scope_device ≡ false
    → ((if is_empty space_id then scope_account else scope_space) ≡ scope)
      × ((if is_empty space_id then [] else space_id) ≡ space_id)
unfolding validate_event_scope
delivered_scope scope [] h d = (sym (eq_bytes→eq scope scope_account (ground arith)), refl)
delivered_scope scope (c ∷ s) h d = (sym (eq_bytes→eq scope scope_space (ground arith)), refl)

-- An event that was admitted for a scope on the network, sent with its topic and delivered from that
-- scope's key with the sender's identity, is the event that was sent, whether it comes back to its
-- sender or not, where JSON reads back what it wrote for the event.
pub deliver-network_publish :
    (marshal : WireEvent → Bytes) (unmarshal : Bytes → Option WireEvent)
    (valid_topic : Bytes → Bool) (account : Bytes) (req : PublishRequest) (ev : Event) (self : Bool)
    → unmarshal (marshal (wire_of ev)) ≡ some (wire_of ev)
    → events_publish valid_topic account req ≡ inr ev
    → eq_bytes ev.scope scope_device ≡ false
    → (let (topic, payload) = network_publish marshal account ev in
        deliver unmarshal ev.space_id (record {
          payload = payload;
          topic = topic;
          sender_identity = account;
          self = self;
          space_id = ev.space_id;
        })
        ≡ some (record ev { sender = some (record { identity = account; self = self }) }))
unfolding deliver network_publish
deliver-network_publish marshal unmarshal valid_topic account req ev self law pub_ network =
    let published = publish_admits valid_topic account req ev pub_ in
    let (same_scope, same_space) = delivered_scope ev.scope ev.space_id published.scoped network in
    rw (
      law,
      published.typed,
      published.targeted,
      owned_topic ev.type ev.target account,
      same_scope,
      same_space,
    )
