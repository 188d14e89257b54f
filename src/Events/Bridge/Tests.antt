-- ===== src/Events/Bridge/Tests.antt =====
-- Runs of the bridge and of the two handlers, and the theorems at concrete requests.
use any.Common.{
  Bool, true, false, List, [], ◌∷◌, ◌++◌, Bytes, codes, some, inl, inr, ◌≡◌, refl, All, Option,
}
use any.Strings.{contains, eq_bytes, cut, cut_suffix, has_prefix, replace_byte, split, bytes_lt}
use any.Events.{Event, EventFilter, matches, type_filter_matches}
use any.Events.Topics.{event_topic, filter_patterns, maximal_patterns, segments, pattern_subsumes}
use any.Events.Topics.Accepts.{InFamily}
use any.Events.Bridge.{
  Bridge, Lease, Scope, new_bridge, acquire_scope, release, retry, detach, acquired_scope, resync,
  keep_wanted, cancel, subscribe_wanted, keys, incr, incr_all, decr, decr_all, release_locked,
  release_scope,
}
use any.Events.Bridge.Leases.{
  Clients, Reach, start, next_step, acquires, releases, retries, detaches, IsBridge, Reach-IsBridge,
}
use any.Events.Requests.{
  PublishRequest, Interest, WireEvent, missing_field, acquire_keys, events_publish,
  events_subscribe, deliver, network_publish, validate_event_scope, all_scopes, all_filters,
  all_targets, is_event_type, is_event_filter, is_target, interest_of,
}
use any.Events.Requests.Admitted.{admitted-InFamily}
use any.Events.Requests.Once.{deliveries, subscribed_once}
use any.Events.Requests.Scopes.{interest_reaches}
use any.Events.Requests.Wire.{deliver-network_publish}

abbrev granted : Bytes → Bool
granted p = true

abbrev refused : Bytes → Bool
refused p = false

abbrev space_filter : EventFilter
space_filter = record {
  scopes = codes "space" ∷ [];
  space_ids = codes "sp" ∷ [];
  types = codes "editor.*" ∷ codes "chat.typing" ∷ [];
  targets = codes "doc" ∷ [];
}

abbrev space_interest : Interest
space_interest = record { want_account = false; space_ids = codes "sp" ∷ [] }

subscribes_to_space : events_subscribe space_filter ≡ inr space_interest
unfolding events_subscribe all_scopes all_filters all_targets contains is_event_filter cut_suffix
    is_event_type split is_target eq_bytes interest_of
subscribes_to_space = refl

-- a subscription to spaces that names none is refused
no_space : events_subscribe (record space_filter { space_ids = [] }) ≡ inl missing_field
unfolding events_subscribe all_scopes all_filters all_targets contains is_event_filter cut_suffix
    is_event_type split is_target eq_bytes
no_space = refl

abbrev cursor_request : PublishRequest
cursor_request = record {
  type = codes "editor.cursor";
  scope = codes "space";
  space_id = codes "sp";
  target = codes "doc";
  payload = codes "{}";
}

abbrev sent_cursor : Event
sent_cursor = record {
  type = codes "editor.cursor";
  scope = codes "space";
  space_id = codes "sp";
  target = codes "doc";
  sender = some (record { identity = codes "A1"; self = true });
  payload = codes "{}";
}

cursor_is_published : events_publish granted (codes "A1") cursor_request ≡ inr sent_cursor
unfolding events_publish validate_event_scope is_event_type split is_target eq_bytes
cursor_is_published = refl

cursor_selected : matches space_filter sent_cursor ≡ true
unfolding matches contains type_filter_matches cut_suffix has_prefix
cursor_selected = refl

space_patterns-InFamily : All (λ p. InFamily (segments p)) (filter_patterns space_filter)
space_patterns-InFamily = admitted-InFamily space_filter space_interest subscribes_to_space

interest_reaches_example : contains (acquire_keys space_interest) (codes "sp") ≡ true
unfolding eq_bytes
interest_reaches_example =
    interest_reaches space_filter space_interest granted (codes "A1") cursor_request sent_cursor
      subscribes_to_space cursor_is_published cursor_selected refl (λ e. refl)

abbrev lease : Lease
lease = record { key = codes "sp"; gen = 0; patterns = filter_patterns space_filter }

abbrev no_clients : Clients
no_clients = record { bridge = new_bridge; leases = [] }

abbrev one_bridge : Bridge
one_bridge =
    (acquire_scope granted granted 0 (codes "sp") (filter_patterns space_filter) new_bridge).1

one_client-Reach : Reach (record { bridge = one_bridge; leases = [] ++ lease ∷ [] })
unfolding acquire_scope acquired_scope resync keep_wanted cancel subscribe_wanted keys incr_all incr
    maximal_patterns filter_patterns contains type_filter_matches has_prefix replace_byte eq_bytes
    bytes_lt split pattern_subsumes cut_suffix
one_client-Reach =
    next_step start
      (acquires no_clients granted granted 0 (codes "sp") (filter_patterns space_filter) refl)

abbrev one_scope : Scope
one_scope = record {
  desired =
      (codes "ev/editor/>", 1)
      ∷ (codes "acc/ev/editor/>", 1)
      ∷ (codes "ev/chat/typing/doc", 1)
      ∷ [];
  active = codes "acc/ev/editor/>" ∷ codes "ev/chat/typing/doc" ∷ codes "ev/editor/>" ∷ [];
  retry_scheduled = false;
}

one_bridge_scope : one_bridge.scopes (codes "sp") ≡ some one_scope
unfolding acquire_scope acquired_scope resync keep_wanted cancel subscribe_wanted keys incr_all incr
    maximal_patterns filter_patterns contains type_filter_matches has_prefix replace_byte eq_bytes
    bytes_lt split pattern_subsumes cut_suffix
one_bridge_scope = refl

one_bridge_gen : lease.gen ≡ one_bridge.gen
unfolding acquire_scope acquired_scope resync keep_wanted cancel subscribe_wanted keys incr_all incr
    maximal_patterns filter_patterns contains type_filter_matches has_prefix replace_byte eq_bytes
    bytes_lt split pattern_subsumes cut_suffix
one_bridge_gen = refl

subscribed_once_example :
    deliveries
      (event_topic sent_cursor.type sent_cursor.target (codes "A1"))
      (one_bridge.live (codes "sp"))
    ≡ 1
subscribed_once_example =
    subscribed_once one_bridge [] [] lease one_scope space_filter space_interest granted
      (codes "A1") cursor_request sent_cursor one_client-Reach (space_patterns-InFamily, tt)
      one_bridge_gen refl subscribes_to_space one_bridge_scope refl cursor_is_published
      cursor_selected

-- A second engine's client, while a lease of the first is still there: its release does nothing, and the
-- second scope retries a subscription that failed when a broad pattern went away.
abbrev broad : List Bytes
broad = codes "ev/editor/>" ∷ []

abbrev narrow : List Bytes
narrow = codes "ev/editor/cursor/*" ∷ []

abbrev late_clients : Clients
late_clients = record { bridge = detach one_bridge; leases = [] ++ lease ∷ [] }

abbrev broad_bridge : Bridge
broad_bridge = (acquire_scope granted granted 1 (codes "sp") broad (detach one_bridge)).1

abbrev both_bridge : Bridge
both_bridge = (acquire_scope granted granted 1 (codes "sp") narrow broad_bridge).1

abbrev lease_of : List Bytes → Lease
lease_of patterns = record { key = codes "sp"; gen = 1; patterns = patterns }

abbrev narrow_bridge : Bridge
narrow_bridge = release refused (lease_of broad) both_bridge

abbrev last_bridge : Bridge
last_bridge = release granted lease (retry granted (codes "sp") narrow_bridge)

both-Reach : Reach (record {
  bridge = both_bridge;
  leases = (lease_of narrow ∷ []) ++ lease_of broad ∷ lease ∷ [];
})
unfolding acquire_scope acquired_scope resync keep_wanted cancel subscribe_wanted keys incr_all incr
    maximal_patterns filter_patterns contains type_filter_matches has_prefix replace_byte eq_bytes
    bytes_lt split pattern_subsumes cut_suffix detach
both-Reach =
    let late =
      next_step one_client-Reach (detaches (record { bridge = one_bridge; leases = lease ∷ [] })) in
    let first = next_step late (acquires late_clients granted granted 1 (codes "sp") broad refl) in
    next_step first (
      acquires (record { bridge = broad_bridge; leases = lease_of broad ∷ lease ∷ [] }) granted
        granted 1 (codes "sp") narrow refl)

-- the release that cannot subscribe to the narrow pattern schedules a retry
retry_pending :
    narrow_bridge.scopes (codes "sp")
    ≡ some (record {
      desired = (codes "ev/editor/cursor/*", 1) ∷ [];
      active = [];
      retry_scheduled = true;
    })
unfolding release release_locked release_scope decr_all decr acquire_scope acquired_scope resync
    keep_wanted cancel subscribe_wanted keys incr_all incr maximal_patterns filter_patterns contains
    type_filter_matches has_prefix replace_byte eq_bytes bytes_lt split pattern_subsumes cut_suffix
    detach
retry_pending = refl

Reach-IsBridge_example : IsBridge (record { bridge = last_bridge; leases = lease_of narrow ∷ [] })
Reach-IsBridge_example = Reach-IsBridge (
    next_step
      (next_step
        (next_step both-Reach
          (releases both_bridge (lease_of narrow ∷ []) (lease ∷ []) (lease_of broad) refused))
        (retries (record { bridge = narrow_bridge; leases = lease_of narrow ∷ lease ∷ [] }) granted
          (codes "sp")))
      (releases (retry granted (codes "sp") narrow_bridge) (lease_of narrow ∷ []) [] lease granted))

-- a stand-in for JSON: the fields behind one another, with a zero byte between two
abbrev joined : WireEvent → Bytes
joined w = w.type ++ 0 ∷ w.target ++ 0 ∷ w.payload

abbrev parted : Bytes → Option WireEvent
parted s =
    let (type, rest, found) = cut 0 s in
    let (target, payload, found') = cut 0 rest in
    some (record { type = type; target = target; payload = payload })

deliver-network_publish_example :
    deliver parted (codes "sp") (record {
      payload = (network_publish joined (codes "A1") sent_cursor).1;
      topic = (network_publish joined (codes "A1") sent_cursor).0;
      sender_identity = codes "A1";
      self = false;
      space_id = codes "sp";
    })
    ≡ some (record sent_cursor { sender = some (record { identity = codes "A1"; self = false }) })
unfolding cut eq_bytes
deliver-network_publish_example =
    deliver-network_publish joined parted granted (codes "A1") cursor_request sent_cursor false refl
      cursor_is_published refl
