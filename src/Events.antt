-- ===== src/Events.antt =====
-- internal/server/events_*.go: the event bus. This file has the events and the filters of its
-- subscribers.
pub mod Topics
pub mod Hub
pub mod Bridge
pub mod Requests
mod Tests
use any.Common.{
  Bool, true, false, not, ◌&&◌, ◌||◌, List, [], ◌∷◌, ◌++◌, Option, none, some, Bytes, codes, is_nil,
  if◌then◌else◌,
}
use any.Strings.{eq_bytes, is_empty, has_prefix, contains, cut_suffix}

-- api.EventSender, of which the bus reads these
pub record Sender : Type 0 where
  pub identity : Bytes
  pub self : Bool

-- the struct api.Event
pub record Event : Type 0 where
  pub type : Bytes
  pub scope : Bytes
  pub space_id : Bytes
  pub target : Bytes
  pub sender : Option Sender
  pub payload : Bytes

-- the struct eventFilter
pub record EventFilter : Type 0 where
  pub scopes : List Bytes
  pub space_ids : List Bytes
  pub types : List Bytes
  pub targets : List Bytes

prefix_matches : Option Bytes → Bytes → Bytes → Bool
prefix_matches (some prefix) entry typ = eq_bytes typ prefix || has_prefix (prefix ++ b'.' ∷ []) typ
prefix_matches none entry typ = eq_bytes typ entry

unfoldable pub type_filter_matches : Bytes → Bytes → Bool
unfolding prefix_matches
type_filter_matches entry typ = prefix_matches (cut_suffix entry (codes ".*")) entry typ

any_type_matches : List Bytes → Bytes → Bool
any_type_matches [] typ = false
any_type_matches (t ∷ ts) typ = if type_filter_matches t typ then true else any_type_matches ts typ

-- eventFilter.matches
unfoldable pub matches : EventFilter → Event → Bool
unfolding any_type_matches
matches f ev =
    if not (is_nil f.scopes) && not (contains f.scopes ev.scope)
    then false
    else if not (is_nil f.space_ids) && not (contains f.space_ids ev.space_id)
    then false
    else if not (is_nil f.targets) && not (contains f.targets ev.target)
    then false
    else if not (is_nil f.types)
    then any_type_matches f.types ev.type
    else true
