-- ===== src/Events/Tests.antt =====
-- Runs of the bus, and the theorems at concrete filters, events and hubs.
use any.Common.{
  ap, true, false, List, [], ◌∷◌, Bytes, codes, some, ◌≡◌, ◌≢◌, refl, arith, All, length, ◌+◌,
}
use any.Strings.{contains, eq_bytes, cut_suffix, has_prefix, replace_byte, split}
use any.Events.{Event, EventFilter, type_filter_matches, matches}
use any.Events.Topics.{event_topic, filter_patterns, maximal_patterns, segments, pattern_subsumes}
use any.Events.Topics.Accepts.{accepts, InFamily}
use any.Events.Topics.Added.{CoveredBy}
use any.Events.Topics.Cover.{filter_patterns-CoveredBy}
use any.Events.Topics.Disjoint.{maximal_patterns_disjoint}
use any.Events.Topics.Maximal.{MaximalFor, maximal_patterns_cover}
use any.Events.Hub.{
  Hub, new_hub, subscribe, fanout, find, match_count, Reach, start, next_step, subscribes,
  publishes, unsubscribes, receives, receive, unsubscribe,
}
use any.Events.Hub.Invariant.{IsHub, Reach-IsHub}
use any.Events.Hub.Delivery.{after_all, publish_all, find-publish_all, match_count-fanout}

abbrev cursor : Event
cursor = record {
  type = codes "editor.cursor";
  scope = codes "space";
  space_id = codes "sp";
  target = codes "doc";
  sender = some (record { identity = codes "A1"; self = false });
  payload = [];
}

abbrev editor_filter : EventFilter
editor_filter = record {
  scopes = codes "space" ∷ [];
  space_ids = [];
  types = codes "editor.*" ∷ codes "chat.typing" ∷ [];
  targets = codes "doc" ∷ [];
}

editor_patterns :
    filter_patterns editor_filter
    ≡ codes "ev/editor/>" ∷ codes "acc/ev/editor/>" ∷ codes "ev/chat/typing/doc" ∷ []
unfolding filter_patterns cut_suffix contains type_filter_matches has_prefix replace_byte
editor_patterns = refl

cursor_topic :
    event_topic cursor.type cursor.target (codes "A1") ≡ codes "acc/ev/editor/cursor/doc/A1"
unfolding event_topic eq_bytes replace_byte
cursor_topic = refl

editor_matches : matches editor_filter cursor ≡ true
unfolding matches contains type_filter_matches cut_suffix has_prefix
editor_matches = refl

filter_patterns-CoveredBy_example :
    CoveredBy (filter_patterns editor_filter) (event_topic cursor.type cursor.target (codes "A1"))
filter_patterns-CoveredBy_example =
    filter_patterns-CoveredBy editor_filter cursor (codes "A1") editor_matches
      (omega arith, (omega arith, (omega arith, tt))) (refl, tt)

abbrev wide : List Bytes
wide = codes "ev/a/>" ∷ codes "ev/a/b/*" ∷ codes "ev/c/x" ∷ []

wide_maximal : maximal_patterns wide ≡ codes "ev/a/>" ∷ codes "ev/c/x" ∷ []
unfolding maximal_patterns eq_bytes pattern_subsumes split
wide_maximal = refl

wide-InFamily : All (λ p. InFamily (segments p)) wide
unfolding split eq_bytes
wide-InFamily = (
  (refl, refl, (refl, refl, tt)),
  ((refl, refl, (refl, refl, (refl, refl, tt))), ((refl, refl, (refl, refl, tt)), tt)),
)

a_accepts : accepts (segments (codes "ev/a/>")) (segments (codes "ev/a/b")) ≡ true
unfolding accepts eq_bytes split
a_accepts = refl

b_accepts : accepts (segments (codes "ev/a/b/*")) (segments (codes "ev/a/b/x")) ≡ true
unfolding accepts eq_bytes split
b_accepts = refl

a_member : contains (maximal_patterns wide) (codes "ev/a/>") ≡ true
unfolding maximal_patterns contains eq_bytes pattern_subsumes split
a_member = refl

c_member : contains (maximal_patterns wide) (codes "ev/c/x") ≡ true
unfolding maximal_patterns contains eq_bytes pattern_subsumes split
c_member = refl

b_in_wide : contains wide (codes "ev/a/b/*") ≡ true
unfolding contains eq_bytes
b_in_wide = refl

true_not_false : true ≢ false
true_not_false h = cc

not_same : codes "ev/a/>" ≢ codes "ev/c/x"
unfolding eq_bytes
not_same h = true_not_false (ap (eq_bytes (codes "ev/a/>")) h)

maximal_patterns_disjoint_example :
    accepts (segments (codes "ev/c/x")) (segments (codes "ev/a/b")) ≡ false
maximal_patterns_disjoint_example =
    maximal_patterns_disjoint wide (codes "ev/a/>") (codes "ev/c/x") (codes "ev/a/b") a_member
      c_member not_same wide-InFamily.0 wide-InFamily.1.1.0 a_accepts

maximal_patterns_cover_example : MaximalFor wide (codes "ev/a/b/x")
maximal_patterns_cover_example =
    maximal_patterns_cover wide (codes "ev/a/b/x") wide-InFamily (codes "ev/a/b/*") b_in_wide
      b_accepts

abbrev one_sub : Hub
one_sub = (subscribe editor_filter new_hub).0

one_sub-Reach : Reach one_sub
one_sub-Reach = next_step start (subscribes new_hub editor_filter)

one_sub-IsHub : IsHub one_sub
one_sub-IsHub = Reach-IsHub one_sub-Reach

find-publish_all_example :
    find (publish_all (cursor ∷ cursor ∷ []) one_sub).subs 0
    ≡ after_all (cursor ∷ cursor ∷ []) (find one_sub.subs 0)
find-publish_all_example = find-publish_all (cursor ∷ cursor ∷ []) one_sub 0 one_sub-IsHub

abbrev drained : Hub
drained = receive 0 (fanout cursor one_sub).0

Reach-IsHub_example : IsHub (unsubscribe 0 drained)
Reach-IsHub_example = Reach-IsHub (
    next_step
      (next_step (next_step one_sub-Reach (publishes one_sub cursor))
        (receives (fanout cursor one_sub).0 0))
      (unsubscribes drained 0))

abbrev account_cursor : Event
account_cursor = record cursor { scope = codes "account" }

account_cursor_count :
    match_count account_cursor one_sub + length one_sub.closed
    ≡ (fanout account_cursor one_sub).1 + length (fanout account_cursor one_sub).0.closed
unfolding eq_bytes
account_cursor_count = match_count-fanout account_cursor one_sub refl
