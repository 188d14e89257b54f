-- ===== src/Events/Requests/Once.antt =====
-- The subscription that a client's filter is admitted for, and the event that it selects: what the
-- filter's patterns, their maximal cover and the bridge's counts come to.
use any.Common.{
  ℕ, ◌+◌, if◌then◌else◌, Option, ◌≤◌, Bool, true, false, ◌&&◌, List, [], ◌∷◌, ◌++◌, some, Bytes,
  ◌==◌, ◌≡◌, ◌≢◌, refl, ap, arith, Bool-cases, inl, inr, subst, All,
}
use any.Strings.{eq_bytes, contains}
use any.Strings.Laws.{eq_bytes→eq, eq_bytes_refl}
use any.Events.{Event, EventFilter, matches}
use any.Events.Topics.{event_topic, filter_patterns, maximal_patterns, segments}
use any.Events.Topics.Accepts.{accepts, InFamily}
use any.Events.Topics.Cover.{filter_patterns-CoveredBy}
use any.Events.Topics.Family.{Families}
use any.Events.Topics.Disjoint.{maximal_patterns_disjoint, contains_of_maximal}
use any.Events.Topics.Maximal.{maximal_patterns_cover, All-contains}
use any.Events.Requests.{PublishRequest, Interest, events_publish, events_subscribe}
use any.Events.Requests.Admitted.{subscribe_admits, publish_admits_target}
use any.Events.Bridge.{Scope, Bridge, Lease, keys}
use any.Events.Bridge.Counts.{occurs, contains-keys}
use any.Events.Bridge.Resync.{IsLive, occurs-contains}
use any.Events.Bridge.Leases.{Reach, owed, Reach-IsBridge, owed-append}
use any.Events.Bridge.Scopes.{IsScope, IsEntry}

-- how often an event on the topic arrives at the subscriptions
abbrev pub deliveries : Bytes → List Bytes → ℕ
deliveries topic [] = 0
deliveries topic (p ∷ live) =
    (if accepts (segments p) (segments topic) then 1 else 0) + deliveries topic live

-- Of the patterns that are active, exactly one accepts the topic.
record OnceIn (active : List Bytes) (topic : Bytes) : Type 0 where
  pattern_ : Bytes
  member : contains active pattern_ ≡ true
  takes : accepts (segments pattern_) (segments topic) ≡ true
  alone :
      (q : Bytes)
      → contains active q ≡ true
      → accepts (segments q) (segments topic) ≡ true
      → q ≡ pattern_

-- When only one pattern accepts the topic, an event arrives once for each subscription to it.
deliveries_of_one :
    (topic p : Bytes) (live : List Bytes)
    → accepts (segments p) (segments topic) ≡ true
    → ((q : Bytes) → 1 ≤ occurs q live → accepts (segments q) (segments topic) ≡ true → q ≡ p)
    → deliveries topic live ≡ occurs p live
deliveries_of_one topic p [] takes alone = refl
deliveries_of_one topic p (q ∷ live) takes alone =
    let rest = deliveries_of_one topic p live takes (λ q' k. alone q' (omega (arith, k))) in
    elim (Bool-cases (eq_bytes q p)) [
      | inl e ↦ ground (
        arith,
        e,
        rest,
        ap (λ (t : Bytes). accepts (segments t) (segments topic)) (eq_bytes→eq q p e),
        takes,
      )
      | inr e ↦ elim (Bool-cases (accepts (segments q) (segments topic))) [
        | inl k ↦
            cc (e, eq_bytes_refl q, ap (eq_bytes q) (alone q (ground (arith, eq_bytes_refl q)) k))
        | inr k ↦ ground (arith, e, k, rest)
      ]
    ]

occurs_of_contains : (ps : List Bytes) (p : Bytes) → contains ps p ≡ true → 1 ≤ occurs p ps
unfolding contains
occurs_of_contains [] p h = cc
occurs_of_contains (q ∷ ps) p h = ground (arith, occurs_of_contains ps p)

once-deliveries :
    (active live : List Bytes) (topic : Bytes)
    → IsLive active live
    → OnceIn active topic
    → deliveries topic live ≡ 1
once-deliveries active live topic subscribed one = omega (
  arith,
  deliveries_of_one topic one.pattern_ live one.takes
      (λ q k. one.alone q (ground (arith, occurs-contains active q, subscribed.held q, k))),
  subscribed.held one.pattern_,
  subscribed.once one.pattern_,
  occurs_of_contains active one.pattern_ one.member,
)

module _ (P : Bytes → Type 0) where
  All_of_contains : (ps : List Bytes) → ((p : Bytes) → contains ps p ≡ true → P p) → All P ps
  unfolding contains
  All_of_contains [] h = tt
  All_of_contains (p ∷ ps) h =
      (h p (rw (eq_bytes_refl p) refl), All_of_contains ps (λ q k. h q (ground arith)))

  of_occurs : (ps : List Bytes) (p : Bytes) → All P ps → 1 ≤ occurs p ps → P p
  of_occurs [] p h k = absurd (omega arith)
  of_occurs (q ∷ ps) p (h, hs) k = elim (Bool-cases (eq_bytes q p)) [
    | inl e ↦ subst P (eq_bytes→eq q p e) h
    | inr e ↦ of_occurs ps p hs (ground arith)
  ]

owed-InFamily :
    (leases : List Lease) (gen : ℕ) (key p : Bytes)
    → All (λ l. Families l.patterns) leases
    → 1 ≤ owed leases gen key p
    → InFamily (segments p)
owed-InFamily [] gen key p h k = absurd (omega arith)
owed-InFamily (l ∷ leases) gen key p (h, hs) k =
    elim (Bool-cases (eq_bytes l.key key && (l.gen == gen))) [
      | inr e ↦ owed-InFamily leases gen key p hs (ground arith)
      | inl e ↦ elim (Bool-cases (occurs p l.patterns == 0)) [
        | inl z ↦ owed-InFamily leases gen key p hs (ground arith)
        | inr z ↦ of_occurs (λ p. InFamily (segments p)) l.patterns p h (ground arith)
      ]
    ]

-- a scope's patterns, counted for leases whose patterns are of the family
desired-Families :
    (leases : List Lease) (gen : ℕ) (key : Bytes) (sc : Scope) (live : List Bytes)
    → IsScope (owed leases gen key) sc live
    → All (λ l. Families l.patterns) leases
    → Families (keys sc.desired)
desired-Families leases gen key sc live is_scope h =
    All_of_contains (λ p. InFamily (segments p)) (keys sc.desired)
      (λ p c.
        owed-InFamily leases gen key p h
          (ground (arith, contains-keys sc.desired p is_scope.counts, is_scope.counted p)))

owed_of_lease :
    (before after : List Lease) (l : Lease) (p : Bytes)
    → contains l.patterns p ≡ true
    → 1 ≤ owed (before ++ l ∷ after) l.gen l.key p
owed_of_lease before after l p h = ground (
  arith,
  eq_bytes_refl l.key,
  occurs_of_contains l.patterns p h,
  owed-append before after l l.gen l.key p,
)

-- a scope that is subscribed to the maximal ones of patterns of the family
once_of :
    (desired active : List Bytes) (topic p : Bytes)
    → Families desired
    → ((q : Bytes) → contains active q ≡ true → contains (maximal_patterns desired) q ≡ true)
    → ((q : Bytes) → contains (maximal_patterns desired) q ≡ true → contains active q ≡ true)
    → contains desired p ≡ true
    → accepts (segments p) (segments topic) ≡ true
    → OnceIn active topic
once_of desired active topic p families only all h k =
    let top = maximal_patterns_cover desired topic families p h k in
    record {
      pattern_ = top.pattern_;
      member = all top.pattern_ top.member;
      takes = top.takes;
      alone = λ q c a. elim (Bool-cases (eq_bytes q top.pattern_)) [
        | inl e ↦ eq_bytes→eq q top.pattern_ e
        | inr e ↦
            let apart : q ≢ top.pattern_ = λ same. cc (e, eq_bytes_refl q, ap (eq_bytes q) same) in
            cc (
              maximal_patterns_disjoint desired q top.pattern_ topic (only q c) top.member apart
                  (family_of q (only q c)) (family_of top.pattern_ top.member) a,
              top.takes,
            )
      ];
    }
  where
    family_of : (q : Bytes) → contains (maximal_patterns desired) q ≡ true → InFamily (segments q)
    family_of q c =
        All-contains (λ q. InFamily (segments q)) desired q families
          (contains_of_maximal desired q c)

-- A client that subscribed under the engine that is up, and an event that its filter selects, both
-- admitted: while no retry is pending on the scope, the SDK's subscriptions for it deliver the event once,
-- however clients share and overlap: one of all that were made and not cancelled accepts the topic of the
-- event. The patterns of the other leases are of the family, as those of filters are.
pub subscribed_once :
    (b : Bridge) (before after : List Lease) (l : Lease) (sc : Scope) (f : EventFilter)
    (i : Interest) (valid_topic : Bytes → Bool) (account : Bytes) (req : PublishRequest)
    (ev : Event)
    → Reach (record { bridge = b; leases = before ++ l ∷ after })
    → All (λ l'. Families l'.patterns) (before ++ l ∷ after)
    → l.gen ≡ b.gen
    → l.patterns ≡ filter_patterns f
    → events_subscribe f ≡ inr i
    → b.scopes l.key ≡ some sc
    → sc.retry_scheduled ≡ false
    → events_publish valid_topic account req ≡ inr ev
    → matches f ev ≡ true
    → deliveries (event_topic ev.type ev.target account) (b.live l.key) ≡ 1
subscribed_once b before after l sc f i valid_topic account req ev reach families gen patterns sub
      here no_retry pub_ sel =
    let leases = before ++ l ∷ after in
    let inv = Reach-IsBridge reach in
    let topic = event_topic ev.type ev.target account in
    let live = b.live l.key in
    let (is_scope, q, wanted) : IsEntry (owed leases b.gen l.key) (some sc) live =
      subst (λ (o : Option Scope). IsEntry (owed leases b.gen l.key) o live) here
        (inv.entries l.key) in
    let covered =
      filter_patterns-CoveredBy f ev account sel
        (publish_admits_target valid_topic account req ev pub_) (subscribe_admits f i sub).filled in
    let asked : 1 ≤ owed leases b.gen l.key covered.pattern_ =
      rw (← gen) (owed_of_lease before after l covered.pattern_ (rw patterns covered.member)) in
    once-deliveries sc.active live topic is_scope.subscribed (
      once_of (keys sc.desired) sc.active topic covered.pattern_
        (desired-Families leases b.gen l.key sc live is_scope families) is_scope.only_maximal
        (λ q. is_scope.all_maximal q no_retry)
        (ground (
          arith,
          contains-keys sc.desired covered.pattern_ is_scope.counts,
          is_scope.counted covered.pattern_,
        ))
        covered.takes)
