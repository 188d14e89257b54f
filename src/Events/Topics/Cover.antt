-- ===== src/Events/Topics/Cover.antt =====
-- The patterns of a filter cover what it selects.
use any.Common.{
  is_nil, true, false, List, [], ◌∷◌, ◌++◌, append_assoc, Bytes, codes, ◌≡◌, refl, ◌∙◌, ◌⊎◌, inl,
  inr, arith, Bool-cases, if◌then◌else◌, if_cases, All, Option, none, some, Lacks,
}
use any.Strings.{eq_bytes, contains, cut_suffix, is_empty, replace_byte}
use any.Strings.Laws.{eq_bytes→eq, has_prefix-append, replace_byte-append}
use any.Events.{Event, EventFilter, matches, any_type_matches, type_filter_matches, prefix_matches}
use any.Events.Topics.{
  topic_prefix, acc_topic_prefix, self_owned_type, slash, segments_of, target_segment, event_topic,
  add, add_targets, prefix_patterns, exact_patterns, type_patterns, types_loop, filter_patterns,
  segments,
}
use any.Events.Topics.Accepts.{accepts}
use any.Events.Topics.Added.{
  CoveredBy, accepts_self, accepts_behind, accepts_open, accepts_star, added, add-CoveredBy,
  add_targets-CoveredBy, types_loop-CoveredBy,
}

open_pattern :
    (head segs tail : Bytes)
    → accepts
        (segments (head ++ (segs ++ codes "/>")))
        (segments (head ++ (segs ++ (slash ∷ tail))))
      ≡ true
open_pattern head segs tail =
    rw (← append_assoc head segs (codes "/>"), ← append_assoc head segs (slash ∷ tail))
      (accepts_behind (head ++ segs) (codes ">") tail (accepts_open tail))

star_pattern :
    (head segs tail : Bytes)
    → Lacks slash tail
    → accepts
        (segments (head ++ (segs ++ codes "/*")))
        (segments (head ++ (segs ++ (slash ∷ tail))))
      ≡ true
star_pattern head segs tail h =
    rw (← append_assoc head segs (codes "/*"), ← append_assoc head segs (slash ∷ tail))
      (accepts_behind (head ++ segs) (codes "*") tail (accepts_star tail h))

-- the segments of a type begin with those of a prefix that selects it
behind_prefix :
    (prefix t typ y : Bytes)
    → prefix_matches (some prefix) t typ ≡ true
    → (tail : Bytes) × (segments_of typ ++ (slash ∷ y) ≡ segments_of prefix ++ (slash ∷ tail))
unfolding prefix_matches segments_of
behind_prefix prefix t typ y h = elim (Bool-cases (eq_bytes typ prefix)) [
  | inl e ↦ (y, rw (eq_bytes→eq typ prefix e))
  | inr e ↦
      let (r, q) = has_prefix-append (prefix ++ b'.' ∷ []) typ (rw e at h) in
      (
        replace_byte b'.' slash r ++ (slash ∷ y),
        rw q (simp (replace_byte-append, append_assoc) (unfold replace_byte in refl)),
      )
]

target_segment-Lacks : (target : Bytes) → Lacks slash target → Lacks slash (target_segment target)
target_segment-Lacks [] h = omega arith
target_segment-Lacks (c ∷ t) h = h

module _ (segs target topic : Bytes) where
  add_targets_covers :
      (targets out : List Bytes)
      → topic ≡ topic_prefix ++ (segs ++ (slash ∷ target))
      → contains targets target ≡ true
      → CoveredBy (add_targets segs targets out) topic
  unfolding add_targets contains
  add_targets_covers [] out e h = cc
  add_targets_covers (t ∷ ts) out e h = elim (Bool-cases (eq_bytes t target)) [
    | inl same ↦ add_targets-CoveredBy topic segs ts _ (
        added topic out (topic_prefix ++ (segs ++ (slash ∷ t))) (
          rw (e, eq_bytes→eq t target same)
            (accepts_self (segments (topic_prefix ++ (segs ++ (slash ∷ target)))))))
    | inr other ↦ add_targets_covers ts _ e (rw other at h)
  ]

module _ (typ target account : Bytes) where
  abbrev topic_of : Bytes
  topic_of = event_topic typ target account

  abbrev acc_tail : Bytes
  acc_tail = target_segment target ++ (slash ∷ account)

  acc_topic :
      eq_bytes typ self_owned_type ≡ true
      → topic_of ≡ acc_topic_prefix ++ (segments_of typ ++ (slash ∷ acc_tail))
  unfolding event_topic
  acc_topic e = rw e

  plain_topic :
      eq_bytes typ self_owned_type ≡ false
      → topic_of ≡ topic_prefix ++ (segments_of typ ++ (slash ∷ target_segment target))
  unfolding event_topic
  plain_topic e = rw e

  -- the open pattern of a prefix accepts the topic of a type that the prefix selects
  open_pattern_of :
      (head prefix t y : Bytes)
      → prefix_matches (some prefix) t typ ≡ true
      → topic_of ≡ head ++ (segments_of typ ++ (slash ∷ y))
      → accepts (segments (head ++ (segments_of prefix ++ codes "/>"))) (segments topic_of) ≡ true
  open_pattern_of head prefix t y h e =
      let (tail, q) = behind_prefix prefix t typ y h in
      rw (e, q) (open_pattern head (segments_of prefix) tail)

  prefix_covers :
      (prefix t : Bytes) (out : List Bytes)
      → prefix_matches (some prefix) t typ ≡ true
      → type_filter_matches t typ ≡ true
      → CoveredBy (prefix_patterns t prefix out) topic_of
  unfolding prefix_patterns
  prefix_covers prefix t out h k = elim (Bool-cases (eq_bytes typ self_owned_type)) [
    | inl e ↦
        let own : type_filter_matches t self_owned_type ≡ true =
          rw (eq_bytes→eq typ self_owned_type e) at k in
        rw own (
          added topic_of _ (acc_topic_prefix ++ (segments_of prefix ++ codes "/>"))
            (open_pattern_of acc_topic_prefix prefix t acc_tail h (acc_topic e)))
    | inr e ↦
        let c =
          added topic_of out (topic_prefix ++ (segments_of prefix ++ codes "/>"))
            (open_pattern_of topic_prefix prefix t (target_segment target) h (plain_topic e)) in
        if_cases (λ l. CoveredBy l topic_of) (type_filter_matches t self_owned_type) _ _
          (λ _. add-CoveredBy topic_of _ (acc_topic_prefix ++ (segments_of prefix ++ codes "/>")) c)
          (λ _. c)
  ]

  -- the target is one that the filter names, or the filter names none
  module _ (targets : List Bytes) (plain_target : Lacks slash target)
      (filled : is_nil targets ≡ false → is_empty target ≡ false)
      (named : (is_nil targets ≡ true) ⊎ (contains targets target ≡ true)) where
    named_of : is_nil targets ≡ false → contains targets target ≡ true
    named_of n = elim named [ inl e ↦ cc (e, n) | inr c ↦ c ]

    target_patterns_cover :
        (out : List Bytes)
        → eq_bytes typ self_owned_type ≡ false
        → CoveredBy
            (if is_nil targets
              then add out (topic_prefix ++ (segments_of typ ++ codes "/*"))
              else add_targets (segments_of typ) targets out)
            topic_of
    target_patterns_cover out e =
        if_cases (λ l. CoveredBy l topic_of) (is_nil targets) _ _
          (λ n. added topic_of out (topic_prefix ++ (segments_of typ ++ codes "/*")) (
            rw (plain_topic e) (
              star_pattern topic_prefix (segments_of typ) (target_segment target)
                (target_segment-Lacks target plain_target))))
          (λ n.
            add_targets_covers (segments_of typ) target topic_of targets out
              (plain_topic e ∙ rw (filled n)) (named_of n))

    exact_covers : (out : List Bytes) → CoveredBy (exact_patterns typ targets out) topic_of
    unfolding exact_patterns
    exact_covers out =
        if_cases (λ l. CoveredBy l topic_of) (eq_bytes typ self_owned_type) _ _
          (λ e.
            added topic_of out (acc_topic_prefix ++ (segments_of typ ++ codes "/>"))
              (rw (acc_topic e) (open_pattern acc_topic_prefix (segments_of typ) acc_tail)))
          (target_patterns_cover out)

    type_covers :
        (o : Option Bytes) (t : Bytes) (out : List Bytes)
        → prefix_matches o t typ ≡ true
        → type_filter_matches t typ ≡ true
        → CoveredBy (type_patterns o t targets out) topic_of
    unfolding type_patterns
    type_covers (some prefix) t out h k = prefix_covers prefix t out h k
    type_covers none t out h k =
        rw (← eq_bytes→eq typ t (unfold prefix_matches in h)) (exact_covers out)

    types_cover :
        (ts out : List Bytes)
        → any_type_matches ts typ ≡ true
        → CoveredBy (types_loop ts targets out) topic_of
    unfolding any_type_matches types_loop
    types_cover [] out h = cc
    types_cover (t ∷ ts) out h = elim (Bool-cases (type_filter_matches t typ)) [
      | inl e ↦
          types_loop-CoveredBy topic_of ts targets _
            (type_covers (cut_suffix t (codes ".*")) t out (unfold type_filter_matches in e) e)
      | inr e ↦ types_cover ts _ (rw e at h)
    ]

  catch_all_covers :
      CoveredBy ((topic_prefix ++ codes ">") ∷ (acc_topic_prefix ++ codes ">") ∷ []) topic_of
  catch_all_covers = elim (Bool-cases (eq_bytes typ self_owned_type)) [
    | inl e ↦ record {
      pattern_ = acc_topic_prefix ++ codes ">";
      member = unfold contains in refl;
      takes = rw (acc_topic e) (
          accepts_behind (codes "acc/ev") (codes ">") (segments_of typ ++ (slash ∷ acc_tail))
            (accepts_open _));
    }
    | inr e ↦ record {
      pattern_ = topic_prefix ++ codes ">";
      member = unfold contains in refl;
      takes = rw (plain_topic e) (
          accepts_behind (codes "ev") (codes ">")
            (segments_of typ ++ (slash ∷ target_segment target)) (accepts_open _));
    }
  ]

selected_target :
    (f : EventFilter) (ev : Event)
    → matches f ev ≡ true
    → (is_nil f.targets ≡ true) ⊎ (contains f.targets ev.target ≡ true)
unfolding matches
selected_target f ev h = ground arith

selected_type :
    (f : EventFilter) (ev : Event)
    → matches f ev ≡ true
    → (is_nil f.types ≡ true) ⊎ (any_type_matches f.types ev.type ≡ true)
unfolding matches
selected_type f ev h = ground arith

filled_target :
    (targets : List Bytes) (target : Bytes)
    → All (λ t. is_empty t ≡ false) targets
    → contains targets target ≡ true
    → is_empty target ≡ false
unfolding contains
filled_target [] target a h = cc
filled_target (t ∷ ts) target (at, a) h = elim (Bool-cases (eq_bytes t target)) [
  | inl e ↦ rw (← eq_bytes→eq t target e) at
  | inr e ↦ filled_target ts target a (rw e at h)
]

filter_patterns_cover :
    (f : EventFilter) (ev : Event) (account : Bytes)
    → Lacks slash ev.target
    → (is_nil f.targets ≡ false → is_empty ev.target ≡ false)
    → (is_nil f.targets ≡ true) ⊎ (contains f.targets ev.target ≡ true)
    → (is_nil f.types ≡ true) ⊎ (any_type_matches f.types ev.type ≡ true)
    → CoveredBy (filter_patterns f) (event_topic ev.type ev.target account)
unfolding filter_patterns
filter_patterns_cover f ev account h filled named typed =
    if_cases (λ l. CoveredBy l (event_topic ev.type ev.target account)) (is_nil f.types) _ _
      (λ _. catch_all_covers ev.type ev.target account)
      (λ n.
        types_cover ev.type ev.target account f.targets h filled named f.types []
          (elim typed [ inl e ↦ cc | inr t ↦ t ]))

-- For every event that a filter selects, some pattern of filterPatterns accepts the topic that the
-- event is published on, where the event's target holds no slash and the filter names no empty target.
pub filter_patterns-CoveredBy :
    (f : EventFilter) (ev : Event) (account : Bytes)
    → matches f ev ≡ true
    → Lacks slash ev.target
    → All (λ t. is_empty t ≡ false) f.targets
    → CoveredBy (filter_patterns f) (event_topic ev.type ev.target account)
filter_patterns-CoveredBy f ev account h plain filled =
    let named = selected_target f ev h in
    filter_patterns_cover f ev account plain
      (λ n. filled_target f.targets ev.target filled (elim named [ inl e ↦ cc | inr c ↦ c ])) named
      (selected_type f ev h)
