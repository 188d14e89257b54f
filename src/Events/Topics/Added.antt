-- ===== src/Events/Topics/Added.antt =====
-- The loops of filterPatterns only add patterns.
use any.Common.{
  is_nil, true, List, [], ◌∷◌, ◌++◌, Bytes, codes, ◌≡◌, refl, arith, if_cases, Option, none, some,
  Lacks,
}
use any.Strings.{eq_bytes, contains, split, cut_suffix}
use any.Strings.Laws.{
  eq_bytes_refl, contains-append, contains-append_last, parts-append, split_of_Lacks,
}
use any.Events.{type_filter_matches}
use any.Events.Topics.{
  topic_prefix, acc_topic_prefix, self_owned_type, slash, segments_of, add, add_targets,
  prefix_patterns, exact_patterns, type_patterns, types_loop, segments,
}
use any.Events.Topics.Accepts.{accepts}

-- A pattern of the list that accepts the topic.
pub record CoveredBy (patterns : List Bytes) (topic : Bytes) : Type 0 where
  pub pattern_ : Bytes
  pub member : contains patterns pattern_ ≡ true
  pub takes : accepts (segments pattern_) (segments topic) ≡ true

pub accepts_self : (ps : List Bytes) → accepts ps ps ≡ true
unfolding accepts
accepts_self [] = refl
accepts_self (p ∷ ps) = ground (arith, accepts_self ps, eq_bytes_refl p)

accepts-append :
    (xs ps ts : List Bytes) → accepts ps ts ≡ true → accepts (xs ++ ps) (xs ++ ts) ≡ true
unfolding accepts
accepts-append [] ps ts h = h
accepts-append (x ∷ xs) ps ts h = ground (arith, accepts-append xs ps ts h, eq_bytes_refl x)

-- behind a common beginning
pub accepts_behind :
    (x p t : Bytes)
    → accepts (segments p) (segments t) ≡ true
    → accepts (segments (x ++ slash ∷ p)) (segments (x ++ slash ∷ t)) ≡ true
accepts_behind x p t h =
    rw (parts-append slash x p, parts-append slash x t) (accepts-append (segments x) _ _ h)

pub accepts_open : (t : Bytes) → accepts (segments (codes ">")) (segments t) ≡ true
unfolding accepts split eq_bytes
accepts_open t = refl

pub accepts_star : (t : Bytes) → Lacks slash t → accepts (segments (codes "*")) (segments t) ≡ true
unfolding accepts
accepts_star t h = rw (split_of_Lacks slash t h) (unfold split eq_bytes in refl)

module _ (topic : Bytes) where
  pub added :
      (out : List Bytes) (p : Bytes)
      → accepts (segments p) (segments topic) ≡ true
      → CoveredBy (add out p) topic
  unfolding add
  added out p h = record {
    pattern_ = p;
    member =
        if_cases (λ (l : List Bytes). contains l p ≡ true) (contains out p) _ _ (λ e. e)
          (λ _. contains-append_last out p);
    takes = h;
  }

  pub add-CoveredBy :
      (out : List Bytes) (p : Bytes) → CoveredBy out topic → CoveredBy (add out p) topic
  unfolding add
  add-CoveredBy out p c =
      if_cases (λ l. CoveredBy l topic) (contains out p) _ _ (λ _. c)
        (λ _. record {
          pattern_ = c.pattern_;
          member = contains-append out (p ∷ []) c.pattern_ c.member;
          takes = c.takes;
        })

  pub add_targets-CoveredBy :
      (segs : Bytes) (targets out : List Bytes)
      → CoveredBy out topic
      → CoveredBy (add_targets segs targets out) topic
  unfolding add_targets
  add_targets-CoveredBy segs [] out c = c
  add_targets-CoveredBy segs (t ∷ ts) out c =
      add_targets-CoveredBy segs ts _ (add-CoveredBy out (topic_prefix ++ (segs ++ (slash ∷ t))) c)

  prefix_patterns-CoveredBy :
      (t prefix : Bytes) (out : List Bytes)
      → CoveredBy out topic
      → CoveredBy (prefix_patterns t prefix out) topic
  unfolding prefix_patterns
  prefix_patterns-CoveredBy t prefix out c =
      let c' = add-CoveredBy out (topic_prefix ++ (segments_of prefix ++ codes "/>")) c in
      if_cases (λ l. CoveredBy l topic) (type_filter_matches t self_owned_type) _ _
        (λ _. add-CoveredBy _ (acc_topic_prefix ++ (segments_of prefix ++ codes "/>")) c') (λ _. c')

  exact_patterns-CoveredBy :
      (t : Bytes) (targets out : List Bytes)
      → CoveredBy out topic
      → CoveredBy (exact_patterns t targets out) topic
  unfolding exact_patterns
  exact_patterns-CoveredBy t targets out c =
      if_cases (λ l. CoveredBy l topic) (eq_bytes t self_owned_type) _ _
        (λ _. add-CoveredBy out _ c)
        (λ _.
          if_cases (λ l. CoveredBy l topic) (is_nil targets) _ _ (λ _. add-CoveredBy out _ c)
            (λ _. add_targets-CoveredBy (segments_of t) targets out c))

  type_patterns-CoveredBy :
      (o : Option Bytes) (t : Bytes) (targets out : List Bytes)
      → CoveredBy out topic
      → CoveredBy (type_patterns o t targets out) topic
  unfolding type_patterns
  type_patterns-CoveredBy (some prefix) t targets out c = prefix_patterns-CoveredBy t prefix out c
  type_patterns-CoveredBy none t targets out c = exact_patterns-CoveredBy t targets out c

  pub types_loop-CoveredBy :
      (ts targets out : List Bytes)
      → CoveredBy out topic
      → CoveredBy (types_loop ts targets out) topic
  unfolding types_loop
  types_loop-CoveredBy [] targets out c = c
  types_loop-CoveredBy (t ∷ ts) targets out c =
      types_loop-CoveredBy ts targets _
        (type_patterns-CoveredBy (cut_suffix t (codes ".*")) t targets out c)
