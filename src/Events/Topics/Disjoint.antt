-- ===== src/Events/Topics/Disjoint.antt =====
-- The patterns that the bridge subscribes to are pairwise disjoint.
use any.Common.{
  true, false, List, [], ◌∷◌, Bytes, ◌≡◌, ◌≢◌, refl, sym, ◌⊎◌, inl, inr, arith, Bool-cases,
}
use any.Strings.{eq_bytes, contains}
use any.Strings.Laws.{eq_bytes→eq, eq_bytes_refl}
use any.Events.Topics.{
  pattern_subsumes, segments, is_covered, uncovered, insert_sorted, sort, maximal_patterns,
}
use any.Events.Topics.Accepts.{accepts, InFamily, patterns_nested}

contains-insert_sorted :
    (p q : Bytes) (ps : List Bytes)
    → contains (insert_sorted p ps) q ≡ true
    → (p ≡ q) ⊎ (contains ps q ≡ true)
unfolding contains insert_sorted
contains-insert_sorted p q [] h = ground (arith, eq_bytes→eq p q)
contains-insert_sorted p q (r ∷ ps) h =
    ground (arith, eq_bytes→eq p q, contains-insert_sorted p q ps)

contains-sort : (q : Bytes) (ps : List Bytes) → contains (sort ps) q ≡ true → contains ps q ≡ true
unfolding contains sort
contains-sort q [] h = h
contains-sort q (p ∷ ps) h = elim (contains-insert_sorted p q (sort ps) h) [
  | inl e ↦ rw (← e) (rw (eq_bytes_refl p) refl)
  | inr k ↦ ground (arith, contains-sort q ps k)
]

-- what is left is a member that no other member subsumes
contains-uncovered :
    (set ps : List Bytes) (q : Bytes)
    → contains (uncovered set ps) q ≡ true
    → (contains ps q ≡ true) × (is_covered set q ≡ false)
unfolding contains uncovered
contains-uncovered set [] q h = cc
contains-uncovered set (p ∷ ps) q h = ground (arith, contains-uncovered set ps q, eq_bytes→eq p q)

covered_by :
    (set : List Bytes) (p q : Bytes)
    → contains set q ≡ true
    → eq_bytes q p ≡ false
    → pattern_subsumes q p ≡ true
    → is_covered set p ≡ true
unfolding contains is_covered
covered_by [] p q h n s = cc
covered_by (r ∷ set) p q h n s = ground (arith, covered_by set p q, eq_bytes→eq r q)

maximal_pattern :
    (set : List Bytes) (p : Bytes)
    → contains (maximal_patterns set) p ≡ true
    → (contains set p ≡ true) × (is_covered set p ≡ false)
unfolding maximal_patterns
maximal_pattern set p h = contains-uncovered set set p (contains-sort p (uncovered set set) h)

pub contains_of_maximal :
    (set : List Bytes) (p : Bytes)
    → contains (maximal_patterns set) p ≡ true
    → contains set p ≡ true
contains_of_maximal set p h = (maximal_pattern set p h).0

not_subsumed :
    (set : List Bytes) (p q : Bytes)
    → contains (maximal_patterns set) p ≡ true
    → contains (maximal_patterns set) q ≡ true
    → p ≢ q
    → pattern_subsumes q p ≡ true
    → ⊥
not_subsumed set p q hp hq ne s =
    let different : eq_bytes q p ≡ false = elim (Bool-cases (eq_bytes q p)) [
      | inl e ↦ absurd (ne (sym (eq_bytes→eq q p e)))
      | inr e ↦ e
    ] in
    cc (covered_by set p q (maximal_pattern set q hq).0 different s, (maximal_pattern set p hp).1)

-- Two different members of what maximalPatterns returns, both of the family that filterPatterns makes,
-- accept no common topic: no message is delivered twice.
pub maximal_patterns_disjoint :
    (set : List Bytes) (p q topic : Bytes)
    → contains (maximal_patterns set) p ≡ true
    → contains (maximal_patterns set) q ≡ true
    → p ≢ q
    → InFamily (segments p)
    → InFamily (segments q)
    → accepts (segments p) (segments topic) ≡ true
    → accepts (segments q) (segments topic) ≡ false
maximal_patterns_disjoint set p q topic hp hq ne fp fq h =
    elim (Bool-cases (accepts (segments q) (segments topic))) [
      | inr e ↦ e
      | inl e ↦ elim (patterns_nested p q topic fp fq h e) [
        | inl s ↦ absurd (not_subsumed set q p hq hp (λ x. ne (sym x)) s)
        | inr s ↦ absurd (not_subsumed set p q hp hq ne s)
      ]
    ]
