-- ===== src/Events/Topics/Maximal.antt =====
-- The patterns that the bridge subscribes to accept all that the interest set accepts.
use any.Common.{
  ℕ, zero, suc, ◌+◌, ◌<◌, ◌≤◌, true, false, not, List, [], ◌∷◌, Bytes, codes, ◌≡◌, refl, sym, ap,
  ap₂, ◌∙◌, ◌⊎◌, inl, inr, arith, Bool-cases, if◌then◌else◌, if_cases, All,
}
use any.Strings.{eq_bytes, contains, join}
use any.Strings.Laws.{eq_bytes→eq, eq_bytes_refl, join-split}
use any.Events.Topics.{
  pattern_subsumes, segments_subsume, segments, slash, is_covered, uncovered, insert_sorted, sort,
  maximal_patterns,
}
use any.Events.Topics.Accepts.{accepts, InFamily, pattern_subsumes_sound}

-- how narrow a pattern is
narrowness : List Bytes → ℕ
narrowness [] = 0
narrowness (a ∷ as_) =
    if eq_bytes a (codes ">")
    then 1
    else if eq_bytes a (codes "*")
    then 3 + narrowness as_
    else 4 + narrowness as_

tail-InFamily : (a : Bytes) (as_ : List Bytes) → InFamily (a ∷ as_) → InFamily as_
tail-InFamily a [] h = tt
tail-InFamily a (b ∷ rest) (_, _, h) = h

-- two patterns that begin with `>` are this segment
both_open :
    (a b : Bytes) (as_ bs : List Bytes)
    → InFamily (a ∷ as_)
    → InFamily (b ∷ bs)
    → eq_bytes a (codes ">") ≡ true
    → eq_bytes b (codes ">") ≡ true
    → ◌≡◌ {A = List Bytes} (a ∷ as_) (b ∷ bs)
both_open a b [] [] fa fb h k =
    ap (λ (c : Bytes). c ∷ []) (eq_bytes→eq a _ h ∙ sym (eq_bytes→eq b _ k))
both_open a b (c ∷ as_) bs (n, _, _) fb h k = cc
both_open a b [] (c ∷ bs) fa (n, _, _) h k = cc

abbrev SameOrNarrower : List Bytes → List Bytes → Type 0
SameOrNarrower as_ bs = (as_ ≡ bs) ⊎ (narrowness as_ < narrowness bs)

open_narrower :
    (a b : Bytes) (as_ bs : List Bytes)
    → eq_bytes a (codes ">") ≡ true
    → eq_bytes b (codes ">") ≡ false
    → narrowness (a ∷ as_) < narrowness (b ∷ bs)
unfolding narrowness
open_narrower a b as_ bs e k =
    rw (e, k)
      (if_cases (λ n. 2 ≤ n) (eq_bytes b (codes "*")) _ _ (λ _. omega arith) (λ _. omega arith))

-- two segments that are no `>`, of which the first is a `*`
star_narrower :
    (a b : Bytes) (as_ bs : List Bytes)
    → eq_bytes a (codes ">") ≡ false
    → eq_bytes b (codes ">") ≡ false
    → eq_bytes a (codes "*") ≡ true
    → SameOrNarrower as_ bs
    → SameOrNarrower (a ∷ as_) (b ∷ bs)
unfolding narrowness
star_narrower a b as_ bs n k m rec = elim (Bool-cases (eq_bytes b (codes "*"))) [
  | inl l ↦ elim rec [
    | inl e ↦ inl (ap₂ ◌∷◌ (eq_bytes→eq a _ m ∙ sym (eq_bytes→eq b _ l)) e)
    | inr lt ↦ inr (rw (n, k, m, l) (omega arith))
  ]
  | inr l ↦ elim rec [
    | inl e ↦ inr (rw (n, k, m, l) (omega (arith, ap narrowness e)))
    | inr lt ↦ inr (rw (n, k, m, l) (omega arith))
  ]
]

plain_narrower :
    (a : Bytes) (as_ bs : List Bytes)
    → eq_bytes a (codes ">") ≡ false
    → eq_bytes a (codes "*") ≡ false
    → SameOrNarrower as_ bs
    → SameOrNarrower (a ∷ as_) (a ∷ bs)
unfolding narrowness
plain_narrower a as_ bs n m rec = elim rec [
  | inl e ↦ inl (ap (λ (l : List Bytes). a ∷ l) e)
  | inr lt ↦ inr (rw (n, m) (omega arith))
]

-- what is subsumed is the same or narrower
subsumed_narrower :
    (as_ bs : List Bytes)
    → InFamily as_
    → InFamily bs
    → segments_subsume as_ bs ≡ true
    → SameOrNarrower as_ bs
unfolding segments_subsume
subsumed_narrower [] [] fa fb h = inl refl
subsumed_narrower [] (b ∷ bs) fa fb h = cc
subsumed_narrower (a ∷ as_) [] fa fb h = cc
subsumed_narrower (a ∷ as_) (b ∷ bs) fa fb h =
    let rec = subsumed_narrower as_ bs (tail-InFamily a as_ fa) (tail-InFamily b bs fb) in
    elim (Bool-cases (eq_bytes a (codes ">"))) [
      | inl e ↦ elim (Bool-cases (eq_bytes b (codes ">"))) [
        | inl k ↦ inl (both_open a b as_ bs fa fb e k)
        | inr k ↦ inr (open_narrower a b as_ bs e k)
      ]
      | inr n ↦ elim (Bool-cases (eq_bytes a (codes "*"))) [
        | inl m ↦ elim (Bool-cases (eq_bytes b (codes ">"))) [
          | inl k ↦ cc (rw (n, m, k) at h)
          | inr k ↦ star_narrower a b as_ bs n k m (rec (rw (n, m, k) at h))
        ]
        | inr m ↦ elim (Bool-cases (eq_bytes b a)) [
          | inl x ↦ rw (eq_bytes→eq b a x) (plain_narrower a as_ bs n m (rec (rw (n, m, x) at h)))
          | inr x ↦ cc (rw (n, m, x) at h)
        ]
      ]
    ]

abbrev glue : List Bytes → Bytes
glue [] = []
glue (p ∷ ps) = join slash p ps

segments_injective : (p q : Bytes) → segments p ≡ segments q → p ≡ q
segments_injective p q e = sym (join-split slash p) ∙ ap glue e ∙ join-split slash q

-- the pattern above one that is not maximal
record Above (set : List Bytes) (p : Bytes) : Type 0 where
  above : Bytes
  member : contains set above ≡ true
  other : eq_bytes above p ≡ false
  subsumes : pattern_subsumes above p ≡ true

Above-cons : (r : Bytes) (set : List Bytes) (p : Bytes) → Above set p → Above (r ∷ set) p
unfolding contains
Above-cons r set p a = record {
  above = a.above;
  member = if_cases (λ b. b ≡ true) (eq_bytes r a.above) _ _ (λ _. refl) (λ _. a.member);
  other = a.other;
  subsumes = a.subsumes;
}

covering : (set : List Bytes) (p : Bytes) → is_covered set p ≡ true → Above set p
unfolding is_covered contains
covering [] p h = cc
covering (r ∷ set) p h = elim (Bool-cases (eq_bytes r p)) [
  | inl e ↦ Above-cons r set p (covering set p (rw e at h))
  | inr e ↦ elim (Bool-cases (pattern_subsumes r p)) [
    | inl s ↦ record { above = r; member = rw (eq_bytes_refl r) refl; other = e; subsumes = s }
    | inr s ↦ Above-cons r set p (covering set p (rw (e, s) at h))
  ]
]

pub All-contains :
    (P : Bytes → Type 0) (set : List Bytes) (p : Bytes) → All P set → contains set p ≡ true → P p
unfolding contains
All-contains P [] p a h = cc
All-contains P (r ∷ set) p (ar, a) h = elim (Bool-cases (eq_bytes r p)) [
  | inl e ↦ rw (← eq_bytes→eq r p e) ar
  | inr e ↦ All-contains P set p a (rw e at h)
]

narrower_above :
    (p q : Bytes)
    → InFamily (segments p)
    → InFamily (segments q)
    → eq_bytes q p ≡ false
    → pattern_subsumes q p ≡ true
    → narrowness (segments q) < narrowness (segments p)
unfolding pattern_subsumes
narrower_above p q fp fq n s =
    elim (subsumed_narrower (segments q) (segments p) fq fp (rw n at s)) [
      | inl e ↦ cc (rw (segments_injective q p e) at n, eq_bytes_refl p)
      | inr lt ↦ lt
    ]

contains-insert_sorted_self : (p : Bytes) (ps : List Bytes) → contains (insert_sorted p ps) p ≡ true
unfolding contains insert_sorted
contains-insert_sorted_self p [] = rw (eq_bytes_refl p) refl
contains-insert_sorted_self p (q ∷ ps) =
    ground (arith, eq_bytes_refl p, contains-insert_sorted_self p ps)

contains-insert_sorted_other :
    (p q : Bytes) (ps : List Bytes) → contains ps q ≡ true → contains (insert_sorted p ps) q ≡ true
unfolding contains insert_sorted
contains-insert_sorted_other p q [] h = cc
contains-insert_sorted_other p q (r ∷ ps) h = ground (arith, contains-insert_sorted_other p q ps)

contains-sort_of :
    (q : Bytes) (ps : List Bytes) → contains ps q ≡ true → contains (sort ps) q ≡ true
unfolding contains sort
contains-sort_of q [] h = h
contains-sort_of q (p ∷ ps) h = elim (Bool-cases (eq_bytes p q)) [
  | inl e ↦ rw (← eq_bytes→eq p q e) (contains-insert_sorted_self p (sort ps))
  | inr e ↦ contains-insert_sorted_other p q (sort ps) (contains-sort_of q ps (rw e at h))
]

contains-uncovered_of :
    (set ps : List Bytes) (q : Bytes)
    → contains ps q ≡ true
    → is_covered set q ≡ false
    → contains (uncovered set ps) q ≡ true
unfolding contains uncovered
contains-uncovered_of set [] q h n = cc
contains-uncovered_of set (p ∷ ps) q h n = elim (Bool-cases (eq_bytes p q)) [
  | inl e ↦ rw (eq_bytes→eq p q e) (rw n (rw (eq_bytes_refl q) refl))
  | inr e ↦
      let rest = contains-uncovered_of set ps q (rw e at h) n in
      if_cases (λ (l : List Bytes). contains l q ≡ true) (not (is_covered set p)) _ _
        (λ _. rw e rest) (λ _. rest)
]

-- a maximal pattern that accepts a topic
pub record MaximalFor (set : List Bytes) (topic : Bytes) : Type 0 where
  pub pattern_ : Bytes
  pub member : contains (maximal_patterns set) pattern_ ≡ true
  pub takes : accepts (segments pattern_) (segments topic) ≡ true

module _ (set : List Bytes) (topic : Bytes) (family : All (λ p. InFamily (segments p)) set) where
  climb :
      (fuel : ℕ) (p : Bytes)
      → narrowness (segments p) < fuel
      → contains set p ≡ true
      → accepts (segments p) (segments topic) ≡ true
      → MaximalFor set topic
  unfolding maximal_patterns
  climb zero p lt h k = absurd (omega arith)
  climb (suc fuel) p lt h k = elim (Bool-cases (is_covered set p)) [
    | inr e ↦ record {
      pattern_ = p;
      member = contains-sort_of p (uncovered set set) (contains-uncovered_of set set p h e);
      takes = k;
    }
    | inl e ↦
        let a = covering set p e in
        let fq = All-contains (λ q. InFamily (segments q)) set a.above family a.member in
        let fp = All-contains (λ q. InFamily (segments q)) set p family h in
        let narrower = narrower_above p a.above fp fq a.other a.subsumes in
        climb fuel a.above (omega arith) a.member
          (pattern_subsumes_sound a.above p topic a.subsumes k)
  ]

  -- Where all patterns of the set are of the family that filterPatterns makes, a topic that one of them
  -- accepts is accepted by one that maximalPatterns keeps: no interest is lost.
  pub maximal_patterns_cover :
      (p : Bytes)
      → contains set p ≡ true
      → accepts (segments p) (segments topic) ≡ true
      → MaximalFor set topic
  maximal_patterns_cover p h k = climb (suc (narrowness (segments p))) p (omega arith) h k
