-- ===== src/Markdown/Diff/Links.antt =====
-- What the plan of the diff links: new positions to old ones.
use any.Common.{
  ℕ, ◌<◌, Bool, true, List, Option, none, some, length, length-set, get_elem?-set, get_elem?, set,
  ◌==◌, if◌then◌else◌, ◌≡◌, ◌≢◌, sym, ap, ◌∙◌, arith, ◌⊎◌, inl, inr, Bool-cases,
}
use any.Markdown.Diff.{NewOp, keep, update, insert, Plan, link, is_used}

abbrev pub old_of : NewOp → Option ℕ
old_of (keep o) = some o
old_of (update o) = some o
old_of insert = none

-- the old position that a new one is linked to
abbrev pub linked : List NewOp → ℕ → Option ℕ
linked ops n = elim (get_elem? ops n) [ none ↦ none | some op ↦ old_of op ]

pub linked-set :
    (ops : List NewOp) (n : ℕ) (op : NewOp) (k : ℕ)
    → n < length ops
    → linked (set ops n op) k ≡ (if n == k then old_of op else linked ops k)
linked-set ops n op k h = ground (arith, get_elem?-set ops n op k h)

pub is_used-set :
    (used : List Bool) (o k : ℕ)
    → o < length used
    → is_used (set used o true) k ≡ (if o == k then true else is_used used k)
is_used-set used o k h = ground (arith, get_elem?-set used o true k h)

-- A plan for `m` old and `k` new blocks, on a test of an old and a new position: the links ascend on
-- both sides and lead into the old blocks, the used positions are the linked ones, and only positions
-- that agree are kept.
pub record IsPlanned (same : ℕ → ℕ → Bool) (m k : ℕ) (p : Plan) : Type 0 where
  pub news : length p.new_seq ≡ k
  pub olds : length p.old_used ≡ m
  pub ascends :
      (n n' o o' : ℕ)
      → linked p.new_seq n ≡ some o
      → linked p.new_seq n' ≡ some o'
      → n < n'
      → o < o'
  pub inside : (n o : ℕ) → linked p.new_seq n ≡ some o → o < m
  pub marked : (n o : ℕ) → linked p.new_seq n ≡ some o → is_used p.old_used o ≡ true
  pub owned : (o : ℕ) → is_used p.old_used o ≡ true → (n : ℕ) × (linked p.new_seq n ≡ some o)
  pub kept : (n o : ℕ) → get_elem? p.new_seq n ≡ some (keep o) → same o n ≡ true

-- a pair is before or behind every link on both sides
abbrev pub Fits : Plan → ℕ → ℕ → Type 0
Fits p o n =
    (n' o' : ℕ) → linked p.new_seq n' ≡ some o' → ((n' < n) × (o' < o)) ⊎ ((n < n') × (o < o'))

module _ (same : ℕ → ℕ → Bool) (m k : ℕ) (p : Plan) (planned : IsPlanned same m k p) (op : NewOp)
    (o n : ℕ) (is_link : old_of op ≡ some o) (is_old : o < m) (is_new : n < k) where
  fits_new : n < length p.new_seq
  fits_new = rw planned.news is_new

  fits_old : o < length p.old_used
  fits_old = rw planned.olds is_old

  -- The links of the plan with one more are that one and those before.
  pub linked-link :
      (n' o' : ℕ)
      → linked (link op o n p).new_seq n' ≡ some o'
      → ((n' ≡ n) × (o' ≡ o)) ⊎ (linked p.new_seq n' ≡ some o')
  unfolding link
  linked-link n' o' h = elim (Bool-cases (n == n')) [
    | inl e ↦ inl (ground arith, ground (arith, linked-set p.new_seq n op n' fits_new))
    | inr e ↦ inr (ground (arith, linked-set p.new_seq n op n' fits_new))
  ]

  pub linked-link_self : linked (link op o n p).new_seq n ≡ some o
  unfolding link
  linked-link_self = ground (arith, linked-set p.new_seq n op n fits_new)

  pub linked-link_other :
      (n' : ℕ) → n ≢ n' → linked (link op o n p).new_seq n' ≡ linked p.new_seq n'
  unfolding link
  linked-link_other n' h = ground (arith, linked-set p.new_seq n op n' fits_new)

  pub is_used-link_other :
      (o' : ℕ) → o ≢ o' → is_used (link op o n p).old_used o' ≡ is_used p.old_used o'
  unfolding link
  is_used-link_other o' h = ground (arith, is_used-set p.old_used o o' fits_old)

  is_used-link :
      (o' : ℕ)
      → is_used (link op o n p).old_used o' ≡ (if o == o' then true else is_used p.old_used o')
  unfolding link
  is_used-link o' = is_used-set p.old_used o o' fits_old

  get_elem?-link :
      (n' : ℕ)
      → get_elem? (link op o n p).new_seq n' ≡ (if n == n' then some op else get_elem? p.new_seq n')
  unfolding link
  get_elem?-link n' = get_elem?-set p.new_seq n op n' fits_new

  module _ (free : linked p.new_seq n ≡ none) (fits : Fits p o n)
      (honest : op ≡ keep o → same o n ≡ true) where
    link-ascends :
        (n' n'' o' o'' : ℕ)
        → linked (link op o n p).new_seq n' ≡ some o'
        → linked (link op o n p).new_seq n'' ≡ some o''
        → n' < n''
        → o' < o''
    link-ascends n' n'' o' o'' a b h = elim (linked-link n' o' a) [
      | inl (x, y) ↦ elim (linked-link n'' o'' b) [
        | inl (z, w) ↦ absurd (omega arith)
        | inr l ↦ elim (fits n'' o'' l) [
          | inl (u, v) ↦ absurd (omega arith)
          | inr (u, v) ↦ omega arith
        ]
      ]
      | inr l ↦ elim (linked-link n'' o'' b) [
        | inl (z, w) ↦ elim (fits n' o' l) [
          | inl (u, v) ↦ omega arith
          | inr (u, v) ↦ absurd (omega arith)
        ]
        | inr l' ↦ planned.ascends n' n'' o' o'' l l' h
      ]
    ]

    link-owned :
        (o' : ℕ)
        → is_used (link op o n p).old_used o' ≡ true
        → (n' : ℕ) × (linked (link op o n p).new_seq n' ≡ some o')
    link-owned o' h = elim (Bool-cases (o == o')) [
      | inl e ↦ let same_old : o ≡ o' = ground arith in (n, linked-link_self ∙ ap some same_old)
      | inr e ↦
          let apart : o ≢ o' = ground arith in
          let (n', l) = planned.owned o' (sym (is_used-link_other o' apart) ∙ h) in
          let elsewhere : n ≢ n' = (λ x. cc (free, ap (linked p.new_seq) x, l)) in
          (n', linked-link_other n' elsewhere ∙ l)
    ]

    link-kept :
        (n' o' : ℕ) → get_elem? (link op o n p).new_seq n' ≡ some (keep o') → same o' n' ≡ true
    link-kept n' o' h = elim (Bool-cases (n == n')) [
      | inl e ↦
          let here : n ≡ n' = ground arith in
          let is_op : op ≡ keep o' = ground (arith, get_elem?-link n') in
          let is_o : o ≡ o' = cc (is_link, ap old_of is_op) in
          cc (honest (is_op ∙ ap keep (sym is_o)), here, is_o)
      | inr e ↦ planned.kept n' o' (ground (arith, get_elem?-link n'))
    ]

    pub link-IsPlanned : IsPlanned same m k (link op o n p)
    link-IsPlanned = record {
      news = unfold link in length-set p.new_seq n op ∙ planned.news;
      olds = unfold link in length-set p.old_used o true ∙ planned.olds;
      ascends = link-ascends;
      inside = λ n' o' h. elim (linked-link n' o' h) [
        | inl (a, b) ↦ omega arith
        | inr l ↦ planned.inside n' o' l
      ];
      marked = λ n' o' h. elim (linked-link n' o' h) [
        | inl (a, b) ↦ ground (arith, is_used-link o')
        | inr l ↦ ground (arith, is_used-link o', planned.marked n' o' l)
      ];
      owned = link-owned;
      kept = link-kept;
    }
