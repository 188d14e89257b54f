-- ===== src/Markdown/Diff/Plans.antt =====
-- The plan of the diff.
use any.Common.{
  ℕ, zero, suc, ◌+◌, ◌<◌, ◌≤◌, Bool, true, false, not, ◌&&◌, ◌||◌, List, [], ◌∷◌, none, some, Bytes,
  length, length-replicate, get_elem?, replicate, ◌==◌, ltb, ◌≡◌, ◌≢◌, refl, sym, ap, ◌∙◌, arith,
  ◌⊎◌, inl, inr, Bool-cases, Option-cases,
}
use any.Markdown.Diff.{
  NewOp, keep, update, insert, DiffResult, Plan, Scoring, link, is_used, same_at, lcs_by_hash,
  hash_all, keep_anchors, no_plan, fill_gap, fill_gaps, unused_from, diff_with_threshold,
}
use any.Markdown.Diff.Lcs.{Ascends, lcs_by_hash-IsLongest}
use any.Markdown.Diff.Links.{linked, IsPlanned, Fits, linked-link, link-IsPlanned}
use any.Markdown.Diff.Accepted.{has}
use any.Markdown.Diff.Gap.{fill_gap-IsFilled}

has-Ascends :
    (same : ℕ → ℕ → Bool) (i j m n : ℕ) (as_ : List (ℕ × ℕ)) (o k : ℕ)
    → Ascends same i j m n as_
    → has as_ o k ≡ true
    → (i ≤ o) × (j ≤ k)
has-Ascends same i j m n [] o k a h = cc
has-Ascends same i j m n ((x, y) ∷ as_) o k (p, q, r, s, e, a) h =
    elim (Bool-cases (x == o && y == k)) [
      | inl t ↦ (ground arith, ground arith)
      | inr t ↦
          let (u, v) = has-Ascends same (suc x) (suc y) m n as_ o k a (ground arith) in
          (omega arith, omega arith)
    ]

module _ (same : ℕ → ℕ → Bool) (m k : ℕ) where
  -- Keeping the anchors links them and nothing else.
  abbrev Anchored : List (ℕ × ℕ) → Plan → Plan → Type 0
  Anchored as_ p q =
      IsPlanned same m k q
      × ((o n : ℕ)
          → linked q.new_seq n ≡ some o
          → (linked p.new_seq n ≡ some o) ⊎ (has as_ o n ≡ true))

  keep_anchors-Anchored :
      (as_ : List (ℕ × ℕ)) (i j : ℕ) (p : Plan)
      → Ascends same i j m k as_
      → IsPlanned same m k p
      → ((o n : ℕ) → linked p.new_seq n ≡ some o → (o < i) × (n < j))
      → Anchored as_ p (keep_anchors as_ p)
  unfolding keep_anchors
  keep_anchors-Anchored [] i j p a planned low = (planned, λ o n l. inl l)
  keep_anchors-Anchored ((o, n) ∷ as_) i j p (b, c, d, e, s, a) planned low =
      let free : linked p.new_seq n ≡ none = elim (Option-cases (linked p.new_seq n)) [
        | inl x ↦ x
        | inr (o', l) ↦ let (u, v) = low o' n l in absurd (omega arith)
      ] in
      let fits : Fits p o n = λ n' o' l. let (u, v) = low o' n' l in inl (omega arith) in
      let q = link (keep o) o n p in
      let links = linked-link same m k p planned (keep o) o n refl d e in
      let (done, only) =
        keep_anchors-Anchored as_ (suc o) (suc n) q a
          (link-IsPlanned same m k p planned (keep o) o n refl d e free fits (λ x. s))
          (λ o' n' l. elim (links n' o' l) [
            | inl (u, v) ↦ omega arith
            | inr l' ↦ let (u, v) = low o' n' l' in omega arith
          ]) in
      (
        done,
        λ o' n' l. elim (only o' n' l) [
          | inr h ↦ inr (ground arith)
          | inl l' ↦ elim (links n' o' l') [ inl (u, v) ↦ inr (ground arith) | inr l'' ↦ inl l'' ]
        ],
      )

  fill_gaps-IsPlanned :
      (scoring : Scoring) (old new : List Bytes) (threshold : scoring.Score) (as_ : List (ℕ × ℕ))
      (i j : ℕ) (p : Plan)
      → m ≡ length old
      → k ≡ length new
      → Ascends same i j m k as_
      → IsPlanned same m k p
      → ((o n : ℕ) → linked p.new_seq n ≡ some o → ((n < j) × (o < i)) ⊎ (has as_ o n ≡ true))
      → IsPlanned same m k (fill_gaps scoring old new threshold as_ i j p)
  unfolding fill_gaps
  fill_gaps-IsPlanned scoring old new threshold [] i j p em ek a planned links =
      (fill_gap-IsFilled same m k i (length old) j (length new) (omega arith) (omega arith) scoring
        old new threshold p planned
        (λ o n l. elim (links o n l) [ inl x ↦ inl x | inr h ↦ cc ])).planned
  fill_gaps-IsPlanned scoring old new threshold ((o, n) ∷ as_) i j p em ek (b, c, d, e, s, a)
        planned links =
      let outside : (o' n' : ℕ)
          → linked p.new_seq n' ≡ some o'
          → ((n' < j) × (o' < i)) ⊎ ((n ≤ n') × (o ≤ o')) =
        λ o' n' l. elim (links o' n' l) [
          | inl x ↦ inl x
          | inr h ↦ elim (Bool-cases (o == o' && n == n')) [
            | inl t ↦ inr (ground arith, ground arith)
            | inr t ↦
                let (u, v) = has-Ascends same (suc o) (suc n) m k as_ o' n' a (ground arith) in
                inr (omega arith)
          ]
        ] in
      let filled =
        fill_gap-IsFilled same m k i o j n (omega arith) (omega arith) scoring old new threshold p
          planned outside in
      fill_gaps-IsPlanned scoring old new threshold as_ (suc o) (suc n)
        (fill_gap scoring old new threshold i o j n p) em ek a filled.planned
        (λ o' n' l. elim (filled.framed o' n' l) [
          | inr (u, v, w, x) ↦ inl (omega arith)
          | inl l' ↦ elim (links o' n' l') [
            | inl (u, v) ↦ inl (omega arith)
            | inr h ↦ elim (Bool-cases (o == o' && n == n')) [
              | inl t ↦ inl (ground arith, ground arith)
              | inr t ↦ inr (ground arith)
            ]
          ]
        ])

abbrev elem_of : ℕ → List ℕ → Bool
elem_of o [] = false
elem_of o (x ∷ xs) = x == o || elem_of o xs

unused_from_below : (used : List Bool) (lo o : ℕ) → o < lo → elem_of o (unused_from lo used) ≡ false
unfolding unused_from
unused_from_below [] lo o h = refl
unused_from_below (u ∷ used) lo o h = ground (arith, unused_from_below used (suc lo) o)

elem_of-unused_from :
    (used : List Bool) (lo i o : ℕ)
    → o ≡ lo + i
    → elem_of o (unused_from lo used) ≡ (ltb i (length used) && not (is_used used i))
unfolding unused_from
elem_of-unused_from [] lo i o h = ground arith
elem_of-unused_from (u ∷ used) lo zero o h = ground (arith, unused_from_below used (suc lo) o)
elem_of-unused_from (u ∷ used) lo (suc i) o h =
    ground (arith, elem_of-unused_from used (suc lo) i o)

linked-replicate : (k n : ℕ) → linked (replicate k insert) n ≡ none
linked-replicate zero n = refl
linked-replicate (suc k) zero = refl
linked-replicate (suc k) (suc n) = linked-replicate k n

is_used-replicate : (m o : ℕ) → is_used (replicate m false) o ≡ false
is_used-replicate zero o = refl
is_used-replicate (suc m) zero = refl
is_used-replicate (suc m) (suc o) = is_used-replicate m o

get_elem?-linked :
    (ops : List NewOp) (n o : ℕ) → get_elem? ops n ≡ some (keep o) → linked ops n ≡ some o
get_elem?-linked [] n o h = cc
get_elem?-linked (keep x ∷ ops) zero o h = cc
get_elem?-linked (update x ∷ ops) zero o h = cc
get_elem?-linked (insert ∷ ops) zero o h = cc
get_elem?-linked (op ∷ ops) (suc n) o h = get_elem?-linked ops n o h

no_plan-IsPlanned :
    (same : ℕ → ℕ → Bool) (old new : List Bytes)
    → IsPlanned same (length old) (length new) (no_plan old new)
no_plan-IsPlanned same old new =
    let none_linked = linked-replicate (length new) in
    record {
      news = length-replicate (length new) insert;
      olds = length-replicate (length old) false;
      ascends = λ n n' o o' a b h. cc (none_linked n, a);
      inside = λ n o a. cc (none_linked n, a);
      marked = λ n o a. cc (none_linked n, a);
      owned = λ o h. cc (is_used-replicate (length old) o, h);
      kept = λ n o h. cc (none_linked n, get_elem?-linked (replicate (length new) insert) n o h);
    }

length-hash_all : (hash : Bytes → ℕ) (bs : List Bytes) → length (hash_all hash bs) ≡ length bs
unfolding hash_all
length-hash_all hash [] = refl
length-hash_all hash (b ∷ bs) = ap suc (length-hash_all hash bs)

-- A sound result of a diff, by the hashes of the old and the new blocks.
pub record IsDiff (olds news : List ℕ) (r : DiffResult) : Type 0 where
  -- one op for each new block
  pub positions : length r.new_seq ≡ length news
  -- the old blocks keep their order
  pub ascends :
      (n n' o o' : ℕ)
      → linked r.new_seq n ≡ some o
      → linked r.new_seq n' ≡ some o'
      → n < n'
      → o < o'
  pub inside : (n o : ℕ) → linked r.new_seq n ≡ some o → o < length olds
  -- a block is kept only where the hashes agree
  pub kept : (n o : ℕ) → get_elem? r.new_seq n ≡ some (keep o) → same_at olds news o n ≡ true
  -- an old block is deleted just if no new one takes it
  pub gone :
      (o : ℕ)
      → o < length olds
      → (elem_of o r.deletes ≡ true) ⊎ ((n : ℕ) × (linked r.new_seq n ≡ some o))
  pub deleted :
      (n o : ℕ) → elem_of o r.deletes ≡ true → (o < length olds) × (linked r.new_seq n ≢ some o)

IsPlanned-IsDiff :
    (olds news : List ℕ) (p : Plan)
    → IsPlanned (same_at olds news) (length olds) (length news) p
    → IsDiff olds news (record { new_seq = p.new_seq; deletes = unused_from 0 p.old_used })
IsPlanned-IsDiff olds news p planned =
    let deletes = λ (o : ℕ). elem_of-unused_from p.old_used 0 o o (omega arith) in
    record {
      positions = planned.news;
      ascends = planned.ascends;
      inside = planned.inside;
      kept = planned.kept;
      gone = λ o h. elim (Bool-cases (is_used p.old_used o)) [
        | inl u ↦ inr (planned.owned o u)
        | inr u ↦ inl (ground (arith, deletes o, planned.olds))
      ];
      deleted = λ n o h. (
        ground (arith, deletes o, planned.olds),
        λ l. cc (planned.marked n o l, unmarked o (is_used p.old_used o) (sym (deletes o) ∙ h)),
      );
    }
  where
    unmarked : (o : ℕ) (u : Bool) → (ltb o (length p.old_used) && not u) ≡ true → u ≡ false
    unmarked o u h = ground arith

-- Whatever the hashes, the character diffs, the scores and the threshold: Diff gives an op for each
-- new block, links new blocks to old ones so that no two links cross, keeps a block only where the
-- hashes agree, and deletes just the old blocks that no new one takes.
pub diff_with_threshold-IsDiff :
    (scoring : Scoring) (hash : Bytes → ℕ) (old new : List Bytes) (threshold : scoring.Score)
    → IsDiff
        (hash_all hash old)
        (hash_all hash new)
        (diff_with_threshold scoring hash old new threshold)
unfolding diff_with_threshold
diff_with_threshold-IsDiff scoring hash old new threshold =
    let olds = hash_all hash old in
    let news = hash_all hash new in
    let same = same_at olds news in
    let m = length-hash_all hash old in
    let k = length-hash_all hash new in
    let anchors = lcs_by_hash olds news in
    let ascending = (lcs_by_hash-IsLongest olds news).0 in
    let start : IsPlanned same (length olds) (length news) (no_plan old new) =
      rw (m, k) (no_plan-IsPlanned same old new) in
    let (kept, only) =
      keep_anchors-Anchored same (length olds) (length news) anchors 0 0 (no_plan old new) ascending
        start (λ o n l. cc (linked-replicate (length new) n, l)) in
    IsPlanned-IsDiff olds news
      (fill_gaps scoring old new threshold anchors 0 0 (keep_anchors anchors (no_plan old new)))
      (fill_gaps-IsPlanned same (length olds) (length news) scoring old new threshold anchors 0 0
        (keep_anchors anchors (no_plan old new)) m k ascending kept
        (λ o n l. elim (only o n l) [
          | inl l' ↦ cc (linked-replicate (length new) n, l')
          | inr h ↦ inr h
        ]))
