-- ===== src/Markdown/Diff/Candidates.antt =====
-- The candidates of a gap lie within it.
use any.Common.{
  ℕ, zero, suc, ◌+◌, ◌<◌, ◌≤◌, List, [], ◌∷◌, Bytes, get_elem?, if_cases, arith, All, All-append,
}
use any.Markdown.Diff.{
  Scoring, range_from, scored_row, scored_pairs, insert_pair, sort_onto, indices, candidates,
  similarity_at,
}

-- positions in ascending order, within bounds
abbrev pub Within : ℕ → ℕ → List ℕ → Type 0
Within lo hi [] = Unit
Within lo hi (x ∷ xs) = (lo ≤ x) × (x < hi) × Within (suc x) hi xs

pub range_from-Within : (lo count hi : ℕ) → lo + count ≤ hi → Within lo hi (range_from lo count)
unfolding range_from
range_from-Within lo zero hi h = tt
range_from-Within lo (suc count) hi h =
    (omega arith, omega arith, range_from-Within (suc lo) count hi (omega arith))

-- A gap: the old positions from `old_lo` on and before `old_hi`, and the new ones likewise.
module _ (old_lo old_hi new_lo new_hi : ℕ) where
  abbrev pub InGap : ℕ → ℕ → Type 0
  InGap o n = (old_lo ≤ o) × (o < old_hi) × (new_lo ≤ n) × (n < new_hi)

  module _ (scoring : Scoring) where
    open scoring use {Score, lt}

    abbrev ScoredInGap : (ℕ × ℕ) × Score → Type 0
    ScoredInGap ((o, n), s) = InGap o n

    scored_row-All :
        (old new : List Bytes) (threshold : Score) (o lo : ℕ) (ns : List ℕ)
        → old_lo ≤ o
        → o < old_hi
        → new_lo ≤ lo
        → Within lo new_hi ns
        → All ScoredInGap (scored_row scoring old new threshold o ns)
    unfolding scored_row
    scored_row-All old new threshold o lo [] a b c w = tt
    scored_row-All old new threshold o lo (n ∷ ns) a b c (d, e, w) =
        let rest = scored_row-All old new threshold o (suc n) ns a b (omega arith) w in
        if_cases (All ScoredInGap)
          (lt (similarity_at scoring (get_elem? old o) (get_elem? new n)) threshold) _ _ (λ _. rest)
          (λ _. ((a, b, omega arith, e), rest))

    scored_pairs-All :
        (old new : List Bytes) (threshold : Score) (lo : ℕ) (os ns : List ℕ)
        → old_lo ≤ lo
        → Within lo old_hi os
        → Within new_lo new_hi ns
        → All ScoredInGap (scored_pairs scoring old new threshold os ns)
    unfolding scored_pairs
    scored_pairs-All old new threshold lo [] ns a w v = tt
    scored_pairs-All old new threshold lo (o ∷ os) ns a (b, c, w) v =
        All-append ScoredInGap (scored_row scoring old new threshold o ns)
          (scored_pairs scoring old new threshold os ns)
          (scored_row-All old new threshold o new_lo ns (omega arith) c (omega arith) v)
          (scored_pairs-All old new threshold (suc o) os ns (omega arith) w v)

    insert_pair-All :
        (p : (ℕ × ℕ) × Score) (ps : List ((ℕ × ℕ) × Score))
        → ScoredInGap p
        → All ScoredInGap ps
        → All ScoredInGap (insert_pair scoring p ps)
    unfolding insert_pair
    insert_pair-All p [] h a = (h, tt)
    insert_pair-All p (q ∷ qs) h (b, a) =
        if_cases (All ScoredInGap) (lt q.1 p.1) _ _ (λ _. (h, (b, a)))
          (λ _. (b, insert_pair-All p qs h a))

    sort_onto-All :
        (ps sorted : List ((ℕ × ℕ) × Score))
        → All ScoredInGap ps
        → All ScoredInGap sorted
        → All ScoredInGap (sort_onto scoring ps sorted)
    unfolding sort_onto
    sort_onto-All [] sorted a b = b
    sort_onto-All (p ∷ ps) sorted (h, a) b =
        sort_onto-All ps (insert_pair scoring p sorted) a (insert_pair-All p sorted h b)

    indices-All :
        (ps : List ((ℕ × ℕ) × Score))
        → All ScoredInGap ps
        → All (λ (o, n). InGap o n) (indices scoring ps)
    unfolding indices
    indices-All [] a = tt
    indices-All (((o, n), s) ∷ ps) (h, a) = (h, indices-All ps a)

    pub candidates-InGap :
        (old new : List Bytes) (threshold : Score) (os ns : List ℕ)
        → Within old_lo old_hi os
        → Within new_lo new_hi ns
        → All (λ (o, n). InGap o n) (candidates scoring old new threshold os ns)
    unfolding candidates
    candidates-InGap old new threshold os ns w v =
        let scored = scored_pairs scoring old new threshold os ns in
        indices-All (sort_onto scoring scored []) (
          sort_onto-All scored []
            (scored_pairs-All old new threshold old_lo os ns (omega arith) w v) tt)
