-- ===== src/Markdown/Diff/Tests.antt =====
-- A run of the diff, and its theorems there.
use any.Common.{
  ℕ, ◌+◌, ◌*◌, ◌/◌, ◌≤◌, Bool, true, false, List, [], ◌∷◌, Bytes, codes, ltb, length, ◌==◌,
  if◌then◌else◌, ◌≡◌, refl,
}
use any.Strings.{eq_bytes}
use any.Markdown.Diff.{
  Scoring, keep, update, insert, diff_with_threshold, lcs_by_hash, hash_all, same_at, fill_gaps,
  unused_from, reverse_onto, backtrack, cell, fill_gap, pair_leftovers, leftover_old, range_from,
  greedy, candidates, similarity, equal_mass, takes_old, takes_new, conflicts, indices, insert_pair,
  keep_anchors, leftover_new, link, scored_pairs, scored_row, similarity_at, sort_onto,
}
use any.Markdown.Diff.Lcs.{Ascends, lcs_by_hash-IsLongest}
use any.Markdown.Diff.Plans.{IsDiff, diff_with_threshold-IsDiff}

-- scores in hundredths; blocks are alike that begin alike
abbrev common : Bytes → Bytes → List (Bool × Bytes)
common (a ∷ s) (b ∷ t) =
    let rest = common s t in
    if a == b then (true, a ∷ []) ∷ rest else (false, a ∷ s) ∷ (false, b ∷ t) ∷ []
common s t = (false, s) ∷ (false, t) ∷ []

abbrev hundredths : Scoring
hundredths = record {
  Score = ℕ;
  lt = ltb;
  nothing = 0;
  identical = 100;
  ratio = λ e t. 200 * e / t;
  diff_main = λ s t. common s t;
}

-- a sum of the bytes by their places
abbrev sum_of : Bytes → ℕ
sum_of [] = 1
sum_of (c ∷ s) = c + 31 * sum_of s

abbrev old_blocks : List Bytes
old_blocks = codes "title" ∷ codes "first text" ∷ codes "gone" ∷ codes "end" ∷ []

abbrev new_blocks : List Bytes
new_blocks = codes "title" ∷ codes "new" ∷ codes "first texts" ∷ codes "end" ∷ []

diff_with_threshold_run :
    diff_with_threshold hundredths sum_of old_blocks new_blocks 50
    ≡ record { new_seq = keep 0 ∷ insert ∷ update 1 ∷ keep 3 ∷ []; deletes = 2 ∷ [] }
unfolding diff_with_threshold lcs_by_hash hash_all eq_bytes fill_gaps unused_from reverse_onto
    backtrack cell fill_gap pair_leftovers leftover_old range_from greedy candidates similarity
    equal_mass takes_old takes_new conflicts indices insert_pair keep_anchors leftover_new link
    scored_pairs scored_row similarity_at sort_onto
diff_with_threshold_run = refl

diff_with_threshold-IsDiff_example :
    IsDiff
      (hash_all sum_of old_blocks)
      (hash_all sum_of new_blocks)
      (diff_with_threshold hundredths sum_of old_blocks new_blocks 50)
diff_with_threshold-IsDiff_example =
    diff_with_threshold-IsDiff hundredths sum_of old_blocks new_blocks 50

lcs_by_hash-IsLongest_example :
    Ascends
      (same_at (3 ∷ 1 ∷ 2 ∷ []) (1 ∷ 4 ∷ 2 ∷ []))
      0
      0
      3
      3
      (lcs_by_hash (3 ∷ 1 ∷ 2 ∷ []) (1 ∷ 4 ∷ 2 ∷ []))
    × ((other : List (ℕ × ℕ))
        → Ascends (same_at (3 ∷ 1 ∷ 2 ∷ []) (1 ∷ 4 ∷ 2 ∷ [])) 0 0 3 3 other
        → length other ≤ length (lcs_by_hash (3 ∷ 1 ∷ 2 ∷ []) (1 ∷ 4 ∷ 2 ∷ [])))
lcs_by_hash-IsLongest_example = lcs_by_hash-IsLongest (3 ∷ 1 ∷ 2 ∷ []) (1 ∷ 4 ∷ 2 ∷ [])
