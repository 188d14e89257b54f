-- ===== src/Markdown/Diff.antt =====
-- internal/markdown/diff.go: the plan that turns the blocks of a document into new ones. The hash of a
-- block, the character diff of two blocks and the floats are parameters. The proofs are in the modules
-- below.
mod Tests
pub mod Lcs
pub mod Links
pub mod Accepted
pub mod Candidates
pub mod Gap
pub mod Plans
use any.Common.{
  ℕ, zero, suc, ◌+◌, ◌-◌, Bool, true, false, not, ◌&&◌, ◌||◌, List, [], ◌∷◌, ◌++◌, Option, none,
  some, Bytes, length, get_elem?, set, replicate, ◌==◌, ltb, leb, if◌then◌else◌,
}
use any.Strings.{eq_bytes, is_empty}

-- the struct NewOp with its OpKind; OldIdx is -1 at an insert
pub data NewOp : Type 0 where
  keep : ℕ → NewOp
  update : ℕ → NewOp
  insert : NewOp

-- the struct DiffResult
pub record DiffResult : Type 0 where
  pub new_seq : List NewOp
  pub deletes : List ℕ

-- the two slices that the passes write
pub record Plan : Type 0 where
  pub new_seq : List NewOp
  pub old_used : List Bool

-- What the code takes from diffmatchpatch and from float64: the pieces of DiffMain, each with whether
-- it is equal, and the scores.
pub record Scoring : Type 1 where
  pub Score : Type 0
  pub lt : Score → Score → Bool
  pub nothing : Score
  pub identical : Score
  -- 2.0 * float64(equal) / float64(total)
  pub ratio : ℕ → ℕ → Score
  pub diff_main : Bytes → Bytes → List (Bool × Bytes)

-- The longest common subsequence, on a test of the elements at two positions.
module _ (same : ℕ → ℕ → Bool) where
  -- dp[i][j]
  unfoldable pub cell : ℕ → ℕ → ℕ
  cell zero j = 0
  cell (suc i) zero = 0
  cell (suc i) (suc j) =
      let diagonal = cell i j + 1 in
      let above = cell i (suc j) in
      let left = cell (suc i) j in
      if same i j then diagonal else if leb left above then above else left

  -- the second loop, which gives the anchors from the last on
  unfoldable pub backtrack : ℕ → ℕ → List (ℕ × ℕ)
  backtrack zero j = []
  backtrack (suc i) zero = []
  backtrack (suc i) (suc j) =
      let diagonal = (i, j) ∷ backtrack i j in
      let above = backtrack i (suc j) in
      let left = backtrack (suc i) j in
      if same i j then diagonal else if leb (cell (suc i) j) (cell i (suc j)) then above else left

-- the loop that reverses, on what is reversed already
unfoldable pub reverse_onto : List (ℕ × ℕ) → List (ℕ × ℕ) → List (ℕ × ℕ)
reverse_onto [] out = out
reverse_onto (a ∷ anchors) out = reverse_onto anchors (a ∷ out)

abbrev same_elem : Option ℕ → Option ℕ → Bool
same_elem (some x) (some y) = x == y
same_elem _ _ = false

-- a[i] == b[j]
abbrev pub same_at : List ℕ → List ℕ → ℕ → ℕ → Bool
same_at a b i j = same_elem (get_elem? a i) (get_elem? b j)

unfoldable pub lcs_by_hash : List ℕ → List ℕ → List (ℕ × ℕ)
lcs_by_hash a b = reverse_onto (backtrack (same_at a b) (length a) (length b)) []

unfoldable pub hash_all : (Bytes → ℕ) → List Bytes → List ℕ
hash_all hash [] = []
hash_all hash (b ∷ blocks) = hash b ∷ hash_all hash blocks

-- newSeq[n] = op; oldUsed[o] = true
unfoldable pub link : NewOp → ℕ → ℕ → Plan → Plan
link op o n p = record { new_seq = set p.new_seq n op; old_used = set p.old_used o true }

-- oldUsed[o]
abbrev pub is_used : List Bool → ℕ → Bool
is_used used o = elim (get_elem? used o) [ none ↦ false | some b ↦ b ]

abbrev is_insert_op : NewOp → Bool
is_insert_op insert = true
is_insert_op _ = false

-- newSeq[n].Kind == OpInsert
abbrev pub is_insert : List NewOp → ℕ → Bool
is_insert ops n = elim (get_elem? ops n) [ none ↦ false | some op ↦ is_insert_op op ]

abbrev differ : Bool → Bool → Bool
differ true b = not b
differ false b = b

-- a pair crosses an accepted one
unfoldable pub conflicts : ℕ → ℕ → List (ℕ × ℕ) → Bool
conflicts o n [] = false
conflicts o n ((o', n') ∷ accepted) =
    if differ (ltb o o') (ltb n n') then true else conflicts o n accepted

-- usedOld and usedNew: the indices of the accepted pairs
unfoldable pub takes_old : ℕ → List (ℕ × ℕ) → Bool
takes_old o [] = false
takes_old o ((o', n') ∷ accepted) = if o' == o then true else takes_old o accepted

unfoldable pub takes_new : ℕ → List (ℕ × ℕ) → Bool
takes_new n [] = false
takes_new n ((o', n') ∷ accepted) = if n' == n then true else takes_new n accepted

-- the loop over the scored pairs
unfoldable pub greedy : List (ℕ × ℕ) → List (ℕ × ℕ) → Plan → List (ℕ × ℕ) × Plan
greedy [] accepted p = (accepted, p)
greedy ((o, n) ∷ pairs) accepted p =
    let skipped = greedy pairs accepted p in
    let taken = greedy pairs ((o, n) ∷ accepted) (link (update o) o n p) in
    if takes_old o accepted || takes_new n accepted
    then skipped
    else if conflicts o n accepted
    then skipped
    else taken

-- lo, …, lo + count - 1
unfoldable pub range_from : ℕ → ℕ → List ℕ
range_from lo zero = []
range_from lo (suc count) = lo ∷ range_from (suc lo) count

unfoldable pub leftover_old : List Bool → List ℕ → List ℕ
leftover_old used [] = []
leftover_old used (o ∷ os) =
    let rest = leftover_old used os in if not (is_used used o) then o ∷ rest else rest

unfoldable pub leftover_new : List NewOp → List ℕ → List ℕ
leftover_new ops [] = []
leftover_new ops (n ∷ ns) =
    let rest = leftover_new ops ns in if is_insert ops n then n ∷ rest else rest

-- oldUsed[o] is false
unfoldable pub unused_from : ℕ → List Bool → List ℕ
unused_from o [] = []
unused_from o (used ∷ rest) =
    let later = unused_from (suc o) rest in if not used then o ∷ later else later

module _ (old new : List Bytes) where
  -- both blocks hold text
  abbrev pub both_filled : Option Bytes → Option Bytes → Bool
  both_filled (some a) (some b) = not (is_empty a) && not (is_empty b)
  both_filled _ _ = false

  -- the loop over what is left over, position by position
  unfoldable pub pair_leftovers : List ℕ → List ℕ → List (ℕ × ℕ) → Plan → Plan
  pair_leftovers [] ns accepted p = p
  pair_leftovers (o ∷ os) [] accepted p = p
  pair_leftovers (o ∷ os) (n ∷ ns) accepted p =
      let skipped = pair_leftovers os ns accepted p in
      let taken = pair_leftovers os ns ((o, n) ∷ accepted) (link (update o) o n p) in
      if both_filled (get_elem? old o) (get_elem? new n)
      then skipped
      else if conflicts o n accepted
      then skipped
      else taken

unfoldable pub equal_mass : List (Bool × Bytes) → ℕ
equal_mass [] = 0
equal_mass ((equal, text) ∷ diffs) =
    let rest = equal_mass diffs in if equal then length text + rest else rest

module _ (scoring : Scoring) where
  open scoring use {Score, lt, nothing, identical, ratio, diff_main}

  unfoldable pub similarity : Bytes → Bytes → Score
  similarity a b =
      if eq_bytes a b
      then identical
      else if is_empty a || is_empty b
      then nothing
      else ratio (equal_mass (diff_main a b)) (length a + length b)

  similarity_at : Option Bytes → Option Bytes → Score
  similarity_at (some a) (some b) = similarity a b
  similarity_at _ _ = nothing

  -- the inner loop over `n`, and the outer one over `o`
  scored_row : List Bytes → List Bytes → Score → ℕ → List ℕ → List ((ℕ × ℕ) × Score)
  scored_row old new threshold o [] = []
  scored_row old new threshold o (n ∷ ns) =
      let rest = scored_row old new threshold o ns in
      let s = similarity_at (get_elem? old o) (get_elem? new n) in
      if lt s threshold then rest else ((o, n), s) ∷ rest

  scored_pairs : List Bytes → List Bytes → Score → List ℕ → List ℕ → List ((ℕ × ℕ) × Score)
  scored_pairs old new threshold [] ns = []
  scored_pairs old new threshold (o ∷ os) ns =
      scored_row old new threshold o ns ++ scored_pairs old new threshold os ns

  -- sortPairsDescending: a pair goes in front of the ones with a smaller score
  insert_pair : (ℕ × ℕ) × Score → List ((ℕ × ℕ) × Score) → List ((ℕ × ℕ) × Score)
  insert_pair p [] = p ∷ []
  insert_pair p (q ∷ qs) = if lt q.1 p.1 then p ∷ q ∷ qs else q ∷ insert_pair p qs

  sort_onto : List ((ℕ × ℕ) × Score) → List ((ℕ × ℕ) × Score) → List ((ℕ × ℕ) × Score)
  sort_onto [] sorted = sorted
  sort_onto (p ∷ ps) sorted = sort_onto ps (insert_pair p sorted)

  indices : List ((ℕ × ℕ) × Score) → List (ℕ × ℕ)
  indices [] = []
  indices ((i, s) ∷ ps) = i ∷ indices ps

  -- the pairs of a gap at or above the threshold, the best first
  unfoldable pub candidates : List Bytes → List Bytes → Score → List ℕ → List ℕ → List (ℕ × ℕ)
  unfolding scored_pairs scored_row similarity_at insert_pair sort_onto indices
  candidates old new threshold os ns = indices (sort_onto (scored_pairs old new threshold os ns) [])

  unfoldable pub fill_gap : List Bytes → List Bytes → Score → ℕ → ℕ → ℕ → ℕ → Plan → Plan
  fill_gap old new threshold old_lo old_hi new_lo new_hi p =
      let os = range_from old_lo (old_hi - old_lo) in
      let ns = range_from new_lo (new_hi - new_lo) in
      let (accepted, q) = greedy (candidates old new threshold os ns) [] p in
      let paired =
        pair_leftovers old new (leftover_old q.old_used os) (leftover_new q.new_seq ns) accepted
          q in
      if leb old_hi old_lo || leb new_hi new_lo then p else paired

  -- the gaps before each anchor, and the last one; `old_lo` is prevOld + 1
  unfoldable pub fill_gaps : List Bytes → List Bytes → Score → List (ℕ × ℕ) → ℕ → ℕ → Plan → Plan
  fill_gaps old new threshold [] old_lo new_lo p =
      fill_gap old new threshold old_lo (length old) new_lo (length new) p
  fill_gaps old new threshold ((o, n) ∷ anchors) old_lo new_lo p =
      fill_gaps old new threshold anchors (suc o) (suc n)
        (fill_gap old new threshold old_lo o new_lo n p)

-- the loop that keeps the anchors
unfoldable pub keep_anchors : List (ℕ × ℕ) → Plan → Plan
keep_anchors [] p = p
keep_anchors ((o, n) ∷ anchors) p = keep_anchors anchors (link (keep o) o n p)

abbrev pub no_plan : List Bytes → List Bytes → Plan
no_plan old new = record {
  new_seq = replicate (length new) insert;
  old_used = replicate (length old) false;
}

module _ (scoring : Scoring) (hash : Bytes → ℕ) where
  open scoring use {Score}

  unfoldable pub diff_with_threshold : List Bytes → List Bytes → Score → DiffResult
  diff_with_threshold old new threshold =
      let anchors = lcs_by_hash (hash_all hash old) (hash_all hash new) in
      let p =
        fill_gaps scoring old new threshold anchors 0 0 (keep_anchors anchors (no_plan old new)) in
      record { new_seq = p.new_seq; deletes = unused_from 0 p.old_used }
