-- ===== src/Markdown/Diff/Accepted.antt =====
-- The pairs of a gap that were accepted already.
use any.Common.{
  ℕ, ◌<◌, Bool, true, false, ◌&&◌, ◌||◌, List, [], ◌∷◌, ◌==◌, ltb, ◌≡◌, ◌≢◌, arith, ◌⊎◌, inl, inr,
  Bool-cases,
}
use any.Markdown.Diff.{conflicts, takes_old, takes_new}

-- the pair is one of those accepted
abbrev pub has : List (ℕ × ℕ) → ℕ → ℕ → Bool
has [] o n = false
has ((o', n') ∷ accepted) o n = (o' == o && n' == n) || has accepted o n

pub takes_old-has :
    (o o' n' : ℕ) (acc : List (ℕ × ℕ)) → takes_old o acc ≡ false → has acc o' n' ≡ true → o' ≢ o
unfolding takes_old
takes_old-has o o' n' [] t h = cc
takes_old-has o o' n' ((x, y) ∷ acc) t h = ground (arith, takes_old-has o o' n' acc)

pub takes_new-has :
    (n o' n' : ℕ) (acc : List (ℕ × ℕ)) → takes_new n acc ≡ false → has acc o' n' ≡ true → n' ≢ n
unfolding takes_new
takes_new-has n o' n' [] t h = cc
takes_new-has n o' n' ((x, y) ∷ acc) t h = ground (arith, takes_new-has n o' n' acc)

-- a pair that conflicts with none of the accepted has the same order on both sides
pub conflicts-has :
    (o n o' n' : ℕ) (acc : List (ℕ × ℕ))
    → conflicts o n acc ≡ false
    → has acc o' n' ≡ true
    → o ≢ o'
    → n ≢ n'
    → ((n' < n) × (o' < o)) ⊎ ((n < n') × (o < o'))
unfolding conflicts
conflicts-has o n o' n' [] c h p q = cc
conflicts-has o n o' n' ((x, y) ∷ acc) c h p q = elim (Bool-cases (x == o' && y == n')) [
  | inl e ↦ elim (Bool-cases (ltb n n')) [
    | inl l ↦ inr (ground arith, ground arith)
    | inr l ↦ inl (ground arith, ground arith)
  ]
  | inr e ↦ conflicts-has o n o' n' acc (ground arith) (ground arith) p q
]
