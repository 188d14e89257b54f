-- ===== src/Markdown/Diff/Lcs.antt =====
-- The anchors of the diff are a longest common subsequence.
use any.Common.{
  ℕ, zero, suc, ◌+◌, ◌<◌, ◌≤◌, Bool, true, false, List, [], ◌∷◌, length, ltb, leb, ◌≡◌, refl, arith,
  Bool-cases, inl, inr,
}
use any.Markdown.Diff.{cell, backtrack, reverse_onto, same_at, lcs_by_hash}

module _ (same : ℕ → ℕ → Bool) where
  -- Pairs of positions that agree, from the last on, before the positions `m` and `n`.
  abbrev pub Descends : ℕ → ℕ → List (ℕ × ℕ) → Type 0
  Descends m n [] = Unit
  Descends m n ((i, j) ∷ out) = (i < m) × (j < n) × (same i j ≡ true) × Descends i j out

  Descends-le :
      (m n m' n' : ℕ) (out : List (ℕ × ℕ)) → m ≤ m' → n ≤ n' → Descends m n out → Descends m' n' out
  Descends-le m n m' n' [] h k d = tt
  Descends-le m n m' n' ((i, j) ∷ out) h k (a, b, c, d) = (omega arith, omega arith, c, d)

  length-backtrack : (i j : ℕ) → length (backtrack same i j) ≡ cell same i j
  unfolding backtrack cell
  length-backtrack zero j = refl
  length-backtrack (suc i) zero = refl
  length-backtrack (suc i) (suc j) =
      ground (arith, length-backtrack i j, length-backtrack i (suc j), length-backtrack (suc i) j)

  backtrack-Descends : (i j : ℕ) → Descends i j (backtrack same i j)
  unfolding backtrack
  backtrack-Descends zero j = tt
  backtrack-Descends (suc i) zero = tt
  backtrack-Descends (suc i) (suc j) = elim (Bool-cases (same i j)) [
    | inl e ↦ rw e (omega arith, omega arith, e, backtrack-Descends i j)
    | inr e ↦ elim (Bool-cases (leb (cell same (suc i) j) (cell same i (suc j)))) [
      | inl k ↦
          rw (e, k)
            (Descends-le i (suc j) (suc i) (suc j) (backtrack same i (suc j)) (omega arith)
              (omega arith) (backtrack-Descends i (suc j)))
      | inr k ↦
          rw (e, k)
            (Descends-le (suc i) j (suc i) (suc j) (backtrack same (suc i) j) (omega arith)
              (omega arith) (backtrack-Descends (suc i) j))
    ]
  ]

  cell_bounds :
      (i j : ℕ)
      → same i j ≡ false
      → (cell same i (suc j) ≤ cell same (suc i) (suc j))
        × (cell same (suc i) j ≤ cell same (suc i) (suc j))
  unfolding cell
  cell_bounds i j e = ground arith

  cell_same : (i j : ℕ) → same i j ≡ true → cell same (suc i) (suc j) ≡ cell same i j + 1
  unfolding cell
  cell_same i j e = rw e

  -- No common subsequence is longer than the cell says.
  length-le-cell : (m n : ℕ) (out : List (ℕ × ℕ)) → Descends m n out → length out ≤ cell same m n
  length-le-cell m n [] d = omega arith
  length-le-cell zero n ((i, j) ∷ out) (a, b, c, d) = absurd (omega arith)
  length-le-cell (suc m) zero ((i, j) ∷ out) (a, b, c, d) = absurd (omega arith)
  length-le-cell (suc m) (suc n) ((i, j) ∷ out) (a, b, c, d) = elim (Bool-cases (same m n)) [
    | inl e ↦ omega (
      arith,
      cell_same m n e,
      length-le-cell m n out (Descends-le i j m n out (omega arith) (omega arith) d),
    )
    | inr e ↦ elim (Bool-cases (ltb i m)) [
      | inl k ↦ omega (
        arith,
        (cell_bounds m n e).0,
        length-le-cell m (suc n) ((i, j) ∷ out) (ground arith, b, c, d),
      )
      | inr k ↦
          let here : i ≡ m = ground arith in
          elim (Bool-cases (ltb j n)) [
            | inl l ↦ omega (
              arith,
              (cell_bounds m n e).1,
              length-le-cell (suc m) n ((i, j) ∷ out) (a, ground arith, c, d),
            )
            | inr l ↦ let there : j ≡ n = ground arith in cc (rw (here, there) at c)
          ]
    ]
  ]

  -- Pairs of positions that agree, in ascending order, from the positions `lo_i` and `lo_j` on and
  -- before `m` and `n`.
  abbrev pub Ascends : ℕ → ℕ → ℕ → ℕ → List (ℕ × ℕ) → Type 0
  Ascends lo_i lo_j m n [] = Unit
  Ascends lo_i lo_j m n ((i, j) ∷ out) =
      (lo_i ≤ i)
      × (lo_j ≤ j)
      × (i < m)
      × (j < n)
      × (same i j ≡ true)
      × Ascends (suc i) (suc j) m n out

  pub Ascends-le :
      (i j i' j' m n : ℕ) (out : List (ℕ × ℕ))
      → i' ≤ i
      → j' ≤ j
      → Ascends i j m n out
      → Ascends i' j' m n out
  Ascends-le i j i' j' m n [] h k a = tt
  Ascends-le i j i' j' m n ((x, y) ∷ out) h k (p, q, r, s, e, a) =
      (omega arith, omega arith, r, s, e, a)

  Ascends-reverse_onto :
      (i j m n : ℕ) (out acc : List (ℕ × ℕ))
      → Descends i j out
      → i ≤ m
      → j ≤ n
      → Ascends i j m n acc
      → Ascends 0 0 m n (reverse_onto out acc)
  unfolding reverse_onto
  Ascends-reverse_onto i j m n [] acc d h k a =
      Ascends-le i j 0 0 m n acc (omega arith) (omega arith) a
  Ascends-reverse_onto i j m n ((x, y) ∷ out) acc (p, q, s, d) h k a =
      Ascends-reverse_onto x y m n out ((x, y) ∷ acc) d (omega arith) (omega arith) (
        omega arith,
        omega arith,
        omega arith,
        omega arith,
        s,
        Ascends-le i j (suc x) (suc y) m n acc (omega arith) (omega arith) a,
      )

  length-reverse_onto :
      (out acc : List (ℕ × ℕ)) → length (reverse_onto out acc) ≡ length out + length acc
  unfolding reverse_onto
  length-reverse_onto [] acc = omega arith
  length-reverse_onto (x ∷ out) acc = omega (arith, length-reverse_onto out (x ∷ acc))

  Descends-reverse_onto :
      (i j m n : ℕ) (out acc : List (ℕ × ℕ))
      → Ascends i j m n out
      → Descends i j acc
      → i ≤ m
      → j ≤ n
      → Descends m n (reverse_onto out acc)
  unfolding reverse_onto
  Descends-reverse_onto i j m n [] acc a d h k = Descends-le i j m n acc h k d
  Descends-reverse_onto i j m n ((x, y) ∷ out) acc (p, q, r, s, e, a) d h k =
      Descends-reverse_onto (suc x) (suc y) m n out ((x, y) ∷ acc) a
        (omega arith, omega arith, e, Descends-le i j x y acc (omega arith) (omega arith) d)
        (omega arith) (omega arith)

-- The anchors of lcsByHash are pairs of positions with equal hashes, ascending on both sides, and there
-- are no more such pairs in any other ascending sequence.
pub lcs_by_hash-IsLongest :
    (a b : List ℕ)
    → Ascends (same_at a b) 0 0 (length a) (length b) (lcs_by_hash a b)
      × ((other : List (ℕ × ℕ))
          → Ascends (same_at a b) 0 0 (length a) (length b) other
          → length other ≤ length (lcs_by_hash a b))
unfolding lcs_by_hash
lcs_by_hash-IsLongest a b =
    let same = same_at a b in
    let m = length a in
    let n = length b in
    let found = backtrack same m n in
    (
      Ascends-reverse_onto same m n m n found [] (backtrack-Descends same m n) (omega arith)
          (omega arith) tt,
      λ other h. omega (
        arith,
        length-reverse_onto same found [],
        length-backtrack same m n,
        length-reverse_onto same other [],
        length-le-cell same m n (reverse_onto other [])
            (Descends-reverse_onto same 0 0 m n other [] h tt (omega arith) (omega arith)),
      ),
    )
