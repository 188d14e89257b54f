-- ===== src/Editor/Lexids/Runs.antt =====
-- The positions of a run stand in order between two neighbours.
use any.Common.{
  ℕ, zero, suc, true, false, ◌&&◌, ◌||◌, List, [], ◌∷◌, Option, none, some, Bytes, length, ◌≡◌,
  refl, ap, arith, if_cases,
}
use any.Strings.{bytes_lt, is_empty}
use any.Editor.Lexids.{Lexid, add_first, run_after, run_between, allocate_run}

-- What the package says of its allocator: a position behind one sorts behind it, a position between two
-- sorts between them, and the middle is not empty.
pub record IsLexid (lexid : Lexid) : Type 0 where
  pub middle_filled : is_empty lexid.middle ≡ false
  pub next_after : (prev : Bytes) → bytes_lt prev (lexid.next prev) ≡ true
  pub between :
      (prev next id : Bytes)
      → is_empty next ≡ false
      → lexid.next_before prev next ≡ some id
      → (bytes_lt prev id ≡ true) × (bytes_lt id next ≡ true)

-- ascending from `prev` on, and below `next` unless this is empty
abbrev pub Between : Bytes → Bytes → List Bytes → Type 0
Between prev next [] = Unit
Between prev next (id ∷ ids) =
    (bytes_lt prev id ≡ true) × ((is_empty next || bytes_lt id next) ≡ true) × Between id next ids

-- `count` such positions; an error only below a `next`
abbrev pub IsRun : Bytes → Bytes → ℕ → Option (List Bytes) → Type 0
IsRun prev next count none = is_empty next ≡ false
IsRun prev next count (some ids) = (length ids ≡ count) × Between prev next ids

module _ (lexid : Lexid) (law : IsLexid lexid) where
  run_after-Between :
      (prev next : Bytes) (count : ℕ)
      → is_empty next ≡ true
      → (length (run_after lexid prev count) ≡ count)
        × Between prev next (run_after lexid prev count)
  unfolding run_after
  run_after-Between prev next zero h = (refl, tt)
  run_after-Between prev next (suc count) h =
      let (l, b) = run_after-Between (lexid.next prev) next count h in
      (ap suc l, (law.next_after prev, ground arith, b))

  run_between-IsRun :
      (prev next : Bytes) (count : ℕ)
      → is_empty next ≡ false
      → IsRun prev next count (run_between lexid prev next count)
  unfolding run_between
  run_between-IsRun prev next zero h = (refl, tt)
  run_between-IsRun prev next (suc count) h =
      of_id (lexid.next_before prev next) refl (λ id. run_between-IsRun id next count h)
    where
      of_rest :
          (id : Bytes) (o : Option (List Bytes))
          → (bytes_lt prev id ≡ true) × (bytes_lt id next ≡ true)
          → IsRun id next count o
          → IsRun prev next (suc count) (add_first lexid id o)
      of_rest id none p r = h
      of_rest id (some ids) (p, q) (l, b) = (ap suc l, (p, ground arith, b))

      of_id :
          (o : Option Bytes)
          → lexid.next_before prev next ≡ o
          → ((id : Bytes) → IsRun id next count (run_between lexid id next count))
          → IsRun prev next (suc count) (elim o [
            | none ↦ none
            | some id ↦ add_first lexid id (run_between lexid id next count)
          ])
      of_id none e rest = h
      of_id (some id) e rest =
          of_rest id (run_between lexid id next count) (law.between prev next id h e) (rest id)

  filled_after : (s : Bytes) → is_empty s ≡ false → bytes_lt [] s ≡ true
  unfolding bytes_lt
  filled_after [] h = cc
  filled_after (c ∷ s) h = refl

  empty_is_nil : (s : Bytes) → is_empty s ≡ true → s ≡ []
  empty_is_nil [] h = refl
  empty_is_nil (c ∷ s) h = cc

  -- AllocateRun gives as many positions as asked for, in ascending order, behind `prev` and before
  -- `next`, where an empty one is no bound, and an error only where there is a `next`.
  pub allocate_run-IsRun :
      (prev next : Bytes) (count : ℕ) → IsRun prev next count (allocate_run lexid prev next count)
  unfolding allocate_run
  allocate_run-IsRun prev next zero = (refl, tt)
  allocate_run-IsRun prev next (suc count) =
      if_cases (IsRun prev next (suc count)) (is_empty prev && is_empty next) _ _
        (λ e.
          let (l, b) = run_after-Between lexid.middle next count (ground arith) in
          (
            ap suc l,
            (
              rw (empty_is_nil prev (ground arith)) (filled_after lexid.middle law.middle_filled),
              ground arith,
              b,
            ),
          ))
        (λ e.
          if_cases (IsRun prev next (suc count)) (is_empty next) _ _
            (λ k. run_after-Between prev next (suc count) k)
            (λ k. run_between-IsRun prev next (suc count) k))
