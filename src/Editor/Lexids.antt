-- ===== src/Editor/Lexids.antt =====
-- internal/editor/lexids.go: positions of blocks, which sort as strings. The allocator of the package
-- lexid is a parameter; the proofs are in the module below.
pub mod Runs
use any.Common.{
  ℕ, zero, suc, Bool, true, false, not, ◌&&◌, List, [], ◌∷◌, Option, none, some, Bytes, length,
  if◌then◌else◌, ◌≡◌, ◌≢◌, refl, sym, ap, ◌∙◌, arith, Option-cases, inl, inr, Bool-cases, if_cases,
  All,
}
use any.Strings.{bytes_lt, is_empty}

-- lexid.Lexid; `none` is an error
pub record Lexid : Type 0 where
  pub middle : Bytes
  pub next : Bytes → Bytes
  pub next_before : Bytes → Bytes → Option Bytes

module _ (lexid : Lexid) where
  unfoldable pub next_pos : Bytes → Bytes
  next_pos prev = if is_empty prev then lexid.middle else lexid.next prev

  -- the loops with Next: `count` positions behind `prev`
  unfoldable pub run_after : Bytes → ℕ → List Bytes
  run_after prev zero = []
  run_after prev (suc count) = lexid.next prev ∷ run_after (lexid.next prev) count

  -- the loops with NextBefore, which stop at an error
  add_first : Bytes → Option (List Bytes) → Option (List Bytes)
  add_first id none = none
  add_first id (some ids) = some (id ∷ ids)

  unfoldable pub run_between : Bytes → Bytes → ℕ → Option (List Bytes)
  unfolding add_first
  run_between prev next zero = some []
  run_between prev next (suc count) = elim (lexid.next_before prev next) [
    | none ↦ none
    | some id ↦ add_first id (run_between id next count)
  ]

  unfoldable pub allocate_run : Bytes → Bytes → ℕ → Option (List Bytes)
  unfolding run_after run_between
  allocate_run prev next zero = some []
  allocate_run prev next (suc count) =
      if is_empty prev && is_empty next
      then some (lexid.middle ∷ run_after lexid.middle count)
      else if is_empty next
      then some (lexid.next prev ∷ run_after (lexid.next prev) count)
      else run_between prev next (suc count)
