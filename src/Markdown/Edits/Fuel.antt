-- ===== src/Markdown/Edits/Fuel.antt =====
-- The matchers of edits end by themselves.
use any.Common.{
  ℕ, zero, suc, ◌+◌, ◌≤◌, List, [], ◌∷◌, none, Bytes, length, drop, false, ◌≡◌, refl, ap, arith,
  Option-cases, inl, inr,
}
use any.Strings.{is_empty, index}
use any.Strings.Laws.{index-length, length-drop}
use any.Markdown.Edits.{exact_loop}

index-nil : (old : Bytes) → is_empty old ≡ false → index [] old ≡ none
unfolding index
index-nil [] h = cc
index-nil (c ∷ old) h = refl

filled-length : (old : Bytes) → is_empty old ≡ false → 1 ≤ length old
filled-length [] h = cc
filled-length (c ∷ old) h = omega arith

-- The exact matcher, given as many rounds as the text has bytes or more, ends by itself for a text
-- searched that is not empty: more rounds find nothing more.
pub exact_loop_fuel :
    (f g from : ℕ) (rest old : Bytes)
    → is_empty old ≡ false
    → length rest ≤ f
    → length rest ≤ g
    → exact_loop f from rest old ≡ exact_loop g from rest old
unfolding exact_loop
exact_loop_fuel zero zero from rest old h hf hg = refl
exact_loop_fuel zero (suc g) from [] old h hf hg = rw (index-nil old h, exact_loop) refl
exact_loop_fuel zero (suc g) from (c ∷ rest) old h hf hg = absurd (omega arith)
exact_loop_fuel (suc f) zero from [] old h hf hg = rw (index-nil old h, exact_loop) refl
exact_loop_fuel (suc f) zero from (c ∷ rest) old h hf hg = absurd (omega arith)
exact_loop_fuel (suc f) (suc g) from rest old h hf hg = elim (Option-cases (index rest old)) [
  | inl e ↦ rw (e, exact_loop) refl
  | inr (i, e) ↦
      let room : i + length old ≤ length rest = index-length rest old i e in
      let shorter = length-drop (i + length old) rest room in
      let filled = filled-length old h in
      rw (e, exact_loop)
        (ap (λ (ms : List (ℕ × ℕ)). (from + i, from + i + length old) ∷ ms)
          (exact_loop_fuel f g (from + i + length old) (drop (i + length old) rest) old h
            (omega arith) (omega arith)))
]
