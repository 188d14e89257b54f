-- ===== src/Processes/Clip.antt =====
-- clipUTF8 keeps a bound and cuts no rune.
use any.Common.{
  ℕ, zero, suc, ◌≤◌, true, [], ◌∷◌, ◌++◌, Bytes, length, take, drop, leb, ◌≡◌, ◌⊎◌, inl, inr, refl,
  sym, ap, arith, Bool-cases, if_cases, append-nil,
}
use any.Processes.{clip_utf8, clip_at, starts_rune}

take-drop : (n : ℕ) (s : Bytes) → s ≡ take n s ++ drop n s
take-drop zero s = refl
take-drop (suc n) [] = refl
take-drop (suc n) (c ∷ s) = ap (λ (t : Bytes). c ∷ t) (take-drop n s)

length-take-le : (n : ℕ) (s : Bytes) → length (take n s) ≤ n
length-take-le zero s = omega arith
length-take-le (suc n) [] = omega arith
length-take-le (suc n) (c ∷ s) = omega (arith, length-take-le n s)

clip_at-le : (max : ℕ) (s : Bytes) → clip_at max s ≤ max
unfolding clip_at
clip_at-le zero s = omega arith
clip_at-le (suc max) s = ground (arith, clip_at-le max s)

clip_at_boundary :
    (max : ℕ) (s : Bytes) → (starts_rune (drop (clip_at max s) s) ≡ true) ⊎ (clip_at max s ≡ 0)
unfolding clip_at
clip_at_boundary zero s = inr refl
clip_at_boundary (suc max) s = elim (Bool-cases (starts_rune (drop (suc max) s))) [
  | inl e ↦ rw e (inl e)
  | inr e ↦ rw e (clip_at_boundary max s)
]

-- what was cut off
pub record IsClipped (s : Bytes) (max : ℕ) (t : Bytes) : Type 0 where
  pub rest : Bytes
  pub bound : length t ≤ max
  pub prefix : s ≡ t ++ rest
  pub boundary : (starts_rune rest ≡ true) ⊎ (t ≡ [])

-- clipUTF8 returns a beginning of the text of at most `max` bytes, and what it cuts off begins with no
-- continuation byte, unless nothing is kept.
pub clip_utf8-IsClipped : (s : Bytes) (max : ℕ) → IsClipped s max (clip_utf8 s max)
unfolding clip_utf8
clip_utf8-IsClipped s max =
    if_cases (IsClipped s max) (leb (length s) max) _ _
      (λ h. record {
        rest = [];
        bound = ground arith;
        prefix = sym (append-nil s);
        boundary = inl refl;
      })
      (λ _. record {
        rest = drop (clip_at max s) s;
        bound = omega (arith, length-take-le (clip_at max s) s, clip_at-le max s);
        prefix = take-drop (clip_at max s) s;
        boundary = elim (clip_at_boundary max s) [ inl e ↦ inl e | inr e ↦ inr (rw e refl) ];
      })
