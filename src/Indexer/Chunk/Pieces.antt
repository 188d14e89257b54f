-- ===== src/Indexer/Chunk/Pieces.antt =====
-- The pieces that a text is split into: how long they are, and that nothing but whitespace is lost.
use any.Common.{
  ℕ, zero, suc, ◌+◌, ◌-◌, ◌/◌, ◌≤◌, Bool, ◌&&◌, List, [], ◌∷◌, ◌++◌, Option, none, some, length,
  take, drop, max, append-nil, ltb, leb, if◌then◌else◌, if_cases, ◌≡◌, refl, sym, ap, ap₂, ◌∙◌,
  arith, All, subst,
}
use any.Strings.{is_empty, trim_right}
use any.Indexer.Chunk.{
  is_space, trim_left, trim_space, best, at, blank_line_at, sentence_end_at, is_line_break, or_else,
  break_point, add_piece, split_loop, split_text,
}

-- what is left of a text without the runes that `drops` accepts
abbrev pub without : (ℕ → Bool) → List ℕ → List ℕ
without drops [] = []
without drops (c ∷ s) = if drops c then without drops s else c ∷ without drops s

abbrev pub all_without : (ℕ → Bool) → List (List ℕ) → List ℕ
all_without drops [] = []
all_without drops (p ∷ pieces) = without drops p ++ all_without drops pieces

module _ (drops : ℕ → Bool) where
  without-append : (s t : List ℕ) → without drops (s ++ t) ≡ without drops s ++ without drops t
  without-append [] t = refl
  without-append (c ∷ s) t = ground (arith, without-append s t)

  without-trim_left : (s : List ℕ) → without drops (trim_left drops s) ≡ without drops s
  unfolding trim_left
  without-trim_left [] = refl
  without-trim_left (c ∷ s) = ground (arith, without-trim_left s)

  without-trim_right : (s : List ℕ) → without drops (trim_right drops s) ≡ without drops s
  unfolding trim_right
  without-trim_right [] = refl
  without-trim_right (c ∷ s) = of_rest (trim_right drops s) (without-trim_right s)
    where
      of_rest :
          (rest : List ℕ)
          → without drops rest ≡ without drops s
          → without drops (if is_empty rest && drops c then [] else c ∷ rest)
            ≡ without drops (c ∷ s)
      of_rest [] h = ground (arith, h)
      of_rest (d ∷ rest) h = ground (arith, h)

  length-trim_left : (s : List ℕ) → length (trim_left drops s) ≤ length s
  unfolding trim_left
  length-trim_left [] = omega arith
  length-trim_left (c ∷ s) = ground (arith, length-trim_left s)

  length-trim_right : (s : List ℕ) → length (trim_right drops s) ≤ length s
  unfolding trim_right
  length-trim_right [] = omega arith
  length-trim_right (c ∷ s) = ground (arith, length-trim_right s)

without-trim_space : (s : List ℕ) → without is_space (trim_space s) ≡ without is_space s
unfolding trim_space
without-trim_space s =
    without-trim_right is_space (trim_left is_space s) ∙ without-trim_left is_space s

length-trim_space : (s : List ℕ) → length (trim_space s) ≤ length s
unfolding trim_space
length-trim_space s =
    omega (arith, length-trim_right is_space (trim_left is_space s), length-trim_left is_space s)

best_range : (ok : ℕ → Bool) (half n i : ℕ) → best ok half n ≡ some i → (1 ≤ i) × (i ≤ n)
unfolding best
best_range ok half zero i h = cc
best_range ok half (suc n) i h = ground (arith, best_range ok half n i)

or_else_range :
    (o : Option ℕ) (n other : ℕ)
    → ((i : ℕ) → o ≡ some i → (1 ≤ i) × (i ≤ n))
    → (1 ≤ other) × (other ≤ n)
    → (1 ≤ or_else o other) × (or_else o other ≤ n)
or_else_range none n other h k = k
or_else_range (some i) n other h k = h i refl

pub break_point_range :
    (window : List ℕ)
    → 1 ≤ length window
    → (1 ≤ break_point window) × (break_point window ≤ length window)
unfolding break_point
break_point_range window h =
    let len = length window in
    let half = len / 2 in
    or_else_range (best (blank_line_at window) half len) len _
      (best_range (blank_line_at window) half len)
      (or_else_range (best (at window is_line_break) half len) len _
        (best_range (at window is_line_break) half len)
        (or_else_range (best (sentence_end_at window) half len) len _
          (best_range (sentence_end_at window) half len)
          (or_else_range (best (at window is_space) half len) len len
            (best_range (at window is_space) half len) (h, omega arith))))

length-take : (n : ℕ) (s : List ℕ) → n ≤ length s → length (take n s) ≡ n
length-take zero s h = refl
length-take (suc n) [] h = absurd (omega arith)
length-take (suc n) (c ∷ s) h = omega (arith, length-take n s)

pub length-take-le : (n : ℕ) (s : List ℕ) → length (take n s) ≤ n
length-take-le zero s = omega arith
length-take-le (suc n) [] = omega arith
length-take-le (suc n) (c ∷ s) = omega (arith, length-take-le n s)

length-drop : (n : ℕ) (s : List ℕ) → length (drop n s) ≡ length s - n
length-drop zero s = omega arith
length-drop (suc n) [] = omega arith
length-drop (suc n) (c ∷ s) = omega (arith, length-drop n s)

take-drop : (n : ℕ) (s : List ℕ) → take n s ++ drop n s ≡ s
take-drop zero s = refl
take-drop (suc n) [] = refl
take-drop (suc n) (c ∷ s) = ap (λ (t : List ℕ). c ∷ t) (take-drop n s)

-- Pieces of at most `max_runes` runes, which are all of the text but whitespace, in its order.
pub record IsSplit (max_runes : ℕ) (text : List ℕ) (pieces : List (List ℕ)) : Type 0 where
  pub fits : All (λ p. length p ≤ max_runes) pieces
  pub whole : all_without is_space pieces ≡ without is_space text

add_piece-IsSplit :
    (max_runes : ℕ) (head tail : List ℕ) (pieces : List (List ℕ))
    → length head ≤ max_runes
    → IsSplit max_runes tail pieces
    → IsSplit max_runes (head ++ tail) (add_piece (trim_space head) pieces)
add_piece-IsSplit max_runes head tail pieces h s =
    of_piece (trim_space head) (without-trim_space head) (length-trim_space head)
  where
    of_piece :
        (p : List ℕ)
        → without is_space p ≡ without is_space head
        → length p ≤ length head
        → IsSplit max_runes (head ++ tail) (add_piece p pieces)
    of_piece [] e l = record {
      fits = s.fits;
      whole =
          s.whole
          ∙ sym (
              without-append is_space head tail
              ∙ ap (λ (t : List ℕ). t ++ without is_space tail) (sym e));
    }
    of_piece (c ∷ p) e l = record {
      fits = (omega arith, s.fits);
      whole = ap₂ ◌++◌ e s.whole ∙ sym (without-append is_space head tail);
    }

last-IsSplit :
    (max_runes : ℕ) (rest : List ℕ)
    → length rest ≤ max_runes
    → IsSplit max_runes rest (add_piece (trim_space rest) [])
last-IsSplit max_runes rest h =
    subst (λ (t : List ℕ). IsSplit max_runes t (add_piece (trim_space rest) [])) (append-nil rest)
      (add_piece-IsSplit max_runes rest [] [] h (record { fits = tt; whole = refl }))

split_loop-IsSplit :
    (fuel max_runes : ℕ) (rest : List ℕ)
    → 1 ≤ max_runes
    → length rest ≤ fuel + max_runes
    → IsSplit max_runes rest (split_loop fuel max_runes rest)
unfolding split_loop
split_loop-IsSplit zero max_runes rest m h = last-IsSplit max_runes rest (omega arith)
split_loop-IsSplit (suc fuel) max_runes rest m h =
    if_cases (IsSplit max_runes rest) (ltb max_runes (length rest)) _ _
      (λ e.
        let window = length-take max_runes rest (ground arith) in
        let (low, high) = break_point_range (take max_runes rest) (omega arith) in
        let stop = break_point (take max_runes rest) in
        subst
          (λ (t : List ℕ).
            IsSplit max_runes t (
              add_piece (trim_space (take stop rest)) (split_loop fuel max_runes (drop stop rest))))
          (take-drop stop rest)
          (add_piece-IsSplit max_runes (take stop rest) (drop stop rest) _
            (omega (arith, length-take-le stop rest))
            (split_loop-IsSplit fuel max_runes (drop stop rest) m
              (omega (arith, length-drop stop rest)))))
      (λ e. last-IsSplit max_runes rest (ground arith))

-- splitText, which ends by itself: its pieces have at most `max_runes` runes, or one for a bound of 0,
-- and joined they are the text but for whitespace.
pub split_text-IsSplit :
    (text : List ℕ) (max_runes : ℕ) → IsSplit (max max_runes 1) text (split_text text max_runes)
unfolding split_text
split_text-IsSplit text max_runes =
    let bound = if ltb max_runes 1 then 1 else max_runes in
    let same : bound ≡ max max_runes 1 = ground arith in
    subst (λ (m : ℕ). IsSplit m text (split_text text max_runes)) same
      (if_cases (IsSplit bound text) (leb (length text) bound) _ _
        (λ e. record { fits = (ground arith, tt); whole = append-nil (without is_space text) })
        (λ e. split_loop-IsSplit (length text) bound text (ground arith) (omega arith)))
