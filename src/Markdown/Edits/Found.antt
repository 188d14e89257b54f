-- ===== src/Markdown/Edits/Found.antt =====
-- The matches that edits find lie within the text.
use any.Common.{
  ℕ, zero, suc, ◌+◌, ◌≤◌, not, ◌&&◌, ◌||◌, List, [], ◌∷◌, ◌++◌, Option, none, some, Bytes, is_nil,
  length, length-append, drop, ◌==◌, ltb, leb, if_cases, ap, arith, Option-cases, inl, inr, All,
  All-append, subst,
}
use any.Strings
use any.Strings.{eq_bytes, is_empty, index, join}
use any.Strings.Laws.{index-length, length-drop, join-split}
use any.Markdown.Lines.{run_length, is_blank}
use any.Markdown.Edits.{
  Edit, Outcome, resolved, failed, Span, line_feed, normalize_lf, count_newlines_before,
  count_newlines_after, newlines_wanted, widen_block_deletion, exact_loop, exact_matches, numbered,
  normalize_fuzzy_line, fuzzy_at, fuzzy_loop, fuzzy_matches, matches_of, span_of, spans_of, gather,
}

-- a span within a text of `n` bytes
abbrev pub IsWithin : ℕ → Span → Type 0
IsWithin n s = (s.start ≤ s.stop) × (s.stop ≤ n)

-- a match within a text of `n` bytes
abbrev IsMatch : ℕ → ℕ × ℕ → Type 0
IsMatch n (a, b) = (a ≤ b) × (b ≤ n)

exact_loop-All :
    (f from n : ℕ) (rest old : Bytes)
    → from + length rest ≤ n
    → All (IsMatch n) (exact_loop f from rest old)
unfolding exact_loop
exact_loop-All zero from n rest old h = tt
exact_loop-All (suc f) from n rest old h = elim (Option-cases (index rest old)) [
  | inl e ↦ rw (e, All) tt
  | inr (i, e) ↦
      let room : i + length old ≤ length rest = index-length rest old i e in
      let shorter = length-drop (i + length old) rest room in
      rw (e, All)
        (
          (omega arith, omega arith),
          exact_loop-All f (from + i + length old) n (drop (i + length old) rest) old (omega arith),
        )
]

-- numbered lines: each begins at the offset or behind it, and ends within the text
abbrev Ascending : ℕ → ℕ → List (ℕ × Bytes) → Type 0
Ascending off n [] = Unit
Ascending off n ((start, l) ∷ ls) = (off ≤ start) × (start + length l ≤ n) × Ascending start n ls

Ascending-le : (a b n : ℕ) (ls : List (ℕ × Bytes)) → a ≤ b → Ascending b n ls → Ascending a n ls
Ascending-le a b n [] h k = tt
Ascending-le a b n ((s, l) ∷ ls) h (x, y, z) = (omega arith, y, z)

numbered-Ascending :
    (off n : ℕ) (l : Bytes) (ls : List Bytes)
    → off + length (join line_feed l ls) ≤ n
    → Ascending off n (numbered off l ls)
unfolding numbered join
numbered-Ascending off n l [] h = (omega arith, h, tt)
numbered-Ascending off n l (next ∷ ls) h =
    let e = length-append l (line_feed ∷ join line_feed next ls) in
    (
      omega arith,
      omega arith,
      Ascending-le off (off + length l + 1) n (numbered (off + length l + 1) next ls) (omega arith)
          (numbered-Ascending (off + length l + 1) n next ls (omega arith)),
    )

module _ (nfkc : Bytes → Bytes) where
  -- a match of lines from an offset on, and the lines behind it
  abbrev IsFound : ℕ → ℕ → Option (ℕ × List (ℕ × Bytes)) → Type 0
  IsFound off n none = Unit
  IsFound off n (some (stop, rest)) = (off ≤ stop) × (stop ≤ n) × Ascending off n rest

  IsFound-le :
      (a b n : ℕ) (o : Option (ℕ × List (ℕ × Bytes))) → a ≤ b → IsFound b n o → IsFound a n o
  IsFound-le a b n none h k = tt
  IsFound-le a b n (some (stop, rest)) h (x, y, z) = (omega arith, y, Ascending-le a b n rest h z)

  fuzzy_at-IsFound :
      (off n : ℕ) (os : List Bytes) (ls : List (ℕ × Bytes))
      → Ascending off n ls
      → IsFound off n (fuzzy_at nfkc os ls)
  unfolding fuzzy_at
  fuzzy_at-IsFound off n [] ls h = tt
  fuzzy_at-IsFound off n (o ∷ os) [] h = tt
  fuzzy_at-IsFound off n (o ∷ []) ((s, l) ∷ ls) (x, y, z) =
      if_cases (IsFound off n) (eq_bytes (normalize_fuzzy_line nfkc l) o) _ _
        (λ _. (omega arith, y, Ascending-le off s n ls x z)) (λ _. tt)
  fuzzy_at-IsFound off n (o ∷ o' ∷ os) ((s, l) ∷ ls) (x, y, z) =
      if_cases (IsFound off n) (eq_bytes (normalize_fuzzy_line nfkc l) o) _ _
        (λ _.
          IsFound-le off s n (fuzzy_at nfkc (o' ∷ os) ls) x (fuzzy_at-IsFound s n (o' ∷ os) ls z))
        (λ _. tt)

  fuzzy_loop-All :
      (f off n : ℕ) (os : List Bytes) (ls : List (ℕ × Bytes))
      → Ascending off n ls
      → All (IsMatch n) (fuzzy_loop nfkc f os ls)
  unfolding fuzzy_loop
  fuzzy_loop-All zero off n os ls h = tt
  fuzzy_loop-All (suc f) off n os [] h = tt
  fuzzy_loop-All (suc f) off n os ((s, l) ∷ ls) (x, y, z) =
      elim (Option-cases (fuzzy_at nfkc os ((s, l) ∷ ls))) [
        | inl e ↦ rw (e, All) (fuzzy_loop-All f s n os ls z)
        | inr ((stop, rest), e) ↦
            let (a, b, c) : IsFound s n (some (stop, rest)) =
              subst (IsFound s n) e (fuzzy_at-IsFound s n os ((s, l) ∷ ls) (omega arith, y, z)) in
            rw (e, All) ((a, b), fuzzy_loop-All f s n os rest c)
      ]

fuzzy_matches-All :
    (nfkc : Bytes → Bytes) (content old : Bytes)
    → All (IsMatch (length content)) (fuzzy_matches nfkc content old)
unfolding fuzzy_matches
fuzzy_matches-All nfkc content old =
    let l = (Strings.split line_feed content).0 in
    let ls = (Strings.split line_feed content).1 in
    let whole = ap (λ (t : Bytes). length t) (join-split line_feed content) in
    if_cases (All (IsMatch (length content))) (is_blank old) _ _ (λ _. tt)
      (λ _.
        fuzzy_loop-All nfkc (length (numbered 0 l ls)) 0 (length content) _ (numbered 0 l ls)
          (numbered-Ascending 0 (length content) l ls (omega (arith, whole))))

matches_of-All :
    (nfkc : Bytes → Bytes) (content old : Bytes)
    → All (IsMatch (length content)) (matches_of nfkc content old)
unfolding matches_of exact_matches
matches_of-All nfkc content old =
    if_cases (All (IsMatch (length content))) (not (is_nil (exact_matches content old))) _ _
      (λ _. exact_loop-All (length content) 0 (length content) content old (omega arith))
      (λ _. fuzzy_matches-All nfkc content old)

count_newlines_before-le : (content : Bytes) (at : ℕ) → count_newlines_before content at ≤ at
unfolding count_newlines_before
count_newlines_before-le content zero = omega arith
count_newlines_before-le content (suc at) = ground (arith, count_newlines_before-le content at)

run_length-le : (c : ℕ) (s : Bytes) → run_length c s ≤ length s
unfolding run_length
run_length-le c [] = omega arith
run_length-le c (x ∷ s) = ground (arith, run_length-le c s)

count_newlines_after-le :
    (content : Bytes) (at : ℕ)
    → at ≤ length content
    → at + count_newlines_after content at ≤ length content
unfolding count_newlines_after
count_newlines_after-le content at h =
    omega (arith, run_length-le line_feed (drop at content), length-drop at content h)

newlines_wanted-le :
    (content : Bytes) (stop left right : ℕ) → newlines_wanted content stop left right ≤ left + right
unfolding newlines_wanted
newlines_wanted-le content stop left right = ground arith

widen-IsMatch :
    (content : Bytes) (start stop : ℕ)
    → IsMatch (length content) (start, stop)
    → IsMatch (length content) (widen_block_deletion content start stop)
unfolding widen_block_deletion
widen-IsMatch content start stop (a, b) =
    let left = count_newlines_before content start in
    let right = count_newlines_after content stop in
    let fits = newlines_wanted-le content stop left right in
    let before = count_newlines_before-le content start in
    let after = count_newlines_after-le content stop b in
    if_cases (IsMatch (length content))
      (not (start == 0 || leb 2 left)
        || not (stop == length content || leb 2 right || stop + right == length content))
      _ _ (λ _. (a, b)) (λ _. (omega arith, omega arith))

span_of-IsWithin :
    (content new : Bytes) (i : ℕ) (m : ℕ × ℕ)
    → IsMatch (length content) m
    → IsWithin (length content) (span_of content new i m)
unfolding span_of
span_of-IsWithin content new i (start, stop) h =
    if_cases (IsWithin (length content)) (is_empty new) _ _
      (λ _. widen-IsMatch content start stop h) (λ _. h)

spans_of-All :
    (content new : Bytes) (i : ℕ) (ms : List (ℕ × ℕ))
    → All (IsMatch (length content)) ms
    → All (IsWithin (length content)) (spans_of content new i ms)
unfolding spans_of
spans_of-All content new i [] h = tt
spans_of-All content new i (m ∷ ms) (p, h) =
    (span_of-IsWithin content new i m p, spans_of-All content new i ms h)

-- what holds of the spans, if there is no error
abbrev pub OnSpans : (List Span → Type 0) → Outcome (List Span) → Type 0
OnSpans P (resolved spans) = P spans
OnSpans P (failed _) = Unit

module _ (nfkc : Bytes → Bytes) where
  pub gather-OnSpans :
      (content : Bytes) (i : ℕ) (es : List Edit)
      → OnSpans (All (IsWithin (length content))) (gather nfkc content i es)
  unfolding gather
  gather-OnSpans content i [] = tt
  gather-OnSpans content i (e ∷ es) =
      let P = OnSpans (All (IsWithin (length content))) in
      let found = matches_of nfkc content (normalize_lf e.old_text) in
      if_cases P (is_empty (normalize_lf e.old_text)) _ _ (λ _. tt)
        (λ _.
          if_cases P (is_nil found) _ _ (λ _. tt)
            (λ _.
              if_cases P (ltb 1 (length found) && not e.replace_all) _ _ (λ _. tt)
                (λ _.
                  joined content (spans_of content (normalize_lf e.new_text) i found)
                    (spans_of-All content (normalize_lf e.new_text) i found
                      (matches_of-All nfkc content (normalize_lf e.old_text)))
                    (gather nfkc content (i + 1) es) (gather-OnSpans content (i + 1) es))))
    where
      joined :
          (content : Bytes) (spans : List Span)
          → All (IsWithin (length content)) spans
          → (rest : Outcome (List Span)) → OnSpans (All (IsWithin (length content))) rest
          → OnSpans
              (All (IsWithin (length content)))
              (elim rest [ resolved more ↦ resolved (spans ++ more) | failed error ↦ failed error ])
      joined content spans h (resolved more) k =
          All-append (IsWithin (length content)) spans more h k
      joined content spans h (failed error) k = tt
