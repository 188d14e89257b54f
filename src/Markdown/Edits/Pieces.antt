-- ===== src/Markdown/Edits/Pieces.antt =====
-- What applied edits make of a text.
use any.Common.{
  ℕ, zero, suc, ◌-◌, ◌≤◌, List, [], ◌∷◌, ◌++◌, append_assoc, none, Bytes, length, take, drop, ltb,
  if_cases, ◌≡◌, ◌≢◌, refl, sym, ap, ◌∙◌, arith, Bool-cases, Option-cases, inl, inr, All,
}
use any.Markdown.Edits.Found.{IsWithin, OnSpans, gather-OnSpans}
use any.Markdown.Edits.{
  Edit, EditError, Outcome, resolved, failed, Span, span_lt, insert_span, sort_spans,
  overlap_behind, check_overlaps, apply_spans, gather, resolve_edits, apply_edits,
}

-- The text with every span replaced: what lies between the spans stays.
abbrev pub edited : ℕ → Bytes → List Span → Bytes
edited at content [] = drop at content
edited at content (s ∷ ss) =
    take (s.start - at) (drop at content) ++ (s.new_text ++ edited s.stop content ss)

-- The spans lie within the text, in order, from a position on.
abbrev pub InOrder : ℕ → ℕ → List Span → Type 0
InOrder at n [] = at ≤ n
InOrder at n (s ∷ ss) = (at ≤ s.start) × (s.start ≤ s.stop) × InOrder s.stop n ss

InOrder-le : (at n : ℕ) (ss : List Span) → InOrder at n ss → at ≤ n
InOrder-le at n [] h = h
InOrder-le at n (s ∷ ss) (a, b, h) = omega (arith, InOrder-le s.stop n ss h)

take_of_append : (n m : ℕ) (c e : Bytes) → n ≤ m → m ≤ length c → take n (take m c ++ e) ≡ take n c
take_of_append zero m c e h k = refl
take_of_append (suc n) zero c e h k = absurd (omega arith)
take_of_append (suc n) (suc m) [] e h k = absurd (omega arith)
take_of_append (suc n) (suc m) (x ∷ c) e h k =
    ap (λ (t : Bytes). x ∷ t) (take_of_append n m c e (omega arith) (omega arith))

drop_of_append : (m : ℕ) (c e : Bytes) → m ≤ length c → drop m (take m c ++ e) ≡ e
drop_of_append zero c e k = refl
drop_of_append (suc m) [] e k = absurd (omega arith)
drop_of_append (suc m) (x ∷ c) e k = drop_of_append m c e (omega arith)

take-nil : (n : ℕ) → take {A = ℕ} n [] ≡ []
take-nil zero = refl
take-nil (suc n) = refl

take_split : (a b : ℕ) (c : Bytes) → a ≤ b → take b c ≡ take a c ++ take (b - a) (drop a c)
take_split zero b c h = let e : b ≡ b - 0 = omega arith in ap (λ (k : ℕ). take k c) e
take_split (suc a) zero c h = absurd (omega arith)
take_split (suc a) (suc b) [] h = sym (take-nil (suc b - suc a))
take_split (suc a) (suc b) (x ∷ c) h =
    let e : b - a ≡ suc b - suc a = omega arith in
    ap (λ (t : Bytes). x ∷ t)
      (take_split a b c (omega arith) ∙ ap (λ (k : ℕ). take a c ++ take k (drop a c)) e)

take-drop : (n : ℕ) (s : Bytes) → s ≡ take n s ++ drop n s
take-drop zero s = refl
take-drop (suc n) [] = refl
take-drop (suc n) (c ∷ s) = ap (λ (t : Bytes). c ∷ t) (take-drop n s)

apply_spans-edited :
    (content : Bytes) (at : ℕ) (ss : List Span)
    → InOrder at (length content) ss
    → apply_spans content ss ≡ take at content ++ edited at content ss
unfolding apply_spans
apply_spans-edited content at [] h = take-drop at content
apply_spans-edited content at (s ∷ ss) (a, b, h) =
    let le = InOrder-le s.stop (length content) ss h in
    rw (apply_spans-edited content s.stop ss h) (
      rw (take_of_append s.start s.stop content (edited s.stop content ss) b le) (
        rw (drop_of_append s.stop content (edited s.stop content ss) le) (
          rw (take_split at s.start content a) (
            append_assoc (take at content) (take (s.start - at) (drop at content))
              (s.new_text ++ edited s.stop content ss)))))

overlap_behind-InOrder :
    (n : ℕ) (s : Span) (ss : List Span)
    → overlap_behind s ss ≡ none
    → All (IsWithin n) (s ∷ ss)
    → InOrder s.start n (s ∷ ss)
unfolding overlap_behind
overlap_behind-InOrder n s [] h ((a, b), _) = (omega arith, a, b)
overlap_behind-InOrder n s (t ∷ ts) h ((a, b), w) = elim (Bool-cases (ltb t.start s.stop)) [
  | inl k ↦ cc
  | inr k ↦
      let (x, y, z) = overlap_behind-InOrder n t ts (rw k at h) w in
      (omega arith, a, (ground (arith, k), y, z))
]

insert_span-All :
    (n : ℕ) (s : Span) (ss : List Span)
    → IsWithin n s
    → All (IsWithin n) ss
    → All (IsWithin n) (insert_span s ss)
unfolding insert_span
insert_span-All n s [] p h = (p, tt)
insert_span-All n s (t ∷ ts) p (q, h) =
    if_cases (All (IsWithin n)) (span_lt t s) _ _ (λ _. (q, insert_span-All n s ts p h))
      (λ _. (p, (q, h)))

sort_spans-All : (n : ℕ) (ss : List Span) → All (IsWithin n) ss → All (IsWithin n) (sort_spans ss)
unfolding sort_spans
sort_spans-All n [] h = tt
sort_spans-All n (s ∷ ss) (p, h) = insert_span-All n s (sort_spans ss) p (sort_spans-All n ss h)

check_overlaps-OnSpans :
    (n : ℕ) (ss : List Span) → All (IsWithin n) ss → OnSpans (InOrder 0 n) (check_overlaps ss)
unfolding check_overlaps
check_overlaps-OnSpans n [] h = omega arith
check_overlaps-OnSpans n (s ∷ ss) h = elim (Option-cases (overlap_behind s ss)) [
  | inl e ↦ let (a, b, c) = overlap_behind-InOrder n s ss e h in rw (e, OnSpans) (omega arith, b, c)
  | inr (p, e) ↦ rw (e, OnSpans) tt
]

-- What edits that were applied have made: their resolution is spans in order within the text, and the
-- result is the text with these replaced.
pub record Edited (content : Bytes) (resolution : Outcome (List Span)) (out : Bytes) : Type 0 where
  pub spans : List Span
  pub found : resolution ≡ resolved spans
  pub in_order : InOrder 0 (length content) spans
  pub result : out ≡ edited 0 content spans

failed_not_resolved : (e : EditError) (out : Bytes) → failed e ≢ resolved out
failed_not_resolved e out h = cc

applied-Edited :
    (content out : Bytes) (o : Outcome (List Span))
    → OnSpans (InOrder 0 (length content)) o
    → elim o [ resolved spans ↦ resolved (apply_spans content spans) | failed error ↦ failed error ]
      ≡ resolved out
    → Edited content o out
applied-Edited content out (resolved spans) k h = record {
  spans = spans;
  found = refl;
  in_order = k;
  result = cc (apply_spans-edited content 0 spans k, h);
}
applied-Edited content out (failed error) k h = absurd (failed_not_resolved error out h)

module _ (nfkc : Bytes → Bytes) where
  resolve_edits-OnSpans :
      (content : Bytes) (es : List Edit)
      → OnSpans (InOrder 0 (length content)) (resolve_edits nfkc content es)
  unfolding resolve_edits
  resolve_edits-OnSpans content es =
      checked (gather nfkc content 0 es) (gather-OnSpans nfkc content 0 es)
    where
      checked :
          (o : Outcome (List Span))
          → OnSpans (All (IsWithin (length content))) o
          → OnSpans (InOrder 0 (length content)) (elim o [
            | resolved all ↦ check_overlaps (sort_spans all)
            | failed error ↦ failed error
          ])
      checked (resolved all) h =
          check_overlaps-OnSpans (length content) (sort_spans all)
            (sort_spans-All (length content) all h)
      checked (failed error) h = tt

  -- Edits that apply without an error come down to spans in order, disjoint and within the text; the
  -- result is the text in which each of them has its new text, and what lies between them has stayed,
  -- although the code splices from the last span to the first.
  pub apply_edits-Edited :
      (content : Bytes) (es : List Edit) (out : Bytes)
      → apply_edits nfkc content es ≡ resolved out
      → Edited content (resolve_edits nfkc content es) out
  unfolding apply_edits
  apply_edits-Edited content es out h =
      applied-Edited content out (resolve_edits nfkc content es) (resolve_edits-OnSpans content es)
        h
