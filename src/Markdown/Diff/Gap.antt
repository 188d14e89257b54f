-- ===== src/Markdown/Diff/Gap.antt =====
-- Filling a gap of the diff: the pairs that it links lie within the gap and cross no other.
use any.Common.{
  ℕ, zero, suc, ◌-◌, ◌<◌, ◌≤◌, Bool, true, false, ◌||◌, List, [], ◌∷◌, none, some, Bytes, get_elem?,
  leb, if_cases, ◌≡◌, ◌≢◌, refl, ap, ◌∙◌, arith, ◌⊎◌, inl, inr, Bool-cases, Option-cases, All,
}
use any.Markdown.Diff.{
  NewOp, keep, update, insert, Plan, Scoring, link, is_used, is_insert, conflicts, takes_old,
  takes_new, greedy, range_from, leftover_old, leftover_new, both_filled, pair_leftovers,
  candidates, fill_gap,
}
use any.Markdown.Diff.Accepted.{has, takes_old-has, takes_new-has, conflicts-has}
use any.Markdown.Diff.Candidates.{Within, range_from-Within, candidates-InGap}
use any.Markdown.Diff.Links.{
  linked, IsPlanned, Fits, linked-link, linked-link_other, is_used-link_other, link-IsPlanned,
}

-- A gap: the old positions from `old_lo` on and before `old_hi`, and the new ones likewise.
module _ (same : ℕ → ℕ → Bool) (m k old_lo old_hi new_lo new_hi : ℕ) (old_room : old_hi ≤ m)
    (new_room : new_hi ≤ k) where
  abbrev InGap : ℕ → ℕ → Type 0
  InGap o n = (old_lo ≤ o) × (o < old_hi) × (new_lo ≤ n) × (n < new_hi)

  abbrev Outside : ℕ → ℕ → Type 0
  Outside o n = ((n < new_lo) × (o < old_lo)) ⊎ ((new_hi ≤ n) × (old_hi ≤ o))

  -- every link is outside the gap or one of the accepted pairs
  abbrev Known : List (ℕ × ℕ) → Plan → Type 0
  Known acc p = (o n : ℕ) → linked p.new_seq n ≡ some o → Outside o n ⊎ (has acc o n ≡ true)

  Known-Fits :
      (acc : List (ℕ × ℕ)) (p : Plan) (o n : ℕ)
      → IsPlanned same m k p
      → Known acc p
      → InGap o n
      → linked p.new_seq n ≡ none
      → is_used p.old_used o ≡ false
      → conflicts o n acc ≡ false
      → Fits p o n
  Known-Fits acc p o n planned known gap free unused c n' o' l = elim (known o' n' l) [
    | inl out ↦ elim out [ inl (a, b) ↦ inl (omega arith) | inr (a, b) ↦ inr (omega arith) ]
    | inr h ↦
        conflicts-has o n o' n' acc c h
          (λ e. cc (unused, planned.marked n' o' l, ap (is_used p.old_used) e))
          (λ e. cc (free, l, ap (linked p.new_seq) e))
  ]

  -- a pair of the gap whose sides no accepted pair takes is free on both sides
  Known-free :
      (acc : List (ℕ × ℕ)) (p : Plan) (o n : ℕ)
      → Known acc p
      → InGap o n
      → takes_new n acc ≡ false
      → linked p.new_seq n ≡ none
  Known-free acc p o n known gap t = elim (Option-cases (linked p.new_seq n)) [
    | inl e ↦ e
    | inr (o', l) ↦ elim (known o' n l) [
      | inl out ↦ elim out [ inl (a, b) ↦ absurd (omega arith) | inr (a, b) ↦ absurd (omega arith) ]
      | inr h ↦ absurd (takes_new-has n o' n acc t h refl)
    ]
  ]

  Known-unused :
      (acc : List (ℕ × ℕ)) (p : Plan) (o n : ℕ)
      → IsPlanned same m k p
      → Known acc p
      → InGap o n
      → takes_old o acc ≡ false
      → is_used p.old_used o ≡ false
  Known-unused acc p o n planned known gap t = elim (Bool-cases (is_used p.old_used o)) [
    | inr e ↦ e
    | inl e ↦
        let (n', l) = planned.owned o e in
        elim (known o n' l) [
          | inl out ↦ elim out [
            | inl (a, b) ↦ absurd (omega arith)
            | inr (a, b) ↦ absurd (omega arith)
          ]
          | inr h ↦ absurd (takes_old-has o o n' acc t h refl)
        ]
  ]

  -- What filling may do to a plan: it stays a plan, and links only positions of the gap.
  pub record IsFilled (p q : Plan) : Type 0 where
    pub planned : IsPlanned same m k q
    pub framed : (o n : ℕ) → linked q.new_seq n ≡ some o → (linked p.new_seq n ≡ some o) ⊎ InGap o n

  IsFilled-trans : (p q r : Plan) → IsFilled p q → IsFilled q r → IsFilled p r
  IsFilled-trans p q r f g = record {
    planned = g.planned;
    framed = λ o n l. elim (g.framed o n l) [ inl l' ↦ f.framed o n l' | inr b ↦ inr b ];
  }

  module _ (acc : List (ℕ × ℕ)) (p : Plan) (o n : ℕ) (planned : IsPlanned same m k p)
      (known : Known acc p) (gap : InGap o n) (free : linked p.new_seq n ≡ none)
      (unused : is_used p.old_used o ≡ false) (c : conflicts o n acc ≡ false) where
    step_old : o < m
    step_old = omega arith

    step_new : n < k
    step_new = omega arith

    step-IsFilled : IsFilled p (link (update o) o n p)
    step-IsFilled = record {
      planned =
          link-IsPlanned same m k p planned (update o) o n refl step_old step_new free
            (Known-Fits acc p o n planned known gap free unused c) (λ e. cc);
      framed = λ o' n' l.
          elim (linked-link same m k p planned (update o) o n refl step_old step_new n' o' l) [
            | inl (a, b) ↦ inr (omega arith)
            | inr l' ↦ inl l'
          ];
    }

    step-Known : Known ((o, n) ∷ acc) (link (update o) o n p)
    step-Known o' n' l =
        elim (linked-link same m k p planned (update o) o n refl step_old step_new n' o' l) [
          | inl (a, b) ↦ inr (ground arith)
          | inr l' ↦ elim (known o' n' l') [ inl out ↦ inl out | inr h ↦ inr (ground arith) ]
        ]

  abbrev Greedy : Plan → List (ℕ × ℕ) × Plan → Type 0
  Greedy p (acc, q) = IsFilled p q × Known acc q

  greedy-Greedy :
      (pairs acc : List (ℕ × ℕ)) (p : Plan)
      → All (λ (o, n). InGap o n) pairs
      → IsPlanned same m k p
      → Known acc p
      → Greedy p (greedy pairs acc p)
  unfolding greedy
  greedy-Greedy [] acc p gaps planned known =
      (record { planned = planned; framed = λ o n l. inl l }, known)
  greedy-Greedy ((o, n) ∷ pairs) acc p (gap, gaps) planned known =
      if_cases (Greedy p) (takes_old o acc || takes_new n acc) _ _
        (λ _. greedy-Greedy pairs acc p gaps planned known)
        (λ t.
          if_cases (Greedy p) (conflicts o n acc) _ _
            (λ _. greedy-Greedy pairs acc p gaps planned known)
            (λ c.
              let free = Known-free acc p o n known gap (ground arith) in
              let unused = Known-unused acc p o n planned known gap (ground arith) in
              let step = step-IsFilled acc p o n planned known gap free unused c in
              let known' = step-Known acc p o n planned known gap free unused c in
              let q = link (update o) o n p in
              let rest = greedy-Greedy pairs ((o, n) ∷ acc) q gaps step.planned known' in
              (IsFilled-trans p q (greedy pairs ((o, n) ∷ acc) q).1 step rest.0, rest.1)))

  -- ascending old positions of the gap that are not used, and new ones that are not linked
  abbrev SpareOld : Plan → ℕ → List ℕ → Type 0
  SpareOld p lo [] = Unit
  SpareOld p lo (o ∷ os) =
      (lo ≤ o)
      × (old_lo ≤ o)
      × (o < old_hi)
      × (is_used p.old_used o ≡ false)
      × SpareOld p (suc o) os

  abbrev SpareNew : Plan → ℕ → List ℕ → Type 0
  SpareNew p lo [] = Unit
  SpareNew p lo (n ∷ ns) =
      (lo ≤ n) × (new_lo ≤ n) × (n < new_hi) × (linked p.new_seq n ≡ none) × SpareNew p (suc n) ns

  module _ (p : Plan) (o n : ℕ) (planned : IsPlanned same m k p) (gap : InGap o n) where
    spare_old : o < m
    spare_old = omega arith

    spare_new : n < k
    spare_new = omega arith

    SpareOld-link :
        (lo : ℕ) (os : List ℕ) → o < lo → SpareOld p lo os → SpareOld (link (update o) o n p) lo os
    SpareOld-link lo [] h s = tt
    SpareOld-link lo (x ∷ os) h (a, b, c, d, s) =
        let apart : o ≢ x = (λ e. omega arith) in
        (
          a,
          b,
          c,
          is_used-link_other same m k p planned (update o) o n refl spare_old spare_new x apart ∙ d,
          SpareOld-link (suc x) os (omega arith) s,
        )

    SpareNew-link :
        (lo : ℕ) (ns : List ℕ) → n < lo → SpareNew p lo ns → SpareNew (link (update o) o n p) lo ns
    SpareNew-link lo [] h s = tt
    SpareNew-link lo (x ∷ ns) h (a, b, c, d, s) =
        let apart : n ≢ x = (λ e. omega arith) in
        (
          a,
          b,
          c,
          linked-link_other same m k p planned (update o) o n refl spare_old spare_new x apart ∙ d,
          SpareNew-link (suc x) ns (omega arith) s,
        )

  pair_leftovers-IsFilled :
      (old new : List Bytes) (os ns : List ℕ) (i j : ℕ) (acc : List (ℕ × ℕ)) (p : Plan)
      → SpareOld p i os
      → SpareNew p j ns
      → IsPlanned same m k p
      → Known acc p
      → IsFilled p (pair_leftovers old new os ns acc p)
  unfolding pair_leftovers
  pair_leftovers-IsFilled old new [] ns i j acc p s t planned known = record {
    planned = planned;
    framed = λ o n l. inl l;
  }
  pair_leftovers-IsFilled old new (o ∷ os) [] i j acc p s t planned known = record {
    planned = planned;
    framed = λ o n l. inl l;
  }
  pair_leftovers-IsFilled old new (o ∷ os) (n ∷ ns) i j acc p (a, b, c, d, s) (e, f, g, h, t)
        planned known =
      let gap : InGap o n = (b, c, f, g) in
      if_cases (IsFilled p) (both_filled old new (get_elem? old o) (get_elem? new n)) _ _
        (λ _. pair_leftovers-IsFilled old new os ns (suc o) (suc n) acc p s t planned known)
        (λ _.
          if_cases (IsFilled p) (conflicts o n acc) _ _
            (λ _. pair_leftovers-IsFilled old new os ns (suc o) (suc n) acc p s t planned known)
            (λ x.
              let step = step-IsFilled acc p o n planned known gap h d x in
              let q = link (update o) o n p in
              IsFilled-trans p q (pair_leftovers old new os ns ((o, n) ∷ acc) q) step (
                pair_leftovers-IsFilled old new os ns (suc o) (suc n) ((o, n) ∷ acc) q
                  (SpareOld-link p o n planned gap (suc o) os (omega arith) s)
                  (SpareNew-link p o n planned gap (suc n) ns (omega arith) t) step.planned
                  (step-Known acc p o n planned known gap h d x))))

  leftover_old-SpareOld :
      (p : Plan) (lo : ℕ) (os : List ℕ)
      → old_lo ≤ lo
      → Within lo old_hi os
      → SpareOld p lo (leftover_old p.old_used os)
  unfolding leftover_old
  leftover_old-SpareOld p lo [] h w = tt
  leftover_old-SpareOld p lo (o ∷ os) h (a, b, w) =
      let rest = leftover_old-SpareOld p (suc o) os (omega arith) w in
      elim (Bool-cases (is_used p.old_used o)) [
        | inl e ↦ rw e (SpareOld-le p (suc o) lo (leftover_old p.old_used os) (omega arith) rest)
        | inr e ↦ rw e (a, omega arith, b, e, rest)
      ]
    where
      SpareOld-le :
          (p : Plan) (lo lo' : ℕ) (os : List ℕ) → lo' ≤ lo → SpareOld p lo os → SpareOld p lo' os
      SpareOld-le p lo lo' [] h s = tt
      SpareOld-le p lo lo' (o ∷ os) h (a, b, c, d, s) = (omega arith, b, c, d, s)

  leftover_new-SpareNew :
      (p : Plan) (lo : ℕ) (ns : List ℕ)
      → new_lo ≤ lo
      → Within lo new_hi ns
      → SpareNew p lo (leftover_new p.new_seq ns)
  unfolding leftover_new
  leftover_new-SpareNew p lo [] h w = tt
  leftover_new-SpareNew p lo (n ∷ ns) h (a, b, w) =
      let rest = leftover_new-SpareNew p (suc n) ns (omega arith) w in
      elim (Bool-cases (is_insert p.new_seq n)) [
        | inl e ↦ rw e (a, omega arith, b, is_insert-linked p.new_seq n e, rest)
        | inr e ↦ rw e (SpareNew-le p (suc n) lo (leftover_new p.new_seq ns) (omega arith) rest)
      ]
    where
      SpareNew-le :
          (p : Plan) (lo lo' : ℕ) (os : List ℕ) → lo' ≤ lo → SpareNew p lo os → SpareNew p lo' os
      SpareNew-le p lo lo' [] h s = tt
      SpareNew-le p lo lo' (o ∷ os) h (a, b, c, d, s) = (omega arith, b, c, d, s)

      is_insert-linked : (ops : List NewOp) (n : ℕ) → is_insert ops n ≡ true → linked ops n ≡ none
      is_insert-linked [] n h = refl
      is_insert-linked (keep o ∷ ops) zero h = cc
      is_insert-linked (update o ∷ ops) zero h = cc
      is_insert-linked (insert ∷ ops) zero h = refl
      is_insert-linked (op ∷ ops) (suc n) h = is_insert-linked ops n h

  module _ (scoring : Scoring) where
    open scoring use {Score}

    -- Filling a gap outside which all links of a plan lie.
    pub fill_gap-IsFilled :
        (old new : List Bytes) (threshold : Score) (p : Plan)
        → IsPlanned same m k p
        → ((o n : ℕ) → linked p.new_seq n ≡ some o → Outside o n)
        → IsFilled p (fill_gap scoring old new threshold old_lo old_hi new_lo new_hi p)
    unfolding fill_gap
    fill_gap-IsFilled old new threshold p planned outside =
        let os = range_from old_lo (old_hi - old_lo) in
        let ns = range_from new_lo (new_hi - new_lo) in
        if_cases (IsFilled p) (leb old_hi old_lo || leb new_hi new_lo) _ _
          (λ _. record { planned = planned; framed = λ o n l. inl l })
          (λ open_.
            let w : Within old_lo old_hi os =
              range_from-Within old_lo (old_hi - old_lo) old_hi (ground arith) in
            let v : Within new_lo new_hi ns =
              range_from-Within new_lo (new_hi - new_lo) new_hi (ground arith) in
            let found = candidates scoring old new threshold os ns in
            let (filled, known) =
              greedy-Greedy found [] p
                (candidates-InGap old_lo old_hi new_lo new_hi scoring old new threshold os ns w v)
                planned (λ o n l. inl (outside o n l)) in
            let q = (greedy found [] p).1 in
            let acc = (greedy found [] p).0 in
            IsFilled-trans p q
              (pair_leftovers old new (leftover_old q.old_used os) (leftover_new q.new_seq ns) acc
                q)
              filled
              (pair_leftovers-IsFilled old new (leftover_old q.old_used os)
                (leftover_new q.new_seq ns) old_lo new_lo acc q
                (leftover_old-SpareOld q old_lo os (omega arith) w)
                (leftover_new-SpareNew q new_lo ns (omega arith) v) filled.planned known))
