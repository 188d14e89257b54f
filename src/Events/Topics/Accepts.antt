-- ===== src/Events/Topics/Accepts.antt =====
-- What a pub/sub pattern accepts, as docs/21-events.md has it: `>` one or more remaining segments, `*`
-- exactly one, any other segment itself.
use any.Common.{
  is_nil, if_cases, ◌∙◌, sym, Bool, true, false, List, [], ◌∷◌, Bytes, codes, ◌≡◌, refl, ◌⊎◌, inl,
  inr, arith, Bool-cases, if◌then◌else◌,
}
use any.Strings.{eq_bytes}
use any.Strings.Laws.{eq_bytes→eq, eq_bytes_refl}
use any.Events.Topics.{segments_subsume, pattern_subsumes, segments}

unfoldable pub accepts : List Bytes → List Bytes → Bool
accepts [] ts = is_nil ts
accepts (a ∷ as_) [] = false
accepts (a ∷ as_) (t ∷ ts) =
    let rest = accepts as_ ts in
    if eq_bytes a (codes ">")
    then true
    else if eq_bytes a (codes "*")
    then rest
    else if eq_bytes a t
    then rest
    else false

-- The patterns that filterPatterns makes: a wildcard is the last segment.
abbrev pub InFamily : List Bytes → Type 0
InFamily [] = Unit
InFamily (a ∷ []) = Unit
InFamily (a ∷ b ∷ rest) =
    (eq_bytes a (codes ">") ≡ false) × (eq_bytes a (codes "*") ≡ false) × InFamily (b ∷ rest)

segments_subsume_sound :
    (as_ bs ts : List Bytes)
    → segments_subsume as_ bs ≡ true
    → accepts bs ts ≡ true
    → accepts as_ ts ≡ true
unfolding segments_subsume accepts
segments_subsume_sound [] [] ts h k = k
segments_subsume_sound [] (b ∷ bs) ts h k = cc
segments_subsume_sound (a ∷ as_) [] ts h k = cc
segments_subsume_sound (a ∷ as_) (b ∷ bs) [] h k = cc
segments_subsume_sound (a ∷ as_) (b ∷ bs) (t ∷ ts) h k =
    elim (Bool-cases (eq_bytes a (codes ">"))) [
      | inl e ↦ rw e
      | inr e ↦ ground (arith, segments_subsume_sound as_ bs ts, eq_bytes→eq b a)
    ]

-- A pattern accepts every topic that a pattern which it subsumes accepts.
pub pattern_subsumes_sound :
    (p q topic : Bytes)
    → pattern_subsumes p q ≡ true
    → accepts (segments q) (segments topic) ≡ true
    → accepts (segments p) (segments topic) ≡ true
unfolding pattern_subsumes
pattern_subsumes_sound p q topic h k = elim (Bool-cases (eq_bytes p q)) [
  | inl e ↦ rw (eq_bytes→eq p q e) k
  | inr e ↦ segments_subsume_sound (segments p) (segments q) (segments topic) (rw e at h) k
]

InFamily-tail : (a : Bytes) (as_ : List Bytes) → InFamily (a ∷ as_) → InFamily as_
InFamily-tail a [] h = tt
InFamily-tail a (b ∷ rest) (_, _, h) = h

-- a `*` is last: what it stands before is what it was
star_is_last :
    (a : Bytes) (as_ : List Bytes) → InFamily (a ∷ as_) → eq_bytes a (codes "*") ≡ true → as_ ≡ []
star_is_last a [] h e = refl
star_is_last a (b ∷ rest) (_, n, _) e = cc

abbrev Nested : List Bytes → List Bytes → Type 0
Nested as_ bs = (segments_subsume as_ bs ≡ true) ⊎ (segments_subsume bs as_ ≡ true)

accepts_nothing : (bs ts : List Bytes) → accepts bs ts ≡ true → accepts [] ts ≡ true → bs ≡ []
unfolding accepts
accepts_nothing [] ts h k = refl
accepts_nothing (b ∷ bs) [] h k = cc
accepts_nothing (b ∷ bs) (t ∷ ts) h k = cc

-- two patterns that begin with plain segments, which the topic's first segment equals
Nested-plain :
    (a b t : Bytes) (as_ bs : List Bytes)
    → eq_bytes a (codes ">") ≡ false
    → eq_bytes a (codes "*") ≡ false
    → eq_bytes a t ≡ true
    → eq_bytes b t ≡ true
    → Nested as_ bs
    → Nested (a ∷ as_) (b ∷ bs)
unfolding segments_subsume
Nested-plain a b t as_ bs n m h k r =
    let e : a ≡ b = eq_bytes→eq a t h ∙ sym (eq_bytes→eq b t k) in
    rw (← e) (rw (n, m, eq_bytes_refl a) r)

star_subsumes :
    (a b : Bytes) (as_ bs ts : List Bytes)
    → eq_bytes a (codes ">") ≡ false
    → eq_bytes a (codes "*") ≡ true
    → eq_bytes b (codes ">") ≡ false
    → as_ ≡ []
    → accepts as_ ts ≡ true
    → accepts bs ts ≡ true
    → segments_subsume (a ∷ as_) (b ∷ bs) ≡ true
unfolding segments_subsume
star_subsumes a b as_ bs ts n m o e h k = rw (n, m, o, e, accepts_nothing bs ts k (rw e at h))

accepts-tail :
    (a t : Bytes) (as_ ts : List Bytes)
    → eq_bytes a (codes ">") ≡ false
    → accepts (a ∷ as_) (t ∷ ts) ≡ true
    → accepts as_ ts ≡ true
unfolding accepts
accepts-tail a t as_ ts n h = ground arith

accepts-head :
    (a t : Bytes) (as_ ts : List Bytes)
    → eq_bytes a (codes ">") ≡ false
    → eq_bytes a (codes "*") ≡ false
    → accepts (a ∷ as_) (t ∷ ts) ≡ true
    → eq_bytes a t ≡ true
unfolding accepts
accepts-head a t as_ ts n m h = ground arith

nested :
    (as_ bs ts : List Bytes)
    → InFamily as_
    → InFamily bs
    → accepts as_ ts ≡ true
    → accepts bs ts ≡ true
    → Nested as_ bs
unfolding accepts
nested [] [] ts fa fb h k = unfold segments_subsume in inl refl
nested [] (b ∷ bs) [] fa fb h k = cc
nested [] (b ∷ bs) (t ∷ ts) fa fb h k = cc
nested (a ∷ as_) [] [] fa fb h k = cc
nested (a ∷ as_) [] (t ∷ ts) fa fb h k = cc
nested (a ∷ as_) (b ∷ bs) [] fa fb h k = cc
nested (a ∷ as_) (b ∷ bs) (t ∷ ts) fa fb h k = elim (Bool-cases (eq_bytes a (codes ">"))) [
  | inl e ↦ inl (unfold segments_subsume in rw e refl)
  | inr n ↦ elim (Bool-cases (eq_bytes b (codes ">"))) [
    | inl e ↦ inr (unfold segments_subsume in rw e refl)
    | inr o ↦
        let ha = accepts-tail a t as_ ts n h in
        let hb = accepts-tail b t bs ts o k in
        elim (Bool-cases (eq_bytes a (codes "*"))) [
          | inl m ↦ inl (star_subsumes a b as_ bs ts n m o (star_is_last a as_ fa m) ha hb)
          | inr m ↦ elim (Bool-cases (eq_bytes b (codes "*"))) [
            | inl l ↦ inr (star_subsumes b a bs as_ ts o l n (star_is_last b bs fb l) hb ha)
            | inr l ↦
                Nested-plain a b t as_ bs n m (accepts-head a t as_ ts n m h)
                  (accepts-head b t bs ts o l k)
                  (nested as_ bs ts (InFamily-tail a as_ fa) (InFamily-tail b bs fb) ha hb)
          ]
        ]
  ]
]

subsumes_of_segments :
    (p q : Bytes) → segments_subsume (segments p) (segments q) ≡ true → pattern_subsumes p q ≡ true
unfolding pattern_subsumes
subsumes_of_segments p q h = if_cases (λ b. b ≡ true) (eq_bytes p q) _ _ (λ _. refl) (λ _. h)

-- Of two patterns of the family that accept a common topic, one subsumes the other: two patterns are
-- nested or disjoint.
pub patterns_nested :
    (p q topic : Bytes)
    → InFamily (segments p)
    → InFamily (segments q)
    → accepts (segments p) (segments topic) ≡ true
    → accepts (segments q) (segments topic) ≡ true
    → (pattern_subsumes p q ≡ true) ⊎ (pattern_subsumes q p ≡ true)
patterns_nested p q topic fp fq h k =
    elim (nested (segments p) (segments q) (segments topic) fp fq h k) [
      | inl e ↦ inl (subsumes_of_segments p q e)
      | inr e ↦ inr (subsumes_of_segments q p e)
    ]
