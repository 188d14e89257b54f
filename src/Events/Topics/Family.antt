-- ===== src/Events/Topics/Family.antt =====
-- The patterns of a filter whose types and targets hold no wildcard of their own.
use any.Common.{
  ℕ, false, List, [], ◌∷◌, ◌++◌, append_assoc, Option, none, some, Bytes, codes, is_nil, ◌==◌,
  if_cases, ◌≡◌, ◌≢◌, refl, arith, Bool-cases, inl, inr, All, All-append, Lacks,
}
use any.Strings.{eq_bytes, contains, split, cut_suffix, replace_byte}
use any.Strings.Laws.{parts-append, split_of_Lacks}
use any.Events.{EventFilter, type_filter_matches}
use any.Events.Topics.{
  topic_prefix, acc_topic_prefix, self_owned_type, slash, segments_of, add, add_targets,
  prefix_patterns, exact_patterns, type_patterns, types_loop, filter_patterns, segments,
}
use any.Events.Topics.Accepts.{InFamily}

-- neither `>` nor `*` occurs
abbrev pub IsPlain : Bytes → Type 0
IsPlain s = Lacks b'>' s × Lacks b'*' s

Lacks-replace_byte :
    (b old new : ℕ) (s : Bytes) → b ≢ new → Lacks b s → Lacks b (replace_byte old new s)
unfolding replace_byte
Lacks-replace_byte b old new [] n h = tt
Lacks-replace_byte b old new (c ∷ s) n (hc, hs) =
    (λ k. ground (arith, n, hc), Lacks-replace_byte b old new s n hs)

pub segments_of-IsPlain : (t : Bytes) → IsPlain t → IsPlain (segments_of t)
unfolding segments_of
segments_of-IsPlain t (h, k) = (
  Lacks-replace_byte b'>' b'.' slash t (omega arith) h,
  Lacks-replace_byte b'*' b'.' slash t (omega arith) k,
)

IsName : Bytes → Type 0
IsName a = (eq_bytes a (codes ">") ≡ false) × (eq_bytes a (codes "*") ≡ false)

segments-IsName : (s : Bytes) → IsPlain s → All IsName (segments s)
unfolding IsName split eq_bytes
segments-IsName [] h = ((refl, refl), tt)
segments-IsName (c ∷ s) ((ha, hs), (ka, ks)) = elim (Bool-cases (c == slash)) [
  | inl e ↦ rw e ((refl, refl), segments-IsName s (hs, ks))
  | inr e ↦ rw e ((ground arith, ground arith), (segments-IsName s (hs, ks)).1)
]

InFamily-append : (as_ : List Bytes) (b : Bytes) → All IsName as_ → InFamily (as_ ++ b ∷ [])
unfolding IsName
InFamily-append [] b h = tt
InFamily-append (a ∷ []) b ((n, m), h) = (n, m, tt)
InFamily-append (a ∷ a' ∷ as_) b ((n, m), h) = (n, m, InFamily-append (a' ∷ as_) b h)

-- a last segment behind plain ones
family :
    (head segs last : Bytes)
    → IsPlain (head ++ segs)
    → Lacks slash last
    → InFamily (segments (head ++ (segs ++ (slash ∷ last))))
family head segs last h l =
    rw
      (
        ← append_assoc head segs (slash ∷ last),
        parts-append slash (head ++ segs) last,
        split_of_Lacks slash last l,
      )
      (InFamily-append (segments (head ++ segs)) last (segments-IsName (head ++ segs) h))

abbrev pub prefix_of : Bytes → Bytes
prefix_of t = elim (cut_suffix t (codes ".*")) [ none ↦ t | some prefix ↦ prefix ]

abbrev pub Families : List Bytes → Type 0
Families = All (λ p. InFamily (segments p))

add-Families :
    (out : List Bytes) (p : Bytes) → Families out → InFamily (segments p) → Families (add out p)
unfolding add
add-Families out p h k =
    if_cases Families (contains out p) _ _ (λ _. h)
      (λ _. All-append (λ p. InFamily (segments p)) out (p ∷ []) h (k, tt))

IsPlain-append : (s t : Bytes) → IsPlain s → IsPlain t → IsPlain (s ++ t)
IsPlain-append s t (h, k) (h', k') =
    (All-append (λ c. c ≢ b'>') s t h h', All-append (λ c. c ≢ b'*') s t k k')

topic_prefix-IsPlain : IsPlain topic_prefix
topic_prefix-IsPlain = (
  (omega arith, (omega arith, (omega arith, tt))),
  (omega arith, (omega arith, (omega arith, tt))),
)

acc_topic_prefix-IsPlain : IsPlain acc_topic_prefix
acc_topic_prefix-IsPlain = (
  (
    omega arith,
    (omega arith, (omega arith, (omega arith, (omega arith, (omega arith, (omega arith, tt)))))),
  ),
  (
    omega arith,
    (omega arith, (omega arith, (omega arith, (omega arith, (omega arith, (omega arith, tt)))))),
  ),
)

module _ (t : Bytes) (plain : IsPlain t) where
  ev_family :
      (last : Bytes)
      → Lacks slash last
      → InFamily (segments (topic_prefix ++ (segments_of t ++ (slash ∷ last))))
  ev_family last l =
      family topic_prefix (segments_of t) last
        (IsPlain-append topic_prefix (segments_of t) topic_prefix-IsPlain
          (segments_of-IsPlain t plain))
        l

  acc_family : InFamily (segments (acc_topic_prefix ++ (segments_of t ++ codes "/>")))
  acc_family =
      family acc_topic_prefix (segments_of t) (codes ">")
        (IsPlain-append acc_topic_prefix (segments_of t) acc_topic_prefix-IsPlain
          (segments_of-IsPlain t plain))
        (omega arith, tt)

  prefix_patterns-Families :
      (filter_type : Bytes) (out : List Bytes)
      → Families out
      → Families (prefix_patterns filter_type t out)
  unfolding prefix_patterns
  prefix_patterns-Families filter_type out h =
      let h' = add-Families out _ h (ev_family (codes ">") (omega arith, tt)) in
      if_cases Families (type_filter_matches filter_type self_owned_type) _ _
        (λ _. add-Families _ _ h' acc_family) (λ _. h')

  add_targets-Families :
      (targets out : List Bytes)
      → All (λ target. Lacks slash target) targets
      → Families out
      → Families (add_targets (segments_of t) targets out)
  unfolding add_targets
  add_targets-Families [] out l h = h
  add_targets-Families (target ∷ targets) out (l, ls) h =
      add_targets-Families targets _ ls (add-Families out _ h (ev_family target l))

  exact_patterns-Families :
      (targets out : List Bytes)
      → All (λ target. Lacks slash target) targets
      → Families out
      → Families (exact_patterns t targets out)
  unfolding exact_patterns
  exact_patterns-Families targets out l h =
      if_cases Families (eq_bytes t self_owned_type) _ _ (λ _. add-Families out _ h acc_family)
        (λ _.
          if_cases Families (is_nil targets) _ _
            (λ _. add-Families out _ h (ev_family (codes "*") (omega arith, tt)))
            (λ _. add_targets-Families targets out l h))

types_loop-Families :
    (ts targets out : List Bytes)
    → All (λ t. IsPlain (prefix_of t)) ts
    → All (λ target. Lacks slash target) targets
    → Families out
    → Families (types_loop ts targets out)
unfolding types_loop type_patterns
types_loop-Families [] targets out p l h = h
types_loop-Families (t ∷ ts) targets out (p, ps) l h =
    types_loop-Families ts targets _ ps l (of_cut (cut_suffix t (codes ".*")) p)
  where
    of_cut :
        (o : Option Bytes)
        → IsPlain (elim o [ none ↦ t | some prefix ↦ prefix ])
        → Families (type_patterns o t targets out)
    of_cut none p = exact_patterns-Families t p targets out l h
    of_cut (some prefix) p = prefix_patterns-Families prefix p t out h

catch_all-Families : Families ((topic_prefix ++ codes ">") ∷ (acc_topic_prefix ++ codes ">") ∷ [])
unfolding split eq_bytes
catch_all-Families = ((refl, refl, tt), ((refl, refl, (refl, refl, tt)), tt))

-- Where a filter's types hold no `>` and no `*` but that of an ending `.*`, and its targets no slash, its
-- patterns are of the family whose wildcards come last.
pub filter_patterns-InFamily :
    (f : EventFilter)
    → All (λ t. IsPlain (prefix_of t)) f.types
    → All (λ target. Lacks slash target) f.targets
    → All (λ p. InFamily (segments p)) (filter_patterns f)
unfolding filter_patterns
filter_patterns-InFamily f p l =
    if_cases Families (is_nil f.types) _ _ (λ _. catch_all-Families)
      (λ _. types_loop-Families f.types f.targets [] p l tt)
