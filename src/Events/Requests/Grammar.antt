-- ===== src/Events/Requests/Grammar.antt =====
-- What the grammars of types, filters and targets exclude.
use any.Common.{
  ℕ, Bool, true, false, ◌&&◌, List, [], ◌∷◌, Option, none, some, Bytes, codes, ◌==◌, ◌≡◌, ◌≢◌, refl,
  ap, arith, Bool-cases, inl, inr, All, Lacks,
}
use any.Strings.{is_empty, split, cut_suffix}
use any.Events.Topics.{slash}
use any.Events.Topics.Family.{IsPlain, prefix_of}
use any.Events.Requests.{
  slug_char, target_char, all_chars, are_slugs, is_event_type, is_event_filter, is_target,
  all_filters, all_targets,
}

are_slugs-Lacks :
    (b : ℕ) (s : Bytes)
    → slug_char b ≡ false
    → b ≢ b'.'
    → all_chars slug_char (split b'.' s).0 && are_slugs (split b'.' s).1 ≡ true
    → Lacks b s
unfolding are_slugs all_chars split
are_slugs-Lacks b [] n m h = tt
are_slugs-Lacks b (c ∷ s) n m h = elim (Bool-cases (c == b'.')) [
  | inl e ↦ (ground arith, are_slugs-Lacks b s n m (ground arith))
  | inr e ↦ (
    (λ k. let char : slug_char c ≡ true = ground arith in cc (ap slug_char k, char, n)),
    are_slugs-Lacks b s n m (ground arith),
  )
]

pub is_event_type-IsPlain : (t : Bytes) → is_event_type t ≡ true → IsPlain t
unfolding is_event_type are_slugs
is_event_type-IsPlain t h = (
  are_slugs-Lacks b'>' t refl (omega arith) (ground arith),
  are_slugs-Lacks b'*' t refl (omega arith) (ground arith),
)

all_chars-Lacks :
    (allowed : ℕ → Bool) (b : ℕ) (s : Bytes)
    → allowed b ≡ false
    → all_chars allowed s ≡ true
    → Lacks b s
unfolding all_chars
all_chars-Lacks allowed b [] n h = tt
all_chars-Lacks allowed b (c ∷ s) n h =
    let char : allowed c ≡ true = ground arith in
    (λ k. cc (ap allowed k, char, n), all_chars-Lacks allowed b s n (ground arith))

pub is_target-Lacks : (t : Bytes) → is_target t ≡ true → Lacks slash t
unfolding is_target
is_target-Lacks t h = all_chars-Lacks target_char slash t refl (ground arith)

pub is_event_filter-IsPlain : (t : Bytes) → is_event_filter t ≡ true → IsPlain (prefix_of t)
unfolding is_event_filter
is_event_filter-IsPlain t h = of_cut (cut_suffix t (codes ".*")) h
  where
    of_cut :
        (o : Option Bytes)
        → (elim o [ none ↦ is_event_type t | some prefix ↦ is_event_type prefix ]) ≡ true
        → IsPlain (elim o [ none ↦ t | some prefix ↦ prefix ])
    of_cut none h = is_event_type-IsPlain t h
    of_cut (some prefix) h = is_event_type-IsPlain prefix h

pub all_filters-IsPlain :
    (ts : List Bytes) → all_filters ts ≡ true → All (λ t. IsPlain (prefix_of t)) ts
unfolding all_filters
all_filters-IsPlain [] h = tt
all_filters-IsPlain (t ∷ ts) h =
    (is_event_filter-IsPlain t (ground arith), all_filters-IsPlain ts (ground arith))

pub all_targets-Lacks : (ts : List Bytes) → all_targets ts ≡ true → All (λ t. Lacks slash t) ts
unfolding all_targets
all_targets-Lacks [] h = tt
all_targets-Lacks (t ∷ ts) h =
    (is_target-Lacks t (ground arith), all_targets-Lacks ts (ground arith))

pub all_targets-filled :
    (ts : List Bytes) → all_targets ts ≡ true → All (λ t. is_empty t ≡ false) ts
unfolding all_targets is_target
all_targets-filled [] h = tt
all_targets-filled (t ∷ ts) h = (ground arith, all_targets-filled ts (ground arith))
