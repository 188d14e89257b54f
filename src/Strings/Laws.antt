-- ===== src/Strings/Laws.antt =====
-- The laws of the functions of Strings.antt, which the components' proofs use.
use any.Common.{
  ℕ, zero, suc, ◌+◌, ◌≤◌, length, drop, Option-cases, true, false, List, [], ◌∷◌, ◌++◌, some, Bytes,
  ◌==◌, ◌≡◌, ◌↔◌, refl, sym, ap, ap₂, arith, if◌then◌else◌, Lacks, All, Bool-cases, inl, inr,
  ==_iff,
}
use any.Strings.{eq_bytes, cut_prefix, cut, split, join, index, has_prefix, contains, replace_byte}

pub eq_bytes_refl : (s : Bytes) → eq_bytes s s ≡ true
unfolding eq_bytes
eq_bytes_refl [] = refl
eq_bytes_refl (c ∷ s) = ground (arith, eq_bytes_refl s)

pub eq_bytes→eq : (s t : Bytes) → eq_bytes s t ≡ true → s ≡ t
unfolding eq_bytes
eq_bytes→eq [] [] h = refl
eq_bytes→eq [] (b ∷ t) h = cc
eq_bytes→eq (a ∷ s) [] h = cc
eq_bytes→eq (a ∷ s) (b ∷ t) h = ground (arith, eq_bytes→eq s t)

pub eq_bytes_iff : (s t : Bytes) → (eq_bytes s t ≡ true) ↔ (s ≡ t)
eq_bytes_iff s t = (eq_bytes→eq s t, λ e. rw e (eq_bytes_refl t))

pub cut_prefix-append : (p s : Bytes) → cut_prefix p (p ++ s) ≡ some s
unfolding cut_prefix
cut_prefix-append [] s = refl
cut_prefix-append (a ∷ p) s = ground (arith, cut_prefix-append p s)

pub append_of_cut_prefix : (p s r : Bytes) → cut_prefix p s ≡ some r → s ≡ p ++ r
unfolding cut_prefix
append_of_cut_prefix [] s r h = ground arith
append_of_cut_prefix (a ∷ p) [] r h = cc
append_of_cut_prefix (a ∷ p) (b ∷ s) r h = ground (arith, append_of_cut_prefix p s r)

module _ (sep : ℕ) where
  pub cut-append : (s t : Bytes) → Lacks sep s → cut sep (s ++ sep ∷ t) ≡ (s, t, true)
  unfolding cut
  cut-append [] t h = ground arith
  cut-append (c ∷ s) t (hc, hs) = ground (arith, cut-append s t hs)

  pub cut_of_Lacks : (s : Bytes) → Lacks sep s → cut sep s ≡ (s, [], false)
  unfolding cut
  cut_of_Lacks [] h = refl
  cut_of_Lacks (c ∷ s) (hc, hs) = ground (arith, cut_of_Lacks s hs)

  pub cut-Lacks : (s : Bytes) → Lacks sep (cut sep s).0
  unfolding cut
  cut-Lacks [] = tt
  cut-Lacks (c ∷ s) = elim (Bool-cases (c == sep)) [
    | inl e ↦ rw e tt
    | inr e ↦ rw e (ground arith, cut-Lacks s)
  ]

  -- the parts give the text back
  pub cut_rebuild :
      (s : Bytes)
      → s ≡ (if (cut sep s).2 then (cut sep s).0 ++ sep ∷ (cut sep s).1 else (cut sep s).0)
  unfolding cut
  cut_rebuild [] = refl
  cut_rebuild (c ∷ s) = ground (arith, cut_rebuild s)

  pub cut_not_found : (s : Bytes) → (cut sep s).2 ≡ false → (cut sep s).1 ≡ []
  unfolding cut
  cut_not_found [] h = refl
  cut_not_found (c ∷ s) h = ground (arith, cut_not_found s)

  pub split_of_Lacks : (s : Bytes) → Lacks sep s → split sep s ≡ (s, [])
  unfolding split
  split_of_Lacks [] h = refl
  split_of_Lacks (c ∷ s) (hc, hs) = ground (arith, split_of_Lacks s hs)

  split-append :
      (s t : Bytes)
      → Lacks sep s
      → split sep (s ++ sep ∷ t) ≡ (s, (split sep t).0 ∷ (split sep t).1)
  unfolding split
  split-append [] t h = ground arith
  split-append (c ∷ s) t (hc, hs) = ground (arith, split-append s t hs)

  pub split-join :
      (p : Bytes) (ps : List Bytes)
      → Lacks sep p
      → All (Lacks sep) ps
      → split sep (join sep p ps) ≡ (p, ps)
  unfolding join
  split-join p [] h hs = split_of_Lacks p h
  split-join p (q ∷ qs) h (hq, hqs) = rw (split-append p (join sep q qs) h, split-join q qs hq hqs)

  pub split-Lacks : (s : Bytes) → Lacks sep (split sep s).0 × All (Lacks sep) (split sep s).1
  unfolding split
  split-Lacks [] = (tt, tt)
  split-Lacks (c ∷ s) = elim (Bool-cases (c == sep)) [
    | inl e ↦ rw e (tt, split-Lacks s)
    | inr e ↦ rw e ((ground arith, (split-Lacks s).0), (split-Lacks s).1)
  ]

  join-cons : (c : ℕ) (p : Bytes) (ps : List Bytes) → join sep (c ∷ p) ps ≡ c ∷ join sep p ps
  unfolding join
  join-cons c p [] = refl
  join-cons c p (q ∷ qs) = refl

  pub join-split : (s : Bytes) → join sep (split sep s).0 (split sep s).1 ≡ s
  unfolding split join
  join-split [] = refl
  join-split (c ∷ s) = elim (Bool-cases (c == sep)) [
    | inl e ↦ rw e (ap₂ ◌∷◌ (sym ((==_iff c sep).0 e)) (join-split s))
    | inr e ↦ rw (e, join-cons) (ap (λ (t : Bytes). c ∷ t) (join-split s))
  ]

pub has_prefix-append : (p s : Bytes) → has_prefix p s ≡ true → (r : Bytes) × (s ≡ p ++ r)
unfolding has_prefix
has_prefix-append [] s h = (s, refl)
has_prefix-append (a ∷ p) [] h = cc
has_prefix-append (a ∷ p) (b ∷ s) h = elim (Bool-cases (a == b)) [
  | inl e ↦
      let (r, q) = has_prefix-append p s (rw e at h) in (r, ap₂ ◌∷◌ (sym ((==_iff a b).0 e)) q)
  | inr e ↦ cc (rw e at h)
]

pub contains-append :
    (ss ts : List Bytes) (s : Bytes) → contains ss s ≡ true → contains (ss ++ ts) s ≡ true
unfolding contains
contains-append [] ts s h = cc
contains-append (r ∷ ss) ts s h = ground (arith, contains-append ss ts s)

pub contains-append_last : (ss : List Bytes) (s : Bytes) → contains (ss ++ s ∷ []) s ≡ true
unfolding contains
contains-append_last [] s = rw (eq_bytes_refl s) refl
contains-append_last (r ∷ ss) s = ground (arith, contains-append_last ss s)

pub replace_byte-append :
    (old new : ℕ) (s t : Bytes)
    → replace_byte old new (s ++ t) ≡ replace_byte old new s ++ replace_byte old new t
unfolding replace_byte
replace_byte-append old new [] t = refl
replace_byte-append old new (c ∷ s) t =
    ap (λ (r : Bytes). (if c == old then new else c) ∷ r) (replace_byte-append old new s t)

-- the parts on the two sides of a separator
pub parts-append :
    (sep : ℕ) (s t : Bytes)
    → (split sep (s ++ sep ∷ t)).0 ∷ (split sep (s ++ sep ∷ t)).1
      ≡ ((split sep s).0 ∷ (split sep s).1) ++ ((split sep t).0 ∷ (split sep t).1)
unfolding split
parts-append sep [] t = ground arith
parts-append sep (c ∷ s) t = ground (arith, parts-append sep s t)

has_prefix-length : (p s : Bytes) → has_prefix p s ≡ true → length p ≤ length s
unfolding has_prefix
has_prefix-length [] s h = omega arith
has_prefix-length (a ∷ p) [] h = cc
has_prefix-length (a ∷ p) (b ∷ s) h = ground (arith, has_prefix-length p s)

pub index-length : (s sub : Bytes) (i : ℕ) → index s sub ≡ some i → i + length sub ≤ length s
unfolding index
index-length [] [] i h = ground arith
index-length [] (a ∷ sub) i h = cc
index-length (c ∷ s) sub i h = elim (Bool-cases (has_prefix sub (c ∷ s))) [
  | inl e ↦ ground (arith, has_prefix-length sub (c ∷ s))
  | inr e ↦ elim (Option-cases (index s sub)) [
    | inl n ↦ ground arith
    | inr (j, q) ↦ ground (arith, index-length s sub j q)
  ]
]

pub length-drop : (n : ℕ) (s : Bytes) → n ≤ length s → length (drop n s) + n ≡ length s
length-drop zero s h = omega arith
length-drop (suc n) [] h = absurd (omega arith)
length-drop (suc n) (c ∷ s) h = omega (arith, length-drop n s)
