-- ===== src/Events/Bridge/Counts.antt =====
-- The reference counts of a scope's patterns.
use any.Common.{
  ℕ, ◌+◌, ◌-◌, ◌≤◌, false, not, ◌||◌, List, [], ◌∷◌, Bytes, ◌==◌, leb, if◌then◌else◌, ◌≡◌, refl, ap,
  ◌∙◌, arith, Bool-cases, inl, inr,
}
use any.Strings.{eq_bytes, contains}
use any.Strings.Laws.{eq_bytes→eq, eq_bytes_refl}
use any.Events.Bridge.{incr, decr, incr_all, decr_all, keys}

abbrev pub count_of : List (Bytes × ℕ) → Bytes → ℕ
count_of [] p = 0
count_of ((q, c) ∷ desired) p = if eq_bytes q p then c else count_of desired p

-- how often a pattern stands in a list
abbrev pub occurs : Bytes → List Bytes → ℕ
occurs p [] = 0
occurs p (q ∷ ps) = (if eq_bytes q p then 1 else 0) + occurs p ps

-- every count is positive, and no pattern stands twice
abbrev pub IsCounts : List (Bytes × ℕ) → Type 0
IsCounts [] = Unit
IsCounts ((q, c) ∷ desired) = (1 ≤ c) × (contains (keys desired) q ≡ false) × IsCounts desired

count_of_absent :
    (d : List (Bytes × ℕ)) (p : Bytes) → contains (keys d) p ≡ false → count_of d p ≡ 0
unfolding contains keys
count_of_absent [] p h = refl
count_of_absent ((q, c) ∷ d) p h = ground (arith, count_of_absent d p)

pub contains-keys :
    (d : List (Bytes × ℕ)) (p : Bytes) → IsCounts d → contains (keys d) p ≡ not (count_of d p == 0)
unfolding contains keys
contains-keys [] p h = refl
contains-keys ((q, c) ∷ d) p (a, b, h) = ground (arith, contains-keys d p h)

contains-keys-incr :
    (d : List (Bytes × ℕ)) (p q : Bytes)
    → contains (keys (incr p d)) q ≡ (eq_bytes p q || contains (keys d) q)
unfolding contains keys incr
contains-keys-incr [] p q = ground arith
contains-keys-incr ((r, c) ∷ d) p q = elim (Bool-cases (eq_bytes r p)) [
  | inl e ↦ ground (arith, e, ap (λ (t : Bytes). eq_bytes t q) (eq_bytes→eq r p e))
  | inr e ↦ ground (arith, e, contains-keys-incr d p q)
]

incr-IsCounts : (d : List (Bytes × ℕ)) (p : Bytes) → IsCounts d → IsCounts (incr p d)
unfolding incr
incr-IsCounts [] p h = (omega arith, unfold contains keys in refl, tt)
incr-IsCounts ((r, c) ∷ d) p (a, b, h) = elim (Bool-cases (eq_bytes r p)) [
  | inl e ↦ rw e (omega arith, b, h)
  | inr e ↦ rw e (a, contains-keys-incr d p r ∙ rw (apart r p e) b, incr-IsCounts d p h)
]
  where
    apart : (r p : Bytes) → eq_bytes r p ≡ false → eq_bytes p r ≡ false
    apart r p h = elim (Bool-cases (eq_bytes p r)) [
      | inl e ↦ cc (h, eq_bytes→eq p r e, eq_bytes_refl r)
      | inr e ↦ e
    ]

count_of-incr :
    (d : List (Bytes × ℕ)) (p q : Bytes)
    → count_of (incr p d) q ≡ count_of d q + (if eq_bytes p q then 1 else 0)
unfolding incr
count_of-incr [] p q = ground arith
count_of-incr ((r, c) ∷ d) p q = elim (Bool-cases (eq_bytes r p)) [
  | inl e ↦ ground (arith, e, ap (λ (t : Bytes). eq_bytes t q) (eq_bytes→eq r p e))
  | inr e ↦ elim (Bool-cases (eq_bytes r q)) [
    | inl k ↦
        let other : eq_bytes p q ≡ false = elim (Bool-cases (eq_bytes p q)) [
          | inl l ↦ cc (e, eq_bytes→eq p q l, k)
          | inr l ↦ l
        ] in
        ground (arith, e, k, other)
    | inr k ↦ ground (arith, e, k, count_of-incr d p q)
  ]
]

contains-keys-decr :
    (d : List (Bytes × ℕ)) (p q : Bytes)
    → contains (keys d) q ≡ false
    → contains (keys (decr p d)) q ≡ false
unfolding contains keys decr
contains-keys-decr [] p q h = refl
contains-keys-decr ((r, c) ∷ d) p q h = ground (arith, contains-keys-decr d p q)

decr-IsCounts : (d : List (Bytes × ℕ)) (p : Bytes) → IsCounts d → IsCounts (decr p d)
unfolding decr
decr-IsCounts [] p h = tt
decr-IsCounts ((r, c) ∷ d) p (a, b, h) = elim (Bool-cases (eq_bytes r p)) [
  | inl e ↦ elim (Bool-cases (leb c 1)) [
    | inl k ↦ rw (e, k) h
    | inr k ↦ rw (e, k) (ground arith, b, h)
  ]
  | inr e ↦ rw e (a, contains-keys-decr d p r b, decr-IsCounts d p h)
]

count_of-decr :
    (d : List (Bytes × ℕ)) (p q : Bytes)
    → IsCounts d
    → count_of (decr p d) q ≡ count_of d q - (if eq_bytes p q then 1 else 0)
unfolding decr
count_of-decr [] p q h = ground arith
count_of-decr ((r, c) ∷ d) p q (a, b, h) = elim (Bool-cases (eq_bytes r p)) [
  | inl e ↦
      let same = eq_bytes→eq r p e in
      let gone = count_of_absent d r b in
      elim (Bool-cases (eq_bytes r q)) [
        | inl k ↦ ground (
          arith,
          e,
          k,
          ap (λ (t : Bytes). eq_bytes t q) same,
          gone,
          ap (count_of d) (eq_bytes→eq r q k),
        )
        | inr k ↦ ground (arith, e, k, ap (λ (t : Bytes). eq_bytes t q) same)
      ]
  | inr e ↦ elim (Bool-cases (eq_bytes r q)) [
    | inl k ↦
        let other : eq_bytes p q ≡ false = elim (Bool-cases (eq_bytes p q)) [
          | inl l ↦ cc (e, eq_bytes→eq p q l, k)
          | inr l ↦ l
        ] in
        ground (arith, e, k, other)
    | inr k ↦ ground (arith, e, k, count_of-decr d p q h)
  ]
]

pub incr_all-IsCounts :
    (ps : List Bytes) (d : List (Bytes × ℕ)) → IsCounts d → IsCounts (incr_all ps d)
unfolding incr_all
incr_all-IsCounts [] d h = h
incr_all-IsCounts (p ∷ ps) d h = incr_all-IsCounts ps (incr p d) (incr-IsCounts d p h)

pub count_of-incr_all :
    (ps : List Bytes) (d : List (Bytes × ℕ)) (q : Bytes)
    → count_of (incr_all ps d) q ≡ count_of d q + occurs q ps
unfolding incr_all
count_of-incr_all [] d q = omega arith
count_of-incr_all (p ∷ ps) d q =
    omega (arith, count_of-incr_all ps (incr p d) q, count_of-incr d p q)

pub decr_all-IsCounts :
    (ps : List Bytes) (d : List (Bytes × ℕ)) → IsCounts d → IsCounts (decr_all ps d)
unfolding decr_all
decr_all-IsCounts [] d h = h
decr_all-IsCounts (p ∷ ps) d h = decr_all-IsCounts ps (decr p d) (decr-IsCounts d p h)

pub count_of-decr_all :
    (ps : List Bytes) (d : List (Bytes × ℕ)) (q : Bytes)
    → IsCounts d
    → count_of (decr_all ps d) q ≡ count_of d q - occurs q ps
unfolding decr_all
count_of-decr_all [] d q h = omega arith
count_of-decr_all (p ∷ ps) d q h =
    omega (arith, count_of-decr_all ps (decr p d) q (decr-IsCounts d p h), count_of-decr d p q h)
