-- ===== src/Events/Bridge/Resync.antt =====
-- What a resync of a scope leaves subscribed.
use any.Common.{
  ◌==◌, ◌+◌, ◌-◌, ◌≤◌, Bool, true, false, not, ◌&&◌, ◌||◌, List, [], ◌∷◌, ◌++◌, Bytes,
  if◌then◌else◌, ◌≡◌, ap, arith, Bool-cases, inl, inr, if_cases, refl,
}
use any.Strings.{eq_bytes, contains}
use any.Strings.Laws.{eq_bytes→eq}
use any.Events.Topics.{maximal_patterns}
use any.Events.Bridge.{
  Wired, keys, cancel, cancel_all, assign, keep_wanted, subscribe_wanted, resync,
}
use any.Events.Bridge.Counts.{occurs}

-- The map holds each pattern once at most, and the SDK has one subscription for each that it holds, and
-- no other.
pub record IsLive (active live : List Bytes) : Type 0 where
  pub held : (p : Bytes) → occurs p live ≡ occurs p active
  pub once : (p : Bytes) → occurs p active ≤ 1

pub occurs-contains : (ps : List Bytes) (p : Bytes) → contains ps p ≡ not (occurs p ps == 0)
unfolding contains
occurs-contains [] p = refl
occurs-contains (q ∷ ps) p = ground (arith, occurs-contains ps p)

occurs-snoc :
    (ps : List Bytes) (p q : Bytes)
    → occurs q (ps ++ p ∷ []) ≡ occurs q ps + (if eq_bytes p q then 1 else 0)
occurs-snoc [] p q = omega arith
occurs-snoc (r ∷ ps) p q = omega (arith, occurs-snoc ps p q)

occurs-same : (ps : List Bytes) (p q : Bytes) → eq_bytes p q ≡ true → occurs p ps ≡ occurs q ps
occurs-same ps p q e = ap (λ (t : Bytes). occurs t ps) (eq_bytes→eq p q e)

occurs-cancel :
    (p q : Bytes) (live : List Bytes)
    → occurs q (cancel p live) ≡ occurs q live - (if eq_bytes p q then 1 else 0)
unfolding cancel
occurs-cancel p q [] = ground arith
occurs-cancel p q (r ∷ live) = elim (Bool-cases (eq_bytes r p)) [
  | inl e ↦ ground (arith, e, ap (λ (t : Bytes). eq_bytes t q) (eq_bytes→eq r p e))
  | inr e ↦ elim (Bool-cases (eq_bytes r q)) [
    | inl k ↦ elim (Bool-cases (eq_bytes p q)) [
      | inl l ↦ cc (e, eq_bytes→eq p q l, k)
      | inr l ↦ ground (arith, e, k, l, occurs-cancel p q live)
    ]
    | inr k ↦ ground (arith, e, k, occurs-cancel p q live)
  ]
]

pub occurs-cancel_all :
    (active live : List Bytes) (q : Bytes)
    → occurs q (cancel_all active live) ≡ occurs q live - occurs q active
unfolding cancel_all
occurs-cancel_all [] live q = omega arith
occurs-cancel_all (p ∷ active) live q =
    omega (arith, occurs-cancel_all active (cancel p live) q, occurs-cancel p q live)

occurs-kept :
    (want active live : List Bytes) (q : Bytes)
    → occurs q (keep_wanted want active live).0 ≡ (if contains want q then occurs q active else 0)
unfolding keep_wanted
occurs-kept want [] live q = ground arith
occurs-kept want (p ∷ active) live q = elim (Bool-cases (eq_bytes p q)) [
  | inl e ↦
      ground (arith, e, ap (contains want) (eq_bytes→eq p q e), occurs-kept want active live q)
  | inr e ↦ ground (arith, e, occurs-kept want active live q)
]

occurs-rest :
    (want active live : List Bytes) (q : Bytes)
    → occurs q (keep_wanted want active live).1
      ≡ occurs q live - (if contains want q then 0 else occurs q active)
unfolding keep_wanted
occurs-rest want [] live q = ground arith
occurs-rest want (p ∷ active) live q =
    let last = occurs-cancel p q (keep_wanted want active live).1 in
    elim (Bool-cases (eq_bytes p q)) [
      | inl e ↦
          ground
            (arith, e, last, ap (contains want) (eq_bytes→eq p q e), occurs-rest want active live q)
      | inr e ↦ ground (arith, e, last, occurs-rest want active live q)
    ]

keep_wanted-IsLive :
    (want active live : List Bytes)
    → IsLive active live
    → IsLive (keep_wanted want active live).0 (keep_wanted want active live).1
keep_wanted-IsLive want active live inv = record {
  held = λ p.
      ground (arith, occurs-kept want active live p, occurs-rest want active live p, inv.held p);
  once = λ p. ground (arith, occurs-kept want active live p, inv.once p);
}

assign-IsLive :
    (p : Bytes) (active live : List Bytes)
    → contains active p ≡ false
    → IsLive active live
    → IsLive (assign p active) (live ++ p ∷ [])
assign-IsLive p active live h inv = rw h (record {
  held = λ q. omega (arith, occurs-snoc active p q, occurs-snoc live p q, inv.held q);
  once = λ q. elim (Bool-cases (eq_bytes p q)) [
    | inl e ↦
        ground
          (arith, e, occurs-snoc active p q, occurs-contains active p, h, occurs-same active p q e)
    | inr e ↦ ground (arith, e, occurs-snoc active p q, inv.once q)
  ];
})

subscribe_wanted-IsLive :
    (grants : Bytes → Bool) (want active live : List Bytes)
    → IsLive active live
    → (let (active', live', done) = subscribe_wanted grants want active live in
        IsLive active' live')
unfolding subscribe_wanted
subscribe_wanted-IsLive grants [] active live inv = inv
subscribe_wanted-IsLive grants (p ∷ want) active live inv =
    let P : List Bytes × List Bytes × Bool → Type 0 = λ r. IsLive r.0 r.1 in
    if_cases P (contains active p) _ _ (λ _. subscribe_wanted-IsLive grants want active live inv)
      (λ n.
        if_cases P (not (grants p)) _ _ (λ _. inv)
          (λ _.
            subscribe_wanted-IsLive grants want (assign p active) (live ++ p ∷ [])
              (assign-IsLive p active live n inv)))

pub resync-IsLive :
    (grants : Bytes → Bool) (w : Wired)
    → IsLive w.scope.active w.live
    → IsLive (resync grants w).0.scope.active (resync grants w).0.live
unfolding resync
resync-IsLive grants w inv =
    let want = maximal_patterns (keys w.scope.desired) in
    let (kept, rest) = keep_wanted want w.scope.active w.live in
    subscribe_wanted-IsLive grants want kept rest
      (keep_wanted-IsLive want w.scope.active w.live inv)

contains-assign :
    (p q : Bytes) (active : List Bytes)
    → contains (assign p active) q ≡ (contains active q || eq_bytes p q)
contains-assign p q active = elim (Bool-cases (contains active p)) [
  | inl e ↦ elim (Bool-cases (eq_bytes p q)) [
    | inl k ↦ ground (arith, e, k, ap (contains active) (eq_bytes→eq p q k))
    | inr k ↦ ground (arith, e, k)
  ]
  | inr e ↦ ground (
    arith,
    e,
    occurs-contains (active ++ p ∷ []) q,
    occurs-snoc active p q,
    occurs-contains active q,
  )
]

subscribe_wanted_only :
    (grants : Bytes → Bool) (want active live : List Bytes) (p : Bytes)
    → contains (subscribe_wanted grants want active live).0 p ≡ true
    → (contains active p || contains want p) ≡ true
unfolding contains subscribe_wanted
subscribe_wanted_only grants [] active live p h = ground (arith, h)
subscribe_wanted_only grants (q ∷ want) active live p h = ground (
  arith,
  subscribe_wanted_only grants want active live p,
  subscribe_wanted_only grants want (assign q active) (live ++ q ∷ []) p,
  contains-assign q p active,
)

subscribe_wanted_all :
    (grants : Bytes → Bool) (want active live : List Bytes) (p : Bytes)
    → (subscribe_wanted grants want active live).2 ≡ true
    → (contains active p || contains want p) ≡ true
    → contains (subscribe_wanted grants want active live).0 p ≡ true
unfolding contains subscribe_wanted
subscribe_wanted_all grants [] active live p d h = ground (arith, h)
subscribe_wanted_all grants (q ∷ want) active live p d h = elim (Bool-cases (eq_bytes q p)) [
  | inl e ↦ ground (
    arith,
    e,
    ap (contains active) (eq_bytes→eq q p e),
    subscribe_wanted_all grants want active live p,
    subscribe_wanted_all grants want (assign q active) (live ++ q ∷ []) p,
    contains-assign q p active,
  )
  | inr e ↦ ground (
    arith,
    e,
    subscribe_wanted_all grants want active live p,
    subscribe_wanted_all grants want (assign q active) (live ++ q ∷ []) p,
    contains-assign q p active,
  )
]

contains-kept :
    (want active live : List Bytes) (p : Bytes)
    → contains (keep_wanted want active live).0 p ≡ (contains want p && contains active p)
contains-kept want active live p = ground (
  arith,
  occurs-contains (keep_wanted want active live).0 p,
  occurs-kept want active live p,
  occurs-contains active p,
)

-- Only maximal patterns are in the map after a resync.
pub resync_only :
    (grants : Bytes → Bool) (w : Wired) (p : Bytes)
    → contains (resync grants w).0.scope.active p ≡ true
    → contains (maximal_patterns (keys w.scope.desired)) p ≡ true
unfolding resync
resync_only grants w p h =
    let want = maximal_patterns (keys w.scope.desired) in
    let (kept, rest) = keep_wanted want w.scope.active w.live in
    ground (
      arith,
      subscribe_wanted_only grants want kept rest p h,
      contains-kept want w.scope.active w.live p,
    )

-- A resync that comes to its end has all of them there.
pub resync_all :
    (grants : Bytes → Bool) (w : Wired) (p : Bytes)
    → (resync grants w).1 ≡ true
    → contains (maximal_patterns (keys w.scope.desired)) p ≡ true
    → contains (resync grants w).0.scope.active p ≡ true
unfolding resync
resync_all grants w p d h =
    let want = maximal_patterns (keys w.scope.desired) in
    let (kept, rest) = keep_wanted want w.scope.active w.live in
    subscribe_wanted_all grants want kept rest p d (ground arith)
