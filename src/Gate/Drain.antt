-- ===== src/Gate/Drain.antt =====
-- Who holds a generation of the gate, and when its channel is closed.
use any.Common.{
  ℕ, zero, suc, ◌+◌, ◌-◌, ◌<◌, ◌≤◌, Bool, true, false, List, [], ◌∷◌, Option, none, some, length,
  length-append, length-set, get_elem?, get_elem?-set, get_elem?-concat, get_elem?-some, set, ◌==◌,
  if◌then◌else◌, if_cases, ◌≡◌, ◌≢◌, refl, sym, ◌∙◌, arith, Bool-cases, inl, inr, subst,
}
use any.Gate.{
  Drained, not_made, waiting, signalled, Gen, Gate, new_gen, renew, current, current_of, gen_at,
  enter, left_gen, leave, closed_gen, close, System, hold, drop_one, holds, Step, enters, leaves,
  closes, resets, Reach, start, next_step,
}

-- how many handles of a generation are held
abbrev pub count : ℕ → List ℕ → ℕ
count i [] = 0
count i (h ∷ held) = (if h == i then 1 else 0) + count i held

-- The channel is made at the close, and closed as soon as nobody holds the generation.
abbrev pub settled : Bool → ℕ → Drained
settled closed n = if closed then (if n == 0 then signalled else waiting) else not_made

-- A generation of which `k` handles are held.
pub record IsGen (k : ℕ) (g : Gen) : Type 0 where
  pub counted : g.n ≡ k
  pub channel : g.drained ≡ settled g.closed g.n

pub record IsGate (s : System) : Type 0 where
  pub gens : (i : ℕ) (g : Gen) → get_elem? s.gate.gens i ≡ some g → IsGen (count i s.held) g
  pub known : (i : ℕ) → holds s.held i ≡ true → i < length s.gate.gens
  pub here : (i : ℕ) → s.gate.cur ≡ some i → i < length s.gate.gens

count_none : (held : List ℕ) (i : ℕ) → holds held i ≡ false → count i held ≡ 0
count_none [] i h = refl
count_none (x ∷ held) i h = ground (arith, count_none held i)

count_some : (held : List ℕ) (i : ℕ) → holds held i ≡ true → 1 ≤ count i held
count_some [] i h = cc
count_some (x ∷ held) i h = ground (arith, count_some held i)

count-drop_one :
    (held : List ℕ) (i j : ℕ)
    → holds held i ≡ true
    → count j (drop_one i held) ≡ (if i == j then count j held - 1 else count j held)
unfolding drop_one
count-drop_one [] i j h = cc
count-drop_one (x ∷ held) i j h = ground (arith, count-drop_one held i j, count_some held i)

holds-drop_one : (held : List ℕ) (i j : ℕ) → holds (drop_one i held) j ≡ true → holds held j ≡ true
unfolding drop_one
holds-drop_one [] i j h = cc
holds-drop_one (x ∷ held) i j h = ground (arith, holds-drop_one held i j)

-- A new generation comes in, which nobody holds.
renew-IsGate : (s : System) → IsGate s → IsGate (record s { gate = renew s.gate })
unfolding renew
renew-IsGate s inv = record {
  gens = λ i g h. elim (Bool-cases (length s.gate.gens == i)) [
    | inl e ↦
        let is_new : new_gen ≡ g = ground (arith, get_elem?-concat s.gate.gens new_gen i) in
        let fresh : count i s.held ≡ 0 = elim (Bool-cases (holds s.held i)) [
          | inl k ↦ absurd (ground (arith, inv.known i k))
          | inr k ↦ count_none s.held i k
        ] in
        subst (λ (g' : Gen). IsGen (count i s.held) g') is_new
          (record { counted = sym fresh; channel = refl })
    | inr e ↦ inv.gens i g (ground (arith, get_elem?-concat s.gate.gens new_gen i))
  ];
  known = λ i h. omega (arith, inv.known i h, length-append s.gate.gens (new_gen ∷ []));
  here = λ i h. ground (arith, length-append s.gate.gens (new_gen ∷ []));
}

-- One generation changes, and the handles that are held of it.
set-IsGate :
    (s : System) (i : ℕ) (g : Gen) (held : List ℕ)
    → IsGate s
    → i < length s.gate.gens
    → IsGen (count i held) g
    → ((j : ℕ) → i ≢ j → count j held ≡ count j s.held)
    → ((j : ℕ) → holds held j ≡ true → j < length s.gate.gens)
    → IsGate (record { gate = record s.gate { gens = set s.gate.gens i g }; held = held })
set-IsGate s i g held inv range gen others known = record {
  gens = λ j g' h. elim (Bool-cases (i == j)) [
    | inl e ↦
        let same : i ≡ j = ground arith in
        let is_g : g ≡ g' = ground (arith, get_elem?-set s.gate.gens i g j range) in
        subst (λ (g'' : Gen). IsGen (count j held) g'') is_g
          (subst (λ (k : ℕ). IsGen (count k held) g) same gen)
    | inr e ↦
        let apart : i ≢ j = (λ k. ground arith) in
        subst (λ (c : ℕ). IsGen c g') (sym (others j apart))
          (inv.gens j g' (ground (arith, get_elem?-set s.gate.gens i g j range)))
  ];
  known = λ j h. omega (arith, known j h, length-set s.gate.gens i g);
  here = λ j h. omega (arith, inv.here j h, length-set s.gate.gens i g);
}

-- The current generation is one of those that there are.
IsCurrent : List ℕ → ℕ × Gate → Type 0
IsCurrent held (i, g) = IsGate (record { gate = g; held = held }) × (i < length g.gens)

current_of-IsCurrent :
    (g : Gate) (held : List ℕ) (o : Option ℕ)
    → IsGate (record { gate = g; held = held })
    → g.cur ≡ o
    → IsCurrent held (current_of g o)
unfolding current_of IsCurrent
current_of-IsCurrent g held none inv e = (
  renew-IsGate (record { gate = g; held = held }) inv,
  unfold renew in omega (arith, length-append g.gens (new_gen ∷ [])),
)
current_of-IsCurrent g held (some i) inv e = (inv, inv.here i e)

gen_at_lem : (gens : List Gen) (i : ℕ) → i < length gens → get_elem? gens i ≡ some (gen_at gens i)
gen_at_lem gens i h = let (g, e) = get_elem?-some gens i h in ground (arith, e)

enter_of-IsGate :
    (g : Gate) (held : List ℕ) (i : ℕ)
    → IsCurrent held (i, g)
    → (gen_at g.gens i).closed ≡ false
    → IsGate (record {
      gate = record g {
        gens = set g.gens i (record (gen_at g.gens i) { n = (gen_at g.gens i).n + 1 });
      };
      held = i ∷ held;
    })
unfolding IsCurrent
enter_of-IsGate g held i (inv, range) open_ =
    let gen = inv.gens i (gen_at g.gens i) (gen_at_lem g.gens i range) in
    set-IsGate (record { gate = g; held = held }) i
      (record (gen_at g.gens i) { n = (gen_at g.gens i).n + 1 }) (i ∷ held) inv range
      (record { counted = ground (arith, gen.counted); channel = ground (arith, gen.channel) })
      (λ j apart. ground arith)
      (λ j h. elim (Bool-cases (i == j)) [
        | inl e ↦ ground arith
        | inr e ↦ inv.known j (ground arith)
      ])

enter-IsGate :
    (s : System)
    → IsGate s
    → IsGate (record { gate = (enter s.gate).1; held = hold (enter s.gate).0 s.held })
unfolding enter current
enter-IsGate s inv =
    let (i, g) = current s.gate in
    let now = current_of-IsCurrent s.gate s.held s.gate.cur inv refl in
    if_cases (λ (r : Option ℕ × Gate). IsGate (record { gate = r.1; held = hold r.0 s.held }))
      (gen_at g.gens i).closed _ _ (λ _. (unfold IsCurrent in now.0))
      (λ e. enter_of-IsGate g s.held i now e)

leave-IsGate :
    (s : System) (i : ℕ)
    → IsGate s
    → holds s.held i ≡ true
    → IsGate (record { gate = leave i s.gate; held = drop_one i s.held })
unfolding leave
leave-IsGate s i inv h =
    let range = inv.known i h in
    let g = gen_at s.gate.gens i in
    let gen = inv.gens i g (gen_at_lem s.gate.gens i range) in
    set-IsGate s i (left_gen g (g.n - 1)) (drop_one i s.held) inv range
      (record {
        counted = ground (arith, gen.counted, count-drop_one s.held i i h);
        channel = ground (arith, gen.counted, gen.channel, count_some s.held i h);
      })
      (λ j apart. ground (arith, count-drop_one s.held i j h))
      (λ j k. inv.known j (holds-drop_one s.held i j k))

close-IsGate : (s : System) → IsGate s → IsGate (record s { gate = (close s.gate).1 })
unfolding close current
close-IsGate s inv =
    let (i, g) = current s.gate in
    let now = current_of-IsCurrent s.gate s.held s.gate.cur inv refl in
    close_of g i (unfold IsCurrent in now.0) (unfold IsCurrent in now.1)
  where
    close_of :
        (g : Gate) (i : ℕ)
        → IsGate (record { gate = g; held = s.held })
        → i < length g.gens
        → IsGate (record {
          gate = record g { gens = set g.gens i (closed_gen (gen_at g.gens i)) };
          held = s.held;
        })
    close_of g i inv' range =
        let gen = inv'.gens i (gen_at g.gens i) (gen_at_lem g.gens i range) in
        set-IsGate (record { gate = g; held = s.held }) i (closed_gen (gen_at g.gens i)) s.held inv'
          range
          (record { counted = ground (arith, gen.counted); channel = ground (arith, gen.channel) })
          (λ j apart. refl) inv'.known

Step-IsGate : {s t : System} → Step s t → IsGate s → IsGate t
Step-IsGate (enters s) inv = enter-IsGate s inv
Step-IsGate (leaves s i h) inv = leave-IsGate s i inv h
Step-IsGate (closes s) inv = close-IsGate s inv
Step-IsGate (resets s) inv = renew-IsGate s inv

-- However requests enter and leave, the engine is closed and starts again: a generation counts just
-- the requests that hold it, also those that outlive later generations, and its channel is made when
-- it is closed and is closed itself exactly while nobody holds the generation.
pub Reach-IsGate : {s : System} → Reach s → IsGate s
Reach-IsGate start = record { gens = λ i g h. cc; known = λ i h. cc; here = λ i h. cc }
Reach-IsGate (next_step r st) = Step-IsGate st (Reach-IsGate r)

-- everybody who holds the generation leaves, `k` of them at most
unfoldable pub leave_all : ℕ → ℕ → System → System
leave_all zero i s = s
leave_all (suc k) i s =
    let rest = leave_all k i (record { gate = leave i s.gate; held = drop_one i s.held }) in
    if holds s.held i then rest else s

signalled_of : (k : ℕ) (g : Gen) → IsGen k g → g.closed ≡ true → k ≡ 0 → g.drained ≡ signalled
signalled_of k g gen c e = ground (arith, gen.counted, gen.channel)

leave-closed :
    (i : ℕ) (s : System)
    → IsGate s
    → holds s.held i ≡ true
    → (gen_at (leave i s.gate).gens i).closed ≡ (gen_at s.gate.gens i).closed
unfolding leave
leave-closed i s inv h = ground (
  arith,
  inv.known i h,
  get_elem?-set s.gate.gens i (left_gen (gen_at s.gate.gens i) ((gen_at s.gate.gens i).n - 1)) i,
)

leave_all-signalled :
    (k i : ℕ) (s : System)
    → IsGate s
    → i < length s.gate.gens
    → (gen_at s.gate.gens i).closed ≡ true
    → count i s.held ≤ k
    → (gen_at (leave_all k i s).gate.gens i).drained ≡ signalled
unfolding leave_all
leave_all-signalled zero i s inv range c h =
    signalled_of (count i s.held) (gen_at s.gate.gens i)
      (inv.gens i (gen_at s.gate.gens i) (gen_at_lem s.gate.gens i range)) c (omega arith)
leave_all-signalled (suc k) i s inv range c h = elim (Bool-cases (holds s.held i)) [
  | inr e ↦ rw e (
      signalled_of (count i s.held) (gen_at s.gate.gens i)
        (inv.gens i (gen_at s.gate.gens i) (gen_at_lem s.gate.gens i range)) c
        (count_none s.held i e))
  | inl e ↦ rw e (
      leave_all-signalled k i (record { gate = leave i s.gate; held = drop_one i s.held })
        (leave-IsGate s i inv e) (unfold leave in rw (length-set s.gate.gens i _) range)
        (leave-closed i s inv e ∙ c) (ground (arith, count-drop_one s.held i i e)))
]

-- From any state that is reached: once those that hold a closed generation have left, its channel is
-- closed, so that whoever waits for the drain goes on.
pub leave_all-drains :
    {s : System} (i : ℕ)
    → Reach s
    → i < length s.gate.gens
    → (gen_at s.gate.gens i).closed ≡ true
    → (gen_at (leave_all (count i s.held) i s).gate.gens i).drained ≡ signalled
leave_all-drains {s} i r range c =
    leave_all-signalled (count i s.held) i s (Reach-IsGate r) range c (omega arith)
