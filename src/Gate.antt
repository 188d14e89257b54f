-- ===== src/Gate.antt =====
-- internal/server/gate.go: the gate that requests hold while the engine is up. A pointer to a
-- generation is its index, a channel that is closed at most once is one of three states. Every method
-- runs under the gate's lock. The proofs are in the module below.
pub mod Drain
mod Tests
use any.Common.{
  ℕ, zero, suc, ◌+◌, ◌-◌, Bool, true, false, not, ◌&&◌, List, [], ◌∷◌, ◌++◌, Option, none, some,
  length, get_elem?, set, ◌==◌, ◌≡◌, if◌then◌else◌,
}

-- `drained`: nil because it was not made, open, or closed and set to nil
pub data Drained : Type 0 where
  not_made waiting signalled : Drained

-- the struct gateGen
pub record Gen : Type 0 where
  pub n : ℕ
  pub closed : Bool
  pub drained : Drained

-- the struct engineGate, with all generations that there were
pub record Gate : Type 0 where
  pub cur : Option ℕ
  pub gens : List Gen

abbrev pub new_gen : Gen
new_gen = record { n = 0; closed = false; drained = not_made }

-- &gateGen{}, made the current one
unfoldable pub renew : Gate → Gate
renew g = record { cur = some (length g.gens); gens = g.gens ++ new_gen ∷ [] }

-- if g.cur == nil { g.cur = &gateGen{} }
current_of : Gate → Option ℕ → ℕ × Gate
current_of g none = (length g.gens, renew g)
current_of g (some i) = (i, g)

unfoldable pub current : Gate → ℕ × Gate
unfolding renew current_of
current g = current_of g g.cur

abbrev pub gen_at : List Gen → ℕ → Gen
gen_at gens i = elim (get_elem? gens i) [ none ↦ new_gen | some gen ↦ gen ]

-- enter: the generation entered; `none` is nil
unfoldable pub enter : Gate → Option ℕ × Gate
unfolding current
enter g =
    let (i, g') = current g in
    let gen = gen_at g'.gens i in
    if gen.closed
    then (none, g')
    else (some i, record g' { gens = set g'.gens i (record gen { n = gen.n + 1 }) })

-- the generation after a leave, where `n` is the count behind it
abbrev pub left_gen : Gen → ℕ → Gen
left_gen gen n =
    if n == 0 && gen.closed
    then record gen { n = n; drained = elim gen.drained [ waiting ↦ signalled | other ↦ other ] }
    else record gen { n = n }

-- leave(h), by one who has entered and not left
unfoldable pub leave : ℕ → Gate → Gate
leave i g = let gen = gen_at g.gens i in record g { gens = set g.gens i (left_gen gen (gen.n - 1)) }

-- the generation after a close
abbrev pub closed_gen : Gen → Gen
closed_gen gen =
    if not gen.closed
    then record gen { closed = true; drained = if gen.n == 0 then signalled else waiting }
    else gen

-- close: whether the channel that it returns is closed already
unfoldable pub close : Gate → Bool × Gate
unfolding current
close g =
    let (i, g') = current g in
    let gen = closed_gen (gen_at g'.gens i) in
    (elim gen.drained [ waiting ↦ false | _ ↦ true ], record g' { gens = set g'.gens i gen })

abbrev pub reset : Gate → Gate
reset g = renew g

-- A gate and the handles that requests hold: entered, and not left.
pub record System : Type 0 where
  pub gate : Gate
  pub held : List ℕ

abbrev pub hold : Option ℕ → List ℕ → List ℕ
hold none held = held
hold (some i) held = i ∷ held

-- one handle less
unfoldable pub drop_one : ℕ → List ℕ → List ℕ
drop_one i [] = []
drop_one i (h ∷ held) = let rest = drop_one i held in if h == i then held else h ∷ rest

abbrev pub holds : List ℕ → ℕ → Bool
holds [] i = false
holds (h ∷ held) i = if h == i then true else holds held i

-- Requests enter and leave, and the engine is closed and started, in any order.
pub data Step : System → System → Type 0 where
  enters :
      (s : System)
      → Step s (record { gate = (enter s.gate).1; held = hold (enter s.gate).0 s.held })
  leaves :
      (s : System) (i : ℕ)
      → holds s.held i ≡ true
      → Step s (record { gate = leave i s.gate; held = drop_one i s.held })
  closes : (s : System) → Step s (record s { gate = (close s.gate).1 })
  resets : (s : System) → Step s (record s { gate = reset s.gate })

pub data Reach : System → Type 0 where
  start : Reach (record { gate = record { cur = none; gens = [] }; held = [] })
  next_step : {s t : System} → Reach s → Step s t → Reach t
