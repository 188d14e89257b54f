-- ===== src/Gate/Tests.antt =====
-- A run of the gate, and its theorems there.
use any.Common.{true, false, [], ◌∷◌, none, some, ◌≡◌, refl, arith}
use any.Gate.{
  not_made, System, signalled, waiting, renew, current, enter, close, reset, gen_at, Reach, start,
  next_step, enters, closes, resets,
}
use any.Gate.Drain.{IsGate, Reach-IsGate, leave_all, leave_all-drains, count}

abbrev empty_gate : System
empty_gate = record { gate = record { cur = none; gens = [] }; held = [] }

abbrev two_in : System
two_in = record {
  gate = record { cur = some 0; gens = record { n = 2; closed = false; drained = not_made } ∷ [] };
  held = 0 ∷ 0 ∷ [];
}

two_in-Reach : Reach two_in
unfolding enter current renew
two_in-Reach = let first = next_step start (enters empty_gate) in next_step first (enters _)

abbrev closing : System
closing = record two_in { gate = (close two_in.gate).1 }

-- the engine goes away while two requests are in, and comes back for a third
abbrev again : System
again = record { gate = (enter (reset closing.gate)).1; held = 1 ∷ 0 ∷ 0 ∷ [] }

again-Reach : Reach again
unfolding enter current renew close
again-Reach =
    let closed_ = next_step two_in-Reach (closes two_in) in
    next_step (next_step closed_ (resets closing))
      (enters (record closing { gate = reset closing.gate }))

still_waiting : gen_at again.gate.gens 0 ≡ record { n = 2; closed = true; drained = waiting }
unfolding enter current renew close
still_waiting = refl

refused_when_closed : (enter closing.gate).0 ≡ none
unfolding enter current renew close
refused_when_closed = refl

Reach-IsGate_example : IsGate again
Reach-IsGate_example = Reach-IsGate again-Reach

leave_all-drains_example :
    (gen_at (leave_all (count 0 again.held) 0 again).gate.gens 0).drained ≡ signalled
unfolding enter current renew close
leave_all-drains_example = leave_all-drains 0 again-Reach (omega arith) refl
