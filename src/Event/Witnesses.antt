-- ===== src/Event/Witnesses.antt =====
-- Runs of the event queues.
use aetheroz.Prelude.{ℕ, ◌≡◌, refl, none, some, List, [], ◌∷◌, arith}
use aetheroz.Prelude.Int.{ℤ, pos, negsuc}
use aetheroz.Event.{Event, Queues, push_event_to, push_ring, pop_event, pop_ring}
use aetheroz.Event.Calls.{
  Call, pushes, pops, AllValid, view, step, run, spec_run, step-AllValid, run_refines,
}

abbrev no_event : Event
no_event = record { kind = 0; param1 = pos 0; param2 = pos 0; param3 = pos 0; win_id = pos 0 }

-- Every queue is about to go round its buffer.
abbrev near_end : Queues
near_end t = record { slots = λ i. no_event; head = 63; tail = 63 }

near_end-AllValid : AllValid near_end
near_end-AllValid t = record { head_lt = omega arith; tail_lt = omega arith }

abbrev key : ℕ → Event
key n = record { kind = 1; param1 = pos n; param2 = pos 0; param3 = pos 30; win_id = pos 2 }

abbrev press : ℤ → ℕ → Call
press t n = pushes t 1 (pos n) (pos 0) (pos 30) (pos 2)

abbrev script : List Call
script =
    press (pos 3) 97
    ∷ press (pos 3) 98
    ∷ press (negsuc 0) 99
    ∷ press (pos 16) 99
    ∷ pops (pos 3)
    ∷ pops (pos 4)
    ∷ pops (pos 3)
    ∷ pops (pos 3)
    ∷ []

run-script :
    run near_end script
    ≡ none ∷ none ∷ none ∷ none ∷ some (key 97) ∷ none ∷ some (key 98) ∷ none ∷ []
unfolding run step push_event_to push_ring pop_event pop_ring
run-script = refl

run_refines_example : run near_end script ≡ spec_run (view near_end) script
run_refines_example = run_refines script near_end near_end-AllValid

step-AllValid_example : AllValid (step near_end (press (pos 3) 97)).1
step-AllValid_example = step-AllValid near_end (press (pos 3) 97) near_end-AllValid
