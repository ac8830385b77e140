-- ===== src/Event/Calls.antt =====
-- All tasks' queues together: any sequence of calls of `push_event_to`, `pop_event` and
-- `flush_event_queue` is answered as by one bounded FIFO for each task.
use aetheroz.Prelude.{
  ℕ, ◌≡◌, refl, ap, ◌∙◌, fun_ext, inl, inr, Option, none, some, List, [], ◌∷◌, arith, ◌==◌, update,
  Bool-cases, Option-cases,
}
use aetheroz.Prelude.Int.{ℤ}
use aetheroz.Event.{
  Event, Ring, Queues, valid_id, push_event_to, pop_ring, pop_event, flush_event_queue,
}
use aetheroz.Event.Fifo.{enqueue, dequeue}
use aetheroz.Event.Refine.{
  contents, contents_empty, IsValid, push_ring-IsValid, push_ring_refines, pop_ring-IsValid,
  pop_ring_refines,
}

-- A call, by its task id and arguments.
pub data Call : Type 0 where
  pushes : ℤ → ℕ → ℤ → ℤ → ℤ → ℤ → Call
  pops : ℤ → Call
  flushes : ℤ → Call

-- A call's answer and the queues after it. Only `pop_event` returns an event.
unfoldable pub step : Queues → Call → Option Event × Queues
step qs (pushes id kind p1 p2 p3 win) = (none, push_event_to qs id kind p1 p2 p3 win)
step qs (pops id) = pop_event qs id
step qs (flushes id) = (none, flush_event_queue qs id)

unfoldable pub run : Queues → List Call → List (Option Event)
run qs [] = []
run qs (c ∷ cs) = let (out, qs') = step qs c in out ∷ run qs' cs

-- The same calls on one FIFO for each task; an id that names no task has none.
abbrev Fifos : Type 0
Fifos = ℕ → List Event

pub spec_step : Fifos → Call → Option Event × Fifos
spec_step fs (pushes id kind p1 p2 p3 win) = elim (valid_id id) [
  | none ↦ (none, fs)
  | some t ↦ (
    none,
    update fs t (
        enqueue (fs t)
          (record { kind = kind; param1 = p1; param2 = p2; param3 = p3; win_id = win })),
  )
]
spec_step fs (pops id) = elim (valid_id id) [
  | none ↦ (none, fs)
  | some t ↦ let (out, q) = dequeue (fs t) in (out, update fs t q)
]
spec_step fs (flushes id) = elim (valid_id id) [
  | none ↦ (none, fs)
  | some t ↦ (none, update fs t [])
]

pub spec_run : Fifos → List Call → List (Option Event)
spec_run fs [] = []
spec_run fs (c ∷ cs) = let (out, fs') = spec_step fs c in out ∷ spec_run fs' cs

abbrev pub view : Queues → Fifos
view qs t = contents (qs t)

abbrev pub AllValid : Queues → Type 0
AllValid qs = (t : ℕ) → IsValid (qs t)

view-update :
    (qs : Queues) (t : ℕ) (r : Ring) → view (update qs t r) ≡ update (view qs) t (contents r)
view-update qs t r = fun_ext (λ j. ground arith)

update-AllValid :
    (qs : Queues) (t : ℕ) (r : Ring) → AllValid qs → IsValid r → AllValid (update qs t r)
update-AllValid qs t r v w j = elim (Bool-cases (t == j)) [ inl e ↦ rw e w | inr e ↦ rw e (v j) ]

-- Every call keeps the indices of every queue inside its buffer.
pub step-AllValid : (qs : Queues) (c : Call) → AllValid qs → AllValid (step qs c).1
unfolding step push_event_to pop_event flush_event_queue
step-AllValid qs (pushes id kind p1 p2 p3 win) v = elim (Option-cases (valid_id id)) [
  | inl e ↦ rw (e, push_event_to) v
  | inr (t, e) ↦ rw (e, push_event_to) (update-AllValid qs t _ v (push_ring-IsValid (qs t) _ (v t)))
]
step-AllValid qs (pops id) v = elim (Option-cases (valid_id id)) [
  | inl e ↦ rw (e, pop_event) v
  | inr (t, e) ↦ rw (e, pop_event) (update-AllValid qs t _ v (pop_ring-IsValid (qs t) (v t)))
]
step-AllValid qs (flushes id) v = elim (Option-cases (valid_id id)) [
  | inl e ↦ rw (e, flush_event_queue) v
  | inr (t, e) ↦
      rw (e, flush_event_queue)
        (update-AllValid qs t _ v (record { head_lt = omega arith; tail_lt = omega arith }))
]

-- One call and its specification answer alike, and keep the queues and the FIFOs alike.
step_refines :
    (qs : Queues) (c : Call)
    → AllValid qs
    → let (out, qs') = step qs c in (out, view qs') ≡ spec_step (view qs) c
unfolding step spec_step push_event_to pop_event flush_event_queue
step_refines qs (pushes id kind p1 p2 p3 win) v = elim (Option-cases (valid_id id)) [
  | inl e ↦ rw (e, push_event_to, spec_step) refl
  | inr (t, e) ↦
      rw (e, push_event_to, spec_step)
        (ap (λ (q : Fifos). (none, q))
          (view-update qs t _ ∙ ap (update (view qs) t) (push_ring_refines (qs t) _ (v t))))
]
step_refines qs (pops id) v = elim (Option-cases (valid_id id)) [
  | inl e ↦ rw (e, pop_event, spec_step) refl
  | inr (t, e) ↦
      rw (e, pop_event, spec_step)
        (ap (λ (q : Fifos). ((pop_ring (qs t)).0, q)) (view-update qs t _)
          ∙ ap (λ (o : Option Event × List Event). (o.0, update (view qs) t o.1))
              (pop_ring_refines (qs t) (v t)))
]
step_refines qs (flushes id) v = elim (Option-cases (valid_id id)) [
  | inl e ↦ rw (e, flush_event_queue, spec_step) refl
  | inr (t, e) ↦
      rw (e, flush_event_queue, spec_step)
        (ap (λ (q : Fifos). (none, q))
          (view-update qs t _ ∙ ap (update (view qs) t) (contents_empty (qs t))))
]

-- No sequence of calls, with whatever task ids, tells the circular buffers from one FIFO of at most
-- 63 events for each task that drops its oldest event when full: `pop_event` answers the same.
pub run_refines : (cs : List Call) (qs : Queues) → AllValid qs → run qs cs ≡ spec_run (view qs) cs
unfolding run spec_run
run_refines [] qs v = refl
run_refines (c ∷ cs) qs v =
    rw (run_refines cs (step qs c).1 (step-AllValid qs c v))
      (ap (λ (o : Option Event × Fifos). o.0 ∷ spec_run o.1 cs) (step_refines qs c v))
