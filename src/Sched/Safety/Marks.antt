-- ===== src/Sched/Safety/Marks.antt =====
-- kernel/sched: a task that waits nowhere is marked ready or dead.
use aetheroz.Prelude.{
  ℕ, ◌+◌, ◌≤◌, ◌<◌, ◌≡◌, ◌≢◌, sym, subst, ◌∙◌, inl, inr, arith, ◌==◌, Bool-cases, ==→eq, ==→ne,
}
use aetheroz.Sched.{ready, dead, Task, Sched}
use aetheroz.Sched.Core.{set_task}
use aetheroz.Sched.RunQueue.Pop.{one_if}
use aetheroz.Sched.Places.{queued, on_cpus}
use aetheroz.Sched.Safety.{Inv, one_if_ne, one_if_le, state_at, state_off}

pub waits_nowhere :
    (s : Sched) (p : ℕ → ℕ) (id : ℕ) → Inv s p → (s.tasks id).state ≢ ready → queued s id + p id ≡ 0
waits_nowhere s p id inv h = elim (Bool-cases (queued s id + p id == 0)) [
  | inl e ↦ ==→eq _ _ e
  | inr e ↦ absurd (h (inv.waiting_ready id (omega (arith, ==→ne _ _ e))))
]

-- A task that stands nowhere is made ready, and is about to be put on a queue.
pub mark_ready-Inv :
    (s : Sched) (p : ℕ → ℕ) (id : ℕ) (t : Task)
    → Inv s p
    → id < s.task_count
    → queued s id + on_cpus s id + p id ≡ 0
    → t.state ≡ ready
    → Inv (set_task s id t) (λ x. p x + one_if id x)
unfolding queued on_cpus
mark_ready-Inv s p id t inv live h rdy = record {
  one_place = λ x. elim (Bool-cases (id == x)) [
    | inl e ↦
        let here = subst (λ y. queued s y + on_cpus s y + p y ≡ 0) (==→eq _ _ e) h in
        let fits : queued s x + on_cpus s x + (p x + one_if id x) ≤ 1 =
          omega (arith, here, one_if_le id x) in
        fits
    | inr e ↦
        let fits : queued s x + on_cpus s x + (p x + one_if id x) ≤ 1 =
          omega (arith, inv.one_place x, one_if_ne id x (==→ne _ _ e)) in
        fits
  ];
  waiting_ready = λ x w. elim (Bool-cases (id == x)) [
    | inl e ↦ state_at s.tasks id t x (==→eq _ _ e) ∙ rdy
    | inr e ↦
        state_off s.tasks id t x (==→ne _ _ e)
        ∙ inv.waiting_ready x (omega (arith, w, one_if_ne id x (==→ne _ _ e)))
  ];
  dead_off = λ x d. elim (Bool-cases (id == x)) [
    | inl e ↦ absurd (let q = sym (state_at s.tasks id t x (==→eq _ _ e) ∙ rdy) ∙ d in cc)
    | inr e ↦ inv.dead_off x (sym (state_off s.tasks id t x (==→ne _ _ e)) ∙ d)
  ];
  beyond = λ x w. elim (Bool-cases (id == x)) [
    | inl e ↦ absurd (omega (arith, w, live, ==→eq _ _ e))
    | inr e ↦ state_off s.tasks id t x (==→ne _ _ e) ∙ inv.beyond x w
  ];
}

-- A task that stands nowhere dies.
pub die-Inv :
    (s : Sched) (p : ℕ → ℕ) (id : ℕ) (t : Task)
    → Inv s p
    → queued s id + on_cpus s id + p id ≡ 0
    → t.state ≡ dead
    → Inv (set_task s id t) p
unfolding queued on_cpus
die-Inv s p id t inv h die = record {
  one_place = inv.one_place;
  waiting_ready = λ x w. elim (Bool-cases (id == x)) [
    | inl e ↦
        absurd (omega (arith, w, subst (λ y. queued s y + on_cpus s y + p y ≡ 0) (==→eq _ _ e) h))
    | inr e ↦ state_off s.tasks id t x (==→ne _ _ e) ∙ inv.waiting_ready x w
  ];
  dead_off = λ x d. elim (Bool-cases (id == x)) [
    | inl e ↦ omega (arith, subst (λ y. queued s y + on_cpus s y + p y ≡ 0) (==→eq _ _ e) h)
    | inr e ↦ inv.dead_off x (sym (state_off s.tasks id t x (==→ne _ _ e)) ∙ d)
  ];
  beyond = λ x w. elim (Bool-cases (id == x)) [
    | inl e ↦ state_at s.tasks id t x (==→eq _ _ e) ∙ die
    | inr e ↦ state_off s.tasks id t x (==→ne _ _ e) ∙ inv.beyond x w
  ];
}
