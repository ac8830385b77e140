-- ===== src/Sched/Safety.antt =====
-- kernel/sched: a task stands in at most one place. The invariant of the scheduler's state, and that
-- the parts of `schedule_on_cpu` preserve it. `p x` counts the wakers and creators that have marked `x`
-- ready and are about to put it on a run queue, and a CPU that has taken it out of one.
pub mod Dispatch
pub mod Schedule
pub mod Marks
pub mod Wakes
pub mod Lives
pub mod Steps
use aetheroz.Prelude.{
  ℕ, ◌+◌, ◌≤◌, ◌<◌, ◌≡◌, ◌≢◌, refl, sym, ap, subst, ◌∙◌, ◌⊎◌, inl, inr, true, false, Option, none,
  some, arith, ◌==◌, if◌then◌else◌, update, update_self, update_ne, Bool-cases, ==→eq, ==→ne,
}
use aetheroz.Sched.{TaskState, ready, running, dead, Task, Sched, max_cpus}
use aetheroz.Sched.Core.{Platform, set_task, dispatch}
use aetheroz.Sched.RunQueue.Pop.{one_if}
use aetheroz.Sched.Places.{
  total, runs, queued, on_cpus, runs-le-on_cpus, on_cpus-update, Popped, Pushed,
}

pub record Inv (s : Sched) (p : ℕ → ℕ) : Type 0 where
  pub one_place : (x : ℕ) → queued s x + on_cpus s x + p x ≤ 1
  pub waiting_ready : (x : ℕ) → 0 < queued s x + p x → (s.tasks x).state ≡ ready
  pub dead_off : (x : ℕ) → (s.tasks x).state ≡ dead → on_cpus s x ≡ 0
  pub beyond : (x : ℕ) → s.task_count ≤ x → (s.tasks x).state ≡ dead

pub one_if_self : (x : ℕ) → one_if x x ≡ 1
one_if_self x = ground arith

pub one_if_ne : (x y : ℕ) → x ≢ y → one_if x y ≡ 0
one_if_ne x y h = ground arith

pub state_at :
    (f : ℕ → Task) (id : ℕ) (t : Task) (x : ℕ) → id ≡ x → (update f id t x).state ≡ t.state
state_at f id t x q =
    ap (λ (v : Task). v.state) (subst (λ y. update f id t y ≡ t) q (update_self f id t))

pub state_off :
    (f : ℕ → Task) (id : ℕ) (t : Task) (x : ℕ) → id ≢ x → (update f id t x).state ≡ (f x).state
state_off f id t x h = ap (λ (v : Task). v.state) (update_ne f id t h)

pub one_if_le : (x y : ℕ) → one_if x y ≤ 1
one_if_le x y = ground arith

-- A task that waits nowhere, or becomes ready, changes in any way but to die or to come alive.
pub set_task-Inv :
    (s : Sched) (p : ℕ → ℕ) (id : ℕ) (t : Task)
    → Inv s p
    → (t.state ≡ ready) ⊎ (queued s id + p id ≡ 0)
    → (s.tasks id).state ≢ dead
    → t.state ≢ dead
    → Inv (set_task s id t) p
unfolding queued on_cpus
set_task-Inv s p id t inv h alive alive' = record {
  one_place = inv.one_place;
  waiting_ready = λ x w. elim (Bool-cases (id == x)) [
    | inl e ↦ elim h [
      | inl r ↦ state_at s.tasks id t x (==→eq _ _ e) ∙ r
      | inr z ↦ absurd (omega (arith, w, subst (λ y. queued s y + p y ≡ 0) (==→eq _ _ e) z))
    ]
    | inr e ↦ state_off s.tasks id t x (==→ne _ _ e) ∙ inv.waiting_ready x w
  ];
  dead_off = λ x w. elim (Bool-cases (id == x)) [
    | inl e ↦ absurd (alive' (sym (state_at s.tasks id t x (==→eq _ _ e)) ∙ w))
    | inr e ↦ inv.dead_off x (sym (state_off s.tasks id t x (==→ne _ _ e)) ∙ w)
  ];
  beyond = λ x w. elim (Bool-cases (id == x)) [
    | inl e ↦ absurd (alive (inv.beyond id (subst (λ y. s.task_count ≤ y) (sym (==→eq _ _ e)) w)))
    | inr e ↦ state_off s.tasks id t x (==→ne _ _ e) ∙ inv.beyond x w
  ];
}

-- What moves between the queues and the hands that hold a task leaves the invariant.
pub Popped-Inv :
    (s : Sched) (p : ℕ → ℕ) (id : ℕ) (s' : Sched)
    → Inv s p
    → Popped s id s'
    → Inv s' (λ x. p x + one_if id x)
unfolding on_cpus
Popped-Inv s p id s' inv t =
    let on =
      λ (x : ℕ). (ap (λ (k : ℕ → Option ℕ). total max_cpus (λ i. runs (k i) x)) t.same.cpus) in
    record {
      one_place = λ x. omega (arith, inv.one_place x, t.entries x, on x);
      waiting_ready = λ x w.
          ap (λ (k : ℕ → Task). (k x).state) t.same.tasks
          ∙ inv.waiting_ready x (omega (arith, w, t.entries x));
      dead_off =
          λ x w. on x ∙ inv.dead_off x (sym (ap (λ (k : ℕ → Task). (k x).state) t.same.tasks) ∙ w);
      beyond = λ x w.
          ap (λ (k : ℕ → Task). (k x).state) t.same.tasks
          ∙ inv.beyond x (subst (λ n. n ≤ x) t.same.count w);
    }
