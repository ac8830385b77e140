-- ===== src/Sched/Safety/Dispatch.antt =====
-- kernel/sched/core.c: a task that is let go, taken, or put back leaves the invariant.
use aetheroz.Prelude.{
  ℕ, Bool, ◌+◌, ◌≤◌, ◌<◌, ◌≡◌, ◌≢◌, refl, sym, ap, subst, ◌∙◌, inl, inr, Option, none, some, arith,
  ◌==◌, update, Bool-cases, ==→eq, ==→ne,
}
use aetheroz.Sched.{ready, running, dead, Task, Sched, max_cpus}
use aetheroz.Sched.Core.{Platform, set_task, dispatch}
use aetheroz.Sched.RunQueue.{runq_push}
use aetheroz.Sched.RunQueue.Pop.{one_if}
use aetheroz.Sched.Places.{
  total, runs, queued, on_cpus, runs-le-on_cpus, on_cpus-update, Pushed, runq_push-Pushed,
}
use aetheroz.Sched.Safety.{Inv, one_if_self, one_if_ne, state_at, state_off, set_task-Inv}

-- A task that is let go.
pub weaken : (s : Sched) (p q : ℕ → ℕ) → Inv s p → ((x : ℕ) → q x ≤ p x) → Inv s q
weaken s p q inv h = record {
  one_place = λ x. omega (arith, inv.one_place x, h x);
  waiting_ready = λ x w. inv.waiting_ready x (omega (arith, w, h x));
  dead_off = inv.dead_off;
  beyond = inv.beyond;
}

-- A CPU that gives its task up.
pub vacated-Inv :
    (s : Sched) (p : ℕ → ℕ) (cpu : ℕ)
    → cpu < max_cpus
    → Inv s p
    → Inv (record s { cpu_current = update s.cpu_current cpu none }) p
unfolding queued
vacated-Inv s p cpu h inv =
    let s' = record s { cpu_current = update s.cpu_current cpu none } in
    record {
      one_place = λ x. omega (arith, inv.one_place x, on_cpus-update s cpu none s' h refl x);
      waiting_ready = inv.waiting_ready;
      dead_off = λ x d. omega (arith, inv.dead_off x d, on_cpus-update s cpu none s' h refl x);
      beyond = inv.beyond;
    }

-- The state in which `next` may take the CPU: only the task that has it may stand elsewhere.
pub record Handing (s : Sched) (p : ℕ → ℕ) (cpu next : ℕ) : Type 0 where
  bound : (x : ℕ) → queued s x + on_cpus s x + p x + one_if next x ≤ 1 + runs (s.cpu_current cpu) x
  waiting : (x : ℕ) → 0 < queued s x + p x → (s.tasks x).state ≡ ready
  off : (x : ℕ) → (s.tasks x).state ≡ dead → on_cpus s x ≡ 0
  outside : (x : ℕ) → s.task_count ≤ x → (s.tasks x).state ≡ dead
  alive : (s.tasks next).state ≢ dead

pub dispatch-Inv :
    (env : Platform) (s : Sched) (p : ℕ → ℕ) (cpu next : ℕ)
    → cpu < max_cpus
    → Handing s p cpu next
    → Inv ((dispatch env s cpu next).1) p
unfolding dispatch queued
dispatch-Inv env s p cpu next h hd =
    let s' = (dispatch env s cpu next).1 in
    let t = record (s.tasks next) { state = running } in
    record {
      one_place = λ x. omega (arith, hd.bound x, on_cpus-update s cpu (some next) s' h refl x);
      waiting_ready = λ x w. elim (Bool-cases (next == x)) [
        | inl e ↦ absurd (
            omega (
              arith,
              w,
              hd.bound x,
              runs-le-on_cpus s cpu x h,
              subst (λ y. one_if next y ≡ 1) (==→eq _ _ e) (one_if_self next),
            ))
        | inr e ↦ state_off s.tasks next t x (==→ne _ _ e) ∙ hd.waiting x w
      ];
      dead_off = λ x d. elim (Bool-cases (next == x)) [
        | inl e ↦ absurd (let q = sym (state_at s.tasks next t x (==→eq _ _ e)) ∙ d in cc)
        | inr e ↦ omega (
          arith,
          hd.off x (sym (state_off s.tasks next t x (==→ne _ _ e)) ∙ d),
          one_if_ne next x (==→ne _ _ e),
          on_cpus-update s cpu (some next) s' h refl x,
        )
      ];
      beyond = λ x w. elim (Bool-cases (next == x)) [
        | inl e ↦
            absurd
              (hd.alive (hd.outside next (subst (λ y. s.task_count ≤ y) (sym (==→eq _ _ e)) w)))
        | inr e ↦ state_off s.tasks next t x (==→ne _ _ e) ∙ hd.outside x w
      ];
    }

-- The running task goes to the queue, and `next` takes its CPU.
pub Pushed-Handing :
    (s : Sched) (p : ℕ → ℕ) (cpu c next : ℕ) (t : Task) (s' : Sched)
    → cpu < max_cpus
    → Inv s (λ x. p x + one_if next x)
    → s.cpu_current cpu ≡ some c
    → (s.tasks c).state ≡ running
    → t.state ≡ ready
    → Pushed (set_task s c t) c s'
    → Handing s' p cpu next
unfolding queued on_cpus
Pushed-Handing s p cpu c next t s' h inv e run rdy push =
    let saved =
      set_task-Inv s (λ x. p x + one_if next x) c t inv (inl rdy) (λ k. absurd (cc))
        (λ k. absurd (cc)) in
    let on = λ (x : ℕ). ap (λ (k : ℕ → Option ℕ). total max_cpus (λ i. runs (k i) x)) push.cpus in
    let cur =
      λ (x : ℕ). ap (λ (k : ℕ → Option ℕ). runs (k cpu) x) push.cpus ∙ ap (λ o. runs o x) e in
    record {
      bound = λ x. omega (arith, inv.one_place x, push.entries x, on x, cur x);
      waiting = λ x w. push.states x ∙ elim (Bool-cases (c == x)) [
        | inl q ↦ state_at s.tasks c t x (==→eq _ _ q) ∙ rdy
        | inr q ↦
            saved.waiting_ready x (omega (arith, w, push.entries x, one_if_ne c x (==→ne _ _ q)))
      ];
      off = λ x d. on x ∙ saved.dead_off x (sym (push.states x) ∙ d);
      outside = λ x w. push.states x ∙ saved.beyond x (subst (λ n. n ≤ x) push.count w);
      alive =
          let r = saved.waiting_ready next (omega (arith, one_if_self next)) in
          λ d. absurd (let q = sym (push.states next ∙ r) ∙ d in cc);
    }

-- `next` goes back to the queue, or is let go.
pub put_back-Inv :
    (s : Sched) (p : ℕ → ℕ) (now cpu next : ℕ)
    → cpu < max_cpus
    → Inv s (λ x. p x + one_if next x)
    → Inv ((runq_push s now cpu next).1) p
unfolding on_cpus
put_back-Inv s p now cpu next h inv = elim (runq_push-Pushed s now cpu next h) [
  | inl e ↦ subst (λ (r : Bool × Sched). Inv (r.1) p) (sym e) (weaken s _ p inv (λ x. omega arith))
  | inr (s', e, push) ↦
      let on = λ (x : ℕ). ap (λ (k : ℕ → Option ℕ). total max_cpus (λ i. runs (k i) x)) push.cpus in
      subst (λ (r : Bool × Sched). Inv (r.1) p) (sym e)
        (record {
          one_place = λ x. omega (arith, inv.one_place x, push.entries x, on x);
          waiting_ready =
              λ x w. push.states x ∙ inv.waiting_ready x (omega (arith, w, push.entries x));
          dead_off = λ x d. on x ∙ inv.dead_off x (sym (push.states x) ∙ d);
          beyond = λ x w. push.states x ∙ inv.beyond x (subst (λ n. n ≤ x) push.count w);
        })
]

-- A task that has a CPU waits nowhere.
pub current_waits_nowhere :
    (s : Sched) (p : ℕ → ℕ) (cpu c : ℕ)
    → cpu < max_cpus
    → Inv s p
    → s.cpu_current cpu ≡ some c
    → queued s c + p c ≡ 0
current_waits_nowhere s p cpu c h inv e =
    omega (arith, inv.one_place c, runs-le-on_cpus s cpu c h, ap (λ o. runs o c) e, one_if_self c)

pub taken-Handing :
    (s : Sched) (p : ℕ → ℕ) (cpu next : ℕ) → Inv s (λ x. p x + one_if next x) → Handing s p cpu next
taken-Handing s p cpu next inv = record {
  bound = λ x. omega (arith, inv.one_place x);
  waiting = λ x w. inv.waiting_ready x (omega (arith, w));
  off = inv.dead_off;
  outside = inv.beyond;
  alive =
      let r = inv.waiting_ready next (omega (arith, one_if_self next)) in
      λ d. absurd (let q = sym r ∙ d in cc);
}
