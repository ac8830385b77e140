-- ===== src/Sched/Safety/Lives.antt =====
-- kernel/sched/lifecycle.c: the initial state has the invariant, and creating and ending a task
-- preserve it.
use aetheroz.Prelude.{
  ℕ, zero, suc, Bool, ◌+◌, ◌<◌, ◌≡◌, refl, sym, ap, subst, ◌∙◌, inl, inr, true, Option, none, some,
  arith, ◌==◌, ◌&&◌, ltb, update, Bool-cases, Option-cases, ==→eq, ==→ne, ltb→lt,
}
use aetheroz.Sched.{TaskState, ready, running, sleeping, dead, blocked, Sched, max_cpus, max_tasks}
use aetheroz.Sched.Lifecycle.{
  is_dead, dead_slot, slot_or_new, take_slot, fill_slot, create_locked, create_push,
  create_user_locked, create_user_push, prio_normal, exit_locked,
}
use aetheroz.Sched.RunQueue.Pop.{one_if, occurs}
use aetheroz.Sched.Places.{total, runs, queued, on_cpus, on_cpus-update, runq_push-Pushed}
use aetheroz.Sched.Safety.{Inv, one_if_self, one_if_ne, one_if_le, state_at, state_off}
use aetheroz.Sched.Safety.Dispatch.{weaken, vacated-Inv, put_back-Inv, current_waits_nowhere}
use aetheroz.Sched.Lifecycle.{vacant_task, tasking_init}
use aetheroz.Sched.Safety.Marks.{waits_nowhere, mark_ready-Inv, die-Inv}

some_inj : {i k : ℕ} → some i ≡ some k → i ≡ k
some_inj {i = i} e = ap (λ (o : Option ℕ). elim o [ none ↦ i | some j ↦ j ]) e

is_dead_inv : (st : TaskState) → is_dead st ≡ true → st ≡ dead
is_dead_inv ready e = absurd (cc)
is_dead_inv running e = absurd (cc)
is_dead_inv sleeping e = absurd (cc)
is_dead_inv dead e = refl
is_dead_inv blocked e = absurd (cc)

is_dead_slot :
    (s : Sched) (i : ℕ)
    → ltb i s.task_count && is_dead (s.tasks i).state ≡ true
    → i < s.task_count × ((s.tasks i).state ≡ dead)
is_dead_slot s i h = elim (Bool-cases (ltb i s.task_count)) [
  | inl l ↦ (ltb→lt _ _ l, is_dead_inv _ (rw l at h))
  | inr l ↦ absurd (let q = rw l at h in cc)
]

-- A slot that is found is one of the tasks, and dead.
found_dead :
    (s : Sched) (i n k : ℕ)
    → dead_slot s i n ≡ some k
    → k < s.task_count × ((s.tasks k).state ≡ dead)
unfolding dead_slot
found_dead s i zero k e = absurd (cc)
found_dead s i (suc n) k e = elim (Bool-cases (ltb i s.task_count && is_dead (s.tasks i).state)) [
  | inl h ↦
      let found : dead_slot s i (suc n) ≡ some i = rw (h, dead_slot) refl in
      let q : i ≡ k = some_inj (sym found ∙ e) in
      let (live, d) = is_dead_slot s i h in
      (subst (λ j. j < s.task_count) q live, subst (λ j. (s.tasks j).state ≡ dead) q d)
  | inr h ↦
      let rest : dead_slot s i (suc n) ≡ dead_slot s (i + 1) n = rw (h, dead_slot) refl in
      found_dead s (i + 1) n k (sym rest ∙ e)
]

-- A dead slot stands nowhere.
dead_nowhere :
    (s : Sched) (p : ℕ → ℕ) (id : ℕ)
    → Inv s p
    → (s.tasks id).state ≡ dead
    → queued s id + on_cpus s id + p id ≡ 0
dead_nowhere s p id inv d =
    omega
      (arith, inv.dead_off id d, waits_nowhere s p id inv (λ r. absurd (let q = sym r ∙ d in cc)))

-- What `take_slot` gives: a dead slot below the task count, in a state with the invariant.
data Taken (s : Sched) (p : ℕ → ℕ) : Option ℕ × Sched → Type 0 where
  no_slot : (s' : Sched) → Inv s' p → Taken s p (none, s')
  slot :
      (i : ℕ) (s' : Sched)
      → Inv s' p
      → i < s'.task_count
      → (s'.tasks i).state ≡ dead
      → Taken s p (some i, s')

take_slot-Taken : (s : Sched) (p : ℕ → ℕ) → Inv s p → Taken s p (take_slot s)
unfolding take_slot queued on_cpus
take_slot-Taken s p inv = elim (Option-cases (dead_slot s 1 max_tasks)) [
  | inr (i, e) ↦
      let (live, d) = found_dead s 1 max_tasks i e in
      subst (λ o. Taken s p (slot_or_new s o)) (sym e) (slot i s inv live d)
  | inl e ↦
      subst (λ o. Taken s p (slot_or_new s o)) (sym e)
        (elim (Bool-cases (ltb s.task_count max_tasks)) [
          | inr full ↦ rw full (no_slot s inv)
          | inl room ↦ rw room (
              slot s.task_count (record s { task_count = s.task_count + 1 })
                (record {
                  one_place = inv.one_place;
                  waiting_ready = inv.waiting_ready;
                  dead_off = inv.dead_off;
                  beyond = λ x w. inv.beyond x (omega (arith, w));
                })
                (omega arith) (inv.beyond s.task_count (omega arith)))
        ])
]

fill_slot-Inv :
    (s : Sched) (p : ℕ → ℕ) (stack frame pml4 priority : ℕ) (r : Option ℕ × Sched)
    → Taken s p r
    → Inv
        ((fill_slot stack frame pml4 priority r).1)
        (λ x. p x + runs ((fill_slot stack frame pml4 priority r).0) x)
fill_slot-Inv s p stack frame pml4 priority _ (no_slot s' inv) =
    weaken s' p _ inv (λ x. omega arith)
fill_slot-Inv s p stack frame pml4 priority _ (slot i s' inv live d) =
    mark_ready-Inv s' p i
      (record (s'.tasks i) {
        rsp = frame;
        stack_base = stack;
        state = ready;
        pml4 = pml4;
        wake_at_ms = 0;
        priority = priority;
      })
      inv live (dead_nowhere s' p i inv d) refl

pub create_locked-Inv :
    (s : Sched) (p : ℕ → ℕ) (stack frame priority : ℕ)
    → Inv s p
    → Inv
        ((create_locked s stack frame priority).1)
        (λ x. p x + runs ((create_locked s stack frame priority).0) x)
unfolding create_locked
create_locked-Inv s p stack frame priority inv =
    fill_slot-Inv s p stack frame 0 priority (take_slot s) (take_slot-Taken s p inv)

pub create_user_locked-Inv :
    (s : Sched) (p : ℕ → ℕ) (stack frame pml4 : ℕ)
    → Inv s p
    → Inv
        ((create_user_locked s stack frame pml4).1)
        (λ x. p x + runs ((create_user_locked s stack frame pml4).0) x)
unfolding create_user_locked
create_user_locked-Inv s p stack frame pml4 inv =
    fill_slot-Inv s p stack frame pml4 prio_normal (take_slot s) (take_slot-Taken s p inv)

-- The second step of a creation, on any queue.
pub create_push-Inv :
    (s : Sched) (p : ℕ → ℕ) (now target id : ℕ)
    → target < max_cpus
    → Inv s (λ x. p x + one_if id x)
    → Inv (create_push s now target id) p
unfolding create_push
create_push-Inv s p now target id h inv =
    let done = put_back-Inv s p now target id h inv in
    elim (runq_push-Pushed s now target id h) [
      | inr (s', e, push) ↦ let inv' = subst (λ (r : Bool × Sched). Inv (r.1) p) e done in rw e inv'
      | inl e ↦ rw e (
          die-Inv s p id (record (s.tasks id) { state = dead; rsp = 0 })
            (weaken s _ p inv (λ x. omega arith)) (omega (arith, inv.one_place id, one_if_self id))
            refl)
    ]

pub create_user_push-Inv :
    (s : Sched) (p : ℕ → ℕ) (now target id : ℕ)
    → target < max_cpus
    → Inv s (λ x. p x + one_if id x)
    → Inv (create_user_push s now target id) p
unfolding create_user_push
create_user_push-Inv s p now target id h inv =
    let done = put_back-Inv s p now target id h inv in
    elim (runq_push-Pushed s now target id h) [
      | inr (s', e, push) ↦ let inv' = subst (λ (r : Bool × Sched). Inv (r.1) p) e done in rw e inv'
      | inl e ↦ rw e (
          die-Inv s p id (record (s.tasks id) { state = dead; rsp = 0; stack_base = 0 })
            (weaken s _ p inv (λ x. omega arith)) (omega (arith, inv.one_place id, one_if_self id))
            refl)
    ]

pub exit_locked-Inv : (s : Sched) (p : ℕ → ℕ) (cpu : ℕ) → Inv s p → Inv (exit_locked s cpu) p
unfolding exit_locked queued
exit_locked-Inv s p cpu inv = elim (Bool-cases (ltb cpu max_cpus)) [
  | inr e ↦ rw e inv
  | inl e ↦
      let h = ltb→lt _ _ e in
      let vacated = vacated-Inv s p cpu h inv in
      let s' = record s { cpu_current = update s.cpu_current cpu none } in
      elim (Option-cases (s.cpu_current cpu)) [
        | inl o ↦ rw (e, o) vacated
        | inr (c, o) ↦ elim (Bool-cases (ltb 0 c && ltb c s.task_count)) [
          | inr l ↦ rw (e, o, l) vacated
          | inl l ↦
              let nowhere : queued s' c + on_cpus s' c + p c ≡ 0 = omega (
                arith,
                inv.one_place c,
                current_waits_nowhere s p cpu c h inv o,
                on_cpus-update s cpu none s' h refl c,
                ap (λ v. runs v c) o,
                one_if_self c,
              ) in
              rw (e, o, l)
                (die-Inv s' p c
                  (record (s.tasks c) { stack_base = 0; pml4 = 0; state = dead; rsp = 0 }) vacated
                  nowhere refl)
        ]
      ]
]

start_queued : (rsp0 cr3 : ℕ → ℕ) (x : ℕ) → queued (tasking_init rsp0 cr3) x ≡ 0
unfolding tasking_init queued total occurs
start_queued rsp0 cr3 x = refl

start_on_cpus : (rsp0 cr3 : ℕ → ℕ) (x : ℕ) → on_cpus (tasking_init rsp0 cr3) x ≡ one_if 0 x + 0
unfolding tasking_init on_cpus total
start_on_cpus rsp0 cr3 x = omega arith

-- At the start task 0 runs on CPU 0, and nothing else is alive.
pub tasking_init-Inv : (rsp0 cr3 : ℕ → ℕ) → Inv (tasking_init rsp0 cr3) (λ x. 0)
unfolding tasking_init
tasking_init-Inv rsp0 cr3 =
    let first = record vacant_task { state = running } in
    record {
      one_place =
          λ x. omega (arith, start_queued rsp0 cr3 x, start_on_cpus rsp0 cr3 x, one_if_le 0 x);
      waiting_ready = λ x w. absurd (omega (arith, w, start_queued rsp0 cr3 x));
      dead_off = λ x d. elim (Bool-cases (0 == x)) [
        | inl e ↦
            absurd (let q = sym (state_at (λ i. vacant_task) 0 first x (==→eq _ _ e)) ∙ d in cc)
        | inr e ↦ omega (arith, start_on_cpus rsp0 cr3 x, one_if_ne 0 x (==→ne _ _ e))
      ];
      beyond = λ x w. state_off (λ i. vacant_task) 0 first x (omega arith);
    }
