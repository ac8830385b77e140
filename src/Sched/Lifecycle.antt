-- ===== src/Sched/Lifecycle.antt =====
-- kernel/sched/lifecycle.c: `tasking_init`, `create_task_prio`, `create_user_task` and `task_exit`, as far as they touch the
-- scheduler's state. `create_task_prio` gives `scheduler_lock` up before it puts the task on a run
-- queue, so it is two steps. Not modelled: the fake interrupt frame, names, kinds and cookies, the
-- release of the stack, of the user heap and of the address space.
use aetheroz.Prelude.{
  ℕ, zero, suc, ◌+◌, Bool, true, false, ◌&&◌, Option, none, some, [], ltb, if◌then◌else◌, update,
}
use aetheroz.Sched.{TaskState, running, ready, dead, Task, Sched, max_tasks, max_cpus}
use aetheroz.Sched.RunQueue.{runq_push}
use aetheroz.Sched.Core.{set_task}

-- PRIO_NORMAL.
abbrev pub prio_normal : ℕ
prio_normal = 1

abbrev pub vacant_task : Task
vacant_task = record {
  rsp = 0;
  stack_base = 0;
  state = dead;
  pml4 = 0;
  wake_at_ms = 0;
  priority = prio_normal;
  enqueue_ms = 0;
}

-- Task 0 is the kernel's main thread, which runs on CPU 0.
unfoldable pub tasking_init : (ℕ → ℕ) → (ℕ → ℕ) → Sched
tasking_init rsp0 cr3 = record {
  tasks = update (λ i. vacant_task) 0 (record vacant_task { state = running });
  task_count = 1;
  cpu_current = update (λ i. none) 0 (some 0);
  queues = λ i. [];
  current_task = 0;
  rsp0 = rsp0;
  cr3 = cr3;
}

abbrev pub is_dead : TaskState → Bool
is_dead dead = true
is_dead _ = false

-- The first dead slot of `n` from `i` on.
unfoldable pub dead_slot : Sched → ℕ → ℕ → Option ℕ
dead_slot s i zero = none
dead_slot s i (suc n) =
    let rest = dead_slot s (i + 1) n in
    if ltb i s.task_count && is_dead (s.tasks i).state then some i else rest

-- Without a dead slot, the task count grows, up to MAX_TASKS.
abbrev pub slot_or_new : Sched → Option ℕ → Option ℕ × Sched
slot_or_new s (some i) = (some i, s)
slot_or_new s none =
    if ltb s.task_count max_tasks
    then (some s.task_count, record s { task_count = s.task_count + 1 })
    else (none, s)

-- The slot that is reused or added, and the state with the new task count.
unfoldable pub take_slot : Sched → Option ℕ × Sched
take_slot s = slot_or_new s (dead_slot s 1 max_tasks)

-- The fields that a new task is given.
abbrev pub fill_slot : ℕ → ℕ → ℕ → ℕ → Option ℕ × Sched → Option ℕ × Sched
fill_slot stack frame pml4 priority (none, s) = (none, s)
fill_slot stack frame pml4 priority (some i, s) = (
  some i,
  set_task s i (record (s.tasks i) {
    rsp = frame;
    stack_base = stack;
    state = ready;
    pml4 = pml4;
    wake_at_ms = 0;
    priority = priority;
  }),
)

-- The section of `create_task_prio` under the lock; `none` where no slot is left.
unfoldable pub create_locked : Sched → ℕ → ℕ → ℕ → Option ℕ × Sched
create_locked s stack frame priority = fill_slot stack frame 0 priority (take_slot s)

-- The section of `create_user_task`: the same with an address space of its own.
unfoldable pub create_user_locked : Sched → ℕ → ℕ → ℕ → Option ℕ × Sched
create_user_locked s stack frame pml4 = fill_slot stack frame pml4 prio_normal (take_slot s)

-- What follows: the task is put on a run queue, or its slot is given back.
unfoldable pub create_push : Sched → ℕ → ℕ → ℕ → Sched
create_push s now target slot =
    let (queued, s') = runq_push s now target slot in
    if queued then s' else set_task s slot (record (s.tasks slot) { state = dead; rsp = 0 })

-- The same of `create_user_task`, which also forgets the stack.
unfoldable pub create_user_push : Sched → ℕ → ℕ → ℕ → Sched
create_user_push s now target slot =
    let (queued, s') = runq_push s now target slot in
    if queued
    then s'
    else set_task s slot (record (s.tasks slot) { state = dead; rsp = 0; stack_base = 0 })

-- The section of `task_exit` under the lock: task 0 never dies, but gives the CPU up.
unfoldable pub exit_locked : Sched → ℕ → Sched
exit_locked s cpu =
    let vacated = update s.cpu_current cpu none in
    if ltb cpu max_cpus
    then elim (s.cpu_current cpu) [
      | none ↦ record s { cpu_current = vacated }
      | some c ↦
          if ltb 0 c && ltb c s.task_count
          then record s {
            tasks =
                update s.tasks c
                  (record (s.tasks c) { stack_base = 0; pml4 = 0; state = dead; rsp = 0 });
            cpu_current = vacated;
          }
          else record s { cpu_current = vacated }
    ]
    else s
