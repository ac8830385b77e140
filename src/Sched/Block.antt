-- ===== src/Sched/Block.antt =====
-- kernel/sched/block.c: voluntary blocking and waking. `unblock_task` gives `scheduler_lock` up before
-- it puts the task on a run queue, so it is two steps. The reschedule interrupts are not modelled.
use aetheroz.Prelude.{
  ℕ, zero, suc, ◌+◌, Bool, true, false, ◌&&◌, not, Option, none, some, List, [], ◌∷◌, ltb, leb,
  ◌==◌, if◌then◌else◌,
}
use aetheroz.Sched.{TaskState, ready, running, sleeping, blocked, Sched, max_tasks, max_cpus}
use aetheroz.Sched.RunQueue.{runq_push, pick_target_cpu}
use aetheroz.Sched.Core.{set_task, set_state}

abbrev pub is_wait_state : TaskState → Bool
is_wait_state sleeping = true
is_wait_state blocked = true
is_wait_state _ = false

abbrev pub is_running : TaskState → Bool
is_running running = true
is_running _ = false

-- The task that the CPU runs, if it is one of the tasks.
abbrev pub self_of : Sched → ℕ → Option ℕ
self_of s cpu =
    if ltb cpu max_cpus
    then elim (s.cpu_current cpu) [
      | none ↦ none
      | some c ↦ if ltb c s.task_count then some c else none
    ]
    else none

-- `none` is -1.
unfoldable pub block_prepare : Sched → ℕ → TaskState → Option ℕ × Sched
block_prepare s cpu new_state =
    if not (is_wait_state new_state) then (none, s) else elim (self_of s cpu) [
      | none ↦ (none, s)
      | some self ↦
          if is_running (s.tasks self).state
          then (some self, set_state s self new_state)
          else (none, s)
    ]

-- The section of `task_sleep_ms` under the lock, which `block_current_task` follows.
unfoldable pub sleep_mark : Sched → ℕ → ℕ → Sched
sleep_mark s cpu target = elim (self_of s cpu) [
  | none ↦ s
  | some self ↦ set_task s self (record (s.tasks self) { wake_at_ms = target })
]

-- The CPU on which a task is parked: the first of `n` from `i` on.
unfoldable pub find_cpu : Sched → ℕ → ℕ → ℕ → Option ℕ
find_cpu s id i zero = none
find_cpu s id i (suc n) =
    let rest = find_cpu s id (i + 1) n in
    elim (s.cpu_current i) [ none ↦ rest | some c ↦ if c == id then some i else rest ]

-- What `unblock_task` has left to do when it gives the lock up: nothing, interrupt the CPU on which
-- the task is parked, or put the task on a run queue.
pub data Wake : Type 0 where
  nothing : Wake
  kick : ℕ → Wake
  enqueue : Wake

unfoldable pub unblock_locked : Sched → ℕ → Wake × Sched
unblock_locked s id =
    let woken = record (s.tasks id) { wake_at_ms = 0; state = running } in
    let made_ready = record (s.tasks id) { wake_at_ms = 0; state = ready } in
    if leb max_tasks id
    then (nothing, s)
    else if not (is_wait_state (s.tasks id).state)
    then (nothing, s)
    else elim (find_cpu s id 0 max_cpus) [
      | some cpu ↦ (kick cpu, set_task s id woken)
      | none ↦ (enqueue, set_task s id made_ready)
    ]

-- The second step: a full queue parks the task again.
unfoldable pub unblock_push : Sched → ℕ → ℕ → ℕ → Sched
unblock_push s now target id =
    let (queued, s') = runq_push s now target id in
    if queued then s' else elim (s.tasks id).state [ ready ↦ set_state s id blocked | _ ↦ s ]

-- What follows the section under the lock; `online` is `smp_online_cpu_count()`.
unfoldable pub finish_wake : ℕ → ℕ → ℕ → Wake × Sched → Sched
finish_wake now online id (nothing, s) = s
finish_wake now online id (kick cpu, s) = s
finish_wake now online id (enqueue, s) = unblock_push s now (pick_target_cpu s online) id

-- Both steps with nothing in between.
unfoldable pub unblock_task : Sched → ℕ → ℕ → ℕ → Sched
unblock_task s now online id = finish_wake now online id (unblock_locked s id)

-- The sleepers that `sleepq_check_wakeups` collects, from task `i` on.
pub due_sleepers : Sched → ℕ → ℕ → ℕ → List ℕ
due_sleepers s now i zero = []
due_sleepers s now i (suc n) =
    let rest = due_sleepers s now (i + 1) n in
    let t = s.tasks i in
    if ltb i s.task_count
    then elim t.state [
      | sleeping ↦ if not (t.wake_at_ms == 0) && leb t.wake_at_ms now then i ∷ rest else rest
      | _ ↦ rest
    ]
    else []
