-- ===== src/Sched/Core.antt =====
-- kernel/sched/core.c: `schedule_on_cpu`, which runs under `scheduler_lock`, and the idle loop.
-- Not modelled: the tick counters and the reschedule flag of kernel/smp.
use aetheroz.Prelude.{
  ℕ, ◌+◌, Bool, true, false, ◌&&◌, ◌||◌, not, Option, none, some, ltb, leb, ◌==◌, if◌then◌else◌,
  update,
}
use aetheroz.Sched.{
  TaskState, ready, running, sleeping, blocked, Task, Sched, max_cpus, task_stack_size,
}
use aetheroz.Sched.RunQueue.{runq_push, runq_pop, steal_task}

-- What the scheduler asks of the rest of the kernel: `smp_online_cpu_count`,
-- `vmm_get_kernel_pml4_phys` and `task_syscall_stack_top`.
pub record Platform : Type 0 where
  pub online : ℕ
  pub kernel_pml4 : ℕ
  pub syscall_stack_top : ℕ → ℕ

abbrev pub set_task : Sched → ℕ → Task → Sched
set_task s id t = record s { tasks = update s.tasks id t }

abbrev pub set_state : Sched → ℕ → TaskState → Sched
set_state s id st = set_task s id (record (s.tasks id) { state = st })

abbrev pub save_frame : Sched → ℕ → ℕ → Sched
save_frame s id regs = set_task s id (record (s.tasks id) { rsp = regs })

-- `cur_running`, `cur_blocked`, or neither.
pub data Current : Type 0 where
  on_cpu parked : ℕ → Current
  vacant : Current

abbrev pub classify : ℕ → TaskState → Current
classify c running = on_cpu c
classify c sleeping = parked c
classify c blocked = parked c
classify c _ = vacant

unfoldable pub current_of : Sched → ℕ → Current
current_of s cpu = elim (s.cpu_current cpu) [
  | none ↦ vacant
  | some c ↦ if ltb c s.task_count then classify c (s.tasks c).state else vacant
]

-- A dead or invalid task gives the slot up.
abbrev pub relinquish : Sched → ℕ → Current → Sched
relinquish s cpu vacant = record s { cpu_current = update s.cpu_current cpu none }
relinquish s cpu _ = s

-- `if (next < 0) next = steal_task(cpu_id)`
abbrev pub or_steal : Platform → ℕ → ℕ → Option ℕ × Sched → Option ℕ × Sched
or_steal env now cpu (some id, s) = (some id, s)
or_steal env now cpu (none, s) = steal_task s now env.online cpu

-- The local queue, then another CPU's.
unfoldable pub choose_next : Platform → ℕ → Sched → ℕ → Option ℕ × Sched
choose_next env now s cpu = or_steal env now cpu (runq_pop s now cpu)

abbrev pub is_ready : TaskState → Bool
is_ready ready = true
is_ready _ = false

-- `next` is one of the tasks, TASK_READY, and has a frame to resume.
abbrev pub is_runnable : Sched → ℕ → Bool
is_runnable s id =
    ltb id s.task_count && (is_ready (s.tasks id).state && not ((s.tasks id).rsp == 0))

-- The frame of a blocked task is kept where no other task takes its CPU.
abbrev pub save_parked : Sched → Current → ℕ → Sched
save_parked s (parked c) regs = save_frame s c regs
save_parked s _ regs = s

-- The task `next` takes the CPU: its state, RSP0 and CR3.
unfoldable pub dispatch : Platform → Sched → ℕ → ℕ → ℕ × Sched
dispatch env s cpu next = (
  (s.tasks next).rsp,
  record s {
    tasks = update s.tasks next (record (s.tasks next) { state = running });
    cpu_current = update s.cpu_current cpu (some next);
    current_task = if cpu == 0 then next else s.current_task;
    rsp0 = update s.rsp0 cpu (
        if (s.tasks next).stack_base == 0
        then env.syscall_stack_top cpu
        else (s.tasks next).stack_base + task_stack_size);
    cr3 =
        if not ((s.tasks next).pml4 == 0)
        then update s.cr3 cpu (s.tasks next).pml4
        else if env.kernel_pml4 == 0
        then s.cr3
        else update s.cr3 cpu env.kernel_pml4;
  },
)

-- The running task goes back to a queue; if that is full, it stays and `next` goes back.
unfoldable pub swap_out : Platform → ℕ → Sched → ℕ → ℕ → ℕ → ℕ → ℕ × Sched
swap_out env now s cpu regs c next =
    let saved = set_task s c (record (s.tasks c) { rsp = regs; state = ready }) in
    let (queued, s') = runq_push saved now cpu c in
    if queued
    then dispatch env s' cpu next
    else (regs, (runq_push (set_state s' c running) now cpu next).1)

unfoldable pub switch_to : Platform → ℕ → Sched → ℕ → ℕ → Current → ℕ → ℕ × Sched
switch_to env now s cpu regs vacant next = dispatch env s cpu next
switch_to env now s cpu regs (parked c) next = dispatch env (save_frame s c regs) cpu next
switch_to env now s cpu regs (on_cpu c) next = swap_out env now s cpu regs c next

-- What follows the choice: the frame to resume, and the new state.
unfoldable pub resume_next : Platform → ℕ → Sched → ℕ → ℕ → Current → Option ℕ → ℕ × Sched
resume_next env now s cpu regs cur none = (regs, save_parked s cur regs)
resume_next env now s cpu regs cur (some next) =
    if is_runnable s next then switch_to env now s cpu regs cur next else (regs, s)

-- `current_regs` is 0 for NULL.
unfoldable pub schedule_on_cpu : Platform → ℕ → Sched → ℕ → ℕ → ℕ × Sched
schedule_on_cpu env now s cpu regs =
    let cur = current_of s cpu in
    let (next, s') = choose_next env now (relinquish s cpu cur) cpu in
    if leb max_cpus cpu || regs == 0
    then (regs, s)
    else if s.task_count == 0
    then (regs, s)
    else resume_next env now s' cpu regs cur next

-- One round of `scheduler_idle_loop`.
unfoldable pub idle_round : Sched → ℕ → Sched
idle_round s cpu =
    if ltb cpu max_cpus then record s { cpu_current = update s.cpu_current cpu none } else s
