-- ===== src/Sched.antt =====
-- kernel/sched: the scheduler's state, shared by its parts.
pub mod RunQueue
pub mod Core
pub mod Block
pub mod Places
pub mod Lifecycle
pub mod Safety
pub mod WaitQueue
pub mod Mutex
pub mod Semaphore
pub mod Condvar
mod Witnesses
use aetheroz.Prelude.{ℕ, Option, List}

-- MAX_TASKS, SMP_MAX_CPUS and TASK_STACK_SIZE.
abbrev pub max_tasks : ℕ
max_tasks = 16

abbrev pub max_cpus : ℕ
max_cpus = 16

abbrev pub task_stack_size : ℕ
task_stack_size = 16384

-- TASK_READY, TASK_RUNNING, TASK_SLEEPING, TASK_DEAD and TASK_BLOCKED.
pub data TaskState : Type 0 where
  ready running sleeping dead blocked : TaskState

-- The fields of `task_t` that the scheduler reads and writes. `pml4` is 0 for a kernel task.
pub record Task : Type 0 where
  pub rsp : ℕ
  pub stack_base : ℕ
  pub state : TaskState
  pub pml4 : ℕ
  pub wake_at_ms : ℕ
  pub priority : ℕ
  pub enqueue_ms : ℕ

-- `tasks`, `task_count`, `cpu_current_task` (`none` for -1), `cpu_runqueues`, `current_task`, and for
-- each CPU the RSP0 of its TSS and its CR3.
pub record Sched : Type 0 where
  pub tasks : ℕ → Task
  pub task_count : ℕ
  pub cpu_current : ℕ → Option ℕ
  pub queues : ℕ → List ℕ
  pub current_task : ℕ
  pub rsp0 : ℕ → ℕ
  pub cr3 : ℕ → ℕ
