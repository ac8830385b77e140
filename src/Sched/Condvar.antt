-- ===== src/Sched/Condvar.antt =====
-- kernel/sync.c: condition variables. `condvar_wait` holds the lock of its own queue from the release of
-- the mutex to the commitment, so no signal comes in between; the release is a section of the mutex, and
-- the commitment one of the queue. The task then takes the mutex by rounds of `mutex_lock`.
use aetheroz.Prelude.{ℕ, Option, List, []}
use aetheroz.Sched.{Sched}
use aetheroz.Sched.WaitQueue.{wait_commit, wait_wake_one, wait_wake_all}
use aetheroz.Sched.Mutex.{MutexState, mutex_unlock}

-- `condvar_t`
pub record CondvarState : Type 0 where
  pub waiters : List ℕ

abbrev pub condvar_init : CondvarState
condvar_init = record { waiters = [] }

-- `condvar_wait` up to the halt: the task that waits, and the states.
unfoldable pub condvar_release :
    Sched → ℕ → ℕ → ℕ → CondvarState → MutexState → Option ℕ × (Sched × CondvarState × MutexState)
condvar_release s now online cpu c m =
    let (s', m') = mutex_unlock s now online m in
    let (self, after) = wait_commit s' now online cpu c.waiters in
    (self, (after.0, record { waiters = after.1 }, m'))

unfoldable pub condvar_signal : Sched → ℕ → ℕ → CondvarState → Sched × CondvarState
condvar_signal s now online c =
    let (s', wq) = wait_wake_one s now online c.waiters in (s', record { waiters = wq })

unfoldable pub condvar_broadcast : Sched → ℕ → ℕ → CondvarState → Sched × CondvarState
condvar_broadcast s now online c =
    let (s', wq) = wait_wake_all s now online c.waiters in (s', record { waiters = wq })
