-- ===== src/Sched/Mutex.antt =====
-- kernel/sync.c: mutexes. The lock of the mutex's wait queue guards its fields, so a section under it
-- is one function. `mutex_lock` is a loop of such sections: `lock_round` is one round, which takes the
-- mutex, or commits the task to wait. A call of `smp_current_task_id` reads the CPU's current task.
use aetheroz.Prelude.{
  ℕ, ◌+◌, ◌≤◌, Bool, true, false, Option, none, List, [], ◌∷◌, arith, ltb, if◌then◌else◌, inl, inr,
  Bool-cases,
}
use aetheroz.Sched.{Sched, max_cpus}
use aetheroz.Sched.WaitQueue.{wait_commit, wait_wake_one}

-- `mutex_t`; the owner is `none` for -1.
pub record MutexState : Type 0 where
  pub locked : Bool
  pub owner : Option ℕ
  pub waiters : List ℕ

abbrev pub mutex_init : MutexState
mutex_init = record { locked = false; owner = none; waiters = [] }

abbrev pub smp_current_task_id : Sched → ℕ → Option ℕ
smp_current_task_id s cpu = if ltb cpu max_cpus then s.cpu_current cpu else none

abbrev pub taken_by : Sched → ℕ → MutexState → MutexState
taken_by s cpu m = record m { locked = true; owner = smp_current_task_id s cpu }

unfoldable pub mutex_trylock : Sched → ℕ → MutexState → Bool × MutexState
mutex_trylock s cpu m = if m.locked then (false, m) else (true, taken_by s cpu m)

-- One round of `mutex_lock`: whether the mutex is taken, and the states after it.
unfoldable pub lock_round : Sched → ℕ → ℕ → ℕ → MutexState → Bool × (Sched × MutexState)
lock_round s now online cpu m =
    let (self, after) = wait_commit s now online cpu m.waiters in
    if m.locked
    then (false, (after.0, record m { waiters = after.1 }))
    else (true, (s, taken_by s cpu m))

unfoldable pub mutex_unlock : Sched → ℕ → ℕ → MutexState → Sched × MutexState
mutex_unlock s now online m =
    let (s', wq) = wait_wake_one s now online m.waiters in
    (s', record { locked = false; owner = none; waiters = wq })

-- A section of a call on the mutex, by any CPU, in whatever state the scheduler is by then.
pub data MutexCall : Type 0 where
  tries : Sched → ℕ → MutexCall
  locks : Sched → ℕ → ℕ → ℕ → MutexCall
  unlocks : Sched → ℕ → ℕ → MutexCall

-- Whether a section takes the mutex, and the mutex after it.
unfoldable pub mutex_step : MutexState → MutexCall → Bool × MutexState
mutex_step m (tries s cpu) = mutex_trylock s cpu m
mutex_step m (locks s now online cpu) =
    let (took, after) = lock_round s now online cpu m in (took, after.1)
mutex_step m (unlocks s now online) = (false, (mutex_unlock s now online m).1)

unfoldable pub mutex_after : MutexState → List MutexCall → MutexState
mutex_after m [] = m
mutex_after m (c ∷ cs) = mutex_after ((mutex_step m c).1) cs

-- How often a sequence of sections takes the mutex, and how often it releases it.
unfoldable pub acquisitions : MutexState → List MutexCall → ℕ
acquisitions m [] = 0
acquisitions m (c ∷ cs) =
    (if (mutex_step m c).0 then 1 else 0) + acquisitions ((mutex_step m c).1) cs

abbrev pub is_unlock : MutexCall → ℕ
is_unlock (unlocks s now online) = 1
is_unlock _ = 0

unfoldable pub releases : List MutexCall → ℕ
releases [] = 0
releases (c ∷ cs) = is_unlock c + releases cs

abbrev pub held : MutexState → ℕ
held m = if m.locked then 1 else 0

one_section :
    (m : MutexState) (c : MutexCall)
    → (if (mutex_step m c).0 then 1 else 0) + held m ≤ is_unlock c + held ((mutex_step m c).1)
unfolding mutex_step mutex_trylock lock_round mutex_unlock
one_section m (tries s cpu) = elim (Bool-cases m.locked) [
  | inl e ↦ rw e (omega arith)
  | inr e ↦ rw e (omega arith)
]
one_section m (locks s now online cpu) = elim (Bool-cases m.locked) [
  | inl e ↦ rw e (omega arith)
  | inr e ↦ rw e (omega arith)
]
one_section m (unlocks s now online) = elim (Bool-cases m.locked) [
  | inl e ↦ rw e (omega arith)
  | inr e ↦ rw e (omega arith)
]

-- In any sequence of sections of `mutex_lock`, `mutex_trylock` and `mutex_unlock` on one mutex,
-- whatever the scheduler does in between, the number of times it is taken, plus one if it was held
-- before, is at most the number of releases, plus one if it is held after: nobody takes a held mutex.
pub acquisitions-le :
    (cs : List MutexCall) (m : MutexState)
    → acquisitions m cs + held m ≤ releases cs + held (mutex_after m cs)
unfolding acquisitions releases mutex_after
acquisitions-le [] m = omega arith
acquisitions-le (c ∷ cs) m = omega (arith, one_section m c, acquisitions-le cs ((mutex_step m c).1))
