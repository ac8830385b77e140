-- ===== src/Sched/Semaphore.antt =====
-- kernel/sync.c: semaphores. As for the mutex a section under the lock of the wait queue is one function,
-- and `wait_round` is one round of the loop of `semaphore_wait`. The count is an int32_t, whose increment
-- wraps around here; C leaves it open.
use aetheroz.Prelude.{
  ℕ, zero, suc, ◌+◌, ◌-◌, ◌^◌, ◌<◌, ◌≡◌, refl, Bool, true, false, List, [], ◌∷◌, arith, ◌==◌,
  if◌then◌else◌,
}
use aetheroz.Prelude.Int.{ℤ, pos, negsuc, ◌+ℤ◌, ◌-ℤ◌, ltb_ℤ}
use aetheroz.Sched.{Sched}
use aetheroz.Sched.WaitQueue.{wait_commit, wait_wake_one}

-- `semaphore_t`
pub record SemaphoreState : Type 0 where
  pub count : ℤ
  pub waiters : List ℕ

abbrev pub semaphore_init : ℤ → SemaphoreState
semaphore_init initial = record { count = initial; waiters = [] }

-- `s->count > 0`
abbrev pub is_positive : SemaphoreState → Bool
is_positive m = ltb_ℤ (pos 0) m.count

abbrev pub passed : SemaphoreState → SemaphoreState
passed m = record m { count = m.count -ℤ pos 1 }

-- One round of `semaphore_wait`: whether the semaphore is passed, and the states after it.
unfoldable pub wait_round : Sched → ℕ → ℕ → ℕ → SemaphoreState → Bool × (Sched × SemaphoreState)
wait_round s now online cpu m =
    let (self, after) = wait_commit s now online cpu m.waiters in
    if is_positive m
    then (true, (s, passed m))
    else (false, (after.0, record m { waiters = after.1 }))

unfoldable pub semaphore_trywait : SemaphoreState → Bool × SemaphoreState
semaphore_trywait m = if is_positive m then (true, passed m) else (false, m)

-- `s->count++`
unfoldable pub next_count : ℤ → ℤ
next_count (pos n) = if n + 1 == 2 ^ 31 then negsuc (2 ^ 31 - 1) else pos (n + 1)
next_count (negsuc n) = negsuc n +ℤ pos 1

unfoldable pub semaphore_post : Sched → ℕ → ℕ → SemaphoreState → Sched × SemaphoreState
semaphore_post s now online m =
    let (s', wq) = wait_wake_one s now online m.waiters in
    (s', record { count = next_count m.count; waiters = wq })

-- A section of a call on the semaphore, by any CPU, in whatever state the scheduler is by then.
pub data SemaphoreCall : Type 0 where
  tries : SemaphoreCall
  waits : Sched → ℕ → ℕ → ℕ → SemaphoreCall
  posts : Sched → ℕ → ℕ → SemaphoreCall

-- Whether a section passes the semaphore, and the semaphore after it.
unfoldable pub semaphore_step : SemaphoreState → SemaphoreCall → Bool × SemaphoreState
semaphore_step m tries = semaphore_trywait m
semaphore_step m (waits s now online cpu) =
    let (went, after) = wait_round s now online cpu m in (went, after.1)
semaphore_step m (posts s now online) = (false, (semaphore_post s now online m).1)

unfoldable pub semaphore_after : SemaphoreState → List SemaphoreCall → SemaphoreState
semaphore_after m [] = m
semaphore_after m (c ∷ cs) = semaphore_after ((semaphore_step m c).1) cs

-- How often a sequence of sections passes the semaphore, and how often it posts.
unfoldable pub passes : SemaphoreState → List SemaphoreCall → ℕ
passes m [] = 0
passes m (c ∷ cs) = (if (semaphore_step m c).0 then 1 else 0) + passes ((semaphore_step m c).1) cs

abbrev pub is_post : SemaphoreCall → ℕ
is_post (posts s now online) = 1
is_post _ = 0

unfoldable pub post_count : List SemaphoreCall → ℕ
post_count [] = 0
post_count (c ∷ cs) = is_post c + post_count cs

-- A section that leaves a count of `k` as a count, with what it takes and gives.
abbrev Counted : SemaphoreState → SemaphoreCall → ℕ → Type 0
Counted m c k =
    (n : ℕ) × ((semaphore_step m c).1.count ≡ pos n)
    × ((if (semaphore_step m c).0 then 1 else 0) + n ≡ k + is_post c)

step-Counted :
    (k : ℕ) (m : SemaphoreState) (c : SemaphoreCall)
    → m.count ≡ pos k
    → k + is_post c < 2 ^ 31
    → Counted m c k
unfolding semaphore_step semaphore_trywait wait_round semaphore_post next_count ◌-ℤ◌
step-Counted zero m tries e h = rw e (0, refl, refl)
step-Counted (suc k) m tries e h =
    let enters : ltb_ℤ (pos 0) (pos (suc k)) ≡ true = ground arith in
    rw (e, enters) (k, ground arith, omega arith)
step-Counted zero m (waits s now online cpu) e h = rw e (0, refl, refl)
step-Counted (suc k) m (waits s now online cpu) e h =
    let enters : ltb_ℤ (pos 0) (pos (suc k)) ≡ true = ground arith in
    rw (e, enters) (k, ground arith, omega arith)
step-Counted k m (posts s now online) e h = rw e (k + 1, ground arith, omega arith)

-- In any sequence of sections of `semaphore_wait`, `semaphore_trywait` and `semaphore_post` on one
-- semaphore with a count that is not negative, whatever the scheduler does in between, where the count
-- and the posts together stay below 2^31: the count is never negative afterwards, and the passes and the
-- count after are together the posts and the count before.
pub passes-post_count :
    (cs : List SemaphoreCall) (m : SemaphoreState) (k : ℕ)
    → m.count ≡ pos k
    → k + post_count cs < 2 ^ 31
    → (n : ℕ) × ((semaphore_after m cs).count ≡ pos n) × (passes m cs + n ≡ k + post_count cs)
unfolding passes post_count semaphore_after
passes-post_count [] m k e h = (k, e, omega arith)
passes-post_count (c ∷ cs) m k e h =
    let (j, here, moved) = step-Counted k m c e (omega arith) in
    let (n, last, total) = passes-post_count cs ((semaphore_step m c).1) j here (ground arith) in
    (n, last, omega (arith, moved, total))
