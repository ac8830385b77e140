-- ===== src/Sched/WaitQueue.antt =====
-- kernel/wait.c: wait queues. `waiters[0..count)` is a list. A function here runs from one acquisition
-- of the queue's lock to its release; the halt loop of `block_park` in the middle of
-- `wait_block_locked` separates `wait_commit` from the caller's next section.
pub mod Wakeup
use aetheroz.Prelude.{
  ℕ, ◌+◌, Bool, true, false, Option, none, some, List, [], ◌∷◌, ◌++◌, leb, ◌==◌, if◌then◌else◌,
  length,
}
use aetheroz.Sched.{blocked, Sched, max_tasks}
use aetheroz.Sched.Block.{block_prepare, unblock_task}

-- WAIT_QUEUE_CAPACITY.
abbrev pub wait_queue_capacity : ℕ
wait_queue_capacity = max_tasks

-- The result is `== 0`.
unfoldable pub wait_enqueue : List ℕ → ℕ → Bool × List ℕ
wait_enqueue wq id =
    if leb wait_queue_capacity (length wq) then (false, wq) else (true, wq ++ (id ∷ []))

-- `none` is -1.
unfoldable pub wait_dequeue : List ℕ → Option ℕ × List ℕ
wait_dequeue [] = (none, [])
wait_dequeue (id ∷ ids) = (some id, ids)

-- The first entry for a task goes.
unfoldable pub wait_remove : List ℕ → ℕ → Bool × List ℕ
wait_remove [] id = (false, [])
wait_remove (w ∷ ws) id =
    let (found, rest) = wait_remove ws id in if w == id then (true, ws) else (found, w ∷ rest)

-- A task that is marked blocked joins the queue, or is unblocked again if the queue is full.
unfoldable pub join_queue : ℕ → ℕ → List ℕ → Option ℕ × Sched → Option ℕ × (Sched × List ℕ)
join_queue now online wq (none, s) = (none, (s, wq))
join_queue now online wq (some id, s) =
    let (room, wq') = wait_enqueue wq id in
    if room then (some id, (s, wq')) else (none, (unblock_task s now online id, wq))

-- `wait_block_locked` up to `wait_queue_unlock`: the task that is to park, if one is.
unfoldable pub wait_commit : Sched → ℕ → ℕ → ℕ → List ℕ → Option ℕ × (Sched × List ℕ)
wait_commit s now online cpu wq = join_queue now online wq (block_prepare s cpu blocked)

unfoldable pub wait_wake_one : Sched → ℕ → ℕ → List ℕ → Sched × List ℕ
wait_wake_one s now online wq =
    let (id, wq') = wait_dequeue wq in
    elim id [ none ↦ (s, wq') | some i ↦ (unblock_task s now online i, wq') ]

-- The loop of `wait_wake_all` ends with an empty queue.
unfoldable pub wait_wake_all : Sched → ℕ → ℕ → List ℕ → Sched × List ℕ
wait_wake_all s now online [] = (s, [])
wait_wake_all s now online (id ∷ ids) = wait_wake_all (unblock_task s now online id) now online ids

unfoldable pub wait_abort : Sched → ℕ → ℕ → List ℕ → ℕ → Sched × List ℕ
wait_abort s now online wq id = (unblock_task s now online id, (wait_remove wq id).1)
