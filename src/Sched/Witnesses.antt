-- ===== src/Sched/Witnesses.antt =====
-- kernel/sched: tests, and the theorems at concrete inputs.
use aetheroz.Sched.Mutex.{
  mutex_init, mutex_trylock, lock_round, mutex_unlock, MutexCall, tries, locks, unlocks, mutex_step,
  mutex_after, acquisitions, releases, held, acquisitions-le,
}
use aetheroz.Prelude.Int.{pos, ◌-ℤ◌}
use aetheroz.Sched.Semaphore.{
  semaphore_init, wait_round, next_count, semaphore_post, SemaphoreCall, waits, posts,
  semaphore_step, semaphore_after, passes, post_count, passes-post_count,
}
use aetheroz.Prelude.{length}
use aetheroz.Sched.RunQueue.{pick_target_cpu}
use aetheroz.Sched.RunQueue.Placement.{work, pick_target_cpu_lem}
use aetheroz.Prelude.{
  ◌+◌, ◌≤◌, true, ◌∷◌, ℕ, ◌<◌, ◌≡◌, ◌≢◌, update, refl, ◌⊎◌, none, some, List, [], arith,
}
use aetheroz.Sched.WaitQueue.{wait_commit, wait_wake_all}
use aetheroz.Sched.WaitQueue.Wakeup.{Woken, wake_all-wait_commit}
use aetheroz.Sched.Block.{is_wait_state}
use aetheroz.Prelude.{◌++◌}
use aetheroz.Sched.{running, blocked, ready, Sched, max_cpus}
use aetheroz.Sched.RunQueue.{
  runq_push, runq_pop, best_entry, drop_last, fill_gap, busiest, steal_task,
}
use aetheroz.Sched.RunQueue.Pop.{runq_pop_lem, Takes, occurs}
use aetheroz.Sched.RunQueue.Steal.{StealsFrom, steal_task_cases}
use aetheroz.Sched.Core.{
  Platform, schedule_on_cpu, current_of, choose_next, resume_next, switch_to, swap_out, dispatch,
}
use aetheroz.Sched.Lifecycle.{tasking_init, dead_slot, take_slot, create_locked, create_push}
use aetheroz.Sched.Places.{queued, total}
use aetheroz.Sched.Safety.Steps.{
  tick, create, push_created, Steps, done, step, one_cpu_per_task, queued_once,
}

abbrev platform : Platform
platform = record { online = 1; kernel_pml4 = 0; syscall_stack_top = λ cpu. 0 }

abbrev start : Sched
start = tasking_init (λ i. 0) (λ i. 0)

abbrev with_task : Sched
with_task = (create_locked start 4096 8192 1).1

abbrev with_entry : Sched
with_entry = create_push with_task 5 0 1

abbrev switched : Sched
switched = (schedule_on_cpu platform 6 with_entry 0 99).1

created_steps : Steps platform start [] with_entry []
unfolding create_locked take_slot dead_slot tasking_init
created_steps =
    step (create 4096 8192 1 start [])
      (step (push_created 5 0 1 with_task [] [] (omega arith)) (done with_entry []))

switch_steps : Steps platform start [] switched []
unfolding create_locked take_slot dead_slot tasking_init
switch_steps = step (create 4096 8192 1 start []) (
    step (push_created 5 0 1 with_task [] [] (omega arith))
      (step (tick 6 0 99 with_entry []) (done switched [])))

runs_new : switched.cpu_current 0 ≡ some 1
unfolding create_locked take_slot dead_slot tasking_init create_push runq_push schedule_on_cpu
    current_of choose_next runq_pop best_entry fill_gap drop_last resume_next switch_to swap_out
    dispatch
runs_new = refl

one_cpu_per_task_example :
    (queued switched 1 ≡ 0)
    × ((other : ℕ) → other < max_cpus → switched.cpu_current other ≡ some 1 → other ≡ 0)
one_cpu_per_task_example =
    one_cpu_per_task platform (λ i. 0) (λ i. 0) switched [] switch_steps 1 0 (omega arith) runs_new

entry_waits : 0 < queued with_entry 1
unfolding queued total occurs create_locked take_slot dead_slot tasking_init create_push runq_push
entry_waits = omega arith

queued_once_example : (queued with_entry 1 ≡ 1) × ((with_entry.tasks 1).state ≡ ready)
queued_once_example =
    queued_once platform (λ i. 0) (λ i. 0) with_entry [] created_steps 1 entry_waits

runq_pop_lem_example :
    ((with_entry.queues 0 ≡ []) × (runq_pop with_entry 6 0 ≡ (none, with_entry)))
    ⊎ ((id : ℕ) × (q' : List ℕ) × (runq_pop with_entry 6 0
          ≡ (some id, record with_entry { queues = update with_entry.queues 0 q' }))
        × Takes with_entry.tasks 6 (with_entry.queues 0) id q')
runq_pop_lem_example = runq_pop_lem with_entry 6 0

steal_task_cases_example :
    ((steal_task with_entry 6 2 1 ≡ (none, with_entry))
      × ((j : ℕ) → j < 2 → j < max_cpus → j ≢ 1 → length (with_entry.queues j) ≡ 0))
    ⊎ ((v : ℕ) × StealsFrom with_entry 6 2 1 v)
steal_task_cases_example = steal_task_cases with_entry 6 2 1

-- CPU 1 steals the new task from CPU 0.
steals : (steal_task with_entry 6 2 1).0 ≡ some 1
unfolding steal_task busiest create_locked take_slot dead_slot tasking_init create_push runq_push
    runq_pop best_entry fill_gap drop_last
steals = refl

count_two : 1 < switched.task_count
unfolding create_locked take_slot dead_slot tasking_init create_push runq_push schedule_on_cpu
    current_of choose_next runq_pop best_entry fill_gap drop_last resume_next switch_to swap_out
    dispatch
count_two = omega arith

new_running : (switched.tasks 1).state ≡ running
unfolding create_locked take_slot dead_slot tasking_init create_push runq_push schedule_on_cpu
    current_of choose_next runq_pop best_entry fill_gap drop_last resume_next switch_to swap_out
    dispatch
new_running = refl

-- Task 1 runs on CPU 0 and waits on a queue on which task 0 stands.
wake_all-wait_commit_example :
    (s' : Sched) × (wait_commit switched 7 1 0 (0 ∷ []) ≡ (some 1, (s', 0 ∷ 1 ∷ [])))
    × ((s'.tasks 1).state ≡ blocked)
    × ((later : Sched) (now' online' : ℕ) (ws vs : List ℕ)
        → later.cpu_current 0 ≡ some 1
        → (is_wait_state (later.tasks 1).state ≡ true) ⊎ ((later.tasks 1).state ≡ running)
        → ((wait_wake_all later now' online' (ws ++ (1 ∷ vs))).0.tasks 1).state ≡ running)
    × ((later : Sched) → is_wait_state (later.tasks 1).state ≡ true → Woken later 1)
wake_all-wait_commit_example =
    wake_all-wait_commit switched 7 1 0 1 (0 ∷ []) (omega arith) runs_new count_two (omega arith)
      new_running (omega arith)

light : work with_entry 0 < 0xFFFFFFFF
unfolding create_locked take_slot dead_slot tasking_init create_push runq_push
light = omega arith

pick_target_cpu_lem_example :
    (pick_target_cpu with_entry 4 < 4)
    × (pick_target_cpu with_entry 4 < max_cpus)
    × ((j : ℕ)
        → j < 4
        → j < max_cpus
        → work with_entry (pick_target_cpu with_entry 4) ≤ work with_entry j)
pick_target_cpu_lem_example = pick_target_cpu_lem with_entry 4 (omega arith) light

abbrev contest : List MutexCall
contest = tries switched 0 ∷ locks switched 7 1 0 ∷ unlocks switched 8 1 ∷ tries switched 0 ∷ []

-- The second call has to wait.
contest_taken : acquisitions mutex_init contest ≡ 2
unfolding acquisitions mutex_step mutex_trylock lock_round mutex_unlock
contest_taken = refl

acquisitions-le_example :
    acquisitions mutex_init contest + held mutex_init
    ≤ releases contest + held (mutex_after mutex_init contest)
acquisitions-le_example = acquisitions-le contest mutex_init

-- One place, which the second task has to wait for.
abbrev one_place : List SemaphoreCall
one_place =
    waits switched 7 1 0 ∷ waits switched 8 1 0 ∷ posts switched 9 1 ∷ waits switched 9 1 0 ∷ []

two_passes : passes (semaphore_init (pos 1)) one_place ≡ 2
unfolding passes semaphore_step wait_round semaphore_post next_count ◌-ℤ◌
two_passes = refl

passes-post_count_example :
    (n : ℕ) × ((semaphore_after (semaphore_init (pos 1)) one_place).count ≡ pos n)
    × (passes (semaphore_init (pos 1)) one_place + n ≡ 1 + post_count one_place)
unfolding post_count
passes-post_count_example =
    passes-post_count one_place (semaphore_init (pos 1)) 1 refl (omega arith)
