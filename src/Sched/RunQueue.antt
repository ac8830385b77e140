-- ===== src/Sched/RunQueue.antt =====
-- kernel/sched/runqueue.c: the run queue of each CPU, placement and work stealing. `entries[0..count)`
-- is a list. A function holds the queue's lock; `timer_get_ms()` is the argument `now`.
pub mod Pop
pub mod Steal
pub mod Placement
use aetheroz.Prelude.{
  ℕ, zero, suc, ◌+◌, ◌-◌, ◌/◌, ◌%◌, ◌^◌, Bool, true, false, ◌&&◌, ◌||◌, Option, none, some, List,
  [], ◌∷◌, ◌++◌, ltb, leb, ◌==◌, if◌then◌else◌, length, get_or, set, update,
}
use aetheroz.Sched.{Task, Sched, max_tasks, max_cpus}

-- AGE_STEP_MS and AGE_MAX_BONUS.
abbrev pub age_step_ms : ℕ
age_step_ms = 100

abbrev pub age_max_bonus : ℕ
age_max_bonus = 8

unfoldable pub effective_prio : (ℕ → Task) → ℕ → ℕ → ℕ
effective_prio tasks id now =
    let enq = (tasks id).enqueue_ms in
    let waited = if ltb enq now then now - enq else 0 in
    let bonus = waited / age_step_ms % 2 ^ 32 in
    ((tasks id).priority + (if ltb age_max_bonus bonus then age_max_bonus else bonus)) % 2 ^ 32

-- The state after a push that finds room; the time stamp serves the aging.
abbrev pub pushed : Sched → ℕ → ℕ → ℕ → Sched
pushed s now cpu id = record s {
  tasks = update s.tasks id (record (s.tasks id) { enqueue_ms = now });
  queues = update s.queues cpu (s.queues cpu ++ (id ∷ []));
}

-- 0 and -1 are `true` and `false`; a full queue refuses.
unfoldable pub runq_push : Sched → ℕ → ℕ → ℕ → Bool × Sched
runq_push s now cpu id =
    if leb max_tasks (length (s.queues cpu)) then (false, s) else (true, pushed s now cpu id)

-- The test of the loop of `runq_pop`: `id` comes before the best entry so far.
abbrev pub beats : (ℕ → Task) → ℕ → ℕ → ℕ → Bool
beats tasks now id best =
    ltb (effective_prio tasks best now) (effective_prio tasks id now)
    || (effective_prio tasks id now == effective_prio tasks best now
        && ltb (tasks id).enqueue_ms (tasks best).enqueue_ms)

-- `for (i = ...; i < count; i++)`, over the entries from `i` on: the best entry and its index.
unfoldable pub best_entry : (ℕ → Task) → ℕ → List ℕ → ℕ → ℕ → ℕ → ℕ × ℕ
best_entry tasks now [] i best best_i = (best, best_i)
best_entry tasks now (id ∷ ids) i best best_i =
    best_entry tasks now ids (i + 1) (if beats tasks now id best then id else best)
      (if beats tasks now id best then i else best_i)

unfoldable pub drop_last : List ℕ → List ℕ
drop_last [] = []
drop_last (id ∷ []) = []
drop_last (id ∷ id' ∷ ids) = id ∷ drop_last (id' ∷ ids)

-- `entries[i] = entries[--count]`
unfoldable pub fill_gap : List ℕ → ℕ → List ℕ
fill_gap q i = drop_last (set q i (get_or q (length q - 1) 0))

-- `none` is -1.
unfoldable pub runq_pop : Sched → ℕ → ℕ → Option ℕ × Sched
runq_pop s now cpu = elim (s.queues cpu) [
  | [] ↦ (none, s)
  | id ∷ ids ↦
      let (best, best_i) = best_entry s.tasks now ids 1 id 0 in
      (some best, record s { queues = update s.queues cpu (fill_gap (id ∷ ids) best_i) })
]

-- How many CPUs are looked at: `smp_online_cpu_count()`, at most SMP_MAX_CPUS.
abbrev pub online_cpus : ℕ → ℕ
online_cpus online = if ltb max_cpus online then max_cpus else online

-- The number that `pick_target_cpu` compares.
abbrev pub load : Sched → ℕ → ℕ
load s i = length (s.queues i) + elim (s.cpu_current i) [ none ↦ 0 | some id ↦ 1 ]

-- `cpu_current_task[i] < 0 && cpu_runqueues[i].count == 0`
abbrev pub is_idle : Sched → ℕ → Bool
is_idle s i = elim (s.cpu_current i) [ none ↦ length (s.queues i) == 0 | some id ↦ false ]

-- The loop of `pick_target_cpu` from CPU `i` on; an idle CPU ends it.
unfoldable pub pick_from : Sched → ℕ → ℕ → ℕ → ℕ → ℕ
pick_from s zero i best_cpu best_load = best_cpu
pick_from s (suc n) i best_cpu best_load =
    let rest =
      pick_from s n (i + 1) (if ltb (load s i) best_load then i else best_cpu)
        (if ltb (load s i) best_load then load s i else best_load) in
    if is_idle s i then i else rest

unfoldable pub pick_target_cpu : Sched → ℕ → ℕ
unfolding pick_from
pick_target_cpu s online = pick_from s (online_cpus online) 0 0 0xFFFFFFFF

-- The loop of `steal_task` from CPU `i` on: the busiest other queue.
unfoldable pub busiest : Sched → ℕ → ℕ → ℕ → Option ℕ → ℕ → Option ℕ
busiest s self zero i victim best = victim
busiest s self (suc n) i victim best =
    let c = if i == self then 0 else length (s.queues i) in
    busiest s self n (i + 1) (if ltb best c then some i else victim)
      (if ltb best c then c else best)

unfoldable pub steal_task : Sched → ℕ → ℕ → ℕ → Option ℕ × Sched
unfolding busiest
steal_task s now online self = elim (busiest s self (online_cpus online) 0 none 0) [
  | none ↦ (none, s)
  | some victim ↦ runq_pop s now victim
]
