-- ===== src/Sched/WaitQueue/Wakeup.antt =====
-- kernel/wait.c: no wake-up is lost between the commitment to wait and the halt loop.
use aetheroz.Prelude.{
  ℕ, zero, suc, ◌+◌, ◌≤◌, ◌<◌, ◌≡◌, ◌≢◌, refl, sym, ap, subst, ◌∙◌, ◌⊎◌, inl, inr, true, false,
  Option, some, List, [], ◌∷◌, ◌++◌, arith, ltb, leb, ◌==◌, length, update_self, update_ne,
  Bool-cases, Option-cases, ==→eq, ==→ne, lt→ltb, ==_self,
}
use aetheroz.Sched.{
  TaskState, ready, running, sleeping, dead, blocked, Task, Sched, max_tasks, max_cpus,
}
use aetheroz.Sched.Core.{set_task, set_state}
use aetheroz.Sched.RunQueue.{runq_push, pick_target_cpu}
use aetheroz.Sched.Block.{
  is_wait_state, block_prepare, find_cpu, Wake, nothing, kick, enqueue, unblock_locked,
  unblock_push, finish_wake, unblock_task,
}
use aetheroz.Sched.WaitQueue.{wait_enqueue, join_queue, wait_commit, wait_wake_all}

-- A CPU that has a task is found.
parked_found :
    (s : Sched) (id cpu i n : ℕ)
    → s.cpu_current cpu ≡ some id
    → i ≤ cpu
    → cpu < i + n
    → (k : ℕ) × (find_cpu s id i n ≡ some k)
unfolding find_cpu
parked_found s id cpu i zero e lo hi = absurd (omega arith)
parked_found s id cpu i (suc n) e lo hi = elim (Bool-cases (i == cpu)) [
  | inl q ↦
      let here = subst (λ k. s.cpu_current k ≡ some id) (sym (==→eq _ _ q)) e in
      (i, rw (here, ==_self id, find_cpu) refl)
  | inr q ↦
      let (k, f) = parked_found s id cpu (i + 1) n e (omega (arith, ==→ne _ _ q)) (omega arith) in
      elim (Option-cases (s.cpu_current i)) [
        | inl o ↦ (k, rw (o, find_cpu) f)
        | inr (c, o) ↦ elim (Bool-cases (c == id)) [
          | inl t ↦ (i, rw (o, t, find_cpu) refl)
          | inr t ↦ (k, rw (o, t, find_cpu) f)
        ]
      ]
]

-- Only the state of the task `id` may differ.
record Only (s : Sched) (id : ℕ) (s' : Sched) : Type 0 where
  cpus : s'.cpu_current ≡ s.cpu_current
  others : (x : ℕ) → id ≢ x → (s'.tasks x).state ≡ (s.tasks x).state

set_task-Only : (s : Sched) (id : ℕ) (t : Task) → Only s id (set_task s id t)
set_task-Only s id t = record {
  cpus = refl;
  others = λ x h. ap (λ (v : Task). v.state) (update_ne s.tasks id t h);
}

same-Only : (s : Sched) (id : ℕ) → Only s id s
same-Only s id = record { cpus = refl; others = λ x h. refl }

Only-trans : (s : Sched) (id : ℕ) (s' s'' : Sched) → Only s id s' → Only s' id s'' → Only s id s''
Only-trans s id s' s'' a b = record {
  cpus = b.cpus ∙ a.cpus;
  others = λ x h. b.others x h ∙ a.others x h;
}

runq_push-Only : (s : Sched) (now cpu id : ℕ) → Only s id (runq_push s now cpu id).1
unfolding runq_push
runq_push-Only s now cpu id = elim (Bool-cases (leb max_tasks (length (s.queues cpu)))) [
  | inl e ↦ rw e (same-Only s id)
  | inr e ↦ rw e (record { cpus = refl; others = λ x h. ground arith })
]

unblock_push-Only : (s : Sched) (now target id : ℕ) → Only s id (unblock_push s now target id)
unfolding unblock_push
unblock_push-Only s now target id =
    let pushed = runq_push-Only s now target id in
    elim (Bool-cases ((runq_push s now target id).0)) [
      | inl e ↦ rw e pushed
      | inr e ↦ rw e (back (s.tasks id).state)
    ]
  where
    back : (st : TaskState) → Only s id (elim st [ ready ↦ set_state s id blocked | _ ↦ s ])
    back ready = set_task-Only s id (record (s.tasks id) { state = blocked })
    back running = same-Only s id
    back sleeping = same-Only s id
    back dead = same-Only s id
    back blocked = same-Only s id

unblock_locked-Only : (s : Sched) (id : ℕ) → Only s id (unblock_locked s id).1
unfolding unblock_locked
unblock_locked-Only s id = elim (Bool-cases (leb max_tasks id)) [
  | inl e ↦ rw e (same-Only s id)
  | inr e ↦ elim (Bool-cases (is_wait_state (s.tasks id).state)) [
    | inr w ↦ rw (e, w) (same-Only s id)
    | inl w ↦ elim (Option-cases (find_cpu s id 0 max_cpus)) [
      | inr (k, f) ↦
          rw (e, w, f)
            (set_task-Only s id (record (s.tasks id) { wake_at_ms = 0; state = running }))
      | inl f ↦
          rw (e, w, f) (set_task-Only s id (record (s.tasks id) { wake_at_ms = 0; state = ready }))
    ]
  ]
]

finish_wake-Only :
    (s : Sched) (now online id : ℕ) (w : Wake) → Only s id (finish_wake now online id (w, s))
unfolding finish_wake
finish_wake-Only s now online id nothing = same-Only s id
finish_wake-Only s now online id (kick cpu) = same-Only s id
finish_wake-Only s now online id enqueue = unblock_push-Only s now (pick_target_cpu s online) id

unblock_task-Only : (s : Sched) (now online id : ℕ) → Only s id (unblock_task s now online id)
unfolding unblock_task
unblock_task-Only s now online id =
    Only-trans s id (unblock_locked s id).1 _ (unblock_locked-Only s id)
      (finish_wake-Only (unblock_locked s id).1 now online id (unblock_locked s id).0)

-- A task that has a CPU and waits there is set running.
unblock_parked :
    (s : Sched) (now online cpu self : ℕ)
    → cpu < max_cpus
    → self < max_tasks
    → s.cpu_current cpu ≡ some self
    → is_wait_state (s.tasks self).state ≡ true
    → ((unblock_task s now online self).tasks self).state ≡ running
unfolding unblock_task finish_wake unblock_locked
unblock_parked s now online cpu self h id_lt e w =
    let (k, f) = parked_found s self cpu 0 max_cpus e (omega arith) (omega arith) in
    let t = record (s.tasks self) { wake_at_ms = 0; state = running } in
    let in_range : leb max_tasks self ≡ false = ground arith in
    let kicked : unblock_locked s self ≡ (kick k, set_task s self t) = rw (in_range, w, f) refl in
    ap (λ r. ((finish_wake now online self r).tasks self).state) kicked
    ∙ ap (λ (v : Task). v.state) (update_self s.tasks self t)

unblock_running :
    (s : Sched) (now online self : ℕ)
    → (s.tasks self).state ≡ running
    → unblock_task s now online self ≡ s
unfolding unblock_task finish_wake unblock_locked
unblock_running s now online self r =
    let idle : unblock_locked s self ≡ (nothing, s) = elim (Bool-cases (leb max_tasks self)) [
      | inl e ↦ rw e refl
      | inr e ↦ rw (e, r) refl
    ] in
    ap (finish_wake now online self) idle

-- The task `self` has the CPU, and has committed itself to wait or has been woken.
record Committed (s : Sched) (cpu self : ℕ) : Type 0 where
  current : s.cpu_current cpu ≡ some self
  waits_or_runs : (is_wait_state (s.tasks self).state ≡ true) ⊎ ((s.tasks self).state ≡ running)

woken_state :
    (s : Sched) (now online cpu self : ℕ)
    → cpu < max_cpus
    → self < max_tasks
    → Committed s cpu self
    → ((unblock_task s now online self).tasks self).state ≡ running
woken_state s now online cpu self h id_lt c = elim c.waits_or_runs [
  | inl w ↦ unblock_parked s now online cpu self h id_lt c.current w
  | inr r ↦ ap (λ (v : Sched). (v.tasks self).state) (unblock_running s now online self r) ∙ r
]

unblock_task-Committed :
    (s : Sched) (now online cpu self id : ℕ)
    → cpu < max_cpus
    → self < max_tasks
    → Committed s cpu self
    → Committed (unblock_task s now online id) cpu self
unblock_task-Committed s now online cpu self id h id_lt c =
    let only = unblock_task-Only s now online id in
    record {
      current = ap (λ (k : ℕ → Option ℕ). k cpu) only.cpus ∙ c.current;
      waits_or_runs = elim (Bool-cases (id == self)) [
        | inl q ↦ inr (
            subst (λ i. ((unblock_task s now online i).tasks self).state ≡ running)
              (sym (==→eq _ _ q)) (woken_state s now online cpu self h id_lt c))
        | inr q ↦
            let same = only.others self (==→ne _ _ q) in
            elim c.waits_or_runs [
              | inl w ↦ inl (ap is_wait_state same ∙ w)
              | inr r ↦ inr (same ∙ r)
            ]
      ];
    }

-- Of a task that stays committed, being woken once is enough: it runs and goes on running.
wake_all_keeps :
    (ws : List ℕ) (s : Sched) (now online cpu self : ℕ)
    → cpu < max_cpus
    → self < max_tasks
    → Committed s cpu self
    → (s.tasks self).state ≡ running
    → ((wait_wake_all s now online ws).0.tasks self).state ≡ running
unfolding wait_wake_all
wake_all_keeps [] s now online cpu self h id_lt c runs = runs
wake_all_keeps (w ∷ ws) s now online cpu self h id_lt c runs =
    wake_all_keeps ws (unblock_task s now online w) now online cpu self h id_lt
      (unblock_task-Committed s now online cpu self w h id_lt c)
      (elim (Bool-cases (w == self)) [
        | inl q ↦
            subst (λ i. ((unblock_task s now online i).tasks self).state ≡ running)
              (sym (==→eq _ _ q)) (woken_state s now online cpu self h id_lt c)
        | inr q ↦ (unblock_task-Only s now online w).others self (==→ne _ _ q) ∙ runs
      ])

-- A queue on which the task stands wakes it.
wake_all_member :
    (ws vs : List ℕ) (s : Sched) (now online cpu self : ℕ)
    → cpu < max_cpus
    → self < max_tasks
    → Committed s cpu self
    → ((wait_wake_all s now online (ws ++ (self ∷ vs))).0.tasks self).state ≡ running
unfolding wait_wake_all
wake_all_member [] vs s now online cpu self h id_lt c =
    wake_all_keeps vs (unblock_task s now online self) now online cpu self h id_lt
      (unblock_task-Committed s now online cpu self self h id_lt c)
      (woken_state s now online cpu self h id_lt c)
wake_all_member (w ∷ ws) vs s now online cpu self h id_lt c =
    wake_all_member ws vs (unblock_task s now online w) now online cpu self h id_lt
      (unblock_task-Committed s now online cpu self w h id_lt c)

-- What the locked section of a wake-up makes of a task that waits: running on the CPU where it is parked,
-- or ready, to be put on a run queue.
abbrev pub Woken : Sched → ℕ → Type 0
Woken s self =
    (((unblock_locked s self).1.tasks self).state ≡ running)
    ⊎ ((((unblock_locked s self).1.tasks self).state ≡ ready)
        × ((unblock_locked s self).0 ≡ enqueue))

waiting-Woken :
    (s : Sched) (self : ℕ)
    → self < max_tasks
    → is_wait_state (s.tasks self).state ≡ true
    → Woken s self
unfolding unblock_locked
waiting-Woken s self id_lt w =
    let in_range : leb max_tasks self ≡ false = ground arith in
    elim (Option-cases (find_cpu s self 0 max_cpus)) [
      | inr (k, f) ↦
          rw (in_range, w, f)
            (inl (
              ap (λ (v : Task). v.state)
                (update_self s.tasks self
                  (record (s.tasks self) { wake_at_ms = 0; state = running }))))
      | inl f ↦
          rw (in_range, w, f)
            (inr (
              ap (λ (v : Task). v.state)
                  (update_self s.tasks self
                    (record (s.tasks self) { wake_at_ms = 0; state = ready })),
              refl,
            ))
    ]

-- A running task that commits itself to wait on a queue with room stands last on the queue, blocked.
-- From then on, in whatever state the sections of all CPUs have brought the scheduler and the queue to:
-- as long as the task still has its CPU and waits or was woken, it is running after `wait_wake_all` of a
-- queue on which it stands; and wherever it still waits, also when a tick has taken its CPU, a wake-up
-- makes it running, or ready and due for a run queue.
pub wake_all-wait_commit :
    (s : Sched) (now online cpu self : ℕ) (wq : List ℕ)
    → cpu < max_cpus
    → s.cpu_current cpu ≡ some self
    → self < s.task_count
    → self < max_tasks
    → (s.tasks self).state ≡ running
    → length wq < max_tasks
    → (s' : Sched) × (wait_commit s now online cpu wq ≡ (some self, (s', wq ++ (self ∷ []))))
      × ((s'.tasks self).state ≡ blocked)
      × ((later : Sched) (now' online' : ℕ) (ws vs : List ℕ)
          → later.cpu_current cpu ≡ some self
          → (is_wait_state (later.tasks self).state ≡ true) ⊎ ((later.tasks self).state ≡ running)
          → ((wait_wake_all later now' online' (ws ++ (self ∷ vs))).0.tasks self).state ≡ running)
      × ((later : Sched) → is_wait_state (later.tasks self).state ≡ true → Woken later self)
unfolding wait_commit block_prepare join_queue wait_enqueue
wake_all-wait_commit s now online cpu self wq h e live id_lt run room =
    let t = record (s.tasks self) { state = blocked } in
    let parked = ap (λ (v : Task). v.state) (update_self s.tasks self t) in
    let on : ltb cpu max_cpus ≡ true = lt→ltb _ _ h in
    let in_range : ltb self s.task_count ≡ true = lt→ltb _ _ live in
    let prepared : block_prepare s cpu blocked ≡ (some self, set_state s self blocked) =
      rw (on, e, in_range, run) refl in
    let fits : leb max_tasks (length wq) ≡ false = ground arith in
    let joined : join_queue now online wq (some self, set_state s self blocked)
        ≡ (some self, (set_state s self blocked, wq ++ (self ∷ []))) =
      rw fits refl in
    (
      set_state s self blocked,
      ap (join_queue now online wq) prepared ∙ joined,
      parked,
      λ later now' online' ws vs current waits.
          wake_all_member ws vs later now' online' cpu self h id_lt
            (record { current = current; waits_or_runs = waits }),
      λ later waits. waiting-Woken later self id_lt waits,
    )
