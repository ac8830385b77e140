-- ===== src/Sched/Safety/Steps.antt =====
-- kernel/sched: the scheduler as a step relation. The sections under `scheduler_lock` of all CPUs
-- interleave in any order. A state has a list of the tasks that a waker or a creator has marked ready
-- under the lock, and puts on a queue of its choice after it.
use aetheroz.Prelude.{
  ℕ, ◌+◌, ◌<◌, ◌≡◌, ap, ◌∙◌, inl, inr, Option, none, some, List, [], ◌∷◌, ◌++◌, arith, ◌==◌,
  Bool-cases, ==→eq, ==→ne,
}
use aetheroz.Sched.{TaskState, ready, Sched, max_cpus}
use aetheroz.Sched.Core.{Platform, schedule_on_cpu, idle_round}
use aetheroz.Sched.Block.{
  block_prepare, sleep_mark, Wake, nothing, kick, enqueue, unblock_locked, unblock_push,
}
use aetheroz.Sched.Lifecycle.{
  tasking_init, create_locked, create_push, create_user_locked, create_user_push, exit_locked,
}
use aetheroz.Sched.RunQueue.Pop.{one_if, occurs, occurs-append}
use aetheroz.Sched.Places.{total-ge, total-two, runs, queued, on_cpus}
use aetheroz.Sched.Safety.{Inv, one_if_self}
use aetheroz.Sched.Safety.Dispatch.{weaken}
use aetheroz.Sched.Safety.Schedule.{schedule_on_cpu-Inv, idle_round-Inv}
use aetheroz.Sched.Safety.Wakes.{
  due, block_prepare-Inv, sleep_mark-Inv, unblock_locked-Inv, unblock_push-Inv,
}
use aetheroz.Sched.Safety.Lives.{
  tasking_init-Inv, create_locked-Inv, create_push-Inv, create_user_locked-Inv,
  create_user_push-Inv, exit_locked-Inv,
}

-- The task that a section under the lock leaves to be put on a queue.
abbrev pub after_wake : Wake → ℕ → List ℕ → List ℕ
after_wake enqueue id pending = id ∷ pending
after_wake _ id pending = pending

abbrev pub after_create : Option ℕ → List ℕ → List ℕ
after_create none pending = pending
after_create (some id) pending = id ∷ pending

pub data Step (env : Platform) : Sched → List ℕ → Sched → List ℕ → Type 0 where
  tick :
      (now cpu regs : ℕ) (s : Sched) (pending : List ℕ)
      → Step env s pending ((schedule_on_cpu env now s cpu regs).1) pending
  idle : (cpu : ℕ) (s : Sched) (pending : List ℕ) → Step env s pending (idle_round s cpu) pending
  block :
      (cpu : ℕ) (st : TaskState) (s : Sched) (pending : List ℕ)
      → Step env s pending ((block_prepare s cpu st).1) pending
  sleep :
      (cpu until : ℕ) (s : Sched) (pending : List ℕ)
      → Step env s pending (sleep_mark s cpu until) pending
  wake :
      (id : ℕ) (s : Sched) (pending : List ℕ)
      → Step env s pending
          ((unblock_locked s id).1)
          (after_wake ((unblock_locked s id).0) id pending)
  push_woken :
      (now target id : ℕ) (s : Sched) (before after : List ℕ)
      → target < max_cpus
      → Step env s (before ++ id ∷ after) (unblock_push s now target id) (before ++ after)
  create :
      (stack frame priority : ℕ) (s : Sched) (pending : List ℕ)
      → Step env s pending
          ((create_locked s stack frame priority).1)
          (after_create ((create_locked s stack frame priority).0) pending)
  push_created :
      (now target id : ℕ) (s : Sched) (before after : List ℕ)
      → target < max_cpus
      → Step env s (before ++ id ∷ after) (create_push s now target id) (before ++ after)
  create_user :
      (stack frame pml4 : ℕ) (s : Sched) (pending : List ℕ)
      → Step env s pending
          ((create_user_locked s stack frame pml4).1)
          (after_create ((create_user_locked s stack frame pml4).0) pending)
  push_user :
      (now target id : ℕ) (s : Sched) (before after : List ℕ)
      → target < max_cpus
      → Step env s (before ++ id ∷ after) (create_user_push s now target id) (before ++ after)
  exit : (cpu : ℕ) (s : Sched) (pending : List ℕ) → Step env s pending (exit_locked s cpu) pending

pub data Steps (env : Platform) : Sched → List ℕ → Sched → List ℕ → Type 0 where
  done : (s : Sched) (pending : List ℕ) → Steps env s pending s pending
  step :
      {s₁ : Sched}
      → {p₁ : List ℕ} → {s₂ : Sched} → {p₂ : List ℕ} → {s₃ : Sched} → {p₃ : List ℕ}
      → Step env s₁ p₁ s₂ p₂
      → Steps env s₂ p₂ s₃ p₃
      → Steps env s₁ p₁ s₃ p₃

abbrev pub in_hand : List ℕ → ℕ → ℕ
in_hand pending x = occurs x pending

removed :
    (s : Sched) (before : List ℕ) (id : ℕ) (after : List ℕ)
    → Inv s (in_hand (before ++ id ∷ after))
    → Inv s (λ x. in_hand (before ++ after) x + one_if id x)
unfolding occurs
removed s before id after inv =
    weaken s _ _ inv
      (λ x. omega (arith, occurs-append x before (id ∷ after), occurs-append x before after))

woken :
    (w : Wake) (id : ℕ) (s : Sched) (pending : List ℕ)
    → Inv s (λ x. in_hand pending x + due w id x)
    → Inv s (in_hand (after_wake w id pending))
unfolding due occurs
woken nothing id s pending inv = weaken s _ _ inv (λ x. omega arith)
woken (kick cpu) id s pending inv = weaken s _ _ inv (λ x. omega arith)
woken enqueue id s pending inv = weaken s _ _ inv (λ x. omega arith)

created :
    (o : Option ℕ) (s : Sched) (pending : List ℕ)
    → Inv s (λ x. in_hand pending x + runs o x)
    → Inv s (in_hand (after_create o pending))
unfolding occurs
created none s pending inv = weaken s _ _ inv (λ x. omega arith)
created (some id) s pending inv = weaken s _ _ inv (λ x. omega arith)

Step-Inv :
    (env : Platform) (s : Sched) (pending : List ℕ) (s' : Sched) (pending' : List ℕ)
    → Step env s pending s' pending'
    → Inv s (in_hand pending)
    → Inv s' (in_hand pending')
Step-Inv env _ _ _ _ (tick now cpu regs s pending) inv =
    schedule_on_cpu-Inv env now s _ cpu regs inv
Step-Inv env _ _ _ _ (idle cpu s pending) inv = idle_round-Inv s _ cpu inv
Step-Inv env _ _ _ _ (block cpu st s pending) inv = block_prepare-Inv s _ cpu st inv
Step-Inv env _ _ _ _ (sleep cpu until s pending) inv = sleep_mark-Inv s _ cpu until inv
Step-Inv env _ _ _ _ (wake id s pending) inv =
    woken ((unblock_locked s id).0) id ((unblock_locked s id).1) pending
      (unblock_locked-Inv s _ id inv)
Step-Inv env _ _ _ _ (push_woken now target id s before after h) inv =
    unblock_push-Inv s _ now target id h (removed s before id after inv)
Step-Inv env _ _ _ _ (create stack frame priority s pending) inv =
    created ((create_locked s stack frame priority).0) ((create_locked s stack frame priority).1)
      pending (create_locked-Inv s _ stack frame priority inv)
Step-Inv env _ _ _ _ (push_created now target id s before after h) inv =
    create_push-Inv s _ now target id h (removed s before id after inv)
Step-Inv env _ _ _ _ (create_user stack frame pml4 s pending) inv =
    created ((create_user_locked s stack frame pml4).0) ((create_user_locked s stack frame pml4).1)
      pending (create_user_locked-Inv s _ stack frame pml4 inv)
Step-Inv env _ _ _ _ (push_user now target id s before after h) inv =
    create_user_push-Inv s _ now target id h (removed s before id after inv)
Step-Inv env _ _ _ _ (exit cpu s pending) inv = exit_locked-Inv s _ cpu inv

Steps-Inv :
    (env : Platform) (s : Sched) (pending : List ℕ) (s' : Sched) (pending' : List ℕ)
    → Steps env s pending s' pending'
    → Inv s (in_hand pending)
    → Inv s' (in_hand pending')
Steps-Inv env _ _ _ _ (done s pending) inv = inv
Steps-Inv env _ _ _ _ (step st sts) inv = Steps-Inv env _ _ _ _ sts (Step-Inv env _ _ _ _ st inv)

-- From the state of `tasking_init`, after any interleaving of ticks, blocks, wake-ups, creations and
-- exits on all CPUs: a task that a CPU runs stands on no run queue, and no second CPU runs it.
pub one_cpu_per_task :
    (env : Platform) (rsp0 cr3 : ℕ → ℕ) (s : Sched) (pending : List ℕ)
    → Steps env (tasking_init rsp0 cr3) [] s pending
    → (x cpu : ℕ) → cpu < max_cpus
    → s.cpu_current cpu ≡ some x
    → (queued s x ≡ 0)
      × ((other : ℕ) → other < max_cpus → s.cpu_current other ≡ some x → other ≡ cpu)
unfolding on_cpus occurs
one_cpu_per_task env rsp0 cr3 s pending steps x cpu h e =
    let inv =
      Steps-Inv env _ _ s pending steps
        (weaken _ _ (in_hand []) (tasking_init-Inv rsp0 cr3) (λ y. omega arith)) in
    let here = ap (λ o. runs o x) e ∙ one_if_self x in
    (
      omega (arith, inv.one_place x, here, total-ge max_cpus (λ i. runs (s.cpu_current i) x) cpu h),
      λ other h' e'. elim (Bool-cases (other == cpu)) [
        | inl q ↦ ==→eq _ _ q
        | inr q ↦ absurd (
            omega (
              arith,
              inv.one_place x,
              here,
              ap (λ o. runs o x) e' ∙ one_if_self x,
              total-two max_cpus (λ i. runs (s.cpu_current i) x) other cpu h' h (==→ne _ _ q),
            ))
      ],
    )

-- From the state of `tasking_init`, after any interleaving: a task on a run queue is ready, and stands
-- there once.
pub queued_once :
    (env : Platform) (rsp0 cr3 : ℕ → ℕ) (s : Sched) (pending : List ℕ)
    → Steps env (tasking_init rsp0 cr3) [] s pending
    → (x : ℕ) → 0 < queued s x
    → (queued s x ≡ 1) × ((s.tasks x).state ≡ ready)
unfolding occurs
queued_once env rsp0 cr3 s pending steps x h =
    let inv =
      Steps-Inv env _ _ s pending steps
        (weaken _ _ (in_hand []) (tasking_init-Inv rsp0 cr3) (λ y. omega arith)) in
    (omega (arith, inv.one_place x, h), inv.waiting_ready x (omega (arith, h)))
