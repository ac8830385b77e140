-- ===== src/Sched/Safety/Schedule.antt =====
-- kernel/sched/core.c: `schedule_on_cpu` and the idle loop preserve the invariant.
use aetheroz.Prelude.{
  ℕ, ◌+◌, ◌<◌, ◌≡◌, ◌≢◌, refl, sym, ap, subst, ◌∙◌, inl, inr, Option, none, some, arith, ◌==◌, ◌||◌,
  ltb, leb, Bool-cases, Option-cases, ltb→lt,
}
use aetheroz.Sched.{TaskState, ready, running, sleeping, dead, blocked, Task, Sched, max_cpus}
use aetheroz.Sched.Core.{
  Platform, set_task, set_state, save_frame, Current, on_cpu, parked, vacant, classify, current_of,
  relinquish, choose_next, is_runnable, swap_out, switch_to, resume_next, schedule_on_cpu,
  idle_round,
}
use aetheroz.Sched.RunQueue.Pop.{one_if}
use aetheroz.Sched.Places.{runs, SameTasks, choose_next_cases, runq_push-Pushed}
use aetheroz.Sched.Safety.{Inv, state_at, set_task-Inv, Popped-Inv}
use aetheroz.Sched.Safety.Dispatch.{
  weaken, vacated-Inv, dispatch-Inv, Pushed-Handing, put_back-Inv, current_waits_nowhere,
  taken-Handing,
}

-- The current task of a CPU is running, or has parked itself, or there is none.
data Is (s : Sched) (cpu : ℕ) : Current → Type 0 where
  is_vacant : Is s cpu vacant
  is_on_cpu :
      (c : ℕ) → s.cpu_current cpu ≡ some c → (s.tasks c).state ≡ running → Is s cpu (on_cpu c)
  is_parked : (c : ℕ) → s.cpu_current cpu ≡ some c → (s.tasks c).state ≢ dead → Is s cpu (parked c)

classify-Is :
    (s : Sched) (cpu c : ℕ) (st : TaskState)
    → s.cpu_current cpu ≡ some c
    → (s.tasks c).state ≡ st
    → Is s cpu (classify c st)
classify-Is s cpu c ready e h = is_vacant
classify-Is s cpu c running e h = is_on_cpu c e h
classify-Is s cpu c sleeping e h = is_parked c e (λ k. absurd (cc))
classify-Is s cpu c dead e h = is_vacant
classify-Is s cpu c blocked e h = is_parked c e (λ k. absurd (cc))

current_of-Is : (s : Sched) (cpu : ℕ) → Is s cpu (current_of s cpu)
unfolding current_of
current_of-Is s cpu = elim (Option-cases (s.cpu_current cpu)) [
  | inl e ↦ rw (e, current_of) is_vacant
  | inr (c, e) ↦ elim (Bool-cases (ltb c s.task_count)) [
    | inl l ↦ rw (e, l, current_of) (classify-Is s cpu c (s.tasks c).state e refl)
    | inr l ↦ rw (e, l, current_of) is_vacant
  ]
]

swap_out-Inv :
    (env : Platform) (now : ℕ) (s : Sched) (p : ℕ → ℕ) (cpu regs c next : ℕ)
    → cpu < max_cpus
    → Inv s (λ x. p x + one_if next x)
    → s.cpu_current cpu ≡ some c
    → (s.tasks c).state ≡ running
    → Inv ((swap_out env now s cpu regs c next).1) p
unfolding swap_out
swap_out-Inv env now s p cpu regs c next h inv e run =
    let t = record (s.tasks c) { rsp = regs; state = ready } in
    let saved = set_task s c t in
    let p' = λ (x : ℕ). p x + one_if next x in
    elim (runq_push-Pushed saved now cpu c h) [
      | inl full ↦
          let inv_saved =
            set_task-Inv s p' c t inv (inl refl) (λ k. absurd (cc)) (λ k. absurd (cc)) in
          let back = record (saved.tasks c) { state = running } in
          let inv_back =
            set_task-Inv saved p' c back inv_saved
              (inr (current_waits_nowhere saved p' cpu c h inv_saved e))
              (λ k. absurd (let q = sym (state_at s.tasks c t c refl) ∙ k in cc))
              (λ k. absurd (cc)) in
          rw full (put_back-Inv (set_state saved c running) p now cpu next h inv_back)
      | inr (s', done, push) ↦ rw done (
          dispatch-Inv env s' p cpu next h
            (Pushed-Handing s p cpu c next t s' h inv e run refl push))
    ]

save_frame-Inv :
    (s : Sched) (p : ℕ → ℕ) (cpu c regs : ℕ)
    → cpu < max_cpus
    → Inv s p
    → s.cpu_current cpu ≡ some c
    → (s.tasks c).state ≢ dead
    → Inv (save_frame s c regs) p
save_frame-Inv s p cpu c regs h inv e alive =
    set_task-Inv s p c (record (s.tasks c) { rsp = regs }) inv
      (inr (current_waits_nowhere s p cpu c h inv e)) alive alive

switch_to-Inv :
    (env : Platform) (now : ℕ) (s : Sched) (p : ℕ → ℕ) (cpu regs : ℕ) (cur : Current) (next : ℕ)
    → cpu < max_cpus
    → Inv s (λ x. p x + one_if next x)
    → Is s cpu cur
    → Inv ((switch_to env now s cpu regs cur next).1) p
unfolding switch_to
switch_to-Inv env now s p cpu regs _ next h inv is_vacant =
    dispatch-Inv env s p cpu next h (taken-Handing s p cpu next inv)
switch_to-Inv env now s p cpu regs _ next h inv (is_on_cpu c e run) =
    swap_out-Inv env now s p cpu regs c next h inv e run
switch_to-Inv env now s p cpu regs _ next h inv (is_parked c e alive) =
    dispatch-Inv env (save_frame s c regs) p cpu next h
      (taken-Handing (save_frame s c regs) p cpu next (save_frame-Inv s _ cpu c regs h inv e alive))

resume_next-Inv :
    (env : Platform) (now : ℕ) (s : Sched) (p : ℕ → ℕ) (cpu regs : ℕ) (cur : Current)
    (next : Option ℕ)
    → cpu < max_cpus
    → Inv s (λ x. p x + runs next x)
    → Is s cpu cur
    → Inv ((resume_next env now s cpu regs cur next).1) p
unfolding resume_next
resume_next-Inv env now s p cpu regs _ none h inv is_vacant = weaken s _ p inv (λ x. omega arith)
resume_next-Inv env now s p cpu regs _ none h inv (is_on_cpu c e run) =
    weaken s _ p inv (λ x. omega arith)
resume_next-Inv env now s p cpu regs _ none h inv (is_parked c e alive) =
    save_frame-Inv s p cpu c regs h (weaken s _ p inv (λ x. omega arith)) e alive
resume_next-Inv env now s p cpu regs cur (some next) h inv is =
    elim (Bool-cases (is_runnable s next)) [
      | inl e ↦ rw e (switch_to-Inv env now s p cpu regs cur next h inv is)
      | inr e ↦ rw e (weaken s _ p inv (λ x. omega arith))
    ]

Is-same : (s s' : Sched) (cpu : ℕ) (cur : Current) → SameTasks s s' → Is s cpu cur → Is s' cpu cur
Is-same s s' cpu _ same is_vacant = is_vacant
Is-same s s' cpu _ same (is_on_cpu c e run) =
    is_on_cpu c (ap (λ (k : ℕ → Option ℕ). k cpu) same.cpus ∙ e)
      (ap (λ (k : ℕ → Task). (k c).state) same.tasks ∙ run)
Is-same s s' cpu _ same (is_parked c e alive) =
    is_parked c (ap (λ (k : ℕ → Option ℕ). k cpu) same.cpus ∙ e)
      (λ d. alive (sym (ap (λ (k : ℕ → Task). (k c).state) same.tasks) ∙ d))

-- What `choose_next` leaves, whether it finds a task or not.
chosen-Inv :
    (env : Platform) (now : ℕ) (s : Sched) (p : ℕ → ℕ) (cpu regs : ℕ) (cur : Current)
    → cpu < max_cpus
    → Inv s p
    → Is s cpu cur
    → Inv
        ((let (next, s') = choose_next env now s cpu in resume_next env now s' cpu regs cur next).1)
        p
chosen-Inv env now s p cpu regs cur h inv is =
    let Result =
      λ (r : Option ℕ × Sched). Inv ((resume_next env now (r.1) cpu regs cur (r.0)).1) p in
    elim (choose_next_cases env now s cpu h) [
      | inl e ↦
          subst Result (sym e) (
            resume_next-Inv env now s p cpu regs cur none h (weaken s p _ inv (λ x. omega arith))
              is)
      | inr (id, s', e, popped) ↦ subst Result (sym e) (
          resume_next-Inv env now s' p cpu regs cur (some id) h (Popped-Inv s p id s' inv popped)
            (Is-same s s' cpu cur popped.same is))
    ]

relinquish-Inv :
    (s : Sched) (p : ℕ → ℕ) (cpu : ℕ) (cur : Current)
    → cpu < max_cpus
    → Inv s p
    → Is s cpu cur
    → Inv (relinquish s cpu cur) p × Is (relinquish s cpu cur) cpu cur
relinquish-Inv s p cpu _ h inv is_vacant = (vacated-Inv s p cpu h inv, is_vacant)
relinquish-Inv s p cpu _ h inv (is_on_cpu c e run) = (inv, is_on_cpu c e run)
relinquish-Inv s p cpu _ h inv (is_parked c e alive) = (inv, is_parked c e alive)

-- A tick of the scheduler on any CPU, at any time and with any frame, preserves the invariant.
pub schedule_on_cpu-Inv :
    (env : Platform) (now : ℕ) (s : Sched) (p : ℕ → ℕ) (cpu regs : ℕ)
    → Inv s p
    → Inv ((schedule_on_cpu env now s cpu regs).1) p
unfolding schedule_on_cpu
schedule_on_cpu-Inv env now s p cpu regs inv = elim (Bool-cases (leb max_cpus cpu || regs == 0)) [
  | inl e ↦ rw e inv
  | inr e ↦ elim (Bool-cases (s.task_count == 0)) [
    | inl z ↦ rw (e, z) inv
    | inr z ↦
        let h : cpu < max_cpus = ground (arith, e) in
        let (inv', is) = relinquish-Inv s p cpu (current_of s cpu) h inv (current_of-Is s cpu) in
        rw (e, z)
          (chosen-Inv env now (relinquish s cpu (current_of s cpu)) p cpu regs (current_of s cpu) h
            inv' is)
  ]
]

pub idle_round-Inv : (s : Sched) (p : ℕ → ℕ) (cpu : ℕ) → Inv s p → Inv (idle_round s cpu) p
unfolding idle_round
idle_round-Inv s p cpu inv = elim (Bool-cases (ltb cpu max_cpus)) [
  | inl e ↦ rw e (vacated-Inv s p cpu (ltb→lt _ _ e) inv)
  | inr e ↦ rw e inv
]
