-- ===== src/Sched/Safety/Wakes.antt =====
-- kernel/sched/block.c: blocking and waking preserve the invariant.
use aetheroz.Prelude.{
  ℕ, zero, suc, Bool, ◌+◌, ◌≤◌, ◌<◌, ◌≡◌, ◌≢◌, refl, sym, ap, subst, ◌∙◌, ◌⊎◌, inl, inr, true, none,
  some, arith, ◌==◌, ltb, leb, Bool-cases, Option-cases, ==→eq, ==→ne, ltb→lt,
}
use aetheroz.Sched.{TaskState, ready, running, dead, blocked, Sched, max_cpus, max_tasks}
use aetheroz.Sched.Core.{set_task}
use aetheroz.Sched.Block.{
  is_wait_state, is_running, self_of, block_prepare, sleep_mark, find_cpu, Wake, enqueue,
  unblock_locked, unblock_push,
}
use aetheroz.Sched.RunQueue.Pop.{one_if}
use aetheroz.Sched.Places.{all_zero, runs, on_cpus, runs-le-on_cpus, runq_push-Pushed}
use aetheroz.Sched.Safety.{Inv, one_if_self, one_if_ne, set_task-Inv}
use aetheroz.Sched.Safety.Dispatch.{weaken, put_back-Inv, current_waits_nowhere}
use aetheroz.Sched.Safety.Marks.{waits_nowhere, mark_ready-Inv}

self_of_cases :
    (s : Sched) (cpu : ℕ)
    → (self_of s cpu ≡ none)
      ⊎ ((c : ℕ) × (self_of s cpu ≡ some c) × cpu < max_cpus × (s.cpu_current cpu ≡ some c))
self_of_cases s cpu = elim (Bool-cases (ltb cpu max_cpus)) [
  | inr e ↦ inl (rw e refl)
  | inl e ↦ elim (Option-cases (s.cpu_current cpu)) [
    | inl o ↦ inl (rw (e, o) refl)
    | inr (c, o) ↦ elim (Bool-cases (ltb c s.task_count)) [
      | inl l ↦ inr (c, rw (e, o, l) refl, ltb→lt _ _ e, o)
      | inr l ↦ inl (rw (e, o, l) refl)
    ]
  ]
]

wait_alive : (st : TaskState) → is_wait_state st ≡ true → (st ≢ dead) × (st ≢ ready)
wait_alive st e = (
  λ k. absurd (let q = sym (ap is_wait_state k) ∙ e in cc),
  λ k. absurd (let q = sym (ap is_wait_state k) ∙ e in cc),
)

running_alive : (st : TaskState) → is_running st ≡ true → st ≢ dead
running_alive st e k = absurd (let q = sym (ap is_running k) ∙ e in cc)

pub block_prepare-Inv :
    (s : Sched) (p : ℕ → ℕ) (cpu : ℕ) (st : TaskState)
    → Inv s p
    → Inv ((block_prepare s cpu st).1) p
unfolding block_prepare
block_prepare-Inv s p cpu st inv = elim (Bool-cases (is_wait_state st)) [
  | inr e ↦ rw e inv
  | inl e ↦ elim (self_of_cases s cpu) [
    | inl o ↦ rw (e, o) inv
    | inr (c, o, h, cur) ↦ elim (Bool-cases (is_running (s.tasks c).state)) [
      | inl r ↦
          rw (e, o, r)
            (set_task-Inv s p c (record (s.tasks c) { state = st }) inv
              (inr (current_waits_nowhere s p cpu c h inv cur)) (running_alive _ r)
              ((wait_alive st e).0))
      | inr r ↦ rw (e, o, r) inv
    ]
  ]
]

pub sleep_mark-Inv :
    (s : Sched) (p : ℕ → ℕ) (cpu until : ℕ) → Inv s p → Inv (sleep_mark s cpu until) p
unfolding sleep_mark
sleep_mark-Inv s p cpu until inv = elim (self_of_cases s cpu) [
  | inl o ↦ rw (o, sleep_mark) inv
  | inr (c, o, h, cur) ↦
      let alive : (s.tasks c).state ≢ dead = λ d. absurd (
        omega (
          arith,
          inv.dead_off c d,
          runs-le-on_cpus s cpu c h,
          ap (λ v. runs v c) cur,
          one_if_self c,
        )) in
      rw (o, sleep_mark)
        (set_task-Inv s p c (record (s.tasks c) { wake_at_ms = until }) inv
          (inr (current_waits_nowhere s p cpu c h inv cur)) alive alive)
]

found_none :
    (s : Sched) (id i n : ℕ)
    → find_cpu s id i n ≡ none
    → (j : ℕ) → i ≤ j
    → j < i + n
    → runs (s.cpu_current j) id ≡ 0
unfolding find_cpu
found_none s id i zero e j lo hi = absurd (omega arith)
found_none s id i (suc n) e j lo hi = elim (Option-cases (s.cpu_current i)) [
  | inl o ↦ elim (Bool-cases (i == j)) [
    | inl q ↦ ap (λ v. runs v id) (subst (λ k. s.cpu_current k ≡ none) (==→eq _ _ q) o)
    | inr q ↦
        found_none s id (i + 1) n (sym (rw (o, find_cpu) refl) ∙ e) j (omega (arith, ==→ne _ _ q))
          (omega arith)
  ]
  | inr (c, o) ↦ elim (Bool-cases (c == id)) [
    | inl q ↦
        let found : find_cpu s id i (suc n) ≡ some i = rw (o, q, find_cpu) refl in
        absurd (let k = sym found ∙ e in cc)
    | inr q ↦ elim (Bool-cases (i == j)) [
      | inl r ↦
          ap (λ v. runs v id) (subst (λ k. s.cpu_current k ≡ some c) (==→eq _ _ r) o)
          ∙ one_if_ne c id (==→ne _ _ q)
      | inr r ↦
          let rest : find_cpu s id i (suc n) ≡ find_cpu s id (i + 1) n = rw (o, q, find_cpu) refl in
          found_none s id (i + 1) n (sym rest ∙ e) j (omega (arith, ==→ne _ _ r)) (omega arith)
    ]
  ]
]

-- Who is about to put the task on a queue.
unfoldable pub due : Wake → ℕ → ℕ → ℕ
due enqueue id x = one_if id x
due _ id x = 0

pub unblock_locked-Inv :
    (s : Sched) (p : ℕ → ℕ) (id : ℕ)
    → Inv s p
    → Inv ((unblock_locked s id).1) (λ x. p x + due ((unblock_locked s id).0) id x)
unfolding unblock_locked due on_cpus
unblock_locked-Inv s p id inv =
    let same = weaken s p (λ x. p x + 0) inv (λ x. omega arith) in
    elim (Bool-cases (leb max_tasks id)) [
      | inl e ↦ rw e same
      | inr e ↦ elim (Bool-cases (is_wait_state (s.tasks id).state)) [
        | inr w ↦ rw (e, w) same
        | inl w ↦
            let (alive, not_ready) = wait_alive (s.tasks id).state w in
            let nowhere = waits_nowhere s p id inv not_ready in
            elim (Option-cases (find_cpu s id 0 max_cpus)) [
              | inr (cpu, f) ↦
                  let t = record (s.tasks id) { wake_at_ms = 0; state = running } in
                  rw (e, w, f)
                    (weaken (set_task s id t) p (λ x. p x + 0)
                      (set_task-Inv s p id t inv (inr nowhere) alive (λ k. absurd (cc)))
                      (λ x. omega arith))
              | inl f ↦
                  let off =
                    all_zero max_cpus (λ i. runs (s.cpu_current i) id)
                      (λ i l. found_none s id 0 max_cpus f i (omega arith) (omega arith)) in
                  let live : id < s.task_count = elim (Bool-cases (ltb id s.task_count)) [
                    | inl l ↦ ltb→lt _ _ l
                    | inr l ↦ absurd (alive (inv.beyond id (ground arith)))
                  ] in
                  rw (e, w, f)
                    (mark_ready-Inv s p id (record (s.tasks id) { wake_at_ms = 0; state = ready })
                      inv live (omega (arith, off, nowhere)) refl)
            ]
      ]
    ]

-- The second step of a wake-up, on any queue.
pub unblock_push-Inv :
    (s : Sched) (p : ℕ → ℕ) (now target id : ℕ)
    → target < max_cpus
    → Inv s (λ x. p x + one_if id x)
    → Inv (unblock_push s now target id) p
unfolding unblock_push
unblock_push-Inv s p now target id h inv =
    let done = put_back-Inv s p now target id h inv in
    elim (runq_push-Pushed s now target id h) [
      | inr (s', e, push) ↦ let inv' = subst (λ (r : Bool × Sched). Inv (r.1) p) e done in rw e inv'
      | inl e ↦
          let rdy = inv.waiting_ready id (omega (arith, one_if_self id)) in
          let t = record (s.tasks id) { state = blocked } in
          rw (e, rdy)
            (set_task-Inv s p id t (weaken s _ p inv (λ x. omega arith))
              (inr (omega (arith, inv.one_place id, one_if_self id)))
              (λ d. absurd (let q = sym rdy ∙ d in cc)) (λ d. absurd (cc)))
    ]
