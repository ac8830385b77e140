-- ===== src/Sched/RunQueue/Placement.antt =====
-- `pick_target_cpu`: where a task that becomes ready is put.
use aetheroz.Prelude.{
  ℕ, zero, suc, ◌+◌, ◌≤◌, ◌<◌, ◌≡◌, none, some, refl, true, false, subst, sym, ◌⊎◌, inl, inr, arith,
  ltb, ◌==◌, length, Bool-cases, Option-cases, ==→eq, ==→ne,
}
use aetheroz.Sched.{Sched, max_cpus}
use aetheroz.Sched.RunQueue.Steal.{online_cpus_bounds, online_cpus_all}
use aetheroz.Sched.RunQueue.{online_cpus, is_idle, load, pick_from, pick_target_cpu}

-- An idle CPU has no load.
idle_load : (s : Sched) (i : ℕ) → is_idle s i ≡ true → load s i ≡ 0
idle_load s i e = elim (Option-cases (s.cpu_current i)) [
  | inl o ↦ rw o (let q : (length (s.queues i) == 0) ≡ true = rw (o, is_idle) at e in ground arith)
  | inr (c, o) ↦ absurd (let q : ◌≡◌ false true = rw (o, is_idle) at e in cc)
]

-- The best CPU among the first `n`, with its load; before the first the load is the largest number.
abbrev Least : Sched → ℕ → ℕ → ℕ → Type 0
Least s n c l =
    ((j : ℕ) → j < n → l ≤ load s j) × (((n ≡ 0) × (l ≡ 0xFFFFFFFF)) ⊎ ((c < n) × (load s c ≡ l)))

least_next :
    (s : Sched) (n l l' : ℕ)
    → ((j : ℕ) → j < n → l ≤ load s j)
    → l' ≤ l
    → l' ≤ load s n
    → (j : ℕ) → j < n + 1
    → l' ≤ load s j
least_next s n l l' b le here j lo = elim (Bool-cases (j == n)) [
  | inl e ↦ subst (λ k. l' ≤ load s k) (sym (==→eq _ _ e)) here
  | inr e ↦ omega (arith, b j (omega (arith, ==→ne _ _ e)))
]

-- What the loop gives: a CPU below `m` with the least load.
abbrev Picks : Sched → ℕ → ℕ → Type 0
Picks s m c = (c < m) × ((j : ℕ) → j < m → load s c ≤ load s j)

pick_from-Least :
    (s : Sched) (n i m best_cpu best_load : ℕ)
    → i + n ≡ m
    → 0 < m
    → load s 0 < 0xFFFFFFFF
    → Least s i best_cpu best_load
    → Picks s m (pick_from s n i best_cpu best_load)
unfolding pick_from
pick_from-Least s zero i m c l z some_cpu light (b, first) = elim first [
  | inl none_yet ↦ absurd (omega (arith, none_yet.0))
  | inr best ↦ (omega (arith, best.0), λ j lo. omega (arith, best.1, b j (omega arith)))
]
pick_from-Least s (suc n) i m c l z some_cpu light (b, first) = elim (Bool-cases (is_idle s i)) [
  | inl e ↦ rw e (omega arith, λ j lo. omega (arith, idle_load s i e))
  | inr e ↦ elim (Bool-cases (ltb (load s i) l)) [
    | inl less ↦
        let lower : load s i < l = ground arith in
        rw (e, less)
          (pick_from-Least s n (i + 1) m i (load s i) (omega arith) some_cpu light
            (least_next s i l (load s i) b (omega arith) (omega arith), inr (omega arith, refl)))
    | inr less ↦
        let higher : l ≤ load s i = ground arith in
        let kept : (c < i + 1) × (load s c ≡ l) = elim first [
          | inl none_yet ↦ absurd (
              let at_first = subst (λ k. l ≤ load s k) none_yet.0 higher in
              omega (arith, none_yet.1))
          | inr best ↦ (omega (arith, best.0), best.1)
        ] in
        rw (e, less)
          (pick_from-Least s n (i + 1) m c l (omega arith) some_cpu light
            (least_next s i l l b (omega arith) higher, inr kept))
  ]
]

-- The tasks that a CPU has: those in its queue, and the one that it runs.
abbrev pub work : Sched → ℕ → ℕ
work s i = length (s.queues i) + elim (s.cpu_current i) [ none ↦ 0 | some id ↦ 1 ]

-- `pick_target_cpu` names one of the online CPUs, of which there is one and of which the first sixteen
-- count, and none of these has fewer tasks in its queue and on it together: an idle CPU, with none at all,
-- if there is one. The number of tasks of the first CPU is below the largest number of 32 bits.
pub pick_target_cpu_lem :
    (s : Sched) (online : ℕ)
    → 0 < online
    → work s 0 < 0xFFFFFFFF
    → (pick_target_cpu s online < online)
      × (pick_target_cpu s online < max_cpus)
      × ((j : ℕ) → j < online → j < max_cpus → work s (pick_target_cpu s online) ≤ work s j)
unfolding pick_target_cpu
pick_target_cpu_lem s online some_cpu light =
    let m = online_cpus online in
    let (lo, least) =
      pick_from-Least s m 0 m 0 0xFFFFFFFF (omega arith) (ground arith) light
        (λ j h. absurd (omega arith), inl (refl, refl)) in
    (
      (online_cpus_bounds _ online lo).0,
      (online_cpus_bounds _ online lo).1,
      λ j h k. least j (online_cpus_all j online h k),
    )
