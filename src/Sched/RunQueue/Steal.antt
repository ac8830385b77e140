-- ===== src/Sched/RunQueue/Steal.antt =====
-- `steal_task`: it pops from the longest queue of another online CPU.
use aetheroz.Prelude.{
  ℕ, zero, suc, ◌+◌, ◌≤◌, ◌<◌, ◌≡◌, ◌≢◌, refl, sym, subst, ◌∙◌, ◌⊎◌, inl, inr, false, Option, none,
  some, arith, ltb, ◌==◌, length, Option-cases, Bool-cases, ==→eq, ==→ne,
}
use aetheroz.Sched.{Sched, max_cpus}
use aetheroz.Sched.RunQueue.{runq_pop, busiest, steal_task, online_cpus}

-- No CPU but the thief, of the first `n`, has a longer queue than `best`.
abbrev Bounded : Sched → ℕ → ℕ → ℕ → Type 0
Bounded s self n best = (j : ℕ) → j < n → j ≢ self → length (s.queues j) ≤ best

-- The victim among the first `n` CPUs, with the length of its queue; none where all are empty.
abbrev Best : Sched → ℕ → ℕ → Option ℕ → ℕ → Type 0
Best s self n none best = (best ≡ 0) × Bounded s self n best
Best s self n (some v) best =
    (v < n) × (v ≢ self) × (length (s.queues v) ≡ best) × (0 < best) × Bounded s self n best

next_bound :
    (s : Sched) (self n best best' : ℕ)
    → Bounded s self n best
    → best ≤ best'
    → (n ≢ self → length (s.queues n) ≤ best')
    → Bounded s self (n + 1) best'
next_bound s self n best best' b le here j lo ne = elim (Bool-cases (j == n)) [
  | inl e ↦
      let same = sym (==→eq _ _ e) in
      subst (λ k. length (s.queues k) ≤ best') same (here (λ q. ne (==→eq _ _ e ∙ q)))
  | inr e ↦ omega (arith, b j (omega (arith, ==→ne _ _ e)) ne)
]

kept-Best :
    (s : Sched) (self n : ℕ) (victim : Option ℕ) (best : ℕ)
    → Best s self n victim best
    → (n ≢ self → length (s.queues n) ≤ best)
    → Best s self (n + 1) victim best
kept-Best s self n none best (z, b) here = (z, next_bound s self n best best b (omega arith) here)
kept-Best s self n (some v) best (lo, ne, len, some_task, b) here =
    (omega arith, ne, len, some_task, next_bound s self n best best b (omega arith) here)

bound_of :
    (s : Sched) (self n : ℕ) (victim : Option ℕ) (best : ℕ)
    → Best s self n victim best
    → Bounded s self n best
bound_of s self n none best b = b.1
bound_of s self n (some v) best (_, _, _, _, b) = b

busiest-Best :
    (s : Sched) (self n i m : ℕ) (victim : Option ℕ) (best : ℕ)
    → i + n ≡ m
    → Best s self i victim best
    → (most : ℕ) × Best s self m (busiest s self n i victim best) most
unfolding busiest
busiest-Best s self zero i m victim best z b =
    let same : i ≡ m = omega (arith, z) in (best, subst (λ k. Best s self k victim best) same b)
busiest-Best s self (suc n) i m victim best z b = elim (Bool-cases (i == self)) [
  | inl e ↦
      let skipped : ltb best 0 ≡ false = ground arith in
      rw (e, skipped)
        (busiest-Best s self n (i + 1) m victim best (omega arith)
          (kept-Best s self i victim best b (λ ne. absurd (ne (==→eq _ _ e)))))
  | inr e ↦ elim (Bool-cases (ltb best (length (s.queues i)))) [
    | inr l ↦
        rw (e, l)
          (busiest-Best s self n (i + 1) m victim best (omega arith)
            (kept-Best s self i victim best b (λ ne. ground arith)))
    | inl l ↦
        let longer : best ≤ length (s.queues i) = ground arith in
        rw (e, l)
          (busiest-Best s self n (i + 1) m (some i) (length (s.queues i)) (omega arith) (
            omega arith,
            ==→ne _ _ e,
            refl,
            ground arith,
            next_bound s self i best _ (bound_of s self i victim best b) longer (λ ne. omega arith),
          ))
  ]
]

-- The CPUs that are looked at are those online, at most the first sixteen.
pub online_cpus_bounds : (j online : ℕ) → j < online_cpus online → (j < online) × (j < max_cpus)
online_cpus_bounds j online h = (ground arith, ground arith)

pub online_cpus_all : (j online : ℕ) → j < online → j < max_cpus → j < online_cpus online
online_cpus_all j online h k = ground arith

-- What `steal_task` may do: nothing, if all other queues are empty, or a pop from a longest one.
abbrev pub StealsFrom : Sched → ℕ → ℕ → ℕ → ℕ → Type 0
StealsFrom s now online self v =
    (v < online)
    × (v < max_cpus)
    × (v ≢ self)
    × (0 < length (s.queues v))
    × ((j : ℕ) → j < online → j < max_cpus → j ≢ self → length (s.queues j) ≤ length (s.queues v))
    × (steal_task s now online self ≡ runq_pop s now v)

-- `steal_task` pops from the queue of another online CPU, at most the sixteenth, a nonempty one that is
-- at least as long as that of every such CPU but the thief; or the queues of all of them are empty, and
-- it finds nothing and changes nothing.
pub steal_task_cases :
    (s : Sched) (now online self : ℕ)
    → ((steal_task s now online self ≡ (none, s))
        × ((j : ℕ) → j < online → j < max_cpus → j ≢ self → length (s.queues j) ≡ 0))
      ⊎ ((v : ℕ) × StealsFrom s now online self v)
unfolding steal_task
steal_task_cases s now online self =
    let (most, best) =
      busiest-Best s self (online_cpus online) 0 (online_cpus online) none 0 (omega arith)
        (refl, λ j h. absurd (omega arith)) in
    elim (Option-cases (busiest s self (online_cpus online) 0 none 0)) [
      | inl e ↦
          let (z, b) = subst (λ v. Best s self (online_cpus online) v most) e best in
          inl (
            rw (e, steal_task) refl,
            λ j h k ne. omega (arith, z, b j (online_cpus_all j online h k) ne),
          )
      | inr (v, e) ↦
          let (lo, ne, len, positive, b) =
            subst (λ v. Best s self (online_cpus online) v most) e best in
          inr (
            v,
            (
              (online_cpus_bounds v online lo).0,
              (online_cpus_bounds v online lo).1,
              ne,
              omega (arith, len, positive),
              λ j h k other. omega (arith, len, b j (online_cpus_all j online h k) other),
              rw (e, steal_task) refl,
            ),
          )
    ]
