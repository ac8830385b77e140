-- ===== src/Sched/Places.antt =====
-- Where a task stands: how many run-queue entries name it, and how many CPUs run it; and what each
-- primitive of the scheduler does to these two numbers.
use aetheroz.Prelude.{
  ℕ, zero, suc, ◌+◌, ◌≤◌, ◌<◌, ◌≡◌, ◌≢◌, refl, ap, subst, ◌∙◌, ◌⊎◌, inl, inr, true, false, Option,
  none, some, [], ◌∷◌, ◌++◌, arith, leb, ◌==◌, length, update, update_self, update_ne, Bool-cases,
  ==→eq, ==→ne,
}
use aetheroz.Sched.{Sched, max_tasks, max_cpus}
use aetheroz.Sched.RunQueue.{pushed, runq_push, runq_pop}
use aetheroz.Sched.RunQueue.Pop.{one_if, occurs, occurs-append, occurs-one, runq_pop_lem}
use aetheroz.Sched.RunQueue.Steal.{steal_task_cases}
use aetheroz.Sched.Core.{Platform, or_steal, choose_next}

-- The sum of a number over the CPUs below `n`.
unfoldable pub total : ℕ → (ℕ → ℕ) → ℕ
total zero f = 0
total (suc n) f = f n + total n f

pub total-ge : (n : ℕ) (f : ℕ → ℕ) (i : ℕ) → i < n → f i ≤ total n f
unfolding total
total-ge zero f i h = absurd (omega arith)
total-ge (suc n) f i h = elim (Bool-cases (i == n)) [
  | inl e ↦ ground (arith, ap f (==→eq _ _ e))
  | inr e ↦ omega (arith, total-ge n f i (omega (arith, ==→ne _ _ e)))
]

-- Two places count twice.
pub total-two : (n : ℕ) (f : ℕ → ℕ) (i j : ℕ) → i < n → j < n → i ≢ j → f i + f j ≤ total n f
unfolding total
total-two zero f i j hi hj ne = absurd (omega arith)
total-two (suc n) f i j hi hj ne = elim (Bool-cases (i == n)) [
  | inl e ↦ omega (arith, ap f (==→eq _ _ e), total-ge n f j (omega (arith, ==→eq _ _ e)))
  | inr e ↦ elim (Bool-cases (j == n)) [
    | inl q ↦ omega (arith, ap f (==→eq _ _ q), total-ge n f i (omega (arith, ==→ne _ _ e)))
    | inr q ↦
        omega
          (arith, total-two n f i j (omega (arith, ==→ne _ _ e)) (omega (arith, ==→ne _ _ q)) ne)
  ]
]

pub all_zero : (n : ℕ) (f : ℕ → ℕ) → ((i : ℕ) → i < n → f i ≡ 0) → total n f ≡ 0
unfolding total
all_zero zero f h = refl
all_zero (suc n) f h = omega (arith, h n (omega arith), all_zero n f (λ i l. h i (omega arith)))

module _ {ℓ} {A : Type ℓ} (f : A → ℕ) (g : ℕ → A) (i : ℕ) (v : A) where
  total-update_out : (n : ℕ) → n ≤ i → total n (λ j. f (update g i v j)) ≡ total n (λ j. f (g j))
  unfolding total
  total-update_out zero h = refl
  total-update_out (suc n) h =
      omega (arith, total-update_out n (omega arith), ap f (update_ne g i v {j = n} (omega arith)))

  pub total-update :
      (n : ℕ) → i < n → total n (λ j. f (update g i v j)) + f (g i) ≡ total n (λ j. f (g j)) + f v
  unfolding total
  total-update zero h = absurd (omega arith)
  total-update (suc n) h = elim (Bool-cases (i == n)) [
    | inl e ↦
        let q = ==→eq _ _ e in
        omega (
          arith,
          total-update_out n (omega arith),
          ap (λ k. f (g k)) q,
          ap f (subst (λ k. update g i v k ≡ v) q (update_self g i v)),
        )
    | inr e ↦
        let q = ==→ne _ _ e in
        omega (arith, total-update n (omega arith), ap f (update_ne g i v {j = n} q))
  ]

abbrev pub runs : Option ℕ → ℕ → ℕ
runs none x = 0
runs (some id) x = one_if id x

-- The run-queue entries that name `x`, and the CPUs that run it.
unfoldable pub queued : Sched → ℕ → ℕ
queued s x = total max_cpus (λ i. occurs x (s.queues i))

unfoldable pub on_cpus : Sched → ℕ → ℕ
on_cpus s x = total max_cpus (λ i. runs (s.cpu_current i) x)

pub runs-le-on_cpus :
    (s : Sched) (cpu x : ℕ) → cpu < max_cpus → runs (s.cpu_current cpu) x ≤ on_cpus s x
unfolding on_cpus
runs-le-on_cpus s cpu x h = total-ge max_cpus (λ i. runs (s.cpu_current i) x) cpu h

-- The same tasks, CPUs and task count; only the queues differ.
pub record SameTasks (s s' : Sched) : Type 0 where
  pub tasks : s'.tasks ≡ s.tasks
  pub cpus : s'.cpu_current ≡ s.cpu_current
  pub count : s'.task_count ≡ s.task_count

-- `s'` is `s` with one run-queue entry for `id` less.
pub record Popped (s : Sched) (id : ℕ) (s' : Sched) : Type 0 where
  pub same : SameTasks s s'
  pub entries : (x : ℕ) → queued s' x + one_if id x ≡ queued s x

pub runq_pop-Popped :
    (s : Sched) (now cpu : ℕ)
    → cpu < max_cpus
    → (runq_pop s now cpu ≡ (none, s))
      ⊎ ((id : ℕ) × (s' : Sched) × (runq_pop s now cpu ≡ (some id, s')) × Popped s id s')
unfolding queued
runq_pop-Popped s now cpu h = elim (runq_pop_lem s now cpu) [
  | inl e ↦ inl e.1
  | inr (id, q', e, t) ↦ inr (
    id,
    record s { queues = update s.queues cpu q' },
    e,
    record {
      same = record { tasks = refl; cpus = refl; count = refl };
      entries = λ x. omega (arith, total-update (occurs x) s.queues cpu q' max_cpus h, t.kept x);
    },
  )
]

-- `choose_next` finds nothing and changes nothing, or it takes one entry out of a queue.
pub choose_next_cases :
    (env : Platform) (now : ℕ) (s : Sched) (cpu : ℕ)
    → cpu < max_cpus
    → (choose_next env now s cpu ≡ (none, s))
      ⊎ ((id : ℕ) × (s' : Sched) × (choose_next env now s cpu ≡ (some id, s')) × Popped s id s')
unfolding choose_next
choose_next_cases env now s cpu h = elim (runq_pop-Popped s now cpu h) [
  | inr (id, s', e, p) ↦ inr (id, s', ap (or_steal env now cpu) e, p)
  | inl e ↦ elim (steal_task_cases s now env.online cpu) [
    | inl (f, empty) ↦ inl (ap (or_steal env now cpu) e ∙ f)
    | inr (v, (lo, few, ne, full, most, f)) ↦ elim (runq_pop-Popped s now v few) [
      | inl g ↦ inl (ap (or_steal env now cpu) e ∙ f ∙ g)
      | inr (id, s', g, p) ↦ inr (id, s', ap (or_steal env now cpu) e ∙ f ∙ g, p)
    ]
  ]
]

-- `s'` is `s` with one run-queue entry for `id` more; of the tasks only the time stamp may differ.
pub record Pushed (s : Sched) (id : ℕ) (s' : Sched) : Type 0 where
  pub states : (x : ℕ) → (s'.tasks x).state ≡ (s.tasks x).state
  pub count : s'.task_count ≡ s.task_count
  pub cpus : s'.cpu_current ≡ s.cpu_current
  pub entries : (x : ℕ) → queued s' x ≡ queued s x + one_if id x

pub runq_push-Pushed :
    (s : Sched) (now cpu id : ℕ)
    → cpu < max_cpus
    → (runq_push s now cpu id ≡ (false, s))
      ⊎ ((s' : Sched) × (runq_push s now cpu id ≡ (true, s')) × Pushed s id s')
unfolding runq_push queued
runq_push-Pushed s now cpu id h = elim (Bool-cases (leb max_tasks (length (s.queues cpu)))) [
  | inl full ↦ inl (rw full refl)
  | inr room ↦ inr (
    pushed s now cpu id,
    rw room refl,
    record {
      states = λ x. ground arith;
      count = refl;
      cpus = refl;
      entries = λ x. omega (
        arith,
        total-update (occurs x) s.queues cpu (s.queues cpu ++ (id ∷ [])) max_cpus h,
        occurs-append x (s.queues cpu) (id ∷ []),
        occurs-one x id,
      );
    },
  )
]

-- A CPU takes another task, or none.
pub on_cpus-update :
    (s : Sched) (cpu : ℕ) (c : Option ℕ) (s' : Sched)
    → cpu < max_cpus
    → s'.cpu_current ≡ update s.cpu_current cpu c
    → (x : ℕ) → on_cpus s' x + runs (s.cpu_current cpu) x ≡ on_cpus s x + runs c x
unfolding on_cpus
on_cpus-update s cpu c s' h e x =
    ap (λ (k : ℕ → Option ℕ). total max_cpus (λ i. runs (k i) x) + runs (s.cpu_current cpu) x) e
    ∙ total-update (λ o. runs o x) s.cpu_current cpu c max_cpus h
