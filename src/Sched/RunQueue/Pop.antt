-- ===== src/Sched/RunQueue/Pop.antt =====
-- `runq_pop` and `runq_push`: which task is taken, and that no entry is lost or made twice.
use aetheroz.Prelude.{
  ℕ, zero, suc, ◌+◌, ◌-◌, ◌<◌, ◌≡◌, refl, sym, ap, subst, ◌∙◌, ◌⊎◌, inl, inr, Bool, true, false,
  none, some, List, [], ◌∷◌, ◌++◌, arith, ◌==◌, if◌then◌else◌, length, get_or, set, update,
  Bool-cases, ==→eq, ==→ne, length-set, get_or-set_self, get_or-set_ne,
}
use aetheroz.Sched.{Task, Sched}
use aetheroz.Sched.RunQueue.{beats, best_entry, drop_last, fill_gap, runq_pop}

-- How often a task stands in a queue.
unfoldable pub occurs : ℕ → List ℕ → ℕ
occurs x [] = 0
occurs x (id ∷ ids) = (if id == x then 1 else 0) + occurs x ids

pub occurs-append :
    (x : ℕ) (ids ids' : List ℕ) → occurs x (ids ++ ids') ≡ occurs x ids + occurs x ids'
unfolding occurs
occurs-append x [] ids' = omega arith
occurs-append x (id ∷ ids) ids' = omega (arith, occurs-append x ids ids')

abbrev pub one_if : ℕ → ℕ → ℕ
one_if id x = if id == x then 1 else 0

pub occurs-one : (x id : ℕ) → occurs x (id ∷ []) ≡ one_if id x
unfolding occurs
occurs-one x id = omega arith

occurs-set :
    (x v d : ℕ) (q : List ℕ) (i : ℕ)
    → i < length q
    → occurs x (set q i v) + one_if (get_or q i d) x ≡ occurs x q + one_if v x
unfolding occurs
occurs-set x v d [] i h = absurd (omega arith)
occurs-set x v d (id ∷ ids) zero h = ground arith
occurs-set x v d (id ∷ ids) (suc i) h = ground (arith, occurs-set x v d ids i)

occurs-drop_last :
    (x : ℕ) (id : ℕ) (ids : List ℕ)
    → occurs x (drop_last (id ∷ ids)) + one_if (get_or (id ∷ ids) (length ids) 0) x
      ≡ occurs x (id ∷ ids)
unfolding occurs drop_last
occurs-drop_last x id [] = ground arith
occurs-drop_last x id (id' ∷ ids) = ground (arith, occurs-drop_last x id' ids)

occurs-drop_last_of_pos :
    (x : ℕ) (q : List ℕ)
    → 0 < length q
    → occurs x (drop_last q) + one_if (get_or q (length q - 1) 0) x ≡ occurs x q
occurs-drop_last_of_pos x [] h = absurd (omega arith)
occurs-drop_last_of_pos x (id ∷ ids) h =
    ap (λ k. occurs x (drop_last (id ∷ ids)) + one_if (get_or (id ∷ ids) k 0) x) (omega arith)
    ∙ occurs-drop_last x id ids

-- The last entry after the gap is filled is the last entry before.
last_of_filled :
    (q : List ℕ) (i : ℕ)
    → i < length q
    → get_or (set q i (get_or q (length q - 1) 0)) (length q - 1) 0 ≡ get_or q (length q - 1) 0
last_of_filled q i h = elim (Bool-cases (i == length q - 1)) [
  | inl e ↦
      ap (λ k. get_or (set q k (get_or q (length q - 1) 0)) (length q - 1) 0) (==→eq _ _ e)
      ∙ get_or-set_self q (length q - 1) _ 0 (omega arith)
  | inr e ↦ get_or-set_ne q _ 0 (==→ne _ _ e)
]

-- Filling the gap takes out the entry at `i` and no other.
occurs-fill_gap :
    (x : ℕ) (q : List ℕ) (i : ℕ)
    → i < length q
    → occurs x (fill_gap q i) + one_if (get_or q i 0) x ≡ occurs x q
unfolding fill_gap
occurs-fill_gap x q i h =
    let last = get_or q (length q - 1) 0 in
    let filled = set q i last in
    let len = length-set q i last in
    omega (
      arith,
      occurs-set x last 0 q i h,
      occurs-drop_last_of_pos x filled (omega (arith, len)),
      ap (λ k. one_if (get_or filled (k - 1) 0) x) len,
      ap (λ k. one_if k x) (last_of_filled q i h),
    )

-- `a` is not worse than `b`: it has the higher effective priority, or the same and has not waited less.
abbrev pub NotWorse : (ℕ → Task) → ℕ → ℕ → ℕ → Type 0
NotWorse tasks now a b = beats tasks now b a ≡ false

NotWorse-trans :
    (tasks : ℕ → Task) (now a b c : ℕ)
    → NotWorse tasks now a b
    → NotWorse tasks now b c
    → NotWorse tasks now a c
NotWorse-trans tasks now a b c h k = ground arith

abbrev pub AllNotWorse : (ℕ → Task) → ℕ → ℕ → List ℕ → Type 0
AllNotWorse tasks now a [] = Unit {0}
AllNotWorse tasks now a (b ∷ bs) = NotWorse tasks now a b × AllNotWorse tasks now a bs

NotWorse-self : (tasks : ℕ → Task) (now a : ℕ) → NotWorse tasks now a a
NotWorse-self tasks now a = ground arith

NotWorse-of_beats :
    (tasks : ℕ → Task) (now a b : ℕ) → beats tasks now a b ≡ true → NotWorse tasks now a b
NotWorse-of_beats tasks now a b h = ground arith

best_entry_step :
    (tasks : ℕ → Task) (now id : ℕ) (ids : List ℕ) (i best best_i : ℕ) {b : Bool}
    → beats tasks now id best ≡ b
    → best_entry tasks now (id ∷ ids) i best best_i
      ≡ best_entry tasks now ids (i + 1) (if b then id else best) (if b then i else best_i)
unfolding best_entry
best_entry_step tasks now id ids i best best_i e =
    ap (λ b. best_entry tasks now ids (i + 1) (if b then id else best) (if b then i else best_i)) e

-- The loop ends with a task that is not worse than any it has seen.
best_entry-NotWorse :
    (tasks : ℕ → Task) (now : ℕ) (ids : List ℕ) (i best best_i : ℕ)
    → NotWorse tasks now (best_entry tasks now ids i best best_i).0 best
      × AllNotWorse tasks now (best_entry tasks now ids i best best_i).0 ids
best_entry-NotWorse tasks now [] i best best_i =
    unfold best_entry in (NotWorse-self tasks now best, tt)
best_entry-NotWorse tasks now (id ∷ ids) i best best_i =
    elim (Bool-cases (beats tasks now id best)) [
      | inl better ↦
          let r = best_entry-NotWorse tasks now ids (i + 1) id i in
          subst Wins (sym (best_entry_step tasks now id ids i best best_i better))
            (NotWorse-trans tasks now _ id best r.0 (NotWorse-of_beats tasks now id best better), r)
      | inr worse ↦
          let r = best_entry-NotWorse tasks now ids (i + 1) best best_i in
          subst Wins (sym (best_entry_step tasks now id ids i best best_i worse))
            (r.0, (NotWorse-trans tasks now _ best id r.0 worse, r.1))
    ]
  where
    Wins : ℕ × ℕ → Type 0
    Wins o = NotWorse tasks now o.0 best × AllNotWorse tasks now o.0 (id ∷ ids)

-- The entries from `i` on of the queue `q`.
abbrev Rest : List ℕ → ℕ → List ℕ → Type 0
Rest q i ids =
    (i + length ids ≡ length q) × ((j : ℕ) → j < length ids → get_or q (i + j) 0 ≡ get_or ids j 0)

Rest-tail : (q : List ℕ) (i id : ℕ) (ids : List ℕ) → Rest q i (id ∷ ids) → Rest q (i + 1) ids
Rest-tail q i id ids r =
    (omega (arith, r.0), λ j h. ap (λ k. get_or q k 0) (omega arith) ∙ r.1 (suc j) (omega arith))

-- The index that the loop ends with is that of the task.
best_entry_index :
    (tasks : ℕ → Task) (now : ℕ) (q ids : List ℕ) (i best best_i : ℕ)
    → Rest q i ids
    → best_i < i
    → get_or q best_i 0 ≡ best
    → ((best_entry tasks now ids i best best_i).1 < length q)
      × (get_or q (best_entry tasks now ids i best best_i).1 0
          ≡ (best_entry tasks now ids i best best_i).0)
best_entry_index tasks now q [] i best best_i r h e = unfold best_entry in (omega (arith, r.0), e)
best_entry_index tasks now q (id ∷ ids) i best best_i r h e =
    elim (Bool-cases (beats tasks now id best)) [
      | inl better ↦ rw (best_entry_step tasks now id ids i best best_i better) (
          best_entry_index tasks now q ids (i + 1) id i (Rest-tail q i id ids r) (omega arith)
            (ap (λ k. get_or q k 0) (omega arith) ∙ r.1 0 (omega arith)))
      | inr worse ↦ rw (best_entry_step tasks now id ids i best best_i worse) (
          best_entry_index tasks now q ids (i + 1) best best_i (Rest-tail q i id ids r)
            (omega arith) e)
    ]

-- A pop takes `id` out of the queue `q`, once, and leaves `q'`: nothing else is lost or made, and no
-- entry of `q` is better.
pub record Takes (tasks : ℕ → Task) (now : ℕ) (q : List ℕ) (id : ℕ) (q' : List ℕ) : Type 0 where
  pub kept : (x : ℕ) → occurs x q' + (if id == x then 1 else 0) ≡ occurs x q
  pub is_best : AllNotWorse tasks now id q

-- `runq_pop` returns -1 and changes nothing if the queue is empty. Otherwise it takes out one entry
-- whose effective priority no entry of the queue exceeds, and none with the same effective priority
-- has waited longer; the other entries stay, and no other queue or task is touched.
pub runq_pop_lem :
    (s : Sched) (now cpu : ℕ)
    → ((s.queues cpu ≡ []) × (runq_pop s now cpu ≡ (none, s)))
      ⊎ ((id : ℕ) × (q' : List ℕ) × (runq_pop s now cpu
            ≡ (some id, record s { queues = update s.queues cpu q' }))
          × Takes s.tasks now (s.queues cpu) id q')
unfolding runq_pop
runq_pop_lem s now cpu = pop (s.queues cpu) refl
  where
    pop :
        (q : List ℕ)
        → s.queues cpu ≡ q
        → ((s.queues cpu ≡ []) × (runq_pop s now cpu ≡ (none, s)))
          ⊎ ((id : ℕ) × (q' : List ℕ) × (runq_pop s now cpu
                ≡ (some id, record s { queues = update s.queues cpu q' }))
              × Takes s.tasks now (s.queues cpu) id q')
    pop [] e = inl (e, rw (e, runq_pop) refl)
    pop (id ∷ ids) e =
        let b = best_entry s.tasks now ids 1 id 0 in
        let n = best_entry-NotWorse s.tasks now ids 1 id 0 in
        let r =
          best_entry_index s.tasks now (id ∷ ids) ids 1 id 0
            (omega arith, λ j h. ap (λ k. get_or (id ∷ ids) k 0) {y = suc j} (omega arith))
            (omega arith) refl in
        inr (
          b.0,
          fill_gap (id ∷ ids) b.1,
          rw (e, runq_pop) refl,
          record {
            kept = λ x.
                ap (λ k. occurs x (fill_gap (id ∷ ids) b.1) + one_if k x) (sym r.1)
                ∙ occurs-fill_gap x (id ∷ ids) b.1 r.0
                ∙ ap (occurs x) (sym e);
            is_best = rw e (n.0, n.1);
          },
        )
