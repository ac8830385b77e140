-- ===== src/Vfs/Slots.antt =====
-- `resolve` finds a slot exactly where the descriptor is the task's own and open.
use aetheroz.Prelude.{
  ℕ, ◌+◌, ◌*◌, ◌≤◌, ◌<◌, ◌≡◌, refl, ap, ◌∙◌, subst, inl, inr, Bool, true, false, not, ◌||◌, Option,
  none, some, arith, ◌==◌, Bool-cases, update, update_self,
}
use aetheroz.Prelude.Int.{ℤ, pos, negsuc, pos_part, neg_part}
use aetheroz.Sched.{max_tasks}
use aetheroz.Vfs.{VfsFile, Fds, max_fds, slot_of, owned_slot, resolve}

-- The slot `s` is open and stands in the window of the task for the descriptor.
pub record IsOpen (fds : Fds) (task : ℤ) (fd : ℤ) (s : ℕ) : Type 0 where
  pub at_slot : slot_of task fd ≡ some s
  pub is_used : (fds s).used ≡ true
  pub is_owner : (fds s).owner + neg_part task ≡ pos_part task

open_parts : (u : Bool) (a b : ℕ) → (not u || not (a == b)) ≡ false → (u ≡ true) × (a ≡ b)
open_parts u a b h = ground arith

owned_slot-IsOpen :
    (fds : Fds) (task fd : ℤ) (o : Option ℕ) (s : ℕ)
    → slot_of task fd ≡ o
    → owned_slot fds task o ≡ some s
    → IsOpen fds task fd s
owned_slot-IsOpen fds task fd none s q e = ground arith
owned_slot-IsOpen fds task fd (some t) s q e =
    elim (Bool-cases (not (fds t).used || not ((fds t).owner + neg_part task == pos_part task))) [
      | inl shut ↦ absurd (let h = rw shut at e in cc)
      | inr open' ↦
          let h : some t ≡ some s = rw open' at e in
          let same : t ≡ s = ground arith in
          let (u, o) =
            open_parts (fds t).used ((fds t).owner + neg_part task) (pos_part task) open' in
          subst (IsOpen fds task fd) same (record { at_slot = q; is_used = u; is_owner = o })
    ]

pub resolve-IsOpen :
    (fds : Fds) (task fd : ℤ) (s : ℕ) → resolve fds task fd ≡ some s → IsOpen fds task fd s
unfolding resolve
resolve-IsOpen fds task fd s e = owned_slot-IsOpen fds task fd (slot_of task fd) s refl e

pub resolve_open :
    (fds : Fds) (task fd : ℤ) (s : ℕ) → IsOpen fds task fd s → resolve fds task fd ≡ some s
unfolding resolve
resolve_open fds task fd s o = rw (o.at_slot, o.is_used, o.is_owner) (ground arith)

-- A slot that stands in a task's window.
pub slot_of-window :
    (t : ℕ) (fd : ℤ) (s : ℕ)
    → slot_of (pos t) fd ≡ some s
    → (t < max_tasks) × (t * max_fds ≤ s) × (s < t * max_fds + max_fds)
unfolding slot_of
slot_of-window t (pos n) s e = ground arith
slot_of-window t (negsuc n) s e = ground arith

-- A write of the open slot keeps it open.
pub resolve-update :
    (fds : Fds) (task fd : ℤ) (s : ℕ) (v : VfsFile)
    → resolve fds task fd ≡ some s
    → v.used ≡ (fds s).used
    → v.owner ≡ (fds s).owner
    → resolve (update fds s v) task fd ≡ some s
resolve-update fds task fd s v found u o =
    let was = resolve-IsOpen fds task fd s found in
    let self = update_self fds s v in
    resolve_open (update fds s v) task fd s (record {
      at_slot = was.at_slot;
      is_used = ap (λ (x : VfsFile). x.used) self ∙ u ∙ was.is_used;
      is_owner =
          ap (λ (x : VfsFile). x.owner + neg_part task) self
          ∙ ap (λ x. x + neg_part task) o
          ∙ was.is_owner;
    })
