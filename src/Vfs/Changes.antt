-- ===== src/Vfs/Changes.antt =====
-- What a call may do to the pool of open files: change the slots of its own task, and keep an open
-- file's sizes in bounds.
use aetheroz.Prelude.{
  ℕ, ◌+◌, ◌*◌, ◌^◌, ◌≤◌, ◌<◌, ◌≡◌, refl, sym, ap, subst, ◌∙◌, ◌⊎◌, inl, inr, true, some, arith,
  ◌==◌, if◌then◌else◌, Bool-cases, update, update_self, update_ne, ==→eq, ==→ne,
}
use aetheroz.Prelude.Int.{ℤ, pos, negsuc}
use aetheroz.Sched.{max_tasks}
use aetheroz.Vfs.{
  Allocator, VfsFile, Fds, max_fds, flag_set, o_append, set_pos, written, at_end_if_append,
}
use aetheroz.Vfs.Grow.{Room}

-- The sizes of an open file are numbers of 32 bits, and its bytes lie in its buffer.
pub record IsFile (f : VfsFile) : Type 0 where
  pub size_le : f.size ≤ f.cap
  pub cap_lt : f.cap < 2 ^ 32
  pub pos_lt : f.pos < 2 ^ 32

-- The slots of a task.
unfoldable pub InWindow : ℤ → ℕ → Type 0
InWindow (negsuc t) s = ⊥
InWindow (pos t) s = (t < max_tasks) × (t * max_fds ≤ s) × (s < t * max_fds + max_fds)

-- An open file belongs to the task in whose window it stands.
abbrev pub Sound : ℕ → VfsFile → Type 0
Sound s f = f.used ≡ true → IsFile f × InWindow (pos f.owner) s

abbrev pub Changes : ℤ → Fds → Fds → Type 0
Changes task fds fds' =
    (s : ℕ) → (fds' s ≡ fds s) ⊎ (InWindow task s × (Sound s (fds s) → Sound s (fds' s)))

pub Changes-self : (task : ℤ) (fds : Fds) → Changes task fds fds
Changes-self task fds s = inl refl

pub Changes-trans :
    (task : ℤ) (a b c : Fds) → Changes task a b → Changes task b c → Changes task a c
Changes-trans task a b c h k s = elim (h s) [
  | inl e ↦ elim (k s) [
    | inl q ↦ inl (q ∙ e)
    | inr (w, keeps) ↦ inr (w, λ sound. keeps (subst (Sound s) (sym e) sound))
  ]
  | inr (w, keeps) ↦ elim (k s) [
    | inl q ↦ inr (w, λ sound. subst (Sound s) (sym q) (keeps sound))
    | inr (_, keeps') ↦ inr (w, λ sound. keeps' (keeps sound))
  ]
]

pub Changes-update :
    (task : ℤ) (fds : Fds) (s : ℕ) (v : VfsFile)
    → InWindow task s
    → (Sound s (fds s) → Sound s v)
    → Changes task fds (update fds s v)
Changes-update task fds s v w keeps j = elim (Bool-cases (s == j)) [
  | inr e ↦ inl (update_ne fds s v (==→ne _ _ e))
  | inl e ↦
      let same = ==→eq s j e in
      inr (
        subst (λ x. InWindow task x × (Sound x (fds x) → Sound x (update fds s v x))) same
          (w, λ sound. subst (Sound s) (sym (update_self fds s v)) (keeps sound)))
]

-- A new position keeps a file sound.
pub set_pos-Sound : (s : ℕ) (f : VfsFile) (p : ℕ) → p < 2 ^ 32 → Sound s f → Sound s (set_pos f p)
set_pos-Sound s f p h sound open' =
    let (v, w) = sound open' in (record { size_le = v.size_le; cap_lt = v.cap_lt; pos_lt = h }, w)

pub at_end_if_append-Sound : (s : ℕ) (f : VfsFile) → Sound s f → Sound s (at_end_if_append f)
at_end_if_append-Sound s f sound open' =
    let v = (sound open').0 in
    set_pos-Sound s f (if flag_set f.flags o_append then f.size else f.pos)
      (ground (arith, v.size_le, v.cap_lt, v.pos_lt)) sound open'

-- A write into the room that `ensure_cap` made keeps a file sound.
pub written-Sound :
    (m : Allocator) (s : ℕ) (f g : VfsFile) (src : ℕ → ℕ) (count : ℕ)
    → Room m f (f.pos + count) (some g)
    → Sound s f
    → Sound s (written g src count)
unfolding Room
written-Sound m s f g src count (enough, kept, fits, _, same) sound open' =
    let (v, w) = sound (sym (ap (λ (x : VfsFile). x.used) same) ∙ open') in
    let at_p : g.pos ≡ f.pos = ap (λ (x : VfsFile). x.pos) same in
    let sized : g.size ≡ f.size = ap (λ (x : VfsFile). x.size) same in
    (
      record { size_le = ground (arith, v.size_le); cap_lt = fits; pos_lt = omega arith },
      subst (λ o. InWindow (pos o) s) (sym (ap (λ (x : VfsFile). x.owner) same)) w,
    )
