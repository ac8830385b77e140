-- ===== src/Vfs/Calls.antt =====
-- The calls on an open file change no slot but that of the descriptor.
use aetheroz.Prelude.{
  ℕ, zero, suc, ◌+◌, ◌-◌, ◌*◌, ◌^◌, ◌≤◌, ◌<◌, ◌≡◌, refl, sym, subst, inl, inr, Bool, true, false,
  Option, none, some, arith, ltb, leb, if◌then◌else◌, Bool-cases, Option-cases, update, update_self,
}
use aetheroz.Prelude.Int.{ℤ, pos, negsuc, ◌+ℤ◌}
use aetheroz.Sched.{max_tasks}
use aetheroz.Vfs.{
  Kfs, Allocator, VfsFile, Fds, max_fds, flag_set, o_wronly, slot_of, resolve, read_slot, vfs_read,
  ensure_cap, at_end_if_append, write_file, write_slot, vfs_write, seek_base, seek_to, seek_slot,
  vfs_lseek, release_slot, close_slot, vfs_close, release_slots, vfs_close_all,
}
use aetheroz.Vfs.Grow.{Room, ensure_cap_lem}
use aetheroz.Vfs.Slots.{resolve-IsOpen, slot_of-window}
use aetheroz.Vfs.Changes.{
  InWindow, Sound, Changes, Changes-self, Changes-trans, Changes-update, set_pos-Sound,
  at_end_if_append-Sound, written-Sound,
}

resolve-InWindow :
    (fds : Fds) (task fd : ℤ) (s : ℕ) → resolve fds task fd ≡ some s → InWindow task s
unfolding InWindow slot_of
resolve-InWindow fds (pos t) fd s found =
    slot_of-window t fd s (resolve-IsOpen fds (pos t) fd s found).at_slot
resolve-InWindow fds (negsuc t) fd s found =
    let e = (resolve-IsOpen fds (negsuc t) fd s found).at_slot in ground arith

-- A step on a found slot: the pool is as it was where no slot is found.
at_found :
    (task fd : ℤ) (fds : Fds) (step : Option ℕ → Fds)
    → step none ≡ fds
    → ((s : ℕ) → InWindow task s → (fds s).used ≡ true → Changes task fds (step (some s)))
    → Changes task fds (step (resolve fds task fd))
at_found task fd fds step idle changes = elim (Option-cases (resolve fds task fd)) [
  | inl e ↦
      subst (λ o. Changes task fds (step o)) (sym e)
        (subst (Changes task fds) (sym idle) (Changes-self task fds))
  | inr (s, e) ↦
      subst (λ o. Changes task fds (step o)) (sym e)
        (changes s (resolve-InWindow fds task fd s e) (resolve-IsOpen fds task fd s e).is_used)
]

pub vfs_read-Changes :
    (fds : Fds) (task fd : ℤ) (buf : Bool) (count : ℕ)
    → Changes task fds (vfs_read fds task fd buf count).2
unfolding vfs_read read_slot
vfs_read-Changes fds task fd false count = Changes-self task fds
vfs_read-Changes fds task fd true count =
    at_found task fd fds (λ o. (read_slot fds count o).2) refl
      (λ s w _. elim (Bool-cases (flag_set (fds s).flags o_wronly)) [
        | inl bad ↦ rw bad (Changes-self task fds)
        | inr readable ↦
            rw readable (Changes-update task fds s _ w (set_pos-Sound s (fds s) _ (omega arith)))
      ])

seek_to-Changes :
    (task : ℤ) (fds : Fds) (s : ℕ) (np : ℤ)
    → InWindow task s
    → Changes task fds (seek_to fds s np).1
unfolding seek_to
seek_to-Changes task fds s (negsuc n) w = Changes-self task fds
seek_to-Changes task fds s (pos n) w = elim (Bool-cases (ltb (2 ^ 32 - 1) n)) [
  | inl far ↦ rw far (Changes-self task fds)
  | inr near ↦ rw near (Changes-update task fds s _ w (set_pos-Sound s (fds s) n (ground arith)))
]

pub vfs_lseek-Changes :
    (fds : Fds) (task fd offset : ℤ) (whence : ℕ)
    → Changes task fds (vfs_lseek fds task fd offset whence).1
unfolding vfs_lseek seek_slot
vfs_lseek-Changes fds task fd offset whence =
    at_found task fd fds (λ o. (seek_slot fds offset whence o).1) refl
      (λ s w _. seek_to-Changes task fds s (pos (seek_base (fds s) whence) +ℤ offset) w)

write_file-Changes :
    (task : ℤ) (m : Allocator) (fds : Fds) (s : ℕ) (src : ℕ → ℕ) (count : ℕ) (o : Option VfsFile)
    → InWindow task s
    → (Sound s (fds s) → Room m (fds s) ((fds s).pos + count) o)
    → Changes task fds (write_file fds s src count o).1
unfolding write_file
write_file-Changes task m fds s src count none w room = Changes-self task fds
write_file-Changes task m fds s src count (some g) w room =
    Changes-update task fds s _ w
      (λ sound. written-Sound m s (fds s) g src count (room sound) sound)

write_slot-Changes :
    (task : ℤ) (m : Allocator) (fds : Fds) (src : ℕ → ℕ) (count s : ℕ)
    → InWindow task s
    → (fds s).used ≡ true
    → Changes task fds (write_slot m fds src count (some s)).1
unfolding write_slot
write_slot-Changes task m fds src count s w open' = elim (Bool-cases (flag_set (fds s).flags 0x3)) [
  | inr bad ↦ rw bad (Changes-self task fds)
  | inl writable ↦
      let f = at_end_if_append (fds s) in
      let fds1 = update fds s f in
      let o = ensure_cap m f (f.pos + count) in
      let self : fds1 s ≡ f = update_self fds s f in
      rw writable (
        Changes-trans task fds fds1 _
          (Changes-update task fds s f w (at_end_if_append-Sound s (fds s)))
          (write_file-Changes task m fds1 s src count o w (λ sound.
            let v = (subst (Sound s) self sound open').0 in
            subst (λ x. Room m x (x.pos + count) o) (sym self)
              (ensure_cap_lem m f (f.pos + count) v.cap_lt))))
]

pub vfs_write-Changes :
    (m : Allocator) (fds : Fds) (task fd : ℤ) (buf : Option (ℕ → ℕ)) (count : ℕ)
    → Changes task fds (vfs_write m fds task fd buf count).1
unfolding vfs_write write_slot
vfs_write-Changes m fds task fd none count = Changes-self task fds
vfs_write-Changes m fds task fd (some src) count =
    at_found task fd fds (λ o. (write_slot m fds src count o).1) refl
      (λ s w open'. write_slot-Changes task m fds src count s w open')

release_slot-Changes :
    (k : Kfs) (disk : k.Disk) (task : ℤ) (fds : Fds) (s : ℕ)
    → InWindow task s
    → Changes task fds (release_slot k disk fds s).1
unfolding release_slot
release_slot-Changes k disk task fds s w = Changes-update task fds s _ w (λ _ open'. ground arith)

pub vfs_close-Changes :
    (k : Kfs) (disk : k.Disk) (fds : Fds) (task fd : ℤ)
    → Changes task fds (vfs_close k disk fds task fd).2
unfolding vfs_close close_slot
vfs_close-Changes k disk fds task fd =
    at_found task fd fds (λ o. (close_slot k disk fds o).2) refl
      (λ s w _. release_slot-Changes k disk task fds s w)

release_slots-Changes :
    (k : Kfs) (n : ℕ) (disk : k.Disk) (t : ℕ) (fds : Fds) (s : ℕ)
    → t < max_tasks
    → t * max_fds ≤ s
    → s + n ≤ t * max_fds + max_fds
    → Changes (pos t) fds (release_slots k disk fds s n).1
unfolding release_slots InWindow
release_slots-Changes k zero disk t fds s ht lo hi = Changes-self (pos t) fds
release_slots-Changes k (suc n) disk t fds s ht lo hi =
    let Next : Bool → k.Disk × Fds = λ b. if b then release_slot k disk fds s else (disk, fds) in
    let Result : Bool → Type 0 =
      λ b. Changes (pos t) fds (release_slots k (Next b).0 (Next b).1 (suc s) n).1 in
    elim (Bool-cases (fds s).used) [
      | inr shut ↦
          subst Result (sym shut)
            (release_slots-Changes k n disk t fds (suc s) ht (omega arith) (omega arith))
      | inl open' ↦
          let next = release_slot k disk fds s in
          subst Result (sym open') (
            Changes-trans (pos t) fds next.1 _
              (release_slot-Changes k disk (pos t) fds s (ht, lo, omega arith))
              (release_slots-Changes k n next.0 t next.1 (suc s) ht (omega arith) (omega arith)))
    ]

pub vfs_close_all-Changes :
    (k : Kfs) (disk : k.Disk) (fds : Fds) (task : ℤ)
    → Changes task fds (vfs_close_all k disk fds task).1
unfolding vfs_close_all
vfs_close_all-Changes k disk fds (negsuc t) = Changes-self (negsuc t) fds
vfs_close_all-Changes k disk fds (pos t) = elim (Bool-cases (leb max_tasks t)) [
  | inl bad ↦ rw bad (Changes-self (pos t) fds)
  | inr valid ↦ rw valid (
      release_slots-Changes k max_fds disk t fds (t * max_fds) (ground arith) (omega arith)
        (omega arith))
]
