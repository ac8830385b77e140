-- ===== src/Vfs/Opens.antt =====
-- `vfs_open` puts a file in a free slot of its task, with sizes in bounds.
use aetheroz.Prelude.{
  ℕ, zero, suc, ◌+◌, ◌*◌, ◌%◌, ◌^◌, ◌≤◌, ◌<◌, ◌≡◌, refl, sym, subst, inl, inr, Bool, false, not,
  ◌&&◌, ◌||◌, Option, none, some, List, [], ◌∷◌, arith, ltb, leb, if◌then◌else◌, Bool-cases,
  Option-cases,
}
use aetheroz.Prelude.Int.{ℤ, pos, negsuc}
use aetheroz.Sched.{max_tasks}
use aetheroz.Vfs.{
  Kfs, Allocator, VfsFile, Fds, max_fds, flag_set, o_creat, o_trunc, free_fd, opened_file, claim_fd,
  open_loaded, initial_cap, open_path, vfs_open,
}
use aetheroz.Vfs.Changes.{IsFile, InWindow, Changes, Changes-self, Changes-update}

free_fd-lt :
    (fds : Fds) (base i n fd : ℕ) → free_fd fds base i n ≡ some fd → (i ≤ fd) × (fd < i + n)
unfolding free_fd
free_fd-lt fds base i zero fd e = ground arith
free_fd-lt fds base i (suc n) fd e = elim (Bool-cases (fds (base + i)).used) [
  | inr free ↦ let q : some i ≡ some fd = rw free at e in ground arith
  | inl taken ↦
      let q : free_fd fds base (suc i) n ≡ some fd = rw taken at e in
      let (lo, hi) = free_fd-lt fds base (suc i) n fd q in (omega arith, omega arith)
]

claim_fd-Changes :
    (fds : Fds) (t : ℕ) (f : VfsFile)
    → t < max_tasks
    → f.owner ≡ t
    → IsFile f
    → Changes (pos t) fds (claim_fd fds t (free_fd fds (t * max_fds) 0 max_fds) f).1
unfolding claim_fd InWindow
claim_fd-Changes fds t f ht owns v = elim (Option-cases (free_fd fds (t * max_fds) 0 max_fds)) [
  | inl e ↦ rw e (Changes-self (pos t) fds)
  | inr (fd, e) ↦
      let (_, hi) = free_fd-lt fds (t * max_fds) 0 max_fds fd e in
      let window : InWindow (pos t) (t * max_fds + fd) = (ht, omega arith, omega arith) in
      rw e (
        Changes-update (pos t) fds (t * max_fds + fd) f window
          (λ _ _. (v, subst (λ o. InWindow (pos o) (t * max_fds + fd)) (sym owns) window)))
]

opened-IsFile :
    (t : ℕ) (path : List ℕ) (flags : ℕ) (exists : Bool) (cap : ℕ) (buf : ℕ → ℕ) (fsize : ℕ)
    → fsize ≤ cap
    → cap < 2 ^ 32
    → IsFile (opened_file t path flags exists cap buf fsize)
opened-IsFile t path flags exists cap buf fsize le lt = record {
  size_le = le;
  cap_lt = lt;
  pos_lt = ground arith;
}

open_loaded-Changes :
    (fds : Fds) (t : ℕ) (path : List ℕ) (flags : ℕ) (exists : Bool) (cap fsize : ℕ)
    (o : Option (ℕ → ℕ))
    → t < max_tasks
    → fsize ≤ cap
    → cap < 2 ^ 32
    → Changes (pos t) fds (open_loaded fds t path flags exists cap fsize o).1
unfolding open_loaded
open_loaded-Changes fds t path flags exists cap fsize none ht le lt = Changes-self (pos t) fds
open_loaded-Changes fds t path flags exists cap fsize (some buf) ht le lt =
    claim_fd-Changes fds t _ ht refl (opened-IsFile t path flags exists cap buf fsize le lt)

open_path-Changes :
    (k : Kfs) (m : Allocator) (disk : k.Disk) (fds : Fds) (t : ℕ) (path : List ℕ) (flags : ℕ)
    (exists : Bool) (fsize : ℕ)
    → t < max_tasks
    → fsize < 2 ^ 32
    → Changes (pos t) fds (open_path k m disk fds t path flags exists fsize).1
unfolding open_path
open_path-Changes k m disk fds t path flags exists fsize ht hs =
    elim (Bool-cases (m.grants (initial_cap fsize))) [
      | inr refused ↦ rw refused (Changes-self (pos t) fds)
      | inl granted ↦ elim (Bool-cases (exists && not (flag_set flags o_trunc) && ltb 0 fsize)) [
        | inl loads ↦
            rw (granted, loads)
              (open_loaded-Changes fds t path flags exists _ fsize _ ht (ground arith)
                (ground arith))
        | inr fresh ↦
            rw (granted, fresh)
              (open_loaded-Changes fds t path flags exists _ 0 _ ht (omega arith) (ground arith))
      ]
    ]

open_test : (t : ℕ) (b : Bool) → (leb max_tasks t || b) ≡ false → t < max_tasks
open_test t b h = ground arith

size_lt : (b : Bool) (x : ℕ) → (if b then x % 2 ^ 32 else 0) < 2 ^ 32
size_lt b x = ground arith

pub vfs_open-Changes :
    (k : Kfs) (m : Allocator) (disk : k.Disk) (fds : Fds) (task : ℤ) (path : List ℕ) (flags : ℕ)
    → Changes task fds (vfs_open k m disk fds task path flags).1
unfolding vfs_open
vfs_open-Changes k m disk fds task [] flags = Changes-self task fds
vfs_open-Changes k m disk fds (negsuc t) (c ∷ path) flags = Changes-self (negsuc t) fds
vfs_open-Changes k m disk fds (pos t) (c ∷ path) flags =
    let exists = k.kfs_exists disk (c ∷ path) in
    let fsize = if exists then k.kfs_get_file_size disk (c ∷ path) % 2 ^ 32 else 0 in
    elim (Bool-cases (leb max_tasks t || not exists && not (flag_set flags o_creat))) [
      | inl bad ↦ rw bad (Changes-self (pos t) fds)
      | inr valid ↦ rw valid (
          open_path-Changes k m disk fds t (c ∷ path) flags exists fsize (open_test t _ valid)
            (size_lt exists _))
    ]
