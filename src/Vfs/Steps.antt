-- ===== src/Vfs/Steps.antt =====
-- The calls of all tasks as steps of the pool of open files, in any order, and what every run preserves.
use aetheroz.Prelude.{
  ℕ, ◌*◌, ◌<◌, ◌≡◌, ◌≢◌, sym, ap, subst, inl, inr, Bool, true, Option, List, arith,
}
use aetheroz.Prelude.Int.{ℤ, pos, negsuc}
use aetheroz.Sched.{max_tasks}
use aetheroz.Vfs.{
  Kfs, Allocator, Fds, max_fds, vfs_init, vfs_open, vfs_read, vfs_write, vfs_lseek, vfs_close,
  vfs_close_all,
}
use aetheroz.Vfs.Changes.{IsFile, InWindow, Sound, Changes}
use aetheroz.Vfs.Calls.{
  vfs_read-Changes, vfs_write-Changes, vfs_lseek-Changes, vfs_close-Changes, vfs_close_all-Changes,
}
use aetheroz.Vfs.Opens.{vfs_open-Changes}

-- One call of a task, with any answers of the heap and of the file system.
pub data Step (k : Kfs) (task : ℤ) : Fds → Fds → Type 0 where
  opens :
      (m : Allocator) (disk : k.Disk) (path : List ℕ) (flags : ℕ) (fds : Fds)
      → Step k task fds (vfs_open k m disk fds task path flags).1
  reads :
      (fd : ℤ) (buf : Bool) (count : ℕ) (fds : Fds)
      → Step k task fds (vfs_read fds task fd buf count).2
  writes :
      (m : Allocator) (fd : ℤ) (buf : Option (ℕ → ℕ)) (count : ℕ) (fds : Fds)
      → Step k task fds (vfs_write m fds task fd buf count).1
  seeks :
      (fd offset : ℤ) (whence : ℕ) (fds : Fds)
      → Step k task fds (vfs_lseek fds task fd offset whence).1
  closes : (disk : k.Disk) (fd : ℤ) (fds : Fds) → Step k task fds (vfs_close k disk fds task fd).2
  closes_all : (disk : k.Disk) (fds : Fds) → Step k task fds (vfs_close_all k disk fds task).1

-- Calls of any tasks, one after the other.
pub data Run (k : Kfs) : Fds → Fds → Type 0 where
  start : (fds : Fds) → Run k fds fds
  next : (task : ℤ) (a b c : Fds) → Run k a b → Step k task b c → Run k a c

Step-Changes : (k : Kfs) (task : ℤ) (a b : Fds) → Step k task a b → Changes task a b
Step-Changes k task a _ (opens m disk path flags _) = vfs_open-Changes k m disk a task path flags
Step-Changes k task a _ (reads fd buf count _) = vfs_read-Changes a task fd buf count
Step-Changes k task a _ (writes m fd buf count _) = vfs_write-Changes m a task fd buf count
Step-Changes k task a _ (seeks fd offset whence _) = vfs_lseek-Changes a task fd offset whence
Step-Changes k task a _ (closes disk fd _) = vfs_close-Changes k disk a task fd
Step-Changes k task a _ (closes_all disk _) = vfs_close_all-Changes k disk a task

one_window : (task : ℤ) (other s : ℕ) → InWindow task s → InWindow (pos other) s → task ≡ pos other
unfolding InWindow
one_window (pos t) other s (_, lo, hi) (_, lo', hi') = ap pos (omega arith)
one_window (negsuc t) other s w w' = elim w [ ]

-- A call of one task, whatever its arguments and whatever the heap and the file system answer, leaves
-- every slot of another task as it is.
pub Step-other_task :
    (k : Kfs) (task : ℤ) (a b : Fds) (other s : ℕ)
    → Step k task a b
    → InWindow (pos other) s
    → task ≢ pos other
    → b s ≡ a s
Step-other_task k task a b other s step w apart = elim (Step-Changes k task a b step s) [
  | inl same ↦ same
  | inr (w', _) ↦ absurd (apart (one_window task other s w' w))
]

Run-keeps : (k : Kfs) (a b : Fds) (s : ℕ) → Run k a b → Sound s (a s) → Sound s (b s)
Run-keeps k a _ s (start _) sound = sound
Run-keeps k a _ s (next task _ b c run step) sound = elim (Step-Changes k task b c step s) [
  | inl same ↦ subst (Sound s) (sym same) (Run-keeps k a b s run sound)
  | inr (_, keeps) ↦ keeps (Run-keeps k a b s run sound)
]

-- After the initialisation and any run of calls by any tasks: an open file's size is at most its
-- capacity, which fits 32 bits as its position does, and the file's owner is the task in whose window
-- the slot stands.
pub Run-Sound :
    (k : Kfs) (fds a : Fds) (s : ℕ)
    → Run k (vfs_init fds) a
    → s < max_tasks * max_fds
    → (a s).used ≡ true
    → IsFile (a s) × InWindow (pos (a s).owner) s
unfolding vfs_init
Run-Sound k fds a s run h = Run-keeps k (vfs_init fds) a s run (λ open'. absurd (ground arith))
