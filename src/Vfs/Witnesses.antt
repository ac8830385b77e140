-- ===== src/Vfs/Witnesses.antt =====
-- The file descriptor layer at concrete inputs.
use aetheroz.Prelude.{
  ℕ, ◌+◌, ◌^◌, ◌<◌, ◌≡◌, refl, Bool, true, false, some, List, [], ◌∷◌, arith, update,
}
use aetheroz.Prelude.Int.{pos}
use aetheroz.Vfs.{
  Kfs, Allocator, VfsFile, Fds, grown, too_big, to_int, double_cap, grow_fuel, ensure_cap, resolve,
  slot_of, bytes_from, vfs_init, vfs_open, open_path, open_loaded, claim_fd, free_fd, vfs_read,
  vfs_write, vfs_lseek, read_slot, read_count,
}
use aetheroz.Vfs.Grow.{Grows, Room, double_cap_lem, ensure_cap_lem}
use aetheroz.Vfs.Transfer.{vfs_read-vfs_write}
use aetheroz.Vfs.Changes.{IsFile, InWindow}
use aetheroz.Vfs.Steps.{Step, opens, start, next, Step-other_task, Run-Sound}

-- A disk that is the name of its one file, of two bytes.
abbrev one_file : Kfs
one_file = record {
  Disk = Bool;
  kfs_exists = λ disk name. disk;
  kfs_get_file_size = λ disk name. 2;
  kfs_read_to_buffer = λ disk name buf cap. some (update (update buf 0 65) 1 66);
  kfs_delete_file = λ disk name. false;
  kfs_create_file = λ disk name buf size. true;
}

abbrev heap : Allocator
heap = record { grants = λ size. true; contents = λ i. 0xCC }

abbrev blank : VfsFile
blank = record {
  used = true;
  owner = 0;
  path = [];
  buf = λ i. 0;
  size = 0;
  cap = 0;
  pos = 0;
  flags = 0;
  dirty = false;
}

abbrev pool : Fds
pool = vfs_init (λ s. blank)

-- Task 2 has its file open for reading and writing, at the position 0 of 2 bytes.
abbrev file_name : List ℕ
file_name = 97 ∷ []

abbrev opened : Fds
opened = (vfs_open one_file heap true pool (pos 2) file_name 2).1

opened_fd : (vfs_open one_file heap true pool (pos 2) file_name 2).0 ≡ pos 0
unfolding vfs_open open_path open_loaded claim_fd free_fd vfs_init
opened_fd = refl

first_read : (vfs_read opened (pos 2) (pos 0) true 8).1 ≡ 65 ∷ 66 ∷ []
unfolding vfs_open open_path open_loaded claim_fd free_fd vfs_init vfs_read read_slot read_count
    bytes_from resolve slot_of
first_read = refl

double_cap_lem_example : Grows 64 1000 (double_cap grow_fuel 64 1000)
double_cap_lem_example = double_cap_lem 64 1000 (omega arith) (omega arith)

doubled : double_cap grow_fuel 64 1000 ≡ grown 1024
unfolding double_cap
doubled = refl

overflowed : double_cap grow_fuel 64 (2 ^ 31 + 1) ≡ too_big
unfolding double_cap
overflowed = refl

ensure_cap_lem_example : Room heap blank 1000 (ensure_cap heap blank 1000)
ensure_cap_lem_example = ensure_cap_lem heap blank 1000 (omega arith)

abbrev letters : ℕ → ℕ
letters i = 97 + i

opened_slot : resolve opened (pos 2) (pos 0) ≡ some 32
unfolding vfs_open open_path open_loaded claim_fd free_fd vfs_init resolve slot_of
opened_slot = refl

opened_cap : (opened 32).cap < 2 ^ 32
unfolding vfs_open open_path open_loaded claim_fd free_fd vfs_init
opened_cap = omega arith

abbrev WroteAndRead : Type 0
WroteAndRead =
    let wrote = vfs_write heap opened (pos 2) (pos 0) (some letters) 100 in
    let sought = vfs_lseek wrote.1 (pos 2) (pos 0) (pos (opened 32).pos) 0 in
    let got = vfs_read sought.1 (pos 2) (pos 0) true 100 in
    (wrote.0 ≡ to_int 100) × (got.0 ≡ to_int 100) × (got.1 ≡ bytes_from letters 0 100)

vfs_read-vfs_write_example : WroteAndRead
unfolding vfs_open open_path open_loaded claim_fd free_fd vfs_init
vfs_read-vfs_write_example =
    vfs_read-vfs_write heap opened (pos 2) (pos 0) 32 letters 100 opened_slot opened_cap refl refl
      refl (omega arith) (λ c. refl)

opening : Step one_file (pos 2) pool opened
opening = opens heap true file_name 2 pool

in_window : InWindow (pos 3) 50
unfolding InWindow
in_window = (omega arith, omega arith, omega arith)

Step-other_task_example : opened 50 ≡ pool 50
Step-other_task_example =
    Step-other_task one_file (pos 2) pool opened 3 50 opening in_window (λ e. ground arith)

opened_used : (opened 32).used ≡ true
unfolding vfs_open open_path open_loaded claim_fd free_fd vfs_init
opened_used = refl

Run-Sound_example : IsFile (opened 32) × InWindow (pos (opened 32).owner) 32
Run-Sound_example =
    Run-Sound one_file (λ s. blank) opened 32 (next (pos 2) pool pool opened (start pool) opening)
      (omega arith) opened_used
