-- ===== src/Vfs.antt =====
-- kernel/vfs_fd.c and include/vfs.h: the file descriptors of the tasks over the file system. The pool
-- of open files is a function of the slot, a path the list of its bytes before the terminator, and a
-- buffer a function of the index. The calls of the file system and of the heap are two interfaces. Each
-- function holds `vfs_lock` for its whole work on the pool and is one step here.
pub mod Grow
pub mod Slots
pub mod Transfer
pub mod Changes
pub mod Calls
pub mod Opens
pub mod Steps
mod Witnesses
use aetheroz.Prelude.{
  ℕ, zero, suc, ◌+◌, ◌-◌, ◌*◌, ◌%◌, ◌^◌, Bool, true, false, ◌&&◌, ◌||◌, not, Option, none, some,
  List, [], ◌∷◌, ltb, leb, ◌==◌, if◌then◌else◌, update, take, bit_and,
}
use aetheroz.Prelude.Int.{ℤ, pos, negsuc, pos_part, neg_part, ◌+ℤ◌, ltb_ℤ}
use aetheroz.Sched.{max_tasks}

-- The file system as this layer sees it. A read gives the buffer's new contents, or fails.
pub record Kfs : Type 1 where
  pub Disk : Type 0
  pub kfs_exists : Disk → List ℕ → Bool
  pub kfs_get_file_size : Disk → List ℕ → ℕ
  pub kfs_read_to_buffer : Disk → List ℕ → (ℕ → ℕ) → ℕ → Option (ℕ → ℕ)
  pub kfs_delete_file : Disk → List ℕ → Disk
  pub kfs_create_file : Disk → List ℕ → (ℕ → ℕ) → ℕ → Disk

-- The heap as one call sees it: whether a request of a size is granted, and what lies in the bytes of
-- a new block.
pub record Allocator : Type 0 where
  pub grants : ℕ → Bool
  pub contents : ℕ → ℕ

-- VFS_MAX_FDS and VFS_MAX_PATH.
abbrev pub max_fds : ℕ
max_fds = 16

abbrev pub max_path : ℕ
max_path = 23

-- `flags & mask` as a condition.
abbrev pub flag_set : ℕ → ℕ → Bool
flag_set flags mask = not (bit_and flags mask == 0)

abbrev pub o_wronly : ℕ
o_wronly = 0x1

abbrev pub o_rdwr : ℕ
o_rdwr = 0x2

abbrev pub o_creat : ℕ
o_creat = 0x4

abbrev pub o_trunc : ℕ
o_trunc = 0x8

abbrev pub o_append : ℕ
o_append = 0x10

pub record VfsFile : Type 0 where
  pub used : Bool
  pub owner : ℕ
  pub path : List ℕ
  pub buf : ℕ → ℕ
  pub size : ℕ
  pub cap : ℕ
  pub pos : ℕ
  pub flags : ℕ
  pub dirty : Bool

-- The pool `fds`.
abbrev pub Fds : Type 0
Fds = ℕ → VfsFile

-- The result -1.
abbrev pub failed : ℤ
failed = negsuc 0

-- `(int)n` of a `uint32_t`.
abbrev pub to_int : ℕ → ℤ
to_int n = if ltb n (2 ^ 31) then pos n else negsuc (2 ^ 32 - 1 - n)

unfoldable pub vfs_init : Fds → Fds
vfs_init fds s = if ltb s (max_tasks * max_fds) then record (fds s) { used = false } else fds s

abbrev pub path_copy : List ℕ → List ℕ
path_copy src = take (max_path - 1) src

unfoldable pub slot_of : ℤ → ℤ → Option ℕ
slot_of (negsuc t) fd = none
slot_of (pos t) (negsuc fd) = none
slot_of (pos t) (pos fd) =
    if leb max_tasks t || leb max_fds fd then none else some (t * max_fds + fd)

-- The slot, where the file in it is open and belongs to the task.
abbrev pub owned_slot : Fds → ℤ → Option ℕ → Option ℕ
owned_slot fds task none = none
owned_slot fds task (some s) =
    if not (fds s).used || not ((fds s).owner + neg_part task == pos_part task)
    then none
    else some s

unfoldable pub resolve : Fds → ℤ → ℤ → Option ℕ
resolve fds task fd = owned_slot fds task (slot_of task fd)

-- The first unused one of `n` slots from `base + i`, as a descriptor.
unfoldable pub free_fd : Fds → ℕ → ℕ → ℕ → Option ℕ
free_fd fds base i zero = none
free_fd fds base i (suc n) =
    let rest = free_fd fds base (suc i) n in if not (fds (base + i)).used then some i else rest

-- The file that `vfs_open` puts in the slot.
abbrev pub opened_file : ℕ → List ℕ → ℕ → Bool → ℕ → (ℕ → ℕ) → ℕ → VfsFile
opened_file task path flags exists cap buf fsize = record {
  used = true;
  owner = task;
  path = path_copy path;
  buf = buf;
  size = fsize;
  cap = cap;
  pos = if flag_set flags o_append then fsize else 0;
  flags = flags;
  dirty = not exists || flag_set flags o_trunc;
}

-- The descriptor table is full, or the file goes into the free slot.
unfoldable pub claim_fd : Fds → ℕ → Option ℕ → VfsFile → ℤ × Fds
claim_fd fds task none f = (failed, fds)
claim_fd fds task (some fd) f = (pos fd, update fds (task * max_fds + fd) f)

-- `none` is a failed read of the file; the file's size is 0 where it is truncated or new.
unfoldable pub open_loaded : Fds → ℕ → List ℕ → ℕ → Bool → ℕ → ℕ → Option (ℕ → ℕ) → ℤ × Fds
open_loaded fds task path flags exists cap fsize none = (failed, fds)
open_loaded fds task path flags exists cap fsize (some buf) =
    claim_fd fds task (free_fd fds (task * max_fds) 0 max_fds)
      (opened_file task path flags exists cap buf fsize)

abbrev pub initial_cap : ℕ → ℕ
initial_cap fsize = if ltb fsize 64 then 64 else fsize

unfoldable pub open_path :
    (k : Kfs) → Allocator → k.Disk → Fds → ℕ → List ℕ → ℕ → Bool → ℕ → ℤ × Fds
open_path k m disk fds task path flags exists fsize =
    if not (m.grants (initial_cap fsize))
    then (failed, fds)
    else if exists && not (flag_set flags o_trunc) && ltb 0 fsize
    then open_loaded fds task path flags exists (initial_cap fsize) fsize
        (k.kfs_read_to_buffer disk path m.contents (initial_cap fsize))
    else open_loaded fds task path flags exists (initial_cap fsize) 0 (some m.contents)

-- The empty path stands for NULL too.
unfoldable pub vfs_open : (k : Kfs) → Allocator → k.Disk → Fds → ℤ → List ℕ → ℕ → ℤ × Fds
vfs_open k m disk fds task [] flags = (failed, fds)
vfs_open k m disk fds (negsuc t) (c ∷ path) flags = (failed, fds)
vfs_open k m disk fds (pos t) (c ∷ path) flags =
    let exists = k.kfs_exists disk (c ∷ path) in
    if leb max_tasks t || not exists && not (flag_set flags o_creat)
    then (failed, fds)
    else open_path k m disk fds t (c ∷ path) flags exists
        (if exists then k.kfs_get_file_size disk (c ∷ path) % 2 ^ 32 else 0)

-- `n` bytes from an index on.
unfoldable pub bytes_from : (ℕ → ℕ) → ℕ → ℕ → List ℕ
bytes_from buf i zero = []
bytes_from buf i (suc n) = buf (i % 2 ^ 32) ∷ bytes_from buf (i + 1) n

-- How many bytes a read transfers.
unfoldable pub read_count : VfsFile → ℕ → ℕ
read_count f count =
    let avail = if ltb f.pos f.size then f.size - f.pos else 0 in
    if ltb count avail then count else avail

abbrev pub set_pos : VfsFile → ℕ → VfsFile
set_pos f p = record f { pos = p }

unfoldable pub read_slot : Fds → ℕ → Option ℕ → ℤ × List ℕ × Fds
read_slot fds count none = (failed, [], fds)
read_slot fds count (some s) =
    let n = read_count (fds s) count in
    if flag_set (fds s).flags o_wronly then (failed, [], fds) else (
      to_int n,
      bytes_from (fds s).buf (fds s).pos n,
      update fds s (set_pos (fds s) (((fds s).pos + n) % 2 ^ 32)),
    )

-- The result and the bytes that the caller's buffer receives, which is NULL where `buf` is false.
unfoldable pub vfs_read : Fds → ℤ → ℤ → Bool → ℕ → ℤ × List ℕ × Fds
vfs_read fds task fd false count = (failed, [], fds)
vfs_read fds task fd true count = read_slot fds count (resolve fds task fd)

-- What the doubling loop comes to: a capacity, a doubling that does not fit 32 bits, no end.
pub data Growth : Type 0 where
  grown : ℕ → Growth
  too_big : Growth
  out_of_fuel : Growth

-- `while (newcap < need)`, for at most so many rounds.
unfoldable pub double_cap : ℕ → ℕ → ℕ → Growth
double_cap zero newcap need = out_of_fuel
double_cap (suc fuel) newcap need =
    let next = newcap * 2 % 2 ^ 32 in
    let rest = double_cap fuel next need in
    if ltb newcap need then if leb next newcap then too_big else rest else grown newcap

-- 32 doublings take 1 past UINT32_MAX.
abbrev pub grow_fuel : ℕ
grow_fuel = 33

-- `krealloc` keeps the bytes of the old block.
abbrev pub moved_to : Allocator → (ℕ → ℕ) → ℕ → ℕ → ℕ
moved_to m buf cap i = if ltb i cap then buf i else m.contents i

unfoldable pub regrown : Allocator → VfsFile → Growth → Option VfsFile
regrown m f out_of_fuel = none
regrown m f too_big = none
regrown m f (grown newcap) =
    if not (m.grants newcap)
    then none
    else some (record f { buf = moved_to m f.buf f.cap; cap = newcap })

-- `none` is the result -1, which leaves the file as it is.
unfoldable pub ensure_cap : Allocator → VfsFile → ℕ → Option VfsFile
ensure_cap m f need =
    if leb need f.cap
    then some f
    else if ltb (2 ^ 32 - 1) need
    then none
    else regrown m f (double_cap grow_fuel (if f.cap == 0 then 64 else f.cap) need)

-- `for (i = 0; i < count; i++) vf->buf[vf->pos + i] = buf[i]`
unfoldable pub store_bytes : (ℕ → ℕ) → ℕ → (ℕ → ℕ) → ℕ → ℕ → ℕ
store_bytes buf p src zero = buf
store_bytes buf p src (suc n) = update (store_bytes buf p src n) ((p + n) % 2 ^ 32) (src n)

abbrev pub written : VfsFile → (ℕ → ℕ) → ℕ → VfsFile
written f src count =
    let p = (f.pos + count) % 2 ^ 32 in
    record f {
      buf = store_bytes f.buf f.pos src count;
      pos = p;
      size = if ltb f.size p then p else f.size;
      dirty = true;
    }

-- The bytes go into the file with the room that `ensure_cap` made, if it did.
unfoldable pub write_file : Fds → ℕ → (ℕ → ℕ) → ℕ → Option VfsFile → ℤ × Fds
write_file fds s src count none = (failed, fds)
write_file fds s src count (some f) = (to_int count, update fds s (written f src count))

-- `if (vf->flags & VFS_O_APPEND) vf->pos = vf->size`
abbrev pub at_end_if_append : VfsFile → VfsFile
at_end_if_append f = set_pos f (if flag_set f.flags o_append then f.size else f.pos)

unfoldable pub write_slot : Allocator → Fds → (ℕ → ℕ) → ℕ → Option ℕ → ℤ × Fds
write_slot m fds src count none = (failed, fds)
write_slot m fds src count (some s) =
    if not (flag_set (fds s).flags 0x3)
    then (failed, fds)
    else let f = at_end_if_append (fds s) in
      write_file (update fds s f) s src count (ensure_cap m f (f.pos + count))

-- The caller's buffer is `none` for NULL.
unfoldable pub vfs_write : Allocator → Fds → ℤ → ℤ → Option (ℕ → ℕ) → ℕ → ℤ × Fds
vfs_write m fds task fd none count = (failed, fds)
vfs_write m fds task fd (some src) count = write_slot m fds src count (resolve fds task fd)

-- VFS_SEEK_CUR is 1 and VFS_SEEK_END is 2; any other value, like a negative one,
-- counts from the beginning.
abbrev pub seek_base : VfsFile → ℕ → ℕ
seek_base f whence = if whence == 1 then f.pos else if whence == 2 then f.size else 0

unfoldable pub seek_to : Fds → ℕ → ℤ → ℤ × Fds
seek_to fds s (negsuc np) = (failed, fds)
seek_to fds s (pos np) =
    if ltb (2 ^ 32 - 1) np then (failed, fds) else (to_int np, update fds s (set_pos (fds s) np))

unfoldable pub seek_slot : Fds → ℤ → ℕ → Option ℕ → ℤ × Fds
seek_slot fds offset whence none = (failed, fds)
seek_slot fds offset whence (some s) = seek_to fds s (pos (seek_base (fds s) whence) +ℤ offset)

unfoldable pub vfs_lseek : Fds → ℤ → ℤ → ℤ → ℕ → ℤ × Fds
vfs_lseek fds task fd offset whence = seek_slot fds offset whence (resolve fds task fd)

-- The disk after the flush of a file; the flush clears `dirty`.
unfoldable pub flush_locked : (k : Kfs) → k.Disk → VfsFile → k.Disk × VfsFile
flush_locked k disk f =
    let cleared = if k.kfs_exists disk f.path then k.kfs_delete_file disk f.path else disk in
    if f.dirty
    then (k.kfs_create_file cleared f.path f.buf f.size, record f { dirty = false })
    else (disk, f)

-- The flush, and the release of the slot.
unfoldable pub release_slot : (k : Kfs) → k.Disk → Fds → ℕ → k.Disk × Fds
release_slot k disk fds s =
    let flushed = flush_locked k disk (fds s) in
    (flushed.0, update fds s (record flushed.1 { used = false }))

unfoldable pub close_slot : (k : Kfs) → k.Disk → Fds → Option ℕ → ℤ × k.Disk × Fds
close_slot k disk fds none = (failed, disk, fds)
close_slot k disk fds (some s) =
    let released = release_slot k disk fds s in (pos 0, released.0, released.1)

unfoldable pub vfs_close : (k : Kfs) → k.Disk → Fds → ℤ → ℤ → ℤ × k.Disk × Fds
vfs_close k disk fds task fd = close_slot k disk fds (resolve fds task fd)

-- The slots `s` up to `s + n`, the used ones of which are released.
unfoldable pub release_slots : (k : Kfs) → k.Disk → Fds → ℕ → ℕ → k.Disk × Fds
release_slots k disk fds s zero = (disk, fds)
release_slots k disk fds s (suc n) =
    let next = if (fds s).used then release_slot k disk fds s else (disk, fds) in
    release_slots k next.0 next.1 (suc s) n

unfoldable pub vfs_close_all : (k : Kfs) → k.Disk → Fds → ℤ → k.Disk × Fds
vfs_close_all k disk fds (negsuc t) = (disk, fds)
vfs_close_all k disk fds (pos t) =
    if leb max_tasks t then (disk, fds) else release_slots k disk fds (t * max_fds) max_fds
