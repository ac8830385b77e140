-- ===== src/KyuzenFs.antt =====
-- kernel/kyuzenfs.c and include/kyuzenfs.h: the state of the file system, its table of sectors, format
-- and start. A sector is a function from its 512 offsets to bytes. The reads and writes of whole sectors
-- are those of drivers/ata.c. Each public function holds `fs_lock` from its first access to its last and
-- is one function here. The messages on the terminal are left out, and so is kmalloc, whose buffers the
-- code takes without a test.
pub mod Directory
pub mod Paths
pub mod Files
pub mod Folders
pub mod Alloc
pub mod Data
pub mod Transfer
pub mod Reading
pub mod Entries
pub mod Insert
pub mod Kept
pub mod Create
pub mod Root
pub mod Sync
pub mod Mounted
pub mod Persist
pub mod Format
pub mod Restart
pub mod Descriptors
mod Witnesses
use aetheroz.Prelude.{
  ℕ, zero, suc, ◌+◌, ◌-◌, ◌*◌, ◌/◌, ◌%◌, ◌^◌, Bool, true, false, ◌&&◌, ◌||◌, not, ltb, leb, ◌==◌,
  if◌then◌else◌, update,
}

abbrev pub Sector : Type 0
Sector = ℕ → ℕ

abbrev pub fat_free : ℕ
fat_free = 0

abbrev pub fat_eof : ℕ
fat_eof = 0xFFFFFFFF

-- The disk, `fat_table`, the two counts of sectors, and the fields of `current_fs`.
pub record Fs : Type 0 where
  pub disk : ℕ → Sector
  pub fat : ℕ → ℕ
  pub total_sectors : ℕ
  pub fat_sectors : ℕ
  pub magic : ℕ → ℕ
  pub root : ℕ
  pub total_files : ℕ
  pub padding : ℕ → ℕ

-- The byte `k` of a word in memory, and the word at an offset.
abbrev pub byte_of : ℕ → ℕ → ℕ
byte_of x k =
    if k == 0
    then x % 256
    else if k == 1
    then x / 256 % 256
    else if k == 2
    then x / 65536 % 256
    else x / 16777216 % 256

abbrev pub word_at : Sector → ℕ → ℕ
word_at b i = b i + 256 * b (i + 1) + 65536 * b (i + 2) + 16777216 * b (i + 3)

abbrev pub blank : Sector
blank j = 0

abbrev pub write_sector : Fs → ℕ → Sector → Fs
write_sector fs s b = record fs { disk = update fs.disk s b }

abbrev pub set_fat : Fs → ℕ → ℕ → Fs
set_fat fs s v = record fs { fat = update fs.fat s v }

-- The 128 entries of the table that one sector holds.
unfoldable pub fat_bytes : (ℕ → ℕ) → ℕ → Sector
fat_bytes fat n j = byte_of (fat (n * 128 + j / 4)) (j % 4)

unfoldable pub kfs_sync_fat : Fs → ℕ → Fs
kfs_sync_fat fs i =
    if leb fs.total_sectors i
    then fs
    else write_sector fs (1 + i / 128) (fat_bytes fs.fat (i / 128))

-- The first free one of `n` sectors from `i` on, or 0.
unfoldable pub free_from : (ℕ → ℕ) → ℕ → ℕ → ℕ
free_from fat i zero = 0
free_from fat i (suc n) =
    let rest = free_from fat (suc i) n in if fat i == fat_free then i else rest

unfoldable pub find_free_sector : Fs → ℕ
find_free_sector fs = free_from fs.fat (fs.root + 1) (fs.total_sectors - (fs.root + 1))

-- Sector 0, a copy of `current_fs`.
unfoldable pub header_bytes : Fs → Sector
header_bytes fs j =
    if ltb j 4
    then fs.magic j
    else if ltb j 8
    then byte_of fs.root (j - 4)
    else if ltb j 12
    then byte_of fs.total_files (j - 8)
    else fs.padding (j - 12)

abbrev pub write_header : Fs → Fs
write_header fs = write_sector fs 0 (header_bytes fs)

-- What the disk tells, or 100 MiB.
abbrev pub disk_sectors : ℕ → ℕ
disk_sectors reported = if reported == 0 then 204800 else reported

-- The sectors of the table, in 32-bit arithmetic.
abbrev pub table_sectors : ℕ → ℕ
table_sectors total = (total * 4 % 2 ^ 32 + 511) % 2 ^ 32 / 512

-- "KZFS"
abbrev pub kzfs : ℕ → ℕ
kzfs k = if k == 0 then 75 else if k == 1 then 90 else if k == 2 then 70 else 83

-- The table after the loops of the format: the header, the table and the root directory are taken.
abbrev pub fresh_fat : (ℕ → ℕ) → ℕ → ℕ → ℕ → ℕ
fresh_fat old total sectors i =
    if i == 1 + sectors || leb i sectors then fat_eof else if ltb i total then fat_free else old i

-- `for (i = 0; i < fat_sectors_needed; i++) ata_write_sector(1 + i, fat_bytes + i * 512)`
unfoldable pub flush_fat : Fs → ℕ → ℕ → Fs
flush_fat fs i zero = fs
flush_fat fs i (suc n) = flush_fat (write_sector fs (1 + i) (fat_bytes fs.fat i)) (suc i) n

-- `reported` is the result of `ata_get_total_sectors`.
unfoldable pub kfs_format : Fs → ℕ → Fs
kfs_format fs reported =
    let total = disk_sectors reported in
    let sectors = table_sectors total in
    let fresh = record fs {
      fat = fresh_fat fs.fat total sectors;
      total_sectors = total;
      fat_sectors = sectors;
      magic = kzfs;
      root = (1 + sectors) % 2 ^ 32;
      total_files = 0;
    } in
    write_sector (flush_fat (write_header fresh) 0 sectors) (1 + sectors) blank

-- The fields of `current_fs` from sector 0.
abbrev pub read_header : Fs → Fs
read_header fs = record fs {
  magic = fs.disk 0;
  root = word_at (fs.disk 0) 4;
  total_files = word_at (fs.disk 0) 8;
  padding = λ k. fs.disk 0 (k + 12);
}

-- The table from the disk, entry by entry.
abbrev pub loaded_fat : Fs → ℕ → ℕ → ℕ
loaded_fat fs sectors i =
    if ltb i (sectors * 128) then word_at (fs.disk (1 + i / 128)) (i % 128 * 4) else fs.fat i

unfoldable pub kfs_init : Fs → ℕ → Fs
kfs_init fs reported =
    let opened = read_header fs in
    let total = disk_sectors reported in
    let sectors = table_sectors total in
    if not (opened.magic 0 == 75) || not (opened.magic 1 == 90)
    then kfs_format opened reported
    else record opened {
      fat = loaded_fat opened sectors;
      total_sectors = total;
      fat_sectors = sectors;
    }

unfoldable pub count_free : (ℕ → ℕ) → ℕ → ℕ → ℕ
count_free fat i zero = 0
count_free fat i (suc n) = (if fat i == fat_free then 1 else 0) + count_free fat (suc i) n

unfoldable pub kfs_get_total_space : Fs → ℕ
kfs_get_total_space fs = fs.total_sectors * 512 % 2 ^ 32

unfoldable pub kfs_get_used_space : Fs → ℕ
kfs_get_used_space fs =
    let free_sectors = count_free fs.fat (fs.root + 1) (fs.total_sectors - (fs.root + 1)) in
    (fs.total_sectors - free_sectors) * 512 % 2 ^ 32
