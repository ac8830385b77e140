-- ===== src/KyuzenFs/Files.antt =====
-- kernel/kyuzenfs.c: files and folders, by their paths.
use aetheroz.Prelude.{
  ℕ, zero, suc, ◌+◌, ◌-◌, ◌*◌, ◌/◌, ◌%◌, ◌^◌, Bool, true, false, ◌&&◌, ◌||◌, Option, none, some,
  List, ltb, leb, ◌==◌, if◌then◌else◌, update, length, get_or,
}
use aetheroz.KyuzenFs.{
  Sector, Fs, fat_free, fat_eof, write_sector, set_fat, kfs_sync_fat, find_free_sector,
  write_header, kfs_format,
}
use aetheroz.KyuzenFs.Directory.{
  Found, flag_empty, flag_file, flag_folder, is_end, chain_fuel, find_entry_in, insert_dir_entry,
}
use aetheroz.KyuzenFs.Paths.{split_last}

-- A free sector becomes the end of the chain of a file.
unfoldable pub take_sector : Fs → ℕ → ℕ → ℕ → Fs
take_sector fs start prev s =
    let taken = set_fat fs s fat_eof in
    kfs_sync_fat (if start == 0 then taken else kfs_sync_fat (set_fat taken prev s) prev) s

-- A sector that begins with `chunk` bytes of a buffer.
abbrev pub data_sector : (ℕ → ℕ) → ℕ → ℕ → Sector
data_sector buf offset chunk j = if ltb j chunk then buf (offset + j) else 0

abbrev pub chunk_of : ℕ → ℕ
chunk_of remaining = if ltb 512 remaining then 512 else remaining

-- The loop over the sectors of a new file, with `n` to go: the first sector, or `none` on a full disk.
unfoldable pub write_data : Fs → (ℕ → ℕ) → ℕ → ℕ → ℕ → ℕ → ℕ → Option ℕ × Fs
write_data fs buf zero offset remaining start prev = (some start, fs)
write_data fs buf (suc n) offset remaining start prev =
    let s = find_free_sector fs in
    let chunk = chunk_of remaining in
    let taken = take_sector fs start prev s in
    let rest =
      write_data (write_sector taken s (data_sector buf offset chunk)) buf n (offset + chunk)
        (remaining - chunk) (if start == 0 then s else start) s in
    if s == 0 then (none, fs) else rest

abbrev pub sectors_needed : ℕ → ℕ
sectors_needed size = if size == 0 then 1 else (size + 511) % 2 ^ 32 / 512

-- The name's field: the bytes behind the terminator are those that the stack held.
abbrev pub filename_of : (ℕ → ℕ) → List ℕ → ℕ → ℕ
filename_of stale name k =
    if ltb k (length name) then get_or name k 0 else if k == length name then 0 else stale k

-- `total_files++` and the header, where the entry was inserted.
unfoldable pub count_entry : Bool × Fs → Bool × Fs
count_entry (false, fs) = (false, fs)
count_entry (true, fs) =
    (true, write_header (record fs { total_files = (fs.total_files + 1) % 2 ^ 32 }))

unfoldable pub enter_file : (ℕ → ℕ) → ℕ → List ℕ → ℕ → Option ℕ × Fs → Bool × Fs
enter_file stale dir name size (none, fs) = (false, fs)
enter_file stale dir name size (some start, fs) = count_entry (
    insert_dir_entry fs dir (record {
      filename = filename_of stale name;
      flags = flag_file;
      start_sector = start;
      size_bytes = size;
    }))

-- A name that the directory has is refused.
unfoldable pub create_in : Fs → (ℕ → ℕ) → (ℕ → ℕ) → ℕ → ℕ → List ℕ → Option Found → Bool × Fs
create_in fs stale buf size dir name (some found) = (false, fs)
create_in fs stale buf size dir name none =
    enter_file stale dir name size (write_data fs buf (sectors_needed size) 0 size 0 0)

unfoldable pub create_split : Fs → (ℕ → ℕ) → (ℕ → ℕ) → ℕ → Option (ℕ × List ℕ) → Bool × Fs
create_split fs stale buf size none = (false, fs)
create_split fs stale buf size (some (dir, name)) =
    create_in fs stale buf size dir name (find_entry_in fs dir name)

-- A disk that was never formatted.
abbrev pub formatted : Fs → ℕ → Fs
formatted fs reported = if ltb fs.root 2 then kfs_format fs reported else fs

unfoldable pub kfs_create_file : Fs → ℕ → (ℕ → ℕ) → List ℕ → (ℕ → ℕ) → ℕ → Bool × Fs
kfs_create_file fs reported stale path buf size =
    let ready = formatted fs reported in create_split ready stale buf size (split_last ready path)

-- The sectors of a chain, given back one by one.
unfoldable pub free_chain : Fs → ℕ → ℕ → Fs
free_chain fs s zero = fs
free_chain fs s (suc fuel) =
    let rest = free_chain (kfs_sync_fat (set_fat fs s fat_free) s) (fs.fat s) fuel in
    if is_end s then fs else rest

unfoldable pub erase_entry : Fs → ℕ → ℕ → Fs
erase_entry fs dir_sec i =
    let cleared = write_sector fs dir_sec (update (fs.disk dir_sec) (32 * i + 23) flag_empty) in
    write_header (record cleared { total_files = (cleared.total_files + 2 ^ 32 - 1) % 2 ^ 32 })

-- A folder stays.
unfoldable pub delete_found : Fs → Option Found → Fs
delete_found fs none = fs
delete_found fs (some (e, dir_sec, i)) =
    if e.flags == flag_folder
    then fs
    else erase_entry (free_chain fs e.start_sector (chain_fuel fs)) dir_sec i

-- The entry that a path names.
unfoldable pub find_split : Fs → Option (ℕ × List ℕ) → Option Found
find_split fs none = none
find_split fs (some (dir, name)) = find_entry_in fs dir name

abbrev pub find_path : Fs → List ℕ → Option Found
find_path fs path = find_split fs (split_last fs path)

unfoldable pub kfs_delete_file : Fs → List ℕ → Fs
kfs_delete_file fs path = delete_found fs (find_path fs path)

abbrev pub is_some {ℓ} : {A : Type ℓ} → Option A → Bool
is_some none = false
is_some (some a) = true

unfoldable pub kfs_exists : Fs → List ℕ → Bool
kfs_exists fs path = is_some (find_path fs path)

abbrev pub size_found : Option Found → ℕ
size_found none = 0
size_found (some (e, _, _)) = e.size_bytes

unfoldable pub kfs_get_file_size : Fs → List ℕ → ℕ
kfs_get_file_size fs path = size_found (find_path fs path)

-- `memcpy(out_buffer + offset, temp, chunk)`
abbrev pub copied_in : (ℕ → ℕ) → ℕ → Sector → ℕ → ℕ → ℕ
copied_in out offset b chunk i =
    if leb offset i && ltb i (offset + chunk) then b (i - offset) else out i

unfoldable pub read_data : Fs → ℕ → ℕ → ℕ → ℕ → (ℕ → ℕ) → ℕ → ℕ
read_data fs zero s offset remaining out = out
read_data fs (suc fuel) s offset remaining out =
    let chunk = chunk_of remaining in
    let rest =
      read_data fs fuel (fs.fat s) (offset + chunk) (remaining - chunk)
        (copied_in out offset (fs.disk s) chunk) in
    if is_end s || remaining == 0 then out else rest

-- The buffer after the read; `none` is the result 0.
unfoldable pub read_found : Fs → (ℕ → ℕ) → ℕ → Option Found → Option (ℕ → ℕ)
read_found fs out capacity none = none
read_found fs out capacity (some (e, _, _)) =
    if ltb capacity e.size_bytes
    then none
    else some (read_data fs (chain_fuel fs) e.start_sector 0 e.size_bytes out)

unfoldable pub kfs_read_to_buffer : Fs → List ℕ → (ℕ → ℕ) → ℕ → Option (ℕ → ℕ)
kfs_read_to_buffer fs path out capacity = read_found fs out capacity (find_path fs path)
