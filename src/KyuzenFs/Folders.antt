-- ===== src/KyuzenFs/Folders.antt =====
-- kernel/kyuzenfs.c: the creation and the listing of folders.
use aetheroz.Prelude.{
  ℕ, zero, suc, ◌-◌, Bool, true, false, ◌||◌, Option, none, some, List, [], ◌∷◌, ◌++◌, ◌==◌,
  if◌then◌else◌, length, take,
}
use aetheroz.KyuzenFs.{
  Sector, Fs, fat_free, fat_eof, blank, write_sector, set_fat, kfs_sync_fat, find_free_sector,
}
use aetheroz.KyuzenFs.Directory.{
  Entry, Found, flag_empty, flag_folder, entry_at, name_of, is_end, chain_fuel, find_entry_in,
  insert_dir_entry,
}
use aetheroz.KyuzenFs.Paths.{resolve_dir, split_last}
use aetheroz.KyuzenFs.Files.{filename_of, count_entry}

-- Where the entry does not fit the sector is free again in the table, which is not written.
unfoldable pub folder_entered : ℕ → Bool × Fs → Bool × Fs
folder_entered s (false, fs) = (false, set_fat fs s fat_free)
folder_entered s (true, fs) = count_entry (true, fs)

unfoldable pub create_folder_at : Fs → (ℕ → ℕ) → ℕ → List ℕ → ℕ → Bool × Fs
create_folder_at fs stale dir name s = folder_entered s (
    insert_dir_entry (write_sector (kfs_sync_fat (set_fat fs s fat_eof) s) s blank) dir (record {
      filename = filename_of stale name;
      flags = flag_folder;
      start_sector = s;
      size_bytes = 0;
    }))

unfoldable pub create_folder_in : Fs → (ℕ → ℕ) → ℕ → List ℕ → Option Found → Bool × Fs
create_folder_in fs stale dir name (some found) = (false, fs)
create_folder_in fs stale dir name none =
    let s = find_free_sector fs in
    if s == 0 then (false, fs) else create_folder_at fs stale dir name s

unfoldable pub create_folder_split : Fs → (ℕ → ℕ) → Option (ℕ × List ℕ) → Bool × Fs
create_folder_split fs stale none = (false, fs)
create_folder_split fs stale (some (dir, name)) =
    create_folder_in fs stale dir name (find_entry_in fs dir name)

unfoldable pub kfs_create_folder : Fs → (ℕ → ℕ) → List ℕ → Bool × Fs
kfs_create_folder fs stale path = create_folder_split fs stale (split_last fs path)

unfoldable pub kfs_resolve_dir : Fs → List ℕ → Option ℕ
kfs_resolve_dir fs path = resolve_dir fs path

-- `file_info_t`
pub record FileInfo : Type 0 where
  pub filename : List ℕ
  pub size : ℕ
  pub is_folder : Bool

abbrev pub file_info : Entry → FileInfo
file_info e = record {
  filename = take 22 (name_of e);
  size = e.size_bytes;
  is_folder = e.flags == flag_folder;
}

-- The entries in use among `n` from `i` on.
unfoldable pub list_sector : Sector → ℕ → ℕ → List FileInfo
list_sector b i zero = []
list_sector b i (suc n) =
    let rest = list_sector b (suc i) n in
    if (entry_at b i).flags == flag_empty then rest else file_info (entry_at b i) ∷ rest

-- The loops stop at `room` entries.
unfoldable pub list_chain : Fs → ℕ → ℕ → ℕ → List FileInfo
list_chain fs s room zero = []
list_chain fs s room (suc fuel) =
    let here = take room (list_sector (fs.disk s) 0 16) in
    let rest = list_chain fs (fs.fat s) (room - length here) fuel in
    if is_end s || room == 0 then [] else here ++ rest

abbrev pub list_resolved : Fs → ℕ → Option ℕ → List FileInfo
list_resolved fs max_entries none = []
list_resolved fs max_entries (some dir) = list_chain fs dir max_entries (chain_fuel fs)

-- The count is the length of the list.
unfoldable pub kfs_get_file_list : Fs → List ℕ → ℕ → List FileInfo
kfs_get_file_list fs path max_entries = list_resolved fs max_entries (resolve_dir fs path)
