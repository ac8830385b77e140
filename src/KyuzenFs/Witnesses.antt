-- ===== src/KyuzenFs/Witnesses.antt =====
-- The file system on a disk of eight sectors that was just formatted: the header, one sector for the
-- table, the root directory in sector 2 and five free sectors.
use aetheroz.Prelude.{
  ℕ, ◌+◌, ◌%◌, ◌≡◌, refl, ap, subst, inl, inr, Option, none, some, List, [], ◌∷◌, arith,
}
use aetheroz.Prelude.{true, false}
use aetheroz.Prelude.Int.{pos}
use aetheroz.Strings.{strcmp}
use aetheroz.Strings.Compare.{IsText}
use aetheroz.Vfs.{
  Fds, Allocator, vfs_open, open_path, open_loaded, claim_fd, free_fd, vfs_init, vfs_read,
  read_slot, read_count, bytes_from, resolve, slot_of,
}
use aetheroz.KyuzenFs.Descriptors.{kyuzen_fs}
use aetheroz.KyuzenFs.{
  Fs, blank, kfs_format, kfs_init, flush_fat, kfs_sync_fat, find_free_sector, free_from,
}
use aetheroz.KyuzenFs.Directory.{
  text_from, name_of, same_name, put_entry, entry_byte, entry_at, search_sector, search_chain,
  chain_fuel, find_entry_in, empty_slot, vacant, find_slot, insert_at, insert_dir_entry,
}
use aetheroz.KyuzenFs.Paths.{walk, resolve_dir, name_after, split_last, components}
use aetheroz.KyuzenFs.Files.{
  kfs_exists, kfs_get_file_size, kfs_read_to_buffer, read_found, read_data, find_split, take_sector,
  write_data, count_entry, enter_file, create_in, create_split, kfs_create_file, kfs_delete_file,
}
use aetheroz.KyuzenFs.Alloc.{IsFs}
use aetheroz.KyuzenFs.Kept.{OnTable}
use aetheroz.KyuzenFs.Mounted.{Mounted}
use aetheroz.KyuzenFs.Format.{kfs_format-Mounted}
use aetheroz.KyuzenFs.Restart.{
  Reopened, Behind, kfs_init-Mounted, kfs_create_file-Mounted, kfs_delete_file-Mounted,
}
use aetheroz.KyuzenFs.Root.{IsPlain, FileCreated, kfs_read_to_buffer-kfs_create_file}

abbrev zeros : Fs
zeros = record {
  disk = λ s. blank;
  fat = blank;
  total_sectors = 0;
  fat_sectors = 0;
  magic = blank;
  root = 0;
  total_files = 0;
  padding = blank;
}

abbrev fresh : Fs
fresh = kfs_format zeros 8

abbrev readme : List ℕ
readme = 82 ∷ 69 ∷ 65 ∷ 68 ∷ []

abbrev bytes : ℕ → ℕ
bytes j = (j + 7) % 256

fresh-IsFs : IsFs fresh
unfolding kfs_format flush_fat
fresh-IsFs = record { root_eq = refl; table_fits = ground arith; marks = ground arith }

fresh-OnTable : OnTable fresh (chain_fuel fresh) 2
unfolding OnTable kfs_format flush_fat
fresh-OnTable = inr (ground arith, ground arith, inl refl)

first_slot : find_slot fresh 2 2 (chain_fuel fresh) ≡ vacant 2 0
unfolding find_slot empty_slot entry_at kfs_format flush_fat
first_slot = refl

no_readme : find_entry_in fresh 2 readme ≡ none
unfolding find_entry_in search_chain search_sector entry_at kfs_format flush_fat
no_readme = refl

readme-IsText : IsText readme
readme-IsText = (ground arith, (ground arith, (ground arith, (ground arith, refl))))

readme-IsPlain : IsPlain readme
unfolding IsPlain
readme-IsPlain = (ground arith, (ground arith, (ground arith, (ground arith, refl))))

kfs_read_to_buffer-kfs_create_file_example :
    FileCreated readme bytes 700 blank 1000 (kfs_create_file fresh 8 blank readme bytes 700)
unfolding kfs_format flush_fat
kfs_read_to_buffer-kfs_create_file_example =
    kfs_read_to_buffer-kfs_create_file fresh bytes 700 readme blank 1000 readme-IsPlain
      (ground arith) blank 8 2 0 fresh-IsFs fresh-OnTable (ground arith) readme-IsText
      (ground arith) (ground arith) (ground arith) first_slot no_readme

kfs_format-Mounted_example : Mounted 8 fresh
kfs_format-Mounted_example = kfs_format-Mounted zeros 8 (ground arith)

kfs_init-Mounted_example : Reopened fresh (kfs_init (record zeros { disk = fresh.disk }) 8)
kfs_init-Mounted_example =
    kfs_init-Mounted 8 fresh (kfs_format-Mounted zeros 8 (ground arith))
      (record zeros { disk = fresh.disk }) refl

abbrev dir_or_zero : Option (ℕ × List ℕ) → ℕ
dir_or_zero none = 0
dir_or_zero (some (dir, name)) = dir

readme-Behind : Behind fresh readme
unfolding split_last resolve_dir walk components name_after kfs_format flush_fat
readme-Behind dir name e = subst (OnTable fresh (chain_fuel fresh)) (ap dir_or_zero e) fresh-OnTable

kfs_create_file-Mounted_example : Mounted 8 ((kfs_create_file fresh 8 blank readme bytes 700).1)
kfs_create_file-Mounted_example =
    kfs_create_file-Mounted 8 fresh (kfs_format-Mounted zeros 8 (ground arith)) readme readme-Behind
      blank bytes 700 (ground arith)

-- The disk with the file.
abbrev with_readme : Fs
with_readme = (kfs_create_file fresh 8 blank readme bytes 700).1

with_readme-Behind : Behind with_readme readme
unfolding OnTable split_last resolve_dir walk components name_after kfs_format flush_fat
    kfs_create_file create_split create_in find_entry_in search_chain search_sector entry_at
    write_data take_sector find_free_sector free_from kfs_sync_fat count_entry enter_file
    insert_dir_entry insert_at find_slot empty_slot
with_readme-Behind dir name e =
    subst (OnTable with_readme (chain_fuel with_readme)) (ap dir_or_zero e)
      (inr (ground arith, ground arith, inl refl))

kfs_delete_file-Mounted_example : Mounted 8 (kfs_delete_file with_readme readme)
kfs_delete_file-Mounted_example =
    kfs_delete_file-Mounted 8 with_readme
      (kfs_create_file-Mounted 8 fresh (kfs_format-Mounted zeros 8 (ground arith)) readme
        readme-Behind blank bytes 700 (ground arith))
      readme with_readme-Behind

-- No file is open.
abbrev pool : Fds
pool = λ s. record {
  used = false;
  owner = 0;
  path = [];
  buf = blank;
  size = 0;
  cap = 0;
  pos = 0;
  flags = 0;
  dirty = false;
}

abbrev heap : Allocator
heap = record { grants = λ size. true; contents = blank }

-- A task opens the file and reads its first bytes.
abbrev opened : Fds
opened = (vfs_open (kyuzen_fs 8 blank) heap with_readme pool (pos 0) readme 0).1

file_bytes : (vfs_read opened (pos 0) (pos 0) true 3).1 ≡ 7 ∷ 8 ∷ 9 ∷ []
unfolding vfs_open open_path open_loaded claim_fd free_fd vfs_init vfs_read read_slot read_count
    bytes_from resolve slot_of kfs_exists kfs_get_file_size kfs_read_to_buffer read_found read_data
    find_split text_from name_of same_name strcmp put_entry entry_byte split_last resolve_dir walk
    components name_after kfs_format flush_fat kfs_create_file create_split create_in find_entry_in
    search_chain search_sector entry_at write_data take_sector find_free_sector free_from
    kfs_sync_fat count_entry enter_file insert_dir_entry insert_at find_slot empty_slot
file_bytes = refl
