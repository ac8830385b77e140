-- ===== src/KyuzenFs/Restart.antt =====
-- kernel/kyuzenfs.c: what a start reads of the disk that the last run left.
use aetheroz.Prelude.{
  ℕ, ◌+◌, ◌-◌, ◌*◌, ◌/◌, ◌%◌, ◌^◌, ◌<◌, ◌≡◌, refl, sym, ap, subst, ◌∙◌, inl, inr, true, false, some,
  List, arith, ltb, ◌==◌, Option-cases,
}
use aetheroz.KyuzenFs.{
  Sector, Fs, word_at, header_bytes, disk_sectors, table_sectors, read_header, loaded_fat, kfs_init,
}
use aetheroz.KyuzenFs.Directory.{chain_fuel, find_entry_in}
use aetheroz.KyuzenFs.Paths.{split_last}
use aetheroz.KyuzenFs.Files.{
  create_split, formatted, kfs_create_file, delete_found, find_split, kfs_delete_file,
}
use aetheroz.KyuzenFs.Alloc.{SameShape}
use aetheroz.KyuzenFs.Kept.{OnTable}
use aetheroz.KyuzenFs.Sync.{four_bytes}
use aetheroz.KyuzenFs.Mounted.{Mounted}
use aetheroz.KyuzenFs.Persist.{create_in-Mounted, delete_in-Mounted}

-- The same disk, counts and header, and the same table of its sectors.
pub record Reopened (a b : Fs) : Type 0 where
  pub shape : SameShape a b
  pub files : b.total_files ≡ a.total_files
  pub padding : (k : ℕ) → b.padding k ≡ a.padding k
  pub disk_eq : b.disk ≡ a.disk
  pub fat_eq : (x : ℕ) → x < a.total_sectors → b.fat x ≡ a.fat x

module _ (reported : ℕ) (fs : Fs) (mounted : Mounted reported fs) (m : Fs)
    (left : m.disk ≡ fs.disk) where
  byte : (j : ℕ) → m.disk 0 j ≡ header_bytes fs j
  byte j = ap (λ (d : ℕ → Sector). d 0 j) left ∙ ap (λ (b : Sector). b j) mounted.header

  root_read : word_at (m.disk 0) 4 ≡ fs.root
  unfolding header_bytes
  root_read = omega (arith, byte 4, byte 5, byte 6, byte 7, four_bytes fs.root mounted.root_word)

  files_read : word_at (m.disk 0) 8 ≡ fs.total_files
  unfolding header_bytes
  files_read =
      omega (arith, byte 8, byte 9, byte 10, byte 11, four_bytes fs.total_files mounted.files_word)

  padding_read : (k : ℕ) → m.disk 0 (k + 12) ≡ fs.padding k
  unfolding header_bytes
  padding_read k =
      let a : ltb (k + 12) 4 ≡ false = ground arith in
      let b : ltb (k + 12) 8 ≡ false = ground arith in
      let c : ltb (k + 12) 12 ≡ false = ground arith in
      let z : k + 12 - 12 ≡ k = omega arith in byte (k + 12) ∙ (rw (a, b, c, z) refl)

  fat_read :
      (x : ℕ)
      → x < fs.total_sectors
      → loaded_fat (read_header m) (table_sectors (disk_sectors reported)) x ≡ fs.fat x
  fat_read x h =
      let q : ltb x (table_sectors (disk_sectors reported) * 128) ≡ true =
        let t = mounted.shape.table_fits in let e = mounted.table in ground arith in
      (rw q refl)
      ∙ ap (λ (d : ℕ → Sector). word_at (d (1 + x / 128)) (x % 128 * 4)) left
      ∙ (mounted.holds x h refl).1

  -- A file system whose header and table are on the disk is the one that a start finds there, whatever
  -- else the memory holds: the same root, counts and files, and the same table of the disk's sectors.
  pub kfs_init-Mounted : Reopened fs (kfs_init m reported)
  unfolding kfs_init header_bytes
  kfs_init-Mounted =
      let k : (m.disk 0 0 == 75) ≡ true = let e = byte 0 ∙ mounted.k in ground arith in
      let z : (m.disk 0 1 == 90) ≡ true = let e = byte 1 ∙ mounted.z in ground arith in
      rw (k, z)
        (record {
          shape = record { total = sym mounted.counts; table = sym mounted.table; top = root_read };
          files = files_read;
          padding = padding_read;
          disk_eq = left;
          fat_eq = fat_read;
        })

-- The chain of the directory that a path leads to ends, is taken and lies behind the table.
abbrev pub Behind : Fs → List ℕ → Type 0
Behind fs path =
    (dir : ℕ) (name : List ℕ)
    → split_last fs path ≡ some (dir, name)
    → OnTable fs (chain_fuel fs) dir

module _ (reported : ℕ) (fs : Fs) (mounted : Mounted reported fs) (path : List ℕ)
    (behind : Behind fs path) where
  root_lem : ltb fs.root 2 ≡ false
  root_lem =
      let some_sectors : 0 < fs.total_sectors = let e = mounted.counts in ground arith in
      let t = mounted.shape.table_fits in let r = mounted.shape.root_eq in ground arith

  -- A header and a table on the disk stay there when a file is created, whether that succeeds or not.
  -- The chain of the directory ends, is taken and lies behind the table; the size is below 2^32 - 511.
  pub kfs_create_file-Mounted :
      (stale buf : ℕ → ℕ) (size : ℕ)
      → size < 2 ^ 32 - 511
      → Mounted reported ((kfs_create_file fs reported stale path buf size).1)
  unfolding kfs_create_file create_split
  kfs_create_file-Mounted stale buf size small =
      let ready : formatted fs reported ≡ fs = rw root_lem refl in
      subst (λ f. Mounted reported ((create_split f stale buf size (split_last f path)).1))
        (sym ready)
        (elim (Option-cases (split_last fs path)) [
          | inl e ↦ rw e mounted
          | inr ((dir, name), e) ↦ rw e (
              create_in-Mounted reported fs dir mounted (behind dir name e) stale buf size name
                (find_entry_in fs dir name) small)
        ])

  -- A header and a table on the disk stay there when a path is deleted, where the chain of the directory
  -- ends, is taken and lies behind the table.
  pub kfs_delete_file-Mounted : Mounted reported (kfs_delete_file fs path)
  unfolding kfs_delete_file find_split delete_found
  kfs_delete_file-Mounted = elim (Option-cases (split_last fs path)) [
    | inl e ↦ rw e mounted
    | inr ((dir, name), e) ↦
        rw e (delete_in-Mounted reported fs dir mounted (behind dir name e) name)
  ]
