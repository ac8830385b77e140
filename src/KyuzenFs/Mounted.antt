-- ===== src/KyuzenFs/Mounted.antt =====
-- The header and the table on the disk are those in memory, which every operation keeps.
use aetheroz.Prelude.{
  ℕ, ◌+◌, ◌/◌, ◌^◌, ◌<◌, ◌≡◌, ◌≢◌, refl, sym, ap, subst, ◌∙◌, inl, inr, arith, leb, ◌==◌,
  update_self, update_ne, Bool-cases,
}
use aetheroz.KyuzenFs.{
  Sector, Fs, fat_eof, write_sector, set_fat, fat_bytes, kfs_sync_fat, header_bytes, write_header,
  disk_sectors, table_sectors,
}
use aetheroz.KyuzenFs.Directory.{extend_chain}
use aetheroz.KyuzenFs.Files.{take_sector}
use aetheroz.KyuzenFs.Alloc.{IsFs, SameShape, SameShape-self, SameShape-trans, IsFs-SameShape}
use aetheroz.KyuzenFs.Sync.{
  Holds, All, write_sector-Holds, sync_one-Holds, take_sector-Holds, extend_chain-Holds,
}

-- A file system that was started on a disk that reports a number of sectors: the header and each entry
-- of the table are on the disk.
pub record Mounted (reported : ℕ) (fs : Fs) : Type 0 where
  pub counts : fs.total_sectors ≡ disk_sectors reported
  pub table : fs.fat_sectors ≡ table_sectors (disk_sectors reported)
  pub shape : IsFs fs
  pub k : fs.magic 0 ≡ 75
  pub z : fs.magic 1 ≡ 90
  pub root_word : fs.root < 2 ^ 32
  pub files_word : fs.total_files < 2 ^ 32
  pub header : fs.disk 0 ≡ header_bytes fs
  pub holds : Holds fs All

-- The first sector and what it is written from are the same.
pub record SameHead (a b : Fs) : Type 0 where
  pub shape : SameShape a b
  pub magic : b.magic ≡ a.magic
  pub files : b.total_files ≡ a.total_files
  pub header : header_bytes b ≡ header_bytes a
  pub first : b.disk 0 ≡ a.disk 0

pub SameHead-trans : (a b c : Fs) → SameHead a b → SameHead b c → SameHead a c
SameHead-trans a b c h j = record {
  shape = SameShape-trans a b c h.shape j.shape;
  magic = j.magic ∙ h.magic;
  files = j.files ∙ h.files;
  header = j.header ∙ h.header;
  first = j.first ∙ h.first;
}

Mounted-SameHead : (r : ℕ) (a b : Fs) → Mounted r a → SameHead a b → Holds b All → Mounted r b
Mounted-SameHead r a b m h holds = record {
  counts = h.shape.total ∙ m.counts;
  table = h.shape.table ∙ m.table;
  shape = IsFs-SameShape a b h.shape m.shape;
  k = ap (λ (f : ℕ → ℕ). f 0) h.magic ∙ m.k;
  z = ap (λ (f : ℕ → ℕ). f 1) h.magic ∙ m.z;
  root_word = subst (λ n. n < 2 ^ 32) (sym h.shape.top) m.root_word;
  files_word = subst (λ n. n < 2 ^ 32) (sym h.files) m.files_word;
  header = h.first ∙ m.header ∙ sym h.header;
  holds = holds;
}

pub set_fat-SameHead : (fs : Fs) (s w : ℕ) → SameHead fs (set_fat fs s w)
unfolding header_bytes
set_fat-SameHead fs s w = record {
  shape = record { total = refl; table = refl; top = refl };
  magic = refl;
  files = refl;
  header = refl;
  first = refl;
}

pub write_sector-SameHead :
    (fs : Fs) (t : ℕ) (b : Sector) → t ≢ 0 → SameHead fs (write_sector fs t b)
unfolding header_bytes
write_sector-SameHead fs t b h = record {
  shape = record { total = refl; table = refl; top = refl };
  magic = refl;
  files = refl;
  header = refl;
  first = update_ne fs.disk t b h;
}

kfs_sync_fat-SameHead : (fs : Fs) (i : ℕ) → SameHead fs (kfs_sync_fat fs i)
unfolding kfs_sync_fat header_bytes
kfs_sync_fat-SameHead fs i = elim (Bool-cases (leb fs.total_sectors i)) [
  | inl e ↦ rw e (record {
    shape = SameShape-self fs;
    magic = refl;
    files = refl;
    header = refl;
    first = refl;
  })
  | inr e ↦ rw e (write_sector-SameHead fs (1 + i / 128) (fat_bytes fs.fat (i / 128)) (omega arith))
]

-- One entry of the table is set and written.
set_one-SameHead : (fs : Fs) (s w i : ℕ) → SameHead fs (kfs_sync_fat (set_fat fs s w) i)
set_one-SameHead fs s w i =
    SameHead-trans fs _ _ (set_fat-SameHead fs s w) (kfs_sync_fat-SameHead (set_fat fs s w) i)

pub take_sector-SameHead : (fs : Fs) (start prev s : ℕ) → SameHead fs (take_sector fs start prev s)
unfolding take_sector
take_sector-SameHead fs start prev s =
    let taken = set_fat fs s fat_eof in
    elim (Bool-cases (start == 0)) [
      | inl e ↦ rw e (set_one-SameHead fs s fat_eof s)
      | inr e ↦ rw e (
          SameHead-trans fs taken _ (set_fat-SameHead fs s fat_eof) (
            SameHead-trans taken (kfs_sync_fat (set_fat taken prev s) prev) _
              (set_one-SameHead taken prev s prev) (kfs_sync_fat-SameHead _ s)))
    ]

pub extend_chain-SameHead : (fs : Fs) (last s : ℕ) → SameHead fs (extend_chain fs last s)
unfolding extend_chain
extend_chain-SameHead fs last s =
    let linked = set_fat fs last s in
    SameHead-trans fs linked _ (set_fat-SameHead fs last s) (
      SameHead-trans linked (kfs_sync_fat (set_fat linked s fat_eof) last) _
        (set_one-SameHead linked s fat_eof last) (kfs_sync_fat-SameHead _ s))

-- One entry of the table is set and written.
pub sync_one-Mounted :
    (r : ℕ) (fs : Fs) (s w : ℕ)
    → w < 2 ^ 32
    → Mounted r fs
    → Mounted r (kfs_sync_fat (set_fat fs s w) s)
sync_one-Mounted r fs s w small m =
    Mounted-SameHead r fs _ m (set_one-SameHead fs s w s) (sync_one-Holds fs s w small m.holds)

pub take_sector-Mounted :
    (r : ℕ) (fs : Fs) (start prev s : ℕ)
    → s < 2 ^ 32
    → Mounted r fs
    → Mounted r (take_sector fs start prev s)
take_sector-Mounted r fs start prev s small m =
    Mounted-SameHead r fs _ m (take_sector-SameHead fs start prev s)
      (take_sector-Holds fs m.shape m.holds start prev s small)

pub extend_chain-Mounted :
    (r : ℕ) (fs : Fs) (last s : ℕ) → s < 2 ^ 32 → Mounted r fs → Mounted r (extend_chain fs last s)
extend_chain-Mounted r fs last s small m =
    Mounted-SameHead r fs _ m (extend_chain-SameHead fs last s)
      (extend_chain-Holds fs m.shape m.holds last s small)

-- A sector behind the table is written.
pub write_sector-Mounted :
    (r : ℕ) (fs : Fs) (t : ℕ) (b : Sector)
    → fs.fat_sectors < t
    → Mounted r fs
    → Mounted r (write_sector fs t b)
write_sector-Mounted r fs t b h m =
    Mounted-SameHead r fs _ m (write_sector-SameHead fs t b (omega arith))
      (write_sector-Holds fs t b All m.shape (inr h) m.holds)

-- The count of the files changes and the header is written.
pub write_header-Mounted :
    (r : ℕ) (fs : Fs) (n : ℕ)
    → n < 2 ^ 32
    → Mounted r fs
    → Mounted r (write_header (record fs { total_files = n }))
unfolding header_bytes
write_header-Mounted r fs n h m =
    let b = record fs { total_files = n } in
    record {
      counts = m.counts;
      table = m.table;
      shape = record {
        root_eq = m.shape.root_eq;
        table_fits = m.shape.table_fits;
        marks = m.shape.marks;
      };
      k = m.k;
      z = m.z;
      root_word = m.root_word;
      files_word = h;
      header = update_self fs.disk 0 (header_bytes b);
      holds =
          write_sector-Holds b 0 (header_bytes b) All
            (record {
              root_eq = m.shape.root_eq;
              table_fits = m.shape.table_fits;
              marks = m.shape.marks;
            })
            (inl refl) m.holds;
    }
