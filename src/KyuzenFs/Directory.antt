-- ===== src/KyuzenFs/Directory.antt =====
-- kernel/kyuzenfs.c: the directories. One sector holds 16 entries of 32 bytes, and the sectors of a
-- directory are a chain of the table. A name ends within its 23 bytes. A loop along a chain has fuel for
-- one round more than the disk has sectors; on a chain with a cycle, where the code does not end, the
-- result is that of an ended chain, and the theorems ask for chains that end.
use aetheroz.Prelude.{
  ℕ, zero, suc, ◌+◌, ◌-◌, ◌*◌, ◌%◌, Bool, true, false, ◌&&◌, ◌||◌, not, Option, none, some, List,
  [], ◌∷◌, ltb, leb, ◌==◌, if◌then◌else◌,
}
use aetheroz.Prelude.Int.{pos_part, neg_part}
use aetheroz.Strings.{strcmp}
use aetheroz.KyuzenFs.{
  Sector, Fs, fat_free, fat_eof, byte_of, word_at, blank, write_sector, set_fat, kfs_sync_fat,
  find_free_sector,
}

abbrev pub flag_empty : ℕ
flag_empty = 0

abbrev pub flag_file : ℕ
flag_file = 1

abbrev pub flag_folder : ℕ
flag_folder = 2

-- `kfs_file_entry_t`
pub record Entry : Type 0 where
  pub filename : ℕ → ℕ
  pub flags : ℕ
  pub start_sector : ℕ
  pub size_bytes : ℕ

unfoldable pub entry_at : Sector → ℕ → Entry
entry_at b i = record {
  filename = λ k. if ltb k 23 then b (32 * i + k) else 0;
  flags = b (32 * i + 23);
  start_sector = word_at b (32 * i + 24);
  size_bytes = word_at b (32 * i + 28);
}

-- The byte `k` of an entry that `insert_dir_entry` writes, which ends the name at byte 22.
unfoldable pub entry_byte : Entry → ℕ → ℕ
entry_byte e k =
    if ltb k 22
    then e.filename k
    else if k == 22
    then 0
    else if k == 23
    then e.flags % 256
    else if ltb k 28
    then byte_of e.start_sector (k - 24)
    else byte_of e.size_bytes (k - 28)

-- `entries[i] = e`
unfoldable pub put_entry : Sector → ℕ → Entry → Sector
put_entry b i e j = if leb (32 * i) j && ltb j (32 * i + 32) then entry_byte e (j - 32 * i) else b j

-- The characters before the terminator, of at most `n` from `k` on.
unfoldable pub text_from : (ℕ → ℕ) → ℕ → ℕ → List ℕ
text_from f k zero = []
text_from f k (suc n) = let rest = text_from f (suc k) n in if f k == 0 then [] else f k ∷ rest

unfoldable pub name_of : Entry → List ℕ
name_of e = text_from e.filename 0 23

-- `strcmp(a, b) == 0`
unfoldable pub same_name : List ℕ → List ℕ → Bool
same_name a b = pos_part (strcmp a b) + neg_part (strcmp a b) == 0

abbrev pub or_rest {ℓ} : {A : Type ℓ} → Option A → Option A → Option A
or_rest (some a) rest = some a
or_rest none rest = rest

-- The first of `n` entries from `i` on that has a name.
unfoldable pub search_sector : Sector → List ℕ → ℕ → ℕ → Option (Entry × ℕ)
search_sector b name i zero = none
search_sector b name i (suc n) =
    let rest = search_sector b name (suc i) n in
    if not ((entry_at b i).flags == flag_empty) && same_name (name_of (entry_at b i)) name
    then some (entry_at b i, i)
    else rest

abbrev pub is_end : ℕ → Bool
is_end s = s == fat_eof || s == fat_free

-- An entry with the sector and the index where it stands.
abbrev pub Found : Type 0
Found = Entry × ℕ × ℕ

abbrev pub found_in : ℕ → Option (Entry × ℕ) → Option Found
found_in s none = none
found_in s (some (e, i)) = some (e, s, i)

unfoldable pub search_chain : Fs → List ℕ → ℕ → ℕ → Option Found
search_chain fs name s zero = none
search_chain fs name s (suc fuel) =
    let rest = search_chain fs name (fs.fat s) fuel in
    if is_end s then none else or_rest (found_in s (search_sector (fs.disk s) name 0 16)) rest

abbrev pub chain_fuel : Fs → ℕ
chain_fuel fs = suc fs.total_sectors

unfoldable pub find_entry_in : Fs → ℕ → List ℕ → Option Found
find_entry_in fs dir name = if ltb dir 2 then none else search_chain fs name dir (chain_fuel fs)

-- The first empty one of `n` entries from `i` on.
unfoldable pub empty_slot : Sector → ℕ → ℕ → Option ℕ
empty_slot b i zero = none
empty_slot b i (suc n) =
    let rest = empty_slot b (suc i) n in if (entry_at b i).flags == flag_empty then some i else rest

-- Where a new entry goes: a slot of a sector, or a new sector behind the last.
pub data Slot : Type 0 where
  vacant : ℕ → ℕ → Slot
  full_after : ℕ → Slot

abbrev pub vacant_or : ℕ → Option ℕ → Slot → Slot
vacant_or s (some i) rest = vacant s i
vacant_or s none rest = rest

unfoldable pub find_slot : Fs → ℕ → ℕ → ℕ → Slot
find_slot fs last s zero = full_after last
find_slot fs last s (suc fuel) =
    let rest = find_slot fs s (fs.fat s) fuel in
    if is_end s then full_after last else vacant_or s (empty_slot (fs.disk s) 0 16) rest

-- A new sector at the end of the chain.
unfoldable pub extend_chain : Fs → ℕ → ℕ → Fs
extend_chain fs last s = kfs_sync_fat (kfs_sync_fat (set_fat (set_fat fs last s) s fat_eof) last) s

unfoldable pub insert_at : Fs → Entry → Slot → Bool × Fs
insert_at fs e (vacant s i) = (true, write_sector fs s (put_entry (fs.disk s) i e))
insert_at fs e (full_after last) =
    let s = find_free_sector fs in
    if s == 0
    then (false, fs)
    else (true, write_sector (extend_chain fs last s) s (put_entry blank 0 e))

unfoldable pub insert_dir_entry : Fs → ℕ → Entry → Bool × Fs
insert_dir_entry fs dir e = insert_at fs e (find_slot fs dir dir (chain_fuel fs))
