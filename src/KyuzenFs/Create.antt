-- ===== src/KyuzenFs/Create.antt =====
-- A file that was created can be read, with the bytes that went in.
use aetheroz.Prelude.{
  ℕ, zero, suc, ◌+◌, ◌-◌, ◌%◌, ◌^◌, ◌≤◌, ◌<◌, ◌≡◌, ◌≢◌, refl, sym, ap, ap₂, subst, ◌∙◌, inl, Bool,
  true, false, not, ◌&&◌, Option, none, some, List, arith, ltb, ◌==◌, update_self, update_ne,
  length,
}
use aetheroz.Strings.Compare.{IsText, strcmp_self}
use aetheroz.KyuzenFs.{Fs, fat_eof, write_sector, header_bytes, write_header, find_free_sector}
use aetheroz.KyuzenFs.Directory.{
  Entry, flag_empty, flag_file, entry_at, put_entry, name_of, same_name, is_end, chain_fuel,
  search_chain, find_entry_in, vacant, find_slot, insert_at, insert_dir_entry,
}
use aetheroz.KyuzenFs.Files.{
  filename_of, sectors_needed, write_data, count_entry, enter_file, create_in, read_data,
  read_found,
}
use aetheroz.KyuzenFs.Alloc.{IsFs, SameShape}
use aetheroz.KyuzenFs.Data.{Stored, Written, Writes}
use aetheroz.KyuzenFs.Transfer.{write_data-Writes}
use aetheroz.KyuzenFs.Reading.{read_data_lem}
use aetheroz.KyuzenFs.Entries.{put_flags, put_start, put_size, put_name}
use aetheroz.KyuzenFs.Insert.{Inserted, entry_in, Named, search_chain-Inserted, not_zero}
use aetheroz.KyuzenFs.Kept.{
  Kept, OnTable, search_chain-Kept, find_slot-Kept, find_slot-OnTable, Stored-disk, count_free-le,
}

-- The entry of a new file.
abbrev pub file_entry : (ℕ → ℕ) → List ℕ → ℕ → ℕ → Entry
file_entry stale name size start = record {
  filename = filename_of stale name;
  flags = flag_file;
  start_sector = start;
  size_bytes = size;
}

-- What `name` in `dir` reads as, in a buffer with room: the bytes of `buf`.
abbrev pub Reads : Fs → ℕ → List ℕ → (ℕ → ℕ) → ℕ → (ℕ → ℕ) → ℕ → Type 0
Reads fs dir name buf size out capacity =
    (got : ℕ → ℕ) × (read_found fs out capacity (find_entry_in fs dir name) ≡ some got)
    × ((j : ℕ) → j < size → got j ≡ buf j)

-- The disk is full, or the file is there on a disk of the same shape.
unfoldable pub Creates : Fs → ℕ → List ℕ → (ℕ → ℕ) → ℕ → (ℕ → ℕ) → ℕ → Bool × Fs → Type 0
Creates was dir name buf size out capacity (false, fs) = find_free_sector fs ≡ 0
Creates was dir name buf size out capacity (true, fs) =
    SameShape was fs × Reads fs dir name buf size out capacity

same_name_self : (name : List ℕ) → same_name name name ≡ true
unfolding same_name
same_name_self name = rw (strcmp_self name) refl

Stored-first :
    (old : ℕ → ℕ) (fs : Fs) (buf : ℕ → ℕ) (size offset s n : ℕ)
    → 0 < n
    → Stored old fs buf size offset s n
    → s < fat_eof
unfolding Stored
Stored-first old fs buf size offset s zero h v = absurd (omega arith)
Stored-first old fs buf size offset s (suc n) h v = v.1

-- The disk after the entry went into its slot and the header was written.
abbrev entered : Fs → ℕ → ℕ → Entry → Fs
entered fs t i e =
    let b = write_sector fs t (put_entry (fs.disk t) i e) in
    write_header (record b { total_files = (b.total_files + 1) % 2 ^ 32 })

entered-Inserted : (fs : Fs) (t i : ℕ) (e : Entry) → t ≢ 0 → Inserted fs t i e (entered fs t i e)
entered-Inserted fs t i e h =
    let b = write_sector fs t (put_entry (fs.disk t) i e) in
    let header = header_bytes (record b { total_files = (b.total_files + 1) % 2 ^ 32 }) in
    record {
      same_fat = refl;
      written =
          update_ne b.disk 0 header (λ q. h (sym q))
          ∙ update_self fs.disk t (put_entry (fs.disk t) i e);
      others = λ x apart nz.
          update_ne b.disk 0 header (λ q. nz (sym q))
          ∙ update_ne fs.disk t (put_entry (fs.disk t) i e) (λ q. apart (sym q));
    }

module _ (fs : Fs) (stale buf : ℕ → ℕ) (size dir : ℕ) (name : List ℕ) (t i : ℕ) (out : ℕ → ℕ)
    (capacity : ℕ) (v : IsFs fs) (on : OnTable fs (chain_fuel fs) dir) (deep : 2 ≤ dir)
    (text : IsText name) (short : length name < 23) (small : size < 2 ^ 32 - 511)
    (room : size ≤ capacity) (slot : find_slot fs dir dir (chain_fuel fs) ≡ vacant t i)
    (missing : find_entry_in fs dir name ≡ none) where
  in_chain : (is_end t ≡ false) × (fs.fat_sectors < t) × (fs.fat t ≢ 0)
  in_chain = find_slot-OnTable fs t i (chain_fuel fs) dir dir on slot

  not_in_dir : search_chain fs name dir (chain_fuel fs) ≡ none
  unfolding find_entry_in
  not_in_dir = let q : ltb dir 2 ≡ false = ground arith in rw q at missing

  module _ (st : ℕ) (fs1 : Fs) (w : Written fs buf size 0 (sectors_needed size) 0 0 st fs1) where
    kept : Kept fs fs1
    kept = record { fat_kept = λ x h. w.fat_kept x h (inl refl); disk_kept = w.disk_kept }

    slot1 : find_slot fs1 dir dir (chain_fuel fs1) ≡ vacant t i
    slot1 =
        ap (λ n. find_slot fs1 dir dir (suc n)) w.shape.total
        ∙ find_slot-Kept fs fs1 kept (chain_fuel fs) dir dir on
        ∙ slot

    missing1 : search_chain fs1 name dir (chain_fuel fs1) ≡ none
    missing1 =
        ap (λ n. search_chain fs1 name dir (suc n)) w.shape.total
        ∙ search_chain-Kept fs fs1 kept name (chain_fuel fs) dir on
        ∙ not_in_dir

    abbrev after : Fs
    after = entered fs1 t i (file_entry stale name size st)

    inserted : Inserted fs1 t i (file_entry stale name size st) after
    inserted = entered-Inserted fs1 t i (file_entry stale name size st) (not_zero t in_chain.0)

    created : count_entry (insert_dir_entry fs1 dir (file_entry stale name size st)) ≡ (true, after)
    unfolding insert_dir_entry insert_at count_entry
    created = rw slot1 refl

    abbrev put : Entry
    put = entry_in after t i

    put_is : put ≡ entry_at (put_entry (fs1.disk t) i (file_entry stale name size st)) i
    put_is = ap (λ d. entry_at d i) inserted.written

    some_sectors : 0 < sectors_needed size
    some_sectors = ground arith

    st_first : st ≡ w.first
    st_first = w.begun refl some_sectors

    flags_are : put.flags ≡ flag_file
    flags_are =
        ap (λ (e : Entry). e.flags) put_is
        ∙ put_flags (fs1.disk t) i (file_entry stale name size st) (omega arith)

    name_is : name_of put ≡ name
    name_is =
        ap name_of put_is
        ∙ put_name (fs1.disk t) i (file_entry stale name size st) stale name refl text short

    put-Named : Named put name
    put-Named =
        ap₂ (λ f n. not (f == flag_empty) && same_name n name) flags_are name_is
        ∙ same_name_self name

    size_is : put.size_bytes ≡ size
    size_is =
        ap (λ (e : Entry). e.size_bytes) put_is
        ∙ put_size (fs1.disk t) i (file_entry stale name size st) (omega arith)

    first-Stored : Stored fs.fat fs1 buf size 0 st (sectors_needed size)
    first-Stored =
        subst (λ s. Stored fs.fat fs1 buf size 0 s (sectors_needed size)) (sym st_first) w.stored

    start_is : put.start_sector ≡ st
    start_is =
        let below =
          Stored-first fs.fat fs1 buf size 0 st (sectors_needed size) some_sectors first-Stored in
        ap (λ (e : Entry). e.start_sector) put_is
        ∙ put_start (fs1.disk t) i (file_entry stale name size st) (omega arith)

    stays : Stored fs.fat after buf size 0 st (sectors_needed size)
    stays =
        Stored-disk fs.fat fs1 after buf size 0 st (sectors_needed size) refl
          (λ x positive was.
            inserted.others x (λ e. in_chain.2 (ap fs.fat (sym e) ∙ was))
              (λ e. absurd (omega arith)))
          first-Stored

    enough : sectors_needed size ≤ chain_fuel after
    enough = omega (
      arith,
      w.spent,
      w.shape.total,
      count_free-le fs.fat (fs.root + 1) (fs.total_sectors - (fs.root + 1)),
    )

    bytes :
        (j : ℕ)
        → j < size
        → read_data after (chain_fuel after) put.start_sector 0 put.size_bytes out j ≡ buf j
    bytes j h =
        let z : size ≡ 0 + size = omega arith in
        ap₂ (λ s n. read_data after (chain_fuel after) s 0 n out j) start_is size_is
        ∙ read_data_lem (sectors_needed size) (chain_fuel after) fs.fat after buf 0 st size out j
            (subst (λ n. Stored fs.fat after buf n 0 st (sectors_needed size)) z stays)
            (ground arith) enough
        ∙ ground arith

    seen_again : find_entry_in after dir name ≡ some (put, t, i)
    unfolding find_entry_in
    seen_again =
        let q : ltb dir 2 ≡ false = ground arith in
        rw q (
          search_chain-Inserted fs1 after t i (file_entry stale name size st) name inserted
            (chain_fuel fs1) dir dir put-Named missing1 slot1)

    reads : Reads after dir name buf size out capacity
    unfolding read_found
    reads = (
      read_data after (chain_fuel after) put.start_sector 0 put.size_bytes out,
      ap (read_found after out capacity) seen_again
          ∙ (let q : ltb capacity put.size_bytes ≡ false = let e = size_is in ground arith in
              rw q refl),
      bytes,
    )

    same_shape : SameShape fs after
    same_shape = record { total = w.shape.total; table = w.shape.table; top = w.shape.top }

  entered-Creates :
      (o : Option ℕ × Fs)
      → Writes fs buf size 0 (sectors_needed size) 0 0 o
      → Creates fs dir name buf size out capacity (enter_file stale dir name size o)
  unfolding Writes Creates enter_file
  entered-Creates (none, fs1) full = full
  entered-Creates (some st, fs1) w =
      subst (Creates fs dir name buf size out capacity) (sym (created st fs1 w))
        (same_shape st fs1 w, reads st fs1 w)

  -- A file is created in a directory. The table has an entry for each sector and stands in front of the
  -- root directory; the directory's chain ends, is taken, lies behind the table and has a free slot; no entry
  -- of it has the name, whose characters, 22 at most, are no terminators; the size is below 2^32 - 511. Then
  -- the creation fails only when no sector is free, and else the file is found in the directory and read,
  -- in a buffer with room, as the bytes that it was created from.
  pub create_in-Creates :
      Creates fs dir name buf size out capacity
        (create_in fs stale buf size dir name (find_entry_in fs dir name))
  unfolding create_in
  create_in-Creates =
      let z : 0 + size ≡ size = omega arith in
      let o = write_data fs buf (sectors_needed size) 0 size 0 0 in
      let writes =
        write_data-Writes (sectors_needed size) fs buf 0 size 0 0 v (λ h. absurd (h refl))
          (ground arith) in
      subst
        (λ f. Creates fs dir name buf size out capacity (create_in fs stale buf size dir name f))
        (sym missing)
        (entered-Creates o (subst (λ n. Writes fs buf n 0 (sectors_needed size) 0 0 o) z writes))
