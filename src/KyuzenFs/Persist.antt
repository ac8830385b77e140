-- ===== src/KyuzenFs/Persist.antt =====
-- The operations that change the disk keep its header and its table those in memory.
use aetheroz.Prelude.{
  ℕ, zero, suc, ◌+◌, ◌-◌, ◌*◌, ◌%◌, ◌^◌, ◌<◌, ◌≡◌, refl, sym, ap, subst, ◌∙◌, inl, inr, Bool, true,
  false, Option, none, some, List, arith, ◌==◌, if◌then◌else◌, update, Bool-cases, ==→ne,
}
use aetheroz.KyuzenFs.{Fs, fat_free, blank, write_sector, set_fat, kfs_sync_fat, find_free_sector}
use aetheroz.KyuzenFs.Directory.{
  Entry, Found, flag_empty, flag_folder, is_end, chain_fuel, extend_chain, Slot, vacant, full_after,
  find_slot, insert_at, insert_dir_entry, put_entry, find_entry_in,
}
use aetheroz.KyuzenFs.Files.{
  take_sector, data_sector, chunk_of, write_data, count_entry, enter_file, create_in, free_chain,
  erase_entry, delete_found, sectors_needed,
}
use aetheroz.KyuzenFs.Alloc.{find_free_sector_lem}
use aetheroz.KyuzenFs.Data.{Writes}
use aetheroz.KyuzenFs.Transfer.{write_data-Writes}
use aetheroz.KyuzenFs.Kept.{Kept, OnTable, find_slot-Kept, find_slot-OnTable, find_entry_in-OnTable}
use aetheroz.KyuzenFs.Mounted.{
  Mounted, take_sector-SameHead, extend_chain-SameHead, sync_one-Mounted, take_sector-Mounted,
  extend_chain-Mounted, write_sector-Mounted, write_header-Mounted,
}

module _ (r : ℕ) where
  -- The number of a free sector.
  free_word :
      (fs : Fs)
      → Mounted r fs
      → (find_free_sector fs == 0) ≡ false
      → (find_free_sector fs < 2 ^ 32) × (fs.fat_sectors < find_free_sector fs)
  free_word fs m e =
      let (lo, hi, z) = find_free_sector_lem fs (==→ne _ _ e) in
      (omega (arith, m.shape.marks), omega (arith, m.shape.root_eq))

  pub write_data-Mounted :
      (n : ℕ) (fs : Fs) (buf : ℕ → ℕ) (offset remaining start prev : ℕ)
      → Mounted r fs
      → Mounted r ((write_data fs buf n offset remaining start prev).1)
  unfolding write_data
  write_data-Mounted zero fs buf offset remaining start prev m = m
  write_data-Mounted (suc n) fs buf offset remaining start prev m =
      let s = find_free_sector fs in
      elim (Bool-cases (s == 0)) [
        | inl e ↦ rw e m
        | inr e ↦
            let (small, behind) = free_word fs m e in
            let taken = take_sector fs start prev s in
            let b = data_sector buf offset (chunk_of remaining) in
            let below =
              subst (λ k. k < s) (sym (take_sector-SameHead fs start prev s).shape.table) behind in
            rw e (
              write_data-Mounted n (write_sector taken s b) buf (offset + chunk_of remaining)
                (remaining - chunk_of remaining) (if start == 0 then s else start) s
                (write_sector-Mounted r taken s b below
                  (take_sector-Mounted r fs start prev s small m)))
      ]

  -- An entry in a slot behind the table, or in a new sector.
  pub insert_at-Mounted :
      (fs : Fs) (e : Entry) (slot : Slot)
      → ((t i : ℕ) → slot ≡ vacant t i → fs.fat_sectors < t)
      → Mounted r fs
      → Mounted r ((insert_at fs e slot).1)
  unfolding insert_at
  insert_at-Mounted fs e (vacant t i) behind m =
      write_sector-Mounted r fs t (put_entry (fs.disk t) i e) (behind t i refl) m
  insert_at-Mounted fs e (full_after last) behind m =
      let s = find_free_sector fs in
      elim (Bool-cases (s == 0)) [
        | inl q ↦ rw q m
        | inr q ↦
            let (small, past) = free_word fs m q in
            let below =
              subst (λ k. k < s) (sym (extend_chain-SameHead fs last s).shape.table) past in
            rw q (
              write_sector-Mounted r (extend_chain fs last s) s (put_entry blank 0 e) below
                (extend_chain-Mounted r fs last s small m))
      ]

  pub count_entry-Mounted : (o : Bool × Fs) → Mounted r o.1 → Mounted r ((count_entry o).1)
  unfolding count_entry
  count_entry-Mounted (false, fs) m = m
  count_entry-Mounted (true, fs) m =
      write_header-Mounted r fs ((fs.total_files + 1) % 2 ^ 32) (omega arith) m

  pub free_chain-Mounted :
      (fuel : ℕ) (fs : Fs) (s : ℕ) → Mounted r fs → Mounted r (free_chain fs s fuel)
  unfolding free_chain
  free_chain-Mounted zero fs s m = m
  free_chain-Mounted (suc fuel) fs s m = elim (Bool-cases (is_end s)) [
    | inl e ↦ rw e m
    | inr e ↦ rw e (
        free_chain-Mounted fuel (kfs_sync_fat (set_fat fs s fat_free) s) (fs.fat s)
          (sync_one-Mounted r fs s fat_free (omega arith) m))
  ]

  erase_entry-Mounted :
      (fs : Fs) (t i : ℕ) → fs.fat_sectors < t → Mounted r fs → Mounted r (erase_entry fs t i)
  unfolding erase_entry
  erase_entry-Mounted fs t i h m =
      let b = update (fs.disk t) (32 * i + 23) flag_empty in
      write_header-Mounted r (write_sector fs t b) ((fs.total_files + 2 ^ 32 - 1) % 2 ^ 32)
        (omega arith) (write_sector-Mounted r fs t b h m)

-- The operations by their paths, where the chain of the directory is taken and lies behind the table.
module _ (r : ℕ) (fs : Fs) (dir : ℕ) (m : Mounted r fs) (on : OnTable fs (chain_fuel fs) dir) where
  pub insert_dir_entry-Mounted :
      (fs1 : Fs) (e : Entry)
      → Kept fs fs1
      → fs1.total_sectors ≡ fs.total_sectors
      → fs1.fat_sectors ≡ fs.fat_sectors
      → Mounted r fs1
      → Mounted r ((insert_dir_entry fs1 dir e).1)
  unfolding insert_dir_entry
  insert_dir_entry-Mounted fs1 e kept total table m1 =
      insert_at-Mounted r fs1 e (find_slot fs1 dir dir (chain_fuel fs1))
        (λ t i q.
          let slot =
            sym (find_slot-Kept fs fs1 kept (chain_fuel fs) dir dir on)
            ∙ sym (ap (λ n. find_slot fs1 dir dir (suc n)) total)
            ∙ q in
          subst (λ k. k < t) (sym table)
            (find_slot-OnTable fs t i (chain_fuel fs) dir dir on slot).1)
        m1

  entered-Mounted :
      (stale buf : ℕ → ℕ) (size : ℕ) (name : List ℕ) (o : Option ℕ × Fs)
      → Writes fs buf size 0 (sectors_needed size) 0 0 o
      → Mounted r (o.1)
      → Mounted r ((enter_file stale dir name size o).1)
  unfolding Writes enter_file
  entered-Mounted stale buf size name (none, fs1) w m1 = m1
  entered-Mounted stale buf size name (some st, fs1) w m1 = count_entry-Mounted r _ (
      insert_dir_entry-Mounted fs1 _
        (record { fat_kept = λ x h. w.fat_kept x h (inl refl); disk_kept = w.disk_kept })
        w.shape.total w.shape.table m1)

  pub create_in-Mounted :
      (stale buf : ℕ → ℕ) (size : ℕ) (name : List ℕ) (f : Option Found)
      → size < 2 ^ 32 - 511
      → Mounted r ((create_in fs stale buf size dir name f).1)
  unfolding create_in
  create_in-Mounted stale buf size name (some found) small = m
  create_in-Mounted stale buf size name none small =
      let z : 0 + size ≡ size = omega arith in
      let o = write_data fs buf (sectors_needed size) 0 size 0 0 in
      let w =
        write_data-Writes (sectors_needed size) fs buf 0 size 0 0 m.shape (λ h. absurd (h refl))
          (ground arith) in
      entered-Mounted stale buf size name o
        (subst (λ n. Writes fs buf n 0 (sectors_needed size) 0 0 o) z w)
        (write_data-Mounted r (sectors_needed size) fs buf 0 size 0 0 m)

  delete_found-Mounted :
      (f : Option Found)
      → ((e : Entry) (t i : ℕ) → f ≡ some (e, t, i) → fs.fat_sectors < t)
      → Mounted r (delete_found fs f)
  unfolding delete_found
  delete_found-Mounted none behind = m
  delete_found-Mounted (some (e, t, i)) behind = elim (Bool-cases (e.flags == flag_folder)) [
    | inl q ↦ rw q m
    | inr q ↦
        let freed = free_chain fs e.start_sector (chain_fuel fs) in
        let mf = free_chain-Mounted r (chain_fuel fs) fs e.start_sector m in
        rw q (
          erase_entry-Mounted r freed t i
            (subst (λ k. k < t) (m.table ∙ sym mf.table) (behind e t i refl)) mf)
  ]

  pub delete_in-Mounted : (name : List ℕ) → Mounted r (delete_found fs (find_entry_in fs dir name))
  delete_in-Mounted name =
      delete_found-Mounted (find_entry_in fs dir name)
        (λ e t i q. find_entry_in-OnTable fs name e t i dir on q)
