-- ===== src/KyuzenFs/Format.antt =====
-- kernel/kyuzenfs.c: what a format writes on the disk.
use aetheroz.Prelude.{
  ℕ, zero, suc, ◌+◌, ◌-◌, ◌*◌, ◌/◌, ◌%◌, ◌^◌, ◌≤◌, ◌<◌, ◌≡◌, refl, sym, ap, subst, ◌∙◌, inl, inr,
  arith, ◌==◌, update, update_self, update_ne, Bool-cases,
}
use aetheroz.KyuzenFs.{
  Sector, Fs, word_at, blank, write_sector, fat_bytes, header_bytes, write_header, disk_sectors,
  table_sectors, kzfs, fresh_fat, flush_fat, kfs_format,
}
use aetheroz.KyuzenFs.Sync.{held_bytes}
use aetheroz.KyuzenFs.Mounted.{Mounted, SameHead, SameHead-trans, write_sector-SameHead}

-- The sectors of the table from `i` on are written.
record Flushed (fs : Fs) (i n : ℕ) (fs' : Fs) : Type 0 where
  head : SameHead fs fs'
  same_fat : fs'.fat ≡ fs.fat
  inside : (k : ℕ) → i ≤ k → k < i + n → fs'.disk (1 + k) ≡ fat_bytes fs.fat k
  before : (x : ℕ) → x ≤ i → fs'.disk x ≡ fs.disk x

flush_fat-Flushed : (n : ℕ) (fs : Fs) (i : ℕ) → Flushed fs i n (flush_fat fs i n)
unfolding flush_fat header_bytes
flush_fat-Flushed zero fs i = record {
  head = record {
    shape = record { total = refl; table = refl; top = refl };
    magic = refl;
    files = refl;
    header = refl;
    first = refl;
  };
  same_fat = refl;
  inside = λ k lo hi. absurd (omega arith);
  before = λ x h. refl;
}
flush_fat-Flushed (suc n) fs i =
    let b = fat_bytes fs.fat i in
    let one = write_sector fs (1 + i) b in
    let rest = flush_fat-Flushed n one (suc i) in
    record {
      head = SameHead-trans fs one _ (write_sector-SameHead fs (1 + i) b (omega arith)) rest.head;
      same_fat = rest.same_fat;
      inside = λ k lo hi. elim (Bool-cases (k == i)) [
        | inl e ↦
            let here : i ≡ k = ground arith in
            rest.before (1 + k) (ground arith)
            ∙ subst (λ x. update fs.disk (1 + i) b (1 + x) ≡ fat_bytes fs.fat x) here
                (update_self fs.disk (1 + i) b)
        | inr e ↦ rest.inside k (ground arith) (omega arith)
      ];
      before = λ x h. rest.before x (omega arith) ∙ update_ne fs.disk (1 + i) b (omega arith);
    }

module _ (fs : Fs) (reported : ℕ) (fits : disk_sectors reported < 2 ^ 30 - 128) where
  abbrev total : ℕ
  total = disk_sectors reported

  abbrev sectors : ℕ
  sectors = table_sectors total

  sectors_lem : (total ≤ sectors * 128) × (0 < sectors) × (sectors < 2 ^ 30)
  sectors_lem = (ground arith, ground arith, ground arith)

  -- After a format the header and the whole table are on the disk, whatever it and the memory held. The
  -- disk has less than 2^30 - 128 sectors.
  pub kfs_format-Mounted : Mounted reported (kfs_format fs reported)
  unfolding kfs_format header_bytes
  kfs_format-Mounted =
      let (enough, some_sectors, few) = sectors_lem in
      let fresh = record fs {
        fat = fresh_fat fs.fat total sectors;
        total_sectors = total;
        fat_sectors = sectors;
        magic = kzfs;
        root = (1 + sectors) % 2 ^ 32;
        total_files = 0;
      } in
      let f = flush_fat-Flushed sectors (write_header fresh) 0 in
      let flushed = flush_fat (write_header fresh) 0 sectors in
      let last = write_sector-SameHead flushed (1 + sectors) blank (omega arith) in
      let word : (x : ℕ) → x < total → fresh_fat fs.fat total sectors x < 2 ^ 32 =
        λ x h. ground arith in
      record {
        counts = f.head.shape.total;
        table = f.head.shape.table;
        shape = record {
          root_eq = omega (arith, f.head.shape.top, f.head.shape.table, few);
          table_fits = omega (arith, f.head.shape.total, f.head.shape.table, enough);
          marks = omega (arith, f.head.shape.total);
        };
        k = ap (λ (m : ℕ → ℕ). m 0) f.head.magic;
        z = ap (λ (m : ℕ → ℕ). m 1) f.head.magic;
        root_word = omega (arith, f.head.shape.top);
        files_word = omega (arith, f.head.files);
        header =
            last.first
            ∙ f.head.first
            ∙ update_self fs.disk 0 (header_bytes fresh)
            ∙ sym f.head.header;
        holds = λ x below u.
            let low = subst (λ n. x < n) f.head.shape.total below in
            let w = word x low in
            let same = ap (λ (t : ℕ → ℕ). t x) f.same_fat in
            (
              omega (arith, w, same),
              ap (λ (d : Sector). word_at d (x % 128 * 4))
                    (update_ne flushed.disk (1 + sectors) blank (omega arith)
                      ∙ f.inside (x / 128) (omega arith) (omega arith))
                  ∙ held_bytes fresh.fat x w
                  ∙ sym same,
            );
      }
