-- ===== src/KyuzenFs/Alloc.antt =====
-- What the allocation of one sector changes.
use aetheroz.Prelude.{
  ℕ, zero, suc, ◌+◌, ◌-◌, ◌*◌, ◌/◌, ◌≤◌, ◌<◌, ◌≡◌, ◌≢◌, refl, ap, ◌∙◌, inl, inr, true, false, arith,
  leb, ◌==◌, if◌then◌else◌, update, update_ne, Bool-cases, ==→eq, ==→ne,
}
use aetheroz.KyuzenFs.{
  Fs, fat_eof, set_fat, fat_bytes, kfs_sync_fat, free_from, find_free_sector, count_free,
}
use aetheroz.KyuzenFs.Files.{take_sector}

-- The table has an entry for each sector, stands in front of the root directory, and no sector has the
-- number of the end mark.
pub record IsFs (fs : Fs) : Type 0 where
  pub root_eq : fs.root ≡ 1 + fs.fat_sectors
  pub table_fits : fs.total_sectors ≤ fs.fat_sectors * 128
  pub marks : fs.total_sectors ≤ fat_eof

-- The counts and the root are the same.
pub record SameShape (a b : Fs) : Type 0 where
  pub total : b.total_sectors ≡ a.total_sectors
  pub table : b.fat_sectors ≡ a.fat_sectors
  pub top : b.root ≡ a.root

pub SameShape-self : (a : Fs) → SameShape a a
SameShape-self a = record { total = refl; table = refl; top = refl }

pub SameShape-trans : (a b c : Fs) → SameShape a b → SameShape b c → SameShape a c
SameShape-trans a b c h k = record {
  total = k.total ∙ h.total;
  table = k.table ∙ h.table;
  top = k.top ∙ h.top;
}

pub IsFs-SameShape : (a b : Fs) → SameShape a b → IsFs a → IsFs b
IsFs-SameShape a b h v = record {
  root_eq = omega (arith, h.top, h.table, v.root_eq);
  table_fits = omega (arith, h.total, h.table, v.table_fits);
  marks = omega (arith, h.total, v.marks);
}

free_from_lem :
    (fat : ℕ → ℕ) (i n : ℕ)
    → free_from fat i n ≢ 0
    → (i ≤ free_from fat i n) × (free_from fat i n < i + n) × (fat (free_from fat i n) ≡ 0)
unfolding free_from
free_from_lem fat i zero h = absurd (h refl)
free_from_lem fat i (suc n) h = elim (Bool-cases (fat i == 0)) [
  | inl e ↦ rw e (omega arith, omega arith, ==→eq _ _ e)
  | inr e ↦
      let (lo, hi, z) = free_from_lem fat (suc i) n (rw e at h) in
      rw e (omega arith, omega arith, z)
]

-- A sector that `find_free_sector` gives lies behind the root directory and is free.
pub find_free_sector_lem :
    (fs : Fs)
    → find_free_sector fs ≢ 0
    → (fs.root < find_free_sector fs)
      × (find_free_sector fs < fs.total_sectors)
      × (fs.fat (find_free_sector fs) ≡ 0)
unfolding find_free_sector
find_free_sector_lem fs h =
    let (lo, hi, z) = free_from_lem fs.fat (fs.root + 1) (fs.total_sectors - (fs.root + 1)) h in
    (omega arith, omega arith, z)

-- A write of the table leaves the table in memory and the sectors behind it.
pub record Synced (a b : Fs) : Type 0 where
  pub shape : SameShape a b
  pub same_fat : b.fat ≡ a.fat
  pub behind : (x : ℕ) → a.fat_sectors < x → b.disk x ≡ a.disk x

pub Synced-trans : (a b c : Fs) → Synced a b → Synced b c → Synced a c
Synced-trans a b c h k = record {
  shape = SameShape-trans a b c h.shape k.shape;
  same_fat = k.same_fat ∙ h.same_fat;
  behind = λ x l. k.behind x (omega (arith, h.shape.table)) ∙ h.behind x l;
}

pub kfs_sync_fat-Synced : (fs : Fs) (i : ℕ) → IsFs fs → Synced fs (kfs_sync_fat fs i)
unfolding kfs_sync_fat
kfs_sync_fat-Synced fs i v = elim (Bool-cases (leb fs.total_sectors i)) [
  | inl e ↦ rw e (record { shape = SameShape-self fs; same_fat = refl; behind = λ x l. refl })
  | inr e ↦ rw e (record {
    shape = record { total = refl; table = refl; top = refl };
    same_fat = refl;
    behind = λ x l.
        let below : i < fs.total_sectors = ground arith in
        let inside : i / 128 < fs.fat_sectors = omega (arith, v.table_fits) in
        update_ne fs.disk (1 + i / 128) (fat_bytes fs.fat (i / 128)) (omega arith);
  })
]

-- The table after the link.
abbrev pub linked_fat : Fs → ℕ → ℕ → ℕ → ℕ → ℕ
linked_fat fs start prev s =
    if start == 0 then update fs.fat s fat_eof else update (update fs.fat s fat_eof) prev s

-- `take_sector` links the sector and touches nothing behind the table.
pub record Takes (fs : Fs) (start prev s : ℕ) (fs' : Fs) : Type 0 where
  pub shape : SameShape fs fs'
  pub fat_eq : fs'.fat ≡ linked_fat fs start prev s
  pub behind : (x : ℕ) → fs.fat_sectors < x → fs'.disk x ≡ fs.disk x

pub take_sector-Takes :
    (fs : Fs) (start prev s : ℕ) → IsFs fs → Takes fs start prev s (take_sector fs start prev s)
unfolding take_sector
take_sector-Takes fs start prev s v =
    let taken = set_fat fs s fat_eof in
    let vt : IsFs taken = record {
      root_eq = v.root_eq;
      table_fits = v.table_fits;
      marks = v.marks;
    } in
    elim (Bool-cases (start == 0)) [
      | inl e ↦
          let k = kfs_sync_fat-Synced taken s vt in
          rw e (record {
            shape = record { total = k.shape.total; table = k.shape.table; top = k.shape.top };
            fat_eq = k.same_fat ∙ (rw e refl);
            behind = k.behind;
          })
      | inr e ↦
          let joined = set_fat taken prev s in
          let vj : IsFs joined = record {
            root_eq = v.root_eq;
            table_fits = v.table_fits;
            marks = v.marks;
          } in
          let h = kfs_sync_fat-Synced joined prev vj in
          let k =
            kfs_sync_fat-Synced (kfs_sync_fat joined prev) s (IsFs-SameShape joined _ h.shape vj) in
          let t = Synced-trans joined _ _ h k in
          rw e (record {
            shape = record { total = t.shape.total; table = t.shape.table; top = t.shape.top };
            fat_eq = t.same_fat ∙ (rw e refl);
            behind = t.behind;
          })
    ]

count_free_same :
    (f g : ℕ → ℕ) (i n : ℕ)
    → ((x : ℕ) → i ≤ x → (g x == 0) ≡ (f x == 0))
    → count_free g i n ≡ count_free f i n
unfolding count_free
count_free_same f g i zero same = refl
count_free_same f g i (suc n) same =
    let rest = count_free_same f g (suc i) n (λ x l. same x (omega arith)) in
    rw (same i (omega arith)) (omega (arith, rest))

-- One sector less is free.
pub count_free_one :
    (f g : ℕ → ℕ) (s i n : ℕ)
    → f s ≡ 0
    → g s ≢ 0
    → ((x : ℕ) → x ≢ s → (g x == 0) ≡ (f x == 0))
    → i ≤ s
    → s < i + n
    → count_free g i n + 1 ≡ count_free f i n
unfolding count_free
count_free_one f g s i zero z w same lo hi = absurd (omega arith)
count_free_one f g s i (suc n) z w same lo hi = elim (Bool-cases (i == s)) [
  | inl e ↦
      let here = ==→eq _ _ e in
      let rest = count_free_same f g (suc i) n (λ x l. same x (omega arith)) in
      let zf : (f i == 0) ≡ true = let q = ap f here in ground arith in
      let wg : (g i == 0) ≡ false = let q = ap g here in ground arith in
      rw (zf, wg) (omega (arith, rest))
  | inr e ↦
      let rest = count_free_one f g s (suc i) n z w same (ground arith) (omega arith) in
      rw (same i (==→ne _ _ e)) (omega (arith, rest))
]
