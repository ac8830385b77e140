-- ===== src/KyuzenFs/Sync.antt =====
-- Which entries of the table the disk holds as the memory does.
use aetheroz.Prelude.{
  ℕ, ◌+◌, ◌*◌, ◌/◌, ◌%◌, ◌^◌, ◌<◌, ◌≡◌, ◌≢◌, refl, sym, ap, ap₂, subst, ◌∙◌, ◌⊎◌, inl, inr, arith,
  leb, ◌==◌, update, update_self, update_ne, Bool-cases, ==→eq, ==→ne,
}
use aetheroz.KyuzenFs.{
  Sector, Fs, fat_eof, byte_of, word_at, write_sector, set_fat, fat_bytes, kfs_sync_fat,
}
use aetheroz.KyuzenFs.Directory.{extend_chain}
use aetheroz.KyuzenFs.Files.{take_sector}
use aetheroz.KyuzenFs.Alloc.{IsFs, kfs_sync_fat-Synced}

-- The entry that a sector of the table holds for `x`.
abbrev pub held : Fs → ℕ → ℕ
held fs x = word_at (fs.disk (1 + x / 128)) (x % 128 * 4)

-- The entries with the property are words, and the disk holds them.
abbrev pub Holds : Fs → (ℕ → Type 0) → Type 0
Holds fs P = (x : ℕ) → x < fs.total_sectors → P x → (fs.fat x < 2 ^ 32) × (held fs x ≡ fs.fat x)

-- Every entry.
abbrev pub All : ℕ → Type 0
All x = ◌≡◌ {A = ℕ} 0 0

-- The four bytes of a word.
pub four_bytes :
    (w : ℕ)
    → w < 2 ^ 32
    → w % 256 + 256 * (w / 256 % 256) + 65536 * (w / 65536 % 256) + 16777216 * (w / 16777216 % 256)
      ≡ w
four_bytes w h = omega arith

fat_byte :
    (fat : ℕ → ℕ) (x j : ℕ) → j < 4 → fat_bytes fat (x / 128) (x % 128 * 4 + j) ≡ byte_of (fat x) j
unfolding fat_bytes
fat_byte fat x j h =
    let same : x / 128 * 128 + (x % 128 * 4 + j) / 4 ≡ x = omega arith in
    let low : (x % 128 * 4 + j) % 4 ≡ j = omega arith in ap₂ (λ a b. byte_of (fat a) b) same low

-- A sector of the table, written from memory, holds its entries.
pub held_bytes :
    (fat : ℕ → ℕ) (x : ℕ) → fat x < 2 ^ 32 → word_at (fat_bytes fat (x / 128)) (x % 128 * 4) ≡ fat x
held_bytes fat x h =
    let z : x % 128 * 4 + 0 ≡ x % 128 * 4 = omega arith in
    let zero_byte =
      subst (λ k. fat_bytes fat (x / 128) k ≡ fat x % 256) z (fat_byte fat x 0 (omega arith)) in
    omega (
      arith,
      zero_byte,
      fat_byte fat x 1 (omega arith),
      fat_byte fat x 2 (omega arith),
      fat_byte fat x 3 (omega arith),
      four_bytes (fat x) h,
    )

pub set_fat-Holds :
    (fs : Fs) (s w : ℕ) (P : ℕ → Type 0) → Holds fs P → Holds (set_fat fs s w) (λ x. P x × (x ≢ s))
set_fat-Holds fs s w P h x below (p, apart) =
    let same = update_ne fs.fat s w (λ e. apart (sym e)) in
    let (word, here) = h x below p in (omega (arith, word, same), here ∙ sym same)

-- A word may be written: only what is on the disk has to follow.
pub kfs_sync_fat-Holds :
    (fs : Fs) (i : ℕ) (P Q : ℕ → Type 0)
    → fs.fat i < 2 ^ 32
    → Holds fs P
    → ((x : ℕ) → Q x → P x ⊎ (x ≡ i))
    → Holds (kfs_sync_fat fs i) Q
unfolding kfs_sync_fat
kfs_sync_fat-Holds fs i P Q small h cover =
    let word : (x : ℕ) → x < fs.total_sectors → P x ⊎ (x ≡ i) → fs.fat x < 2 ^ 32 = λ x below c.
      elim c [ inl p ↦ (h x below p).0 | inr e ↦ subst (λ y. fs.fat y < 2 ^ 32) (sym e) small ] in
    elim (Bool-cases (leb fs.total_sectors i)) [
      | inl e ↦
          rw e (λ x below q. elim (cover x q) [
            | inl p ↦ h x below p
            | inr here ↦ absurd (ground arith)
          ])
      | inr e ↦
          let b = fat_bytes fs.fat (i / 128) in
          rw e (λ x below q. elim (Bool-cases (x / 128 == i / 128)) [
            | inl same ↦
                let w = word x below (cover x q) in
                let here : 1 + i / 128 ≡ 1 + x / 128 = ground arith in
                (
                  w,
                  ap (λ (d : Sector). word_at d (x % 128 * 4))
                        (subst (λ k. update fs.disk (1 + i / 128) b k ≡ b) here
                            (update_self fs.disk (1 + i / 128) b)
                          ∙ ap (fat_bytes fs.fat) (sym (==→eq _ _ same)))
                      ∙ held_bytes fs.fat x w,
                )
            | inr other ↦ elim (cover x q) [
              | inl p ↦
                  let (w, here) = h x below p in
                  (
                    w,
                    ap (λ (d : Sector). word_at d (x % 128 * 4))
                          (update_ne fs.disk (1 + i / 128) b (ground arith))
                        ∙ here,
                  )
              | inr here ↦ absurd (ground arith)
            ]
          ])
    ]

-- A sector outside the table may be written.
pub write_sector-Holds :
    (fs : Fs) (t : ℕ) (b : Sector) (P : ℕ → Type 0)
    → IsFs fs
    → (t ≡ 0) ⊎ (fs.fat_sectors < t)
    → Holds fs P
    → Holds (write_sector fs t b) P
write_sector-Holds fs t b P v out h x below p =
    let (w, here) = h x below p in
    let apart : t ≢ 1 + x / 128 = elim out [
      | inl e ↦ omega arith
      | inr l ↦ omega (arith, v.table_fits)
    ] in
    (w, ap (λ (d : Sector). word_at d (x % 128 * 4)) (update_ne fs.disk t b apart) ∙ here)

same_or : (x y : ℕ) → (x ≢ y) ⊎ (x ≡ y)
same_or x y = elim (Bool-cases (x == y)) [ inl e ↦ inr (==→eq _ _ e) | inr e ↦ inl (==→ne _ _ e) ]

update_word : (fat : ℕ → ℕ) (i w x : ℕ) → fat x < 2 ^ 32 → w < 2 ^ 32 → update fat i w x < 2 ^ 32
update_word fat i w x h small = elim (same_or i x) [
  | inl p ↦ omega (arith, update_ne fat i w p)
  | inr p ↦ subst (λ k. update fat i w k < 2 ^ 32) p (omega (arith, update_self fat i w))
]

-- Two entries that are not on the disk are written one after the other.
sync_two-Holds :
    (fs : Fs) (a b : ℕ)
    → IsFs fs
    → fs.fat a < 2 ^ 32
    → fs.fat b < 2 ^ 32
    → Holds fs (λ x. (x ≢ a) × (x ≢ b))
    → Holds (kfs_sync_fat (kfs_sync_fat fs a) b) All
sync_two-Holds fs a b v small_a small_b h =
    kfs_sync_fat-Holds (kfs_sync_fat fs a) b (λ x. x ≢ b) All
      (subst (λ f. f b < 2 ^ 32) (sym (kfs_sync_fat-Synced fs a v).same_fat) small_b)
      (kfs_sync_fat-Holds fs a (λ x. (x ≢ a) × (x ≢ b)) (λ x. x ≢ b) small_a h
        (λ x q. elim (same_or x a) [ inl p ↦ inl (p, q) | inr p ↦ inr p ]))
      (λ x q. same_or x b)

-- One entry is set and written.
pub sync_one-Holds :
    (fs : Fs) (s w : ℕ) → w < 2 ^ 32 → Holds fs All → Holds (kfs_sync_fat (set_fat fs s w) s) All
sync_one-Holds fs s w small h =
    kfs_sync_fat-Holds (set_fat fs s w) s (λ x. All x × (x ≢ s)) All
      (omega (arith, update_self fs.fat s w)) (set_fat-Holds fs s w All h)
      (λ x q. elim (same_or x s) [ inl p ↦ inl (refl, p) | inr p ↦ inr p ])

module _ (fs : Fs) (v : IsFs fs) (h : Holds fs All) where
  pub take_sector-Holds : (start prev s : ℕ) → s < 2 ^ 32 → Holds (take_sector fs start prev s) All
  unfolding take_sector
  take_sector-Holds start prev s small =
      let taken = set_fat fs s fat_eof in
      let joined = set_fat taken prev s in
      elim (Bool-cases (start == 0)) [
        | inl e ↦ rw e (sync_one-Holds fs s fat_eof (omega arith) h)
        | inr e ↦ rw e (
            sync_two-Holds joined prev s
              (record { root_eq = v.root_eq; table_fits = v.table_fits; marks = v.marks })
              (omega (arith, update_self taken.fat prev s))
              (update_word taken.fat prev s s (omega (arith, update_self fs.fat s fat_eof)) small)
              (λ x below q.
                set_fat-Holds taken prev s (λ x. All x × (x ≢ s)) (set_fat-Holds fs s fat_eof All h)
                  x below ((refl, q.1), q.0)))
      ]

  pub extend_chain-Holds : (last s : ℕ) → s < 2 ^ 32 → Holds (extend_chain fs last s) All
  unfolding extend_chain
  extend_chain-Holds last s small =
      let linked = set_fat fs last s in
      let joined = set_fat linked s fat_eof in
      sync_two-Holds joined last s
        (record { root_eq = v.root_eq; table_fits = v.table_fits; marks = v.marks })
        (update_word linked.fat s fat_eof last (omega (arith, update_self fs.fat last s))
          (omega arith))
        (omega (arith, update_self linked.fat s fat_eof))
        (λ x below q.
          set_fat-Holds linked s fat_eof (λ x. All x × (x ≢ last)) (set_fat-Holds fs last s All h) x
            below ((refl, q.0), q.1))
