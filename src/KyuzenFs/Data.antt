-- ===== src/KyuzenFs/Data.antt =====
-- The data of a file: the chain that `write_data` builds, and what `read_data` reads along it.
use aetheroz.Prelude.{
  ℕ, zero, suc, ◌+◌, ◌-◌, ◌<◌, ◌≡◌, ◌≢◌, refl, sym, ap, ap₂, ◌∙◌, ◌⊎◌, inl, inr, true, false,
  Option, none, some, arith, ◌==◌, update, update_self, update_ne, Bool-cases, ==→eq, ==→ne,
}
use aetheroz.KyuzenFs.{Fs, fat_eof, write_sector, find_free_sector, count_free}
use aetheroz.KyuzenFs.Directory.{is_end}
use aetheroz.KyuzenFs.Files.{take_sector, data_sector}
use aetheroz.KyuzenFs.Alloc.{IsFs, SameShape, linked_fat, take_sector-Takes, count_free_one}

-- A chain of exactly `n` sectors from `s` on that holds the bytes of a buffer from an offset on, on
-- sectors that were free in the table `old`.
unfoldable pub Stored : (ℕ → ℕ) → Fs → (ℕ → ℕ) → ℕ → ℕ → ℕ → ℕ → Type 0
Stored old fs buf size offset s zero = s ≡ fat_eof
Stored old fs buf size offset s (suc n) =
    (0 < s)
    × (s < fat_eof)
    × (old s ≡ 0)
    × ((j : ℕ) → j < 512 → offset + j < size → fs.disk s j ≡ buf (offset + j))
    × Stored old fs buf size (offset + 512) (fs.fat s) n

pub no_end : (s : ℕ) → 0 < s → s < fat_eof → is_end s ≡ false
no_end s h k = ground arith

-- The free sectors of a disk.
abbrev pub free_sectors : Fs → ℕ
free_sectors fs = count_free fs.fat (fs.root + 1) (fs.total_sectors - (fs.root + 1))

-- The disk after `n` sectors went into the chain of a file.
pub record Written (fs : Fs) (buf : ℕ → ℕ) (size offset n start prev st : ℕ) (fs' : Fs)
    : Type 0 where
  pub shape : SameShape fs fs'
  pub fat_kept : (x : ℕ) → fs.fat x ≢ 0 → (start ≡ 0) ⊎ (x ≢ prev) → fs'.fat x ≡ fs.fat x
  pub disk_kept : (x : ℕ) → fs.fat_sectors < x → fs.fat x ≢ 0 → fs'.disk x ≡ fs.disk x
  pub first : ℕ
  pub stored : Stored fs.fat fs' buf size offset first n
  pub linked : start ≢ 0 → (st ≡ start) × (fs'.fat prev ≡ first)
  pub begun : start ≡ 0 → 0 < n → st ≡ first
  pub spent : free_sectors fs' + n ≡ free_sectors fs

-- A full disk has no result.
unfoldable pub Writes : Fs → (ℕ → ℕ) → ℕ → ℕ → ℕ → ℕ → ℕ → Option ℕ × Fs → Type 0
Writes fs buf size offset n start prev (none, fs') = find_free_sector fs' ≡ 0
Writes fs buf size offset n start prev (some st, fs') =
    Written fs buf size offset n start prev st fs'

-- One round of the loop.
pub record Round (fs : Fs) (buf : ℕ → ℕ) (offset chunk start prev s : ℕ) (fs1 : Fs) : Type 0 where
  pub shape : SameShape fs fs1
  pub here : fs1.fat s ≡ fat_eof
  pub data_here : fs1.disk s ≡ data_sector buf offset chunk
  pub fat_other : (x : ℕ) → x ≢ s → (start ≡ 0) ⊎ (x ≢ prev) → fs1.fat x ≡ fs.fat x
  pub fat_prev : start ≢ 0 → fs1.fat prev ≡ s
  pub disk_other : (x : ℕ) → fs.fat_sectors < x → x ≢ s → fs1.disk x ≡ fs.disk x
  pub spent : free_sectors fs1 + 1 ≡ free_sectors fs

pub nonzero : (k : ℕ) → 0 < k → (k == 0) ≡ false
nonzero k h = ground arith

module _ (fs : Fs) (buf : ℕ → ℕ) (offset chunk start prev s : ℕ) (v : IsFs fs)
    (behind : fs.root < s) (below : s < fs.total_sectors) (empty : fs.fat s ≡ 0)
    (last : start ≢ 0 → fs.fat prev ≡ fat_eof) where
  at_start : (x : ℕ) → start ≡ 0 → linked_fat fs start prev s x ≡ update fs.fat s fat_eof x
  at_start x e = let q : (start == 0) ≡ true = ground arith in rw q refl

  at_later :
      (x : ℕ) → start ≢ 0 → linked_fat fs start prev s x ≡ update (update fs.fat s fat_eof) prev s x
  at_later x e = let q : (start == 0) ≡ false = ground arith in rw q refl

  prev_apart : start ≢ 0 → prev ≢ s
  prev_apart h e = let q = ap fs.fat e in absurd (omega (arith, last h))

  start_cases : (start ≡ 0) ⊎ (start ≢ 0)
  start_cases = elim (Bool-cases (start == 0)) [
    | inl e ↦ inl (==→eq _ _ e)
    | inr e ↦ inr (==→ne _ _ e)
  ]

  linked_here : linked_fat fs start prev s s ≡ fat_eof
  linked_here = elim start_cases [
    | inl e ↦ at_start s e ∙ update_self fs.fat s fat_eof
    | inr h ↦
        at_later s h
        ∙ update_ne (update fs.fat s fat_eof) prev s (prev_apart h)
        ∙ update_self fs.fat s fat_eof
  ]

  linked_other :
      (x : ℕ) → x ≢ s → (start ≡ 0) ⊎ (x ≢ prev) → linked_fat fs start prev s x ≡ fs.fat x
  linked_other x ne other = elim start_cases [
    | inl e ↦ at_start x e ∙ update_ne fs.fat s fat_eof (λ q. ne (sym q))
    | inr h ↦ elim other [
      | inl e ↦ absurd (h e)
      | inr apart ↦
          at_later x h
          ∙ update_ne (update fs.fat s fat_eof) prev s (λ q. apart (sym q))
          ∙ update_ne fs.fat s fat_eof (λ q. ne (sym q))
    ]
  ]

  linked_zero : (x : ℕ) → x ≢ s → (linked_fat fs start prev s x == 0) ≡ (fs.fat x == 0)
  linked_zero x ne = elim start_cases [
    | inl e ↦ ap (λ k. k == 0) (linked_other x ne (inl e))
    | inr h ↦ elim (Bool-cases (x == prev)) [
      | inr apart ↦ ap (λ k. k == 0) (linked_other x ne (inr (==→ne _ _ apart)))
      | inl same ↦
          let was = ap fs.fat (==→eq _ _ same) ∙ last h in
          let now =
            ap (linked_fat fs start prev s) (==→eq _ _ same)
            ∙ at_later prev h
            ∙ update_self (update fs.fat s fat_eof) prev s in
          ap (λ k. k == 0) now ∙ nonzero s (omega arith) ∙ sym (ap (λ k. k == 0) was)
    ]
  ]

  pub round_lem :
      Round fs buf offset chunk start prev s
        (write_sector (take_sector fs start prev s) s (data_sector buf offset chunk))
  round_lem =
      let t = take_sector-Takes fs start prev s v in
      let table = λ (x : ℕ). ap (λ (f : ℕ → ℕ). f x) t.fat_eq in
      record {
        shape = record { total = t.shape.total; table = t.shape.table; top = t.shape.top };
        here = table s ∙ linked_here;
        data_here = update_self (take_sector fs start prev s).disk s (data_sector buf offset chunk);
        fat_other = λ x ne other. table x ∙ linked_other x ne other;
        fat_prev = λ h. table prev ∙ at_later prev h ∙ update_self (update fs.fat s fat_eof) prev s;
        disk_other = λ x l ne.
            update_ne (take_sector fs start prev s).disk s (data_sector buf offset chunk)
              (λ e. ne (sym e))
            ∙ t.behind x l;
        spent =
            ap₂ (λ r n. count_free (take_sector fs start prev s).fat (r + 1) (n - (r + 1)) + 1)
              t.shape.top t.shape.total
            ∙ ap (λ f. count_free f (fs.root + 1) (fs.total_sectors - (fs.root + 1)) + 1) t.fat_eq
            ∙ count_free_one fs.fat (linked_fat fs start prev s) s (fs.root + 1)
                (fs.total_sectors - (fs.root + 1)) empty (λ e. absurd (omega (arith, linked_here)))
                linked_zero (omega arith) (omega arith);
      }
