-- ===== src/KyuzenFs/Transfer.antt =====
-- The data of a file, written and read back.
use aetheroz.Prelude.{
  ℕ, zero, suc, ◌+◌, ◌-◌, ◌*◌, ◌≤◌, ◌<◌, ◌≡◌, ◌≢◌, refl, sym, ap, subst, ◌∙◌, ◌⊎◌, inl, inr, true,
  false, Option, none, some, arith, ◌==◌, if◌then◌else◌, Bool-cases, ==→eq, ==→ne,
}
use aetheroz.KyuzenFs.{Sector, Fs, fat_eof, write_sector, find_free_sector}
use aetheroz.KyuzenFs.Files.{take_sector, data_sector, chunk_of, write_data}
use aetheroz.KyuzenFs.Alloc.{
  IsFs, SameShape-self, SameShape-trans, IsFs-SameShape, find_free_sector_lem,
}
use aetheroz.KyuzenFs.Data.{Stored, Written, Writes, Round, round_lem}

-- The offset of an empty chain does not matter.
Stored-offset :
    (old : ℕ → ℕ) (fs : Fs) (buf : ℕ → ℕ) (size a b s n : ℕ)
    → (n ≡ 0) ⊎ (a ≡ b)
    → Stored old fs buf size a s n
    → Stored old fs buf size b s n
unfolding Stored
Stored-offset old fs buf size a b s n (inr e) v = subst (λ k. Stored old fs buf size k s n) e v
Stored-offset old fs buf size a b s zero (inl e) v = v
Stored-offset old fs buf size a b s (suc n) (inl e) v = absurd (omega arith)

-- Sectors that were free are so in a table with more free sectors.
Stored-old :
    (old older : ℕ → ℕ) (fs : Fs) (buf : ℕ → ℕ) (size offset s n : ℕ)
    → ((x : ℕ) → old x ≡ 0 → older x ≡ 0)
    → Stored old fs buf size offset s n
    → Stored older fs buf size offset s n
unfolding Stored
Stored-old old older fs buf size offset s zero more v = v
Stored-old old older fs buf size offset s (suc n) more (positive, low, was, bytes, tail) = (
  positive,
  low,
  more s was,
  bytes,
  Stored-old old older fs buf size (offset + 512) (fs.fat s) n more tail,
)

chunk_next :
    (remaining n : ℕ) → 512 * suc n ≤ remaining + 512 → (n ≡ 0) ⊎ (chunk_of remaining ≡ 512)
chunk_next remaining zero h = inl refl
chunk_next remaining (suc n) h = inr (ground arith)

shifted :
    (offset remaining n : ℕ)
    → (n ≡ 0) ⊎ (chunk_of remaining ≡ 512)
    → (n ≡ 0) ⊎ (offset + chunk_of remaining ≡ offset + 512)
shifted offset remaining n (inl e) = inl e
shifted offset remaining n (inr e) = inr (ap (λ c. offset + c) e)

chunk_le : (remaining : ℕ) → (chunk_of remaining ≤ remaining) × (chunk_of remaining ≤ 512)
chunk_le remaining = (ground arith, ground arith)

later_start : (start s : ℕ) → 0 < s → (if start == 0 then s else start) ≢ 0
later_start start s h e = ground arith

in_chunk :
    (buf : ℕ → ℕ) (offset remaining j : ℕ)
    → j < 512
    → j < remaining
    → data_sector buf offset (chunk_of remaining) j ≡ buf (offset + j)
in_chunk buf offset remaining j h k = ground arith

module _ (fs fs1 : Fs) (buf : ℕ → ℕ) (offset remaining n start prev s : ℕ) (v : IsFs fs)
    (behind : fs.root < s) (below : s < fs.total_sectors) (empty : fs.fat s ≡ 0)
    (last : start ≢ 0 → fs.fat prev ≡ fat_eof) (whole : 512 * suc n ≤ remaining + 512)
    (r : Round fs buf offset (chunk_of remaining) start prev s fs1) where
  not_s : (x : ℕ) → fs.fat x ≢ 0 → x ≢ s
  not_s x h e = h (ap fs.fat e ∙ empty)

  marked : start ≢ 0 → fs.fat prev ≢ 0
  marked h e = absurd (omega (arith, last h))

  alive : (x : ℕ) → fs.fat x ≢ 0 → fs1.fat x ≢ 0
  alive x h e = elim (Bool-cases (start == 0)) [
    | inl b ↦ h (sym (r.fat_other x (not_s x h) (inl (==→eq _ _ b))) ∙ e)
    | inr b ↦ elim (Bool-cases (x == prev)) [
      | inr c ↦ h (sym (r.fat_other x (not_s x h) (inr (==→ne _ _ c))) ∙ e)
      | inl c ↦ let q = ap fs1.fat (==→eq _ _ c) in absurd (omega (arith, r.fat_prev (==→ne _ _ b)))
    ]
  ]

  was_free : (x : ℕ) → fs1.fat x ≡ 0 → fs.fat x ≡ 0
  was_free x e = elim (Bool-cases (fs.fat x == 0)) [
    | inl b ↦ ==→eq _ _ b
    | inr b ↦ absurd (alive x (==→ne _ _ b) e)
  ]

  -- The disk after the round and the rest of the loop.
  round-Written :
      (st : ℕ) (fs' : Fs)
      → Written fs1 buf
          (offset + remaining)
          (offset + chunk_of remaining)
          n
          (if start == 0 then s else start)
          s
          st
          fs'
      → Written fs buf (offset + remaining) offset (suc n) start prev st fs'
  unfolding Stored
  round-Written st fs' w =
      let later : (if start == 0 then s else start) ≢ 0 = later_start start s (omega arith) in
      let (first_is, next_is) = w.linked later in
      let taken : fs1.fat s ≢ 0 = λ e. absurd (omega (arith, r.here)) in
      let behind_table : fs.fat_sectors < s = omega (arith, v.root_eq) in
      record {
        shape = SameShape-trans fs fs1 fs' r.shape w.shape;
        fat_kept = λ x h other.
            w.fat_kept x (λ e. h (sym (r.fat_other x (not_s x h) other) ∙ e)) (inr (not_s x h))
            ∙ r.fat_other x (not_s x h) other;
        disk_kept = λ x l h.
            w.disk_kept x (omega (arith, r.shape.table)) (alive x h) ∙ r.disk_other x l (not_s x h);
        first = s;
        stored = (
          omega arith,
          omega (arith, v.marks),
          empty,
          λ j hj hs.
              ap (λ (b : Sector). b j)
                (w.disk_kept s (omega (arith, r.shape.table)) taken ∙ r.data_here)
              ∙ in_chunk buf offset remaining j hj (omega arith),
          Stored-offset fs.fat fs' buf (offset + remaining) (offset + chunk_of remaining)
              (offset + 512) (fs'.fat s) n
              (shifted offset remaining n (chunk_next remaining n whole))
              (Stored-old fs1.fat fs.fat fs' buf (offset + remaining) (offset + chunk_of remaining)
                (fs'.fat s) n was_free
                (subst
                  (λ k.
                    Stored fs1.fat fs' buf (offset + remaining) (offset + chunk_of remaining) k n)
                  (sym next_is) w.stored)),
        );
        linked = λ h. (
          first_is ∙ (let q : (start == 0) ≡ false = ground arith in rw q refl),
          w.fat_kept prev (alive prev (marked h)) (inr (not_s prev (marked h))) ∙ r.fat_prev h,
        );
        begun = λ e _. first_is ∙ (let q : (start == 0) ≡ true = ground arith in rw q refl);
        spent = omega (arith, w.spent, r.spent);
      }

next_whole :
    (remaining n : ℕ)
    → 512 * suc n ≤ remaining + 512
    → 512 * n ≤ remaining - chunk_of remaining + 512
next_whole remaining n h = ground arith

rest_of :
    (offset remaining : ℕ)
    → offset + chunk_of remaining + (remaining - chunk_of remaining) ≡ offset + remaining
rest_of offset remaining = ground arith

Round-Writes :
    (fs fs1 : Fs) (buf : ℕ → ℕ) (offset remaining n start prev s : ℕ)
    → IsFs fs
    → fs.root < s
    → s < fs.total_sectors
    → fs.fat s ≡ 0
    → (start ≢ 0 → fs.fat prev ≡ fat_eof)
    → 512 * suc n ≤ remaining + 512
    → Round fs buf offset (chunk_of remaining) start prev s fs1
    → (o : Option ℕ × Fs)
    → Writes fs1 buf
        (offset + remaining)
        (offset + chunk_of remaining)
        n
        (if start == 0 then s else start)
        s
        o
    → Writes fs buf (offset + remaining) offset (suc n) start prev o
unfolding Writes
Round-Writes fs fs1 buf offset remaining n start prev s v behind below empty last whole r
      (none, fs') w =
    w
Round-Writes fs fs1 buf offset remaining n start prev s v behind below empty last whole r
      (some st, fs') w =
    round-Written fs fs1 buf offset remaining n start prev s v behind below empty last whole r st
      fs' w

-- The loop of `kfs_create_file` over the sectors.
pub write_data-Writes :
    (n : ℕ) (fs : Fs) (buf : ℕ → ℕ) (offset remaining start prev : ℕ)
    → IsFs fs
    → (start ≢ 0 → fs.fat prev ≡ fat_eof)
    → 512 * n ≤ remaining + 512
    → Writes fs buf
        (offset + remaining)
        offset
        n
        start
        prev
        (write_data fs buf n offset remaining start prev)
unfolding write_data Stored Writes
write_data-Writes zero fs buf offset remaining start prev v last whole = record {
  shape = SameShape-self fs;
  fat_kept = λ x h other. refl;
  disk_kept = λ x l h. refl;
  first = fat_eof;
  stored = refl;
  linked = λ h. (refl, last h);
  begun = λ e h. absurd (omega arith);
  spent = omega arith;
}
write_data-Writes (suc n) fs buf offset remaining start prev v last whole =
    let s = find_free_sector fs in
    let fs1 =
      write_sector (take_sector fs start prev s) s (data_sector buf offset (chunk_of remaining)) in
    elim (Bool-cases (s == 0)) [
      | inl full ↦ rw full (==→eq _ _ full)
      | inr room ↦
          let (behind, below, empty) = find_free_sector_lem fs (==→ne _ _ room) in
          let r =
            round_lem fs buf offset (chunk_of remaining) start prev s v behind below empty last in
          let start' = if start == 0 then s else start in
          let ih =
            write_data-Writes n fs1 buf (offset + chunk_of remaining)
              (remaining - chunk_of remaining) start' s (IsFs-SameShape fs fs1 r.shape v)
              (λ _. r.here) (next_whole remaining n whole) in
          let out =
            write_data fs1 buf n (offset + chunk_of remaining) (remaining - chunk_of remaining)
              start' s in
          rw room (
            Round-Writes fs fs1 buf offset remaining n start prev s v behind below empty last whole
              r out
              (subst (λ size. Writes fs1 buf size (offset + chunk_of remaining) n start' s out)
                (rest_of offset remaining) ih))
    ]
