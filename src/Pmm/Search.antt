-- ===== src/Pmm/Search.antt =====
-- The page scan of `pmm_alloc_page`, the count of the used pages, and the allocator's invariant.
use aetheroz.Prelude.{
  ℕ, zero, suc, ◌+◌, ◌*◌, ◌^◌, ◌≤◌, ◌<◌, ◌≡◌, refl, ◌⊎◌, inl, inr, true, false, none, some, arith,
  ltb, Bool-cases, if◌then◌else◌,
}
use aetheroz.Pmm.{Pmm, low_zone, page_size, find_free}
use aetheroz.Pmm.Bitmap.{
  Bytes, Holds, bitmap_set, bitmap_clear_bit, bitmap_test, bitmap_test-set, bitmap_test-clear,
}

-- Every page of `[i, i + n)` is used.
abbrev pub AllUsed : Bytes → ℕ → ℕ → Type 0
AllUsed m i n = (j : ℕ) → i ≤ j → j < i + n → bitmap_test m j ≡ true

-- A scan finds a free page of its range, or every page of the range is used.
pub find_free_cases :
    (m : Bytes) (i n : ℕ)
    → ((find_free m i n ≡ none) × AllUsed m i n)
      ⊎ ((k : ℕ) × (find_free m i n ≡ some k) × (i ≤ k) × (k < i + n) × (bitmap_test m k ≡ false))
unfolding find_free
find_free_cases m i zero = inl (refl, λ j a b. absurd (omega arith))
find_free_cases m i (suc n) = elim (Bool-cases (bitmap_test m i)) [
  | inr free ↦ inr (i, rw free, omega arith, omega arith, free)
  | inl used ↦ elim (find_free_cases m (i + 1) n) [
    | inl (e, all) ↦ inl (rw used e, λ j a b. ground (arith, all j, used))
    | inr (k, e, a, b, free) ↦ inr (k, rw used e, omega arith, omega arith, free)
  ]
]

-- The number of used pages below `n`.
unfoldable pub used_below : Bytes → ℕ → ℕ
used_below m zero = 0
used_below m (suc n) = if bitmap_test m n then suc (used_below m n) else used_below m n

pub used_below-le : (m : Bytes) (n : ℕ) → used_below m n ≤ n
unfolding used_below
used_below-le m zero = omega arith
used_below-le m (suc n) = ground (arith, used_below-le m n)

pub used_below-pos : (m : Bytes) (n i : ℕ) → i < n → bitmap_test m i ≡ true → 0 < used_below m n
unfolding used_below
used_below-pos m zero i h e = absurd (omega arith)
used_below-pos m (suc n) i h e = ground (arith, used_below-pos m n i)

module _ (m : Bytes) (pages i : ℕ) (h : Holds pages m) (hi : i < pages) where
  -- Taking a free page adds one to the count, if the page lies below `n`.
  pub used_below-set :
      (n : ℕ)
      → bitmap_test m i ≡ false
      → used_below (bitmap_set m i) n ≡ (if ltb i n then suc (used_below m n) else used_below m n)
  unfolding used_below
  used_below-set zero e = ground arith
  used_below-set (suc n) e = ground (arith, used_below-set n e, bitmap_test-set m pages i n h hi)

  -- Freeing a used page takes one off the count, if the page lies below `n`.
  pub used_below-clear :
      (n : ℕ)
      → bitmap_test m i ≡ true
      → used_below m n ≡ (
          if ltb i n
          then suc (used_below (bitmap_clear_bit m i) n)
          else used_below (bitmap_clear_bit m i) n)
  unfolding used_below
  used_below-clear zero e = ground arith
  used_below-clear (suc n) e =
      ground (arith, used_below-clear n e, bitmap_test-clear m pages i n h hi)

-- The state that `pmm_init_dynamic` leaves and every operation keeps: the bitmap covers its pages,
-- no address wraps, the low zone is never free, and the counter is the number of used pages.
pub record IsValid (p : Pmm) : Type 0 where
  pub is_mapped : p.mapped ≡ true
  pub holds : Holds p.bitmap_pages p.bitmap
  pub total_eq : p.total_pages ≡ p.bitmap_pages
  pub pages_lt : p.bitmap_pages < 2 ^ 52
  pub low_used :
      (i : ℕ) → i * page_size < low_zone → i < p.bitmap_pages → bitmap_test p.bitmap i ≡ true
  pub counted : p.used_pages ≡ used_below p.bitmap p.total_pages
