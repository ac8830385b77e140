-- ===== src/Pmm/Boot/Ranges.antt =====
-- The loops of `pmm_init_dynamic` over page ranges: which bits they change.
use native.Mathlib.Numerals.{add-one}
use Prim.Native.Nat.add
use aetheroz.Prelude.{
  ℕ, zero, suc, ◌+◌, ◌*◌, ◌/◌, ◌%◌, ◌^◌, ◌≤◌, ◌<◌, ◌≡◌, refl, ◌∙◌, ap, inl, inr, Bool, not, ◌&&◌,
  ◌||◌, arith, ltb, leb, ◌==◌, if◌then◌else◌, Bool-cases, ltb→lt,
}
use aetheroz.Pmm.{page_size, u64}
use aetheroz.Pmm.Bitmap.{
  Bytes, Holds, bitmap_set, bitmap_clear_bit, bitmap_test, bitmap_test-set, bitmap_test-clear,
  bitmap_set-Holds, bitmap_clear_bit-Holds,
}
use aetheroz.Pmm.Search.{used_below}
use aetheroz.Pmm.Boot.{free_range, lock_range, count_used}

abbrev pub in_range : ℕ → ℕ → ℕ → Bool
in_range first n j = leb first j && ltb j (first + n)

-- The byte range `[addr, end)` holds the first byte of page `j`.
abbrev pub starts_in : ℕ → ℕ → ℕ → Bool
starts_in addr end j = leb addr (j * page_size) && ltb (j * page_size) end

-- One round of step B takes the page at `addr` off the pages that are still to be freed.
step_in :
    (addr end j : ℕ) (t : Bool)
    → addr % page_size ≡ 0
    → addr < end
    → end + page_size ≤ 2 ^ 64
    → (not (starts_in (u64 (addr + page_size)) end j) && (not (addr / page_size == j) && t))
      ≡ (not (starts_in addr end j) && t)
step_in addr end j t al h top = ground arith

module _ (pages : ℕ) where
  abbrev clear_in : Bytes → ℕ → Bytes
  clear_in m page = if ltb page pages then bitmap_clear_bit m page else m

  clear_in-Holds : (m : Bytes) (page : ℕ) → Holds pages m → Holds pages (clear_in m page)
  clear_in-Holds m page h = elim (Bool-cases (ltb page pages)) [
    | inl e ↦ rw e (bitmap_clear_bit-Holds m pages page h)
    | inr e ↦ rw e h
  ]

  bitmap_test-clear_in :
      (m : Bytes) (page j : ℕ)
      → Holds pages m
      → j < pages
      → bitmap_test (clear_in m page) j ≡ (not (page == j) && bitmap_test m j)
  bitmap_test-clear_in m page j h hj = elim (Bool-cases (ltb page pages)) [
    | inl e ↦ rw e (bitmap_test-clear m pages page j h (ltb→lt _ _ e))
    | inr e ↦ rw e (ground arith)
  ]

  pub free_range-Holds :
      (fuel : ℕ) (m : Bytes) (addr end : ℕ)
      → Holds pages m
      → Holds pages (free_range fuel pages m addr end)
  unfolding free_range
  free_range-Holds zero m addr end h = h
  free_range-Holds (suc fuel) m addr end h = elim (Bool-cases (ltb addr end)) [
    | inr stop ↦ rw stop h
    | inl go ↦ rw go (free_range-Holds fuel _ _ end (clear_in-Holds m (addr / page_size) h))
  ]

  -- Step B clears the pages of `[addr, end)` and no other.
  pub bitmap_test-free_range :
      (fuel : ℕ) (m : Bytes) (addr end j : ℕ)
      → Holds pages m
      → addr % page_size ≡ 0
      → end + page_size ≤ 2 ^ 64
      → end < addr + fuel * page_size
      → j < pages
      → bitmap_test (free_range fuel pages m addr end) j
        ≡ (not (starts_in addr end j) && bitmap_test m j)
  unfolding free_range
  bitmap_test-free_range zero m addr end j h al top f hj = ground arith
  bitmap_test-free_range (suc fuel) m addr end j h al top f hj = elim (Bool-cases (ltb addr end)) [
    | inr stop ↦ rw stop (ground arith)
    | inl go ↦ rw go (
        bitmap_test-free_range fuel (clear_in m (addr / page_size)) (u64 (addr + page_size)) end j
          (clear_in-Holds m (addr / page_size) h) (ground arith) top (ground arith) hj
        ∙ ap (λ b. not (starts_in (u64 (addr + page_size)) end j) && b)
            (bitmap_test-clear_in m (addr / page_size) j h hj)
        ∙ step_in addr end j (bitmap_test m j) al (ltb→lt _ _ go) top)
  ]

  pub lock_range-Holds :
      (n : ℕ) (m : Bytes) (page : ℕ) → Holds pages m → Holds pages (lock_range n pages m page)
  unfolding lock_range
  lock_range-Holds zero m page h = h
  lock_range-Holds (suc n) m page h =
      ground
        (arith, lock_range-Holds n (bitmap_set m page) (page + 1) (bitmap_set-Holds m pages page h))

  pub bitmap_test-lock_range :
      (n : ℕ) (m : Bytes) (page j : ℕ)
      → Holds pages m
      → j < pages
      → bitmap_test (lock_range n pages m page) j ≡ (in_range page n j || bitmap_test m j)
  unfolding lock_range
  bitmap_test-lock_range zero m page j h hj = ground arith
  bitmap_test-lock_range (suc n) m page j h hj = elim (Bool-cases (ltb page pages)) [
    | inr stop ↦ rw stop (ground arith)
    | inl go ↦ rw go (
        ground (
          arith,
          bitmap_test-lock_range n (bitmap_set m page) (page + 1) j
              (bitmap_set-Holds m pages page h) hj,
          bitmap_test-set m pages page j h (ltb→lt _ _ go),
        ))
  ]

used_below_next :
    (m : Bytes) (i : ℕ)
    → used_below m (i + 1) ≡ (if bitmap_test m i then suc (used_below m i) else used_below m i)
unfolding used_below
used_below_next m i = rw add-one refl

-- The count of phase 4 is the number of used pages.
count_used_from :
    (m : Bytes) (i n used : ℕ)
    → count_used m i n used + used_below m i ≡ used + used_below m (i + n)
unfolding count_used
count_used_from m i zero used = ap (λ k. used + used_below m k) (omega arith)
count_used_from m i (suc n) used = ground (
  arith,
  count_used_from m (i + 1) n (if bitmap_test m i then used + 1 else used),
  used_below_next m i,
  ap (used_below m) (shift i n),
)
  where
    shift : (i n : ℕ) → i + 1 + n ≡ i + suc n
    shift i n = omega arith

pub count_used_lem : (m : Bytes) (n : ℕ) → count_used m 0 n 0 ≡ used_below m n
unfolding used_below
count_used_lem m n = omega (arith, count_used_from m 0 n 0, ap (used_below m) (add.zero n))
