-- ===== src/Pmm/Alloc.antt =====
-- `pmm_alloc_page`: what it returns, and that it keeps the allocator's invariant.
use aetheroz.Prelude.{
  ℕ, ◌+◌, ◌-◌, ◌*◌, ◌≤◌, ◌<◌, ◌≡◌, refl, ◌⊎◌, inl, inr, true, false, ◌||◌, ◌≢◌, arith, ◌==◌, ltb,
  Bool-cases, if◌then◌else◌,
}
use aetheroz.Pmm.{Pmm, page_size, low_zone, take_page, alloc_page}
use aetheroz.Pmm.Bitmap.{bitmap_test, bitmap_test-set, bitmap_set-Holds}
use aetheroz.Pmm.Search.{AllUsed, find_free_cases, used_below-le, used_below-set, IsValid}

-- The page `i` was free and leaves the pool: its address is returned, it alone becomes used, it is
-- counted, and the next search starts behind it.
pub record Takes (p : Pmm) (out : ℕ × Pmm) (i : ℕ) : Type 0 where
  pub address : out.0 ≡ i * page_size
  pub above_low : low_zone ≤ i * page_size
  pub below_total : i < p.total_pages
  pub was_free : bitmap_test p.bitmap i ≡ false
  pub marked : (j : ℕ) → bitmap_test out.1.bitmap j ≡ (i == j || bitmap_test p.bitmap j)
  pub total_used : out.1.used_pages ≡ p.used_pages + 1
  pub hint : out.1.next_free_hint ≡ i + 1
  pub pages : out.1.bitmap_pages ≡ p.bitmap_pages

module _ (p : Pmm) (v : IsValid p) (i : ℕ) (hi : i < p.total_pages)
    (free : bitmap_test p.bitmap i ≡ false) where
  above_low_zone : low_zone ≤ i * page_size
  above_low_zone = elim (Bool-cases (ltb (i * page_size) low_zone)) [
    | inl low ↦ absurd (ground (arith, v.low_used i, v.total_eq))
    | inr high ↦ ground arith
  ]

  pub take_page-Takes : Takes p (take_page p i) i
  unfolding take_page
  take_page-Takes = record {
    address = omega (arith, v.total_eq, v.pages_lt);
    above_low = above_low_zone;
    below_total = hi;
    was_free = free;
    marked = λ j. bitmap_test-set p.bitmap p.bitmap_pages i j v.holds (omega (arith, v.total_eq));
    total_used =
        omega (arith, v.counted, used_below-le p.bitmap p.total_pages, v.total_eq, v.pages_lt);
    hint = omega (arith, v.total_eq, v.pages_lt);
    pages = refl;
  }

  pub take_page-IsValid : IsValid (take_page p i).1
  unfolding take_page
  take_page-IsValid = record {
    is_mapped = v.is_mapped;
    holds = bitmap_set-Holds p.bitmap p.bitmap_pages i v.holds;
    total_eq = v.total_eq;
    pages_lt = v.pages_lt;
    low_used = λ j a b. ground (
      arith,
      bitmap_test-set p.bitmap p.bitmap_pages i j v.holds (omega (arith, v.total_eq)),
      v.low_used j a b,
    );
    counted = ground (
      arith,
      v.counted,
      v.total_eq,
      v.pages_lt,
      used_below-le p.bitmap p.total_pages,
      used_below-set p.bitmap p.bitmap_pages i v.holds (omega (arith, v.total_eq)) p.total_pages,
    );
  }

-- How a call of `pmm_alloc_page` ends.
pub data Outcome (p : Pmm) (out : ℕ × Pmm) : Type 0 where
  none_left : out ≡ (0, p) → AllUsed p.bitmap 0 p.total_pages → Outcome p out
  took :
      (i : ℕ)
      → out ≡ take_page p i
      → i < p.total_pages
      → bitmap_test p.bitmap i ≡ false
      → Outcome p out

-- The second scan begins at page 0 and ends where the first began.
abbrev wrap_end : Pmm → ℕ
wrap_end p = if ltb p.next_free_hint p.total_pages then p.next_free_hint else p.total_pages

both_scans :
    (p : Pmm)
    → AllUsed p.bitmap p.next_free_hint (p.total_pages - p.next_free_hint)
    → AllUsed p.bitmap 0 (wrap_end p)
    → AllUsed p.bitmap 0 p.total_pages
both_scans p up low j a b = elim (Bool-cases (ltb j p.next_free_hint)) [
  | inl e ↦ low j a (ground arith)
  | inr e ↦ up j (ground arith) (ground arith)
]

pub alloc_page-Outcome : (p : Pmm) → p.mapped ≡ true → Outcome p (alloc_page p)
unfolding alloc_page
alloc_page-Outcome p m =
    elim (find_free_cases p.bitmap p.next_free_hint (p.total_pages - p.next_free_hint)) [
      | inr (k, e, a, b, free) ↦ took k (simp (m, e)) (omega arith) free
      | inl (e, up) ↦ elim (find_free_cases p.bitmap 0 (wrap_end p)) [
        | inr (k, e', a, b, free) ↦ took k (simp (m, e, e')) (ground arith) free
        | inl (e', low) ↦ none_left (simp (m, e, e')) (both_scans p up low)
      ]
    ]

-- `pmm_alloc_page` on a valid state: either it returns 0, changes nothing, and every page is in use;
-- or it returns the address of a page that was free, at or above 72 MiB and below the total, marks
-- that page and no other as used, counts it, and moves the hint behind it.
pub alloc_page_lem :
    (p : Pmm)
    → IsValid p
    → ((alloc_page p ≡ (0, p)) × AllUsed p.bitmap 0 p.total_pages)
      ⊎ ((i : ℕ) × Takes p (alloc_page p) i)
alloc_page_lem p v = elim (alloc_page-Outcome p v.is_mapped) [
  | none_left e all ↦ inl (e, all)
  | took i e hi free ↦ inr (i, rw e (take_page-Takes p v i hi free))
]

-- `pmm_alloc_page` keeps the invariant of the allocator.
pub alloc_page-IsValid : (p : Pmm) → IsValid p → IsValid (alloc_page p).1
alloc_page-IsValid p v = elim (alloc_page-Outcome p v.is_mapped) [
  | none_left e all ↦ rw e v
  | took i e hi free ↦ rw e (take_page-IsValid p v i hi free)
]

-- `pmm_alloc_page` never fails while a page is free: on a valid state with a free page below the
-- total the address it returns is not 0.
pub alloc_page-ne-zero :
    (p : Pmm) (i : ℕ)
    → IsValid p
    → i < p.total_pages
    → bitmap_test p.bitmap i ≡ false
    → (alloc_page p).0 ≢ 0
alloc_page-ne-zero p i v hi free = elim (alloc_page_lem p v) [
  | inl (e, all) ↦ absurd (ground (arith, all i, free))
  | inr (k, t) ↦ omega (arith, t.address, t.above_low)
]
