-- ===== src/Pmm/Boot/Init.antt =====
-- What `pmm_init_dynamic` builds: a valid state in which a page is free exactly when the memory map
-- says so and neither the low zone nor the bitmap itself lies there.
use aetheroz.Prelude.{
  ℕ, ◌+◌, ◌*◌, ◌/◌, ◌%◌, ◌^◌, ◌≤◌, ◌<◌, ◌≡◌, refl, ◌∙◌, ap, subst, inl, inr, Bool, false, not, ◌&&◌,
  ◌||◌, some, List, [], ◌∷◌, arith, ltb, if◌then◌else◌, Bool-cases, Option-cases, replicate,
}
use aetheroz.Pmm.{Pmm, page_size, low_zone}
use aetheroz.Pmm.Bitmap.{Bytes, Holds, bitmap_test, bitmap_test-replicate, replicate-Holds}
use aetheroz.Pmm.Search.{IsValid}
use aetheroz.Pmm.Boot.{
  Entry, is_usable, end_of, align_up, highest_addr, find_region, free_range, free_usable,
  lock_range, build_bitmap, alloc_bytes_for, set_up, init_dynamic,
}
use aetheroz.Pmm.Boot.Ranges.{
  in_range, starts_in, free_range-Holds, bitmap_test-free_range, lock_range-Holds,
  bitmap_test-lock_range, count_used_lem,
}

-- The memory map of a machine: no region reaches the last page of the address space.
abbrev pub IsMemmap : List Entry → Type 0
IsMemmap [] = Unit {0}
IsMemmap (e ∷ es) = (e.base + e.len + 8192 ≤ 2 ^ 64) × IsMemmap es

-- The first byte of page `j` lies in the region, behind its aligned start.
abbrev pub in_region : Entry → ℕ → Bool
in_region e j = is_usable e && starts_in (align_up e.base) (end_of e) j

abbrev pub in_memmap : List Entry → ℕ → Bool
in_memmap [] j = false
in_memmap (e ∷ es) j = in_region e j || in_memmap es j

module _ (pages : ℕ) where
  abbrev freed : Entry → Bytes → Bytes
  freed e m = free_range (end_of e / page_size + 1) pages m (align_up e.base) (end_of e)

  free_usable-Holds :
      (es : List Entry) (m : Bytes) → Holds pages m → Holds pages (free_usable pages m es)
  unfolding free_usable
  free_usable-Holds [] m h = h
  free_usable-Holds (e ∷ es) m h = elim (Bool-cases (is_usable e)) [
    | inl u ↦ rw u (free_usable-Holds es _ (free_range-Holds pages _ m _ _ h))
    | inr n ↦ rw n (free_usable-Holds es m h)
  ]

  align_up-mod : (x : ℕ) → align_up x % page_size ≡ 0
  align_up-mod x = ground arith

  -- Step B frees the pages of the usable regions and no other.
  bitmap_test-free_usable :
      (es : List Entry) (m : Bytes) (j : ℕ)
      → IsMemmap es
      → Holds pages m
      → j < pages
      → bitmap_test (free_usable pages m es) j ≡ (not (in_memmap es j) && bitmap_test m j)
  unfolding free_usable
  bitmap_test-free_usable [] m j w h hj = refl
  bitmap_test-free_usable (e ∷ es) m j w h hj = elim (Bool-cases (is_usable e)) [
    | inl u ↦ rw u (
        ground (
          arith,
          bitmap_test-free_usable es (freed e m) j w.1
              (free_range-Holds pages (end_of e / page_size + 1) m (align_up e.base) (end_of e) h)
              hj,
          bitmap_test-free_range pages (end_of e / page_size + 1) m (align_up e.base) (end_of e) j h
              (align_up-mod e.base) (omega (arith, w.0)) (omega arith) hj,
        ))
    | inr n ↦ rw n (bitmap_test-free_usable es m j w.1 h hj)
  ]

highest_addr-lt : (es : List Entry) (acc : ℕ) → acc < 2 ^ 64 → highest_addr es acc < 2 ^ 64
unfolding highest_addr
highest_addr-lt [] acc h = h
highest_addr-lt (e ∷ es) acc h =
    highest_addr-lt es (if is_usable e && ltb acc (end_of e) then end_of e else acc) (ground arith)

-- The pages of the bitmap itself.
abbrev pub is_own_page : ℕ → ℕ → ℕ → Bool
is_own_page pages bitmap_phys j =
    in_range (bitmap_phys / page_size) (alloc_bytes_for pages / page_size) j

module _ (es : List Entry) (pages bitmap_phys : ℕ) (hp : pages < 2 ^ 52) where
  room : pages ≤ 8 * alloc_bytes_for pages
  room = omega arith

  freed_map : Bytes
  freed_map = free_usable pages (replicate (alloc_bytes_for pages) 0xFF) es

  freed_map-Holds : Holds pages freed_map
  unfolding freed_map
  freed_map-Holds =
      free_usable-Holds pages es _ (replicate-Holds pages (alloc_bytes_for pages) room)

  locked_low-Holds : Holds pages (lock_range (low_zone / page_size) pages freed_map 0)
  locked_low-Holds = lock_range-Holds pages (low_zone / page_size) freed_map 0 freed_map-Holds

  build_bitmap-Holds : Holds pages (build_bitmap es pages (alloc_bytes_for pages) bitmap_phys)
  unfolding build_bitmap freed_map
  build_bitmap-Holds = lock_range-Holds pages _ _ _ locked_low-Holds

  low_or_own :
      (j : ℕ)
      → j < pages
      → bitmap_test (build_bitmap es pages (alloc_bytes_for pages) bitmap_phys) j ≡ (
          is_own_page pages bitmap_phys j
          || (in_range 0 (low_zone / page_size) j || bitmap_test freed_map j))
  unfolding build_bitmap freed_map
  low_or_own j hj =
      bitmap_test-lock_range pages _ _ _ j locked_low-Holds hj
      ∙ ap (λ b. is_own_page pages bitmap_phys j || b)
          (bitmap_test-lock_range pages (low_zone / page_size) freed_map 0 j freed_map-Holds hj)

  bitmap_test-freed_map :
      (j : ℕ) → IsMemmap es → j < pages → bitmap_test freed_map j ≡ not (in_memmap es j)
  unfolding freed_map
  bitmap_test-freed_map j w hj = ground (
    arith,
    bitmap_test-free_usable pages es (replicate (alloc_bytes_for pages) 0xFF) j w
        (replicate-Holds pages (alloc_bytes_for pages) room) hj,
    bitmap_test-replicate (alloc_bytes_for pages) j (omega (arith, room)),
  )

module _ (es : List Entry) (highest bitmap_phys : ℕ) (top : highest < 2 ^ 64) where
  set_up-IsValid : IsValid (set_up es highest bitmap_phys)
  unfolding set_up
  set_up-IsValid = record {
    is_mapped = refl;
    holds = build_bitmap-Holds es (highest / page_size) bitmap_phys (omega arith);
    total_eq = refl;
    pages_lt = omega arith;
    low_used =
        λ j a b. ground (arith, low_or_own es (highest / page_size) bitmap_phys (omega arith) j b);
    counted = count_used_lem _ _;
  }

abbrev top_addr : List Entry → ℕ
top_addr es = highest_addr es 0

init_dynamic_inv :
    (es : List Entry) (p : Pmm)
    → init_dynamic es ≡ some p
    → (at : ℕ) × (find_region es (alloc_bytes_for (top_addr es / page_size)) ≡ some at)
      × (set_up es (top_addr es) at ≡ p)
unfolding init_dynamic
init_dynamic_inv es p e =
    elim (Option-cases (find_region es (alloc_bytes_for (top_addr es / page_size)))) [
      | inl f ↦ absurd (ground (arith, e))
      | inr (at, f) ↦ (at, f, ground (arith, e))
    ]

-- `pmm_init_dynamic`, where it does not halt the kernel, leaves the allocator in a valid state.
pub init_dynamic-IsValid : (es : List Entry) {p : Pmm} → init_dynamic es ≡ some p → IsValid p
init_dynamic-IsValid es {p} e =
    let (at, f, q) = init_dynamic_inv es p e in
    subst IsValid q (set_up-IsValid es (top_addr es) at (highest_addr-lt es 0 (omega arith)))

-- What the memory map and the place of the bitmap say of each page.
abbrev pub Describes : List Entry → Pmm → Type 0
Describes es p =
    (at : ℕ) × (find_region es (alloc_bytes_for p.total_pages) ≡ some at)
    × ((j : ℕ)
        → j < p.total_pages
        → bitmap_test p.bitmap j ≡ (
            is_own_page p.total_pages at j
            || (in_range 0 (low_zone / page_size) j || not (in_memmap es j))))

set_up-Describes :
    (es : List Entry) (at : ℕ)
    → IsMemmap es
    → find_region es (alloc_bytes_for (top_addr es / page_size)) ≡ some at
    → Describes es (set_up es (top_addr es) at)
unfolding set_up
set_up-Describes es at w f = (
  at,
  f,
  λ j hj. ground (
    arith,
    low_or_own es (top_addr es / page_size) at (omega (arith, highest_addr-lt es 0)) j hj,
    bitmap_test-freed_map es (top_addr es / page_size) at (omega (arith, highest_addr-lt es 0)) j w
        hj,
  ),
)

-- A page below the total is used after `pmm_init_dynamic` exactly if it holds the bitmap, lies below
-- 72 MiB, or begins in no usable region of the memory map (which does not reach the last pages of
-- the address space).
pub init_dynamic_used :
    (es : List Entry) {p : Pmm} → IsMemmap es → init_dynamic es ≡ some p → Describes es p
init_dynamic_used es {p} w e =
    let (at, f, q) = init_dynamic_inv es p e in subst (Describes es) q (set_up-Describes es at w f)
