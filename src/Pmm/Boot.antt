-- ===== src/Pmm/Boot.antt =====
-- `pmm_init_dynamic` of kernel/pmm.c: the bitmap is built from the boot loader's memory map.
-- Sums of addresses are `uint64_t`. A fuelled loop is given one round more than it can make.
pub mod Ranges
pub mod Init
use aetheroz.Prelude.{
  ℕ, zero, suc, ◌+◌, ◌-◌, ◌*◌, ◌/◌, ◌%◌, Bool, true, false, ◌&&◌, Option, none, some, List, [], ◌∷◌,
  ltb, leb, ◌==◌, if◌then◌else◌, replicate,
}
use aetheroz.Pmm.{Pmm, page_size, low_zone, u64}
use aetheroz.Pmm.Bitmap.{Bytes, bitmap_set, bitmap_clear_bit, bitmap_test}

-- `struct limine_memmap_entry`; the type LIMINE_MEMMAP_USABLE is 0.
pub record Entry : Type 0 where
  pub base : ℕ
  pub len : ℕ
  pub kind : ℕ

abbrev pub is_usable : Entry → Bool
is_usable e = e.kind == 0

abbrev pub end_of : Entry → ℕ
end_of e = u64 (e.base + e.len)

-- Phase 1: the highest end of a usable region.
unfoldable pub highest_addr : List Entry → ℕ → ℕ
highest_addr [] highest = highest
highest_addr (e ∷ es) highest =
    highest_addr es (if is_usable e && ltb highest (end_of e) then end_of e else highest)

-- `(x + PAGE_SIZE - 1) & ~(PAGE_SIZE - 1)`
abbrev pub round_up : ℕ → ℕ
round_up x = u64 (x + 4095) / page_size * page_size

-- `if (x & (PAGE_SIZE - 1)) x = round_up(x)`
abbrev pub align_up : ℕ → ℕ
align_up x = if x % page_size == 0 then x else round_up x

-- Where the region scan of phase 2 would put the bitmap in a region.
abbrev pub region_start : Entry → ℕ
region_start e = if ltb (align_up e.base) low_zone then low_zone else align_up e.base

abbrev pub fits : Entry → ℕ → Bool
fits e alloc_bytes =
    if leb (end_of e) (region_start e) then false else leb alloc_bytes (end_of e - region_start e)

-- Phase 2: the first usable region above the low zone that holds the bitmap.
unfoldable pub find_region : List Entry → ℕ → Option ℕ
find_region [] alloc_bytes = none
find_region (e ∷ es) alloc_bytes =
    if is_usable e && fits e alloc_bytes then some (region_start e) else find_region es alloc_bytes

-- Step B for one region: `for (addr = start; addr < end; addr += PAGE_SIZE)`.
pub free_range : ℕ → ℕ → Bytes → ℕ → ℕ → Bytes
free_range zero pages m addr end = m
free_range (suc fuel) pages m addr end =
    let next = if ltb (addr / page_size) pages then bitmap_clear_bit m (addr / page_size) else m in
    let rest = free_range fuel pages next (u64 (addr + page_size)) end in
    if ltb addr end then rest else m

-- Step B: free the usable regions.
pub free_usable : ℕ → Bytes → List Entry → Bytes
free_usable pages m [] = m
free_usable pages m (e ∷ es) =
    free_usable pages
      (if is_usable e
        then free_range (end_of e / page_size + 1) pages m (align_up e.base) (end_of e)
        else m)
      es

-- Steps C and D: `for (i = 0; i < n && first + i < bitmap_pages; i++) bitmap_set(first + i)`.
pub lock_range : ℕ → ℕ → Bytes → ℕ → Bytes
lock_range zero pages m page = m
lock_range (suc n) pages m page =
    let rest = lock_range n pages (bitmap_set m page) (page + 1) in
    if ltb page pages then rest else m

-- Phase 4: `for (i = 0; i < total_pages; i++) if (bitmap_test(i)) used_pages++`.
pub count_used : Bytes → ℕ → ℕ → ℕ → ℕ
count_used m i zero used = used
count_used m i (suc n) used = count_used m (i + 1) n (if bitmap_test m i then used + 1 else used)

-- The bitmap after the steps A to D.
pub build_bitmap : List Entry → ℕ → ℕ → ℕ → Bytes
build_bitmap es pages alloc_bytes bitmap_phys =
    lock_range (alloc_bytes / page_size) pages
      (lock_range (low_zone / page_size) pages (free_usable pages (replicate alloc_bytes 0xFF) es)
        0)
      (bitmap_phys / page_size)

-- `bitmap` needs (pages + 7) / 8 bytes, rounded up to whole pages.
abbrev pub alloc_bytes_for : ℕ → ℕ
alloc_bytes_for pages = round_up ((pages + 7) / 8)

-- `total_pages` is `highest_addr / PAGE_SIZE` again, never above `bitmap_pages`.
unfoldable pub set_up : List Entry → ℕ → ℕ → Pmm
set_up es highest bitmap_phys =
    let pages = highest / page_size in
    let m = build_bitmap es pages (alloc_bytes_for pages) bitmap_phys in
    record {
      mapped = true;
      bitmap = m;
      bitmap_pages = pages;
      real_total_ram = highest;
      total_pages = pages;
      used_pages = count_used m 0 pages 0;
      next_free_hint = low_zone / page_size;
    }

-- `none` where the kernel halts: no usable memory, or no room for the bitmap.
unfoldable pub init_dynamic : List Entry → Option Pmm
init_dynamic es =
    if highest_addr es 0 == 0
    then none
    else elim (find_region es (alloc_bytes_for (highest_addr es 0 / page_size))) [
      | none ↦ none
      | some bitmap_phys ↦ some (set_up es (highest_addr es 0) bitmap_phys)
    ]
