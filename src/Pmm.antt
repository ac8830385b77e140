-- ===== src/Pmm.antt =====
-- kernel/pmm.c: the physical page allocator. Every function runs under `pmm_lock` from its first
-- access to the state to its last, so each is one function from a state to a state. Addresses and
-- counters are `uint64_t`: sums are taken modulo 2^64.
pub mod Bitmap
pub mod Boot
pub mod Search
pub mod Alloc
pub mod Free
mod Witnesses
use aetheroz.Prelude.{
  ℕ, zero, suc, ◌+◌, ◌-◌, ◌*◌, ◌/◌, ◌%◌, ◌^◌, Bool, true, false, not, ◌&&◌, Option, none, some, ltb,
  leb, ◌==◌, if◌then◌else◌,
}
use Bitmap.{Bytes, bitmap_set, bitmap_clear_bit, bitmap_test}

-- PAGE_SIZE of include/pmm.h; PHYS_NULL is 0.
abbrev pub page_size : ℕ
page_size = 4096

-- The zone below 72 MiB, which the allocator never hands out.
abbrev pub low_zone : ℕ
low_zone = 0x4800000

abbrev pub u64 : ℕ → ℕ
u64 n = n % 2 ^ 64

-- The statics of pmm.c; `mapped` is `pmm_bitmap != NULL`.
pub record Pmm : Type 0 where
  pub mapped : Bool
  pub bitmap : Bytes
  pub bitmap_pages : ℕ
  pub real_total_ram : ℕ
  pub total_pages : ℕ
  pub used_pages : ℕ
  pub next_free_hint : ℕ

-- `for (i = first; ...; i++) if (!bitmap_test(i)) ...`, over `rounds` pages.
pub find_free : Bytes → ℕ → ℕ → Option ℕ
find_free m i zero = none
find_free m i (suc rounds) =
    let rest = find_free m (i + 1) rounds in if bitmap_test m i then rest else some i

-- The body that both scans of `pmm_alloc_page` run on a free page.
pub take_page : Pmm → ℕ → ℕ × Pmm
take_page p i = (
  u64 (i * page_size),
  record p {
    bitmap = bitmap_set p.bitmap i;
    used_pages = u64 (p.used_pages + 1);
    next_free_hint = u64 (i + 1);
  },
)

-- From the hint to the end, then from 0 to the hint; 0 if nothing is free.
pub alloc_page : Pmm → ℕ × Pmm
alloc_page p =
    if not p.mapped
    then (0, p)
    else elim (find_free p.bitmap p.next_free_hint (p.total_pages - p.next_free_hint)) [
      | some i ↦ take_page p i
      | none ↦ elim (find_free p.bitmap 0 wrap_end) [ some i ↦ take_page p i | none ↦ (0, p) ]
    ]
  where
    wrap_end : ℕ
    wrap_end = if ltb p.next_free_hint p.total_pages then p.next_free_hint else p.total_pages

-- How `pmm_free_page` ends: the page is freed, or one of its warnings is printed.
pub data FreeResult : Type 0 where
  freed free_null free_unaligned free_out_of_range free_low_reserved double_free : FreeResult

-- The part under the lock.
pub free_locked : Pmm → ℕ → FreeResult × Pmm
free_locked p bit = if not (bitmap_test p.bitmap bit) then (double_free, p) else (
  freed,
  record p {
    bitmap = bitmap_clear_bit p.bitmap bit;
    used_pages = if ltb 0 p.used_pages then p.used_pages - 1 else p.used_pages;
    next_free_hint = if ltb bit p.next_free_hint then bit else p.next_free_hint;
  },
)

pub free_page : Pmm → ℕ → FreeResult × Pmm
unfolding free_locked
free_page p addr =
    if addr == 0
    then (free_null, p)
    else if not (addr % page_size == 0)
    then (free_unaligned, p)
    else if (if not p.mapped then true else leb p.bitmap_pages (addr / page_size))
    then (free_out_of_range, p)
    else if ltb addr low_zone
    then (free_low_reserved, p)
    else free_locked p (addr / page_size)

pub owns_page : Pmm → ℕ → Bool
owns_page p addr =
    if (if addr == 0 then true else not (addr % page_size == 0))
    then false
    else if not p.mapped
    then false
    else if leb p.bitmap_pages (addr / page_size)
    then false
    else bitmap_test p.bitmap (addr / page_size)

pub get_used_ram : Pmm → ℕ
get_used_ram p = u64 (p.used_pages * page_size)

pub get_free_ram : Pmm → ℕ
unfolding get_used_ram
get_free_ram p =
    if ltb (get_used_ram p) p.real_total_ram then p.real_total_ram - get_used_ram p else 0

pub set_total_ram : Pmm → ℕ → Pmm
set_total_ram p size = record p {
  real_total_ram = size;
  total_pages = if ltb p.bitmap_pages (size / page_size) then p.bitmap_pages else size / page_size;
}
