-- ===== src/Pmm/Witnesses.antt =====
-- The allocator's theorems on a machine of 72 MiB and four pages, booted by `pmm_init_dynamic`, and
-- runs of the bitmap helpers.
use aetheroz.Prelude.{
  ℕ, ◌/◌, ◌<◌, ◌≡◌, refl, ◌⊎◌, true, false, some, List, [], ◌∷◌, arith, ◌≢◌, sym, subst, not, ◌||◌,
}
use aetheroz.Pmm.{Pmm, freed, alloc_page, free_page, page_size}
use aetheroz.Pmm.Bitmap.{bitmap_test}
use aetheroz.Pmm.Boot.{Entry, set_up, init_dynamic, highest_addr, find_region}
use aetheroz.Pmm.Boot.Init.{
  Describes, in_memmap, is_own_page, init_dynamic-IsValid, init_dynamic_used,
}
use aetheroz.Pmm.Boot.Ranges.{in_range}
use aetheroz.Pmm.Search.{AllUsed, IsValid}
use aetheroz.Pmm.Alloc.{Takes, alloc_page_lem, alloc_page-IsValid, alloc_page-ne-zero}
use aetheroz.Pmm.Free.{
  IsFreeable, Restored, FreesPage, free_page-FreesPage, free_page-freed_iff, free_page-IsValid,
  free_page-alloc_page,
}

-- One usable region: the four pages from 72 MiB on. A reserved one lies above it.
abbrev memmap : List Entry
memmap =
    record { base = 0x4800000; len = 0x4000; kind = 0 }
    ∷ record { base = 0xFFFC0000; len = 0x40000; kind = 1 }
    ∷ []

-- Page 18432 holds the bitmap; the pages 18433, 18434 and 18435 are free.
booted : Pmm
booted = set_up memmap 0x4804000 0x4800000

boots : init_dynamic memmap ≡ some booted
unfolding init_dynamic highest_addr find_region booted
boots = refl

init_dynamic-IsValid_example : IsValid booted
init_dynamic-IsValid_example = init_dynamic-IsValid memmap boots

init_dynamic_used_example : Describes memmap booted
init_dynamic_used_example = init_dynamic_used memmap (omega arith) boots

total-booted : booted.total_pages ≡ 18436
unfolding booted set_up
total-booted = refl

same_place : {a b : ℕ} → some a ≡ some b → a ≡ b
same_place e = cc

-- The bits of the booted state, from the theorem rather than from a run over 2,305 bytes.
used-booted :
    (j : ℕ)
    → j < 18436
    → bitmap_test booted.bitmap j
      ≡ (is_own_page 18436 0x4800000 j || (in_range 0 18432 j || not (in_memmap memmap j)))
unfolding booted set_up find_region
used-booted j h =
    let (at, f, bits) = init_dynamic_used memmap {p = booted} (omega arith) boots in
    let here : 0x4800000 ≡ at = same_place f in
    subst
      (λ a.
        bitmap_test booted.bitmap j
        ≡ (is_own_page 18436 a j || (in_range 0 18432 j || not (in_memmap memmap j))))
      (sym here) (bits j h)

page_free : bitmap_test booted.bitmap 18433 ≡ false
page_free = used-booted 18433 (omega arith)

bitmap_page_used : bitmap_test booted.bitmap 18432 ≡ true
bitmap_page_used = used-booted 18432 (omega arith)

alloc_page_lem_example :
    ((alloc_page booted ≡ (0, booted)) × AllUsed booted.bitmap 0 booted.total_pages)
    ⊎ ((i : ℕ) × Takes booted (alloc_page booted) i)
alloc_page_lem_example = alloc_page_lem booted init_dynamic-IsValid_example

alloc_page-IsValid_example : IsValid (alloc_page booted).1
alloc_page-IsValid_example = alloc_page-IsValid booted (init_dynamic-IsValid memmap boots)

one_is_free : (alloc_page booted).0 ≢ 0
one_is_free =
    alloc_page-ne-zero booted 18433 (init_dynamic-IsValid memmap boots)
      (omega (arith, total-booted)) page_free

bitmap_page-IsFreeable : IsFreeable booted 0x4800000
unfolding booted set_up
bitmap_page-IsFreeable = record {
  aligned = omega arith;
  in_range = omega arith;
  above_low = omega arith;
  is_used = bitmap_page_used;
}

bitmap_page_freed : (free_page booted 0x4800000).0 ≡ freed
unfolding booted set_up
bitmap_page_freed = (free_page-freed_iff booted 0x4800000 refl).1 bitmap_page-IsFreeable

free_page-FreesPage_example : FreesPage booted 0x4800000 (free_page booted 0x4800000)
unfolding booted set_up
free_page-FreesPage_example =
    free_page-FreesPage booted 0x4800000 (init_dynamic-IsValid memmap boots)

free_page-IsValid_example : IsValid (free_page booted 0x4800000).1
free_page-IsValid_example = free_page-IsValid booted 0x4800000 (init_dynamic-IsValid memmap boots)

free_page-alloc_page_example :
    Restored booted
      (free_page (alloc_page booted).1 (alloc_page booted).0)
      ((alloc_page booted).0 / page_size)
free_page-alloc_page_example =
    free_page-alloc_page booted (init_dynamic-IsValid memmap boots) one_is_free

-- An unaligned address is refused.
