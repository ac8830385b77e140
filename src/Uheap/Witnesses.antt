-- ===== src/Uheap/Witnesses.antt =====
-- The user heap at concrete inputs.
use aetheroz.Prelude.{ℕ, ◌+◌, ◌≡◌, refl, true, []}
use aetheroz.Uheap.{
  AddressSpace, Uheap, uheap_alloc, add_region, map_pages, map_page, uheap_reset, uheap_realloc,
}
use aetheroz.Uheap.Regions.{IsUheap}
use aetheroz.Uheap.Steps.{allocs, reallocs, start, next, Run-IsUheap}

-- Frames are counted up, and every page can be mapped.
abbrev plenty : AddressSpace
plenty = record {
  State = ℕ;
  pmm_alloc_page = λ s. (s, s + 4096);
  pmm_free_page = λ s pa. s;
  pmm_owns_page = λ s pa. true;
  vmm_map_page_into = λ s va pa. (true, s);
  vmm_unmap_page_from = λ s va. (0, s);
  clear_frame = λ s pa. s;
  copy_user = λ s to from len. s;
  node_granted = λ s. true;
}

abbrev empty : Uheap
empty = uheap_reset (record { brk = 0; regions = [] })

abbrev first : Uheap
first = (uheap_alloc plenty 4096 true empty 5000).1

abbrev second : Uheap
second = (uheap_realloc plenty 4096 true first 0x10000000 20000).1

first_address : (uheap_alloc plenty 4096 true empty 5000).0 ≡ 0x10000000
unfolding uheap_alloc add_region map_pages map_page uheap_reset
first_address = refl

Run-IsUheap_example : IsUheap second
Run-IsUheap_example =
    Run-IsUheap plenty (record { brk = 0; regions = [] }) second
      (next empty first second (next empty empty first (start empty) (allocs 4096 true 5000 empty))
        (reallocs 4096 true 0x10000000 20000 first))
