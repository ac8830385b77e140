-- ===== src/Uheap.antt =====
-- kernel/uheap.c: the heap of a user task, regions of whole pages in its address space, each followed by
-- a page that is not mapped. The list of regions is a list, newest first. The frames and the page tables
-- are an interface. No sum here exceeds 64 bits, since sizes and addresses are bounded first.
pub mod Regions
pub mod Steps
mod Witnesses
use aetheroz.Prelude.{
  ℕ, zero, suc, ◌+◌, ◌*◌, ◌/◌, ◌^◌, Bool, true, false, ◌&&◌, ◌||◌, not, Option, none, some, List,
  [], ◌∷◌, ltb, leb, ◌==◌, if◌then◌else◌,
}

-- The frames of kernel/pmm.c and the task's page tables of kernel/paging.c, with the memory that they
-- map. An address 0 is no frame. `node_granted` is whether kmalloc has a node for a region.
pub record AddressSpace : Type 1 where
  pub State : Type 0
  pub pmm_alloc_page : State → ℕ × State
  pub pmm_free_page : State → ℕ → State
  pub pmm_owns_page : State → ℕ → Bool
  pub vmm_map_page_into : State → ℕ → ℕ → Bool × State
  pub vmm_unmap_page_from : State → ℕ → ℕ × State
  pub clear_frame : State → ℕ → State
  pub copy_user : State → ℕ → ℕ → ℕ → State
  pub node_granted : State → Bool

abbrev pub uheap_base : ℕ
uheap_base = 0x10000000

abbrev pub uheap_end : ℕ
uheap_end = 0x40000000

abbrev pub uheap_max_alloc : ℕ
uheap_max_alloc = 64 * 1024 * 1024

abbrev pub page : ℕ
page = 4096

pub record Region : Type 0 where
  pub base : ℕ
  pub size : ℕ
  pub pages : ℕ

-- `uheap_brk` and `uheap_regions` of a task.
pub record Uheap : Type 0 where
  pub brk : ℕ
  pub regions : List Region

-- A frame that was mapped goes back to the allocator.
unfoldable pub give_back : (k : AddressSpace) → ℕ × k.State → k.State
give_back k (pa, s) = if not (pa == 0) && k.pmm_owns_page s pa then k.pmm_free_page s pa else s

-- The pages `i` up to `i + n`.
unfoldable pub uheap_unmap_range : (k : AddressSpace) → k.State → ℕ → ℕ → ℕ → k.State
uheap_unmap_range k s base i zero = s
uheap_unmap_range k s base i (suc n) =
    uheap_unmap_range k (give_back k (k.vmm_unmap_page_from s (base + i * page))) base (suc i) n

-- A frame for one page; false where there is none, or where it cannot be mapped.
unfoldable pub map_page : (k : AddressSpace) → ℕ × k.State → ℕ → Bool × k.State
map_page k (pa, s) va =
    let mapped = k.vmm_map_page_into s va pa in
    if pa == 0
    then (false, s)
    else if mapped.0
    then (true, k.clear_frame mapped.1 pa)
    else (false, k.pmm_free_page mapped.1 pa)

-- The loop over the pages, with `n` to go; a failure unmaps the first `i` pages.
unfoldable pub map_pages : (k : AddressSpace) → k.State → ℕ → ℕ → ℕ → Bool × k.State
map_pages k s base i zero = (true, s)
map_pages k s base i (suc n) =
    let now = map_page k (k.pmm_alloc_page s) (base + i * page) in
    let rest = map_pages k now.1 base (suc i) n in
    if now.0 then rest else (false, uheap_unmap_range k now.1 base 0 i)

-- The new region, where its pages are mapped.
unfoldable pub add_region :
    (k : AddressSpace) → Uheap → ℕ → ℕ → ℕ → Bool × k.State → ℕ × Uheap × k.State
add_region k h brk size pages (false, s) = (0, h, s)
add_region k h brk size pages (true, s) = (
  brk,
  record {
    brk = brk + pages * page + page;
    regions = (record { base = brk; size = size; pages = pages }) ∷ h.regions;
  },
  s,
)

abbrev pub brk_of : Uheap → ℕ
brk_of h = if h.brk == 0 then uheap_base else h.brk

abbrev pub pages_of : ℕ → ℕ
pages_of size = (size + 4095) / 4096

-- `has_space` is `t->pml4_phys != PHYS_NULL`.
unfoldable pub uheap_alloc : (k : AddressSpace) → k.State → Bool → Uheap → ℕ → ℕ × Uheap × k.State
uheap_alloc k s has_space h size =
    let brk = brk_of h in
    let pages = pages_of size in
    if not has_space || size == 0 || ltb uheap_max_alloc size
    then (0, h, s)
    else if ltb uheap_end (brk + pages * page + page) || not (k.node_granted s)
    then (0, h, s)
    else add_region k h brk size pages (map_pages k s brk 0 pages)

unfoldable pub find_region : ℕ → List Region → Option Region
find_region uaddr [] = none
find_region uaddr (r ∷ rs) =
    let rest = find_region uaddr rs in if r.base == uaddr then some r else rest

unfoldable pub remove_region : ℕ → List Region → List Region
remove_region uaddr [] = []
remove_region uaddr (r ∷ rs) =
    let rest = remove_region uaddr rs in if r.base == uaddr then rs else r ∷ rest

-- `n->size = new_size` of the region at an address.
unfoldable pub resize_region : ℕ → ℕ → List Region → List Region
resize_region uaddr size [] = []
resize_region uaddr size (r ∷ rs) =
    let rest = resize_region uaddr size rs in
    if r.base == uaddr then (record r { size = size }) ∷ rs else r ∷ rest

unfoldable pub free_found :
    (k : AddressSpace) → k.State → Uheap → ℕ → Option Region → Bool × Uheap × k.State
free_found k s h uaddr none = (false, h, s)
free_found k s h uaddr (some r) = (
  true,
  record h { regions = remove_region uaddr h.regions },
  uheap_unmap_range k s r.base 0 r.pages,
)

unfoldable pub uheap_free : (k : AddressSpace) → k.State → Uheap → ℕ → Bool × Uheap × k.State
uheap_free k s h uaddr =
    if uaddr == 0 then (false, h, s) else free_found k s h uaddr (find_region uaddr h.regions)

-- The copy to the new region and the release of the old one; where there is no new region all stays.
unfoldable pub move_region :
    (k : AddressSpace) → Region → ℕ → ℕ → ℕ × Uheap × k.State → ℕ × Uheap × k.State
move_region k r uaddr new_size (new_base, h, s) =
    let copied = k.copy_user s new_base uaddr (if ltb r.size new_size then r.size else new_size) in
    let freed = uheap_free k copied h uaddr in
    if new_base == 0 then (0, h, s) else (new_base, freed.1, freed.2)

unfoldable pub realloc_found :
    (k : AddressSpace) → k.State → Bool → Uheap → ℕ → ℕ → Option Region → ℕ × Uheap × k.State
realloc_found k s has_space h uaddr new_size none = (0, h, s)
realloc_found k s has_space h uaddr new_size (some r) =
    if leb new_size (r.pages * page)
    then (r.base, record h { regions = resize_region uaddr new_size h.regions }, s)
    else move_region k r uaddr new_size (uheap_alloc k s has_space h new_size)

unfoldable pub uheap_realloc :
    (k : AddressSpace) → k.State → Bool → Uheap → ℕ → ℕ → ℕ × Uheap × k.State
uheap_realloc k s has_space h uaddr new_size =
    let freed = uheap_free k s h uaddr in
    if uaddr == 0
    then uheap_alloc k s has_space h new_size
    else if new_size == 0
    then (0, freed.1, freed.2)
    else if ltb uheap_max_alloc new_size
    then (0, h, s)
    else realloc_found k s has_space h uaddr new_size (find_region uaddr h.regions)

unfoldable pub uheap_reset : Uheap → Uheap
uheap_reset h = record { brk = uheap_base; regions = [] }
