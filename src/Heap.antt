-- ===== src/Heap.antt =====
-- kernel/heap.c: the kernel heap, a first-fit allocator over one linked list of headed blocks. A
-- function holds `heap_lock` while it walks the list. The list is kept as the blocks in the order of
-- their `next` links, each with the address of its header; sizes and addresses are 64 bits wide.
pub mod Tiling
pub mod FirstFit
pub mod Merging
pub mod Kmalloc
pub mod Realloc
mod Witnesses
use aetheroz.Prelude.{
  ℕ, zero, suc, ◌+◌, ◌-◌, ◌*◌, ◌/◌, ◌%◌, ◌^◌, Bool, true, false, not, ◌&&◌, Option, none, some,
  List, [], ◌∷◌, ◌++◌, ◌≡◌, ◌≤◌, ltb, leb, ◌==◌, if◌then◌else◌,
}

-- HEAP_MAGIC, HEAP_START_VADDR and `sizeof(heap_block_t)`.
abbrev pub heap_magic : ℕ
heap_magic = 0xDEADC0DE

abbrev pub heap_start : ℕ
heap_start = 0xFFFF900000000000

abbrev pub header : ℕ
header = 32

abbrev pub word : ℕ → ℕ
word n = n % 2 ^ 64

-- `heap_block_t`, with the address at which it lies.
pub record Block : Type 0 where
  pub addr : ℕ
  pub magic : ℕ
  pub size : ℕ
  pub is_free : Bool

-- What the heap asks of the page tables and the frame allocator: `vmm_alloc_page_kernel`, which may
-- fail; `vmm_unmap_page_from`, which returns the frame or 0; and `pmm_free_page`.
pub record PageSource : Type 1 where
  pub Frames : Type 0
  pub alloc_page : Frames → ℕ → Option Frames
  pub unmap_page : Frames → ℕ → ℕ × Frames
  pub free_frame : Frames → ℕ → Frames

-- What a walk over the list comes to.
pub data Scan : Type 0 where
  corrupt : ℕ → Scan
  no_fit : Scan
  found : ℕ → List Block → Scan

-- Splitting: what is left of a block becomes a free block if it is worth a header.
pub place : Block → ℕ → List Block → List Block
place b size rest =
    if ltb (word (size + header + 1)) b.size
    then record b { size = size; is_free = false }
      ∷ record {
        addr = word (b.addr + header + size);
        magic = heap_magic;
        size = b.size - size - header;
        is_free = true;
      }
      ∷ rest
    else record b { is_free = false } ∷ rest

behind : Block → Scan → Scan
behind b (corrupt a) = corrupt a
behind b no_fit = no_fit
behind b (found ptr bs) = found ptr (b ∷ bs)

-- The loop of `kmalloc`: the first free block that is large enough.
unfoldable pub first_fit : List Block → ℕ → Scan
unfolding behind
first_fit [] size = no_fit
first_fit (b ∷ bs) size =
    if not (b.magic == heap_magic)
    then corrupt b.addr
    else if b.is_free && leb size b.size
    then found (word (b.addr + header)) (place b size bs)
    else behind b (first_fit bs size)

-- `(size + 15) & ~15`
unfoldable pub round_16 : ℕ → ℕ
round_16 size = word (size + 15) / 16 * 16

pub pages_for : ℕ → ℕ
pages_for size =
    let total = word (size + header) in if total % 4096 == 0 then total / 4096 else total / 4096 + 1

-- The new pages as one free block.
pub fresh_block : ℕ → ℕ → Block
fresh_block addr size = record {
  addr = addr;
  magic = heap_magic;
  size = word (pages_for size * 4096 + 2 ^ 64 - header);
  is_free = true;
}

module _ (source : PageSource) where
  open source use {Frames, alloc_page, unmap_page, free_frame}

  -- The statics `heap_head` and `current_heap_end`, and the machine's pages.
  pub record Heap : Type 0 where
    pub blocks : List Block
    pub heap_end : ℕ
    pub frames : Frames

  -- The rollback of `expand_heap`, page by page from the start of the expansion.
  pub unmap_range : Frames → ℕ → ℕ → Frames
  unmap_range fr addr zero = fr
  unmap_range fr addr (suc n) =
      let (pa, fr') = unmap_page fr addr in
      unmap_range (if pa == 0 then fr' else free_frame fr' pa) (addr + 4096) n

  -- The mapping loop, with `done` pages mapped and `n` to go: whether all are mapped.
  pub map_range : Frames → ℕ → ℕ → ℕ → Bool × Frames
  map_range fr start done zero = (true, fr)
  map_range fr start done (suc n) = elim (alloc_page fr (start + done * 4096)) [
    | none ↦ (false, unmap_range fr start done)
    | some fr' ↦ map_range fr' start (done + 1) n
  ]

  -- The result is `new_block != NULL`.
  pub expand_heap : Heap → ℕ → Bool × Heap
  expand_heap h size =
      let (mapped, fr) = map_range h.frames h.heap_end 0 (pages_for size) in
      if mapped
      then (
        true,
        record {
          blocks = h.blocks ++ (fresh_block h.heap_end size ∷ []);
          heap_end = h.heap_end + pages_for size * 4096;
          frames = fr;
        },
      )
      else (false, record h { frames = fr })

  -- How `kmalloc` ends: with a pointer (0 for NULL), or in `kernel_panic` at a corrupt header.
  -- `pending` is a call whose fuel has run out.
  pub data Outcome : Type 0 where
    returned : ℕ → Heap → Outcome
    panicked : ℕ → Outcome
    pending : Outcome

  -- After an expansion the lock is given up and `kmalloc` calls itself, which takes one unit of fuel.
  -- `others` is what the other CPUs make of the heap in between.
  pub kmalloc : (Heap → Heap) → ℕ → Heap → ℕ → Outcome
  kmalloc others zero h size = pending
  kmalloc others (suc fuel) h size =
      let n = round_16 size in
      let (grown, h') = expand_heap h n in
      let again = kmalloc others fuel (others h') n in
      if size == 0 then returned 0 h else elim (first_fit h.blocks n) [
        | corrupt a ↦ panicked a
        | found ptr bs ↦ returned ptr (record h { blocks = bs })
        | no_fit ↦ if grown then again else returned 0 h'
      ]

-- `curr->is_free = 1` on the header at `addr`, if a block of the list has it there and is intact.
pub data Release : Type 0 where
  stray : Release
  broken : Release
  released : List Block → Release

keep : Block → Release → Release
keep b stray = stray
keep b broken = broken
keep b (released bs) = released (b ∷ bs)

pub release : List Block → ℕ → Release
unfolding keep
release [] addr = stray
release (b ∷ bs) addr =
    if b.addr == addr
    then (if not (b.magic == heap_magic)
        then broken
        else released (record b { is_free = true } ∷ bs))
    else keep b (release bs addr)

-- A walk that finds a corrupt header, or the list that it leaves.
pub data Walk : Type 0 where
  corrupt_at : ℕ → Walk
  walked : List Block → Walk

step_over : Block → Walk → Walk
step_over b (corrupt_at a) = corrupt_at a
step_over b (walked bs) = walked (b ∷ bs)

-- `current` and the free block behind it become one if the two are adjacent.
abbrev pub mergeable : Block → Block → Bool
mergeable b c = b.is_free && (c.is_free && (c.addr == word (b.addr + header + b.size)))

abbrev pub merge : Block → Block → Block
merge b c = record b { size = word (b.size + (c.size + header)) }

-- The loop of `kfree` with `current` at `b`: a block that has absorbed its neighbour stays current.
pub coalesce_from : Block → List Block → Walk
unfolding step_over
coalesce_from b [] = if not (b.magic == heap_magic) then corrupt_at b.addr else walked (b ∷ [])
coalesce_from b (c ∷ cs) =
    let absorbed = coalesce_from (merge b c) cs in
    let onward = step_over b (coalesce_from c cs) in
    if not (b.magic == heap_magic)
    then corrupt_at b.addr
    else if mergeable b c
    then absorbed
    else onward

pub coalesce : List Block → Walk
unfolding coalesce_from
coalesce [] = walked []
coalesce (b ∷ bs) = coalesce_from b bs

-- How `kfree` ends on the list of blocks. `not_a_block`: the pointer was not handed out by the heap,
-- and what the code reads in front of it is no header of the list.
pub data Freed : Type 0 where
  freed_to : List Block → Freed
  free_panicked : Freed
  not_a_block : Freed

pub kfree : List Block → ℕ → Freed
kfree bs ptr = if ptr == 0 then freed_to bs else elim (release bs (word (ptr + 2 ^ 64 - header))) [
  | stray ↦ not_a_block
  | broken ↦ free_panicked
  | released bs' ↦ elim (coalesce bs') [
    | corrupt_at a ↦ free_panicked
    | walked bs'' ↦ freed_to bs''
  ]
]
