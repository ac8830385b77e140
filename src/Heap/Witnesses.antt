-- ===== src/Heap/Witnesses.antt =====
-- The heap's theorems on a small heap, over a source of pages that counts frames.
use aetheroz.Prelude.{
  ℕ, ◌+◌, ◌-◌, ◌*◌, ◌⊎◌, ◌%◌, ◌≤◌, ◌^◌, ◌≡◌, refl, true, false, Option, none, some, List, [], ◌∷◌,
  arith, ltb, leb, ◌&&◌, if◌then◌else◌,
}
use aetheroz.Heap.{
  Block, heap_magic, heap_start, header, PageSource, Heap, kmalloc, kfree, expand_heap, round_16,
  pages_for,
}
use aetheroz.Heap.Tiling.{used_at, used_at_disjoint}
use aetheroz.Heap.Merging.{Frees, kfree-Frees}
use aetheroz.Heap.Kmalloc.{IsValid, Calm, Answers, kmalloc-Result}
use aetheroz.Heap.Realloc.{Moves, Spares, krealloc, krealloc-Moves}

abbrev take_frame : ℕ → ℕ → Option ℕ
take_frame left addr = if ltb 0 left && leb (addr + 8192) (2 ^ 64) then some (left - 1) else none

-- Frames are only counted; the frame number is not kept.
abbrev counted : PageSource
counted = record {
  Frames = ℕ;
  alloc_page = take_frame;
  unmap_page = λ left addr. (4096, left);
  free_frame = λ left pa. left + 1;
}

-- One page: 64 bytes in use, 128 bytes in use, and the rest free.
abbrev blocks : List Block
blocks =
    record { addr = heap_start; magic = heap_magic; size = 64; is_free = false }
    ∷ record { addr = heap_start + 96; magic = heap_magic; size = 128; is_free = false }
    ∷ record { addr = heap_start + 256; magic = heap_magic; size = 3808; is_free = true }
    ∷ []

abbrev small : Heap counted
small = record { blocks = blocks; heap_end = heap_start + 4096; frames = 3 }

small-IsValid : IsValid counted small
small-IsValid = record { tiles = omega arith; top = omega arith }

small_room : small.heap_end + pages_for (round_16 5000) * 4096 + 4096 ≤ 2 ^ 64
unfolding round_16 pages_for
small_room = omega arith

-- The request for 5,000 bytes does not fit, and takes two more pages.
-- The other CPUs do nothing in between.
quiet : Calm counted (λ g. g) 5000
quiet g v some_fit = (v, some_fit)

kmalloc-Result_example : Answers counted (λ g. g) small 5000 (kmalloc counted (λ g. g) 2 small 5000)
kmalloc-Result_example =
    kmalloc-Result counted (λ g. g) 5000 quiet (omega arith) (omega arith) 0 small small-IsValid
      small_room

second_in_use : used_at blocks (heap_start + 96) ≡ some 128
unfolding used_at
second_in_use = refl

first_in_use : used_at blocks heap_start ≡ some 64
unfolding used_at
first_in_use = refl

kfree-Frees_example :
    Frees heap_start
      (heap_start + 4096)
      blocks
      (heap_start + 96)
      (kfree blocks (heap_start + 96 + header))
kfree-Frees_example =
    kfree-Frees heap_start (heap_start + 4096) (heap_start + 96) 128 blocks (omega arith)
      (omega arith) second_in_use

spared : Spares counted (λ p g. g) heap_start 64
spared g at k v mine old = (v, mine, old)

-- The block of 64 bytes moves to one of 5,000.
krealloc-Moves_example :
    Moves counted
      (λ p g. g)
      (λ a. a % 256)
      heap_start
      64
      5000
      small
      (krealloc counted (λ g. g) (λ p g. g) 2 small (λ a. a % 256) (heap_start + header) 64 5000)
    ⊎ Moves counted
        (λ p g. g)
        (λ a. a % 256)
        heap_start
        64
        5000
        ((expand_heap counted small (round_16 5000)).1)
        (krealloc counted (λ g. g) (λ p g. g) 2 small (λ a. a % 256) (heap_start + header) 64 5000)
krealloc-Moves_example =
    krealloc-Moves counted (λ p g. g) (λ a. a % 256) heap_start 64 64 5000 spared (omega arith)
      (λ g. g) 0 small quiet (λ g used. used) (omega arith) (omega arith) small-IsValid small_room
      first_in_use

used_at_disjoint_example : heap_start + header + 64 ≤ heap_start + 96
used_at_disjoint_example =
    used_at_disjoint heap_start (heap_start + 4096) heap_start (heap_start + 96) 64 128 blocks
      (omega arith) first_in_use second_in_use (omega arith)
