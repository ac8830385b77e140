-- ===== src/Heap/Realloc.antt =====
-- `krealloc`: a new block, a copy of the bytes, and the old block freed. The memory beside the heap is
-- that of the bytes inside the blocks when the copy begins; `kmalloc` and `kfree` leave them as they are.
use aetheroz.Prelude.{
  ℕ, suc, ◌+◌, ◌-◌, ◌*◌, ◌%◌, ◌^◌, ◌≤◌, ◌<◌, ◌≡◌, ◌≢◌, refl, sym, ap, subst, ◌∙◌, ◌⊎◌, inl, inr,
  true, false, none, some, List, arith, ltb, leb, ◌==◌, ==_self, if◌then◌else◌, Bool-cases,
}
use aetheroz.Strings.{Memory, memcpy}
use aetheroz.Strings.Blocks.{copied, memcpy_lem}
use aetheroz.Heap.{
  Block, heap_start, header, PageSource, Heap, Outcome, returned, panicked, pending, kmalloc,
  expand_heap, pages_for, round_16, Freed, freed_to, free_panicked, not_a_block, kfree,
}
use aetheroz.Heap.Tiling.{Tiles, used_at, used_at_disjoint}
use aetheroz.Heap.Merging.{Frees, kfree-Frees}
use aetheroz.Heap.Kmalloc.{IsValid, Result, null, block, Calm, kmalloc-Result, used_at-expand_heap}

-- `(old_size < new_size) ? old_size : new_size`
abbrev pub copied_size : ℕ → ℕ → ℕ
copied_size old_size new_size = if ltb old_size new_size then old_size else new_size

copied_inside : (m : Memory) (d s n j : ℕ) → j < n → copied m d s n (d + j) ≡ m (s + j)
copied_inside m d s n j h =
    let a : leb d (d + j) ≡ true = ground arith in
    let b : ltb (d + j) (d + n) ≡ true = ground arith in
    let c : s + (d + j - d) ≡ s + j = omega arith in rw (a, b, c) refl

copied_outside : (m : Memory) (d s n x : ℕ) → (d + n ≤ x) ⊎ (x < d) → copied m d s n x ≡ m x
copied_outside m d s n x h = elim h [ inl l ↦ ground arith | inr l ↦ ground arith ]

module _ (source : PageSource) where
  -- How `krealloc` ends: with a pointer (0 for NULL) and the memory, in `kernel_panic`, with a pointer
  -- that is not of the heap, or out of fuel.
  pub data Resized : Type 0 where
    resized : ℕ → Heap source → Memory → Resized
    stopped : Resized
    stray_pointer : Resized
    unfinished : Resized

  -- `kfree(ptr)` as the last call.
  abbrev pub after_free : Heap source → Memory → ℕ → Freed → Resized
  after_free h m result (freed_to bs) = resized result (record h { blocks = bs }) m
  after_free h m result free_panicked = stopped
  after_free h m result not_a_block = stray_pointer

  abbrev pub free_old : Heap source → Memory → ℕ → ℕ → Resized
  free_old h m ptr result = after_free h m result (kfree h.blocks ptr)

  pub without_copy : Memory → Outcome source → Resized
  without_copy m (returned p h) = resized p h m
  without_copy m (panicked a) = stopped
  without_copy m pending = unfinished

  -- The lock is free from the end of `kmalloc` to the beginning of `kfree`, where `later` is what the
  -- other CPUs make of the heap once the new block is known.
  pub move_bytes : (ℕ → Heap source → Heap source) → Memory → ℕ → ℕ → ℕ → Outcome source → Resized
  move_bytes later m ptr old_size new_size (returned p h) =
      if p == 0
      then resized 0 h m
      else free_old (later p h) (memcpy m p ptr (copied_size old_size new_size)) ptr p
  move_bytes later m ptr old_size new_size (panicked a) = stopped
  move_bytes later m ptr old_size new_size pending = unfinished

  -- `others` is what the other CPUs make of the heap in the middle of `kmalloc`.
  pub krealloc :
      (Heap source → Heap source)
      → (ℕ → Heap source → Heap source)
      → ℕ
      → Heap source
      → Memory
      → ℕ
      → ℕ
      → ℕ
      → Resized
  krealloc others later fuel h m ptr old_size new_size =
      let out = kmalloc source others fuel h new_size in
      if new_size == 0
      then free_old h m ptr 0
      else if ptr == 0
      then without_copy m out
      else move_bytes later m ptr old_size new_size out

  -- How `krealloc` of the block at `x` ends, seen from the heap that the last section of its `kmalloc`
  -- found: NULL, with the same blocks; or, with the new block taken in `g`, the old block freed from what
  -- the other CPUs have made of `g`, and the bytes copied.
  pub data Moves (later : ℕ → Heap source → Heap source) (m : Memory) (x old_size new_size : ℕ)
      (met : Heap source) (out : Resized) : Type 0 where
    refused :
        (h' : Heap source)
        → out ≡ resized 0 h' m
        → h'.blocks ≡ met.blocks
        → h'.heap_end ≡ met.heap_end
        → Moves later m x old_size new_size met out
    moved :
        (at granted : ℕ) (g h' : Heap source) (m' : Memory)
        → out ≡ resized (at + header) h' m'
        → new_size ≤ granted
        → (at + header) % 16 ≡ 0
        → used_at met.blocks at ≡ none
        → ((y : ℕ) → used_at g.blocks y ≡ (if at == y then some granted else used_at met.blocks y))
        → ((y : ℕ)
            → used_at h'.blocks y
              ≡ (if x == y then none else used_at (later (at + header) g).blocks y))
        → used_at h'.blocks at ≡ some granted
        → IsValid source h'
        → ((j : ℕ) → j < old_size → j < new_size → m' (at + header + j) ≡ m (x + header + j))
        → ((y k j : ℕ)
            → used_at (later (at + header) g).blocks y ≡ some k
            → at ≢ y
            → j < k
            → m' (y + header + j) ≡ m (y + header + j))
        → Moves later m x old_size new_size met out

  -- Two blocks in use at different addresses lie apart.
  apart :
      (a e x y k n : ℕ) (bs : List Block)
      → Tiles a bs e
      → used_at bs x ≡ some k
      → used_at bs y ≡ some n
      → x ≢ y
      → (x + header + k ≤ y) ⊎ (y + header + n ≤ x)
  apart a e x y k n bs t u w ne = elim (Bool-cases (ltb x y)) [
    | inl l ↦ inl (used_at_disjoint a e x y k n bs t u w (ground arith))
    | inr l ↦ inr (used_at_disjoint a e y x n k bs t w u (ground arith))
  ]

  -- The other CPUs do not free a block that is not theirs: the old one, and the new one once it is known.
  abbrev pub Spares : (ℕ → Heap source → Heap source) → ℕ → ℕ → Type 0
  Spares later x n =
      (g : Heap source) (at k : ℕ)
      → IsValid source g
      → used_at g.blocks at ≡ some k
      → used_at g.blocks x ≡ some n
      → IsValid source (later (at + header) g)
        × (used_at (later (at + header) g).blocks at ≡ some k)
        × (used_at (later (at + header) g).blocks x ≡ some n)

  module _ (later : ℕ → Heap source → Heap source) (m : Memory) (x n old_size new_size : ℕ)
      (spares : Spares later x n) (fits : old_size ≤ n) where
    abbrev copied_bytes : ℕ
    copied_bytes = copied_size old_size new_size

    copied_bytes_le : (copied_bytes ≤ old_size) × (copied_bytes ≤ new_size)
    copied_bytes_le = ground arith

    -- Freeing and copying, in the heap `w` that the other CPUs left.
    module _ (at granted : ℕ) (w : Heap source) (v : IsValid source w) (le : new_size ≤ granted)
        (differs : at ≢ x) (here : used_at w.blocks at ≡ some granted)
        (there : used_at w.blocks x ≡ some n) where
      abbrev copy : Memory
      copy = memcpy m (at + header) (x + header) copied_bytes

      clear : (at + header ≤ x + header) ⊎ (x + header + copied_bytes ≤ at + header)
      clear =
          elim (apart heap_start w.heap_end at x granted n w.blocks v.tiles here there differs) [
            | inl l ↦ inl (omega arith)
            | inr r ↦ inr (omega (arith, copied_bytes_le.0))
          ]

      freed : Frees heap_start w.heap_end w.blocks x (kfree w.blocks (x + header))
      freed = kfree-Frees heap_start w.heap_end x n w.blocks v.tiles v.top there

      copy_here :
          (j : ℕ) → j < old_size → j < new_size → copy (at + header + j) ≡ m (x + header + j)
      copy_here j l l' =
          memcpy_lem m (at + header) (x + header) copied_bytes (at + header + j) clear
          ∙ copied_inside m (at + header) (x + header) copied_bytes j (ground arith)

      copy_elsewhere :
          (y k j : ℕ)
          → used_at w.blocks y ≡ some k
          → at ≢ y
          → j < k
          → copy (y + header + j) ≡ m (y + header + j)
      copy_elsewhere y k j u other l =
          let outside : (at + header + copied_bytes ≤ y + header + j)
              ⊎ (y + header + j < at + header) =
            elim (apart heap_start w.heap_end at y granted k w.blocks v.tiles here u other) [
              | inl q ↦ inl (omega (arith, copied_bytes_le.1))
              | inr q ↦ inr (omega arith)
            ] in
          memcpy_lem m (at + header) (x + header) copied_bytes (y + header + j) clear
          ∙ copied_outside m (at + header) (x + header) copied_bytes (y + header + j) outside

      stays : used_at freed.after at ≡ some granted
      stays =
          let test : (x == at) ≡ false = ground arith in
          freed.others at ∙ ap (λ t. if t then none else used_at w.blocks at) test ∙ here

    module _ (met : Heap source) (used : used_at met.blocks x ≡ some n) where
      block_moved :
          (at granted : ℕ) (g : Heap source)
          → new_size ≤ granted
          → (at + header) % 16 ≡ 0
          → used_at met.blocks at ≡ none
          → ((y : ℕ)
              → used_at g.blocks y ≡ (if at == y then some granted else used_at met.blocks y))
          → IsValid source g
          → Moves later m x old_size new_size met (
              free_old
                (later (at + header) g)
                (memcpy m (at + header) (x + header) copied_bytes)
                (x + header)
                (at + header))
      block_moved at granted g le aligned unused others v =
          let differs : at ≢ x =
            λ e. absurd (let q = sym unused ∙ ap (used_at met.blocks) e ∙ used in ground arith) in
          let test : (at == x) ≡ false = ground arith in
          let mine =
            others at ∙ ap (λ t. if t then some granted else used_at met.blocks at) (==_self at) in
          let old =
            others x ∙ ap (λ t. if t then some granted else used_at met.blocks x) test ∙ used in
          let (valid, here, there) = spares g at granted v mine old in
          let w = later (at + header) g in
          let f = freed at granted w valid le differs here there in
          let c = memcpy m (at + header) (x + header) copied_bytes in
          moved at granted g (record w { blocks = f.after }) c
            (ap (after_free w c (at + header)) f.is_freed) le aligned unused others f.others
            (stays at granted w valid le differs here there)
            (record { tiles = f.tiles; top = valid.top })
            (copy_here at granted w valid le differs here there)
            (copy_elsewhere at granted w valid le differs here there)

      moved_or_null :
          (out : Outcome source)
          → Result source met new_size out
          → Moves later m x old_size new_size met
              (move_bytes later m (x + header) old_size new_size out)
      unfolding move_bytes
      moved_or_null out (null g e same same_end) =
          subst
            (λ o.
              Moves later m x old_size new_size met
                (move_bytes later m (x + header) old_size new_size o))
            (sym e) (refused g refl same same_end)
      moved_or_null out (block at granted g e le aligned unused others v) =
          let q : (at + header == 0) ≡ false = ground arith in
          subst
            (λ o.
              Moves later m x old_size new_size met
                (move_bytes later m (x + header) old_size new_size o))
            (sym e) (rw q (block_moved at granted g le aligned unused others v))

    -- `krealloc` of a block in use to a size from 1 to 2^63 - 1, on a valid heap with room above it for an
    -- expansion, where the old size is at most that of the block. The other CPUs, while the lock is free,
    -- keep the heap valid, leave a block of the size after an expansion, and free neither the old block
    -- nor, once it is known, the new one. Then the call ends in NULL, with the memory and the blocks as
    -- `kmalloc` found them in its last section; or with a pointer behind the header of a block of at least
    -- the new size, at a multiple of 16, that was not in use then, is in use in the end and begins with the
    -- bytes of the old block up to the smaller size. Of what the other CPUs left, the old block alone goes
    -- out of use; the heap is valid, and the bytes of all other blocks in use are as they were.
    pub krealloc-Moves :
        (others : Heap source → Heap source) (fuel : ℕ) (h : Heap source)
        → Calm source others new_size
        → ((g : Heap source) → used_at g.blocks x ≡ some n → used_at (others g).blocks x ≡ some n)
        → new_size ≢ 0
        → new_size < 2 ^ 63
        → IsValid source h
        → h.heap_end + pages_for (round_16 new_size) * 4096 + 4096 ≤ 2 ^ 64
        → used_at h.blocks x ≡ some n
        → Moves later m x old_size new_size h
            (krealloc others later (suc (suc fuel)) h m (x + header) old_size new_size)
          ⊎ Moves later m x old_size new_size
              (others ((expand_heap source h (round_16 new_size)).1))
              (krealloc others later (suc (suc fuel)) h m (x + header) old_size new_size)
    unfolding krealloc
    krealloc-Moves others fuel h calm keeps nz small v room used =
        let a : (new_size == 0) ≡ false = ground arith in
        let b : (x + header == 0) ≡ false = ground arith in
        rw (a, b)
          (elim (kmalloc-Result source others new_size calm nz small fuel h v room) [
            | inl r ↦ inl (moved_or_null h used _ r)
            | inr r ↦ inr (
                moved_or_null _
                  (keeps _ (used_at-expand_heap source h (round_16 new_size) x ∙ used)) _ r)
          ])
