-- ===== src/Heap/Kmalloc.antt =====
-- `kmalloc`, with the expansion of the heap by whole pages.
use aetheroz.Prelude.{
  ℕ, suc, ◌+◌, ◌*◌, ◌%◌, ◌^◌, ◌≤◌, ◌<◌, ◌≡◌, ◌≢◌, refl, sym, ap, subst, ◌∙◌, ◌⊎◌, inl, inr, Bool,
  true, false, none, some, List, [], ◌∷◌, ◌++◌, arith, ◌==◌, ==_self, if◌then◌else◌, Bool-cases,
}
use aetheroz.Heap.{
  Block, heap_start, header, PageSource, Scan, no_fit, found, first_fit, round_16, fresh_block,
  pages_for, map_range, Heap, expand_heap, Outcome, returned, kmalloc,
}
use aetheroz.Heap.Tiling.{Tiles, Tiles-append, used_at, used_at-append_free, used_at_aligned}
use aetheroz.Heap.FirstFit.{Grants, NoFit, first_fit_cases}

-- A rounded size is a multiple of 16 and not below the request, which is not near 2^64.
pub round_16_bounds :
    (n : ℕ) → n < 2 ^ 63 → (n ≤ round_16 n) × (round_16 n < n + 16) × (round_16 n % 16 ≡ 0)
unfolding round_16
round_16_bounds n h = omega arith

round_16-round_16 : (n : ℕ) → n < 2 ^ 63 → round_16 (round_16 n) ≡ round_16 n
unfolding round_16
round_16-round_16 n h = omega arith

not_zero : (n : ℕ) → n ≢ 0 → (n == 0) ≡ false
not_zero n h = ground arith

-- The pages of an expansion hold the block and its header.
pages_for_bounds :
    (n : ℕ)
    → n < 2 ^ 63 + 16
    → n % 16 ≡ 0
    → (n + header ≤ pages_for n * 4096) × (pages_for n * 4096 < 2 ^ 64)
unfolding pages_for
pages_for_bounds n h al = ground arith

module _ (source : PageSource) where
  open source use {Frames}

  -- The blocks of a valid heap tile the range from its start to `current_heap_end`.
  pub record IsValid (h : Heap source) : Type 0 where
    pub tiles : Tiles heap_start h.blocks h.heap_end
    pub top : h.heap_end + 4096 ≤ 2 ^ 64

NoFit-append :
    (bs : List Block) (f : Block) (size : ℕ)
    → f.is_free ≡ true
    → size ≤ f.size
    → ¬ NoFit (bs ++ (f ∷ [])) size
NoFit-append [] f size free fit n = ground (arith, n)
NoFit-append (b ∷ bs) f size free fit n = NoFit-append bs f size free fit n.1

fresh_block-Tiles :
    (addr size : ℕ)
    → size < 2 ^ 63 + 16
    → size % 16 ≡ 0
    → Tiles addr (fresh_block addr size ∷ []) (addr + pages_for size * 4096)
unfolding fresh_block
fresh_block-Tiles addr size small al =
    let b = pages_for_bounds size small al in
    (refl, refl, omega (arith, b.0, b.1), omega (arith, b.0, b.1))

fresh_block_fits :
    (addr size : ℕ) → size < 2 ^ 63 + 16 → size % 16 ≡ 0 → size ≤ (fresh_block addr size).size
unfolding fresh_block
fresh_block_fits addr size small al =
    let b = pages_for_bounds size small al in omega (arith, b.0, b.1)

fresh_block_free : (addr size : ℕ) → (fresh_block addr size).is_free ≡ true
unfolding fresh_block
fresh_block_free addr size = refl

module _ (source : PageSource) (h : Heap source) (size : ℕ) where
  abbrev mapping : Bool × source.Frames
  mapping = map_range source h.frames h.heap_end 0 (pages_for size)

  abbrev grown : Heap source
  grown = record {
    blocks = h.blocks ++ (fresh_block h.heap_end size ∷ []);
    heap_end = h.heap_end + pages_for size * 4096;
    frames = mapping.1;
  }

  expand_heap_grows : mapping.0 ≡ true → expand_heap source h size ≡ (true, grown)
  unfolding expand_heap
  expand_heap_grows e = rw e refl

  expand_heap_fails :
      mapping.0 ≡ false → expand_heap source h size ≡ (false, record h { frames = mapping.1 })
  unfolding expand_heap
  expand_heap_fails e = rw e refl

  module _ (v : IsValid source h) (small : size < 2 ^ 63 + 16) (al : size % 16 ≡ 0)
      (room : h.heap_end + pages_for size * 4096 + 4096 ≤ 2 ^ 64) where
    grown-IsValid : IsValid source grown
    grown-IsValid = record {
      tiles =
          Tiles-append heap_start h.heap_end (h.heap_end + pages_for size * 4096) h.blocks
            (fresh_block h.heap_end size ∷ []) v.tiles (fresh_block-Tiles h.heap_end size small al);
      top = room;
    }

    -- Either the heap has one more free block, large enough, or only the frames have changed.
    expand_heap_cases :
        ((expand_heap source h size ≡ (true, grown))
          × IsValid source grown
          × (¬ NoFit grown.blocks size))
        ⊎ (expand_heap source h size ≡ (false, record h { frames = mapping.1 }))
    expand_heap_cases = elim (Bool-cases mapping.0) [
      | inl e ↦ inl (
        expand_heap_grows e,
        grown-IsValid,
        NoFit-append h.blocks (fresh_block h.heap_end size) size (fresh_block_free h.heap_end size)
            (fresh_block_fits h.heap_end size small al),
      )
      | inr e ↦ inr (expand_heap_fails e)
    ]

-- An expansion changes no block in use.
pub used_at-expand_heap :
    (source : PageSource) (h : Heap source) (size x : ℕ)
    → used_at (expand_heap source h size).1.blocks x ≡ used_at h.blocks x
used_at-expand_heap source h size x = elim (Bool-cases (mapping source h size).0) [
  | inl e ↦
      ap (λ (r : Bool × Heap source). used_at r.1.blocks x) (expand_heap_grows source h size e)
      ∙ used_at-append_free h.blocks (fresh_block h.heap_end size) x
          (fresh_block_free h.heap_end size)
  | inr e ↦
      ap (λ (r : Bool × Heap source). used_at r.1.blocks x) (expand_heap_fails source h size e)
]

-- How a call of `kmalloc` for `size` bytes may end from a heap: NULL, with the same blocks; or a pointer behind
-- the header of a block of at least `size` bytes, at a multiple of 16, that was not in use and now
-- is, while all other blocks in use are as they were.
module _ (source : PageSource) where
  pub data Result (h : Heap source) (size : ℕ) (out : Outcome source) : Type 0 where
    null :
        (h' : Heap source)
        → out ≡ returned 0 h'
        → h'.blocks ≡ h.blocks
        → h'.heap_end ≡ h.heap_end
        → Result h size out
    block :
        (at granted : ℕ) (h' : Heap source)
        → out ≡ returned (at + header) h'
        → size ≤ granted
        → (at + header) % 16 ≡ 0
        → used_at h.blocks at ≡ none
        → ((x : ℕ) → used_at h'.blocks x ≡ (if at == x then some granted else used_at h.blocks x))
        → IsValid source h'
        → Result h size out

  kmalloc_found :
      (others : Heap source → Heap source) (fuel size : ℕ) (h : Heap source) (ptr : ℕ)
      (bs : List Block)
      → size ≢ 0
      → first_fit h.blocks (round_16 size) ≡ found ptr bs
      → kmalloc source others (suc fuel) h size ≡ returned ptr (record h { blocks = bs })
  unfolding kmalloc
  kmalloc_found others fuel size h ptr bs nz e = ground arith

  kmalloc_grows :
      (others : Heap source → Heap source) (fuel size : ℕ) (h h' : Heap source)
      → size ≢ 0
      → first_fit h.blocks (round_16 size) ≡ no_fit
      → expand_heap source h (round_16 size) ≡ (true, h')
      → kmalloc source others (suc fuel) h size
        ≡ kmalloc source others fuel (others h') (round_16 size)
  unfolding kmalloc
  kmalloc_grows others fuel size h h' nz e x = rw (not_zero size nz, e, x) refl

  kmalloc_fails :
      (others : Heap source → Heap source) (fuel size : ℕ) (h h' : Heap source)
      → size ≢ 0
      → first_fit h.blocks (round_16 size) ≡ no_fit
      → expand_heap source h (round_16 size) ≡ (false, h')
      → kmalloc source others (suc fuel) h size ≡ returned 0 h'
  unfolding kmalloc
  kmalloc_fails others fuel size h h' nz e x = rw (not_zero size nz, e, x) refl

  -- A block that the walk grants.
  granted_block :
      (h : Heap source) (size n : ℕ) (scan : Scan) (out : Outcome source)
      → size ≤ n
      → IsValid source h
      → (r : Grants heap_start h.heap_end h.blocks n scan)
      → out ≡ returned (r.at + header) (record h { blocks = r.after })
      → Result h size out
  granted_block h size n scan out le v r e =
      block r.at r.granted (record h { blocks = r.after }) e (omega (arith, r.enough))
        (omega (
          arith,
          used_at_aligned heap_start h.heap_end r.at r.granted r.after r.tiles (omega arith) (
              r.others r.at
              ∙ ap (λ t. if t then some r.granted else used_at h.blocks r.at) (==_self r.at)),
        ))
        r.unused r.others (record { tiles = r.tiles; top = v.top })

  -- What the other CPUs make of a valid heap with a block of the size is such a heap.
  abbrev pub Calm : (Heap source → Heap source) → ℕ → Type 0
  Calm others size =
      (g : Heap source)
      → IsValid source g
      → ¬ NoFit g.blocks (round_16 size)
      → IsValid source (others g) × (¬ NoFit (others g).blocks (round_16 size))

  -- The end of a call, seen from the heap that its last section found: the first heap, or what the other
  -- CPUs made of the heap that the first section expanded.
  abbrev pub Answers : (Heap source → Heap source) → Heap source → ℕ → Outcome source → Type 0
  Answers others h size out =
      Result h size out ⊎ Result (others ((expand_heap source h (round_16 size)).1)) size out

  module _ (others : Heap source → Heap source) (size : ℕ) (calm : Calm others size) (nz : size ≢ 0)
      (small : size < 2 ^ 63) where
    -- The second section finds a block.
    second_section :
        (fuel : ℕ) (g : Heap source)
        → IsValid source g
        → ¬ NoFit g.blocks (round_16 size)
        → Result g size (kmalloc source others (suc fuel) g (round_16 size))
    second_section fuel g w some_fit =
        let b = round_16_bounds size small in
        let n = round_16 size in
        elim (first_fit_cases heap_start g.heap_end n g.blocks w.tiles w.top b.2) [
          | inl q ↦ absurd (some_fit q.1)
          | inr r ↦ granted_block g size n (first_fit g.blocks n) _ b.0 w r (
              kmalloc_found others fuel n g (r.at + header) r.after (omega (arith, b.0))
                (ap (first_fit g.blocks) (round_16-round_16 size small) ∙ r.is_found))
        ]

    -- `kmalloc` of a size from 1 to 2^63 - 1 on a valid heap with room above it for an expansion, where
    -- the other CPUs, while the lock is free after the expansion, keep the heap valid and leave a block of
    -- the size: one call of itself is enough, it meets no corrupt header, and it ends in NULL with the same
    -- blocks and range as its last section found, or with a pointer behind the header of a block of at least
    -- the size, at a multiple of 16, that was not in use then and now is, all other blocks in use being as
    -- they were and the heap valid.
    pub kmalloc-Result :
        (fuel : ℕ) (h : Heap source)
        → IsValid source h
        → h.heap_end + pages_for (round_16 size) * 4096 + 4096 ≤ 2 ^ 64
        → Answers others h size (kmalloc source others (suc (suc fuel)) h size)
    kmalloc-Result fuel h v room =
        let b = round_16_bounds size small in
        let n = round_16 size in
        elim (first_fit_cases heap_start h.heap_end n h.blocks v.tiles v.top b.2) [
          | inr r ↦ inl (
              granted_block h size n (first_fit h.blocks n) _ b.0 v r
                (kmalloc_found others (suc fuel) size h (r.at + header) r.after nz r.is_found))
          | inl q ↦ elim (expand_heap_cases source h n v (omega (arith, b.1)) b.2 room) [
            | inl x ↦
                let g = grown source h n in
                let (w, some_fit) = calm g x.1 x.2 in
                let runs = kmalloc_grows others (suc fuel) size h g nz q.0 x.0 in
                inr (
                  subst
                    (λ e.
                      Result (others (e.1)) size (kmalloc source others (suc (suc fuel)) h size))
                    (sym x.0)
                    (subst (Result (others g) size) (sym runs)
                      (second_section fuel (others g) w some_fit)))
            | inr x ↦ inl (null _ (kmalloc_fails others (suc fuel) size h _ nz q.0 x) refl refl)
          ]
        ]
