-- ===== src/Heap/Tiling.antt =====
-- The invariant of the kernel heap: its blocks tile the mapped range without gap or overlap.
use aetheroz.Prelude.{
  ℕ, ◌+◌, ◌%◌, ◌≤◌, ◌<◌, ◌≡◌, refl, sym, subst, true, not, ◌&&◌, Option, none, some, List, [], ◌∷◌,
  ◌++◌, arith, ◌==◌, if◌then◌else◌,
}
use aetheroz.Heap.{Block, heap_magic, header}

-- The blocks lie one behind the other from `a` to `e`, intact, in sizes of whole 16 bytes.
abbrev pub Tiles : ℕ → List Block → ℕ → Type 0
Tiles a [] e = a ≡ e
Tiles a (b ∷ bs) e =
    (b.addr ≡ a) × (b.magic ≡ heap_magic) × (b.size % 16 ≡ 0) × Tiles (a + header + b.size) bs e

pub Tiles-le : (a e : ℕ) (bs : List Block) → Tiles a bs e → a ≤ e
Tiles-le a e [] t = omega arith
Tiles-le a e (b ∷ bs) t = omega (arith, Tiles-le (a + header + b.size) e bs t.3)

pub Tiles-append :
    (a m e : ℕ) (bs cs : List Block) → Tiles a bs m → Tiles m cs e → Tiles a (bs ++ cs) e
Tiles-append a m e [] cs t u = subst (λ k. Tiles k cs e) (sym t) u
Tiles-append a m e (b ∷ bs) cs t u =
    (t.0, t.1, t.2, Tiles-append (a + header + b.size) m e bs cs t.3 u)

-- The size of the block in use whose header lies at an address.
unfoldable pub used_at : List Block → ℕ → Option ℕ
used_at [] x = none
used_at (b ∷ bs) x = if b.addr == x && not b.is_free then some b.size else used_at bs x

pub used_at_below : (a e x : ℕ) (bs : List Block) → Tiles a bs e → x < a → used_at bs x ≡ none
unfolding used_at
used_at_below a e x [] t h = refl
used_at_below a e x (b ∷ bs) t h = ground (arith, used_at_below (a + header + b.size) e x bs t.3)

pub used_at-append_free :
    (bs : List Block) (f : Block) (x : ℕ)
    → f.is_free ≡ true
    → used_at (bs ++ (f ∷ [])) x ≡ used_at bs x
unfolding used_at
used_at-append_free [] f x h = ground arith
used_at-append_free (b ∷ bs) f x h = ground (arith, used_at-append_free bs f x h)

-- A block in use lies within the tiled range.
pub used_at_bounds :
    (a e x n : ℕ) (bs : List Block)
    → Tiles a bs e
    → used_at bs x ≡ some n
    → (a ≤ x) × (x + header + n ≤ e)
unfolding used_at
used_at_bounds a e x n [] t u = absurd (cc)
used_at_bounds a e x n (b ∷ bs) t u = ground (
  arith,
  used_at_bounds (a + header + b.size) e x n bs t.3,
  Tiles-le (a + header + b.size) e bs t.3,
)

-- Two blocks in use at different addresses do not overlap.
pub used_at_disjoint :
    (a e x y m n : ℕ) (bs : List Block)
    → Tiles a bs e
    → used_at bs x ≡ some m
    → used_at bs y ≡ some n
    → x < y
    → x + header + m ≤ y
unfolding used_at
used_at_disjoint a e x y m n [] t u w h = absurd (cc)
used_at_disjoint a e x y m n (b ∷ bs) t u w h = ground (
  arith,
  used_at_disjoint (a + header + b.size) e x y m n bs t.3,
  used_at_bounds (a + header + b.size) e y n bs t.3,
  used_at_bounds (a + header + b.size) e x m bs t.3,
)

-- Headers in use lie at multiples of 16 from the start.
pub used_at_aligned :
    (a e x n : ℕ) (bs : List Block) → Tiles a bs e → a % 16 ≡ 0 → used_at bs x ≡ some n → x % 16 ≡ 0
unfolding used_at
used_at_aligned a e x n [] t al u = absurd (cc)
used_at_aligned a e x n (b ∷ bs) t al u =
    ground (arith, used_at_aligned (a + header + b.size) e x n bs t.3)
