-- ===== src/Heap/Merging.antt =====
-- `kfree`: the header that it marks free, and the walk that merges free neighbours.
use aetheroz.Prelude.{
  ℕ, ◌+◌, ◌-◌, ◌^◌, ◌≤◌, ◌≡◌, refl, ap, subst, ◌∙◌, inl, inr, true, false, ◌&&◌, none, some, List,
  [], ◌∷◌, arith, ◌==◌, if◌then◌else◌, Bool-cases,
}
use aetheroz.Heap.{
  Block, header, word, Release, released, keep, release, Walk, walked, step_over, mergeable, merge,
  coalesce_from, coalesce, Freed, kfree, freed_to,
}
use aetheroz.Heap.Tiling.{Tiles, Tiles-le, used_at, used_at_below, used_at_bounds}

-- The block at `x` goes out of use, the others stay, and the tiling is kept.
pub record Releases (a e : ℕ) (bs : List Block) (x : ℕ) (out : Release) : Type 0 where
  pub after : List Block
  pub is_released : out ≡ released after
  pub others : (y : ℕ) → used_at after y ≡ (if x == y then none else used_at bs y)
  pub tiles : Tiles a after e

release-Releases :
    (a e x n : ℕ) (bs : List Block)
    → Tiles a bs e
    → used_at bs x ≡ some n
    → Releases a e bs x (release bs x)
unfolding release used_at keep
release-Releases a e x n [] t u = absurd (cc)
release-Releases a e x n (b ∷ bs) t u = elim (Bool-cases (b.addr == x)) [
  | inl here ↦ record {
    after = record b { is_free = true } ∷ bs;
    is_released = ground (arith, t.1);
    others = λ y. ground (arith, used_at_below (a + header + b.size) e x bs t.3);
    tiles = (t.0, t.1, t.2, t.3);
  }
  | inr on ↦
      let r = release-Releases (a + header + b.size) e x n bs t.3 (ground (arith, u)) in
      record {
        after = b ∷ r.after;
        is_released = ground (arith, r.is_released);
        others = λ y. ground (arith, r.others y);
        tiles = (t.0, t.1, t.2, r.tiles);
      }
]

-- No two neighbours are both free.
abbrev pub Separate : List Block → Type 0
Separate [] = Unit {0}
Separate (b ∷ []) = Unit {0}
Separate (b ∷ c ∷ cs) = ((b.is_free && c.is_free) ≡ false) × Separate (c ∷ cs)

-- What the walk makes of `b ∷ bs`.
pub record Merged (a e : ℕ) (b : Block) (bs : List Block) (out : Walk) : Type 0 where
  pub head : Block
  pub rest : List Block
  pub is_walked : out ≡ walked (head ∷ rest)
  pub head_free : head.is_free ≡ b.is_free
  pub same_used : (y : ℕ) → used_at (head ∷ rest) y ≡ used_at (b ∷ bs) y
  pub tiles : Tiles a (head ∷ rest) e
  pub separate : Separate (head ∷ rest)

-- Two free neighbours of a tiling are merged.
mergeable_of_free :
    (a e : ℕ) (b c : Block) (cs : List Block)
    → Tiles a (b ∷ c ∷ cs) e
    → e + 4096 ≤ 2 ^ 64
    → mergeable b c ≡ (b.is_free && c.is_free)
mergeable_of_free a e b c cs t top =
    ground (arith, Tiles-le (a + header + b.size + header + c.size) e cs t.3.3)

merge-Tiles :
    (a e : ℕ) (b c : Block) (cs : List Block)
    → Tiles a (b ∷ c ∷ cs) e
    → e + 4096 ≤ 2 ^ 64
    → Tiles a (merge b c ∷ cs) e
merge-Tiles a e b c cs t top =
    let le = Tiles-le (a + header + b.size + header + c.size) e cs t.3.3 in
    (t.0, t.1, omega (arith, le), subst (λ k. Tiles k cs e) (omega (arith, le)) t.3.3)

pub coalesce_from-Merged :
    (a e : ℕ) (b : Block) (bs : List Block)
    → Tiles a (b ∷ bs) e
    → e + 4096 ≤ 2 ^ 64
    → Merged a e b bs (coalesce_from b bs)
unfolding coalesce_from used_at step_over
coalesce_from-Merged a e b [] t top = record {
  head = b;
  rest = [];
  is_walked = ground (arith, t.1);
  head_free = refl;
  same_used = λ y. refl;
  tiles = t;
  separate = tt;
}
coalesce_from-Merged a e b (c ∷ cs) t top = elim (Bool-cases (b.is_free && c.is_free)) [
  | inl both ↦
      let m = coalesce_from-Merged a e (merge b c) cs (merge-Tiles a e b c cs t top) top in
      record {
        head = m.head;
        rest = m.rest;
        is_walked = ground (arith, m.is_walked, t.1, mergeable_of_free a e b c cs t top);
        head_free = m.head_free;
        same_used = λ y. ground (arith, m.same_used y);
        tiles = m.tiles;
        separate = m.separate;
      }
  | inr apart ↦
      let m = coalesce_from-Merged (a + header + b.size) e c cs t.3 top in
      record {
        head = b;
        rest = m.head ∷ m.rest;
        is_walked = ground (arith, m.is_walked, t.1, mergeable_of_free a e b c cs t top);
        head_free = refl;
        same_used = λ y. ground (arith, m.same_used y);
        tiles = (t.0, t.1, t.2, m.tiles);
        separate = (ground (arith, m.head_free), m.separate);
      }
]

-- The same of the whole list.
pub record Coalesced (a e : ℕ) (bs : List Block) (out : Walk) : Type 0 where
  pub after : List Block
  pub is_walked : out ≡ walked after
  pub same_used : (y : ℕ) → used_at after y ≡ used_at bs y
  pub tiles : Tiles a after e
  pub separate : Separate after

coalesce-Coalesced :
    (a e : ℕ) (bs : List Block) → Tiles a bs e → e + 4096 ≤ 2 ^ 64 → Coalesced a e bs (coalesce bs)
unfolding coalesce
coalesce-Coalesced a e [] t top = record {
  after = [];
  is_walked = refl;
  same_used = λ y. refl;
  tiles = t;
  separate = tt;
}
coalesce-Coalesced a e (b ∷ bs) t top =
    let m = coalesce_from-Merged a e b bs t top in
    record {
      after = m.head ∷ m.rest;
      is_walked = m.is_walked;
      same_used = m.same_used;
      tiles = m.tiles;
      separate = m.separate;
    }

-- What `kfree` leaves of a heap in which the block at `x` was in use.
pub record Frees (a e : ℕ) (bs : List Block) (x : ℕ) (out : Freed) : Type 0 where
  pub after : List Block
  pub is_freed : out ≡ freed_to after
  pub others : (y : ℕ) → used_at after y ≡ (if x == y then none else used_at bs y)
  pub tiles : Tiles a after e
  pub separate : Separate after

-- `kfree` of a pointer to a block in use, on a heap that is tiled by intact blocks: it does not
-- panic, that block alone goes out of use, the blocks tile the same range again, and no two
-- neighbours are left free.
pub kfree-Frees :
    (a e x n : ℕ) (bs : List Block)
    → Tiles a bs e
    → e + 4096 ≤ 2 ^ 64
    → used_at bs x ≡ some n
    → Frees a e bs x (kfree bs (x + header))
unfolding kfree
kfree-Frees a e x n bs t top u =
    let bounds = used_at_bounds a e x n bs t u in
    let r = release-Releases a e x n bs t u in
    let c = coalesce-Coalesced a e r.after r.tiles top in
    let back : word (x + header + 2 ^ 64 - header) ≡ x = omega (arith, bounds.1) in
    record {
      after = c.after;
      is_freed = ground (arith, ap (release bs) back, r.is_released, c.is_walked);
      others = λ y. c.same_used y ∙ r.others y;
      tiles = c.tiles;
      separate = c.separate;
    }
