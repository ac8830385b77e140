-- ===== src/Heap/FirstFit.antt =====
-- The first-fit walk of `kmalloc`: which block it takes, and what becomes of the others.
use aetheroz.Prelude.{
  ℕ, ◌+◌, ◌%◌, ◌^◌, ◌≤◌, ◌<◌, ◌≡◌, refl, sym, ap, subst, ◌∙◌, ◌⊎◌, inl, inr, true, false, ◌&&◌,
  none, some, List, [], ◌∷◌, arith, ltb, leb, ltb→lt, ◌==◌, if◌then◌else◌, Bool-cases,
}
use aetheroz.Heap.{Block, heap_magic, header, Scan, no_fit, found, place, behind, word, first_fit}
use aetheroz.Heap.Tiling.{Tiles, Tiles-le, used_at, used_at_below}

-- A block whose header was at `x` and was not in use is now in use with `granted` bytes, all others
-- in use are as they were, and the tiling is kept.
pub record Grants (a e : ℕ) (bs : List Block) (size : ℕ) (out : Scan) : Type 0 where
  pub at : ℕ
  pub granted : ℕ
  pub after : List Block
  pub is_found : out ≡ found (at + header) after
  pub above : a ≤ at
  pub enough : size ≤ granted
  pub unused : used_at bs at ≡ none
  pub others : (x : ℕ) → used_at after x ≡ (if at == x then some granted else used_at bs x)
  pub tiles : Tiles a after e

-- No free block is large enough.
abbrev pub NoFit : List Block → ℕ → Type 0
NoFit [] size = Unit {0}
NoFit (b ∷ bs) size = ((b.is_free && leb size b.size) ≡ false) × NoFit bs size

-- A tiling seen from an equal start.
Tiles-from : (a a' e : ℕ) (bs : List Block) → a ≡ a' → Tiles a bs e → Tiles a' bs e
Tiles-from a a' e bs q t = subst (λ k. Tiles k bs e) q t

place-Tiles :
    (a e size : ℕ) (b : Block) (bs : List Block)
    → Tiles a (b ∷ bs) e
    → e + 4096 ≤ 2 ^ 64
    → size % 16 ≡ 0
    → size ≤ b.size
    → Tiles a (place b size bs) e
unfolding place
place-Tiles a e size b bs t top al fit = elim (Bool-cases (ltb (word (size + header + 1)) b.size)) [
  | inr whole ↦ rw whole t
  | inl split ↦
      let le = Tiles-le (a + header + b.size) e bs t.3 in
      let big : size + header + 1 < b.size = ground (arith, le, ltb→lt _ _ split) in
      rw split (
        t.0,
        t.1,
        al,
        (omega (arith, le), refl, omega arith, Tiles-from _ _ e bs (omega arith) t.3),
      )
]

place-used :
    (a e size : ℕ) (b : Block) (bs : List Block)
    → Tiles a (b ∷ bs) e
    → b.is_free ≡ true
    → size ≤ b.size
    → (n : ℕ) × (size ≤ n)
      × ((x : ℕ) → used_at (place b size bs) x ≡ (if a == x then some n else used_at (b ∷ bs) x))
unfolding place used_at
place-used a e size b bs t free fit = elim (Bool-cases (ltb (word (size + header + 1)) b.size)) [
  | inr whole ↦ (b.size, fit, λ x. rw whole (ground arith))
  | inl split ↦ (size, omega arith, λ x. rw split (ground arith))
]

-- A walk that has passed a block that is not taken.
pass :
    (a e size : ℕ) (b : Block) (bs : List Block) (out : Scan)
    → Tiles a (b ∷ bs) e
    → Grants (a + header + b.size) e bs size out
    → Grants a e (b ∷ bs) size (behind b out)
unfolding used_at behind
pass a e size b bs out t g = record {
  at = g.at;
  granted = g.granted;
  after = b ∷ g.after;
  is_found = ground (arith, g.is_found);
  above = omega (arith, g.above);
  enough = g.enough;
  unused = ground (arith, g.unused, g.above);
  others = λ x. ground (arith, g.others x, g.above);
  tiles = (t.0, t.1, t.2, g.tiles);
}

take_it :
    (a e size : ℕ) (b : Block) (bs : List Block)
    → Tiles a (b ∷ bs) e
    → e + 4096 ≤ 2 ^ 64
    → size % 16 ≡ 0
    → b.is_free ≡ true
    → size ≤ b.size
    → Grants a e (b ∷ bs) size (found (word (b.addr + header)) (place b size bs))
unfolding used_at
take_it a e size b bs t top al free fit =
    let (n, enough, others) = place-used a e size b bs t free fit in
    record {
      at = a;
      granted = n;
      after = place b size bs;
      is_found =
          ap (λ k. found k (place b size bs))
            (omega (arith, Tiles-le (a + header + b.size) e bs t.3));
      above = omega arith;
      enough = enough;
      unused = ground (arith, used_at_below (a + header + b.size) e a bs t.3);
      others = others;
      tiles = place-Tiles a e size b bs t top al fit;
    }

first_fit-skip :
    (b : Block) (bs : List Block) (size : ℕ)
    → b.magic ≡ heap_magic
    → (b.is_free && leb size b.size) ≡ false
    → first_fit (b ∷ bs) size ≡ behind b (first_fit bs size)
unfolding first_fit
first_fit-skip b bs size m h = ground arith

pub first_fit-take :
    (b : Block) (bs : List Block) (size : ℕ)
    → b.magic ≡ heap_magic
    → (b.is_free && leb size b.size) ≡ true
    → first_fit (b ∷ bs) size ≡ found (word (b.addr + header)) (place b size bs)
unfolding first_fit
first_fit-take b bs size m h = ground arith

behind-no_fit : (b : Block) → behind b no_fit ≡ no_fit
unfolding behind
behind-no_fit b = refl

-- `first_fit` on a tiled heap grants a block, or there is none that fits; it meets no corrupt header.
pub first_fit_cases :
    (a e size : ℕ) (bs : List Block)
    → Tiles a bs e
    → e + 4096 ≤ 2 ^ 64
    → size % 16 ≡ 0
    → ((first_fit bs size ≡ no_fit) × NoFit bs size) ⊎ Grants a e bs size (first_fit bs size)
unfolding first_fit
first_fit_cases a e size [] t top al = inl (refl, tt)
first_fit_cases a e size (b ∷ bs) t top al = elim (Bool-cases (b.is_free && leb size b.size)) [
  | inl fits ↦ inr (
      subst (Grants a e (b ∷ bs) size) (sym (first_fit-take b bs size t.1 fits))
        (take_it a e size b bs t top al (ground (arith, fits)) (ground (arith, fits))))
  | inr skip ↦ elim (first_fit_cases (a + header + b.size) e size bs t.3 top al) [
    | inl (q, none_fits) ↦
        inl
          (first_fit-skip b bs size t.1 skip ∙ ap (behind b) q ∙ behind-no_fit b, (skip, none_fits))
    | inr g ↦ inr (
        subst (Grants a e (b ∷ bs) size) (sym (first_fit-skip b bs size t.1 skip))
          (pass a e size b bs (first_fit bs size) t g))
  ]
]
