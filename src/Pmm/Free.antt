-- ===== src/Pmm/Free.antt =====
-- `pmm_free_page`: which calls free a page, that they keep the invariant, and how
-- they meet `pmm_alloc_page`.
use aetheroz.Prelude.{
  ℕ, ◌+◌, ◌*◌, ◌/◌, ◌%◌, ◌≤◌, ◌<◌, ◌≡◌, refl, ◌⊎◌, inl, inr, true, false, not, ◌&&◌, ◌||◌, min, ltb,
  subst, sym, ap, arith, ◌==◌, Bool-cases, ◌≢◌, ◌↔◌,
}
use aetheroz.Pmm.{
  Pmm, page_size, low_zone, FreeResult, freed, free_null, free_unaligned, free_out_of_range,
  free_low_reserved, double_free, free_locked, free_page, alloc_page,
}
use aetheroz.Pmm.Bitmap.{bitmap_test, bitmap_test-clear, bitmap_clear_bit-Holds}
use aetheroz.Pmm.Search.{used_below-pos, used_below-clear, IsValid}
use aetheroz.Pmm.Alloc.{alloc_page_lem, alloc_page-IsValid}

-- What `pmm_free_page` demands of an address.
pub record IsFreeable (p : Pmm) (addr : ℕ) : Type 0 where
  pub aligned : addr % page_size ≡ 0
  pub in_range : addr / page_size < p.bitmap_pages
  pub above_low : low_zone ≤ addr
  pub is_used : bitmap_test p.bitmap (addr / page_size) ≡ true

-- On a mapped bitmap success is reported for exactly these addresses.
pub free_page-freed_iff :
    (p : Pmm) (addr : ℕ) → p.mapped ≡ true → ((free_page p addr).0 ≡ freed) ↔ IsFreeable p addr
unfolding free_page
free_page-freed_iff p addr m = (λ e. ground (arith, e), λ f. ground arith)

-- A call of `pmm_free_page` that reports anything but success changes nothing.
free_page-refused : (p : Pmm) (addr : ℕ) → (free_page p addr).0 ≢ freed → (free_page p addr).1 ≡ p
unfolding free_page
free_page-refused p addr h = ground arith

free_locked-IsValid :
    (p : Pmm) (bit : ℕ)
    → IsValid p
    → low_zone ≤ bit * page_size
    → bit < p.bitmap_pages
    → IsValid (free_locked p bit).1
unfolding free_locked
free_locked-IsValid p bit v low hi = elim (Bool-cases (bitmap_test p.bitmap bit)) [
  | inr free ↦ rw free v
  | inl used ↦ rw used (record {
    is_mapped = v.is_mapped;
    holds = bitmap_clear_bit-Holds p.bitmap p.bitmap_pages bit v.holds;
    total_eq = v.total_eq;
    pages_lt = v.pages_lt;
    low_used = λ j a b.
        ground
          (arith, bitmap_test-clear p.bitmap p.bitmap_pages bit j v.holds hi, v.low_used j a b);
    counted = ground (
      arith,
      v.counted,
      used_below-clear p.bitmap p.bitmap_pages bit v.holds hi p.total_pages used,
      used_below-pos p.bitmap p.total_pages bit,
    );
  })
]

FreeResult-cases : (r : FreeResult) → (r ≡ freed) ⊎ (r ≢ freed)
FreeResult-cases freed = inl refl
FreeResult-cases free_null = inr cc
FreeResult-cases free_unaligned = inr cc
FreeResult-cases free_out_of_range = inr cc
FreeResult-cases free_low_reserved = inr cc
FreeResult-cases double_free = inr cc

free_page_of_freeable :
    (p : Pmm) (addr : ℕ)
    → p.mapped ≡ true
    → IsFreeable p addr
    → free_page p addr ≡ free_locked p (addr / page_size)
unfolding free_page
free_page_of_freeable p addr m f = ground arith

-- `pmm_free_page` keeps the invariant of the allocator, whatever address it is given.
pub free_page-IsValid : (p : Pmm) (addr : ℕ) → IsValid p → IsValid (free_page p addr).1
free_page-IsValid p addr v = elim (FreeResult-cases (free_page p addr).0) [
  | inr no_change ↦ rw (free_page-refused p addr no_change) v
  | inl e ↦
      let f = (free_page-freed_iff p addr v.is_mapped).0 e in
      rw (free_page_of_freeable p addr v.is_mapped f) (
        free_locked-IsValid p (addr / page_size) v (omega (arith, f.aligned, f.above_low))
          f.in_range)
]

-- What a call leaves of a page that may be freed, and of any other address.
abbrev pub FreesPage : Pmm → ℕ → FreeResult × Pmm → Type 0
FreesPage p addr r =
    (IsFreeable p addr
      × (r.0 ≡ freed)
      × ((j : ℕ)
          → bitmap_test r.1.bitmap j ≡ (not (addr / page_size == j) && bitmap_test p.bitmap j))
      × (r.1.used_pages + 1 ≡ p.used_pages)
      × (r.1.next_free_hint ≡ min p.next_free_hint (addr / page_size)))
    ⊎ ((¬ IsFreeable p addr) × (r.0 ≢ freed) × (r.1 ≡ p))

freed_locked :
    (p : Pmm) (addr : ℕ)
    → IsValid p
    → IsFreeable p addr
    → FreesPage p addr (free_locked p (addr / page_size))
unfolding free_locked
freed_locked p addr v f =
    let below : addr / page_size < p.total_pages = omega (arith, f.in_range, v.total_eq) in
    let positive : 0 < p.used_pages = omega (
      arith,
      v.counted,
      used_below-pos p.bitmap p.total_pages (addr / page_size) below f.is_used,
    ) in
    let q : ltb 0 p.used_pages ≡ true = ground arith in
    rw (f.is_used, q)
      (inl (
        f,
        refl,
        λ j. bitmap_test-clear p.bitmap p.bitmap_pages (addr / page_size) j v.holds f.in_range,
        omega arith,
        ground arith,
      ))

-- `pmm_free_page` on a valid allocator takes exactly the used pages that are aligned, in range and above
-- the low zone: then that page alone goes out of use, the count of used pages is one less and the hint
-- is at most the page. For every other address it reports no success and changes nothing.
pub free_page-FreesPage : (p : Pmm) (addr : ℕ) → IsValid p → FreesPage p addr (free_page p addr)
free_page-FreesPage p addr v = elim (FreeResult-cases (free_page p addr).0) [
  | inr no_change ↦ inr (
    λ f. no_change ((free_page-freed_iff p addr v.is_mapped).1 f),
    no_change,
    free_page-refused p addr no_change,
  )
  | inl e ↦
      let f = (free_page-freed_iff p addr v.is_mapped).0 e in
      subst (FreesPage p addr) (sym (free_page_of_freeable p addr v.is_mapped f))
        (freed_locked p addr v f)
]

-- A page that `pmm_free_page` has freed is free: freeing it again is refused as a double free.
free_page_twice :
    (p : Pmm) (addr : ℕ)
    → IsValid p
    → (free_page p addr).0 ≡ freed
    → (free_page (free_page p addr).1 addr).0 ≡ double_free
unfolding free_page free_locked
free_page_twice p addr v e =
    let f = (free_page-freed_iff p addr v.is_mapped).0 e in
    ground (
      arith,
      v.is_mapped,
      bitmap_test-clear p.bitmap p.bitmap_pages (addr / page_size) (addr / page_size) v.holds
          f.in_range,
    )

-- What freeing the page `i` leaves of a state in which it had just been taken.
abbrev pub Restored : Pmm → FreeResult × Pmm → ℕ → Type 0
Restored p out i =
    (out.0 ≡ freed)
    × ((j : ℕ) → bitmap_test out.1.bitmap j ≡ bitmap_test p.bitmap j)
    × (out.1.used_pages ≡ p.used_pages)
    × (out.1.next_free_hint ≡ i)

free_locked-Restored :
    (p q : Pmm) (i : ℕ)
    → IsValid q
    → i < q.bitmap_pages
    → bitmap_test p.bitmap i ≡ false
    → ((j : ℕ) → bitmap_test q.bitmap j ≡ (i == j || bitmap_test p.bitmap j))
    → q.used_pages ≡ p.used_pages + 1
    → q.next_free_hint ≡ i + 1
    → Restored p (free_locked q i) i
unfolding free_locked
free_locked-Restored p q i v hi free marked used hint = (
  ground (arith, marked i),
  λ j.
      ground
        (arith, marked i, marked j, bitmap_test-clear q.bitmap q.bitmap_pages i j v.holds hi, free),
  ground (arith, marked i),
  ground (arith, marked i),
)

-- Freeing the page that `pmm_alloc_page` returned succeeds, and puts the pool back as it was: the
-- same pages are used, the counter has its old value, and the page is the next to be searched.
pub free_page-alloc_page :
    (p : Pmm)
    → IsValid p
    → (alloc_page p).0 ≢ 0
    → let (addr, q) = alloc_page p in Restored p (free_page q addr) (addr / page_size)
free_page-alloc_page p v h = elim (alloc_page_lem p v) [
  | inl (e, all) ↦ absurd (h (ap (λ (o : ℕ × Pmm). o.0) e))
  | inr (i, t) ↦
      let page : (alloc_page p).0 / page_size ≡ i = omega (arith, t.address) in
      let w = alloc_page-IsValid p v in
      let hi : i < (alloc_page p).1.bitmap_pages =
        omega (arith, t.pages, t.below_total, v.total_eq) in
      let f : IsFreeable (alloc_page p).1 (alloc_page p).0 = record {
        aligned = omega (arith, t.address);
        in_range = rw page hi;
        above_low = omega (arith, t.address, t.above_low);
        is_used = rw page (ground (arith, t.marked i));
      } in
      rw (free_page_of_freeable (alloc_page p).1 (alloc_page p).0 w.is_mapped f, page)
        (free_locked-Restored p (alloc_page p).1 i w hi t.was_free t.marked t.total_used t.hint)
]
