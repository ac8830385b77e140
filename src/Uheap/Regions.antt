-- ===== src/Uheap/Regions.antt =====
-- The calls of the user heap keep its regions apart.
use aetheroz.Prelude.{
  ℕ, ◌+◌, ◌*◌, ◌≤◌, ◌<◌, ◌≡◌, refl, sym, ap, subst, inl, inr, Bool, true, false, ◌||◌, not, Option,
  none, some, List, [], ◌∷◌, arith, ltb, leb, ◌==◌, Bool-cases,
}
use aetheroz.Uheap.{
  AddressSpace, Region, Uheap, page, uheap_base, uheap_end, uheap_max_alloc, brk_of, pages_of,
  map_pages, add_region, uheap_alloc, find_region, remove_region, resize_region, free_found,
  uheap_free, move_region, realloc_found, uheap_realloc,
}

-- The regions lie below a limit, one below the other with a free page behind each, and none holds more
-- bytes than it has.
unfoldable pub Stacked : ℕ → List Region → Type 0
Stacked limit [] = uheap_base ≤ limit
Stacked limit (r ∷ rs) =
    (r.base + r.pages * page + page ≤ limit)
    × (0 < r.pages)
    × (r.size ≤ r.pages * page)
    × Stacked r.base rs

-- A heap before its first allocation may have the break 0.
pub record IsUheap (h : Uheap) : Type 0 where
  pub stacked : Stacked (brk_of h) h.regions
  pub below_end : brk_of h ≤ uheap_end

Stacked-raise : (a b : ℕ) (rs : List Region) → a ≤ b → Stacked a rs → Stacked b rs
unfolding Stacked
Stacked-raise a b [] le v = omega arith
Stacked-raise a b (r ∷ rs) le (p, q, t, v) = (omega arith, q, t, v)

remove_region-Stacked :
    (uaddr limit : ℕ) (rs : List Region) → Stacked limit rs → Stacked limit (remove_region uaddr rs)
unfolding Stacked remove_region
remove_region-Stacked uaddr limit [] v = v
remove_region-Stacked uaddr limit (r ∷ rs) (p, q, t, v) = elim (Bool-cases (r.base == uaddr)) [
  | inl found ↦ rw found (Stacked-raise r.base limit rs (omega arith) v)
  | inr other ↦ rw other (p, q, t, remove_region-Stacked uaddr r.base rs v)
]

resize_region-Stacked :
    (uaddr size limit : ℕ) (rs : List Region) (r : Region)
    → find_region uaddr rs ≡ some r
    → size ≤ r.pages * page
    → Stacked limit rs
    → Stacked limit (resize_region uaddr size rs)
unfolding Stacked resize_region find_region
resize_region-Stacked uaddr size limit [] r e fits v = v
resize_region-Stacked uaddr size limit (x ∷ rs) r e fits (p, q, t, v) =
    elim (Bool-cases (x.base == uaddr)) [
      | inl found ↦
          let same : some x ≡ some r = rw found at e in
          let back : Option Region → Region = λ o. elim o [ none ↦ x | some y ↦ y ] in
          rw found (p, q, subst (λ y. size ≤ y.pages * page) (sym (ap back same)) fits, v)
      | inr other ↦
          let below : find_region uaddr rs ≡ some r = rw other at e in
          rw other (p, q, t, resize_region-Stacked uaddr size x.base rs r below fits v)
    ]

add_region-IsUheap :
    (k : AddressSpace) (h : Uheap) (size pages : ℕ) (o : Bool × k.State)
    → IsUheap h
    → 0 < pages
    → size ≤ pages * page
    → brk_of h + pages * page + page ≤ uheap_end
    → IsUheap (add_region k h (brk_of h) size pages o).1
unfolding add_region Stacked
add_region-IsUheap k h size pages (false, s) v some_pages fits ends = v
add_region-IsUheap k h size pages (true, s) v some_pages fits ends = record {
  stacked = (ground arith, some_pages, fits, v.stacked);
  below_end = ground arith;
}

size_parts :
    (a : Bool) (size : ℕ) → (not a || size == 0 || ltb uheap_max_alloc size) ≡ false → 0 < size
size_parts a size h = ground arith

room_parts : (n : ℕ) (b : Bool) → (ltb uheap_end n || b) ≡ false → n ≤ uheap_end
room_parts n b h = ground arith

pub uheap_alloc-IsUheap :
    (k : AddressSpace) (s : k.State) (has_space : Bool) (h : Uheap) (size : ℕ)
    → IsUheap h
    → IsUheap (uheap_alloc k s has_space h size).1
unfolding uheap_alloc
uheap_alloc-IsUheap k s has_space h size v =
    let pages = pages_of size in
    elim (Bool-cases (not has_space || size == 0 || ltb uheap_max_alloc size)) [
      | inl bad ↦ rw bad v
      | inr good ↦
          let some_bytes = size_parts has_space size good in
          elim (Bool-cases
            (ltb uheap_end (brk_of h + pages * page + page) || not (k.node_granted s))) [
              | inl full ↦ rw (good, full) v
              | inr room ↦
                  rw (good, room)
                    (add_region-IsUheap k h size pages (map_pages k s (brk_of h) 0 pages) v
                      (omega arith) (omega arith)
                      (room_parts (brk_of h + pages * page + page) _ room))
            ]
    ]

free_found-IsUheap :
    (k : AddressSpace) (s : k.State) (h : Uheap) (uaddr : ℕ) (o : Option Region)
    → IsUheap h
    → IsUheap (free_found k s h uaddr o).1
unfolding free_found
free_found-IsUheap k s h uaddr none v = v
free_found-IsUheap k s h uaddr (some r) v = record {
  stacked = remove_region-Stacked uaddr (brk_of h) h.regions v.stacked;
  below_end = v.below_end;
}

pub uheap_free-IsUheap :
    (k : AddressSpace) (s : k.State) (h : Uheap) (uaddr : ℕ)
    → IsUheap h
    → IsUheap (uheap_free k s h uaddr).1
unfolding uheap_free
uheap_free-IsUheap k s h uaddr v = elim (Bool-cases (uaddr == 0)) [
  | inl null ↦ rw null v
  | inr given ↦ rw given (free_found-IsUheap k s h uaddr (find_region uaddr h.regions) v)
]

move_region-IsUheap :
    (k : AddressSpace) (r : Region) (uaddr size : ℕ) (o : ℕ × Uheap × k.State)
    → IsUheap o.1
    → IsUheap (move_region k r uaddr size o).1
unfolding move_region
move_region-IsUheap k r uaddr size (new_base, h, s) v = elim (Bool-cases (new_base == 0)) [
  | inl none' ↦ rw none' v
  | inr moved ↦ rw moved (uheap_free-IsUheap k _ h uaddr v)
]

realloc_found-IsUheap :
    (k : AddressSpace) (s : k.State) (has_space : Bool) (h : Uheap) (uaddr size : ℕ)
    (o : Option Region)
    → find_region uaddr h.regions ≡ o
    → IsUheap h
    → IsUheap (realloc_found k s has_space h uaddr size o).1
unfolding realloc_found
realloc_found-IsUheap k s has_space h uaddr size none e v = v
realloc_found-IsUheap k s has_space h uaddr size (some r) e v =
    elim (Bool-cases (leb size (r.pages * page))) [
      | inl fits ↦ rw fits (record {
        stacked =
            resize_region-Stacked uaddr size (brk_of h) h.regions r e (ground arith) v.stacked;
        below_end = v.below_end;
      })
      | inr grows ↦ rw grows (
          move_region-IsUheap k r uaddr size (uheap_alloc k s has_space h size)
            (uheap_alloc-IsUheap k s has_space h size v))
    ]

pub uheap_realloc-IsUheap :
    (k : AddressSpace) (s : k.State) (has_space : Bool) (h : Uheap) (uaddr size : ℕ)
    → IsUheap h
    → IsUheap (uheap_realloc k s has_space h uaddr size).1
unfolding uheap_realloc
uheap_realloc-IsUheap k s has_space h uaddr size v = elim (Bool-cases (uaddr == 0)) [
  | inl null ↦ rw null (uheap_alloc-IsUheap k s has_space h size v)
  | inr given ↦ elim (Bool-cases (size == 0)) [
    | inl empty ↦ rw (given, empty) (uheap_free-IsUheap k s h uaddr v)
    | inr sized ↦ elim (Bool-cases (ltb uheap_max_alloc size)) [
      | inl huge ↦ rw (given, sized, huge) v
      | inr fine ↦
          rw (given, sized, fine)
            (realloc_found-IsUheap k s has_space h uaddr size (find_region uaddr h.regions) refl v)
    ]
  ]
]
