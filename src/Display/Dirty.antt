-- ===== src/Display/Dirty.antt =====
-- The dirty regions: no pixel that has been marked is forgotten.
use aetheroz.Prelude.{
  ℕ, ◌≤◌, ◌<◌, ◌≡◌, refl, subst, inl, inr, Bool, true, false, List, [], ◌∷◌, ◌++◌, arith,
  Bool-cases, leb, ==→eq, ◌==◌, ◌||◌, length, length-append,
}
use aetheroz.Prelude.Int.{ℤ, pos, +ℤ_parts}
use aetheroz.Display.{
  Rect, right, rect_union, DirtyRegionList, dirty_region_mark, bounding_box, collapse_with,
  widen_first, max_dirty_regions,
}
use aetheroz.Display.Rects.{Inside}
use aetheroz.Display.Union.{OnScreen, Inside-Encloses, rect_union_lem}

-- Some region of the list has the pixel.
pub data Covered (px py : ℤ) : List Rect → Type 0 where
  here : (r : Rect) (rs : List Rect) → Inside r px py → Covered px py (r ∷ rs)
  there : (r : Rect) (rs : List Rect) → Covered px py rs → Covered px py (r ∷ rs)

abbrev pub AllOnScreen : List Rect → Type 0
AllOnScreen [] = ◌≡◌ {A = ℕ} 0 0
AllOnScreen (r ∷ rs) = OnScreen r × AllOnScreen rs

-- A collapsed list has one region, and no list has more than fit.
pub record IsDirtyList (list : DirtyRegionList) : Type 0 where
  pub on_screen : AllOnScreen list.regions
  pub fits : length list.regions ≤ max_dirty_regions
  pub one : list.collapsed ≡ true → length list.regions ≡ 1

Covered-append :
    (px py : ℤ) (rs : List Rect) (r : Rect)
    → (Covered px py rs → Covered px py (rs ++ (r ∷ [])))
      × (Inside r px py → Covered px py (rs ++ (r ∷ [])))
Covered-append px py [] r = (λ c. elim c [ ], λ i. here r [] i)
Covered-append px py (q ∷ rs) r =
    let (old, new) = Covered-append px py rs r in
    (λ c. keep c old, λ i. there q (rs ++ (r ∷ [])) (new i))
  where
    keep :
        Covered px py (q ∷ rs)
        → (Covered px py rs → Covered px py (rs ++ (r ∷ [])))
        → Covered px py (q ∷ (rs ++ (r ∷ [])))
    keep (here _ _ i) old = here q (rs ++ (r ∷ [])) i
    keep (there _ _ c) old = there q (rs ++ (r ∷ [])) (old c)

AllOnScreen-append :
    (rs : List Rect) (r : Rect) → AllOnScreen rs → OnScreen r → AllOnScreen (rs ++ (r ∷ []))
AllOnScreen-append [] r h v = (v, refl)
AllOnScreen-append (q ∷ rs) r h v = (h.0, AllOnScreen-append rs r h.1 v)

-- A rectangle that holds what `box` and the regions `rs` hold.
record Boxes (box : Rect) (rs : List Rect) (whole : Rect) : Type 0 where
  screen : OnScreen whole
  first : (px py : ℤ) → Inside box px py → Inside whole px py
  rest : (px py : ℤ) → Covered px py rs → Inside whole px py

bounding_box-Boxes :
    (rs : List Rect) (box : Rect)
    → OnScreen box
    → AllOnScreen rs
    → Boxes box rs (bounding_box box rs)
unfolding bounding_box
bounding_box-Boxes [] box v vs = record {
  screen = v;
  first = λ px py i. i;
  rest = λ px py c. elim c [ ];
}
bounding_box-Boxes (r ∷ rs) box v vs =
    let (screen, left, right, least) = rect_union_lem box r v vs.0 in
    let b = bounding_box-Boxes rs (rect_union box r) screen vs.1 in
    record {
      screen = b.screen;
      first = λ px py i. b.first px py (Inside-Encloses (rect_union box r) box px py left i);
      rest = λ px py c.
          split px py (λ i. b.first px py (Inside-Encloses (rect_union box r) r px py right i))
            (b.rest px py) c;
    }
  where
    split :
        (px py : ℤ)
        → (Inside r px py → Inside (bounding_box (rect_union box r) rs) px py)
        → (Covered px py rs → Inside (bounding_box (rect_union box r) rs) px py)
        → Covered px py (r ∷ rs)
        → Inside (bounding_box (rect_union box r) rs) px py
    split px py at past (here _ _ i) = at i
    split px py at past (there _ _ c) = past c

-- `list'` is `list` with the rectangle `r` marked.
pub record Marks (list : DirtyRegionList) (r : Rect) (list' : DirtyRegionList) : Type 0 where
  pub valid : IsDirtyList list'
  pub kept : (px py : ℤ) → Covered px py list.regions → Covered px py list'.regions
  pub added : (px py : ℤ) → Inside r px py → Covered px py list'.regions

empty_rect :
    (r : Rect) (px py : ℤ)
    → (r.width == 0 || r.height == 0) ≡ true
    → Inside r px py
    → ◌≡◌ {A = ℕ} 0 1
empty_rect r px py e i = elim (Bool-cases (r.width == 0)) [
  | inl w ↦ absurd (omega (arith, i.left, i.before, +ℤ_parts r.x (pos r.width), ==→eq _ _ w))
  | inr w ↦ absurd (
      omega (
        arith,
        i.top,
        i.above,
        +ℤ_parts r.y (pos r.height),
        ==→eq r.height 0 (let h = rw w at e in h),
      ))
]

-- One region, the box of all, stands for the regions and the new one.
boxed-Marks :
    (list : DirtyRegionList) (r box whole : Rect) (rs : List Rect)
    → list.regions ≡ box ∷ rs
    → Boxes box rs whole
    → OnScreen r
    → Marks list r (record { regions = rect_union whole r ∷ []; collapsed = true })
boxed-Marks list r box whole rs e b v =
    let (screen, left, right, least) = rect_union_lem whole r b.screen v in
    record {
      valid = record { on_screen = (screen, refl); fits = omega arith; one = λ c. refl };
      kept = λ px py c. here (rect_union whole r) [] (
          Inside-Encloses (rect_union whole r) whole px py left
            (within px py (subst (Covered px py) e c)));
      added = λ px py i.
          here (rect_union whole r) [] (Inside-Encloses (rect_union whole r) r px py right i);
    }
  where
    within : (px py : ℤ) → Covered px py (box ∷ rs) → Inside whole px py
    within px py (here _ _ i) = b.first px py i
    within px py (there _ _ c) = b.rest px py c

abbrev at_regions : List Rect → Bool → DirtyRegionList
at_regions rs c = record { regions = rs; collapsed = c }

mark_full :
    (rs : List Rect) (r : Rect)
    → max_dirty_regions ≤ length rs
    → AllOnScreen rs
    → OnScreen r
    → Marks (at_regions rs false) r (at_regions (collapse_with rs r) true)
unfolding collapse_with
mark_full [] r h vs v = absurd (omega arith)
mark_full (box ∷ rs) r h vs v =
    boxed-Marks (at_regions (box ∷ rs) false) r box (bounding_box box rs) rs refl
      (bounding_box-Boxes rs box vs.0 vs.1) v

mark_collapsed :
    (rs : List Rect) (r : Rect)
    → length rs ≡ 1
    → AllOnScreen rs
    → OnScreen r
    → Marks (at_regions rs true) r (at_regions (widen_first rs r) true)
unfolding widen_first
mark_collapsed [] r h vs v = absurd (omega arith)
mark_collapsed (box ∷ []) r h vs v =
    boxed-Marks (at_regions (box ∷ []) true) r box box [] refl
      (record { screen = vs.0; first = λ px py i. i; rest = λ px py c. elim c [ ] }) v
mark_collapsed (box ∷ q ∷ rs) r h vs v = absurd (omega arith)

mark_room :
    (rs : List Rect) (r : Rect)
    → length rs < max_dirty_regions
    → AllOnScreen rs
    → OnScreen r
    → Marks (at_regions rs false) r (at_regions (rs ++ (r ∷ [])) false)
mark_room rs r h vs v = record {
  valid = record {
    on_screen = AllOnScreen-append rs r vs v;
    fits = omega (arith, length-append rs (r ∷ []));
    one = λ e. absurd (cc);
  };
  kept = λ px py. (Covered-append px py rs r).0;
  added = λ px py. (Covered-append px py rs r).1;
}

mark_nonempty :
    (rs : List Rect) (c : Bool) (r : Rect)
    → IsDirtyList (at_regions rs c)
    → OnScreen r
    → (r.width == 0 || r.height == 0) ≡ false
    → Marks (at_regions rs c) r (dirty_region_mark (at_regions rs c) r)
unfolding dirty_region_mark
mark_nonempty rs true r l v e = rw e (mark_collapsed rs r (l.one refl) l.on_screen v)
mark_nonempty rs false r l v e = elim (Bool-cases (leb max_dirty_regions (length rs))) [
  | inl full ↦ rw (e, full) (mark_full rs r (ground arith) l.on_screen v)
  | inr room ↦ rw (e, room) (mark_room rs r (ground arith) l.on_screen v)
]

-- `dirty_region_mark` of a rectangle with 32-bit corners, on a list of at most 64 such rectangles, one if
-- it has collapsed: every pixel that was covered by a region is covered after it, and so is every pixel
-- of the rectangle; and the list is such a list again.
pub dirty_region_mark-Marks :
    (list : DirtyRegionList) (r : Rect)
    → IsDirtyList list
    → OnScreen r
    → Marks list r (dirty_region_mark list r)
unfolding dirty_region_mark
dirty_region_mark-Marks list r l v = elim (Bool-cases (r.width == 0 || r.height == 0)) [
  | inl e ↦ rw e (record {
    valid = l;
    kept = λ px py c. c;
    added = λ px py i. absurd (let q = empty_rect r px py e i in omega arith);
  })
  | inr e ↦ mark_nonempty list.regions list.collapsed r l v e
]
