-- ===== src/Display.antt =====
-- kernel/display.c: rectangles, pixel buffers, dirty regions and viewports. Coordinates are `int32_t`
-- and extents `uint32_t`; the code computes with `int64_t`, which holds every sum that it forms. The
-- casts back to 32 bits are written out where they can lose a bit. A buffer's pixels are a function of
-- the index; `kmalloc` and `kfree` of the pixels are not modelled.
pub mod Rects
pub mod Union
pub mod Fill
pub mod Dirty
mod Witnesses
use aetheroz.Prelude.{
  ℕ, zero, suc, ◌+◌, ◌-◌, ◌*◌, ◌%◌, ◌^◌, Bool, true, false, ◌&&◌, ◌||◌, not, Option, none, some,
  List, [], ◌∷◌, ◌++◌, ltb, leb, ◌==◌, if◌then◌else◌, length, set, update,
}
use aetheroz.Prelude.Int.{ℤ, pos, negsuc, pos_part, neg_part, ◌+ℤ◌, ◌-ℤ◌, ltb_ℤ}

pub record Rect : Type 0 where
  pub x : ℤ
  pub y : ℤ
  pub width : ℕ
  pub height : ℕ

abbrev pub max_ℤ : ℤ → ℤ → ℤ
max_ℤ a b = if ltb_ℤ b a then a else b

abbrev pub min_ℤ : ℤ → ℤ → ℤ
min_ℤ a b = if ltb_ℤ a b then a else b

-- `(uint32_t)(x1 - x0)` where `x0 <= x1`.
abbrev pub extent : ℤ → ℤ → ℕ
extent x0 x1 = pos_part (x1 -ℤ x0) % 2 ^ 32

-- The rectangle between two corners; `none` for the result 0.
unfoldable pub between : ℤ → ℤ → ℤ → ℤ → Option Rect
between x0 y0 x1 y1 =
    if not (ltb_ℤ x0 x1) || not (ltb_ℤ y0 y1)
    then none
    else some (record { x = x0; y = y0; width = extent x0 x1; height = extent y0 y1 })

abbrev pub right : Rect → ℤ
right r = r.x +ℤ pos r.width

abbrev pub bottom : Rect → ℤ
bottom r = r.y +ℤ pos r.height

unfoldable pub rect_intersect : Rect → Rect → Option Rect
rect_intersect a b =
    between (max_ℤ a.x b.x) (max_ℤ a.y b.y) (min_ℤ (right a) (right b))
      (min_ℤ (bottom a) (bottom b))

unfoldable pub rect_union : Rect → Rect → Rect
rect_union a b =
    let x0 = min_ℤ a.x b.x in
    let y0 = min_ℤ a.y b.y in
    record {
      x = x0;
      y = y0;
      width = extent x0 (max_ℤ (right a) (right b));
      height = extent y0 (max_ℤ (bottom a) (bottom b));
    }

-- MAX_DIRTY_REGIONS.
abbrev pub max_dirty_regions : ℕ
max_dirty_regions = 64

-- `regions[0..count)` is a list.
pub record DirtyRegionList : Type 0 where
  pub regions : List Rect
  pub collapsed : Bool

unfoldable pub dirty_region_clear : DirtyRegionList → DirtyRegionList
dirty_region_clear list = record { regions = []; collapsed = false }

-- `for (i = 1; i < count; i++) box = rect_union(box, regions[i])`
unfoldable pub bounding_box : Rect → List Rect → Rect
bounding_box box [] = box
bounding_box box (r ∷ rs) = bounding_box (rect_union box r) rs

-- One region in place of all; `regions` has a first element where this is called.
unfoldable pub collapse_with : List Rect → Rect → List Rect
collapse_with [] r = []
collapse_with (box ∷ rs) r = rect_union (bounding_box box rs) r ∷ []

-- A write of `regions[0]`.
unfoldable pub widen_first : List Rect → Rect → List Rect
widen_first [] r = []
widen_first (box ∷ rs) r = rect_union box r ∷ rs

unfoldable pub dirty_region_mark : DirtyRegionList → Rect → DirtyRegionList
dirty_region_mark list r =
    if r.width == 0 || r.height == 0
    then list
    else if list.collapsed
    then record list { regions = widen_first list.regions r }
    else if leb max_dirty_regions (length list.regions)
    then record { regions = collapse_with list.regions r; collapsed = true }
    else record list { regions = list.regions ++ (r ∷ []) }

-- A buffer; `dirty` is `none` for NULL.
pub record DisplayBuffer : Type 0 where
  pub width : ℕ
  pub height : ℕ
  pub stride : ℕ
  pub pixels : ℕ → ℕ
  pub dirty : Option DirtyRegionList

abbrev pub mark_dirty : Option DirtyRegionList → Rect → Option DirtyRegionList
mark_dirty none r = none
mark_dirty (some list) r = some (dirty_region_mark list r)

-- The part of a rectangle that lies in the buffer; `none` for the result 0.
unfoldable pub rect_clip_to_buffer : DisplayBuffer → Rect → Option Rect
rect_clip_to_buffer b area =
    between (max_ℤ area.x (pos 0)) (max_ℤ area.y (pos 0)) (min_ℤ (right area) (pos b.width))
      (min_ℤ (bottom area) (pos b.height))

unfoldable pub display_buffer_write_pixel : DisplayBuffer → ℤ → ℤ → ℕ → DisplayBuffer
display_buffer_write_pixel b (pos x) (pos y) color =
    if leb b.width x || leb b.height y then b else record b {
      pixels = update b.pixels ((y * b.stride + x) % 2 ^ 32) color;
      dirty = mark_dirty b.dirty (record { x = pos x; y = pos y; width = 1; height = 1 });
    }
display_buffer_write_pixel b _ _ color = b

-- `for (col = 0; col < width; col++) line[col] = color`, with `line` at an index.
unfoldable pub fill_line : (ℕ → ℕ) → ℕ → ℕ → ℕ → ℕ → ℕ
fill_line pixels line zero color = pixels
fill_line pixels line (suc n) color = fill_line (update pixels line color) (line + 1) n color

-- The rows from `y` on, `n` of them. The row's offset is a `uint32_t`.
unfoldable pub fill_rows : (ℕ → ℕ) → ℕ → ℕ → ℕ → ℕ → ℕ → ℕ → ℕ → ℕ
fill_rows pixels stride x y width zero color = pixels
fill_rows pixels stride x y width (suc n) color =
    fill_rows (fill_line pixels (y * stride % 2 ^ 32 + x) width color) stride x (y + 1) width n
      color

-- The clipped rectangle is filled and marked.
unfoldable pub fill_clipped : DisplayBuffer → ℕ → Option Rect → DisplayBuffer
fill_clipped b color none = b
fill_clipped b color (some r) = record b {
  pixels = fill_rows b.pixels b.stride (pos_part r.x) (pos_part r.y) r.width r.height color;
  dirty = mark_dirty b.dirty r;
}

unfoldable pub display_buffer_fill_rect : DisplayBuffer → Rect → ℕ → DisplayBuffer
display_buffer_fill_rect b area color = fill_clipped b color (rect_clip_to_buffer b area)
