-- ===== src/Display/Witnesses.antt =====
-- kernel/display.c at concrete inputs.
use aetheroz.Prelude.{◌≡◌, refl, true, some, [], ◌∷◌, arith}
use aetheroz.Prelude.Int.{pos, negsuc, ◌+ℤ◌, ◌-ℤ◌}
use aetheroz.Display.{
  Rect, between, rect_intersect, rect_union, DirtyRegionList, dirty_region_mark, DisplayBuffer,
  display_buffer_fill_rect, rect_clip_to_buffer, fill_clipped, fill_rows, fill_line,
}
use aetheroz.Display.Rects.{IsRect, Inside, Meet, rect_intersect-Meet}
use aetheroz.Display.Union.{OnScreen, Encloses, rect_union_lem}
use aetheroz.Display.Dirty.{IsDirtyList, Marks, dirty_region_mark-Marks}
use aetheroz.Display.Fill.{IsBuffer, pixel_at, display_buffer_fill_rect_lem}

abbrev panel : Rect
panel = record { x = pos 0; y = pos 0; width = 10; height = 10 }

-- It sticks out of the screen on the left.
abbrev window : Rect
window = record { x = negsuc 2; y = pos 4; width = 8; height = 20 }

panel-IsRect : IsRect panel
panel-IsRect = record {
  x_low = omega arith;
  x_high = omega arith;
  y_low = omega arith;
  y_high = omega arith;
  width_lt = omega arith;
  height_lt = omega arith;
}

window-IsRect : IsRect window
window-IsRect = record {
  x_low = omega arith;
  x_high = omega arith;
  y_low = omega arith;
  y_high = omega arith;
  width_lt = omega arith;
  height_lt = omega arith;
}

rect_intersect-Meet_example : Meet panel window (rect_intersect panel window)
rect_intersect-Meet_example = rect_intersect-Meet panel window panel-IsRect window-IsRect

intersects :
    rect_intersect panel window ≡ some (record { x = pos 0; y = pos 4; width = 5; height = 6 })
unfolding rect_intersect between ◌+ℤ◌ ◌-ℤ◌
intersects = refl

panel-OnScreen : OnScreen panel
unfolding ◌+ℤ◌
panel-OnScreen = record {
  x_word = omega arith;
  y_word = omega arith;
  right_word = omega arith;
  bottom_word = omega arith;
}

window-OnScreen : OnScreen window
unfolding ◌+ℤ◌
window-OnScreen = record {
  x_word = omega arith;
  y_word = omega arith;
  right_word = omega arith;
  bottom_word = omega arith;
}

rect_union_lem_example :
    OnScreen (rect_union panel window)
    × Encloses (rect_union panel window) panel
    × Encloses (rect_union panel window) window
    × ((r : Rect) → Encloses r panel → Encloses r window → Encloses r (rect_union panel window))
rect_union_lem_example = rect_union_lem panel window panel-OnScreen window-OnScreen

abbrev collapsed_list : DirtyRegionList
collapsed_list = record { regions = panel ∷ []; collapsed = true }

collapsed_list-IsDirtyList : IsDirtyList collapsed_list
collapsed_list-IsDirtyList = record {
  on_screen = (panel-OnScreen, refl);
  fits = omega arith;
  one = λ e. refl;
}

dirty_region_mark-Marks_example :
    Marks collapsed_list window (dirty_region_mark collapsed_list window)
dirty_region_mark-Marks_example =
    dirty_region_mark-Marks collapsed_list window collapsed_list-IsDirtyList window-OnScreen

abbrev canvas : DisplayBuffer
canvas = record { width = 6; height = 8; stride = 8; pixels = λ i. 0; dirty = some collapsed_list }

canvas-IsBuffer : IsBuffer canvas
canvas-IsBuffer = record {
  row_fits = omega arith;
  offsets = omega arith;
  width_lt = omega arith;
  height_lt = omega arith;
}

display_buffer_fill_rect_lem_example :
    (Inside window (pos 4) (pos 5)
      → pixel_at (display_buffer_fill_rect canvas window 7).pixels 8 4 5 ≡ 7)
    × ((Inside window (pos 4) (pos 5) → ⊥)
        → pixel_at (display_buffer_fill_rect canvas window 7).pixels 8 4 5
          ≡ pixel_at canvas.pixels 8 4 5)
display_buffer_fill_rect_lem_example =
    display_buffer_fill_rect_lem canvas window 7 4 5 canvas-IsBuffer (omega arith) (omega arith)

-- Column 4 of row 5 is the last that the window has.
filled : pixel_at (display_buffer_fill_rect canvas window 7).pixels 8 4 5 ≡ 7
unfolding display_buffer_fill_rect rect_clip_to_buffer fill_clipped between fill_rows fill_line ◌+ℤ◌
    ◌-ℤ◌
filled = refl

not_filled : pixel_at (display_buffer_fill_rect canvas window 7).pixels 8 5 5 ≡ 0
unfolding display_buffer_fill_rect rect_clip_to_buffer fill_clipped between fill_rows fill_line ◌+ℤ◌
    ◌-ℤ◌
not_filled = refl
