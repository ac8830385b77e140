-- ===== src/Display/Fill.antt =====
-- `display_buffer_fill_rect` paints the pixels of the rectangle that lie in the buffer, and no others.
use aetheroz.Prelude.{
  ℕ, zero, suc, ◌+◌, ◌-◌, ◌*◌, ◌%◌, ◌^◌, ◌≤◌, ◌<◌, ◌≡◌, ◌↔◌, refl, ap, sym, subst, ◌∙◌, inl, inr,
  Bool, true, false, not, Option, none, some, arith, Bool-cases, leb, ltb, ◌==◌, ◌&&◌, ◌||◌,
  if◌then◌else◌, update, ==→eq, ==→ne,
}
use aetheroz.Prelude.Int.{ℤ, pos, pos_part, ◌+ℤ◌, ◌-ℤ◌, ◌≤ℤ◌, ltb_ℤ}
use aetheroz.Display.{
  Rect, between, right, bottom, extent, max_ℤ, min_ℤ, DisplayBuffer, rect_clip_to_buffer, fill_line,
  fill_rows, fill_clipped, display_buffer_fill_rect,
}
use aetheroz.Display.Rects.{Inside, ◌<ℤ◌, ltb_ℤ→lt, lt→ltb_ℤ, first_test, second_test}

-- The colour of the pixel in column `px` and row `py`.
abbrev pub pixel_at : (ℕ → ℕ) → ℕ → ℕ → ℕ → ℕ
pixel_at pixels stride px py = pixels (py * stride + px)

abbrev inside : ℕ → ℕ → ℕ → ℕ → ℕ → ℕ → Bool
inside x y w h px py = leb y py && ltb py (y + h) && (leb x px && ltb px (x + w))

inside_parts :
    (x y w h px py : ℕ)
    → inside x y w h px py ≡ true
    → (y ≤ py) × (py < y + h) × (x ≤ px) × (px < x + w)
inside_parts x y w h px py e = ground arith

inside-true :
    (x y w h px py : ℕ) → y ≤ py → py < y + h → x ≤ px → px < x + w → inside x y w h px py ≡ true
inside-true x y w h px py a b c d = ground arith

-- The rows of the buffer do not overlap, and an offset in it fits 32 bits.
pub record IsBuffer (b : DisplayBuffer) : Type 0 where
  pub row_fits : b.width ≤ b.stride
  pub offsets : b.stride * b.height ≤ 2 ^ 32
  pub width_lt : b.width < 2 ^ 31
  pub height_lt : b.height < 2 ^ 31

fill_line_lem :
    (pixels : ℕ → ℕ) (line n color i : ℕ)
    → fill_line pixels line n color i ≡ (if leb line i && ltb i (line + n) then color else pixels i)
unfolding fill_line
fill_line_lem pixels line zero color i = ground arith
fill_line_lem pixels line (suc n) color i =
    ground (arith, fill_line_lem (update pixels line color) (line + 1) n color i)

-- Two rows are a stride apart.
row_apart : (stride py y px : ℕ) → py < y → px < stride → py * stride + px < y * stride
row_apart stride py y px h k = grind arith

row_offset :
    (stride height y : ℕ) → stride * height ≤ 2 ^ 32 → y < height → 0 < stride → y * stride < 2 ^ 32
row_offset stride height y h k p = grind arith

module _ (stride x width color px py : ℕ) (hx : x + width ≤ stride) (hp : px < stride) where
  -- A painted row is seen from its own pixels only.
  fill_line_at :
      (pixels : ℕ → ℕ) (y : ℕ)
      → pixel_at (fill_line pixels (y * stride + x) width color) stride px py ≡ (
          if y == py && (leb x px && ltb px (x + width))
          then color
          else pixel_at pixels stride px py)
  fill_line_at pixels y = elim (Bool-cases (y == py)) [
    | inl e ↦
        let q = ap (λ k. k * stride) (==→eq _ _ e) in
        ground (arith, fill_line_lem pixels (y * stride + x) width color (py * stride + px))
    | inr e ↦ elim (Bool-cases (ltb py y)) [
      | inl l ↦ ground (
        arith,
        fill_line_lem pixels (y * stride + x) width color (py * stride + px),
        row_apart stride py y px (ground arith) hp,
      )
      | inr l ↦
          let above : y < py = ground (arith, ==→ne _ _ e) in
          elim (Bool-cases (width == 0)) [
            | inl w ↦
                ground (arith, fill_line_lem pixels (y * stride + x) width color (py * stride + px))
            | inr w ↦ ground (
              arith,
              fill_line_lem pixels (y * stride + x) width color (py * stride + px),
              row_apart stride y py (x + width - 1) above (ground arith),
            )
          ]
    ]
  ]

  fill_rows_at :
      (n : ℕ) (pixels : ℕ → ℕ) (y height : ℕ)
      → y + n ≤ height
      → stride * height ≤ 2 ^ 32
      → pixel_at (fill_rows pixels stride x y width n color) stride px py ≡ (
          if leb y py && ltb py (y + n) && (leb x px && ltb px (x + width))
          then color
          else pixel_at pixels stride px py)
  unfolding fill_rows
  fill_rows_at zero pixels y height h o = ground arith
  fill_rows_at (suc n) pixels y height h o =
      let offset : y * stride % 2 ^ 32 ≡ y * stride =
        omega (arith, row_offset stride height y o (omega arith) (omega arith)) in
      let painted = fill_line pixels (y * stride + x) width color in
      ap
        (λ k.
          pixel_at (fill_rows (fill_line pixels (k + x) width color) stride x (y + 1) width n color)
            stride px py)
        offset
      ∙ fill_rows_at n painted (y + 1) height (omega arith) o
      ∙ ground (arith, fill_line_at pixels y)

-- The columns of an area that lie in the buffer, as numbers.
clipped_axis :
    (x0 : ℤ) (w limit p : ℕ)
    → limit < 2 ^ 31
    → p < limit
    → max_ℤ x0 (pos 0) <ℤ min_ℤ (x0 +ℤ pos w) (pos limit)
    → let start = pos_part (max_ℤ x0 (pos 0)) in
      let size = extent (max_ℤ x0 (pos 0)) (min_ℤ (x0 +ℤ pos w) (pos limit)) in
      (start + size ≤ limit)
      × (((x0 ≤ℤ pos p) × (pos p <ℤ x0 +ℤ pos w)) ↔ ((start ≤ p) × (p < start + size)))
unfolding ◌+ℤ◌ ◌-ℤ◌
clipped_axis x0 w limit p small h lt = ground arith

clipped_apart :
    (x0 : ℤ) (w limit p : ℕ)
    → p < limit
    → x0 ≤ℤ pos p
    → pos p <ℤ x0 +ℤ pos w
    → max_ℤ x0 (pos 0) <ℤ min_ℤ (x0 +ℤ pos w) (pos limit)
clipped_apart x0 w limit p h lo hi = ground arith

clip_none :
    (b : DisplayBuffer) (area : Rect)
    → (not (ltb_ℤ (max_ℤ area.x (pos 0)) (min_ℤ (right area) (pos b.width)))
        || not (ltb_ℤ (max_ℤ area.y (pos 0)) (min_ℤ (bottom area) (pos b.height))))
      ≡ true
    → rect_clip_to_buffer b area ≡ none
unfolding rect_clip_to_buffer between
clip_none b area e = rw e refl

clip_some :
    (b : DisplayBuffer) (area : Rect)
    → (not (ltb_ℤ (max_ℤ area.x (pos 0)) (min_ℤ (right area) (pos b.width)))
        || not (ltb_ℤ (max_ℤ area.y (pos 0)) (min_ℤ (bottom area) (pos b.height))))
      ≡ false
    → rect_clip_to_buffer b area
      ≡ some (record {
        x = max_ℤ area.x (pos 0);
        y = max_ℤ area.y (pos 0);
        width = extent (max_ℤ area.x (pos 0)) (min_ℤ (right area) (pos b.width));
        height = extent (max_ℤ area.y (pos 0)) (min_ℤ (bottom area) (pos b.height));
      })
unfolding rect_clip_to_buffer between
clip_some b area e = rw e refl

-- A result of the fill in which the pixel (px, py) is as it should be.
abbrev Filled : DisplayBuffer → Rect → ℕ → ℕ → ℕ → DisplayBuffer → Type 0
Filled b area color px py b' =
    (Inside area (pos px) (pos py) → pixel_at b'.pixels b.stride px py ≡ color)
    × ((Inside area (pos px) (pos py) → ⊥)
        → pixel_at b'.pixels b.stride px py ≡ pixel_at b.pixels b.stride px py)

-- `display_buffer_fill_rect` for any rectangle, on the buffer or not, where the buffer's rows do not
-- overlap, its sides are below 2 ^ 31 and its offsets fit 32 bits: a pixel of the buffer that lies
-- in the rectangle has the colour, and every other pixel of the buffer is as it was.
pub display_buffer_fill_rect_lem :
    (b : DisplayBuffer) (area : Rect) (color px py : ℕ)
    → IsBuffer b
    → px < b.width
    → py < b.height
    → (Inside area (pos px) (pos py)
        → pixel_at (display_buffer_fill_rect b area color).pixels b.stride px py ≡ color)
      × ((Inside area (pos px) (pos py) → ⊥)
          → pixel_at (display_buffer_fill_rect b area color).pixels b.stride px py
            ≡ pixel_at b.pixels b.stride px py)
unfolding display_buffer_fill_rect fill_clipped
display_buffer_fill_rect_lem b area color px py v hx hy =
    let x0 = max_ℤ area.x (pos 0) in
    let y0 = max_ℤ area.y (pos 0) in
    let x1 = min_ℤ (right area) (pos b.width) in
    let y1 = min_ℤ (bottom area) (pos b.height) in
    let Result = λ (o : Option Rect). Filled b area color px py (fill_clipped b color o) in
    elim (Bool-cases (not (ltb_ℤ x0 x1) || not (ltb_ℤ y0 y1))) [
      | inl e ↦ subst Result (sym (clip_none b area e)) (
        λ i.
            let wide =
              lt→ltb_ℤ x0 x1 (clipped_apart area.x area.width b.width px hx i.left i.before) in
            let high =
              lt→ltb_ℤ y0 y1 (clipped_apart area.y area.height b.height py hy i.top i.above) in
            absurd (let q = rw (wide, high) at e in cc),
        λ out. refl,
      )
      | inr e ↦
          let lx = ltb_ℤ→lt x0 x1 (first_test (ltb_ℤ x0 x1) (ltb_ℤ y0 y1) e) in
          let ly = ltb_ℤ→lt y0 y1 (second_test (ltb_ℤ x0 x1) (ltb_ℤ y0 y1) e) in
          let (fx, cx) = clipped_axis area.x area.width b.width px v.width_lt hx lx in
          let (fy, cy) = clipped_axis area.y area.height b.height py v.height_lt hy ly in
          let painted =
            fill_rows_at b.stride (pos_part x0) (extent x0 x1) color px py
              (omega (arith, v.row_fits)) (omega (arith, v.row_fits)) (extent y0 y1) b.pixels
              (pos_part y0) b.height fy v.offsets in
          subst Result (sym (clip_some b area e)) (
            λ i.
                let (l, r) = cx.0 (i.left, i.before) in
                let (u, d) = cy.0 (i.top, i.above) in
                painted
                ∙ rw
                    (inside-true (pos_part x0) (pos_part y0) (extent x0 x1) (extent y0 y1) px py u d
                      l r)
                    refl,
            λ out.
                painted
                ∙ elim (Bool-cases
                    (inside (pos_part x0) (pos_part y0) (extent x0 x1) (extent y0 y1) px py)) [
                      | inl within ↦
                          let q =
                            inside_parts (pos_part x0) (pos_part y0) (extent x0 x1) (extent y0 y1)
                              px py within in
                          let (l, r) = cx.1 (q.2, q.3) in
                          let (u, d) = cy.1 (q.0, q.1) in
                          absurd (out (record { left = l; before = r; top = u; above = d }))
                      | inr outside ↦ rw outside refl
                    ],
          )
    ]
