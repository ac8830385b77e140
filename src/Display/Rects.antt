-- ===== src/Display/Rects.antt =====
-- Intersection and union of rectangles, point by point.
use aetheroz.Prelude.{
  ℕ, ◌+◌, ◌≤◌, ◌<◌, ◌≡◌, ◌↔◌, subst, sym, Bool, inl, inr, true, false, Option, none, some, arith,
  Bool-cases, ◌^◌, not, ◌||◌,
}
use aetheroz.Prelude.Int.{ℤ, pos, pos_part, neg_part, ◌+ℤ◌, ◌-ℤ◌, ◌≤ℤ◌, ltb_ℤ, +ℤ_parts}
use aetheroz.Display.{Rect, between, right, bottom, extent, max_ℤ, min_ℤ, rect_intersect}

infix 50 ◌<ℤ◌
abbrev pub ◌<ℤ◌ : ℤ → ℤ → Type 0
a <ℤ b = pos_part a + neg_part b < pos_part b + neg_part a

-- The pixel at (px, py) lies in the rectangle.
pub record Inside (r : Rect) (px py : ℤ) : Type 0 where
  pub left : r.x ≤ℤ px
  pub before : px <ℤ right r
  pub top : r.y ≤ℤ py
  pub above : py <ℤ bottom r

-- The fields of a rectangle are machine words.
pub record IsRect (r : Rect) : Type 0 where
  pub x_low : neg_part r.x ≤ 2 ^ 31
  pub x_high : pos_part r.x < 2 ^ 31
  pub y_low : neg_part r.y ≤ 2 ^ 31
  pub y_high : pos_part r.y < 2 ^ 31
  pub width_lt : r.width < 2 ^ 32
  pub height_lt : r.height < 2 ^ 32

-- An interval of less than 2^32 pixels is given back by its start and its extent.
pub end_of_extent :
    (x0 x1 : ℤ)
    → x0 ≤ℤ x1
    → pos_part x1 + neg_part x0 < 2 ^ 32 + pos_part x0 + neg_part x1
    → x0 +ℤ pos (extent x0 x1) ≡ x1
unfolding ◌+ℤ◌ ◌-ℤ◌
end_of_extent x0 x1 h fits = ground arith

-- What the result `r` of an intersection of `a` and `b` says.
pub data Meet (a b : Rect) : Option Rect → Type 0 where
  apart : ((px py : ℤ) → Inside a px py → ¬ Inside b px py) → Meet a b none
  common :
      (r : Rect)
      → IsRect r
      → ((px py : ℤ) → Inside r px py ↔ (Inside a px py × Inside b px py))
      → Meet a b (some r)

-- The same of one axis.
axis_to :
    (a c b d p : ℤ) → max_ℤ a b ≤ℤ p → p <ℤ min_ℤ c d → (a ≤ℤ p) × (p <ℤ c) × (b ≤ℤ p) × (p <ℤ d)
axis_to a c b d p h k = ground arith

axis_from :
    (a c b d p : ℤ) → a ≤ℤ p → p <ℤ c → b ≤ℤ p → p <ℤ d → (max_ℤ a b ≤ℤ p) × (p <ℤ min_ℤ c d)
axis_from a c b d p h k h' k' = ground arith

pub min-le : (a b : ℤ) → (min_ℤ a b ≤ℤ a) × (min_ℤ a b ≤ℤ b)
min-le a b = ground arith

pub le-max : (a b : ℤ) → (a ≤ℤ max_ℤ a b) × (b ≤ℤ max_ℤ a b)
le-max a b = ground arith

pub ltb_ℤ→lt : (a b : ℤ) → ltb_ℤ a b ≡ true → a <ℤ b
ltb_ℤ→lt a b h = ground arith

pub lt→ltb_ℤ : (a b : ℤ) → a <ℤ b → ltb_ℤ a b ≡ true
lt→ltb_ℤ a b h = ground arith

-- An `int32_t`.
abbrev pub IsInt32 : ℤ → Type 0
IsInt32 a = (neg_part a ≤ 2 ^ 31) × (pos_part a < 2 ^ 31)

max-IsInt32 : (a b : ℤ) → IsInt32 a → IsInt32 b → IsInt32 (max_ℤ a b)
max-IsInt32 a b h k = ground arith

-- An axis of the intersection does not outgrow 32 bits.
narrow :
    (a b : ℤ) (w w' : ℕ)
    → w < 2 ^ 32
    → pos_part (min_ℤ (a +ℤ pos w) (b +ℤ pos w')) + neg_part (max_ℤ a b)
      < 2 ^ 32 + pos_part (max_ℤ a b) + neg_part (min_ℤ (a +ℤ pos w) (b +ℤ pos w'))
narrow a b w w' h = omega (arith, min-le (a +ℤ pos w) (b +ℤ pos w'), le-max a b, +ℤ_parts a (pos w))

pub first_test : (p q : Bool) → (not p || not q) ≡ false → p ≡ true
first_test p q e = ground arith

pub second_test : (p q : Bool) → (not p || not q) ≡ false → q ≡ true
second_test p q e = ground arith

-- `rect_intersect` of two rectangles of 32-bit fields gives the rectangle of the pixels that lie in both, and 0 exactly if there are none.
pub rect_intersect-Meet : (a b : Rect) → IsRect a → IsRect b → Meet a b (rect_intersect a b)
unfolding rect_intersect between
rect_intersect-Meet a b va vb =
    let x0 = max_ℤ a.x b.x in
    let y0 = max_ℤ a.y b.y in
    let x1 = min_ℤ (right a) (right b) in
    let y1 = min_ℤ (bottom a) (bottom b) in
    elim (Bool-cases (not (ltb_ℤ x0 x1) || not (ltb_ℤ y0 y1))) [
      | inl e ↦ rw e (
          apart (λ px py i j.
            let (l, r) = axis_from a.x (right a) b.x (right b) px i.left i.before j.left j.before in
            let (t, u) = axis_from a.y (bottom a) b.y (bottom b) py i.top i.above j.top j.above in
            let wide = lt→ltb_ℤ x0 x1 (omega arith) in
            let high = lt→ltb_ℤ y0 y1 (omega arith) in absurd (let q = rw (wide, high) at e in cc)))
      | inr e ↦
          let wide : ltb_ℤ x0 x1 ≡ true = first_test (ltb_ℤ x0 x1) (ltb_ℤ y0 y1) e in
          let high : ltb_ℤ y0 y1 ≡ true = second_test (ltb_ℤ x0 x1) (ltb_ℤ y0 y1) e in
          let lx = ltb_ℤ→lt x0 x1 wide in
          let ly = ltb_ℤ→lt y0 y1 high in
          let ex = end_of_extent x0 x1 (omega arith) (narrow a.x b.x a.width b.width va.width_lt) in
          let ey =
            end_of_extent y0 y1 (omega arith) (narrow a.y b.y a.height b.height va.height_lt) in
          let xs = max-IsInt32 a.x b.x (va.x_low, va.x_high) (vb.x_low, vb.x_high) in
          let ys = max-IsInt32 a.y b.y (va.y_low, va.y_high) (vb.y_low, vb.y_high) in
          rw e (
            common (record { x = x0; y = y0; width = extent x0 x1; height = extent y0 y1 })
              (record {
                x_low = xs.0;
                x_high = xs.1;
                y_low = ys.0;
                y_high = ys.1;
                width_lt = omega arith;
                height_lt = omega arith;
              })
              (λ px py. (
                λ i.
                    let h =
                      axis_to a.x (right a) b.x (right b) px i.left
                        (subst (λ q. px <ℤ q) ex i.before) in
                    let v =
                      axis_to a.y (bottom a) b.y (bottom b) py i.top
                        (subst (λ q. py <ℤ q) ey i.above) in
                    (
                      record { left = h.0; before = h.1; top = v.0; above = v.1 },
                      record { left = h.2; before = h.3; top = v.2; above = v.3 },
                    ),
                λ (i, j).
                    let h =
                      axis_from a.x (right a) b.x (right b) px i.left i.before j.left j.before in
                    let v =
                      axis_from a.y (bottom a) b.y (bottom b) py i.top i.above j.top j.above in
                    record {
                      left = h.0;
                      before = subst (λ q. px <ℤ q) (sym ex) h.1;
                      top = v.0;
                      above = subst (λ q. py <ℤ q) (sym ey) v.1;
                    },
              )))
    ]
