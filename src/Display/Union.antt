-- ===== src/Display/Union.antt =====
-- The union of rectangles is the least that encloses both.
use aetheroz.Prelude.{ℕ, ◌≡◌, sym, subst, arith}
use aetheroz.Prelude.Int.{ℤ, pos, ◌+ℤ◌, ◌≤ℤ◌, +ℤ_parts}
use aetheroz.Display.{Rect, right, bottom, extent, max_ℤ, min_ℤ, rect_union}
use aetheroz.Display.Rects.{Inside, IsInt32, end_of_extent, min-le, le-max}

-- Every corner is an `int32_t`.
pub record OnScreen (r : Rect) : Type 0 where
  pub x_word : IsInt32 r.x
  pub y_word : IsInt32 r.y
  pub right_word : IsInt32 (right r)
  pub bottom_word : IsInt32 (bottom r)

pub record Encloses (r a : Rect) : Type 0 where
  pub left : r.x ≤ℤ a.x
  pub right_of : right a ≤ℤ right r
  pub top : r.y ≤ℤ a.y
  pub bottom_of : bottom a ≤ℤ bottom r

pub Inside-Encloses : (r a : Rect) (px py : ℤ) → Encloses r a → Inside a px py → Inside r px py
Inside-Encloses r a px py e i = record {
  left = omega (arith, e.left, i.left);
  before = omega (arith, e.right_of, i.before);
  top = omega (arith, e.top, i.top);
  above = omega (arith, e.bottom_of, i.above);
}

min-IsInt32 : (a b : ℤ) → IsInt32 a → IsInt32 b → IsInt32 (min_ℤ a b)
min-IsInt32 a b h k = ground arith

max-IsInt32 : (a b : ℤ) → IsInt32 a → IsInt32 b → IsInt32 (max_ℤ a b)
max-IsInt32 a b h k = ground arith

max_least : (a b c : ℤ) → a ≤ℤ c → b ≤ℤ c → max_ℤ a b ≤ℤ c
max_least a b c h k = ground arith

min_greatest : (a b c : ℤ) → c ≤ℤ a → c ≤ℤ b → c ≤ℤ min_ℤ a b
min_greatest a b c h k = ground arith

-- One axis of the union.
union_axis :
    (a b : ℤ) (w w' : ℕ)
    → IsInt32 a
    → IsInt32 b
    → IsInt32 (a +ℤ pos w)
    → IsInt32 (b +ℤ pos w')
    → min_ℤ a b +ℤ pos (extent (min_ℤ a b) (max_ℤ (a +ℤ pos w) (b +ℤ pos w')))
      ≡ max_ℤ (a +ℤ pos w) (b +ℤ pos w')
union_axis a b w w' ha hb hra hrb =
    let lo = min-IsInt32 a b ha hb in
    let hi = max-IsInt32 (a +ℤ pos w) (b +ℤ pos w') hra hrb in
    end_of_extent (min_ℤ a b) (max_ℤ (a +ℤ pos w) (b +ℤ pos w'))
      (omega (arith, min-le a b, le-max (a +ℤ pos w) (b +ℤ pos w'), +ℤ_parts a (pos w)))
      (omega arith)

-- `rect_union` of two rectangles whose corners are 32-bit integers is the least rectangle that
-- encloses both, and its corners are 32-bit integers again.
pub rect_union_lem :
    (a b : Rect)
    → OnScreen a
    → OnScreen b
    → OnScreen (rect_union a b)
      × Encloses (rect_union a b) a
      × Encloses (rect_union a b) b
      × ((r : Rect) → Encloses r a → Encloses r b → Encloses r (rect_union a b))
unfolding rect_union
rect_union_lem a b va vb =
    let ex = union_axis a.x b.x a.width b.width va.x_word vb.x_word va.right_word vb.right_word in
    let ey =
      union_axis a.y b.y a.height b.height va.y_word vb.y_word va.bottom_word vb.bottom_word in
    let xs = min-le a.x b.x in
    let ys = min-le a.y b.y in
    let rs = le-max (right a) (right b) in
    let bs = le-max (bottom a) (bottom b) in
    (
      record {
        x_word = min-IsInt32 a.x b.x va.x_word vb.x_word;
        y_word = min-IsInt32 a.y b.y va.y_word vb.y_word;
        right_word = subst IsInt32 (sym ex) (max-IsInt32 _ _ va.right_word vb.right_word);
        bottom_word = subst IsInt32 (sym ey) (max-IsInt32 _ _ va.bottom_word vb.bottom_word);
      },
      record {
        left = xs.0;
        right_of = subst (λ q. right a ≤ℤ q) (sym ex) rs.0;
        top = ys.0;
        bottom_of = subst (λ q. bottom a ≤ℤ q) (sym ey) bs.0;
      },
      record {
        left = xs.1;
        right_of = subst (λ q. right b ≤ℤ q) (sym ex) rs.1;
        top = ys.1;
        bottom_of = subst (λ q. bottom b ≤ℤ q) (sym ey) bs.1;
      },
      λ r ea eb. record {
        left = min_greatest a.x b.x r.x ea.left eb.left;
        right_of =
            subst (λ q. q ≤ℤ right r) (sym ex)
              (max_least (right a) (right b) (right r) ea.right_of eb.right_of);
        top = min_greatest a.y b.y r.y ea.top eb.top;
        bottom_of =
            subst (λ q. q ≤ℤ bottom r) (sym ey)
              (max_least (bottom a) (bottom b) (bottom r) ea.bottom_of eb.bottom_of);
      },
    )
