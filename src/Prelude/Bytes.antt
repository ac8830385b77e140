-- ===== src/Prelude/Bytes.antt =====
-- Bits of a byte. `bit_or` and `bit_and` have no laws at variables, so the facts that the bitmaps
-- need are checked for every byte and every pair of bit positions.
use Prim.Native.Nat.{ℕ, zero, suc, ◌+◌, ◌-◌, ◌<◌, ◌^◌, bit_and, bit_or}
use mathlib.Core.Path.{◌≡◌, refl}
use mathlib.Core.Bool.{Bool, true, false, not, ◌&&◌, ◌||◌}
use native.Mathlib.Omega.{arith}
use aetheroz.Prelude.Compare.{if◌then◌else◌, ltb, ◌==◌, ltb→lt}

-- `(x & (1U << k)) != 0`
abbrev pub bit_test : ℕ → ℕ → Bool
bit_test x k = not (bit_and x (2 ^ k) == 0)

-- `x |= (uint8_t)(1U << k)`
abbrev pub bit_on : ℕ → ℕ → ℕ
bit_on x k = bit_or x (2 ^ k)

-- `x &= (uint8_t)~(1U << k)`
abbrev pub bit_off : ℕ → ℕ → ℕ
bit_off x k = bit_and x (255 - 2 ^ k)

-- How many of the numbers below `limit` fail a test.
unfoldable pub misses : (ℕ → Bool) → ℕ → ℕ
misses ok zero = 0
misses ok (suc limit) = (if ok limit then 0 else 1) + misses ok limit

abbrev pub passes : (ℕ → Bool) → ℕ → Bool
passes ok limit = misses ok limit == 0

pub passes_at : (ok : ℕ → Bool) (limit i : ℕ) → i < limit → passes ok limit ≡ true → ok i ≡ true
unfolding misses
passes_at ok zero i below all = absurd (omega arith)
passes_at ok (suc limit) i below all = ground (arith, passes_at ok limit i)

unfoldable pub same : Bool → Bool → Bool
same true b = b
same false b = not b

pub same→eq : (a b : Bool) → same a b ≡ true → a ≡ b
unfolding same
same→eq a b h = ground arith

abbrev on_cell : ℕ → ℕ → ℕ → Bool
on_cell x k j = same (bit_test (bit_on x k) j) (k == j || bit_test x j)

abbrev off_cell : ℕ → ℕ → ℕ → Bool
off_cell x k j = same (bit_test (bit_off x k) j) (not (k == j) && bit_test x j)

-- What the two writes do to the bit `j`, and that they stay bytes.
row : ℕ → ℕ → ℕ → Bool
row x k j = on_cell x k j && off_cell x k j && ltb (bit_on x k) 256 && ltb (bit_off x k) 256

table : passes (λ x. passes (λ k. passes (row x k) 8) 8) 256 ≡ true
unfolding misses row same
table = refl

row-true : (x k j : ℕ) → x < 256 → k < 8 → j < 8 → row x k j ≡ true
row-true x k j hx hk hj =
    let in_row = passes_at (λ x. passes (λ k. passes (row x k) 8) 8) 256 x hx table in
    passes_at (row x k) 8 j hj (passes_at (λ k. passes (row x k) 8) 8 k hk in_row)

-- The parts of a true row, for any Booleans in their places.
row_parts :
    (a b c d : Bool) → (a && b && c && d) ≡ true → (a ≡ true) × (b ≡ true) × (c ≡ true) × (d ≡ true)
row_parts a b c d h = ground arith

module _ (x k j : ℕ) (hx : x < 256) (hk : k < 8) (hj : j < 8) where
  row_true_parts :
      (on_cell x k j ≡ true)
      × (off_cell x k j ≡ true)
      × (ltb (bit_on x k) 256 ≡ true)
      × (ltb (bit_off x k) 256 ≡ true)
  unfolding row
  row_true_parts =
      row_parts (on_cell x k j) (off_cell x k j) (ltb (bit_on x k) 256) (ltb (bit_off x k) 256)
        (row-true x k j hx hk hj)

  pub bit_test-bit_on : bit_test (bit_on x k) j ≡ (k == j || bit_test x j)
  bit_test-bit_on = same→eq _ _ row_true_parts.0

  pub bit_test-bit_off : bit_test (bit_off x k) j ≡ (not (k == j) && bit_test x j)
  bit_test-bit_off = same→eq _ _ row_true_parts.1

module _ (x k : ℕ) (hx : x < 256) (hk : k < 8) where
  pub bit_on-lt : bit_on x k < 256
  bit_on-lt = ltb→lt _ _ (row_true_parts x k k hx hk hk).2

  pub bit_off-lt : bit_off x k < 256
  bit_off-lt = ltb→lt _ _ (row_true_parts x k k hx hk hk).3

-- Every bit of 0xFF is one.
pub bit_test_ff : (k : ℕ) → k < 8 → bit_test 0xFF k ≡ true
unfolding misses
bit_test_ff k h = passes_at (bit_test 0xFF) 8 k h refl
