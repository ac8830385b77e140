-- ===== src/Pmm/Bitmap.antt =====
-- The page bitmap of kernel/pmm.c, one bit for a 4 KiB page (1 = used), held in bytes:
-- `bitmap_set`, `bitmap_clear_bit`, `bitmap_test`, and the laws by which the allocator uses them.
use native.Mathlib.Decide.{ℕ_discrete}
use aetheroz.Prelude.{
  ℕ, zero, suc, [], ◌∷◌, ◌*◌, ◌/◌, ◌%◌, ◌≤◌, ◌<◌, ◌≡◌, ap, ap₂, sym, ◌∙◌, ◌≢◌, Bool, true, false,
  not, ◌&&◌, ◌||◌, List, arith, ◌==◌, length, get_or, set, replicate, length-set, length-replicate,
  get_or-set_self, get_or-set_ne, get_or-replicate,
}
use aetheroz.Prelude.Bytes.{
  bit_test, bit_on, bit_off, bit_test-bit_on, bit_test-bit_off, bit_on-lt, bit_off-lt, bit_test_ff,
}

-- `pmm_bitmap`; a bit past the last byte is neither read nor written by a valid state.
abbrev pub Bytes : Type 0
Bytes = List ℕ

unfoldable pub bitmap_set : Bytes → ℕ → Bytes
bitmap_set m bit = set m (bit / 8) (bit_on (get_or m (bit / 8) 0) (bit % 8))

unfoldable pub bitmap_clear_bit : Bytes → ℕ → Bytes
bitmap_clear_bit m bit = set m (bit / 8) (bit_off (get_or m (bit / 8) 0) (bit % 8))

unfoldable pub bitmap_test : Bytes → ℕ → Bool
bitmap_test m bit = bit_test (get_or m (bit / 8) 0) (bit % 8)

set-byte :
    (m : Bytes) (i v j : ℕ)
    → v < 256
    → ((k : ℕ) → get_or m k 0 < 256)
    → get_or (set m i v) j 0 < 256
set-byte [] i v j h b = b j
set-byte (x ∷ m) zero v zero h b = h
set-byte (x ∷ m) zero v (suc j) h b = b (suc j)
set-byte (x ∷ m) (suc i) v zero h b = b zero
set-byte (x ∷ m) (suc i) v (suc j) h b = set-byte m i v j h (λ k. b (suc k))

replicate-byte : (n v j : ℕ) → v < 256 → get_or (replicate n v) j 0 < 256
replicate-byte zero v j h = omega arith
replicate-byte (suc n) v zero h = h
replicate-byte (suc n) v (suc j) h = replicate-byte n v j h

-- A bitmap that can hold `n` pages.
pub record Holds (n : ℕ) (m : Bytes) : Type 0 where
  pub room : n ≤ 8 * length m
  pub byte : (i : ℕ) → get_or m i 0 < 256

module _ (m : Bytes) (n bit : ℕ) (h : Holds n m) where
  pub bitmap_set-Holds : Holds n (bitmap_set m bit)
  unfolding bitmap_set
  bitmap_set-Holds = record {
    room = omega (arith, h.room, length-set m (bit / 8) (bit_on (get_or m (bit / 8) 0) (bit % 8)));
    byte = λ i. set-byte m (bit / 8) _ i (bit_on-lt _ _ (h.byte (bit / 8)) (omega arith)) h.byte;
  }

  pub bitmap_clear_bit-Holds : Holds n (bitmap_clear_bit m bit)
  unfolding bitmap_clear_bit
  bitmap_clear_bit-Holds = record {
    room = omega (arith, h.room, length-set m (bit / 8) (bit_off (get_or m (bit / 8) 0) (bit % 8)));
    byte = λ i. set-byte m (bit / 8) _ i (bit_off-lt _ _ (h.byte (bit / 8)) (omega arith)) h.byte;
  }

-- A page is its byte and its place in the byte.
same_byte : (i j : ℕ) → i / 8 ≡ j / 8 → (i % 8 == j % 8) ≡ (i == j)
same_byte i j e = ground arith

other_byte : (i j : ℕ) → i / 8 ≢ j / 8 → (i == j) ≡ false
other_byte i j h = ground arith

-- What a write of byte `i / 8` does to the bit `j`.
module _ (m : Bytes) (n i j v : ℕ) (h : Holds n m) (hi : i < n) where
  byte_here : i / 8 ≡ j / 8 → get_or (set m (i / 8) v) (j / 8) 0 ≡ v
  byte_here e = rw (← e) (get_or-set_self m (i / 8) v 0 (omega (arith, h.room)))

module _ (m : Bytes) (n i j : ℕ) (h : Holds n m) (hi : i < n) where
  -- `bitmap_set` sets the bit of its page and no other.
  pub bitmap_test-set : bitmap_test (bitmap_set m i) j ≡ (i == j || bitmap_test m j)
  unfolding bitmap_test bitmap_set
  bitmap_test-set = elim (ℕ_discrete (i / 8) (j / 8)) [
    | yes e ↦
        ap (λ b. bit_test b (j % 8)) (byte_here m n i j _ h hi e)
        ∙ bit_test-bit_on _ (i % 8) (j % 8) (h.byte (i / 8)) (omega arith) (omega arith)
        ∙ ap₂ (λ t b. t || bit_test (get_or m b 0) (j % 8)) (same_byte i j e) e
    | no ne ↦
        ap (λ b. bit_test b (j % 8)) (get_or-set_ne m _ 0 ne)
        ∙ ap (λ t. t || bitmap_test m j) (sym (other_byte i j ne))
  ]

  -- `bitmap_clear_bit` clears the bit of its page and no other.
  pub bitmap_test-clear : bitmap_test (bitmap_clear_bit m i) j ≡ (not (i == j) && bitmap_test m j)
  unfolding bitmap_test bitmap_clear_bit
  bitmap_test-clear = elim (ℕ_discrete (i / 8) (j / 8)) [
    | yes e ↦
        ap (λ b. bit_test b (j % 8)) (byte_here m n i j _ h hi e)
        ∙ bit_test-bit_off _ (i % 8) (j % 8) (h.byte (i / 8)) (omega arith) (omega arith)
        ∙ ap₂ (λ t b. not t && bit_test (get_or m b 0) (j % 8)) (same_byte i j e) e
    | no ne ↦
        ap (λ b. bit_test b (j % 8)) (get_or-set_ne m _ 0 ne)
        ∙ ap (λ t. not t && bitmap_test m j) (sym (other_byte i j ne))
  ]

-- The bitmap of `pmm_init_dynamic` before any page is freed: every byte is 0xFF.
pub bitmap_test-replicate :
    (bytes j : ℕ) → j < 8 * bytes → bitmap_test (replicate bytes 0xFF) j ≡ true
unfolding bitmap_test
bitmap_test-replicate bytes j h =
    rw (get_or-replicate {A = ℕ} bytes 0xFF (j / 8) 0 (omega arith))
      (bit_test_ff (j % 8) (omega arith))

pub replicate-Holds : (n bytes : ℕ) → n ≤ 8 * bytes → Holds n (replicate bytes 0xFF)
replicate-Holds n bytes h = record {
  room = omega (arith, length-replicate {A = ℕ} bytes 0xFF);
  byte = λ i. replicate-byte bytes 0xFF i (omega arith);
}
