-- ===== src/Keyboard/Keys.antt =====
-- The keys that are down, as the scancodes say it, and the bit operations of the driver on the bytes
-- that stand for them.
use aetheroz.Prelude.{
  ℕ, ◌+◌, ◌%◌, ◌<◌, ◌≡◌, ◌≢◌, refl, Bool, true, false, ◌&&◌, ◌||◌, not, none, some, [], ◌∷◌, arith,
  ltb, leb, ltb→lt, ◌==◌, if◌then◌else◌, update, get_or, bit_and, bit_or, bit_xor,
}
use aetheroz.Prelude.Bytes.{bit_test, misses, passes, passes_at, same, same→eq}
use aetheroz.Keyboard.{held_bit, any_bit, or_if}

-- The keyboard as its scancodes describe it: which keys are down, whether CapsLock is on, and whether
-- the prefix 0xE0 came last.
pub record Keys : Type 0 where
  pub down : ℕ → Bool
  pub caps : Bool
  pub prefix : Bool

abbrev pub no_keys : Keys
no_keys = record { down = λ key. false; caps = false; prefix = false }

-- A key goes down or up; CapsLock changes where its key goes down that was up.
abbrev pub change_key : Keys → ℕ → Bool → Keys
change_key keys key_id released = record {
  down = update keys.down key_id (not released);
  caps =
      if key_id == 0x3A && not released && not (keys.down 0x3A) then not keys.caps else keys.caps;
  prefix = false;
}

unfoldable pub feed : Keys → ℕ → Keys
feed keys scancode =
    if scancode == 0xE0
    then record keys { prefix = true }
    else change_key keys (if keys.prefix then scancode % 128 + 256 else scancode % 128)
        (leb 128 scancode)

-- The keys in the order of their bits in `kbd_held`.
abbrev pub key_of : ℕ → ℕ
key_of k = get_or (0x2A ∷ 0x36 ∷ 0x1D ∷ 0x11D ∷ 0x38 ∷ 0x138 ∷ 0x3A ∷ []) k 0

pub held_bit-some : (key k : ℕ) → held_bit key ≡ some k → (k < 7) × (key ≡ key_of k)
unfolding held_bit
held_bit-some key k e = ground arith

pub held_bit-none : (key : ℕ) → held_bit key ≡ none → (k : ℕ) → k < 7 → key ≢ key_of k
unfolding held_bit
held_bit-none key e k h = ground arith

key_table : passes (λ k. passes (λ j. same (key_of k == key_of j) (k == j)) 7) 7 ≡ true
unfolding misses same
key_table = refl

pub key_of_eq : (k j : ℕ) → k < 7 → j < 7 → (key_of k == key_of j) ≡ (k == j)
key_of_eq k j hk hj = same→eq _ _ (
    passes_at (λ i. same (key_of k == key_of i) (k == i)) 7 j hj
      (passes_at (λ i. passes (λ l. same (key_of i == key_of l) (i == l)) 7) 7 k hk key_table))

-- Both sides of a modifier have neighbouring bits.
sides : ℕ → Bool
sides x =
    same (any_bit x 0x03) (bit_test x 0 || bit_test x 1)
    && same (any_bit x 0x0C) (bit_test x 2 || bit_test x 3)
    && same (any_bit x 0x30) (bit_test x 4 || bit_test x 5)

sides_table : passes sides 256 ≡ true
unfolding misses same sides
sides_table = refl

three_parts : (a b c : Bool) → (a && b && c) ≡ true → (a ≡ true) × (b ≡ true) × (c ≡ true)
three_parts a b c h = ground arith

pub any_bit_sides :
    (x : ℕ)
    → x < 256
    → (any_bit x 0x03 ≡ (bit_test x 0 || bit_test x 1))
      × (any_bit x 0x0C ≡ (bit_test x 2 || bit_test x 3))
      × (any_bit x 0x30 ≡ (bit_test x 4 || bit_test x 5))
unfolding sides
any_bit_sides x h =
    let (p, q, r) = three_parts _ _ _ (passes_at sides 256 x h sides_table) in
    (same→eq _ _ p, same→eq _ _ q, same→eq _ _ r)

-- The modifiers that `kbd_mods` is made of.
abbrev pub combined : Bool → Bool → Bool → ℕ → ℕ
combined a c s mods = or_if a 0x04 (or_if c 0x02 (or_if s 0x01 (bit_and mods 0x08)))

combined_row : Bool → Bool → Bool → ℕ → Bool
combined_row a c s x =
    same (bit_test (combined a c s x) 0) s
    && same (bit_test (combined a c s x) 1) c
    && same (bit_test (combined a c s x) 2) a
    && (same (bit_test (combined a c s x) 3) (bit_test x 3) && ltb (combined a c s x) 16)

combined_table : (a c s : Bool) → passes (combined_row a c s) 16 ≡ true
unfolding misses same combined_row
combined_table true true true = refl
combined_table true true false = refl
combined_table true false true = refl
combined_table true false false = refl
combined_table false true true = refl
combined_table false true false = refl
combined_table false false true = refl
combined_table false false false = refl

five_parts :
    (a b c d e : Bool)
    → (a && b && c && (d && e)) ≡ true
    → (a ≡ true) × (b ≡ true) × (c ≡ true) × (d ≡ true) × (e ≡ true)
five_parts a b c d e h = ground arith

pub combined_lem :
    (a c s : Bool) (x : ℕ)
    → x < 16
    → (bit_test (combined a c s x) 0 ≡ s)
      × (bit_test (combined a c s x) 1 ≡ c)
      × (bit_test (combined a c s x) 2 ≡ a)
      × (bit_test (combined a c s x) 3 ≡ bit_test x 3)
      × (combined a c s x < 16)
unfolding combined_row
combined_lem a c s x h =
    let (p, q, r, t, u) =
      five_parts _ _ _ _ _ (passes_at (combined_row a c s) 16 x h (combined_table a c s)) in
    (same→eq _ _ p, same→eq _ _ q, same→eq _ _ r, same→eq _ _ t, ltb→lt _ _ u)

flip_row : ℕ → Bool
flip_row x = same (bit_test (bit_xor x 0x08) 3) (not (bit_test x 3)) && ltb (bit_xor x 0x08) 16

flip_table : passes flip_row 16 ≡ true
unfolding misses same flip_row
flip_table = refl

two_parts : (a b : Bool) → (a && b) ≡ true → (a ≡ true) × (b ≡ true)
two_parts a b h = ground arith

pub flip_caps :
    (x : ℕ) → x < 16 → (bit_test (bit_xor x 0x08) 3 ≡ not (bit_test x 3)) × (bit_xor x 0x08 < 16)
unfolding flip_row
flip_caps x h =
    let (p, q) = two_parts _ _ (passes_at flip_row 16 x h flip_table) in
    (same→eq _ _ p, ltb→lt _ _ q)

code_row : ℕ → Bool
code_row x =
    same (any_bit x 0x80) (leb 128 x)
    && bit_and x 0x7F == x % 128
    && bit_or (bit_and x 0x7F) 0x100 == x % 128 + 256

code_table : passes code_row 256 ≡ true
unfolding misses same code_row
code_table = refl

code_parts :
    (a : Bool) (b c d e : ℕ) → (a && b == c && d == e) ≡ true → (a ≡ true) × (b ≡ c) × (d ≡ e)
code_parts a b c d e h = ground arith

-- The parts of a scancode.
pub code_lem :
    (x : ℕ)
    → x < 256
    → (any_bit x 0x80 ≡ leb 128 x)
      × (bit_and x 0x7F ≡ x % 128)
      × (bit_or (bit_and x 0x7F) 0x100 ≡ x % 128 + 256)
unfolding code_row
code_lem x h =
    let (p, q, r) = code_parts _ _ _ _ _ (passes_at code_row 256 x h code_table) in
    (same→eq _ _ p, q, r)

no_bits : passes (λ k. same (bit_test 0 k) false) 7 ≡ true
unfolding misses same
no_bits = refl

pub bit_test_zero : (k : ℕ) → k < 7 → bit_test 0 k ≡ false
bit_test_zero k h = same→eq _ _ (passes_at (λ j. same (bit_test 0 j) false) 7 k h no_bits)
