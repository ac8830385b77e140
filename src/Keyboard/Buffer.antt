-- ===== src/Keyboard/Buffer.antt =====
-- The buffer of the terminal behaves as a bounded FIFO of its contents.
use aetheroz.Prelude.{
  ℕ, zero, suc, ◌+◌, ◌-◌, ◌%◌, ◌<◌, ◌≡◌, ◌≢◌, refl, ap, ap₂, ◌∙◌, inl, inr, false, List, [], ◌∷◌,
  ◌++◌, arith, ◌==◌, if◌then◌else◌, update, update_ne, length, take, drop, Bool-cases, ==→eq, ==→ne,
}
use aetheroz.Keyboard.{Keyboard, kbd_buffer_size, put_char, keyboard_read}

-- The `n` characters from the index `t` on, going round at 256.
window : (ℕ → ℕ) → ℕ → ℕ → List ℕ
window f t zero = []
window f t (suc n) = f t ∷ window f ((t + 1) % kbd_buffer_size) n

abbrev count : ℕ → ℕ → ℕ
count head tail = (head + kbd_buffer_size - tail) % kbd_buffer_size

-- The characters that wait, oldest first.
unfoldable pub pending : Keyboard → List ℕ
unfolding window
pending kb = window kb.buffer kb.tail (count kb.head kb.tail)

-- Both indices lie in the buffer.
pub record IsRing (kb : Keyboard) : Type 0 where
  pub head_lt : kb.head < kbd_buffer_size
  pub tail_lt : kb.tail < kbd_buffer_size

length-window : (f : ℕ → ℕ) (t n : ℕ) → length (window f t n) ≡ n
unfolding window
length-window f t zero = refl
length-window f t (suc n) = ap suc (length-window f ((t + 1) % kbd_buffer_size) n)

window-update :
    (f : ℕ → ℕ) (c t n h : ℕ)
    → t < kbd_buffer_size
    → n < kbd_buffer_size
    → h ≡ (t + n) % kbd_buffer_size
    → window (update f h c) t (suc n) ≡ window f t n ++ (c ∷ [])
unfolding window
window-update f c t zero h ht hn q = ap (λ a. a ∷ []) (ground arith)
window-update f c t (suc n) h ht hn q =
    ap₂ (λ x xs. x ∷ xs) (update_ne f h c (omega arith))
      (window-update f c ((t + 1) % kbd_buffer_size) n h (omega arith) (omega arith) (omega arith))

one_less :
    (head tail : ℕ)
    → head < kbd_buffer_size
    → tail < kbd_buffer_size
    → head ≢ tail
    → count head tail ≡ suc (count head ((tail + 1) % kbd_buffer_size))
one_less head tail h t ne = omega arith

one_more :
    (head tail : ℕ)
    → head < kbd_buffer_size
    → tail < kbd_buffer_size
    → (head + 1) % kbd_buffer_size ≢ tail
    → count ((head + 1) % kbd_buffer_size) tail ≡ suc (count head tail)
one_more head tail h t ne = omega arith

length-pending : (kb : Keyboard) → length (pending kb) ≡ count kb.head kb.tail
unfolding pending
length-pending kb = length-window kb.buffer kb.tail (count kb.head kb.tail)

pending_none : (kb : Keyboard) → count kb.head kb.tail ≡ 0 → pending kb ≡ []
unfolding pending window
pending_none kb z = ap (window kb.buffer kb.tail) z

pending_some :
    (kb : Keyboard)
    → IsRing kb
    → kb.head ≢ kb.tail
    → pending kb
      ≡ kb.buffer kb.tail ∷ pending (record kb { tail = (kb.tail + 1) % kbd_buffer_size })
unfolding pending window
pending_some kb v ne =
    ap (window kb.buffer kb.tail) (one_less kb.head kb.tail v.head_lt v.tail_lt ne)

-- `keyboard_read` of any size, where both indices lie in the buffer: it gives the oldest characters that
-- wait, as many as there are up to the size, and leaves the others in their order.
keyboard_read_lem :
    (kb : Keyboard) (size : ℕ)
    → IsRing kb
    → ((keyboard_read kb size).0 ≡ take size (pending kb))
      × (pending (keyboard_read kb size).1 ≡ drop size (pending kb))
      × IsRing (keyboard_read kb size).1
unfolding keyboard_read
keyboard_read_lem kb zero v = (refl, refl, v)
keyboard_read_lem kb (suc size) v = elim (Bool-cases (kb.head == kb.tail)) [
  | inl e ↦
      let z : count kb.head kb.tail ≡ 0 = let q = ==→eq _ _ e in omega (arith, v.tail_lt) in
      let empty = pending_none kb z in rw (e, empty) (refl, refl, v)
  | inr e ↦
      let kb' = record kb { tail = (kb.tail + 1) % kbd_buffer_size } in
      let (got, left, valid) =
        keyboard_read_lem kb' size (record { head_lt = v.head_lt; tail_lt = omega arith }) in
      rw (e, pending_some kb v (==→ne _ _ e)) (ap (λ xs. kb.buffer kb.tail ∷ xs) got, left, valid)
]

-- `put_char`, where both indices lie in the buffer: the character comes behind those that wait, or is
-- dropped where 255 wait.
put_char_lem :
    (kb : Keyboard) (c : ℕ)
    → IsRing kb
    → (pending (put_char kb c)
        ≡ (if length (pending kb) == 255 then pending kb else pending kb ++ (c ∷ [])))
      × IsRing (put_char kb c)
unfolding put_char pending
put_char_lem kb c v = elim (Bool-cases ((kb.head + 1) % kbd_buffer_size == kb.tail)) [
  | inl e ↦
      let q = ==→eq _ _ e in
      let full : length (pending kb) ≡ 255 = length-pending kb ∙ omega (arith, v.head_lt) in
      rw (e, full) (refl, v)
  | inr e ↦
      let ne = ==→ne _ _ e in
      let n = count kb.head kb.tail in
      let some_room : (length (pending kb) == 255) ≡ false =
        let l = length-pending kb in ground (arith, v.head_lt, v.tail_lt) in
      rw (e, some_room)
        (
          ap (window (update kb.buffer kb.head c) kb.tail)
                (one_more kb.head kb.tail v.head_lt v.tail_lt ne)
              ∙ window-update kb.buffer c kb.tail n kb.head v.tail_lt (omega arith)
                  (omega (arith, v.head_lt, v.tail_lt)),
          record { head_lt = omega arith; tail_lt = v.tail_lt },
        )
]
