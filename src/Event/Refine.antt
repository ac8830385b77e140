-- ===== src/Event/Refine.antt =====
-- The circular buffers of kernel/event.c behave as the bounded FIFOs of their contents.
use aetheroz.Prelude.{
  ℕ, zero, suc, ◌+◌, ◌-◌, ◌%◌, ◌<◌, ◌≡◌, refl, sym, ==→eq, ap, ap₂, ◌∙◌, ◌≢◌, inl, inr, List, [],
  ◌∷◌, ◌++◌, arith, ◌==◌, update, update_ne, length, Bool-cases,
}
use aetheroz.Event.{Event, Ring, queue_size, next, push_ring, pop_ring}
use aetheroz.Event.Fifo.{drop_oldest, enqueue, dequeue}

-- The `n` events from the slot `t` on, going round at 64.
window : (ℕ → Event) → ℕ → ℕ → List Event
window f t zero = []
window f t (suc n) = f t ∷ window f (next t) n

abbrev pub count : Ring → ℕ
count r = (r.head + queue_size - r.tail) % queue_size

-- The events that wait in a queue, oldest first.
pub contents : Ring → List Event
unfolding window
contents r = window r.slots r.tail (count r)

-- Both indices lie in the buffer.
pub record IsValid (r : Ring) : Type 0 where
  pub head_lt : r.head < queue_size
  pub tail_lt : r.tail < queue_size

length-window : (f : ℕ → Event) (t n : ℕ) → length (window f t n) ≡ n
unfolding window
length-window f t zero = refl
length-window f t (suc n) = ap suc (length-window f (next t) n)

-- A write just behind a window makes it one event longer.
window-update :
    (f : ℕ → Event) (e : Event) (t n h : ℕ)
    → t < queue_size
    → n < queue_size
    → h ≡ (t + n) % queue_size
    → window (update f h e) t (suc n) ≡ window f t n ++ (e ∷ [])
unfolding window
window-update f e t zero h ht hn q = ap (λ a. a ∷ []) (ground arith)
window-update f e t (suc n) h ht hn q =
    ap₂ ◌∷◌ (update_ne f h e (omega arith))
      (window-update f e (next t) n h (omega arith) (omega arith) (omega arith))

-- A window that is not empty is its oldest event and the rest.
window_of_pos : (f : ℕ → Event) (t n : ℕ) → 0 < n → window f t n ≡ f t ∷ window f (next t) (n - 1)
unfolding window
window_of_pos f t zero h = absurd (omega arith)
window_of_pos f t (suc n) h = ap (λ k. f t ∷ window f (next t) k) (omega arith)

no_events : (r : Ring) → IsValid r → r.head ≡ r.tail → count r ≡ 0
no_events r v q = omega arith

one_less :
    (r : Ring)
    → IsValid r
    → r.head ≢ r.tail
    → (0 < count r) × ((r.head + queue_size - next r.tail) % queue_size ≡ count r - 1)
one_less r v q = omega arith

module _ (f : ℕ → Event) (e : Event) (h t : ℕ) (hh : h < queue_size) (ht : t < queue_size) where
  abbrev waiting : ℕ → ℕ → ℕ
  waiting a b = (a + queue_size - b) % queue_size

  -- Into a full queue: the oldest event goes.
  full_window :
      next h ≡ t
      → window (update f h e) (next t) (waiting (next h) (next t))
        ≡ drop_oldest (window f t (waiting h t)) ++ (e ∷ [])
  unfolding window
  full_window q =
      ap (window (update f h e) (next t)) {y = 63} (omega arith)
      ∙ window-update f e (next t) 62 h (omega arith) (omega arith) (omega arith)
      ∙ sym (ap (λ k. drop_oldest (window f t k) ++ (e ∷ [])) {y = 63} (omega arith))

  -- Into a queue with room.
  room_window :
      next h ≢ t
      → window (update f h e) t (waiting (next h) t) ≡ window f t (waiting h t) ++ (e ∷ [])
  room_window q =
      ap (window (update f h e) t) (omega arith)
      ∙ window-update f e t (waiting h t) h ht (omega arith) (omega arith)

pub length-contents : (r : Ring) → length (contents r) ≡ count r
unfolding contents
length-contents r = length-window r.slots r.tail (count r)

pub push_ring-IsValid : (r : Ring) (e : Event) → IsValid r → IsValid (push_ring r e)
unfolding push_ring
push_ring-IsValid r e v = ground arith

pub push_ring_refines :
    (r : Ring) (e : Event) → IsValid r → contents (push_ring r e) ≡ enqueue (contents r) e
unfolding contents push_ring enqueue
push_ring_refines r e v = elim (Bool-cases (next r.head == r.tail)) [
  | inl full ↦ ground (
    arith,
    full_window r.slots e r.head r.tail v.head_lt v.tail_lt,
    length-window r.slots r.tail (count r),
  )
  | inr room ↦ ground (
    arith,
    room_window r.slots e r.head r.tail v.head_lt v.tail_lt,
    length-window r.slots r.tail (count r),
  )
]

pub pop_ring-IsValid : (r : Ring) → IsValid r → IsValid (pop_ring r).1
unfolding pop_ring
pop_ring-IsValid r v = ground arith

pub pop_ring_refines :
    (r : Ring) → IsValid r → let (out, r') = pop_ring r in (out, contents r') ≡ dequeue (contents r)
unfolding contents pop_ring dequeue
pop_ring_refines r v = elim (Bool-cases (r.head == r.tail)) [
  | inl empty ↦ ground (arith, ap (window r.slots r.tail) (no_events r v (==→eq _ _ empty)))
  | inr some_left ↦ ground (arith, window_of_pos r.slots r.tail (count r), one_less r v)
]

pub contents_empty : (r : Ring) → contents (record r { head = 0; tail = 0 }) ≡ []
unfolding contents window
contents_empty r = refl
