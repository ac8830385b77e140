-- ===== src/Keyboard/Modifiers.antt =====
-- After any scancodes the modifiers that the driver reports are those of the keys that are down.
use aetheroz.Prelude.{
  ℕ, ◌+◌, ◌%◌, ◌<◌, ◌≡◌, ◌≢◌, refl, sym, ap, ap₂, subst, ◌∙◌, inl, inr, Bool, true, false, ◌&&◌,
  ◌||◌, not, Option, none, some, arith, ◌==◌, if◌then◌else◌, update_ne, bit_xor, Bool-cases,
}
use aetheroz.Prelude.Int.{ℤ, pos, negsuc}
use aetheroz.Prelude.Bytes.{bit_test, bit_test-bit_on, bit_test-bit_off, bit_on-lt, bit_off-lt}
use aetheroz.Event.{Queues}
use aetheroz.Keyboard.{
  Kwm, Keyboard, held_bit, hold, toggle_caps, track_key, any_bit, derive_mods, put_char, route_key,
  deliver_key, tracked,
}
use aetheroz.Keyboard.Keys.{
  Keys, change_key, key_of, held_bit-some, held_bit-none, key_of_eq, any_bit_sides, combined_lem,
  flip_caps,
}

-- The bytes `kbd_held` and `kbd_mods` and the prefix flag say what the keys are.
pub record Agree (keys : Keys) (held mods : ℕ) (extended : Bool) : Type 0 where
  pub held_lt : held < 256
  pub mods_lt : mods < 16
  pub holds : (k : ℕ) → k < 7 → bit_test held k ≡ keys.down (key_of k)
  pub shift : bit_test mods 0 ≡ (keys.down 0x2A || keys.down 0x36)
  pub ctrl : bit_test mods 1 ≡ (keys.down 0x1D || keys.down 0x11D)
  pub alt : bit_test mods 2 ≡ (keys.down 0x38 || keys.down 0x138)
  pub caps_lock : bit_test mods 3 ≡ keys.caps
  pub prefixed : extended ≡ keys.prefix

abbrev pub Tracks : Keys → Keyboard → Type 0
Tracks keys kb = Agree keys kb.held kb.mods kb.extended

-- What the switch leaves, before `kbd_mods` is derived.
record Switched (keys : Keys) (held mods : ℕ) : Type 0 where
  held_lt : held < 256
  mods_lt : mods < 16
  holds : (k : ℕ) → k < 7 → bit_test held k ≡ keys.down (key_of k)
  caps_lock : bit_test mods 3 ≡ keys.caps

derive_mods-Agree :
    (keys : Keys) (held mods : ℕ)
    → Switched keys held mods
    → keys.prefix ≡ false
    → Agree keys held (derive_mods held mods) false
unfolding derive_mods
derive_mods-Agree keys held mods v p =
    let (s, c, a) = any_bit_sides held v.held_lt in
    let (bs, bc, ba, bl, lt) =
      combined_lem (any_bit held 0x30) (any_bit held 0x0C) (any_bit held 0x03) mods v.mods_lt in
    let both : (i j : ℕ)
        → i < 7
        → j < 7
        → (bit_test held i || bit_test held j) ≡ (keys.down (key_of i) || keys.down (key_of j)) =
      λ i j hi hj. ap₂ (λ x y. x || y) (v.holds i hi) (v.holds j hj) in
    record {
      held_lt = v.held_lt;
      mods_lt = lt;
      holds = v.holds;
      shift = bs ∙ s ∙ both 0 1 (omega arith) (omega arith);
      ctrl = bc ∙ c ∙ both 2 3 (omega arith) (omega arith);
      alt = ba ∙ a ∙ both 4 5 (omega arith) (omega arith);
      caps_lock = bl ∙ v.caps_lock;
      prefixed = sym p;
    }

hold_lt : (held k : ℕ) (released : Bool) → held < 256 → k < 7 → hold held k released < 256
hold_lt held k true h hk = bit_off-lt held k h (omega arith)
hold_lt held k false h hk = bit_on-lt held k h (omega arith)

off_if : (b c : Bool) → (not b && c) ≡ (if b then false else c)
off_if true c = refl
off_if false c = refl

on_if : (b c : Bool) → (b || c) ≡ (if b then true else c)
on_if true c = refl
on_if false c = refl

bit_test-hold :
    (held k j : ℕ) (released : Bool)
    → held < 256
    → k < 7
    → j < 7
    → bit_test (hold held k released) j ≡ (if k == j then not released else bit_test held j)
bit_test-hold held k j true h hk hj =
    bit_test-bit_off held k j h (omega arith) (omega arith) ∙ off_if (k == j) (bit_test held j)
bit_test-hold held k j false h hk hj =
    bit_test-bit_on held k j h (omega arith) (omega arith) ∙ on_if (k == j) (bit_test held j)

-- Another key than the seven changes none of them.
track_none :
    (keys : Keys) (held mods : ℕ) (extended : Bool) (key_id : ℕ) (released : Bool)
    → Agree keys held mods extended
    → ((k : ℕ) → k < 7 → key_id ≢ key_of k)
    → Switched (change_key keys key_id released) held mods
track_none keys held mods extended key_id released v other = record {
  held_lt = v.held_lt;
  mods_lt = v.mods_lt;
  holds = λ k h. v.holds k h ∙ sym (update_ne keys.down key_id (not released) (other k h));
  caps_lock = let ne = other 6 (omega arith) in ground (arith, v.caps_lock);
}

-- CapsLock changes where its key goes down and was up.
caps_switch :
    (six released was : Bool) (mods : ℕ) (caps : Bool)
    → mods < 16
    → bit_test mods 3 ≡ caps
    → bit_test (if six then (if released || was then mods else bit_xor mods 0x08) else mods) 3
      ≡ (if six && not released && not was then not caps else caps)
caps_switch false released was mods caps h e = e
caps_switch true true was mods caps h e = e
caps_switch true false true mods caps h e = e
caps_switch true false false mods caps h e = (flip_caps mods h).0 ∙ ap not e

track_some :
    (keys : Keys) (held mods : ℕ) (extended : Bool) (k : ℕ) (released : Bool)
    → Agree keys held mods extended
    → k < 7
    → Switched
        (change_key keys (key_of k) released)
        (hold held k released)
        (if k == 6 then toggle_caps mods held released else mods)
track_some keys held mods extended k released v hk = record {
  held_lt = hold_lt held k released v.held_lt hk;
  mods_lt = let (_, lt) = flip_caps mods v.mods_lt in ground (arith, v.mods_lt);
  holds = λ j hj.
      bit_test-hold held k j released v.held_lt hk hj
      ∙ ap₂ (λ b c. if b then not released else c) (sym (key_of_eq k j hk hj)) (v.holds j hj);
  caps_lock =
      caps_switch (k == 6) released (bit_test held 6) mods keys.caps v.mods_lt v.caps_lock
      ∙ ap₂ (λ b w. if b && not released && not w then not keys.caps else keys.caps)
          (sym (key_of_eq k 6 hk (omega arith))) (v.holds 6 (omega arith));
}

track_key-Switched :
    (keys : Keys) (held mods : ℕ) (extended : Bool) (key_id : ℕ) (released : Bool) (o : Option ℕ)
    → held_bit key_id ≡ o
    → Agree keys held mods extended
    → Switched
        (change_key keys key_id released)
        (track_key held mods o released).0
        (track_key held mods o released).1
unfolding track_key
track_key-Switched keys held mods extended key_id released none e v =
    track_none keys held mods extended key_id released v (held_bit-none key_id e)
track_key-Switched keys held mods extended key_id released (some k) e v =
    let (hk, same) = held_bit-some key_id k e in
    subst
      (λ key.
        Switched (change_key keys key released) (hold held k released)
          (if k == 6 then toggle_caps mods held released else mods))
      (sym same) (track_some keys held mods extended k released v hk)

pub tracked-Tracks :
    (keys : Keys) (kb : Keyboard) (key_id : ℕ) (released : Bool)
    → Tracks keys kb
    → Tracks (change_key keys key_id released) (tracked kb key_id released)
unfolding tracked
tracked-Tracks keys kb key_id released v =
    derive_mods-Agree (change_key keys key_id released) _ _
      (track_key-Switched keys kb.held kb.mods kb.extended key_id released (held_bit key_id) refl v)
      refl

put_char-Tracks :
    (keys : Keys) (kb : Keyboard) (c : ℕ) → Tracks keys kb → Tracks keys (put_char kb c)
unfolding put_char
put_char-Tracks keys kb c v = elim (Bool-cases ((kb.head + 1) % 256 == kb.tail)) [
  | inl full ↦ rw full v
  | inr room ↦ rw room v
]

-- The delivery of a key leaves the modifiers as they are.
route_key-Tracks :
    (keys : Keys) (kb : Keyboard) (qs : Queues) (to : ℤ × ℤ) (released : Bool) (ascii key_id : ℕ)
    → Tracks keys kb
    → Tracks keys (route_key kb qs to released ascii key_id).0
unfolding route_key
route_key-Tracks keys kb qs (pos target, win) released ascii key_id v = v
route_key-Tracks keys kb qs (negsuc target, win) released ascii key_id v =
    elim (Bool-cases (not released && not (ascii == 0) && not (any_bit kb.mods 0x06))) [
      | inl typed ↦ rw typed (put_char-Tracks keys kb ascii v)
      | inr other ↦ rw other v
    ]

pub deliver_key-Tracks :
    (k : Kwm) (keys : Keys) (kb : Keyboard) (o : Bool × k.State) (qs : Queues) (released : Bool)
    (ascii key_id : ℕ)
    → Tracks keys kb
    → Tracks keys (deliver_key k kb o qs released ascii key_id).kbd
unfolding deliver_key
deliver_key-Tracks k keys kb (true, w) qs released ascii key_id v = v
deliver_key-Tracks k keys kb (false, w) qs released ascii key_id v =
    route_key-Tracks keys kb qs (k.kwm_route_keyboard w) released ascii key_id v
