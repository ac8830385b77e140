-- ===== src/Keyboard/Run.antt =====
-- The interrupts of the keyboard, one after the other.
use aetheroz.Prelude.{
  ℕ, ◌+◌, ◌%◌, ◌<◌, ◌≡◌, refl, sym, ap, ap₂, subst, ◌∙◌, inl, inr, Bool, true, false, ◌&&◌, not,
  List, [], ◌∷◌, arith, ◌==◌, if◌then◌else◌, bit_and, Bool-cases,
}
use aetheroz.Keyboard.{
  Kwm, Keyboard, Console, init_keyboard, any_bit, deliver_key, tracked, key_id_of, to_ascii,
  handle_scancode, keyboard_handler,
}
use aetheroz.Keyboard.Keys.{Keys, no_keys, change_key, feed, bit_test_zero, code_lem}
use aetheroz.Keyboard.Modifiers.{Agree, Tracks, tracked-Tracks, deliver_key-Tracks}

-- The status and the byte that each interrupt finds at the ports.
abbrev pub run : (k : Kwm) → Console k → List (ℕ × ℕ) → Console k
run k c [] = c
run k c ((status, scancode) ∷ inputs) = run k (keyboard_handler k c status scancode) inputs

-- The keys after the bytes that are the keyboard's.
abbrev pub feed_all : Keys → List (ℕ × ℕ) → Keys
feed_all keys [] = keys
feed_all keys ((status, scancode) ∷ inputs) =
    feed_all (if any_bit status 0x01 && not (any_bit status 0x20) then feed keys scancode else keys)
      inputs

unfoldable pub AllBytes : List (ℕ × ℕ) → Type 0
AllBytes [] = ◌≡◌ {A = ℕ} 0 0
AllBytes ((status, scancode) ∷ inputs) = (scancode < 256) × AllBytes inputs

key_id_of_lem :
    (e : Bool) (x : ℕ)
    → x < 256
    → key_id_of e (bit_and x 0x7F) ≡ (if e then x % 128 + 256 else x % 128)
key_id_of_lem true x h = (code_lem x h).2
key_id_of_lem false x h = (code_lem x h).1

handle_scancode-Tracks :
    (k : Kwm) (keys : Keys) (c : Console k) (scancode : ℕ)
    → scancode < 256
    → Tracks keys c.kbd
    → Tracks (feed keys scancode) (handle_scancode k c scancode).kbd
unfolding handle_scancode feed
handle_scancode-Tracks k keys c x h v = elim (Bool-cases (x == 0xE0)) [
  | inl e ↦ rw e (record {
    held_lt = v.held_lt;
    mods_lt = v.mods_lt;
    holds = v.holds;
    shift = v.shift;
    ctrl = v.ctrl;
    alt = v.alt;
    caps_lock = v.caps_lock;
    prefixed = refl;
  })
  | inr e ↦
      let released = any_bit x 0x80 in
      let key_id = key_id_of c.kbd.extended (bit_and x 0x7F) in
      let kb = tracked c.kbd key_id released in
      let named : key_id ≡ (if keys.prefix then x % 128 + 256 else x % 128) =
        key_id_of_lem c.kbd.extended x h
        ∙ ap (λ b. if b then x % 128 + 256 else x % 128) v.prefixed in
      let delivered =
        deliver_key-Tracks k (change_key keys key_id released) kb
          (k.kwm_handle_shortcut c.kwm kb.mods released key_id) c.queues released
          (to_ascii kb.mods (bit_and x 0x7F) released) key_id
          (tracked-Tracks keys c.kbd key_id released v) in
      let out =
        deliver_key k kb (k.kwm_handle_shortcut c.kwm kb.mods released key_id) c.queues released
          (to_ascii kb.mods (bit_and x 0x7F) released) key_id in
      let same = ap₂ (change_key keys) named (code_lem x h).0 in
      rw e (subst (λ now. Tracks now out.kbd) same delivered)
]

run-Tracks :
    (k : Kwm) (keys : Keys) (c : Console k) (inputs : List (ℕ × ℕ))
    → AllBytes inputs
    → Tracks keys c.kbd
    → Tracks (feed_all keys inputs) (run k c inputs).kbd
unfolding AllBytes keyboard_handler
run-Tracks k keys c [] bytes v = v
run-Tracks k keys c ((status, scancode) ∷ inputs) (h, bytes) v =
    let Result : Bool → Type 0 = λ b.
      Tracks (feed_all (if b then feed keys scancode else keys) inputs)
        (run k (if b then handle_scancode k c scancode else c) inputs).kbd in
    elim (Bool-cases (any_bit status 0x01 && not (any_bit status 0x20))) [
      | inr idle ↦ subst Result (sym idle) (run-Tracks k keys c inputs bytes v)
      | inl ready ↦ subst Result (sym ready) (
          run-Tracks k (feed keys scancode) (handle_scancode k c scancode) inputs bytes
            (handle_scancode-Tracks k keys c scancode h v))
    ]

init_keyboard-Tracks : (kb : Keyboard) → Tracks no_keys (init_keyboard kb)
unfolding init_keyboard
init_keyboard-Tracks kb = record {
  held_lt = omega arith;
  mods_lt = omega arith;
  holds = bit_test_zero;
  shift = refl;
  ctrl = refl;
  alt = refl;
  caps_lock = refl;
  prefixed = refl;
}

-- After the initialisation and any interrupts, whatever the window manager answers: the modifiers that
-- the driver reports are those of the keys that are down by the scancodes. SHIFT, CTRL and ALT are set
-- exactly if the key of one side is down, CAPS if CapsLock went down an odd number of times from up, and
-- `kbd_held` has the bit of a key exactly if the key is down.
pub run-Agree :
    (k : Kwm) (c : Console k) (inputs : List (ℕ × ℕ))
    → AllBytes inputs
    → let keys = feed_all no_keys inputs in
      let kb = (run k (record c { kbd = init_keyboard c.kbd }) inputs).kbd in
      Agree keys kb.held kb.mods kb.extended
run-Agree k c inputs bytes =
    run-Tracks k no_keys (record c { kbd = init_keyboard c.kbd }) inputs bytes
      (init_keyboard-Tracks c.kbd)
