-- ===== src/Keyboard.antt =====
-- drivers/keyboard.c: the scancodes of the keyboard, the modifier keys, and the buffer of the terminal.
-- The interrupt handler reads the two ports once: their bytes are its arguments. What it asks of the
-- window manager is an interface. Keyboard/Buffer is the terminal's buffer, Keyboard/Keys,
-- Keyboard/Modifiers and Keyboard/Run the modifier keys. The controller's set-up (pic_remap) and the end-of-interrupt writes
-- are not modelled.
pub mod Buffer
pub mod Keys
pub mod Modifiers
pub mod Run
mod Witnesses
use aetheroz.Prelude.{
  ℕ, zero, suc, ◌+◌, ◌%◌, Bool, true, false, ◌&&◌, ◌||◌, not, Option, none, some, List, [], ◌∷◌,
  ltb, leb, ◌==◌, if◌then◌else◌, update, get_or, bit_and, bit_or, bit_xor,
}
use aetheroz.Prelude.Int.{ℤ, pos, negsuc}
use aetheroz.Prelude.Bytes.{bit_test, bit_on, bit_off}
use aetheroz.Event.{Queues, push_event_to}

-- The calls of the window manager (kernel/gfx/kwm.c): whether a key is a shortcut, and the task and the
-- window that a key goes to, where a negative task is none.
pub record Kwm : Type 1 where
  pub State : Type 0
  pub kwm_handle_shortcut : State → ℕ → Bool → ℕ → Bool × State
  pub kwm_route_keyboard : State → ℤ × ℤ

-- KBD_BUFFER_SIZE.
abbrev pub kbd_buffer_size : ℕ
kbd_buffer_size = 256

-- The statics of the file, without their prefix.
pub record Keyboard : Type 0 where
  pub buffer : ℕ → ℕ
  pub head : ℕ
  pub tail : ℕ
  pub held : ℕ
  pub mods : ℕ
  pub extended : Bool

unfoldable pub init_keyboard : Keyboard → Keyboard
init_keyboard kb = record kb { head = 0; tail = 0; held = 0; mods = 0; extended = false }

-- An entry behind the last is 0.
abbrev pub kbdus : List ℕ
kbdus =
    0 ∷ 27 ∷ 49 ∷ 50 ∷ 51 ∷ 52 ∷ 53 ∷ 54 ∷ 55 ∷ 56 ∷ 57 ∷ 48 ∷ 45 ∷ 61 ∷ 8 ∷ 9 ∷ 113 ∷ 119 ∷ 101
    ∷ 114 ∷ 116 ∷ 121 ∷ 117 ∷ 105 ∷ 111 ∷ 112 ∷ 91 ∷ 93 ∷ 10 ∷ 0 ∷ 97 ∷ 115 ∷ 100 ∷ 102 ∷ 103 ∷ 104
    ∷ 106 ∷ 107 ∷ 108 ∷ 59 ∷ 39 ∷ 96 ∷ 0 ∷ 92 ∷ 122 ∷ 120 ∷ 99 ∷ 118 ∷ 98 ∷ 110 ∷ 109 ∷ 44 ∷ 46 ∷ 47
    ∷ 0 ∷ 42 ∷ 0 ∷ 32 ∷ 0 ∷ 0 ∷ 0 ∷ 0 ∷ 0 ∷ 0 ∷ 0 ∷ 0 ∷ 0 ∷ 0 ∷ 0 ∷ 0 ∷ 0 ∷ 0 ∷ 0 ∷ 0 ∷ 45 ∷ 0 ∷ 0
    ∷ 0 ∷ 43 ∷ 0 ∷ 0 ∷ 0 ∷ 0 ∷ 0 ∷ 0 ∷ 0 ∷ 0 ∷ 0 ∷ 0 ∷ 0 ∷ []

abbrev pub kbdus_shift : List ℕ
kbdus_shift =
    0 ∷ 27 ∷ 33 ∷ 64 ∷ 35 ∷ 36 ∷ 37 ∷ 94 ∷ 38 ∷ 42 ∷ 40 ∷ 41 ∷ 95 ∷ 43 ∷ 8 ∷ 9 ∷ 81 ∷ 87 ∷ 69 ∷ 82
    ∷ 84 ∷ 89 ∷ 85 ∷ 73 ∷ 79 ∷ 80 ∷ 123 ∷ 125 ∷ 10 ∷ 0 ∷ 65 ∷ 83 ∷ 68 ∷ 70 ∷ 71 ∷ 72 ∷ 74 ∷ 75 ∷ 76
    ∷ 58 ∷ 34 ∷ 126 ∷ 0 ∷ 124 ∷ 90 ∷ 88 ∷ 67 ∷ 86 ∷ 66 ∷ 78 ∷ 77 ∷ 60 ∷ 62 ∷ 63 ∷ 0 ∷ 42 ∷ 0 ∷ 32
    ∷ 0 ∷ 0 ∷ 0 ∷ 0 ∷ 0 ∷ 0 ∷ 0 ∷ 0 ∷ 0 ∷ 0 ∷ 0 ∷ 0 ∷ 0 ∷ 0 ∷ 0 ∷ 0 ∷ 45 ∷ 0 ∷ 0 ∷ 0 ∷ 43 ∷ 0 ∷ 0
    ∷ 0 ∷ 0 ∷ 0 ∷ 0 ∷ 0 ∷ 0 ∷ 0 ∷ 0 ∷ 0 ∷ []

-- The bit of `kbd_held` for a key, from HELD_LSHIFT on.
unfoldable pub held_bit : ℕ → Option ℕ
held_bit key_id =
    if key_id == 0x2A
    then some 0
    else if key_id == 0x36
    then some 1
    else if key_id == 0x1D
    then some 2
    else if key_id == 0x11D
    then some 3
    else if key_id == 0x38
    then some 4
    else if key_id == 0x138
    then some 5
    else if key_id == 0x3A
    then some 6
    else none

-- `kbd_held &= ~mask` or `kbd_held |= mask`
abbrev pub hold : ℕ → ℕ → Bool → ℕ
hold held k released = if released then bit_off held k else bit_on held k

-- KEY_MOD_CAPS, toggled where CapsLock goes down and was not held.
abbrev pub toggle_caps : ℕ → ℕ → Bool → ℕ
toggle_caps mods held released = if released || bit_test held 6 then mods else bit_xor mods 0x08

-- The switch on the key: the new `kbd_held` and `kbd_mods`.
unfoldable pub track_key : ℕ → ℕ → Option ℕ → Bool → ℕ × ℕ
track_key held mods none released = (held, mods)
track_key held mods (some k) released =
    (hold held k released, if k == 6 then toggle_caps mods held released else mods)

abbrev pub or_if : Bool → ℕ → ℕ → ℕ
or_if test mask x = if test then bit_or x mask else x

-- `x & mask` as a condition.
abbrev pub any_bit : ℕ → ℕ → Bool
any_bit x mask = not (bit_and x mask == 0)

unfoldable pub derive_mods : ℕ → ℕ → ℕ
derive_mods held mods =
    or_if (any_bit held 0x30) 0x04
      (or_if (any_bit held 0x0C) 0x02 (or_if (any_bit held 0x03) 0x01 (bit_and mods 0x08)))

abbrev pub is_lower : ℕ → Bool
is_lower c = leb 97 c && leb c 122

abbrev pub flip_if : Bool → Bool → Bool
flip_if test b = if test then not b else b

unfoldable pub to_ascii : ℕ → ℕ → Bool → ℕ
to_ascii mods code released =
    let ascii = get_or kbdus code 0 in
    let upper = flip_if (any_bit mods 0x08 && is_lower ascii) (any_bit mods 0x01) in
    if not released && upper then get_or kbdus_shift code 0 else ascii

-- A character enters the buffer if there is room.
unfoldable pub put_char : Keyboard → ℕ → Keyboard
put_char kb ascii =
    let next_head = (kb.head + 1) % kbd_buffer_size in
    if next_head == kb.tail
    then kb
    else record kb { buffer = update kb.buffer kb.head ascii; head = next_head }

-- A key goes to the task that has the focus, or to the terminal.
unfoldable pub route_key : Keyboard → Queues → ℤ × ℤ → Bool → ℕ → ℕ → Keyboard × Queues
route_key kb qs (pos target, win) released ascii key_id = (
  kb,
  push_event_to qs (pos target) (if released then 5 else 1) (pos ascii) (pos kb.mods) (pos key_id)
      win,
)
route_key kb qs (negsuc target, win) released ascii key_id = (
  if not released && not (ascii == 0) && not (any_bit kb.mods 0x06) then put_char kb ascii else kb,
  qs,
)

-- What the interrupts of the keyboard change.
pub record Console (k : Kwm) : Type 0 where
  pub kbd : Keyboard
  pub kwm : k.State
  pub queues : Queues

-- A key that is no shortcut of the window manager is routed.
unfoldable pub deliver_key :
    (k : Kwm) → Keyboard → Bool × k.State → Queues → Bool → ℕ → ℕ → Console k
deliver_key k kb (true, w) qs released ascii key_id = record { kbd = kb; kwm = w; queues = qs }
deliver_key k kb (false, w) qs released ascii key_id =
    let routed = route_key kb qs (k.kwm_route_keyboard w) released ascii key_id in
    record { kbd = routed.0; kwm = w; queues = routed.1 }

-- `kbd_held` and `kbd_mods` after a key.
unfoldable pub tracked : Keyboard → ℕ → Bool → Keyboard
tracked kb key_id released =
    let now = track_key kb.held kb.mods (held_bit key_id) released in
    record kb { held = now.0; mods = derive_mods now.0 now.1; extended = false }

-- `code | (kbd_extended ? 0x100 : 0)`
abbrev pub key_id_of : Bool → ℕ → ℕ
key_id_of extended code = if extended then bit_or code 0x100 else code

unfoldable pub handle_scancode : (k : Kwm) → Console k → ℕ → Console k
handle_scancode k c scancode =
    let released = any_bit scancode 0x80 in
    let code = bit_and scancode 0x7F in
    let key_id = key_id_of c.kbd.extended code in
    let kb = tracked c.kbd key_id released in
    if scancode == 0xE0
    then record c { kbd = record c.kbd { extended = true } }
    else deliver_key k kb (k.kwm_handle_shortcut c.kwm kb.mods released key_id) c.queues released
        (to_ascii kb.mods code released) key_id

-- Bit 0 of the status says that there is a byte, bit 5 that it is the mouse's.
unfoldable pub keyboard_handler : (k : Kwm) → Console k → ℕ → ℕ → Console k
keyboard_handler k c status scancode =
    if any_bit status 0x01 && not (any_bit status 0x20) then handle_scancode k c scancode else c

-- The bytes read, of which there are at most `size`.
unfoldable pub keyboard_read : Keyboard → ℕ → List ℕ × Keyboard
keyboard_read kb zero = ([], kb)
keyboard_read kb (suc size) =
    let rest = keyboard_read (record kb { tail = (kb.tail + 1) % kbd_buffer_size }) size in
    if kb.head == kb.tail then ([], kb) else (kb.buffer kb.tail ∷ rest.0, rest.1)

unfoldable pub flush_kbd_buffer : Keyboard → Keyboard
flush_kbd_buffer kb = record kb { head = 0; tail = 0 }
