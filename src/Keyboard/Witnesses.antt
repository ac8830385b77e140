-- ===== src/Keyboard/Witnesses.antt =====
-- The keyboard's driver at concrete inputs.
use aetheroz.Prelude.{ℕ, ◌≡◌, refl, Bool, true, false, List, [], ◌∷◌, arith}
use aetheroz.Prelude.Int.{pos, negsuc}
use aetheroz.Event.{Event}
use aetheroz.Keyboard.{
  Kwm, Keyboard, Console, init_keyboard, held_bit, track_key, derive_mods, put_char, route_key,
  deliver_key, tracked, to_ascii, handle_scancode, keyboard_handler, keyboard_read,
}
use aetheroz.Keyboard.Keys.{no_keys}
use aetheroz.Keyboard.Modifiers.{Agree}
use aetheroz.Keyboard.Run.{run, feed_all, AllBytes, run-Agree}

-- No window has the focus: the keys go to the terminal.
abbrev shell_only : Kwm
shell_only = record {
  State = Bool;
  kwm_handle_shortcut = λ w mods released key_id. (false, w);
  kwm_route_keyboard = λ w. (negsuc 0, pos 0);
}

abbrev no_event : Event
no_event = record { kind = 0; param1 = pos 0; param2 = pos 0; param3 = pos 0; win_id = pos 0 }

abbrev off : Keyboard
off = record { buffer = λ i. 0; head = 0; tail = 0; held = 255; mods = 255; extended = true }

abbrev console : Console shell_only
console = record {
  kbd = init_keyboard off;
  kwm = true;
  queues = λ t. record { slots = λ i. no_event; head = 0; tail = 0 };
}

-- Right Ctrl down and up, left Shift down, the key A, and a byte of the mouse.
abbrev inputs : List (ℕ × ℕ)
inputs = (1, 0xE0) ∷ (1, 0x1D) ∷ (1, 0xE0) ∷ (1, 0x9D) ∷ (1, 0x2A) ∷ (1, 0x1E) ∷ (0x21, 0x2A) ∷ []

inputs-AllBytes : AllBytes inputs
unfolding AllBytes
inputs-AllBytes = (
  omega arith,
  (omega arith, (omega arith, (omega arith, (omega arith, (omega arith, (omega arith, refl)))))),
)

abbrev typed : Keyboard
typed = (run shell_only (record console { kbd = init_keyboard console.kbd }) inputs).kbd

run-Agree_example : Agree (feed_all no_keys inputs) typed.held typed.mods typed.extended
run-Agree_example = run-Agree shell_only console inputs inputs-AllBytes

upper_a : (keyboard_read typed 10).0 ≡ 65 ∷ []
unfolding keyboard_read init_keyboard keyboard_handler handle_scancode deliver_key route_key
    put_char tracked track_key held_bit derive_mods to_ascii
upper_a = refl
