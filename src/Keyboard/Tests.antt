-- ===== src/Keyboard/Tests.antt =====
-- Runs of the keyboard, and its theorems at them.
use cse508_operating_system.Prelude.{
  ℕ, ◌≡◌, ◌≢◌, get_or, some, refl, List, [], ◌∷◌, arith, not, ◌==◌, ◌||◌,
}
use cse508_operating_system.Keyboard.{kbcsc_tochar, kbc_irq, kbcsc_leftshift, kbcsc_rightshift}
use cse508_operating_system.Keyboard.Layout.{key_in, rows, kbcsc_tochar_lem}
use cse508_operating_system.Pic.{Write}
use cse508_operating_system.Console.{Console}
use cse508_operating_system.Keyboard.Echo.{kbc_echo}
use cse508_operating_system.Keyboard.Shown.{Echoed, one_character, kbc_echo_lem}
use cse508_operating_system.Keyboard.Held.{shift_after, held, shift_bits, shift_after-held}

-- Right shift down, left shift down, left shift up.
abbrev history : List ℕ
history = 0xaa ∷ 0x2a ∷ 0x36 ∷ []

capital : (kbc_irq (shift_after history) 0x1e).1 ≡ 65
unfolding kbc_irq
capital = refl

kbcsc_tochar_lem_example : kbcsc_tochar 0x35 2 ≡ key_in rows 0x35 (not (2 == 0))
kbcsc_tochar_lem_example = kbcsc_tochar_lem 0x35 2 (omega arith)

shift_after-held_example :
    shift_after history ≡ shift_bits (held kbcsc_leftshift history) (held kbcsc_rightshift history)
shift_after-held_example = shift_after-held history

-- "%c" at address 0.
abbrev memory : ℕ → ℕ
memory a = get_or one_character a 0

abbrev screen_end : Console
screen_end = record { c_x = 79; c_y = 23; timer_x = 0; timer_y = 0; screen = λ a. 0 }

-- The A key in the last cell of the text area, with the right shift key held down.
kbc_echo_lem_example :
    let c =
      key_in rows 0x1e
        (held kbcsc_leftshift (0x1e ∷ history) || held kbcsc_rightshift (0x1e ∷ history)) in
    (s' : Console) × (writes : List Write) × (kbc_echo 2 1 memory memory 0 0 screen_end
        (shift_after history)
        0x1e
      ≡ some (shift_after (0x1e ∷ history), (s', writes)))
    × (c ≡ 0 → (s' ≡ screen_end) × (writes ≡ []))
    × (c ≢ 0 → Echoed screen_end c s')
kbc_echo_lem_example =
    kbc_echo_lem 2 1 memory memory 0 0 screen_end history 0x1e (omega arith)
      (record { column = omega arith; row = omega arith }) (omega arith) (omega arith) (omega arith)
