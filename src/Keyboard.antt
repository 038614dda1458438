-- ===== src/Keyboard.antt =====
-- The keyboard of sys/kbc.c and sys/kbc_scancodes.c. A scan code and a character are bytes; what
-- port 0x60 gives is the argument of `kbc_irq`.
mod Scancodes
pub mod Layout
pub mod Held
pub mod Echo
pub mod Shown
mod Tests
pub use Scancodes.{
  kbcsc_1, kbcsc_9, kbcsc_0, kbcsc_backspace, kbcsc_q, kbcsc_p, kbcsc_open_curl, kbcsc_close_curl,
  kbcsc_return, kbcsc_a, kbcsc_l, kbcsc_colon, kbcsc_tilda, kbcsc_leftshift, kbcsc_backslash,
  kbcsc_z, kbcsc_m, kbcsc_lt, kbcsc_forwardslash, kbcsc_rightshift, kbcsc_space,
}
use cse508_operating_system.Prelude.{
  ℕ, ◌+◌, ◌-◌, ◌*◌, Bool, [], ◌∷◌, ltb, leb, ◌==◌, ◌&&◌, if◌then◌else◌, get_or, u8, bit_and, bit_or,
}

unfoldable pub char_shift_adjust : (c shift : ℕ) → ℕ
char_shift_adjust c shift = u8 (c + (if shift == 0 then 0 else 256 - 32))

-- `if (b >= first && b <= last)`
abbrev pub between : (first last b : ℕ) → Bool
between first last b = leb first b && leb b last

unfoldable pub kbcsc_tochar : (b shift : ℕ) → ℕ
unfolding char_shift_adjust
kbcsc_tochar b shift =
    if b == kbcsc_space
    then 32
    else if b == kbcsc_return
    then 10
    else if between kbcsc_q kbcsc_p b
    then char_shift_adjust
        (get_or (113 ∷ 119 ∷ 101 ∷ 114 ∷ 116 ∷ 121 ∷ 117 ∷ 105 ∷ 111 ∷ 112 ∷ 0 ∷ []) (b - kbcsc_q)
          0)
        shift
    else if between kbcsc_a kbcsc_l b
    then char_shift_adjust
        (get_or (97 ∷ 115 ∷ 100 ∷ 102 ∷ 103 ∷ 104 ∷ 106 ∷ 107 ∷ 108 ∷ 0 ∷ []) (b - kbcsc_a) 0) shift
    else if between kbcsc_z kbcsc_m b
    then char_shift_adjust (get_or (122 ∷ 120 ∷ 99 ∷ 118 ∷ 98 ∷ 110 ∷ 109 ∷ 0 ∷ []) (b - kbcsc_z) 0)
        shift
    else if between kbcsc_1 kbcsc_9 b
    then (if shift == 0
        then 49 + b - kbcsc_1
        else get_or (33 ∷ 64 ∷ 35 ∷ 36 ∷ 37 ∷ 94 ∷ 38 ∷ 42 ∷ 40 ∷ 0 ∷ []) (b - kbcsc_1) 0)
    else if between kbcsc_0 kbcsc_backspace b
    then (if shift == 0
        then get_or (48 ∷ 45 ∷ 61 ∷ 0 ∷ []) (b - kbcsc_0) 0
        else get_or (41 ∷ 95 ∷ 43 ∷ 0 ∷ []) (b - kbcsc_0) 0)
    else if between kbcsc_colon kbcsc_tilda b
    then (if shift == 0
        then get_or (59 ∷ 39 ∷ 39 ∷ 0 ∷ []) (b - kbcsc_colon) 0
        else get_or (58 ∷ 34 ∷ 126 ∷ 0 ∷ []) (b - kbcsc_colon) 0)
    else if between kbcsc_open_curl kbcsc_close_curl b
    then (if shift == 0
        then get_or (91 ∷ 93 ∷ 0 ∷ []) (b - kbcsc_open_curl) 0
        else get_or (123 ∷ 125 ∷ 0 ∷ []) (b - kbcsc_open_curl) 0)
    else if between kbcsc_lt kbcsc_forwardslash b
    then (if shift == 0
        then get_or (44 ∷ 46 ∷ 47 ∷ 0 ∷ []) (b - kbcsc_lt) 0
        else get_or (60 ∷ 62 ∷ 47 ∷ 0 ∷ []) (b - kbcsc_lt) 0)
    else if b == kbcsc_backslash
    then (if shift == 0 then 92 else 124)
    else 0

-- The `switch` of `kbc_irq`: the static variable `shift` after the code `b`.
unfoldable pub next_shift : (shift b : ℕ) → ℕ
next_shift shift b =
    if b == kbcsc_leftshift
    then bit_or shift 1
    else if b == kbcsc_rightshift
    then bit_or shift 2
    else if b == bit_or kbcsc_leftshift 0x80
    then bit_and shift 0xFE
    else if b == bit_or kbcsc_rightshift 0x80
    then bit_and shift 0xFD
    else shift

-- The new `shift`, and the character that is shown and echoed, unless it is 0.
unfoldable pub kbc_irq : (shift b : ℕ) → ℕ × ℕ
unfolding next_shift kbcsc_tochar
kbc_irq shift b = (next_shift shift b, kbcsc_tochar b (next_shift shift b))
