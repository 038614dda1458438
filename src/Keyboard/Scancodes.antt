-- ===== src/Keyboard/Scancodes.antt =====
-- The scan codes of include/kbc_scancodes.h that the keyboard code names.
use cse508_operating_system.Prelude.{ℕ}

abbrev pub kbcsc_1 : ℕ
kbcsc_1 = 0x02

abbrev pub kbcsc_9 : ℕ
kbcsc_9 = 0x0a

abbrev pub kbcsc_0 : ℕ
kbcsc_0 = 0x0b

abbrev pub kbcsc_backspace : ℕ
kbcsc_backspace = 0x0e

abbrev pub kbcsc_q : ℕ
kbcsc_q = 0x10

abbrev pub kbcsc_p : ℕ
kbcsc_p = 0x19

abbrev pub kbcsc_open_curl : ℕ
kbcsc_open_curl = 0x1a

abbrev pub kbcsc_close_curl : ℕ
kbcsc_close_curl = 0x1b

abbrev pub kbcsc_return : ℕ
kbcsc_return = 0x1c

abbrev pub kbcsc_a : ℕ
kbcsc_a = 0x1e

abbrev pub kbcsc_l : ℕ
kbcsc_l = 0x26

abbrev pub kbcsc_colon : ℕ
kbcsc_colon = 0x27

abbrev pub kbcsc_tilda : ℕ
kbcsc_tilda = 0x29

abbrev pub kbcsc_leftshift : ℕ
kbcsc_leftshift = 0x2a

abbrev pub kbcsc_backslash : ℕ
kbcsc_backslash = 0x2b

abbrev pub kbcsc_z : ℕ
kbcsc_z = 0x2c

abbrev pub kbcsc_m : ℕ
kbcsc_m = 0x32

abbrev pub kbcsc_lt : ℕ
kbcsc_lt = 0x33

abbrev pub kbcsc_forwardslash : ℕ
kbcsc_forwardslash = 0x35

abbrev pub kbcsc_rightshift : ℕ
kbcsc_rightshift = 0x36

abbrev pub kbcsc_space : ℕ
kbcsc_space = 0x39
