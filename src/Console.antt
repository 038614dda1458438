-- ===== src/Console.antt =====
-- The console of sys/write.c: text memory, the cursor, and the position of the status line.
-- A coordinate is an `int` that the code never makes negative. `screen` is the memory from
-- `start_addr_printf` on, two bytes a character. A string is the list of its bytes.
pub mod Cells
pub mod Area
pub mod Clear
pub mod Status
mod Tests
use cse508_operating_system.Prelude.{
  ℕ, zero, suc, ◌+◌, ◌-◌, ◌*◌, ◌%◌, ◌/◌, List, [], ◌∷◌, ◌++◌, ltb, leb, ◌==◌, if◌then◌else◌, update,
  u8, u16, ◌>>>◌, bit_and,
}
use cse508_operating_system.Pic.{Write, outb}

abbrev pub rows : ℕ
rows = 25

abbrev pub columns : ℕ
columns = 80

-- BOBCOLOR and DOSCOLOR
abbrev pub text_color : ℕ
text_color = 0x0F

abbrev pub status_color : ℕ
status_color = 0x1F

-- `c_x`, `c_y`, `c_timer_x`, `c_timer_y` and the screen.
pub record Console : Type 0 where
  pub c_x : ℕ
  pub c_y : ℕ
  pub timer_x : ℕ
  pub timer_y : ℕ
  pub screen : ℕ → ℕ

-- The port writes of `update_cursor_no_type`.
unfoldable pub update_cursor_no_type : Console → List Write
update_cursor_no_type s =
    let position : ℕ = u16 (s.c_y * 80 + s.c_x) in
    outb 0x3D4 0x0F
    ∷ outb 0x3D5 (u8 (bit_and position 0xFF))
    ∷ outb 0x3D4 0x0E
    ∷ outb 0x3D5 (u8 (bit_and (position >>> 8) 0xFF))
    ∷ []

-- `c_y++`, and back to 0 at the last row.
unfoldable pub next_row : Console → Console
next_row s = record s { c_y = if s.c_y + 1 == rows - 1 then 0 else s.c_y + 1 }

-- `update_cursor`, up to the port writes.
unfoldable pub advance : Console → Console
unfolding next_row
advance s =
    if s.c_x + 1 == columns then next_row (record s { c_x = 0 }) else record s { c_x = s.c_x + 1 }

-- A character and its color at a place of the screen.
unfoldable pub draw : (screen : ℕ → ℕ) (x y c color : ℕ) → ℕ → ℕ
draw screen x y c color =
    update (update screen (y * 2 * 80 + x * 2) c) (y * 2 * 80 + x * 2 + 1) color

-- The branches of `putchar`, up to the port writes.
unfoldable pub put : Console → (c : ℕ) → Console
unfolding next_row advance draw
put s c =
    if c == 10
    then next_row (record s { c_x = 0 })
    else if c == 8
    then (if leb 1 s.c_x then record s { c_x = s.c_x - 1 } else s)
    else if c == 9
    then (if leb (s.c_x + 8) columns
        then record s { c_x = s.c_x + 8 }
        else next_row (record s { c_x = (s.c_x + 8) % columns }))
    else advance (record s { screen = draw s.screen s.c_x s.c_y c text_color })

-- `putchar`: the console, and what the ports get.
unfoldable pub putchar : Console → (ch : ℕ) → Console × List Write
unfolding put update_cursor_no_type
putchar s ch = (put s (u8 ch), update_cursor_no_type (put s (u8 ch)))

unfoldable pub puts : Console → (string : List ℕ) → Console × List Write
unfolding putchar
puts s [] = (s, [])
puts s (c ∷ string) =
    let first : Console × List Write = putchar s c in
    let rest : Console × List Write = puts first.0 string in (rest.0, first.1 ++ rest.1)

-- The loop of `clrscr`, with `n` rounds left.
unfoldable pub blank_loop : ℕ → Console → Console × List Write
unfolding putchar
blank_loop zero s = (s, [])
blank_loop (suc n) s =
    let first : Console × List Write = putchar s 0x20 in
    let rest : Console × List Write = blank_loop n first.0 in (rest.0, first.1 ++ rest.1)

unfoldable pub clrscr : Console → Console × List Write
clrscr s =
    let blanks : Console × List Write =
      blank_loop ((rows - 1) * (columns - 1)) (record s { c_x = 0; c_y = 0 }) in
    let home : Console = record (blanks.0) { c_x = 0; c_y = 0 } in
    (home, blanks.1 ++ update_cursor_no_type home)

unfoldable pub putchar_cx_cy : Console → (ch : ℕ) → Console
unfolding draw
putchar_cx_cy s ch = record s {
  screen = draw s.screen s.timer_x s.timer_y (u8 ch) status_color;
  timer_x = s.timer_x + 1;
}

unfoldable pub puts_cx_cy : Console → (string : List ℕ) → Console
unfolding putchar_cx_cy
puts_cx_cy s [] = s
puts_cx_cy s (c ∷ string) = puts_cx_cy (putchar_cx_cy s c) string

-- How `print_cx_cy` starts.
unfoldable pub move_status : Console → (row col : ℕ) → Console
move_status s row col = record s { timer_x = row; timer_y = col }
