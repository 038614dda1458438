-- ===== src/Timer.antt =====
-- The uptime clock of sys/timer.c. The 12 formats that `print_cx_cy` gets differ in how they write
-- the three fields; a field is kept with the number that it gets.
pub mod Clock
pub mod Tick
pub mod Digits
pub mod Formats
pub mod Line
mod Tests
use cse508_operating_system.Prelude.{
  ℕ, ◌+◌, ◌/◌, ◌%◌, Option, none, some, List, [], ◌∷◌, ltb, leb, ◌==◌, if◌then◌else◌, u8, u16, u32,
  ◌>>>◌, bit_and,
}
use cse508_operating_system.Pic.{Write, outb}

-- "00", "0%d" or "%d".
pub data Field : Type 0 where
  zeros : Field
  padded : (n : ℕ) → Field
  bare : (n : ℕ) → Field

pub record Uptime : Type 0 where
  pub hours : Field
  pub mins : Field
  pub secs : Field

-- The tests that choose the format: a field below the limit gets a zero in front.
unfoldable pub pad : (limit n : ℕ) → Field
pad limit n = if ltb n limit then padded n else bare n

unfoldable pub hour_section : (secs : ℕ) → Uptime
unfolding pad
hour_section secs =
    let hours : ℕ = secs / 3600 in
    let mins : ℕ = if leb 60 (secs % 3600) then secs % 3600 / 60 else secs % 3600 in
    record { hours = pad 9 hours; mins = pad 10 mins; secs = pad 10 (mins % 60) }

unfoldable pub min_section : (secs : ℕ) → Uptime
unfolding pad
min_section secs = record { hours = zeros; mins = pad 10 (secs / 60); secs = pad 10 (secs % 60) }

unfoldable pub sec_section : (secs : ℕ) → Uptime
unfolding pad
sec_section secs = record { hours = zeros; mins = zeros; secs = pad 10 secs }

unfoldable pub show_uptime : (secs : ℕ) → Uptime
unfolding hour_section min_section sec_section
show_uptime secs =
    if leb 3600 secs
    then hour_section secs
    else if leb 60 secs
    then min_section secs
    else sec_section secs

-- The variable `tick` afterwards, and what is printed.
unfoldable pub timer_callback : (tick : ℕ) → ℕ × Option Uptime
unfolding show_uptime
timer_callback tick = (
  u32 (tick + 1),
  if u32 (tick + 1) % 18 == 0 then some (show_uptime (u32 (tick + 1) / 100)) else none,
)

-- The divisor 1193180 / 100 is sent by bytes.
unfoldable pub set_timer_phase : List Write
set_timer_phase =
    let divisor : ℕ = u16 (1193180 / 100) in
    outb 0x43 0x36 ∷ outb 0x40 (u8 (bit_and divisor 0xFF)) ∷ outb 0x40 (u8 (divisor >>> 8)) ∷ []
