-- ===== src/Timer/Clock.antt =====
-- Which time the clock shows.
use cse508_operating_system.Prelude.{
  ℕ, ◌+◌, ◌/◌, ◌%◌, ◌≤◌, ◌<◌, ◌≡◌, ◌≢◌, refl, dec_lt, lt→ltb, true, false, none, some, arith, leb,
  ltb, u32,
}
use cse508_operating_system.Timer.{
  Field, zeros, padded, bare, Uptime, pad, min_section, sec_section, show_uptime, timer_callback,
}

-- A field writes the number `n` with two digits.
abbrev pub TwoDigits : Field → ℕ → Type 0
TwoDigits zeros n = n ≡ 0
TwoDigits (padded m) n = (m ≡ n) × (n < 10)
TwoDigits (bare m) n = (m ≡ n) × (10 ≤ n) × (n < 100)

not_below : {a b : ℕ} → ¬ a < b → ltb a b ≡ false
not_below h = ground arith

pad-TwoDigits : (n : ℕ) → n < 100 → TwoDigits (pad 10 n) n
unfolding pad
pad-TwoDigits n h = elim (dec_lt n 10) [
  | yes one ↦ rw (lt→ltb n 10 one) (refl, one)
  | no two ↦ rw (not_below two) (refl, omega arith, h)
]

-- `hh:mm:ss` of a number of seconds, each field with two digits.
abbrev pub ShowsTime : Uptime → ℕ → Type 0
ShowsTime u secs =
    TwoDigits u.hours (secs / 3600)
    × TwoDigits u.mins (secs / 60 % 60)
    × TwoDigits u.secs (secs % 60)

show_uptime-ShowsTime : (secs : ℕ) → secs < 3600 → ShowsTime (show_uptime secs) secs
unfolding show_uptime min_section sec_section
show_uptime-ShowsTime secs h =
    let hour : leb 3600 secs ≡ false = ground arith in
    elim (dec_lt secs 60) [
      | yes below ↦
          let minute : leb 60 secs ≡ false = ground arith in
          let same : secs % 60 ≡ secs = omega arith in
          rw (hour, minute) (omega arith, omega arith, rw same (pad-TwoDigits secs (omega arith)))
      | no above ↦
          let minute : leb 60 secs ≡ true = ground arith in
          let same : secs / 60 % 60 ≡ secs / 60 = omega arith in
          rw (hour, minute)
            (
              omega arith,
              rw same (pad-TwoDigits (secs / 60) (omega arith)),
              pad-TwoDigits (secs % 60) (omega arith),
            )
    ]

-- In the first hour, 360000 ticks, every 18th tick shows the time, a hundred ticks to the second,
-- as `hh:mm:ss`, and the other ticks show nothing; each tick is counted.
pub timer_callback_lem :
    (tick : ℕ)
    → tick + 1 < 360000
    → ((timer_callback tick).0 ≡ tick + 1)
      × ((tick + 1) % 18 ≢ 0 → (timer_callback tick).1 ≡ none)
      × ((tick + 1) % 18 ≡ 0
          → (u : Uptime) × ((timer_callback tick).1 ≡ some u) × ShowsTime u ((tick + 1) / 100))
unfolding timer_callback
timer_callback_lem tick h =
    let kept : u32 (tick + 1) ≡ tick + 1 = omega arith in
    rw kept (
      refl,
      λ other. ground arith,
      λ shown. (
        show_uptime ((tick + 1) / 100),
        ground arith,
        show_uptime-ShowsTime ((tick + 1) / 100) (omega arith),
      ),
    )
