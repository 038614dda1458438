-- ===== src/Timer/Tests.antt =====
-- Runs of sys/timer.c, and its theorems at them.
use cse508_operating_system.Prelude.{
  ℕ, Option, get_or, ◌/◌, ◌%◌, ◌≡◌, ◌≢◌, refl, arith, some, [], ◌∷◌,
}
use cse508_operating_system.Pic.{outb}
use mathlib.Core.Path.{subst}
use cse508_operating_system.Text.Strings.{IsString}
use cse508_operating_system.Console.{Console}
use cse508_operating_system.Timer.Tick.{status_format, timer_tick}
use cse508_operating_system.Timer.Line.{ShowsClock, timer_tick_lem}
use cse508_operating_system.Timer.{
  Uptime, zeros, padded, show_uptime, timer_callback, set_timer_phase,
}

-- One hour, one minute and five seconds are shown as 01:01:01.
one_hour : show_uptime 3665 ≡ record { hours = padded 1; mins = padded 1; secs = padded 1 }
unfolding show_uptime
one_hour = refl

-- The low byte and the high byte of 11931.
phase : set_timer_phase ≡ outb 0x43 0x36 ∷ outb 0x40 155 ∷ outb 0x40 46 ∷ []
unfolding set_timer_phase
phase = refl

-- The format of the first second, at address 0.
abbrev first_second : Uptime
first_second = record { hours = zeros; mins = zeros; secs = padded 0 }

abbrev memory : ℕ → ℕ
memory a = get_or (status_format first_second) a 0

format_there : (u : Uptime) → (timer_callback 17).1 ≡ some u → IsString memory 0 (status_format u)
unfolding timer_callback
format_there u e =
    let both : ◌≡◌ {A = Option Uptime} (some first_second) (some u) = e in
    let same : first_second ≡ u = cc in
    subst (λ (v : Uptime). IsString memory 0 (status_format v)) same (omega arith)

abbrev dark : Console
dark = record { c_x = 0; c_y = 0; timer_x = 0; timer_y = 0; screen = λ a. 0 }

timer_tick_lem_example :
    (s' : Console) × (timer_tick 30 200 memory memory (λ u. 0) dark 17 ≡ some (18, s'))
    × (18 % 18 ≢ 0 → s' ≡ dark)
    × (18 % 18 ≡ 0 → ShowsClock dark (18 / 100) s')
timer_tick_lem_example =
    timer_tick_lem 30 200 memory memory (λ u. 0) dark 17 (omega arith) format_there (omega arith)
      (omega arith)
