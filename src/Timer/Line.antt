-- ===== src/Timer/Line.antt =====
-- What the status line shows after a tick of sys/timer.c.
use mathlib.Core.List.{append-nil}
use cse508_operating_system.Prelude.{
  ℕ, ◌+◌, ◌*◌, ◌/◌, ◌%◌, ◌<◌, ◌≡◌, ◌≢◌, refl, sym, ap, ◌∙◌, Option, none, some, List, [], ◌∷◌, ◌++◌,
  arith, get_or, ℕ_discrete, ◌>>=◌,
}
use mathlib.Core.Path.{subst}
use cse508_operating_system.Text.{Bytes}
use cse508_operating_system.Text.Strings.{IsString}
use cse508_operating_system.Console.{Console, puts_cx_cy, move_status}
use cse508_operating_system.Console.Cells.{cell, shown, AllDrawn}
use cse508_operating_system.Console.Status.{puts_cx_cy_lem}
use cse508_operating_system.Printf.{Printing, print_cx_cy}
use cse508_operating_system.Printf.Loop.{args_all}
use cse508_operating_system.Timer.Digits.{two_digits}
use cse508_operating_system.Printf.Format.{print_cx_cy-Printed}
use cse508_operating_system.Timer.{Uptime, timer_callback}
use cse508_operating_system.Timer.Clock.{ShowsTime, timer_callback_lem}
use cse508_operating_system.Timer.Tick.{
  suffix, status_format, status_params, print_uptime, timer_tick,
}
use cse508_operating_system.Timer.Formats.{
  clock_text, status_pieces, status_source, status_args, status_shows, status_fits, status_length,
}

-- The 22 characters of the time stand from column 57 of the status line on, and what is in front of
-- them and the cursor are as before.
pub record ShowsClock (s : Console) (secs : ℕ) (s' : Console) : Type 0 where
  pub time : (j : ℕ) → j < 22 → shown s' (1920 + 57 + j) ≡ get_or (clock_text secs) j 0
  pub before : (a : ℕ) → a < 3840 + 2 * 57 → s'.screen a ≡ s.screen a
  pub cursor : cell s' ≡ cell s

abbrev pub IsPlain : ℕ → Type 0
IsPlain c = (10 < c) × (c < 256)

abbrev AllPlain : List ℕ → Type 0
AllPlain [] = Unit {0}
AllPlain (c ∷ cs) = IsPlain c × AllPlain cs

AllPlain-AllDrawn : (cs : List ℕ) → AllPlain cs → AllDrawn cs
AllPlain-AllDrawn [] h = tt
AllPlain-AllDrawn (c ∷ cs) ((above, byte), h) =
    ((byte, omega arith, omega arith, omega arith), AllPlain-AllDrawn cs h)

AllPlain-append : (xs ys : List ℕ) → AllPlain xs → AllPlain ys → AllPlain (xs ++ ys)
AllPlain-append [] ys h k = k
AllPlain-append (x ∷ xs) ys (p, h) k = (p, AllPlain-append xs ys h k)

two_digits-AllPlain : (n : ℕ) → n < 100 → AllPlain (two_digits n)
two_digits-AllPlain n lt = ((omega arith, omega arith), ((omega arith, omega arith), tt))

suffix-AllPlain : AllPlain suffix
suffix-AllPlain = ground arith

clock_text-AllDrawn : (secs : ℕ) → secs < 3600 → AllDrawn (clock_text secs)
clock_text-AllDrawn secs lt =
    let colon : IsPlain 58 = (omega arith, omega arith) in
    AllPlain-AllDrawn (clock_text secs) (
      AllPlain-append (two_digits (secs / 3600))
        (58 ∷ (two_digits (secs / 60 % 60) ++ (58 ∷ (two_digits (secs % 60) ++ suffix))))
        (two_digits-AllPlain (secs / 3600) (omega arith))
        (
          colon,
          AllPlain-append (two_digits (secs / 60 % 60)) (58 ∷ (two_digits (secs % 60) ++ suffix))
              (two_digits-AllPlain (secs / 60 % 60) (omega arith))
              (
                colon,
                AllPlain-append (two_digits (secs % 60)) suffix
                    (two_digits-AllPlain (secs % 60) (omega arith)) suffix-AllPlain,
              ),
        ))

print-ShowsClock :
    (rounds fuel : ℕ) (mem buffer : Bytes) (at : ℕ) (s : Console) (u : Uptime) (secs : ℕ)
    → ShowsTime u secs
    → secs < 3600
    → IsString mem at (status_format u)
    → 117 < fuel
    → 22 < rounds
    → (q : Printing Console) × (print_cx_cy rounds fuel s mem buffer 57 24 at (status_params u)
        ≡ some q)
      × ShowsClock s secs q.state
unfolding move_status
print-ShowsClock rounds fuel mem buffer at s u secs shows lt str enough many =
    let (q, text, ret, all, state, total) =
      print_cx_cy-Printed (status_pieces u) rounds fuel s mem buffer 57 24 at []
        (subst (IsString mem at) (sym (status_source u)) str)
        (status_fits fuel secs mem u shows enough) (omega (arith, status_length u)) in
    let line : text ≡ clock_text secs = status_shows u secs text shows all in
    let (time, before, cursor) =
      puts_cx_cy_lem (clock_text secs) (move_status s 57 24) (clock_text-AllDrawn secs lt) refl in
    let end : q.state ≡ puts_cx_cy (move_status s 57 24) (clock_text secs) =
      state ∙ ap (puts_cx_cy (move_status s 57 24)) line in
    let params : args_all (status_pieces u) ++ [] ≡ status_params u =
      append-nil (args_all (status_pieces u)) ∙ status_args u in
    (
      q,
      ap (print_cx_cy rounds fuel s mem buffer 57 24 at) (sym params) ∙ ret,
      subst (ShowsClock s secs) (sym end)
          (record { time = time; before = before; cursor = cursor }),
    )

timer_tick_steps :
    (rounds fuel : ℕ) (mem buffer : Bytes) (format : Uptime → ℕ) (s s' : Console) (tick count : ℕ)
    (u : Option Uptime)
    → (timer_callback tick).0 ≡ count
    → (timer_callback tick).1 ≡ u
    → print_uptime rounds fuel mem buffer format s u ≡ some s'
    → timer_tick rounds fuel mem buffer format s tick ≡ some (count, s')
unfolding timer_tick
timer_tick_steps rounds fuel mem buffer format s s' tick count u counted what printed =
    rw (what, printed, counted, ◌>>=◌) refl

-- A tick in the first hour, with enough fuel and rounds, and with the format of what is printed in
-- memory at the address that it is called with: it is counted; if the count is a multiple of 18,
-- the status line shows the time, a hundred ticks to the second, as "hh:mm:ss system uptime" from
-- column 57 on, and the cursor and the screen in front of it are as they were; for other counts the
-- console stays as it was.
pub timer_tick_lem :
    (rounds fuel : ℕ) (mem buffer : Bytes) (format : Uptime → ℕ) (s : Console) (tick : ℕ)
    → tick + 1 < 360000
    → ((u : Uptime) → (timer_callback tick).1 ≡ some u → IsString mem (format u) (status_format u))
    → 117 < fuel
    → 22 < rounds
    → (s' : Console) × (timer_tick rounds fuel mem buffer format s tick ≡ some (tick + 1, s'))
      × ((tick + 1) % 18 ≢ 0 → s' ≡ s)
      × ((tick + 1) % 18 ≡ 0 → ShowsClock s ((tick + 1) / 100) s')
unfolding print_uptime
timer_tick_lem rounds fuel mem buffer format s tick h str enough many =
    let (count, quiet, shows) = timer_callback_lem tick h in
    elim (ℕ_discrete ((tick + 1) % 18) 0) [
      | yes now ↦
          let (u, ret, time) = shows now in
          let (q, printed, clock) =
            print-ShowsClock rounds fuel mem buffer (format u) s u ((tick + 1) / 100) time
              (omega arith) (str u ret) enough many in
          (
            q.state,
            timer_tick_steps rounds fuel mem buffer format s q.state tick (tick + 1) (some u) count
                ret (rw (printed, ◌>>=◌) refl),
            λ other. absurd (other now),
            λ z. clock,
          )
      | no other ↦ (
        s,
        timer_tick_steps rounds fuel mem buffer format s s tick (tick + 1) none count (quiet other)
            refl,
        λ z. refl,
        λ z. absurd (other z),
      )
    ]
