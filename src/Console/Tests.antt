-- ===== src/Console/Tests.antt =====
-- Runs of the console, and its theorems at them.
use cse508_operating_system.Prelude.{ℕ, ◌/◌, ◌%◌, ◌≤◌, ◌≡◌, refl, inl, arith, List, [], ◌∷◌}
use cse508_operating_system.Pic.Remap.{sent}
use cse508_operating_system.Console.{Console, putchar, puts}
use cse508_operating_system.Console.Cells.{InText, cell, shown, Drawn, AllDrawn, Printed, puts_lem}
use cse508_operating_system.Console.Area.{putchar_lem}

-- The cursor in the last cell but one of the text area.
abbrev near_end : Console
near_end = record { c_x = 78; c_y = 23; timer_x = 57; timer_y = 24; screen = λ a. 0 }

abbrev at_72 : Console
at_72 = record { c_x = 72; c_y = 3; timer_x = 0; timer_y = 0; screen = λ a. 0 }

near_end-InText : InText near_end
near_end-InText = record { column = omega arith; row = omega arith }

abbrev hey : List ℕ
hey = 72 ∷ 101 ∷ 121 ∷ []

hey-AllDrawn : AllDrawn hey
hey-AllDrawn =
    let h : Drawn 72 = (omega arith, omega arith, omega arith, omega arith) in
    let e : Drawn 101 = (omega arith, omega arith, omega arith, omega arith) in
    let y : Drawn 121 = (omega arith, omega arith, omega arith, omega arith) in (h, (e, (y, tt)))

-- The third character stands in the first cell.
wraps : shown (puts near_end hey).0 0 ≡ 121
unfolding puts
wraps = refl

puts_lem_example : Printed near_end hey (puts near_end hey).0
puts_lem_example = puts_lem hey near_end near_end-InText hey-AllDrawn (omega arith)

putchar_lem_example :
    let r = putchar near_end 10 in
    InText r.0
    × ((a : ℕ) → 3840 ≤ a → r.0.screen a ≡ near_end.screen a)
    × (sent 0x3D5 r.1 ≡ cell r.0 % 256 ∷ cell r.0 / 256 ∷ [])
putchar_lem_example = putchar_lem near_end 10 near_end-InText (inl (omega arith))
