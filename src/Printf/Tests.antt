-- ===== src/Printf/Tests.antt =====
-- Runs of `printf`, and its theorems at them.
use cse508_operating_system.Prelude.{List, [], ◌∷◌, get_or}
use cse508_operating_system.Console.{Console}
use cse508_operating_system.Text.{Bytes}
use cse508_operating_system.Printf.Pieces.{Piece, plain, decimal, string, other}

-- "n=%d %s%%" at 0, and "ok" at 20.
abbrev memory : Bytes
memory i =
    get_or
      (110 ∷ 61 ∷ 37 ∷ 100 ∷ 32 ∷ 37 ∷ 115 ∷ 37 ∷ 37 ∷ 0 ∷ 0 ∷ 0 ∷ 0 ∷ 0 ∷ 0 ∷ 0 ∷ 0 ∷ 0 ∷ 0 ∷ 0
        ∷ 111 ∷ 107 ∷ [])
      i 0

abbrev pieces : List Piece
pieces = plain 110 ∷ plain 61 ∷ decimal 42 ∷ plain 32 ∷ string 20 (111 ∷ 107 ∷ []) ∷ other 37 ∷ []

abbrev blank : Console
blank = record { c_x = 0; c_y = 0; timer_x = 0; timer_y = 0; screen = λ a. 0 }
