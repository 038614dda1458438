-- ===== src/Tarfs/Tests.antt =====
-- A run of sys/tarfs.c on a small archive, and its theorems at it.
use cse508_operating_system.Prelude.{
  ℕ, ◌+◌, ◌*◌, ◌≡◌, refl, some, [], ◌∷◌, arith, ◌==◌, if◌then◌else◌,
}
use cse508_operating_system.Text.{Bytes, strcmp, atoi, octal_decimal}
use cse508_operating_system.Tarfs.{next_header, read_tarfile}
use cse508_operating_system.Tarfs.Find.{
  Entry, Layout, Finds, blocks, read_tarfile_lem, next_header_short,
}

-- "a" of 5 bytes at 0, its block at 512, "b" of no bytes at 1024; the name "b" at 4000.
abbrev archive : Bytes
archive i =
    if i == 0
    then 97
    else if i == 124
    then 53
    else if i == 1024
    then 98
    else if i == 1148
    then 48
    else if i == 4000
    then 98
    else 0

abbrev first_file : Entry
first_file = record { name = 97 ∷ []; size_digits = 5 ∷ [] }

abbrev second_file : Entry
second_file = record { name = 98 ∷ []; size_digits = 0 ∷ [] }

archive-Layout : Layout archive 0 1536 (first_file ∷ second_file ∷ [])
archive-Layout = omega arith

finds_second : read_tarfile 5 20 archive 4000 0 1536 ≡ some 1024
unfolding read_tarfile atoi octal_decimal strcmp
finds_second = refl

read_tarfile_lem_example :
    (r : ℕ) × (read_tarfile 5 20 archive 4000 0 1536 ≡ some r)
    × Finds (98 ∷ []) 0 (first_file ∷ second_file ∷ []) r
read_tarfile_lem_example =
    read_tarfile_lem 5 20 archive 4000 0 1536 (98 ∷ []) first_file (second_file ∷ []) (omega arith)
      archive-Layout (omega arith) (omega arith) (omega arith) (omega arith)

next_header_short_example : next_header 0 1025 + 512 ≡ 0 + 512 * (1 + blocks 1025)
next_header_short_example =
    next_header_short 0 2 1025 (omega arith) (omega arith) (omega arith) (omega arith)
