-- ===== src/Boot/Tests.antt =====
-- A run of `start` of sys/main.c, and its theorem at it.
use cse508_operating_system.Prelude.{
  ℕ, ◌+◌, ◌/◌, ◌≤◌, ◌<◌, ◌≡◌, refl, arith, true, some, [], ◌∷◌, get_or, not, ◌&&◌, if◌then◌else◌,
}
use cse508_operating_system.Pmap.{Pmap, init_freelist, is_memory_reserved}
use cse508_operating_system.Pmap.Bitmap.{page_bit}
use cse508_operating_system.PageTables.{Machine}
use cse508_operating_system.Paging.Setup.{SetUp}
use cse508_operating_system.Boot.Start.{start_memory, start}
use cse508_operating_system.Paging.Blocks.{Blocks}
use cse508_operating_system.Loader.{VmState}
use cse508_operating_system.Loader.Sample.{empty}
use cse508_operating_system.Boot.Ready.{start_memory-SetUp}
use cse508_operating_system.Boot.{smap_entries, setup_memory}
use cse508_operating_system.Boot.FreeMemory.{Modules, available, setup_memory_lem}

-- A module of three words, then a map of two entries: 1 MB from 0 that is not available, and 16 MB
-- from 1 MB on that are.
abbrev loader : ℕ → ℕ
loader i =
    get_or
      (7 ∷ 1 ∷ 0 ∷ 0x9001 ∷ 40 ∷ 0 ∷ 0 ∷ 0x100000 ∷ 0 ∷ 2 ∷ 0x100000 ∷ 0 ∷ 0x1000000 ∷ 0 ∷ 1 ∷ []) i
      0

loader_map : Modules 1 loader 0 3
loader_map = (omega arith, (refl, refl))

setup_memory_lem_example :
    let es = smap_entries ((40 + 19) / 20) loader 5 in
    let start = init_freelist (λ i. 0) 0x200000 0x210000 in
    (s : Pmap) × (setup_memory 2 loader 0 (λ i. 0) 0x200000 0x210000 ≡ some s)
    × (page_bit s.list 600
        ≡ (if available es 600 && not (is_memory_reserved start 600) then 0 else 1))
setup_memory_lem_example =
    setup_memory_lem 1 2 0 3 loader (λ i. 0) 0x200000 0x210000 600 loader_map (omega arith)
      (omega arith) (λ i. omega arith) (omega arith)

-- The kernel at 2 MB, 32 KB long, in 16 MB of memory full of zeros.
available_run :
    (q : ℕ) → 600 ≤ q → q < 4224 → available (smap_entries ((40 + 19) / 20) loader 5) q ≡ true
unfolding smap_entries
available_run q ge lt = ground arith

start_memory-SetUp_example :
    (m' : Machine) × (p : ℕ) × (start_memory 2 loader 0
        (λ i. 0)
        (λ a. 0)
        0xFFFFFFFF80200000
        0x200000
        0x208000
      ≡ some (m', p))
    × SetUp 2 20 0x20A000 0xFFFFFFFF80200000 0x200000 0x20A000 p m'
unfolding smap_entries
start_memory-SetUp_example =
    start_memory-SetUp 1 2 20 0 3 loader (λ i. 0) (λ a. 0) 0xFFFFFFFF80200000 0x200000 0x208000 600
      528 loader_map (omega arith) (λ i. omega arith) (omega arith) (omega arith) (omega arith) refl
      refl (omega arith) (omega arith) (omega arith) refl (omega arith) (omega arith) (omega arith)
      (omega arith) available_run refl (λ a lt above. refl)

-- The same, with the program of the small archive.
abbrev dark_memory : VmState
dark_memory = record empty {
  machine = record { words = λ a. 0; pmap = init_freelist (λ i. 0) 0 0 };
}
