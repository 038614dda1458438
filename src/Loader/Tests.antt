-- ===== src/Loader/Tests.antt =====
-- Runs of the loader on a small archive, and its theorems at them.
use cse508_operating_system.Prelude.{ℕ, ◌≡◌, refl, some, [], ◌∷◌, arith, update}
use cse508_operating_system.Loader.Sample.{empty}
use cse508_operating_system.Loader.{VmState, find_loop, find_vma}
use cse508_operating_system.Loader.Areas.{IsFirst, find_vma-IsFirst}
use cse508_operating_system.Paging.Blocks.{Blocks}

-- Two areas, and an address in the second.
abbrev two_areas : VmState
two_areas = record empty {
  mmap = λ a. 0x30000;
  vm_next = update (λ a. 0) 0x30000 0x40000;
  vm_start = update (λ a. 0x4000) 0x40000 0x8000;
  vm_end = update (λ a. 0x4064) 0x40000 0x9000;
}

find_second : find_vma 3 two_areas 0x20000 0x8FFF ≡ some 0x40000
unfolding find_vma find_loop
find_second = refl

find_vma-IsFirst_example :
    (r : ℕ) × (find_vma 3 two_areas 0x20000 0x8FFF ≡ some r)
    × IsFirst two_areas 0x8FFF (0x30000 ∷ 0x40000 ∷ []) r
find_vma-IsFirst_example =
    find_vma-IsFirst 3 two_areas 0x20000 0x8FFF (0x30000 ∷ 0x40000 ∷ []) (omega arith) (omega arith)
      (omega arith)
