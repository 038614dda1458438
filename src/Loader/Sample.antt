-- ===== src/Loader/Sample.antt =====
-- A small archive with a program in it, and a state in which nothing is loaded.
use cse508_operating_system.Prelude.{ℕ, ◌+◌, ◌<◌, ◌≡◌, arith, refl, some, ◌==◌, if◌then◌else◌}
use cse508_operating_system.Text.{Bytes, strcmp, atoi, octal_decimal}
use cse508_operating_system.Tarfs.{read_tarfile}
use cse508_operating_system.Tasks.{Tasks}
use cse508_operating_system.PageTables.Level.{HasRoom}
use cse508_operating_system.Paging.Room.{IsRun-HasRoom}
use cse508_operating_system.Paging.Sample.{machine, bitmap-IsBytes}
use cse508_operating_system.Loader.{VmState}

-- The file "a" at 4096, its name again at 100. The ELF header at 4608 has the entry 0x4008, and two program headers at
-- 4672: the first is PT_LOAD, of 0x64 bytes from 0x4000 on, to be read and run.
abbrev pub archive : Bytes
archive i =
    if (i == 100)
    then 97
    else if i == 4096
    then 97
    else if i == 4096 + 124
    then 48
    else if i == 4608 + 24
    then 8
    else if i == 4608 + 25
    then 0x40
    else if i == 4608 + 32
    then 64
    else if i == 4608 + 56
    then 2
    else if i == 4672
    then 1
    else if i == 4672 + 4
    then 5
    else if i == 4672 + 17
    then 0x40
    else if i == 4672 + 40
    then 0x64
    else if i == 4672 + 56
    then 2
    else 0

abbrev pub no_tasks : Tasks
no_tasks = record { current = 0; next = λ a. 0; saved_rsp = λ a. 0; entry = λ a. 0; words = λ a. 0 }

abbrev pub empty : VmState
empty = record {
  machine = machine;
  vm_mm = λ a. 0;
  vm_start = λ a. 0;
  vm_end = λ a. 0;
  vm_next = λ a. 0;
  vm_flags = λ a. 0;
  vm_pgoff = λ a. 0;
  mmap = λ a. 0;
  start_code = λ a. 0;
  end_code = λ a. 0;
  start_data = λ a. 0;
  end_data = λ a. 0;
  mm = λ a. 0;
  tasks = no_tasks;
}

pub found : read_tarfile 5 20 archive 100 4096 6000 ≡ some 4096
unfolding read_tarfile atoi octal_decimal strcmp
found = refl

-- The pages from 608 on are free.
pub spacious : (k fuel : ℕ) → k < 3600 → 0 < fuel → HasRoom fuel k machine.pmap
spacious k fuel few some_fuel =
    IsRun-HasRoom k fuel 4224 608 528 machine.pmap bitmap-IsBytes (omega arith) (omega arith)
      (omega arith) refl (omega arith) (omega arith) (omega arith) (λ q ge lt. ground arith)
