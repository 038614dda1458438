-- ===== src/Userproc/Tests.antt =====
-- The theorems on `CopyCodeData`, on the list of tasks and on `setup_processes` at a small program.
use cse508_operating_system.Paging.Blocks.{Blocks}
use cse508_operating_system.Loader.{VmState}
use cse508_operating_system.Loader.Sample.{empty, no_tasks}

-- The task 0x10000 has its entry 8 bytes into its only area, of 100 bytes from 0x4000 on.
abbrev loaded : VmState
loaded = record empty {
  mmap = λ a. 0x30000;
  vm_start = λ a. 0x4000;
  vm_end = λ a. 0x4064;
  tasks = record no_tasks { entry = λ a. 0x4008 };
}

-- One task at 900 runs.
abbrev running : VmState
running = record empty { tasks = record no_tasks { current = 900 } }
