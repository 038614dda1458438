-- ===== src/Boot/Enter.antt =====
-- The whole of `start` of sys/main.c, from the boot loader's memory map to the first task.
use cse508_operating_system.Prelude.{ℕ, suc}
use cse508_operating_system.Paging.Loop.{pages_for}
use cse508_operating_system.Paging.Blocks.{Blocks}
use cse508_operating_system.Tasks.{Tasks}
use cse508_operating_system.Loader.Blocks.{program_room}

-- Room for two copies of a program, the first task, the page of the first segment, and `k` more.
abbrev pub boot_room : (segments k : ℕ) → ℕ
boot_room n k = program_room n (pages_for 9 (program_room n (suc (suc (suc (suc k))))))
