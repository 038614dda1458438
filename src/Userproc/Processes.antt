-- ===== src/Userproc/Processes.antt =====
-- `setup_processes` of sys/process.c: the first task of the kernel, the program behind it, and the
-- switch to the first.
use cse508_operating_system.Prelude.{ℕ, ◌≤◌, ◌≡◌, ◌⊎◌}
use cse508_operating_system.Tasks.{Tasks, Frame, stack_at}
use cse508_operating_system.Paging.Blocks.{Blocks}

-- The processor enters `func` in the kernel's code segment, on the stack of `task`.
pub record Enters (func task : ℕ) (f : Frame) : Type 0 where
  pub rip : f.rip ≡ func
  pub cs : f.cs ≡ 0x08
  pub rflags : f.rflags ≡ 0x20202
  pub rsp : f.rsp ≡ stack_at task 63
  pub ss : f.ss ≡ 0x10

-- The stacks of two tasks do not meet.
abbrev pub Apart : ℕ → ℕ → Type 0
Apart task other = (stack_at task 64 ≤ stack_at other 0) ⊎ (stack_at other 64 ≤ stack_at task 0)
