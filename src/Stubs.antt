-- ===== src/Stubs.antt =====
-- The interrupt stubs of sys/irq.s and sys/isr.s, as lists of instructions on the registers and the
-- stack. The stack is seen by 64-bit words at byte addresses, all of them 8 bytes apart. The C
-- function that a stub calls is a parameter.
pub mod Wrapped
pub mod Return
mod Tests
use cse508_operating_system.Prelude.{
  ℕ, ◌+◌, ◌-◌, ◌*◌, ◌/◌, ◌%◌, List, [], ◌∷◌, ◌++◌, update, ◌^◌, u64,
}

-- The general registers, by their numbers in the instruction set; rsp is kept apart.
abbrev pub rax : ℕ
rax = 0

abbrev pub rcx : ℕ
rcx = 1

abbrev pub rdx : ℕ
rdx = 2

abbrev pub rbx : ℕ
rbx = 3

abbrev pub rbp : ℕ
rbp = 5

abbrev pub rsi : ℕ
rsi = 6

abbrev pub rdi : ℕ
rdi = 7

-- The processor.
pub record Cpu : Type 0 where
  pub reg : ℕ → ℕ
  pub rsp : ℕ
  pub rip : ℕ
  pub cs : ℕ
  pub rflags : ℕ
  pub ss : ℕ
  pub stack : ℕ → ℕ

pub data Instr : Type 0 where
  cli : Instr
  sti : Instr
  push : (r : ℕ) → Instr
  pop : (r : ℕ) → Instr
  push_number : (n : ℕ) → Instr
  rsp_to_rdi : Instr
  add_to_rdi : (n : ℕ) → Instr
  call : Instr
  iret : Instr

-- The flags with bit 9, IF, set to `b`.
abbrev pub with_if : ℕ → ℕ → ℕ
with_if f b = f / 2 ^ 10 * 2 ^ 10 + b * 2 ^ 9 + f % 2 ^ 9

-- The word below on the stack.
abbrev pub below : ℕ → ℕ
below a = u64 (a + 2 ^ 64 - 8)

module _ (handler : Cpu → Cpu) where
  -- One instruction. `iret` takes the frame that the processor pushed: rip, cs, the flags, rsp, ss.
  unfoldable pub step : Instr → Cpu → Cpu
  step Instr.cli s = record s { rflags = with_if s.rflags 0 }
  step Instr.sti s = record s { rflags = with_if s.rflags 1 }
  step (Instr.push r) s = record s {
    rsp = below s.rsp;
    stack = update s.stack (below s.rsp) (s.reg r);
  }
  step (Instr.pop r) s = record s { rsp = u64 (s.rsp + 8); reg = update s.reg r (s.stack s.rsp) }
  step (Instr.push_number n) s = record s {
    rsp = below s.rsp;
    stack = update s.stack (below s.rsp) n;
  }
  step Instr.rsp_to_rdi s = record s { reg = update s.reg rdi s.rsp }
  step (Instr.add_to_rdi n) s = record s { reg = update s.reg rdi (u64 (s.reg rdi + n)) }
  step Instr.call s = handler s
  step Instr.iret s = record s {
    rip = s.stack s.rsp;
    cs = s.stack (u64 (s.rsp + 8));
    rflags = s.stack (u64 (s.rsp + 16));
    rsp = s.stack (u64 (s.rsp + 24));
    ss = s.stack (u64 (s.rsp + 32));
  }

  unfoldable pub execute : List Instr → Cpu → Cpu
  unfolding step
  execute [] s = s
  execute (i ∷ is) s = execute is (step i s)

-- Between `cli` and `sti` of the stubs that call a C function with the registers behind rdi.
abbrev pub common_body : List Instr
common_body =
    Instr.push rax
    ∷ Instr.push rcx
    ∷ Instr.push rdx
    ∷ Instr.push rsi
    ∷ Instr.push rdi
    ∷ Instr.push 8
    ∷ Instr.push 9
    ∷ Instr.push 10
    ∷ Instr.push 11
    ∷ Instr.push 12
    ∷ Instr.push 13
    ∷ Instr.push 14
    ∷ Instr.push 15
    ∷ Instr.rsp_to_rdi
    ∷ Instr.add_to_rdi 72
    ∷ Instr.call
    ∷ Instr.pop 15
    ∷ Instr.pop 14
    ∷ Instr.pop 13
    ∷ Instr.pop 12
    ∷ Instr.pop 11
    ∷ Instr.pop 10
    ∷ Instr.pop 9
    ∷ Instr.pop 8
    ∷ Instr.pop rdi
    ∷ Instr.pop rsi
    ∷ Instr.pop rdx
    ∷ Instr.pop rcx
    ∷ Instr.pop rax
    ∷ []

-- `_irq0` calls `irq_timer`, and `_irq1` calls `irq_kb`.
abbrev pub irq_stub : List Instr
irq_stub = Instr.cli ∷ (common_body ++ (Instr.sti ∷ Instr.iret ∷ []))

-- `isr_common_stub`, which calls `fault_handler`.
abbrev pub isr_common_stub : List Instr
isr_common_stub = common_body ++ (Instr.sti ∷ Instr.iret ∷ [])

-- `_isr0` and `_isr1`.
abbrev pub isr_stub : (number : ℕ) → List Instr
isr_stub number = Instr.cli ∷ Instr.push_number 0 ∷ Instr.push_number number ∷ isr_common_stub

-- `_isr128`, which calls `schedule`.
abbrev pub isr_interrupt_schedule_stub : List Instr
isr_interrupt_schedule_stub =
    Instr.cli
    ∷ Instr.push rax
    ∷ Instr.push rbx
    ∷ Instr.push rcx
    ∷ Instr.push rdx
    ∷ Instr.push rsi
    ∷ Instr.push rdi
    ∷ Instr.push 8
    ∷ Instr.push 9
    ∷ Instr.push 10
    ∷ Instr.push 11
    ∷ Instr.push 12
    ∷ Instr.push 13
    ∷ Instr.push 14
    ∷ Instr.push 15
    ∷ Instr.call
    ∷ Instr.pop 15
    ∷ Instr.pop 14
    ∷ Instr.pop 13
    ∷ Instr.pop 12
    ∷ Instr.pop 11
    ∷ Instr.pop 10
    ∷ Instr.pop 9
    ∷ Instr.pop 8
    ∷ Instr.pop rdi
    ∷ Instr.pop rsi
    ∷ Instr.pop rdx
    ∷ Instr.pop rcx
    ∷ Instr.pop rbx
    ∷ Instr.pop rax
    ∷ Instr.sti
    ∷ Instr.iret
    ∷ []
