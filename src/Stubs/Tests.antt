-- ===== src/Stubs/Tests.antt =====
-- The theorems of the stubs at a call that changes rax and writes below the stack pointer.
use cse508_operating_system.Prelude.{ℕ, ◌+◌, ◌<◌, ◌≡◌, ◌≢◌, refl, arith, update, update_ne, u64}
use cse508_operating_system.Stubs.{Cpu, rax, rdi, below, execute, irq_stub, isr_stub}
use cse508_operating_system.Stubs.Return.{IsCall, before_call, irq_stub_restores, isr_stub_returns}

abbrev handler : Cpu → Cpu
handler s = record s { reg = update s.reg rax 99; stack = update s.stack (below s.rsp) 77 }

handler-IsCall : IsCall 8 handler
handler-IsCall = record {
  rsp = λ s deep. refl;
  stack = λ s deep a above. update_ne s.stack (below s.rsp) a 77 (omega (arith, deep.0, deep.1));
  kept = λ s deep r saved. ground (arith, saved);
}

-- Code at 0x1000 has been interrupted.
abbrev interrupted : Cpu
interrupted = record {
  reg = λ r. r;
  rsp = 0x8000;
  rip = 0;
  cs = 8;
  rflags = 2;
  ss = 16;
  stack = update (λ a. 0) 0x8000 0x1000;
}

irq_stub_restores_example :
    let t = execute handler irq_stub interrupted in
    ((r : ℕ) → r < 16 → r ≢ 4 → t.reg r ≡ r)
    × (t.rip ≡ 0x1000)
    × (t.cs ≡ interrupted.stack 0x8008)
    × (t.rflags ≡ interrupted.stack 0x8010)
    × (t.rsp ≡ interrupted.stack 0x8018)
    × (t.ss ≡ interrupted.stack 0x8020)
irq_stub_restores_example =
    irq_stub_restores handler 8 interrupted handler-IsCall (omega arith) (omega arith)

isr_stub_returns_example :
    let at_call = execute handler (before_call (isr_stub 0)) interrupted in
    let t = execute handler (isr_stub 0) interrupted in
    (at_call.stack (u64 (at_call.reg rdi + 48)) ≡ 0x1000)
    × (t.rip ≡ 0)
    × (t.cs ≡ 0)
    × (t.rflags ≡ 0x1000)
isr_stub_returns_example =
    isr_stub_returns handler 8 0 interrupted handler-IsCall (omega arith) (omega arith)
