-- ===== src/Stubs/Return.antt =====
-- What the stubs of sys/irq.s and sys/isr.s restore, whatever C function they call.
use cse508_operating_system.Prelude.{
  ℕ, ◌+◌, ◌-◌, ◌*◌, ◌≤◌, ◌<◌, ◌^◌, ◌≡◌, ◌≢◌, refl, ap, ◌∙◌, ◌⊎◌, List, [], ◌∷◌, ◌++◌, arith, update,
  update_self, update_ne, u64, length,
}
use cse508_operating_system.Stubs.{
  Cpu, Instr, rax, rcx, rdx, rbx, rbp, rsi, rdi, below, step, execute, common_body, irq_stub,
  isr_stub,
}
use cse508_operating_system.Stubs.Wrapped.{
  IsDeep, Quiet, execute-append, deeper, IsAmong, wrap-Quiet,
}

-- A register that a C function keeps.
abbrev pub IsSaved : ℕ → Type 0
IsSaved r = (r ≡ rbx) ⊎ ((r ≡ rbp) ⊎ ((12 ≤ r) × (r < 16)))

-- What the calling convention promises of a function that uses at most `depth` bytes of stack.
pub record IsCall (depth : ℕ) (handler : Cpu → Cpu) : Type 0 where
  pub rsp : (s : Cpu) → IsDeep depth s → (handler s).rsp ≡ s.rsp
  pub stack : (s : Cpu) → IsDeep depth s → (a : ℕ) → s.rsp ≤ a → (handler s).stack a ≡ s.stack a
  pub kept : (s : Cpu) → IsDeep depth s → (r : ℕ) → IsSaved r → (handler s).reg r ≡ s.reg r

module _ (handler : Cpu → Cpu) (depth : ℕ) (c : IsCall depth handler) where
  call-Quiet :
      Quiet handler depth IsSaved (Instr.rsp_to_rdi ∷ Instr.add_to_rdi 72 ∷ Instr.call ∷ [])
  unfolding execute step
  call-Quiet = record {
    rsp = λ s deep. c.rsp _ deep;
    stack = λ s deep a above. c.stack _ deep a above;
    kept = λ s deep r saved. c.kept _ deep r saved ∙ ground (arith, saved);
  }

  -- The registers that the stubs push, in their order.
  abbrev pushed : List ℕ
  pushed = rax ∷ rcx ∷ rdx ∷ rsi ∷ rdi ∷ 8 ∷ 9 ∷ 10 ∷ 11 ∷ 12 ∷ 13 ∷ 14 ∷ 15 ∷ []

  common_body-Quiet : Quiet handler (deeper pushed depth) (IsAmong pushed IsSaved) common_body
  common_body-Quiet =
      wrap-Quiet handler pushed depth IsSaved
        (Instr.rsp_to_rdi ∷ Instr.add_to_rdi 72 ∷ Instr.call ∷ []) call-Quiet

  -- Every register is pushed or kept by the call.
  among : (r : ℕ) → r < 16 → r ≢ 4 → IsAmong pushed IsSaved r
  among r lt other = ground arith

-- Quiet code and a return from the interrupt.
record Returned (Kept : ℕ → Type 0) (s t : Cpu) : Type 0 where
  kept : (r : ℕ) → Kept r → t.reg r ≡ s.reg r
  rip : t.rip ≡ s.stack s.rsp
  cs : t.cs ≡ s.stack (s.rsp + 8)
  rflags : t.rflags ≡ s.stack (s.rsp + 16)
  rsp : t.rsp ≡ s.stack (s.rsp + 24)
  ss : t.ss ≡ s.stack (s.rsp + 32)

module _ (handler : Cpu → Cpu) (depth : ℕ) (Kept : ℕ → Type 0) (code : List Instr)
    (q : Quiet handler depth Kept code) (s : Cpu) (deep : depth ≤ s.rsp)
    (fits : s.rsp + 40 ≤ 2 ^ 64) where
  abbrev behind : Cpu
  behind = execute handler code s

  roomy : IsDeep depth s
  roomy = (deep, omega arith)

  -- A word of the frame that the processor pushed.
  frame_word : (k : ℕ) → k < 40 → behind.stack (u64 (behind.rsp + k)) ≡ s.stack (s.rsp + k)
  frame_word k lt =
      let at : u64 (behind.rsp + k) ≡ s.rsp + k = omega (arith, q.rsp s roomy) in
      ap behind.stack at ∙ q.stack s roomy (s.rsp + k) (omega arith)

  Quiet-Returned : Returned Kept s (execute handler (code ++ (Instr.sti ∷ Instr.iret ∷ [])) s)
  unfolding execute step
  Quiet-Returned =
      let whole = execute-append handler code (Instr.sti ∷ Instr.iret ∷ []) s in
      record {
        kept = λ r keep. ap (λ (t : Cpu). t.reg r) whole ∙ q.kept s roomy r keep;
        rip =
            ap (λ (t : Cpu). t.rip) whole
            ∙ ap behind.stack (q.rsp s roomy)
            ∙ q.stack s roomy s.rsp (omega arith);
        cs = ap (λ (t : Cpu). t.cs) whole ∙ frame_word 8 (omega arith);
        rflags = ap (λ (t : Cpu). t.rflags) whole ∙ frame_word 16 (omega arith);
        rsp = ap (λ (t : Cpu). t.rsp) whole ∙ frame_word 24 (omega arith);
        ss = ap (λ (t : Cpu). t.ss) whole ∙ frame_word 32 (omega arith);
      }

-- `_irq0` and `_irq1`, with any C function that keeps the calling convention and uses at most
-- `depth` bytes of stack, below a stack pointer with room for them and for the 13 registers: every
-- general register is restored, and the interrupted code goes on at its address with its code
-- segment, flags, stack pointer and stack segment.
pub irq_stub_restores :
    (handler : Cpu → Cpu) (depth : ℕ) (s : Cpu)
    → IsCall depth handler
    → depth + 104 ≤ s.rsp
    → s.rsp + 40 ≤ 2 ^ 64
    → let t = execute handler irq_stub s in
      ((r : ℕ) → r < 16 → r ≢ 4 → t.reg r ≡ s.reg r)
      × (t.rip ≡ s.stack s.rsp)
      × (t.cs ≡ s.stack (s.rsp + 8))
      × (t.rflags ≡ s.stack (s.rsp + 16))
      × (t.rsp ≡ s.stack (s.rsp + 24))
      × (t.ss ≡ s.stack (s.rsp + 32))
unfolding execute step
irq_stub_restores handler depth s c deep fits =
    let r : Returned (IsAmong (pushed handler depth c) IsSaved) (step handler Instr.cli s)
        (execute handler irq_stub s) =
      Quiet-Returned handler (deeper (pushed handler depth c) depth)
        (IsAmong (pushed handler depth c) IsSaved) common_body (common_body-Quiet handler depth c)
        (step handler Instr.cli s) (omega arith) fits in
    (λ i lt other. r.kept i (among handler depth c i lt other), r.rip, r.cs, r.rflags, r.rsp, r.ss)

-- What stands in front of the call.
abbrev pub before_call : List Instr → List Instr
before_call (Instr.call ∷ is) = []
before_call [] = []
before_call (i ∷ is) = i ∷ before_call is

abbrev pushes : List ℕ → List Instr
pushes [] = Instr.rsp_to_rdi ∷ Instr.add_to_rdi 72 ∷ []
pushes (r ∷ rs) = Instr.push r ∷ pushes rs

-- The argument of the call, and the stack above the registers that have been pushed.
pushes_lem :
    (handler : Cpu → Cpu) (rs : List ℕ) (s : Cpu)
    → 8 * length rs ≤ s.rsp
    → s.rsp < 2 ^ 64
    → ((execute handler (pushes rs) s).reg rdi ≡ u64 (s.rsp - 8 * length rs + 72))
      × ((a : ℕ) → s.rsp ≤ a → (execute handler (pushes rs) s).stack a ≡ s.stack a)
unfolding execute step
pushes_lem handler [] s deep small = (omega arith, λ a above. refl)
pushes_lem handler (r ∷ rs) s deep small =
    let (arg, rest) =
      pushes_lem handler rs (step handler (Instr.push r) s) (omega arith) (omega arith) in
    (
      omega (arith, arg),
      λ a above. rest a (omega arith) ∙ update_ne s.stack (below s.rsp) a (s.reg r) (omega arith),
    )

-- The two words that the stub pushed, and the frame above them.
numbers_on_stack :
    (s : Cpu) (number : ℕ)
    → 16 ≤ s.rsp
    → s.rsp < 2 ^ 64
    → let stack = update (update s.stack (below s.rsp) 0) (below (below s.rsp)) number in
      (stack (below (below s.rsp) + 8) ≡ 0) × ((a : ℕ) → s.rsp ≤ a → stack a ≡ s.stack a)
numbers_on_stack s number deep small =
    let next : below (below s.rsp) + 8 ≡ below s.rsp = omega arith in
    (
      ap (update (update s.stack (below s.rsp) 0) (below (below s.rsp)) number) next
          ∙ update_ne (update s.stack (below s.rsp) 0) (below (below s.rsp)) (below s.rsp) number
              (omega arith)
          ∙ update_self s.stack (below s.rsp) 0,
      λ a above.
          update_ne (update s.stack (below s.rsp) 0) (below (below s.rsp)) a number (omega arith)
          ∙ update_ne s.stack (below s.rsp) a 0 (omega arith),
    )

-- `_isr0` and `_isr1`, under the same conditions, with 16 more bytes for the two numbers that they
-- push. The field `int_no` that the called function reads, at 48 bytes from its argument on, is the
-- address at which the code was interrupted, and not the number that was pushed. If the function
-- comes back, the processor goes on at the pushed number as its address, with code segment 0 and the
-- interrupted address as its flags, since the two numbers are still on the stack.
pub isr_stub_returns :
    (handler : Cpu → Cpu) (depth number : ℕ) (s : Cpu)
    → IsCall depth handler
    → depth + 120 ≤ s.rsp
    → s.rsp + 40 ≤ 2 ^ 64
    → let at_call = execute handler (before_call (isr_stub number)) s in
      let t = execute handler (isr_stub number) s in
      (at_call.stack (u64 (at_call.reg rdi + 48)) ≡ s.stack s.rsp)
      × (t.rip ≡ number)
      × (t.cs ≡ 0)
      × (t.rflags ≡ s.stack s.rsp)
unfolding execute step
isr_stub_returns handler depth number s c deep fits =
    let s2 : Cpu =
      step handler (Instr.push_number number)
        (step handler (Instr.push_number 0) (step handler Instr.cli s)) in
    let r : Returned (IsAmong (pushed handler depth c) IsSaved) s2
        (execute handler (isr_stub number) s) =
      Quiet-Returned handler (deeper (pushed handler depth c) depth)
        (IsAmong (pushed handler depth c) IsSaved) common_body (common_body-Quiet handler depth c)
        s2 (omega arith) (omega arith) in
    let (zero, frame) = numbers_on_stack s number (omega arith) (omega arith) in
    let (arg, kept) = pushes_lem handler (pushed handler depth c) s2 (omega arith) (omega arith) in
    let t : Cpu = execute handler (pushes (pushed handler depth c)) s2 in
    let at : u64 (t.reg rdi + 48) ≡ s.rsp = omega (arith, arg) in
    let up : s2.rsp + 16 ≡ s.rsp = omega arith in
    (
      ap t.stack at ∙ kept s.rsp (omega arith) ∙ frame s.rsp (omega arith),
      r.rip ∙ update_self (update s.stack (below s.rsp) 0) (below (below s.rsp)) number,
      r.cs ∙ zero,
      r.rflags ∙ ap s2.stack up ∙ frame s.rsp (omega arith),
    )
