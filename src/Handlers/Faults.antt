-- ===== src/Handlers/Faults.antt =====
-- Which interrupts `fault_handler` of sys/isr.c can report.
use cse508_operating_system.Prelude.{
  ℕ, zero, suc, ◌+◌, ◌-◌, ◌^◌, ◌<◌, ◌≡◌, refl, none, some, arith, true, false, ltb, leb, ◌==◌,
  if◌then◌else◌, get_elem?, u32, dec_lt, ℕ_discrete,
}
use cse508_operating_system.Handlers.{
  division_by_zero, exception_messages, returns, halts, fault_handler,
}

one_message : (i : ℕ) → 0 < i → get_elem? exception_messages i ≡ none
one_message zero pos = absurd (omega arith)
one_message (suc i) pos = refl

-- `fault_handler` returns for an interrupt number from 32 on. Below 32 it shows "Division By Zero" and
-- stays in its loop for the number 16, and reads outside of the array of messages for every other
-- number, 0 among them.
pub fault_handler_lem :
    (int_no : ℕ)
    → int_no < 2 ^ 32
    → fault_handler int_no ≡ (
        if leb 32 int_no
        then some returns
        else if int_no == 16
        then some (halts division_by_zero)
        else none)
unfolding fault_handler
fault_handler_lem int_no small = elim (dec_lt int_no 32) [
  | no high ↦ ground (arith, high)
  | yes low ↦ elim (ℕ_discrete int_no 16) [
    | yes e ↦ rw e refl
    | no ne ↦
        let below : ltb int_no 32 ≡ true = ground arith in
        let not_above : leb 32 int_no ≡ false = ground arith in
        let other : (int_no == 16) ≡ false = ground arith in
        rw (below, not_above, other, one_message (u32 (int_no + 2 ^ 32 - 16)) (omega arith)) refl
  ]
]
