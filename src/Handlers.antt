-- ===== src/Handlers.antt =====
-- The handlers of sys/irq.c and sys/isr.c: each returns what it changes, and the port writes.
pub mod Faults
mod Tests
use cse508_operating_system.Prelude.{
  ℕ, ◌+◌, ◌-◌, ◌*◌, ◌^◌, Option, some, List, [], ◌∷◌, ltb, if◌then◌else◌, get_elem?, u32, ◌>>=◌,
}
use cse508_operating_system.Pic.{Write, outb}
use cse508_operating_system.Timer.{Uptime, timer_callback}
use cse508_operating_system.Keyboard.{kbc_irq}

-- The end of the interrupt is signalled first.
unfoldable pub irq_timer : (tick : ℕ) → List Write × (ℕ × Option Uptime)
irq_timer tick = (outb 0x20 0x20 ∷ [], timer_callback tick)

-- `shift` is the static variable of `kbc_irq`, `b` what the keyboard's port gives.
unfoldable pub irq_kb : (shift b : ℕ) → List Write × (ℕ × ℕ)
irq_kb shift b = (outb 0x20 0x20 ∷ [], kbc_irq shift b)

-- "Division By Zero"
abbrev pub division_by_zero : List ℕ
division_by_zero =
    b'D' ∷ b'i' ∷ b'v' ∷ b'i' ∷ b's' ∷ b'i' ∷ b'o' ∷ b'n' ∷ 32 ∷ b'B' ∷ b'y' ∷ 32 ∷ b'Z' ∷ b'e'
    ∷ b'r' ∷ b'o' ∷ []

abbrev pub exception_messages : List (List ℕ)
exception_messages = division_by_zero ∷ []

-- What `fault_handler` does: it goes back, or it shows a message and stays in its loop.
pub data Outcome : Type 0 where
  returns : Outcome
  halts : (message : List ℕ) → Outcome

-- `int_no` and the index are `unsigned int`; no result is a read outside of the array.
unfoldable pub fault_handler : (int_no : ℕ) → Option Outcome
fault_handler int_no =
    let reported : Option Outcome = (do
      message ← get_elem? exception_messages (u32 (int_no + 2 ^ 32 - 16))
      some (halts message)) in
    if ltb int_no 32 then reported else some returns
