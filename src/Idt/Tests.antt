-- ===== src/Idt/Tests.antt =====
-- Runs of sys/idt.c, and its theorems at them.
use cse508_operating_system.Prelude.{ℕ, ◌≡◌, refl, some}
use cse508_operating_system.Idt.{Idt, zero_entry, init_idt}
use cse508_operating_system.Idt.Gates.{handler}

abbrev unloaded : Idt
unloaded = record { limit = 0; base = 0; entries = λ num. zero_entry }

abbrev stub : ℕ
stub = 0xFFFFFFFF80201234

timer_gate : handler ((init_idt 1 2 stub 4 0x1000 unloaded).entries 32) ≡ some stub
unfolding init_idt
timer_gate = refl
