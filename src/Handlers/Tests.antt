-- ===== src/Handlers/Tests.antt =====
-- Runs of `fault_handler` of sys/isr.c.
use cse508_operating_system.Prelude.{◌≡◌, refl, none, some}
use cse508_operating_system.Handlers.{division_by_zero, halts, fault_handler}

reports_16 : fault_handler 16 ≡ some (halts division_by_zero)
unfolding fault_handler
reports_16 = refl

-- The number that `_isr0` pushes.
outside_at_0 : fault_handler 0 ≡ none
unfolding fault_handler
outside_at_0 = refl
