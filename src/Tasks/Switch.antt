-- ===== src/Tasks/Switch.antt =====
-- `init_process` of sys/process.c and the memory of other tasks.
use cse508_operating_system.Prelude.{ℕ, ◌<◌, ◌≡◌, ◌≢◌, arith, ◌⊎◌, ◌≤◌}
use cse508_operating_system.Tasks.{Tasks, stack_at, init_process}

-- Setting up a task leaves the saved stack pointer of every other task, and every word outside its
-- own stack, as they were.
pub init_process_frame :
    (s : Tasks) (proc func : ℕ)
    → ((t : ℕ) → t ≢ proc → (init_process s proc func).saved_rsp t ≡ s.saved_rsp t)
      × ((a : ℕ)
          → (a < stack_at proc 0) ⊎ (stack_at proc 64 ≤ a)
          → (init_process s proc func).words a ≡ s.words a)
unfolding init_process
init_process_frame s proc func = (λ t ne. ground arith, λ a out. ground arith)
