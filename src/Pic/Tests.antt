-- ===== src/Pic/Tests.antt =====
-- Runs of sys/pic.c, and its theorems at them.
use cse508_operating_system.Prelude.{ℕ, ◌≡◌, refl, update, [], ◌∷◌}
use cse508_operating_system.Pic.{Write, outb, pic1_data, pic_remap}
use cse508_operating_system.Pic.Remap.{sent}

-- Two registers that hold what was written.
abbrev store : (ℕ → ℕ) → Write → ℕ → ℕ
store d (outb port val) = update d port val

abbrev all_masked : ℕ → ℕ
all_masked port = 255

remap_master : sent pic1_data (pic_remap all_masked 0x20 0x29) ≡ 0x20 ∷ 4 ∷ 1 ∷ 255 ∷ []
unfolding pic_remap
remap_master = refl
