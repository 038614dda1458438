-- ===== src/Idt/Vectors.antt =====
-- Which handlers the interrupt controllers of sys/pic.c reach after `reload_idt` of sys/idt.c.
use cse508_operating_system.Prelude.{ℕ, ◌+◌, ◌*◌, ◌/◌, List, [], ◌∷◌, get_or}
use cse508_operating_system.Pic.{Write}
use cse508_operating_system.Pic.Remap.{sent}
use cse508_operating_system.Idt.{Idt}

-- A controller takes the second initialisation word, the first byte of its data port, as the vector
-- of its line 0, without the low three bits, and the last byte as its mask.
abbrev pub vector : (data_port : ℕ) → List Write → (line : ℕ) → ℕ
vector data_port ws line = get_or (sent data_port ws) 0 0 / 8 * 8 + line

abbrev pub last : List ℕ → ℕ
last [] = 0
last (x ∷ []) = x
last (x ∷ y ∷ ys) = last (y ∷ ys)
