-- ===== src/Pic/Mask.antt =====
-- Masking interrupt lines: what the data ports hold afterwards.
use cse508_operating_system.Prelude.{ℕ, ◌<◌, ◌≡◌, ◌==◌, if◌then◌else◌, bit}
use cse508_operating_system.Pic.{Write, outb, irq_port}

-- The controllers, as the code relies on them: outside an initialisation a data port reads back
-- the byte last written to it, the mask, and a write to one data port leaves the other alone.
pub record Controllers (Device : Type 0) : Type 0 where
  pub read : Device → ℕ → ℕ
  pub write : Device → Write → Device
  pub byte : (d : Device) (port : ℕ) → read d port < 256
  pub read_back :
      (d : Device) (irq irq' val : ℕ)
      → val < 256
      → read (write d (outb (irq_port irq).0 val)) (irq_port irq').0
        ≡ (if (irq_port irq').0 == (irq_port irq).0 then val else read d (irq_port irq').0)

module _ {Device : Type 0} (c : Controllers Device) where
  -- The bit of a line in the mask of its controller: 1 if the line is masked.
  abbrev pub mask_bit : Device → ℕ → ℕ
  mask_bit d irq = bit (c.read d (irq_port irq).0) (irq_port irq).1
