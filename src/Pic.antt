-- ===== src/Pic.antt =====
-- The interrupt controllers of sys/pic.c and include/sys/pic.h, as the port accesses that the code
-- makes. `inb` is what the ports give when the operation starts, and the result is what it writes,
-- in order. `io_wait` only passes time.
pub mod Mask
pub mod Remap
mod Tests
use cse508_operating_system.Prelude.{
  ℕ, ◌+◌, ◌-◌, Bool, List, [], ◌∷◌, ◌++◌, ltb, leb, if◌then◌else◌, u8,
}
use cse508_operating_system.Prelude.ByteBits.{set_bit, clear_bit}

abbrev pub pic1_command : ℕ
pic1_command = 0x20

abbrev pub pic1_data : ℕ
pic1_data = pic1_command + 1

abbrev pub pic2_command : ℕ
pic2_command = 0xA0

abbrev pub pic2_data : ℕ
pic2_data = pic2_command + 1

abbrev pub pic_eoi : ℕ
pic_eoi = 0x20

-- ICW1_INIT + ICW1_ICW4
abbrev pub icw1 : ℕ
icw1 = 0x10 + 0x01

abbrev pub icw4_8086 : ℕ
icw4_8086 = 0x01

-- `outb(port, val)`; `val` is a byte.
pub data Write : Type 0 where
  outb : (port val : ℕ) → Write

unfoldable pub pic_send_eoi : (irq : ℕ) → List Write
pic_send_eoi irq =
    (if leb 8 irq then outb pic2_command pic_eoi ∷ [] else []) ++ (outb pic1_command pic_eoi ∷ [])

unfoldable pub pic_remap : (inb : ℕ → ℕ) (offset1 offset2 : ℕ) → List Write
pic_remap inb offset1 offset2 =
    outb pic1_command icw1
    ∷ outb pic2_command icw1
    ∷ outb pic1_data (u8 offset1)
    ∷ outb pic2_data (u8 offset2)
    ∷ outb pic1_data 4
    ∷ outb pic2_data 2
    ∷ outb pic1_data icw4_8086
    ∷ outb pic2_data icw4_8086
    ∷ outb pic1_data (inb pic1_data)
    ∷ outb pic2_data (inb pic2_data)
    ∷ []

-- The branches on `irq < 8`: the port, and the line of that controller.
unfoldable pub irq_port : (irq : ℕ) → ℕ × ℕ
irq_port irq = if ltb irq 8 then (pic1_data, irq) else (pic2_data, irq - 8)

unfoldable pub irq_set_mask : (inb : ℕ → ℕ) (irq : ℕ) → Write
unfolding irq_port
irq_set_mask inb irq = outb (irq_port irq).0 (set_bit (inb (irq_port irq).0) (irq_port irq).1)

unfoldable pub irq_clear_mask : (inb : ℕ → ℕ) (irq : ℕ) → Write
unfolding irq_port
irq_clear_mask inb irq = outb (irq_port irq).0 (clear_bit (inb (irq_port irq).0) (irq_port irq).1)
