-- ===== src/Pic/Remap.antt =====
-- What each controller gets from `PIC_remap` and `PIC_sendEOI`.
use cse508_operating_system.Prelude.{
  ℕ, ◌<◌, ◌≤◌, ◌≡◌, refl, List, [], ◌∷◌, ◌==◌, if◌then◌else◌, u8, arith,
}
use cse508_operating_system.Pic.{
  Write, outb, pic1_command, pic1_data, pic2_command, pic2_data, pic_eoi, icw1, icw4_8086,
  pic_remap, pic_send_eoi,
}

-- The bytes written to a port, in order.
abbrev pub sent : (port : ℕ) → List Write → List ℕ
sent port [] = []
sent port (outb p val ∷ ws) = if p == port then val ∷ sent port ws else sent port ws

-- `PIC_remap` gives each controller one initialisation command, and then through its data port the
-- low byte of its vector offset, its place in the cascade, the mode, and last the mask that the
-- port gave before.
pub pic_remap_lem :
    (inb : ℕ → ℕ) (offset1 offset2 : ℕ)
    → let ws = pic_remap inb offset1 offset2 in
      (sent pic1_command ws ≡ icw1 ∷ [])
      × (sent pic2_command ws ≡ icw1 ∷ [])
      × (sent pic1_data ws ≡ u8 offset1 ∷ 4 ∷ icw4_8086 ∷ inb pic1_data ∷ [])
      × (sent pic2_data ws ≡ u8 offset2 ∷ 2 ∷ icw4_8086 ∷ inb pic2_data ∷ [])
unfolding pic_remap
pic_remap_lem inb offset1 offset2 = (refl, refl, refl, refl)

-- `PIC_sendEOI` tells the first controller of the end of every interrupt, and the second one of
-- those from line 8 on.
pub pic_send_eoi_lem :
    (irq : ℕ)
    → (sent pic1_command (pic_send_eoi irq) ≡ pic_eoi ∷ [])
      × (irq < 8 → sent pic2_command (pic_send_eoi irq) ≡ [])
      × (8 ≤ irq → sent pic2_command (pic_send_eoi irq) ≡ pic_eoi ∷ [])
unfolding pic_send_eoi
pic_send_eoi_lem irq = (ground arith, λ low. ground arith, λ high. ground arith)
