-- ===== src/Idt/Gates.antt =====
-- The gates of the table: where an interrupt goes.
use cse508_operating_system.Prelude.{
  ℕ, ◌+◌, ◌*◌, ◌-◌, ◌/◌, ◌^◌, ◌<◌, ◌≡◌, ◌≢◌, bit_and, update_self, update_ne, ap, ◌∙◌, arith, ◌==◌,
  ltb, if◌then◌else◌, Option, some, none,
}
use cse508_operating_system.Prelude.Bits.{bit_and_mask}
use cse508_operating_system.Idt.{IdtEntry, Idt, idt_set_gate, zero_entry}

-- The handler that the processor calls through an entry, if the entry is present.
abbrev pub handler : IdtEntry → Option ℕ
handler e =
    if e.p == 1 then some (e.offset_low + e.offset_mid * 2 ^ 16 + e.offset_high * 2 ^ 32) else none

offset_parts :
    (offset : ℕ)
    → offset < 2 ^ 64
    → bit_and offset 0xFFFF
        + bit_and (offset / 2 ^ 16) 0xFFFF * 2 ^ 16
        + bit_and (offset / 2 ^ 32) 0xFFFFFFFF * 2 ^ 32
      ≡ offset
offset_parts offset h = omega (
  arith,
  bit_and_mask 16 offset,
  bit_and_mask 16 (offset / 2 ^ 16),
  bit_and_mask 32 (offset / 2 ^ 32),
)

-- After `idt_set_gate` with a 64-bit address the entry `num` calls that address, and every other
-- entry is as it was.
pub idt_set_gate_lem :
    (s : Idt) (num selector ist type dpl offset : ℕ)
    → offset < 2 ^ 64
    → let s' = idt_set_gate s num selector ist type dpl offset in
      (handler (s'.entries num) ≡ some offset) × ((n : ℕ) → n ≢ num → s'.entries n ≡ s.entries n)
unfolding idt_set_gate
idt_set_gate_lem s num selector ist type dpl offset h = (
  ap handler (update_self s.entries num _) ∙ ap some (offset_parts offset h),
  λ n ne. update_ne s.entries num n _ ne,
)

-- The table before its gates are set.
abbrev cleared : ℕ → Idt → Idt
cleared at_entries s = record {
  limit = 16 * 256 - 1;
  base = at_entries;
  entries = λ num. if ltb num 256 then zero_entry else s.entries num;
}
