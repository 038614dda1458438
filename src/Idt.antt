-- ===== src/Idt.antt =====
-- The interrupt descriptor table of sys/idt.c, and the gates that sys/isr.c and sys/irq.c install.
-- The addresses of the assembly stubs are parameters.
pub mod Gates
pub mod Vectors
mod Tests
use cse508_operating_system.Prelude.{
  ℕ, ◌+◌, ◌*◌, ◌-◌, ◌/◌, ◌%◌, ◌^◌, update, ltb, if◌then◌else◌, u16, ◌>>>◌, bit_and, List, [], ◌∷◌,
  ◌++◌,
}
use cse508_operating_system.Pic.{Write, pic_remap, irq_clear_mask}

-- `idt_entry_t`; `ist` has 3 bits, `reserved0` 5, `type` 4, `zero` 1, `dpl` 2 and `p` 1.
pub record IdtEntry : Type 0 where
  pub offset_low : ℕ
  pub selector : ℕ
  pub ist : ℕ
  pub reserved0 : ℕ
  pub type : ℕ
  pub zero_bit : ℕ
  pub dpl : ℕ
  pub p : ℕ
  pub offset_mid : ℕ
  pub offset_high : ℕ
  pub reserved1 : ℕ

-- `idt_ptr` and `idt_entries`.
pub record Idt : Type 0 where
  pub limit : ℕ
  pub base : ℕ
  pub entries : ℕ → IdtEntry

-- What `memset` with 0 leaves of an entry.
abbrev pub zero_entry : IdtEntry
zero_entry = record {
  offset_low = 0;
  selector = 0;
  ist = 0;
  reserved0 = 0;
  type = 0;
  zero_bit = 0;
  dpl = 0;
  p = 0;
  offset_mid = 0;
  offset_high = 0;
  reserved1 = 0;
}

unfoldable pub idt_set_gate : Idt → (num selector ist type dpl offset : ℕ) → Idt
idt_set_gate s num selector ist type dpl offset = record s {
  entries = update s.entries num (record (s.entries num) {
    offset_low = bit_and offset 0xFFFF;
    selector = u16 selector;
    ist = ist % 2 ^ 3;
    reserved0 = 0;
    type = type % 2 ^ 4;
    zero_bit = 0;
    dpl = dpl % 2 ^ 2;
    p = 1;
    offset_mid = bit_and (offset >>> 16) 0xFFFF;
    offset_high = bit_and (offset >>> 32) 0xFFFFFFFF;
  });
}

unfoldable pub init_isr : (isr0 isr128 : ℕ) → Idt → Idt
unfolding idt_set_gate
init_isr isr0 isr128 s = idt_set_gate (idt_set_gate s 0 8 0 0x0e 0 isr0) 128 8 0 0x0e 0 isr128

-- The gates of `init_irq`.
unfoldable pub init_irq : (irq0 irq1 : ℕ) → Idt → Idt
unfolding idt_set_gate
init_irq irq0 irq1 s = idt_set_gate (idt_set_gate s 32 8 0 0x0e 0 irq0) 33 8 0 0x0e 0 irq1

-- An entry takes 16 bytes; `at_entries` is the address of `idt_entries`.
unfoldable pub init_idt : (isr0 isr128 irq0 irq1 at_entries : ℕ) → Idt → Idt
unfolding init_isr init_irq
init_idt isr0 isr128 irq0 irq1 at_entries s = init_irq irq0 irq1 (
    init_isr isr0 isr128 (record {
      limit = 16 * 256 - 1;
      base = at_entries;
      entries = λ num. if ltb num 256 then zero_entry else s.entries num;
    }))

-- The port writes of `init_irq`, between `cli` and `sti`. `inb` is what the data ports give, the
-- masks, which `pic_remap` puts back.
unfoldable pub init_irq_writes : (inb : ℕ → ℕ) → List Write
init_irq_writes inb = pic_remap inb 0x20 0x29 ++ (irq_clear_mask inb 0 ∷ [])

-- `reload_idt`: the table that IDTR gets, and the port writes.
unfoldable pub reload_idt :
    (inb : ℕ → ℕ) (isr0 isr128 irq0 irq1 at_entries : ℕ) → Idt → Idt × List Write
unfolding init_idt init_irq_writes
reload_idt inb isr0 isr128 irq0 irq1 at_entries s =
    (init_idt isr0 isr128 irq0 irq1 at_entries s, init_irq_writes inb)
