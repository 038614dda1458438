-- ===== src/Gdt.antt =====
-- The segment descriptors of sys/gdt.c. A `uint64_t` bit field is the number in it.
pub mod Tss
mod Tests
use cse508_operating_system.Prelude.{
  ℕ, ◌+◌, ◌-◌, ◌*◌, ◌/◌, ◌%◌, ◌^◌, List, [], ◌∷◌, get_or, bit_or, ◌>>>◌,
}

-- GDT_CS, GDT_DS, DPL0, DPL3, P, L, W
abbrev pub gdt_cs : ℕ
gdt_cs = 0x00180000000000

abbrev pub gdt_ds : ℕ
gdt_ds = 0x00100000000000

abbrev pub dpl0 : ℕ
dpl0 = 0

abbrev pub dpl3 : ℕ
dpl3 = 0x00600000000000

abbrev pub present : ℕ
present = 0x00800000000000

abbrev pub long_mode : ℕ
long_mode = 0x20000000000000

abbrev pub writable : ℕ
writable = 0x00020000000000

-- The array `gdt` by its index: the entries that are not named are 0.
unfoldable pub gdt : ℕ → ℕ
gdt i =
    get_or
      (0
        ∷ bit_or (bit_or (bit_or gdt_cs present) dpl0) long_mode
        ∷ bit_or (bit_or (bit_or gdt_ds present) writable) dpl0
        ∷ bit_or (bit_or (bit_or gdt_cs present) dpl3) long_mode
        ∷ bit_or (bit_or (bit_or gdt_ds present) writable) dpl3
        ∷ [])
      i 0

-- `struct sys_segment_descriptor`
pub record SysSegment : Type 0 where
  pub lolimit : ℕ
  pub lobase : ℕ
  pub type : ℕ
  pub dpl : ℕ
  pub p : ℕ
  pub hilimit : ℕ
  pub xx1 : ℕ
  pub gran : ℕ
  pub hibase : ℕ
  pub xx2 : ℕ
  pub zero_bits : ℕ
  pub xx3 : ℕ

-- The two words of a descriptor: the fields of 16, 24, 5, 2, 1, 4, 3, 1, 40, 8, 5 and 19 bits, one
-- behind the other.
unfoldable pub low_word : SysSegment → ℕ
low_word s =
    s.lolimit
    + 2 ^ 16 * s.lobase
    + 2 ^ 40 * s.type
    + 2 ^ 45 * s.dpl
    + 2 ^ 47 * s.p
    + 2 ^ 48 * s.hilimit
    + 2 ^ 52 * s.xx1
    + 2 ^ 55 * s.gran
    + 2 ^ 56 * (s.hibase % 2 ^ 8)

unfoldable pub high_word : SysSegment → ℕ
high_word s = s.hibase / 2 ^ 8 + 2 ^ 32 * s.xx2 + 2 ^ 40 * s.zero_bits + 2 ^ 45 * s.xx3

-- sizeof(struct tss_t)
abbrev pub tss_size : ℕ
tss_size = 4 + 8 + 4 * 11

-- `setup_tss`, for the descriptor that stands at `gdt[5]`; `tss` is the address of the segment.
unfoldable pub setup_tss : SysSegment → (tss : ℕ) → SysSegment
setup_tss s tss = record s {
  lolimit = (tss_size - 1) % 2 ^ 16;
  lobase = tss % 2 ^ 24;
  type = 9;
  dpl = 0;
  p = 1;
  hilimit = 0;
  gran = 0;
  hibase = (tss >>> 24) % 2 ^ 40;
}

-- What `lgdt` and the loads behind it in sys/gdt.s leave: GDTR and the segment registers.
pub record Segments : Type 0 where
  pub gdtr_size : ℕ
  pub gdtr_addr : ℕ
  pub cs : ℕ
  pub es : ℕ
  pub fs : ℕ
  pub gs : ℕ
  pub ds : ℕ
  pub ss : ℕ

-- MAX_GDT
abbrev pub max_gdt : ℕ
max_gdt = 32

-- `_x86_64_asm_lgdt`
unfoldable pub asm_lgdt : (size addr cs_idx ds_idx : ℕ) → Segments
asm_lgdt size addr cs_idx ds_idx = record {
  gdtr_size = size;
  gdtr_addr = addr;
  cs = cs_idx;
  es = ds_idx;
  fs = ds_idx;
  gs = ds_idx;
  ds = ds_idx;
  ss = ds_idx;
}

-- `at_gdt` is the address of `gdt`; the size is sizeof(gdt).
unfoldable pub reload_gdt : (at_gdt : ℕ) → Segments
unfolding asm_lgdt
reload_gdt at_gdt = asm_lgdt (8 * max_gdt) at_gdt 8 16
