-- ===== src/Gdt/Tests.antt =====
-- The theorem on sys/gdt.c at a segment.
use cse508_operating_system.Prelude.{◌+◌, ◌≡◌, arith}
use cse508_operating_system.Gdt.{SysSegment, low_word, high_word, setup_tss}
use cse508_operating_system.Gdt.Tss.{
  base_of, limit_of, type_of, present_of, granularity_of, setup_tss_lem,
}

abbrev empty : SysSegment
empty = record {
  lolimit = 0;
  lobase = 0;
  type = 0;
  dpl = 0;
  p = 0;
  hilimit = 0;
  xx1 = 0;
  gran = 0;
  hibase = 0;
  xx2 = 0;
  zero_bits = 0;
  xx3 = 0;
}

setup_tss_lem_example :
    let d = setup_tss empty 0xFFFFFFFF80212340 in
    (base_of (low_word d) (high_word d) ≡ 0xFFFFFFFF80212340)
    × (limit_of (low_word d) + 1 ≡ 56)
    × (type_of (low_word d) ≡ 9)
    × (present_of (low_word d) ≡ 1)
    × (granularity_of (low_word d) ≡ 0)
setup_tss_lem_example = setup_tss_lem empty 0xFFFFFFFF80212340 (omega arith) (omega arith)
