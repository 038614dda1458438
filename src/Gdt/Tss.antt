-- ===== src/Gdt/Tss.antt =====
-- What the processor reads in the descriptor that `setup_tss` of sys/gdt.c fills.
use cse508_operating_system.Prelude.{ℕ, ◌+◌, ◌*◌, ◌/◌, ◌%◌, ◌^◌, ◌<◌, ◌≡◌, arith}
use cse508_operating_system.Gdt.{SysSegment, low_word, high_word, setup_tss}

-- The fields of a system descriptor of 16 bytes, as the processor finds them in its two words.
abbrev pub base_of : ℕ → ℕ → ℕ
base_of low high =
    low / 2 ^ 16 % 2 ^ 24 + 2 ^ 24 * (low / 2 ^ 56 % 2 ^ 8) + 2 ^ 32 * (high % 2 ^ 32)

abbrev pub limit_of : ℕ → ℕ
limit_of low = low % 2 ^ 16 + 2 ^ 16 * (low / 2 ^ 48 % 2 ^ 4)

abbrev pub type_of : ℕ → ℕ
type_of low = low / 2 ^ 40 % 2 ^ 5

abbrev pub present_of : ℕ → ℕ
present_of low = low / 2 ^ 47 % 2

abbrev pub granularity_of : ℕ → ℕ
granularity_of low = low / 2 ^ 55 % 2

-- The descriptor that `setup_tss` leaves, whatever its unused bits were, reads as a present
-- task-state segment at the address of `tss`, of 56 bytes.
pub setup_tss_lem :
    (s : SysSegment) (tss : ℕ)
    → tss < 2 ^ 64
    → s.xx1 < 2 ^ 3
    → let d = setup_tss s tss in
      (base_of (low_word d) (high_word d) ≡ tss)
      × (limit_of (low_word d) + 1 ≡ 56)
      × (type_of (low_word d) ≡ 9)
      × (present_of (low_word d) ≡ 1)
      × (granularity_of (low_word d) ≡ 0)
unfolding setup_tss low_word high_word
setup_tss_lem s tss small unused = (omega arith, omega arith, omega arith, omega arith, omega arith)
