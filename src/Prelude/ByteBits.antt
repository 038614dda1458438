-- ===== src/Prelude/ByteBits.antt =====
-- Setting and clearing one bit of a byte, as `b |= 1 << k` and `b &= ~(1 << k)` do. Both compute
-- in `int` and store the low byte.
use cse508_operating_system.Prelude.{
  ℕ, ◌-◌, ◌^◌, ◌<◌, ◌≡◌, refl, true, arith, bit_and, bit_or, u8, ◌<<◌, bit, ◌==◌, ==_iff,
  if◌then◌else◌,
}
use cse508_operating_system.Prelude.Bits.{holds_below, holds_below-true}

unfoldable pub set_bit : ℕ → ℕ → ℕ
set_bit b k = u8 (bit_or b (1 << k))

unfoldable pub clear_bit : ℕ → ℕ → ℕ
clear_bit b k = u8 (bit_and b (2 ^ 32 - 1 - 1 << k))

set_table :
    holds_below 256 (λ b.
      holds_below 8
        (λ k. holds_below 8 (λ j. bit (set_bit b k) j == (if j == k then 1 else bit b j))))
    ≡ true
unfolding holds_below set_bit
set_table = refl

clear_table :
    holds_below 256 (λ b.
      holds_below 8
        (λ k. holds_below 8 (λ j. bit (clear_bit b k) j == (if j == k then 0 else bit b j))))
    ≡ true
unfolding holds_below clear_bit
clear_table = refl

module _ (b k j : ℕ) (hb : b < 256) (hk : k < 8) (hj : j < 8) where
  pub bit-set_bit : bit (set_bit b k) j ≡ (if j == k then 1 else bit b j)
  bit-set_bit = (==_iff _ _).0 (
      holds_below-true 8 _ (holds_below-true 8 _ (holds_below-true 256 _ set_table b hb) k hk) j hj)

  pub bit-clear_bit : bit (clear_bit b k) j ≡ (if j == k then 0 else bit b j)
  bit-clear_bit = (==_iff _ _).0 (
      holds_below-true 8 _ (holds_below-true 8 _ (holds_below-true 256 _ clear_table b hb) k hk) j
        hj)

pub set_bit-lt : (b k : ℕ) → set_bit b k < 256
unfolding set_bit
set_bit-lt b k = omega arith

pub clear_bit-lt : (b k : ℕ) → clear_bit b k < 256
unfolding clear_bit
clear_bit-lt b k = omega arith
