-- ===== src/Prelude/Bits.antt =====
-- Binary operations of C on the native numbers: low masks, disjoint fields, and a check of every
-- value of a small range.
use Prim.Native.Nat.{
  ℕ, zero, suc, ◌+◌, ◌-◌, ◌*◌, ◌/◌, ◌%◌, ◌^◌, ◌≤◌, ◌<◌, min, max, bit_and, bit_or, digits,
  bit_and-bitwise, bit_or-bitwise,
}
use native.Mathlib.Nat.{le_refl, pow-suc, one-le-pow}
use native.Mathlib.Omega.{arith}
use mathlib.Core.Path.{◌≡◌, refl, ap, ◌∙◌}
use mathlib.Core.Bool.{Bool, true, false}
unfoldable use native.Mathlib.Decide.{ℕ_discrete}
use cse508_operating_system.Prelude.Tests.{if◌then◌else◌}

-- One more bit of width doubles what stands above a field.
double_field : (q k : ℕ) → q * 2 ^ suc k ≡ 2 * (q * 2 ^ k)
double_field q k = omega (arith, ap (λ (t : ℕ). q * t) (pow-suc 2 k))

or_digits : (n a k q r : ℕ) → a ≤ n → a ≡ q * 2 ^ k → r < 2 ^ k → digits (λ b. b) max n a r ≡ a + r
or_digits zero zero k q r le e fits = omega arith
or_digits zero (suc a) k q r le e fits = absurd (omega arith)
or_digits (suc n) zero k q r le e fits = omega arith
or_digits (suc n) (suc a) zero q r le e fits =
    omega (
      arith,
      or_digits n (suc a / 2) 0 (suc a / 2) (r / 2) (omega arith) (omega arith) (omega arith),
    )
or_digits (suc n) (suc a) (suc k) q r le e fits = omega (
  arith,
  or_digits n (suc a / 2) k q (r / 2) (omega arith) (omega (arith, double_field q k))
      (omega (arith, pow-suc 2 k)),
  double_field q k,
)

-- `(q << k) | r` is a sum when `r` fits `k` bits.
pub bit_or_fields : (k q r : ℕ) → r < 2 ^ k → bit_or (q * 2 ^ k) r ≡ q * 2 ^ k + r
bit_or_fields k q r fits =
    bit_or-bitwise (q * 2 ^ k) r ∙ or_digits (q * 2 ^ k) (q * 2 ^ k) k q r (le_refl _) refl fits

and_digits :
    (n a k q r : ℕ)
    → a ≤ n
    → a ≡ q * 2 ^ k + r
    → r < 2 ^ k
    → digits (λ b. 0) min n a (2 ^ k - 1) ≡ r
and_digits zero zero k q r le e fits = omega arith
and_digits zero (suc a) k q r le e fits = absurd (omega arith)
and_digits (suc n) zero k q r le e fits = omega arith
and_digits (suc n) (suc a) zero q r le e fits =
    omega
      (arith, and_digits n (suc a / 2) 0 (suc a / 2) 0 (omega arith) (omega arith) (omega arith))
and_digits (suc n) (suc a) (suc k) q r le e fits = omega (
  arith,
  ap (λ m. digits (λ b. 0) min n (suc a / 2) m) (halve k),
  and_digits n (suc a / 2) k q (r / 2) (omega arith) (omega (arith, double_field q k))
      (omega (arith, pow-suc 2 k)),
  double_field q k,
  pow-suc 2 k,
  one-le-pow k 2,
)
  where
    halve : (k : ℕ) → (2 ^ suc k - 1) / 2 ≡ 2 ^ k - 1
    halve k = omega (arith, pow-suc 2 k, one-le-pow k 2)

-- A mask of `k` low bits is the remainder by `2 ^ k`.
pub bit_and_mask : (k a : ℕ) → bit_and a (2 ^ k - 1) ≡ a % 2 ^ k
bit_and_mask k a =
    bit_and-bitwise a (2 ^ k - 1)
    ∙ and_digits a a k (a / 2 ^ k) (a % 2 ^ k) (le_refl _) (omega arith)
        (omega (arith, one-le-pow k 2))

-- A test of every value below a bound, from the bound down.
unfoldable pub holds_below : (bound : ℕ) (test : ℕ → Bool) → Bool
holds_below zero test = true
holds_below (suc top) test = if test top then holds_below top test else false

pub holds_below-true :
    (bound : ℕ) (test : ℕ → Bool)
    → holds_below bound test ≡ true
    → (i : ℕ) → i < bound
    → test i ≡ true
unfolding holds_below
holds_below-true zero test all i low = absurd (omega arith)
holds_below-true (suc top) test all i low = elim (ℕ_discrete i top) [
  | yes last ↦ ground arith
  | no other ↦ holds_below-true top test (ground arith) i (omega arith)
]
