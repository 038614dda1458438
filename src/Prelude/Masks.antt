-- ===== src/Prelude/Masks.antt =====
-- `|` and `&` on numbers whose low bits are known: the law of the lowest digit, and what follows
-- for page addresses with flags.
use Prim.Native.Nat.{
  ℕ, zero, suc, ◌+◌, ◌-◌, ◌*◌, ◌/◌, ◌%◌, ◌^◌, ◌≤◌, ◌<◌, min, max, bit_and, bit_or, digits,
  bit_and-bitwise, bit_or-bitwise,
}
use native.Mathlib.Nat.{le_refl, pow-suc}
use native.Mathlib.Omega.{arith}
use mathlib.Core.Path.{◌≡◌, refl, ap, ap₂, ◌∙◌}
use cse508_operating_system.Prelude.Bits.{bit_and_mask, bit_or_fields}

-- Fuel above the first number makes no difference to its digits.
module _ (z : ℕ → ℕ) (f : ℕ → ℕ → ℕ) where
  same_digits : (m n a b : ℕ) → a ≤ m → a ≤ n → digits z f m a b ≡ digits z f n a b
  same_digits zero zero a b p q = refl
  same_digits zero (suc n) (suc a) b p q = absurd (omega arith)
  same_digits (suc m) zero (suc a) b p q = absurd (omega arith)
  same_digits zero (suc n) zero b p q = refl
  same_digits (suc m) zero zero b p q = refl
  same_digits (suc m) (suc n) zero b p q = refl
  same_digits (suc m) (suc n) (suc a) b p q =
      ap (λ (d : ℕ). d * 2 + f (suc a % 2) (b % 2))
        (same_digits m n (suc a / 2) (b / 2) (omega arith) (omega arith))

pub or_lowest : (a b : ℕ) → bit_or a b ≡ bit_or (a / 2) (b / 2) * 2 + max (a % 2) (b % 2)
or_lowest zero b = simp bit_or-bitwise (omega arith)
or_lowest (suc a) b = simp bit_or-bitwise (
    ap (λ (d : ℕ). d * 2 + max (suc a % 2) (b % 2))
      (same_digits (λ y. y) max a (suc a / 2) (suc a / 2) (b / 2) (omega arith) (le_refl _)))

pub and_lowest : (a b : ℕ) → bit_and a b ≡ bit_and (a / 2) (b / 2) * 2 + min (a % 2) (b % 2)
and_lowest zero b = simp bit_and-bitwise (omega arith)
and_lowest (suc a) b = simp bit_and-bitwise (
    ap (λ (d : ℕ). d * 2 + min (suc a % 2) (b % 2))
      (same_digits (λ y. 0) min a (suc a / 2) (suc a / 2) (b / 2) (omega arith) (le_refl _)))

pub or_zero : (n a : ℕ) → a ≤ n → bit_or a 0 ≡ a
or_zero zero a h = let e : a ≡ 0 = omega arith in rw e
or_zero (suc n) zero h = refl
or_zero (suc n) (suc a) h = omega (arith, or_lowest (suc a) 0, or_zero n (suc a / 2) (omega arith))

and_zero : (n a : ℕ) → a ≤ n → bit_and a 0 ≡ 0
and_zero zero a h = let e : a ≡ 0 = omega arith in rw e
and_zero (suc n) zero h = refl
and_zero (suc n) (suc a) h =
    omega (arith, and_lowest (suc a) 0, and_zero n (suc a / 2) (omega arith))

-- One bit of width more doubles what stands above it.
doubled : (q k : ℕ) → q * 2 ^ suc k ≡ 2 * (q * 2 ^ k)
doubled q k = omega (arith, ap (λ (t : ℕ). q * t) (pow-suc 2 k))

-- Flags set in the low `k` bits leave the bits above alone.
pub or_low :
    (k q x y : ℕ) → x < 2 ^ k → y < 2 ^ k → bit_or (q * 2 ^ k + x) y ≡ q * 2 ^ k + bit_or x y
or_low zero q x y hx hy =
    let ex : x ≡ 0 = omega arith in
    let ey : y ≡ 0 = omega arith in
    rw (ex, ey)
      (omega (arith, or_zero q q (le_refl _), or_zero (q * 1 + 0) (q * 1 + 0) (le_refl _)))
or_low (suc k) q x y hx hy = omega (
  arith,
  doubled q k,
  ap (λ (t : ℕ). bit_or t (y / 2)) (halve k q x (doubled q k)),
  or_lowest (q * 2 ^ suc k + x) y,
  or_lowest x y,
  or_low k q (x / 2) (y / 2) (omega (arith, pow-suc 2 k)) (omega (arith, pow-suc 2 k)),
)
  where
    halve :
        (k q x : ℕ) → q * 2 ^ suc k ≡ 2 * (q * 2 ^ k) → (q * 2 ^ suc k + x) / 2 ≡ q * 2 ^ k + x / 2
    halve k q x e = omega (arith, e)

-- A mask of high bits clears the low ones.
pub and_high : (k q m r : ℕ) → r < 2 ^ k → bit_and (q * 2 ^ k + r) (m * 2 ^ k) ≡ bit_and q m * 2 ^ k
and_high zero q m r h =
    let e : q * 2 ^ 0 + r ≡ q = omega arith in
    let e' : m * 2 ^ 0 ≡ m = omega arith in rw (e, e') (omega arith)
and_high (suc k) q m r h = omega (
  arith,
  and_lowest (q * 2 ^ suc k + r) (m * 2 ^ suc k),
  ap₂ bit_and (half_of q r) (half_exact m),
  doubled q k,
  doubled m k,
  doubled (bit_and q m) k,
  and_high k q m (r / 2) (omega (arith, pow-suc 2 k)),
)
  where
    half_of : (a b : ℕ) → (a * 2 ^ suc k + b) / 2 ≡ a * 2 ^ k + b / 2
    half_of a b = omega (arith, doubled a k)

    half_exact : (a : ℕ) → a * 2 ^ suc k / 2 ≡ a * 2 ^ k
    half_exact a = omega (arith, doubled a k)

-- `p | 1 | 2 | 4` on a page address.
pub flags_sum : (q : ℕ) → bit_or (bit_or (bit_or (q * 2 ^ 12) 1) 2) 4 ≡ q * 2 ^ 12 + 7
flags_sum q =
    ap (λ (t : ℕ). bit_or (bit_or t 2) 4) (bit_or_fields 12 q 1 (omega arith))
    ∙ ap (λ (t : ℕ). bit_or t 4) (or_low 12 q 1 2 (omega arith) (omega arith))
    ∙ or_low 12 q 3 4 (omega arith) (omega arith)

-- `x & 0xFFFFFFFFFFFFF000` on a 64-bit word.
pub page_mask : (x : ℕ) → x < 2 ^ 64 → bit_and x 0xFFFFFFFFFFFFF000 ≡ x / 2 ^ 12 * 2 ^ 12
page_mask x h =
    let split : x ≡ x / 2 ^ 12 * 2 ^ 12 + x % 2 ^ 12 = omega arith in
    ap (λ (t : ℕ). bit_and t 0xFFFFFFFFFFFFF000) split
    ∙ and_high 12 (x / 2 ^ 12) (2 ^ 52 - 1) (x % 2 ^ 12) (omega arith)
    ∙ omega (arith, bit_and_mask 52 (x / 2 ^ 12))
