-- ===== src/Itoa/Digits.antt =====
-- The digits that `itoa` writes, before it turns them round.
use native.Mathlib.Nat.{mod-add-div, mod-lt, div-lt_self, zero-div}
use cse508_operating_system.Prelude.{
  update_ne, sym, dec_lt, ℕ, zero, suc, ◌+◌, ◌-◌, ◌*◌, ◌/◌, ◌%◌, ◌≤◌, ◌<◌, ◌≡◌, ◌≢◌, refl, ap, ◌∙◌,
  some, List, [], ◌∷◌, map, arith, ◌==◌, update, update_self, length, get_or, Bool-cases, inl, inr,
}
use cse508_operating_system.Text.{Bytes}
use cse508_operating_system.Text.Numbers.{digits_value, AllBelow}
use cse508_operating_system.Itoa.{digit_text, itoa_digits}

-- The bytes `xs` stand in the buffer from `p` on.
abbrev pub Stands : Bytes → ℕ → List ℕ → Type 0
Stands buf p xs = (j : ℕ) → j < length xs → buf (p + j) ≡ get_or xs j 0

-- What the first loop leaves: the digits of the value, the lowest first, from `p` on.
pub record Written (base value : ℕ) (buf : Bytes) (p count : ℕ) (r : Bytes × ℕ × ℕ) (ds : List ℕ)
    : Type 0 where
  pub digits : AllBelow base ds
  pub worth : digits_value base ds ≡ value
  pub some_digit : 0 < length ds
  pub lead : value ≢ 0 → 0 < get_or ds (length ds - 1) 0
  pub short : length ds ≤ value + 1
  pub stands : Stands r.0 p (map digit_text ds)
  pub before : (a : ℕ) → a < p → r.0 a ≡ buf a
  pub pointer : r.1 ≡ p + length ds
  pub counted : r.2 ≡ count + length ds

Stands-cons :
    (buf : Bytes) (p x : ℕ) (xs : List ℕ)
    → buf p ≡ x
    → Stands buf (p + 1) xs
    → Stands buf p (x ∷ xs)
Stands-cons buf p x xs e s zero lt = let z : p + 0 ≡ p = omega arith in rw z e
Stands-cons buf p x xs e s (suc j) lt =
    let z : p + suc j ≡ p + 1 + j = omega arith in rw z (s j (omega arith))

pub length-map_text : (ds : List ℕ) → length (map digit_text ds) ≡ length ds
length-map_text [] = refl
length-map_text (d ∷ ds) = ap suc (length-map_text ds)

-- What one more digit in front adds.
Written-cons :
    (base value : ℕ) (buf : Bytes) (p count : ℕ) (r : Bytes × ℕ × ℕ) (ds : List ℕ)
    → 2 ≤ base
    → value / base ≢ 0
    → value / base < value
    → Written base
        (value / base)
        (update buf p (digit_text (value % base)))
        (p + 1)
        (count + 1)
        r
        ds
    → Written base value buf p count r (value % base ∷ ds)
Written-cons base value buf p count r ds two more smaller w = record {
  digits = (mod-lt value {m = base} (omega arith), w.digits);
  worth = ap (λ (t : ℕ). value % base + base * t) w.worth ∙ mod-add-div value base;
  some_digit = omega arith;
  lead = λ ne.
      let at : suc (length ds) - 1 ≡ suc (length ds - 1) = omega (arith, w.some_digit) in
      rw at (w.lead more);
  short = omega (arith, w.short, smaller);
  stands =
      Stands-cons r.0 p (digit_text (value % base)) (map digit_text ds)
        (w.before p (omega arith) ∙ update_self buf p (digit_text (value % base))) w.stands;
  before = λ a lt.
      w.before a (omega arith) ∙ update_ne buf p a (digit_text (value % base)) (omega arith);
  pointer = omega (arith, w.pointer);
  counted = omega (arith, w.counted);
}

-- The first loop of `itoa` ends, with fuel above the value, and leaves the digits of the value in
-- its base as text, the lowest first, behind what stood before.
pub itoa_digits_lem :
    (fuel value base : ℕ) (buf : Bytes) (p count : ℕ)
    → 2 ≤ base
    → value < fuel
    → (r : Bytes × ℕ × ℕ) × (ds : List ℕ) × (itoa_digits fuel value base buf p count ≡ some r)
      × Written base value buf p count r ds
unfolding itoa_digits
itoa_digits_lem zero value base buf p count two enough = absurd (omega arith)
itoa_digits_lem (suc fuel) value base buf p count two enough =
    let d : ℕ = value % base in
    let buf' : Bytes = update buf p (digit_text d) in
    elim (Bool-cases (value / base == 0)) [
      | inl over ↦ (
        (buf', p + 1, count + 1),
        d ∷ [],
        rw over,
        record {
          digits = (mod-lt value {m = base} (omega arith), tt);
          worth =
              let z : value / base ≡ 0 = ground arith in
              ap (λ (t : ℕ). value % base + base * t) (sym z) ∙ mod-add-div value base;
          some_digit = omega arith;
          lead = λ ne.
              (let z : value / base ≡ 0 = ground arith in
                let sum : value % base + base * 0 ≡ value =
                  ap (λ (t : ℕ). value % base + base * t) (sym z) ∙ mod-add-div value base in
                omega (arith, sum, ne));
          short = omega arith;
          stands =
              Stands-cons buf' p (digit_text d) [] (update_self buf p (digit_text d))
                (λ j lt. absurd (omega arith));
          before = λ a lt. update_ne buf p a (digit_text d) (omega arith);
          pointer = refl;
          counted = refl;
        },
      )
      | inr more ↦
          let ne : value / base ≢ 0 = ground arith in
          let smaller : value / base < value = div-lt_self (pos ne) (omega arith) in
          let rest =
            itoa_digits_lem fuel (value / base) base buf' (p + 1) (count + 1) two
              (omega (arith, smaller)) in
          (
            rest.0,
            value % base ∷ rest.1,
            rw more rest.2,
            Written-cons base value buf p count rest.0 rest.1 two ne smaller rest.3,
          )
    ]
  where
    pos : value / base ≢ 0 → 0 < value
    pos ne = elim (dec_lt 0 value) [
      | yes h ↦ h
      | no z ↦ absurd (ne (let e : value ≡ 0 = omega arith in rw e (zero-div base)))
    ]
