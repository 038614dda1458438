-- ===== src/Text/Numbers.antt =====
-- `pow`, `atoi`, `octal_decimal` and `getSize` of sys/write.c and sys/math.c.
use native.Mathlib.Nat.{pow-zero, pow-suc, pow-succ', mul_comm, mul_assoc}
use cse508_operating_system.Prelude.{
  ℕ, zero, suc, ◌+◌, ◌*◌, ◌/◌, ◌%◌, ◌^◌, ◌≤◌, ◌<◌, ◌≡◌, ◌≢◌, refl, sym, ap, ◌∙◌, some, List, [],
  ◌∷◌, map, false, Bool-cases, inl, inr, arith, ◌==◌, length, u32, ◌>>=◌,
}
use cse508_operating_system.Text.{
  Bytes, div_ten, rem_ten, pow, atoi_step, atoi_loop, atoi, octal_loop, octal_decimal, get_size,
}
use cse508_operating_system.Text.Strings.{IsString}

pow_double : (x m : ℕ) → x ^ (m + m) ≡ x ^ m * x ^ m
pow_double x zero = rw pow-zero
pow_double x (suc m) =
    let e : suc m + suc m ≡ suc (suc (m + m)) = omega arith in
    rw e (simp (pow-suc, pow_double x m) (omega arith))

mod_mul_left : (a b : ℕ) → u32 (u32 a * b) ≡ u32 (a * b)
mod_mul_left a b =
    let split : a ≡ u32 a + 2 ^ 32 * (a / 2 ^ 32) = omega arith in
    omega (arith, ap (λ (t : ℕ). t * b) split)

mod_mul : (a b : ℕ) → u32 (u32 a * u32 b) ≡ u32 (a * b)
mod_mul a b =
    mod_mul_left a (u32 b) ∙ ap u32 (mul_comm a (u32 b)) ∙ mod_mul_left b a ∙ ap u32 (mul_comm b a)

-- The two recursive calls of `pow`, for an even and for an odd exponent.
pow_even : (x y : ℕ) → y % 2 ≡ 0 → u32 (u32 (x ^ (y / 2)) * u32 (x ^ (y / 2))) ≡ u32 (x ^ y)
pow_even x y even =
    let e : y / 2 + y / 2 ≡ y = omega arith in
    mod_mul (x ^ (y / 2)) (x ^ (y / 2))
    ∙ ap u32 (sym (pow_double x (y / 2)) ∙ ap (λ (t : ℕ). x ^ t) e)

pow_odd :
    (x y : ℕ) → y % 2 ≢ 0 → u32 (u32 (x * u32 (x ^ (y / 2))) * u32 (x ^ (y / 2))) ≡ u32 (x ^ y)
pow_odd x y odd =
    let h : ℕ = x ^ (y / 2) in
    let e : suc (y / 2 + y / 2) ≡ y = omega arith in
    let inner : u32 (x * u32 h) ≡ u32 (x * h) =
      ap u32 (mul_comm x (u32 h)) ∙ mod_mul_left h x ∙ ap u32 (mul_comm h x) in
    let cube : x * h * h ≡ x ^ y =
      mul_assoc x h h
      ∙ ap (λ (t : ℕ). x * t) (sym (pow_double x (y / 2)))
      ∙ sym (pow-succ' x (y / 2 + y / 2))
      ∙ ap (λ (t : ℕ). x ^ t) e in
    ap (λ (t : ℕ). u32 (t * u32 h)) inner ∙ mod_mul (x * h) h ∙ ap u32 cube

nonzero : (y : ℕ) → (suc y == 0) ≡ false
nonzero y = ground arith

-- `pow` with fuel above the exponent ends and returns the power, modulo 2 ^ 32.
pub pow_power : (fuel x y : ℕ) → y < fuel → pow fuel x y ≡ some (u32 (x ^ y))
unfolding pow
pow_power zero x y lt = absurd (omega arith)
pow_power (suc fuel) x zero lt = ap some (rw pow-zero)
pow_power (suc fuel) x (suc y) lt = elim (Bool-cases (suc y % 2 == 0)) [
  | inl even ↦
      let h = pow_power fuel x (suc y / 2) (omega arith) in
      rw (nonzero y, even, h, ◌>>=◌) (ap some (pow_even x (suc y) (ground arith)))
  | inr odd ↦
      let h = pow_power fuel x (suc y / 2) (omega arith) in
      rw (nonzero y, odd, h, ◌>>=◌) (ap some (pow_odd x (suc y) (ground arith)))
]

-- The value of digits in a base, the lowest first.
abbrev pub digits_value : ℕ → List ℕ → ℕ
digits_value base [] = 0
digits_value base (d ∷ ds) = d + base * digits_value base ds

abbrev pub AllBelow : ℕ → List ℕ → Type 0
AllBelow b [] = Unit {0}
AllBelow b (d ∷ ds) = (d < b) × AllBelow b ds

-- The digits `xs` in front of those in `ds`, which stand lowest first.
abbrev pub onto : List ℕ → List ℕ → List ℕ
onto [] ds = ds
onto (x ∷ xs) ds = onto xs (x ∷ ds)

-- A digit as a character.
abbrev pub digit_char : ℕ → ℕ
digit_char d = d + 48

atoi_step_digit : (k d : ℕ) → d < 10 → atoi_step k (d + 48) ≡ u32 (k * 10 + d)
unfolding atoi_step
atoi_step_digit k d h = ground arith

atoi_loop_digits :
    (fuel : ℕ) (mem : Bytes) (p k : ℕ) (xs ds : List ℕ)
    → AllBelow 10 xs
    → IsString mem p (map digit_char xs)
    → length xs < fuel
    → k ≡ u32 (digits_value 10 ds)
    → atoi_loop fuel mem p k ≡ some (u32 (digits_value 10 (onto xs ds)))
unfolding atoi_loop
atoi_loop_digits zero mem p k xs ds small str enough e = absurd (omega arith)
atoi_loop_digits (suc fuel) mem p k [] ds small str enough e = ground arith
atoi_loop_digits (suc fuel) mem p k (x ∷ xs) ds (lt, small) (at, pos, byte, str) enough e =
    let step : atoi_step k (mem p) ≡ u32 (digits_value 10 (x ∷ ds)) =
      ap (atoi_step k) at ∙ atoi_step_digit k x lt ∙ omega arith in
    let more =
      atoi_loop_digits fuel mem (p + 1) (atoi_step k (mem p)) xs (x ∷ ds) small str (omega arith)
        step in
    ground (arith, more)

-- `atoi` of a string of decimal digits ends and returns the number that they write, modulo 2 ^ 32.
pub atoi_lem :
    (fuel : ℕ) (mem : Bytes) (p : ℕ) (xs : List ℕ)
    → AllBelow 10 xs
    → IsString mem p (map digit_char xs)
    → length xs < fuel
    → atoi fuel mem p ≡ some (u32 (digits_value 10 (onto xs [])))
unfolding atoi
atoi_lem fuel mem p xs small str enough = atoi_loop_digits fuel mem p 0 xs [] small str enough refl

below_ten : (ds : List ℕ) → AllBelow 8 ds → AllBelow 10 ds
below_ten [] h = tt
below_ten (d ∷ ds) (lt, h) = (omega arith, below_ten ds h)

-- If no value is left in base ten, there is none in base eight.
no_digits : (ds : List ℕ) → digits_value 10 ds ≡ 0 → digits_value 8 ds ≡ 0
no_digits [] e = refl
no_digits (d ∷ ds) e = omega (arith, no_digits ds (omega arith))

-- One round of `octal_decimal`: the digit that it takes off, and what is left.
octal_rem : (n d v : ℕ) → d < 8 → n ≡ d + 10 * v → n < 2 ^ 31 → (div_ten n ≡ v) × (rem_ten n ≡ d)
unfolding div_ten rem_ten
octal_rem n d v lt e fits = ground arith

-- The sum after the round, in full.
octal_step :
    (acc d i v : ℕ)
    → u32 (u32 (acc + d * u32 (8 ^ i)) + 8 ^ (i + 1) * v) ≡ u32 (acc + 8 ^ i * (d + 8 * v))
octal_step acc d i v =
    let split : 8 ^ i ≡ u32 (8 ^ i) + 2 ^ 32 * (8 ^ i / 2 ^ 32) = omega arith in
    let next : 8 ^ (i + 1) ≡ 8 * 8 ^ i =
      ap (λ (t : ℕ). 8 ^ t) (let e : i + 1 ≡ suc i = omega arith in e) ∙ pow-succ' 8 i in
    omega (arith, ap (λ (t : ℕ). d * t) split, ap (λ (t : ℕ). t * v) next)

octal_loop_digits :
    (fuel : ℕ) (n acc i : ℕ) (ds : List ℕ)
    → AllBelow 8 ds
    → n ≡ digits_value 10 ds
    → n < 2 ^ 31
    → length ds < fuel
    → acc < 2 ^ 32
    → octal_loop fuel n acc i ≡ some (u32 (acc + 8 ^ i * digits_value 8 ds))
unfolding octal_loop
octal_loop_digits zero n acc i ds small e fits enough word = absurd (omega arith)
octal_loop_digits (suc fuel) n acc i [] small e fits enough word = rw e (ap some (omega arith))
octal_loop_digits (suc fuel) n acc i (d ∷ ds) (lt, small) e fits enough word =
    elim (Bool-cases (n == 0)) [
      | inl over ↦
          let none_left = no_digits (d ∷ ds) (ground arith) in
          rw (over, none_left) (ap some (omega arith))
      | inr more ↦
          let p = pow_power (i + 1) 8 i (omega arith) in
          let r = octal_rem n d (digits_value 10 ds) lt e fits in
          rw (more, p, ◌>>=◌, r.0, r.1)
            (octal_loop_digits fuel (digits_value 10 ds) (u32 (acc + d * u32 (8 ^ i))) (i + 1) ds
                small refl (omega arith) (omega arith) (omega arith)
              ∙ ap some (octal_step acc d i (digits_value 8 ds)))
    ]

-- `octal_decimal` of the number that octal digits write in base ten, if it is an `int`, ends and
-- returns the number that they write in base eight.
octal_decimal_lem :
    (fuel : ℕ) (ds : List ℕ)
    → AllBelow 8 ds
    → digits_value 10 ds < 2 ^ 31
    → length ds < fuel
    → octal_decimal fuel (digits_value 10 ds) ≡ some (u32 (digits_value 8 ds))
unfolding octal_decimal
octal_decimal_lem fuel ds small fits enough =
    octal_loop_digits fuel (digits_value 10 ds) 0 0 ds small refl fits enough (omega arith)
    ∙ ap some (omega arith)

digits_value_le : (ds : List ℕ) → digits_value 8 ds ≤ digits_value 10 ds
digits_value_le [] = omega arith
digits_value_le (d ∷ ds) = omega (arith, digits_value_le ds)

onto-AllBelow : (b : ℕ) (xs ds : List ℕ) → AllBelow b xs → AllBelow b ds → AllBelow b (onto xs ds)
onto-AllBelow b [] ds hx hd = hd
onto-AllBelow b (x ∷ xs) ds (lt, hx) hd = onto-AllBelow b xs (x ∷ ds) hx (lt, hd)

length-onto : (xs ds : List ℕ) → length (onto xs ds) ≡ length xs + length ds
length-onto [] ds = omega arith
length-onto (x ∷ xs) ds = omega (arith, length-onto xs (x ∷ ds))

get_size_same :
    (fuel : ℕ) (mem : Bytes) (p : ℕ)
    → get_size fuel mem p ≡ (atoi fuel mem p >>= octal_decimal fuel)
unfolding get_size atoi octal_decimal
get_size_same fuel mem p = refl

-- The size field of an archive header: `octal_decimal(atoi(s))` of a string of octal digits, whose
-- digits read in base ten fit an `int`, ends and is the number that they write in base eight;
-- `getSize` returns the same.
pub octal_decimal-atoi :
    (fuel : ℕ) (mem : Bytes) (p : ℕ) (xs : List ℕ)
    → AllBelow 8 xs
    → IsString mem p (map digit_char xs)
    → digits_value 10 (onto xs []) < 2 ^ 31
    → length xs < fuel
    → ((atoi fuel mem p >>= octal_decimal fuel) ≡ some (digits_value 8 (onto xs [])))
      × (get_size fuel mem p ≡ some (digits_value 8 (onto xs [])))
octal_decimal-atoi fuel mem p xs small str fits enough =
    let read = atoi_lem fuel mem p xs (below_ten xs small) str enough in
    let whole : u32 (digits_value 10 (onto xs [])) ≡ digits_value 10 (onto xs []) = omega arith in
    let low : u32 (digits_value 8 (onto xs [])) ≡ digits_value 8 (onto xs []) =
      omega (arith, digits_value_le (onto xs [])) in
    let out =
      octal_decimal_lem fuel (onto xs []) (onto-AllBelow 8 xs [] small tt) fits
        (omega (arith, length-onto xs []))
      ∙ ap some low in
    let both : (atoi fuel mem p >>= octal_decimal fuel) ≡ some (digits_value 8 (onto xs [])) =
      rw (read, whole, ◌>>=◌) out in
    (both, get_size_same fuel mem p ∙ both)
