-- ===== src/Text.antt =====
-- The string and number helpers of sys/write.c and sys/math.c, over byte memory: a pointer is the
-- index of a byte, and pointers do not wrap. An `int` is its 32-bit pattern. A loop that runs to a
-- terminator takes fuel, and `none` is a run that has not ended when the fuel is used up.
pub mod Memory
pub mod Strings
pub mod Numbers
mod Tests
use cse508_operating_system.Prelude.{
  ℕ, zero, suc, ◌+◌, ◌-◌, ◌*◌, ◌/◌, ◌%◌, ◌^◌, Bool, true, false, Option, none, some, ltb, ◌==◌,
  if◌then◌else◌, update, u8, u32, u64, ◌<<◌, ◌>>=◌,
}

abbrev pub Bytes : Type 0
Bytes = ℕ → ℕ

-- The loop of `memcpy`, with `count` bytes left.
unfoldable pub copy_loop : (count : ℕ) (mem : Bytes) (dp sp : ℕ) → Bytes
copy_loop zero mem dp sp = mem
copy_loop (suc count) mem dp sp = copy_loop count (update mem dp (mem sp)) (dp + 1) (sp + 1)

unfoldable pub memcpy : Bytes → (dest src count : ℕ) → Bytes × ℕ
unfolding copy_loop
memcpy mem dest src count = (copy_loop count mem dest src, dest)

-- The loop of `memset`.
unfoldable pub set_loop : (count : ℕ) (mem : Bytes) (temp val : ℕ) → Bytes
set_loop zero mem temp val = mem
set_loop (suc count) mem temp val = set_loop count (update mem temp (u8 val)) (temp + 1) val

unfoldable pub memset : Bytes → (dest val count : ℕ) → Bytes × ℕ
unfolding set_loop
memset mem dest val count = (set_loop count mem dest val, dest)

unfoldable pub strlen_loop : ℕ → Bytes → (str len : ℕ) → Option ℕ
strlen_loop zero mem str len = none
strlen_loop (suc fuel) mem str len =
    let rest = strlen_loop fuel mem (str + 1) (u64 (len + 1)) in
    if mem str == 0 then some len else rest

unfoldable pub strlen : ℕ → Bytes → ℕ → Option ℕ
unfolding strlen_loop
strlen fuel mem str = strlen_loop fuel mem str 0

-- At the first difference `s2` is one step ahead and is taken back; the bytes are subtracted as
-- `unsigned char`.
unfoldable pub strcmp : ℕ → Bytes → (s1 s2 : ℕ) → Option ℕ
strcmp zero mem s1 s2 = none
strcmp (suc fuel) mem s1 s2 =
    let rest = strcmp fuel mem (s1 + 1) (s2 + 1) in
    if mem s1 == mem s2
    then if mem s1 == 0 then some 0 else rest
    else some (u32 (mem s1 + 2 ^ 32 - mem s2))

-- A `char` as an `int`: it is signed.
unfoldable pub sign_extend : ℕ → ℕ
sign_extend c = if ltb c 128 then c else c + 2 ^ 32 - 256

-- `(k << 3) + (k << 1) + (*p) - '0'`
unfoldable pub atoi_step : ℕ → ℕ → ℕ
unfolding sign_extend
atoi_step k c = u32 (k << 3 + k << 1 + sign_extend c + 2 ^ 32 - 48)

unfoldable pub atoi_loop : ℕ → Bytes → (p k : ℕ) → Option ℕ
unfolding atoi_step
atoi_loop zero mem p k = none
atoi_loop (suc fuel) mem p k =
    let rest = atoi_loop fuel mem (p + 1) (atoi_step k (mem p)) in
    if mem p == 0 then some k else rest

unfoldable pub atoi : ℕ → Bytes → ℕ → Option ℕ
unfolding atoi_loop
atoi fuel mem p = atoi_loop fuel mem p 0

-- `pow` of sys/math.c, for the exponents from 0 on that its callers pass. It calls itself twice.
unfoldable pub pow : ℕ → (x y : ℕ) → Option ℕ
pow zero x y = none
pow (suc fuel) x y =
    let even : Option ℕ = (do a ← pow fuel x (y / 2); b ← pow fuel x (y / 2); some (u32 (a * b))) in
    let odd : Option ℕ = (do
      a ← pow fuel x (y / 2)
      b ← pow fuel x (y / 2)
      some (u32 (u32 (x * a) * b))) in
    if y == 0 then some 1 else if y % 2 == 0 then even else odd

-- `n / 10` and `n % 10` on an `int`, which round towards 0.
unfoldable pub div_ten : ℕ → ℕ
div_ten n = if ltb n (2 ^ 31) then n / 10 else u32 (2 ^ 32 - (2 ^ 32 - n) / 10)

unfoldable pub rem_ten : ℕ → ℕ
rem_ten n = if ltb n (2 ^ 31) then n % 10 else u32 (2 ^ 32 - (2 ^ 32 - n) % 10)

-- The loop of `octal_decimal`; `pow` gets as much fuel as its exponent asks for.
unfoldable pub octal_loop : ℕ → (n decimal i : ℕ) → Option ℕ
unfolding div_ten rem_ten pow
octal_loop zero n decimal i = none
octal_loop (suc fuel) n decimal i =
    let rest : Option ℕ = (do
      p ← pow (i + 1) 8 i
      octal_loop fuel (div_ten n) (u32 (decimal + rem_ten n * p)) (i + 1)) in
    if n == 0 then some decimal else rest

unfoldable pub octal_decimal : ℕ → ℕ → Option ℕ
unfolding octal_loop
octal_decimal fuel n = octal_loop fuel n 0 0

-- `getSize` repeats the loop of `atoi` and that of `octal_decimal`.
unfoldable pub get_size : ℕ → Bytes → ℕ → Option ℕ
unfolding atoi_loop octal_loop
get_size fuel mem p = do k ← atoi_loop fuel mem p 0; octal_loop fuel k 0 0
