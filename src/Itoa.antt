-- ===== src/Itoa.antt =====
-- `itoa` of sys/write.c: a number as text, written into a buffer of bytes and turned round in place.
-- Each loop runs on fuel; `none` is a run that has not ended when the fuel is used up.
pub mod Reverse
pub mod Digits
pub mod Render
mod Tests
use cse508_operating_system.Prelude.{
  ℕ, zero, suc, ◌+◌, ◌-◌, ◌*◌, ◌/◌, ◌%◌, ◌^◌, Bool, Option, none, some, ltb, leb, ◌==◌, ◌&&◌, ◌||◌,
  if◌then◌else◌, update, ◌>>=◌,
}
use cse508_operating_system.Text.{Bytes}

-- `(char)d + '0'` up to 9, `(char)d + 'a' - 10` above.
unfoldable pub digit_text : ℕ → ℕ
digit_text d = if leb d 9 then d + 48 else d + 97 - 10

-- The `do ... while (value)` loop: the buffer, `ptr` and `count` behind it.
unfoldable pub itoa_digits : ℕ → (value base : ℕ) → Bytes → (ptr count : ℕ) → Option (Bytes × ℕ × ℕ)
itoa_digits zero value base buf ptr count = none
itoa_digits (suc fuel) value base buf ptr count =
    let buf' : Bytes = update buf ptr (digit_text (value % base)) in
    let rest = itoa_digits fuel (value / base) base buf' (ptr + 1) (count + 1) in
    if value / base == 0 then some (buf', ptr + 1, count + 1) else rest

-- `while (count++ < 16 && base == 16) *ptr++ = '0'`, with the rounds left.
unfoldable pub itoa_pad : ℕ → Bytes → ℕ → Bytes
itoa_pad zero buf ptr = buf
itoa_pad (suc n) buf ptr = itoa_pad n (update buf ptr 48) (ptr + 1)

-- The swaps from both ends.
unfoldable pub reverse_loop : ℕ → (low ptr : ℕ) → Bytes → Bytes
reverse_loop zero low ptr buf = buf
reverse_loop (suc fuel) low ptr buf =
    let rest =
      reverse_loop fuel (low + 1) (ptr - 1) (update (update buf low (buf ptr)) ptr (buf low)) in
    if ltb low ptr then rest else buf

-- `value` is a `uint64_t`, so that the test for a sign never passes.
unfoldable pub itoa : ℕ → (value : ℕ) → Bytes → (str base : ℕ) → Option Bytes
unfolding itoa_digits itoa_pad reverse_loop
itoa fuel value buf str base =
    let negative : Bool = ltb value 0 && base == 10 in
    let low : ℕ = if negative then str + 1 else str in
    let start : Bytes = if negative then update buf str 45 else buf in
    let written : Option Bytes = (do
      (buf1, ptr, count) ← itoa_digits fuel value base start low (low - str)
      let pad : ℕ = if base == 16 then 16 - count else 0
      let buf2 : Bytes = update (itoa_pad pad buf1 ptr) (ptr + pad) 0
      some (reverse_loop (ptr + pad) low (ptr + pad - 1) buf2)) in
    if ltb base 2 || ltb 16 base then some (update buf str 0) else written
