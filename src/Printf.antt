-- ===== src/Printf.antt =====
-- `printf` and `print_cx_cy` of sys/write.c: the walk along a format. The two functions differ in
-- the functions that they print with, and in those only. Every argument takes 64 bits, of which an
-- `int` is the low half; a format that asks for more arguments than there are has no result. `buffer` is an
-- object of its own, in which no string argument lies.
pub mod Numerals
pub mod Pieces
pub mod Loop
pub mod Format
mod Tests
use cse508_operating_system.Prelude.{
  ℕ, zero, suc, ◌+◌, ◌-◌, ◌*◌, ◌%◌, ◌^◌, ◌≡◌, refl, Option, none, some, List, [], ◌∷◌, ◌++◌, ltb,
  ◌==◌, if◌then◌else◌, u8, u32, ◌>>=◌,
}
use cse508_operating_system.Text.{Bytes, sign_extend}
use cse508_operating_system.Itoa.{itoa}
use cse508_operating_system.Pic.{Write}
use cse508_operating_system.Console.{Console, putchar, puts, putchar_cx_cy, puts_cx_cy, move_status}

-- What a format is printed with: a character, and a string.
pub record Sink (S : Type 0) : Type 0 where
  pub put_char : S → ℕ → S
  pub put_text : S → List ℕ → S

-- The console, and what the ports get.
abbrev pub console_sink : Sink (Console × List Write)
console_sink = record {
  put_char = λ s c. let r : Console × List Write = putchar s.0 c in (r.0, s.1 ++ r.1);
  put_text = λ s text. let r : Console × List Write = puts s.0 text in (r.0, s.1 ++ r.1);
}

abbrev pub status_sink : Sink Console
status_sink = record { put_char = putchar_cx_cy; put_text = puts_cx_cy }

-- What is printed so far, `buffer`, the arguments that are left, and `total`.
pub record Printing (S : Type 0) : Type 0 where
  pub state : S
  pub buffer : Bytes
  pub params : List ℕ
  pub total : ℕ

-- The string at `p`.
unfoldable pub text_at : ℕ → Bytes → ℕ → Option (List ℕ)
text_at zero mem p = none
text_at (suc fuel) mem p =
    let rest = text_at fuel mem (p + 1) in
    let more : Option (List ℕ) = (do text ← rest; some (mem p ∷ text)) in
    if mem p == 0 then some [] else more

-- An `int` that is passed as a `uint64_t`: its sign is extended.
unfoldable pub int_to_u64 : ℕ → ℕ
int_to_u64 n = if ltb (u32 n) (2 ^ 31) then u32 n else u32 n + 2 ^ 64 - 2 ^ 32

module _ {S : Type 0} (sink : Sink S) where
  unfoldable pub put_one : Printing S → (ch : ℕ) → Printing S
  put_one p ch = record p { state = sink.put_char p.state ch; total = u32 (p.total + ch) }

  unfoldable pub put_number : ℕ → Printing S → (value base : ℕ) → Option (Printing S)
  put_number fuel p value base = do
    buffer' ← itoa fuel value p.buffer 0 base
    text ← text_at fuel buffer' 0
    some (record p { state = sink.put_text p.state text; buffer = buffer' })

  unfoldable pub put_string : ℕ → Bytes → Printing S → (str : ℕ) → Option (Printing S)
  put_string fuel mem p str = do
    text ← text_at fuel mem str
    some (record p { state = sink.put_text p.state text })

  -- The `switch`, with the argument that a conversion takes.
  unfoldable pub convert : ℕ → Bytes → Printing S → (d v : ℕ) → Option (Printing S)
  convert fuel mem p d v =
      if d == b'c'
      then some (put_one p (u32 v))
      else if d == b'd'
      then put_number fuel p (int_to_u64 v) 10
      else if d == b'x'
      then put_number fuel p (int_to_u64 v) 16
      else if d == b's'
      then put_string fuel mem p v
      else put_number fuel p v 16

  -- `va_arg` before each conversion but the default.
  unfoldable pub directive : ℕ → Bytes → Printing S → (d : ℕ) → Option (Printing S)
  directive fuel mem p d =
      let taken : Option (Printing S) = (elim p.params [
        | [] ↦ none
        | v ∷ rest ↦ convert fuel mem (record p { params = rest }) d v
      ]) in
      if (d == b'c')
      then taken
      else if d == b'd'
      then taken
      else if d == b'x'
      then taken
      else if d == b's'
      then taken
      else if d == b'p'
      then taken
      else some (put_one p (sign_extend d))

  -- The loop, with rounds left.
  unfoldable pub format_loop :
      (rounds fuel : ℕ) → Bytes → (str : ℕ) → Printing S → Option (Printing S)
  format_loop zero fuel mem str p = none
  format_loop (suc rounds) fuel mem str p =
      let plain = format_loop rounds fuel mem (str + 1) (put_one p (sign_extend (mem str))) in
      let special = (do
        q ← directive fuel mem p (mem (str + 1))
        format_loop rounds fuel mem (str + 2) q) in
      if mem str == 0 then some p else if mem str == b'%' then special else plain

-- What `printf` returns is `total`.
unfoldable pub printf :
    (rounds fuel : ℕ)
    → Console
    → (mem buffer : Bytes) (format : ℕ) (params : List ℕ) → Option (Printing (Console × List Write))
printf rounds fuel s mem buffer format params =
    format_loop console_sink rounds fuel mem format
      (record { state = (s, []); buffer = buffer; params = params; total = 0 })

unfoldable pub print_cx_cy :
    (rounds fuel : ℕ)
    → Console
    → (mem buffer : Bytes) (row col format : ℕ) (params : List ℕ) → Option (Printing Console)
print_cx_cy rounds fuel s mem buffer row col format params =
    format_loop status_sink rounds fuel mem format
      (record { state = move_status s row col; buffer = buffer; params = params; total = 0 })
