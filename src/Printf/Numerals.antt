-- ===== src/Printf/Numerals.antt =====
-- Reading strings back, and the numbers that the formats of sys/write.c show.
use cse508_operating_system.Prelude.{
  ℕ, zero, suc, ◌+◌, ◌-◌, ◌≤◌, ◌<◌, ◌≡◌, ◌≢◌, refl, ap, ◌∙◌, some, List, [], ◌∷◌, arith, length,
  get_or, false, ◌==◌, ◌>>=◌,
}
use cse508_operating_system.Text.{Bytes}
use cse508_operating_system.Text.Strings.{IsString}
use cse508_operating_system.Text.Numbers.{digits_value, AllBelow}
use cse508_operating_system.Itoa.{digit_text}
use cse508_operating_system.Itoa.Render.{width, Rendered, itoa_lem}
use cse508_operating_system.Printf.{Printing, Sink, text_at, put_number}

-- The characters of the lowest `n` digits, from the highest on.
abbrev pub from_top : ℕ → List ℕ → List ℕ
from_top zero ds = []
from_top (suc n) ds = digit_text (get_or ds n 0) ∷ from_top n ds

-- The text shows the value in the base without leading zeros, but for those that fill it up to 16
-- characters in base 16.
pub record Numeral (value base : ℕ) (text : List ℕ) : Type 0 where
  pub ds : List ℕ
  pub digits : AllBelow base ds
  pub worth : digits_value base ds ≡ value
  pub some_digit : 0 < length ds
  pub lead : value ≢ 0 → 0 < get_or ds (length ds - 1) 0
  pub short : length ds ≤ value + 1
  pub shows : text ≡ from_top (width base ds) ds

pub text_at_lem :
    (fuel : ℕ) (mem : Bytes) (p : ℕ) (xs : List ℕ)
    → IsString mem p xs
    → length xs < fuel
    → text_at fuel mem p ≡ some xs
unfolding text_at
text_at_lem zero mem p xs str enough = absurd (omega arith)
text_at_lem (suc fuel) mem p [] str enough = ground arith
text_at_lem (suc fuel) mem p (x ∷ xs) (at, pos, small, rest) enough =
    let live : (x == 0) ≡ false = ground arith in
    rw (at, live, text_at_lem fuel mem (p + 1) xs rest (omega arith), ◌>>=◌) refl

digit_text-positive : (d : ℕ) → (digit_text d == 0) ≡ false
unfolding digit_text
digit_text-positive d = ground arith

zero_plus : (j : ℕ) → j ≡ 0 + j
zero_plus j = omega arith

-- What stands in the buffer from the digit `n` on.
text_at-Rendered :
    (n fuel value base : ℕ) (buf out : Bytes) (ds : List ℕ)
    → Rendered value base buf 0 ds out
    → n ≤ width base ds
    → n < fuel
    → text_at fuel out (width base ds - n) ≡ some (from_top n ds)
unfolding text_at
text_at-Rendered n zero value base buf out ds r le enough = absurd (omega arith)
text_at-Rendered zero (suc fuel) value base buf out ds r le enough =
    let ends : out (width base ds - 0) ≡ 0 =
      let e : width base ds - 0 ≡ 0 + width base ds = omega arith in rw e r.terminated in
    rw ends refl
text_at-Rendered (suc n) (suc fuel) value base buf out ds r le enough =
    let w : ℕ = width base ds in
    let j : ℕ = w - suc n in
    let place : w - 1 - j ≡ n = omega arith in
    let at : out j ≡ digit_text (get_or ds n 0) =
      ap out (zero_plus j)
      ∙ r.text j (omega arith)
      ∙ ap (λ (i : ℕ). digit_text (get_or ds i 0)) place in
    let next : j + 1 ≡ w - n = omega arith in
    rw
      (
        at,
        digit_text-positive (get_or ds n 0),
        next,
        text_at-Rendered n fuel value base buf out ds r (omega arith) (omega arith),
        ◌>>=◌,
      )
      refl

-- `itoa` into the buffer, and the string that it leaves there printed.
pub put_number_lem :
    {S : Type 0} (sink : Sink S) (fuel : ℕ) (p : Printing S) (value base : ℕ)
    → 2 ≤ base
    → base ≤ 16
    → value + 17 < fuel
    → (text : List ℕ) × (buffer' : Bytes) × (put_number sink fuel p value base
        ≡ some (record p { state = sink.put_text p.state text; buffer = buffer' }))
      × Numeral value base text
unfolding put_number
put_number_lem sink fuel p value base two sixteen enough =
    let (out, ds, ret, r) = itoa_lem fuel value base p.buffer 0 two sixteen (omega arith) in
    let fits : width base ds < fuel = ground (arith, r.short) in
    let at : text_at fuel out 0 ≡ some (from_top (width base ds) ds) =
      ap (text_at fuel out) (zero_less (width base ds))
      ∙ text_at-Rendered (width base ds) fuel value base p.buffer out ds r (omega arith) fits in
    (
      from_top (width base ds) ds,
      out,
      rw (ret, at, ◌>>=◌) refl,
      record {
        ds = ds;
        digits = r.digits;
        worth = r.worth;
        some_digit = r.some_digit;
        lead = r.lead;
        short = r.short;
        shows = refl;
      },
    )
  where
    zero_less : (n : ℕ) → 0 ≡ n - n
    zero_less n = omega arith
