-- ===== src/Itoa/Render.antt =====
-- The text that `itoa` leaves in its buffer.
use cse508_operating_system.Prelude.{
  ℕ, zero, suc, ◌+◌, ◌-◌, ◌≤◌, ◌<◌, ◌≡◌, ◌≢◌, ◌⊎◌, inl, inr, refl, ap, ◌∙◌, sym, some, List, [],
  ◌∷◌, map, arith, ltb, leb, ◌==◌, ◌&&◌, false, if◌then◌else◌, update, length, get_or, dec_lt,
  update_ne,
}
use cse508_operating_system.Text.{Bytes}
use cse508_operating_system.Text.Numbers.{digits_value, AllBelow}
use cse508_operating_system.Itoa.{digit_text, itoa_pad, reverse_loop, itoa}
use cse508_operating_system.Itoa.Reverse.{reverse_loop_at}
use cse508_operating_system.Itoa.Digits.{Stands, Written, length-map_text, itoa_digits_lem}

get_or-map_text :
    (ds : List ℕ) (j : ℕ)
    → j < length ds
    → get_or (map digit_text ds) j 0 ≡ digit_text (get_or ds j 0)
get_or-map_text [] j lt = absurd (omega arith)
get_or-map_text (d ∷ ds) zero lt = refl
get_or-map_text (d ∷ ds) (suc j) lt = get_or-map_text ds j (omega arith)

get_or_beyond : (ds : List ℕ) (j : ℕ) → length ds ≤ j → get_or ds j 0 ≡ 0
get_or_beyond [] j le = refl
get_or_beyond (d ∷ ds) zero le = absurd (omega arith)
get_or_beyond (d ∷ ds) (suc j) le = get_or_beyond ds j (omega arith)

itoa_pad_at :
    (n : ℕ) (buf : Bytes) (ptr a : ℕ)
    → itoa_pad n buf ptr a ≡ (if leb ptr a && ltb a (ptr + n) then 48 else buf a)
unfolding itoa_pad
itoa_pad_at zero buf ptr a = ground arith
itoa_pad_at (suc n) buf ptr a = ground (arith, itoa_pad_at n (update buf ptr 48) (ptr + 1) a)

-- The number of characters: in base 16 at least 16.
abbrev pub width : (base : ℕ) (ds : List ℕ) → ℕ
width base ds = length ds + (if base == 16 then 16 - length ds else 0)

-- The buffer holds the digits `ds` of the value, without leading zeros, written from the highest to the lowest, with zeros
-- in front up to the width, and a terminator; what stands before `str` is as it was.
pub record Rendered (value base : ℕ) (buf : Bytes) (str : ℕ) (ds : List ℕ) (out : Bytes)
    : Type 0 where
  pub digits : AllBelow base ds
  pub worth : digits_value base ds ≡ value
  pub some_digit : 0 < length ds
  pub lead : value ≢ 0 → 0 < get_or ds (length ds - 1) 0
  pub short : length ds ≤ value + 1
  pub text :
      (j : ℕ) → j < width base ds → out (str + j) ≡ digit_text (get_or ds (width base ds - 1 - j) 0)
  pub terminated : out (str + width base ds) ≡ 0
  pub before : (a : ℕ) → a < str → out a ≡ buf a

-- The buffer before it is turned round.
abbrev padded : Bytes → (ptr pad : ℕ) → Bytes
padded buf ptr pad = update (itoa_pad pad buf ptr) (ptr + pad) 0

padded_text :
    (r : Bytes) (str pad : ℕ) (ds : List ℕ) (j : ℕ)
    → Stands r str (map digit_text ds)
    → j < length ds + pad
    → padded r (str + length ds) pad (str + j) ≡ digit_text (get_or ds j 0)
padded_text r str pad ds j stands lt =
    update_ne (itoa_pad pad r (str + length ds)) (str + length ds + pad) (str + j) 0 (omega arith)
    ∙ itoa_pad_at pad r (str + length ds) (str + j)
    ∙ elim (dec_lt j (length ds)) [
      | yes inside ↦
          let front : (if leb (str + length ds) (str + j) && ltb (str + j) (str + length ds + pad)
                then 48
                else r (str + j))
              ≡ r (str + j) =
            ground arith in
          front ∙ stands j (omega (arith, length-map_text ds)) ∙ get_or-map_text ds j inside
      | no beyond ↦
          let zeros : (if leb (str + length ds) (str + j) && ltb (str + j) (str + length ds + pad)
                then 48
                else r (str + j))
              ≡ 48 =
            ground arith in
          zeros ∙ digit_zero ∙ ap digit_text (sym (get_or_beyond ds j (omega arith)))
    ]
  where
    digit_zero : 48 ≡ digit_text 0
    digit_zero = unfold digit_text in refl

padded_before : (r : Bytes) (ptr pad a : ℕ) → a < ptr → padded r ptr pad a ≡ r a
padded_before r ptr pad a lt =
    update_ne (itoa_pad pad r ptr) (ptr + pad) a 0 (omega arith)
    ∙ itoa_pad_at pad r ptr a
    ∙ ground arith

terminator : (r : Bytes) (ptr pad a : ℕ) → ptr + pad ≡ a → padded r ptr pad a ≡ 0
terminator r ptr pad a e = ground arith

mirror_inside :
    (line : Bytes) (str end n j : ℕ)
    → end ≡ str + n
    → j < n
    → (if leb str (str + j) && leb (str + j) (end - 1)
        then line (str + (end - 1) - (str + j))
        else line (str + j))
      ≡ line (str + (n - 1 - j))
mirror_inside line str end n j e lt = ground arith

mirror_outside :
    (line : Bytes) (str end a : ℕ)
    → (a < str) ⊎ (end - 1 < a)
    → (if leb str a && leb a (end - 1) then line (str + (end - 1) - a) else line a) ≡ line a
mirror_outside line str end a out = ground arith

-- Turning the padded digits round.
turned :
    (value base : ℕ) (buf : Bytes) (str : ℕ) (r : Bytes × ℕ × ℕ) (ds : List ℕ) (pad : ℕ)
    → Written base value buf str 0 r ds
    → length ds + pad ≡ width base ds
    → Rendered value base buf str ds (
        reverse_loop
          (str + length ds + pad)
          str
          (str + length ds + pad - 1)
          (padded r.0 (str + length ds) pad))
turned value base buf str r ds pad w whole =
    let n : ℕ = width base ds in
    let end : ℕ = str + length ds + pad in
    let line : Bytes = padded r.0 (str + length ds) pad in
    let last : end ≡ str + n = omega arith in
    let back : (a : ℕ)
        → reverse_loop end str (end - 1) line a
          ≡ (if leb str a && leb a (end - 1) then line (str + (end - 1) - a) else line a) =
      λ a. reverse_loop_at end str (end - 1) line a (omega arith) in
    record {
      digits = w.digits;
      worth = w.worth;
      some_digit = w.some_digit;
      lead = w.lead;
      short = w.short;
      text = λ j lt.
          back (str + j)
          ∙ mirror_inside line str end n j last lt
          ∙ padded_text r.0 str pad ds (n - 1 - j) w.stands (omega arith);
      terminated =
          back (str + n)
          ∙ mirror_outside line str end (str + n) (inr (omega (arith, w.some_digit)))
          ∙ terminator r.0 (str + length ds) pad (str + n) last;
      before = λ a lt.
          back a
          ∙ mirror_outside line str end a (inl lt)
          ∙ padded_before r.0 (str + length ds) pad a (omega arith)
          ∙ w.before a lt;
    }

pub itoa_lem :
    (fuel value base : ℕ) (buf : Bytes) (str : ℕ)
    → 2 ≤ base
    → base ≤ 16
    → value < fuel
    → (out : Bytes) × (ds : List ℕ) × (itoa fuel value buf str base ≡ some out)
      × Rendered value base buf str ds out
unfolding itoa
itoa_lem fuel value base buf str two sixteen enough =
    let written = itoa_digits_lem fuel value base buf str 0 two enough in
    let r : Bytes × ℕ × ℕ = written.0 in
    let ds : List ℕ = written.1 in
    let ptr : ℕ = str + length ds in
    let pad : ℕ = if base == 16 then 16 - (0 + length ds) else 0 in
    let low : ltb base 2 ≡ false = ground arith in
    let high : ltb 16 base ≡ false = ground arith in
    let unsigned : ltb value 0 ≡ false = ground arith in
    let start : str - str ≡ 0 = omega arith in
    let whole : length ds + pad ≡ width base ds = ground arith in
    (
      reverse_loop (ptr + pad) str (ptr + pad - 1) (padded r.0 ptr pad),
      ds,
      rw (low, high, unsigned, start, written.2, written.3.pointer, written.3.counted) refl,
      turned value base buf str r ds pad written.3 whole,
    )
