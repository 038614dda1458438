-- ===== src/Console/Area.antt =====
-- The text area of 24 rows, which `putchar` keeps to but for one case.
use cse508_operating_system.Prelude.{
  bit_and, ℕ, ◌+◌, ◌-◌, ◌/◌, ◌%◌, ◌^◌, ◌≤◌, ◌<◌, ◌≡◌, ◌≢◌, refl, ◌∙◌, ◌⊎◌, inl, inr, arith,
  Bool-cases, leb, ◌==◌, List, [], ◌∷◌, length, u8, u16, true, false,
}
use cse508_operating_system.Prelude.Bits.{bit_and_mask}
use cse508_operating_system.Pic.Remap.{sent}
use cse508_operating_system.Console.{
  Console, columns, text_color, update_cursor_no_type, next_row, advance, draw, put, putchar, puts,
}
use cse508_operating_system.Console.Cells.{
  InText, cell, Drawn, AllDrawn, put-Drawn, advance-InText, screen-advance,
}

-- What holds after a character, where `putchar` keeps to the text area.
pub record Kept (s : Console) (s' : Console) : Type 0 where
  pub inside : InText s'
  pub below : (a : ℕ) → 3840 ≤ a → s'.screen a ≡ s.screen a
  pub status : (s'.timer_x ≡ s.timer_x) × (s'.timer_y ≡ s.timer_y)

next_row-Kept : (s : Console) (x : ℕ) → InText s → x < 80 → Kept s (next_row (record s { c_x = x }))
unfolding next_row
next_row-Kept s x v lt = record {
  inside = record { column = lt; row = ground (arith, v.row) };
  below = λ a h. refl;
  status = (refl, refl);
}

advance-Kept :
    (s : Console) (c : ℕ)
    → InText s
    → Kept s (advance (record s { screen = draw s.screen s.c_x s.c_y c text_color }))
advance-Kept s c v =
    let s1 : Console = record s { screen = draw s.screen s.c_x s.c_y c text_color } in
    record {
      inside = advance-InText s1 (record { column = v.column; row = v.row });
      below = λ a h. screen-advance s1 a ∙ outside a h;
      status = unfold advance next_row in ground arith;
    }
  where
    outside : (a : ℕ) → 3840 ≤ a → draw s.screen s.c_x s.c_y c text_color a ≡ s.screen a
    outside a h = unfold draw in ground (arith, v.column, v.row)

same_place : (s : Console) (x : ℕ) → InText s → x < 80 → Kept s (record s { c_x = x })
same_place s x v lt = record {
  inside = record { column = lt; row = v.row };
  below = λ a h. refl;
  status = (refl, refl);
}

put-Kept : (s : Console) (c : ℕ) → InText s → (c ≢ 9) ⊎ (s.c_x ≢ 72) → Kept s (put s c)
unfolding put
put-Kept s c v ok = elim (Bool-cases (c == 10)) [
  | inl newline ↦ rw newline (next_row-Kept s 0 v (omega arith))
  | inr not10 ↦ elim (Bool-cases (c == 8)) [
    | inl back ↦ elim (Bool-cases (leb 1 s.c_x)) [
      | inl some_left ↦
          rw (not10, back, some_left) (same_place s (s.c_x - 1) v (omega (arith, v.column)))
      | inr none_left ↦ rw (not10, back, none_left) (same_place s s.c_x v v.column)
    ]
    | inr not8 ↦ elim (Bool-cases (c == 9)) [
      | inl tab ↦ elim (Bool-cases (leb (s.c_x + 8) columns)) [
        | inl fits ↦
            rw (not10, not8, tab, fits) (same_place s (s.c_x + 8) v (ground (arith, v.column)))
        | inr wraps ↦
            rw (not10, not8, tab, wraps) (next_row-Kept s ((s.c_x + 8) % columns) v (omega arith))
      ]
      | inr not9 ↦ rw (not10, not8, not9) (advance-Kept s c v)
    ]
  ]
]

low_byte : (p : ℕ) → p < 2 ^ 16 → u8 (bit_and (u16 p) 0xFF) ≡ p % 256
low_byte p h = omega (arith, bit_and_mask 8 (u16 p))

high_byte : (p : ℕ) → p < 2 ^ 16 → u8 (bit_and (u16 p / 2 ^ 8) 0xFF) ≡ p / 256
high_byte p h = omega (arith, bit_and_mask 8 (u16 p / 2 ^ 8))

-- With the cursor in the text area, any character but a tab in column 72 leaves it there, changes
-- nothing in memory behind the text area, and the two bytes that the cursor's data port gets are
-- the low and the high byte of the cell that the cursor is in then.
pub putchar_lem :
    (s : Console) (ch : ℕ)
    → InText s
    → (u8 ch ≢ 9) ⊎ (s.c_x ≢ 72)
    → let r = putchar s ch in
      InText r.0
      × ((a : ℕ) → 3840 ≤ a → r.0.screen a ≡ s.screen a)
      × (sent 0x3D5 r.1 ≡ cell r.0 % 256 ∷ cell r.0 / 256 ∷ [])
unfolding putchar update_cursor_no_type
putchar_lem s ch v ok =
    let k = put-Kept s (u8 ch) v ok in
    let small : cell (put s (u8 ch)) < 2 ^ 16 = omega (arith, k.inside.column, k.inside.row) in
    (
      k.inside,
      k.below,
      rw (low_byte (cell (put s (u8 ch))) small, high_byte (cell (put s (u8 ch))) small),
    )

-- A character that is drawn moves a cursor beyond column 79 one column on.
put_beyond :
    (s : Console) (c : ℕ)
    → 80 ≤ s.c_x
    → Drawn c
    → ((put s (u8 c)).c_x ≡ s.c_x + 1) × ((put s (u8 c)).c_y ≡ s.c_y)
put_beyond s c out drawn = rw (put-Drawn s c drawn) (
    let not_last : (s.c_x + 1 == columns) ≡ false = ground arith in
    unfold advance in rw not_last (refl, refl))

puts_all_beyond :
    (s : Console) (cs : List ℕ)
    → 80 ≤ s.c_x
    → AllDrawn cs
    → ((puts s cs).0.c_x ≡ s.c_x + length cs) × ((puts s cs).0.c_y ≡ s.c_y)
unfolding puts putchar
puts_all_beyond s [] out drawn = (omega arith, refl)
puts_all_beyond s (c ∷ cs) out (d, ds) =
    let one = put_beyond s c out d in
    let rest = puts_all_beyond (put s (u8 c)) cs (omega (arith, one.0)) ds in
    (omega (arith, rest.0, one.0), rest.1 ∙ one.1)

-- A tab in column 72 leaves the cursor in column 80, outside the row, and from there on no
-- character that is drawn brings it back: each only moves it one column on.
pub puts_beyond :
    (s : Console) (cs : List ℕ)
    → s.c_x ≡ 72
    → AllDrawn cs
    → let s' = (puts s (9 ∷ cs)).0 in (s'.c_x ≡ 80 + length cs) × (s'.c_y ≡ s.c_y)
unfolding puts putchar put
puts_beyond s cs at_72 drawn =
    let fits : leb (s.c_x + 8) columns ≡ true = ground arith in
    let rest = puts_all_beyond (record s { c_x = s.c_x + 8 }) cs (omega arith) drawn in
    rw fits (omega (arith, rest.0), rest.1)
