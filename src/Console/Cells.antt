-- ===== src/Console/Cells.antt =====
-- Text on the console, cell by cell: a cell is a character of the 24 rows that `putchar` uses,
-- counted along the rows.
use mathlib.Core.Path.{subst}
use cse508_operating_system.Prelude.{
  ℕ, zero, suc, ◌+◌, ◌*◌, ◌%◌, ◌≤◌, ◌<◌, ◌≡◌, ◌≢◌, refl, sym, false, ◌∙◌, arith, ◌==◌, List, [],
  ◌∷◌, length, get_or, u8,
}
use cse508_operating_system.Console.{
  Console, text_color, next_row, advance, draw, put, putchar, puts,
}

-- The cursor is in the text area.
pub record InText (s : Console) : Type 0 where
  pub column : s.c_x < 80
  pub row : s.c_y < 24

abbrev pub cell : Console → ℕ
cell s = s.c_y * 80 + s.c_x

-- The character in a cell.
abbrev pub shown : Console → ℕ → ℕ
shown s k = s.screen (2 * k)

-- A byte that `putchar` draws.
abbrev pub Drawn : ℕ → Type 0
Drawn c = (c < 256) × (c ≢ 8) × (c ≢ 9) × (c ≢ 10)

abbrev pub AllDrawn : List ℕ → Type 0
AllDrawn [] = Unit
AllDrawn (c ∷ cs) = Drawn c × AllDrawn cs

-- Drawing one character.
pub record Advanced (s : Console) (c : ℕ) (s' : Console) : Type 0 where
  pub inside : InText s'
  pub next : cell s' ≡ (cell s + 1) % 1920
  pub here : shown s' (cell s) ≡ c
  pub elsewhere : (k : ℕ) → k ≢ cell s → shown s' k ≡ shown s k

pub put-Drawn :
    (s : Console) (c : ℕ)
    → Drawn c
    → put s (u8 c) ≡ advance (record s { screen = draw s.screen s.c_x s.c_y c text_color })
unfolding put
put-Drawn s c (byte, not8, not9, not10) =
    let low : u8 c ≡ c = omega arith in
    let e10 : (c == 10) ≡ false = ground arith in
    let e8 : (c == 8) ≡ false = ground arith in
    let e9 : (c == 9) ≡ false = ground arith in rw (low, e10, e8, e9)

pub advance-InText : (s : Console) → InText s → InText (advance s)
unfolding advance next_row
advance-InText s v = record { column = ground arith; row = ground arith }

cell-advance : (s : Console) → InText s → cell (advance s) ≡ (cell s + 1) % 1920
unfolding advance next_row
cell-advance s v = ground arith

pub screen-advance : (s : Console) (a : ℕ) → (advance s).screen a ≡ s.screen a
unfolding advance next_row
screen-advance s a = ground arith

draw_here : (screen : ℕ → ℕ) (x y c color : ℕ) → draw screen x y c color (2 * (y * 80 + x)) ≡ c
unfolding draw
draw_here screen x y c color = ground arith

draw_elsewhere :
    (screen : ℕ → ℕ) (x y c color k : ℕ)
    → k ≢ y * 80 + x
    → draw screen x y c color (2 * k) ≡ screen (2 * k)
unfolding draw
draw_elsewhere screen x y c color k ne = ground arith

pub put-Advanced : (s : Console) (c : ℕ) → InText s → Drawn c → Advanced s c (put s (u8 c))
put-Advanced s c v drawn =
    let s1 : Console = record s { screen = draw s.screen s.c_x s.c_y c text_color } in
    let v1 : InText s1 = record { column = v.column; row = v.row } in
    subst (Advanced s c) (sym (put-Drawn s c drawn)) (record {
      inside = advance-InText s1 v1;
      next = cell-advance s1 v1;
      here = screen-advance s1 (2 * cell s) ∙ draw_here s.screen s.c_x s.c_y c text_color;
      elsewhere =
          λ k ne. screen-advance s1 (2 * k) ∙ draw_elsewhere s.screen s.c_x s.c_y c text_color k ne;
    })

-- What the console shows behind a text: the text from the old cell on, and the rest as before.
pub record Printed (s : Console) (cs : List ℕ) (s' : Console) : Type 0 where
  pub inside : InText s'
  pub next : cell s' ≡ (cell s + length cs) % 1920
  pub text : (j : ℕ) → j < length cs → shown s' ((cell s + j) % 1920) ≡ get_or cs j 0
  pub elsewhere :
      (k : ℕ)
      → k < 1920
      → ((j : ℕ) → j < length cs → k ≢ (cell s + j) % 1920)
      → shown s' k ≡ shown s k

Printed-cons :
    {s' : Console} (s s1 : Console) (c : ℕ) (cs : List ℕ)
    → InText s
    → length cs < 1920
    → Advanced s c s1
    → Printed s1 cs s'
    → Printed s (c ∷ cs) s'
Printed-cons {s'} s s1 c cs v fits a rest = record {
  inside = rest.inside;
  next = omega (arith, rest.next, a.next);
  text = λ j lt. text_at j lt;
  elsewhere = λ k small out.
      rest.elsewhere k small (λ j lt e. out (suc j) (omega arith) (omega (arith, e, a.next)))
      ∙ a.elsewhere k (λ e. out 0 (omega arith) (omega (arith, e, v.column, v.row)));
}
  where
    text_at : (j : ℕ) → j < length (c ∷ cs) → shown s' ((cell s + j) % 1920) ≡ get_or (c ∷ cs) j 0
    text_at zero lt =
        let at_cell : (cell s + 0) % 1920 ≡ cell s = omega (arith, v.column, v.row) in
        rw at_cell (
          rest.elsewhere (cell s) (omega (arith, v.column, v.row))
            (λ j lt' e. omega (arith, e, a.next, v.column, v.row))
          ∙ a.here)
    text_at (suc j) lt =
        let shift : (cell s + suc j) % 1920 ≡ (cell s1 + j) % 1920 = omega (arith, a.next) in
        rw shift (rest.text j (omega arith))

-- `puts` of at most 1920 drawn characters, with the cursor in the text area, shows them in the cells
-- from the cursor on, behind the last cell from the first on, changes no other cell, and leaves the
-- cursor in the cell behind them.
pub puts_lem :
    (cs : List ℕ) (s : Console)
    → InText s
    → AllDrawn cs
    → length cs ≤ 1920
    → Printed s cs (puts s cs).0
unfolding puts putchar
puts_lem [] s v drawn fits = record {
  inside = v;
  next = omega (arith, v.column, v.row);
  text = λ j lt. absurd (omega arith);
  elsewhere = λ k small out. refl;
}
puts_lem (c ∷ cs) s v (d, ds) fits =
    let a = put-Advanced s c v d in
    let s1 : Console = put s (u8 c) in
    Printed-cons s s1 c cs v (omega arith) a (puts_lem cs s1 a.inside ds (omega arith))
