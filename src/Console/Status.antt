-- ===== src/Console/Status.antt =====
-- The status line of sys/write.c, below the text area.
use cse508_operating_system.Prelude.{
  ℕ, zero, suc, ◌+◌, ◌*◌, ◌<◌, ◌≡◌, refl, ◌∙◌, arith, List, [], ◌∷◌, length, get_or,
}
use cse508_operating_system.Console.{Console, draw, putchar_cx_cy, puts_cx_cy}
use cse508_operating_system.Console.Cells.{cell, shown, AllDrawn}

-- Drawing one character of the status line.
pub status_here :
    (s : Console) (c : ℕ)
    → c < 256
    → s.timer_y ≡ 24
    → shown (putchar_cx_cy s c) (1920 + s.timer_x) ≡ c
unfolding putchar_cx_cy draw
status_here s c byte at_row = ground arith

pub status_before :
    (s : Console) (c a : ℕ)
    → s.timer_y ≡ 24
    → a < 3840 + 2 * s.timer_x
    → (putchar_cx_cy s c).screen a ≡ s.screen a
unfolding putchar_cx_cy draw
status_before s c a at_row lt = ground arith

-- A status text in the row below the text area is shown from its place on, and changes nothing in
-- front of that place, the text area included; the cursor stays.
pub puts_cx_cy_lem :
    (cs : List ℕ) (s : Console)
    → AllDrawn cs
    → s.timer_y ≡ 24
    → let s' = puts_cx_cy s cs in
      ((j : ℕ) → j < length cs → shown s' (1920 + s.timer_x + j) ≡ get_or cs j 0)
      × ((a : ℕ) → a < 3840 + 2 * s.timer_x → s'.screen a ≡ s.screen a)
      × (cell s' ≡ cell s)
unfolding puts_cx_cy
puts_cx_cy_lem [] s drawn at_row = (λ j lt. absurd (omega arith), λ a lt. refl, refl)
puts_cx_cy_lem (c ∷ cs) s (d, ds) at_row =
    let s1 : Console = putchar_cx_cy s c in
    let moved : s1.timer_x ≡ s.timer_x + 1 = unfold putchar_cx_cy in refl in
    let row1 : s1.timer_y ≡ 24 = unfold putchar_cx_cy in at_row in
    let same : cell s1 ≡ cell s = unfold putchar_cx_cy in refl in
    let rest = puts_cx_cy_lem cs s1 ds row1 in
    (
      text_at (puts_cx_cy s1 cs) rest.0
          (rest.1 (2 * (1920 + s.timer_x)) (omega arith) ∙ status_here s c d.0 at_row),
      λ a lt. rest.1 a (omega arith) ∙ status_before s c a at_row lt,
      rest.2 ∙ same,
    )
  where
    text_at :
        (s' : Console)
        → ((j : ℕ) → j < length cs → shown s' (1920 + (s.timer_x + 1) + j) ≡ get_or cs j 0)
        → shown s' (1920 + s.timer_x) ≡ c
        → (j : ℕ) → j < length (c ∷ cs)
        → shown s' (1920 + s.timer_x + j) ≡ get_or (c ∷ cs) j 0
    text_at s' behind here zero lt =
        let z : 1920 + s.timer_x + 0 ≡ 1920 + s.timer_x = omega arith in rw z here
    text_at s' behind here (suc j) lt =
        let z : 1920 + s.timer_x + suc j ≡ 1920 + (s.timer_x + 1) + j = omega arith in
        rw z (behind j (omega arith))
