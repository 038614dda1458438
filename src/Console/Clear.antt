-- ===== src/Console/Clear.antt =====
-- `clrscr` of sys/write.c.
use cse508_operating_system.Prelude.{
  ℕ, zero, suc, ◌+◌, ◌%◌, ◌≤◌, ◌<◌, ◌≡◌, refl, ap, ◌∙◌, arith, List, length, get_or, replicate,
  length-replicate,
}
use cse508_operating_system.Console.{Console, putchar, puts, blank_loop, clrscr}
use cse508_operating_system.Console.Cells.{InText, cell, shown, AllDrawn, Printed, puts_lem}

abbrev blanks : ℕ → List ℕ
blanks n = replicate n 0x20

length-blanks : (n : ℕ) → length (blanks n) ≡ n
length-blanks n = length-replicate {A = ℕ} n 0x20

blank_loop-puts : (n : ℕ) (s : Console) → blank_loop n s ≡ puts s (blanks n)
unfolding blank_loop puts
blank_loop-puts zero s = refl
blank_loop-puts (suc n) s = rw (blank_loop-puts n (putchar s 0x20).0)

blanks-AllDrawn : (n : ℕ) → AllDrawn (blanks n)
blanks-AllDrawn zero = tt
blanks-AllDrawn (suc n) = ((omega arith, omega arith, omega arith, omega arith), blanks-AllDrawn n)

get_or-blanks : (n j : ℕ) → j < n → get_or (blanks n) j 0 ≡ 0x20
get_or-blanks zero j lt = absurd (omega arith)
get_or-blanks (suc n) zero lt = refl
get_or-blanks (suc n) (suc j) lt = get_or-blanks n j (omega arith)

-- Blanks from the first cell on.
blank_loop_lem :
    (n : ℕ) (s : Console) (k : ℕ)
    → cell s ≡ 0
    → InText s
    → n ≤ 1920
    → k < 1920
    → (k < n → shown (blank_loop n s).0 k ≡ 0x20) × (n ≤ k → shown (blank_loop n s).0 k ≡ shown s k)
blank_loop_lem n s k home v fits small =
    let p : Printed s (blanks n) (puts s (blanks n)).0 =
      puts_lem (blanks n) s v (blanks-AllDrawn n) (omega (arith, length-blanks n)) in
    let same : k ≡ (cell s + k) % 1920 = omega arith in
    rw (blank_loop-puts n s) (
      λ lt.
          ap (shown (puts s (blanks n)).0) same
          ∙ p.text k (omega (arith, length-blanks n))
          ∙ get_or-blanks n k lt,
      λ le. p.elsewhere k small (λ j lt e. omega (arith, e, length-blanks n)),
    )

-- `clrscr` puts the cursor in the first cell, shows blanks in the first 1896 of the 1920 cells of
-- the text area, and leaves the other 24 as they were.
pub clrscr_lem :
    (s : Console) (k : ℕ)
    → k < 1920
    → let s' = (clrscr s).0 in
      (cell s' ≡ 0) × (k < 1896 → shown s' k ≡ 0x20) × (1896 ≤ k → shown s' k ≡ shown s k)
unfolding clrscr
clrscr_lem s k small =
    let top : Console = record s { c_x = 0; c_y = 0 } in
    let b =
      blank_loop_lem 1896 top k refl (record { column = omega arith; row = omega arith })
        (omega arith) small in
    (refl, b.0, b.1)
