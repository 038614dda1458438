-- ===== src/Printf/Format.antt =====
-- `printf` and `print_cx_cy` of sys/write.c as a whole.
use mathlib.Core.List.{append_assoc, append-nil}
use mathlib.Core.Path.{subst}
use cse508_operating_system.Prelude.{
  ℕ, zero, suc, ◌+◌, ◌<◌, ◌≡◌, refl, ap, sym, some, List, [], ◌∷◌, ◌++◌, arith, length, false, ◌==◌,
  u8,
}
use cse508_operating_system.Pic.{Write}
use cse508_operating_system.Console.{
  Console, draw, status_color, put, update_cursor_no_type, putchar, puts, putchar_cx_cy, puts_cx_cy,
  move_status,
}
use cse508_operating_system.Text.{Bytes, sign_extend}
use cse508_operating_system.Text.Strings.{IsString}
use cse508_operating_system.Printf.{
  Sink, Printing, put_one, format_loop, console_sink, status_sink, printf, print_cx_cy,
}
use cse508_operating_system.Printf.Pieces.{
  Piece, plain, character, decimal, hex, pointer, string, other, Fits, IsSink, plain-Step,
  other-Steps, character-Steps, string-Steps,
}
use cse508_operating_system.Printf.Loop.{
  source_all, args_all, FitsAll, ShowsAll, counted_all, Printed, Printed-cons, decimal-Steps,
  hex-Steps, pointer-Steps, special_round,
}

two_on :
    (mem : Bytes) (str : ℕ) (xs : List ℕ)
    → IsString mem (str + 1 + 1) xs
    → IsString mem (str + 2) xs
two_on mem str xs = subst (λ (a : ℕ). IsString mem a xs) (omega arith)

module _ {S : Type 0} (sink : Sink S) (ok : IsSink sink) where
  -- The loop runs to the end of the pieces.
  abbrev Runs : (pieces : List Piece) (rounds fuel : ℕ) (mem : Bytes) (rest : List ℕ) → Type 0
  Runs pieces rounds fuel mem rest =
      (str : ℕ) (p : Printing S)
      → IsString mem str (source_all pieces)
      → p.params ≡ args_all pieces ++ rest
      → (q : Printing S) × (format_loop sink rounds fuel mem str p ≡ some q)
        × Printed sink pieces p rest q

  plain_round :
      (c : ℕ) (xs : List Piece) (rounds fuel : ℕ) (mem : Bytes) (rest : List ℕ)
      → Fits fuel mem (plain c)
      → Runs xs rounds fuel mem rest
      → Runs (plain c ∷ xs) (suc rounds) fuel mem rest
  unfolding format_loop
  plain_round c xs rounds fuel mem rest (ne, lt) ih str p (at, pos, small, more) e =
      let live : (c == 0) ≡ false = ground arith in
      let not_percent : (c == b'%') ≡ false = ground arith in
      let step = plain-Step sink ok p c (args_all xs ++ rest) lt e in
      let q : Printing S = put_one sink p (sign_extend c) in
      let (r, later, done) = ih (str + 1) q more step.params in
      (
        r,
        rw (at, live, not_percent) later,
        Printed-cons sink ok (plain c) xs p q r rest (c ∷ []) step done,
      )

  piece_round :
      (x : Piece) (xs : List Piece) (rounds fuel : ℕ) (mem : Bytes) (rest : List ℕ)
      → Fits fuel mem x
      → Runs xs rounds fuel mem rest
      → Runs (x ∷ xs) (suc rounds) fuel mem rest
  piece_round (plain c) xs rounds fuel mem rest fit ih str p at e =
      plain_round c xs rounds fuel mem rest fit ih str p at e
  piece_round (character v) xs rounds fuel mem rest fit ih str p
        (at, pos, small, (at1, pos1, small1, more)) e =
      special_round sink ok (character v) xs rounds fuel mem str b'c' p rest at at1
        (character-Steps sink ok fuel mem p v (args_all xs ++ rest) e)
        (λ q. ih (str + 2) q (two_on mem str (source_all xs) more))
  piece_round (decimal v) xs rounds fuel mem rest fit ih str p
        (at, pos, small, (at1, pos1, small1, more)) e =
      special_round sink ok (decimal v) xs rounds fuel mem str b'd' p rest at at1
        (decimal-Steps sink ok fuel mem p v (args_all xs ++ rest) fit e)
        (λ q. ih (str + 2) q (two_on mem str (source_all xs) more))
  piece_round (hex v) xs rounds fuel mem rest fit ih str p
        (at, pos, small, (at1, pos1, small1, more)) e =
      special_round sink ok (hex v) xs rounds fuel mem str b'x' p rest at at1
        (hex-Steps sink ok fuel mem p v (args_all xs ++ rest) fit e)
        (λ q. ih (str + 2) q (two_on mem str (source_all xs) more))
  piece_round (pointer v) xs rounds fuel mem rest fit ih str p
        (at, pos, small, (at1, pos1, small1, more)) e =
      special_round sink ok (pointer v) xs rounds fuel mem str b'p' p rest at at1
        (pointer-Steps sink ok fuel mem p v (args_all xs ++ rest) fit e)
        (λ q. ih (str + 2) q (two_on mem str (source_all xs) more))
  piece_round (string v text) xs rounds fuel mem rest (there, short) ih str p
        (at, pos, small, (at1, pos1, small1, more)) e =
      special_round sink ok (string v text) xs rounds fuel mem str b's' p rest at at1
        (string-Steps sink ok fuel mem p v text (args_all xs ++ rest) there short e)
        (λ q. ih (str + 2) q (two_on mem str (source_all xs) more))
  piece_round (other d) xs rounds fuel mem rest fit ih str p
        (at, pos, small, (at1, pos1, small1, more)) e =
      special_round sink ok (other d) xs rounds fuel mem str d p rest at at1
        (other-Steps sink ok fuel mem p d (args_all xs ++ rest) fit e)
        (λ q. ih (str + 2) q (two_on mem str (source_all xs) more))

  pub format_loop-Printed :
      (pieces : List Piece) (rounds fuel : ℕ) (mem : Bytes) (rest : List ℕ)
      → FitsAll fuel mem pieces
      → length pieces < rounds
      → Runs pieces rounds fuel mem rest
  unfolding format_loop
  format_loop-Printed pieces zero fuel mem rest fits enough str p at e = absurd (omega arith)
  format_loop-Printed [] (suc rounds) fuel mem rest fits enough str p at e = (
    p,
    rw at refl,
    record { text = []; shows = refl; state = sym (ok.nil p.state); params = e; total = refl },
  )
  format_loop-Printed (x ∷ xs) (suc rounds) fuel mem rest (fit, fits) enough str p at e =
      piece_round x xs rounds fuel mem rest fit
        (format_loop-Printed xs rounds fuel mem rest fits (omega arith)) str p at e

console_sink-IsSink : IsSink console_sink
unfolding puts putchar update_cursor_no_type
console_sink-IsSink = record {
  bytes = λ s ch.
      (let e : u8 ch ≡ u8 (u8 ch) = omega arith in
        ap (λ (c : ℕ). (put s.0 c, s.1 ++ update_cursor_no_type (put s.0 c))) e);
  nil = λ s. ap (λ (w : List Write). (s.0, w)) (append-nil s.1);
  cons = λ s c cs.
      (let s1 : Console = put s.0 (u8 c) in
        let rest : Console × List Write = puts s1 cs in
        ap (λ (w : List Write). (rest.0, w))
          (sym (append_assoc s.1 (update_cursor_no_type s1) rest.1)));
}

status_sink-IsSink : IsSink status_sink
unfolding puts_cx_cy putchar_cx_cy
status_sink-IsSink = record {
  bytes = λ s ch.
      (let e : u8 ch ≡ u8 (u8 ch) = omega arith in
        ap
          (λ (c : ℕ). record s {
            screen = draw s.screen s.timer_x s.timer_y c status_color;
            timer_x = s.timer_x + 1;
          })
          e);
  nil = λ s. refl;
  cons = λ s c cs. refl;
}

pub printf-Printed :
    (pieces : List Piece) (rounds fuel : ℕ) (s : Console) (mem buffer : Bytes) (format : ℕ)
    (rest : List ℕ)
    → IsString mem format (source_all pieces)
    → FitsAll fuel mem pieces
    → length pieces < rounds
    → (q : Printing (Console × List Write)) × (text : List ℕ) × (printf rounds fuel s mem buffer
          format
          (args_all pieces ++ rest)
        ≡ some q)
      × ShowsAll pieces text
      × (q.state ≡ puts s text)
      × (q.total ≡ counted_all pieces 0)
unfolding printf
printf-Printed pieces rounds fuel s mem buffer format rest at fits enough =
    let (q, ret, done) =
      format_loop-Printed console_sink console_sink-IsSink pieces rounds fuel mem rest fits enough
        format
        (record { state = (s, []); buffer = buffer; params = args_all pieces ++ rest; total = 0 })
        at refl in
    (q, done.text, ret, done.shows, done.state, done.total)

-- `print_cx_cy` shows what `printf` shows of the same format, in the status color from the place
-- that it is given, as `puts_cx_cy` does.
pub print_cx_cy-Printed :
    (pieces : List Piece) (rounds fuel : ℕ) (s : Console) (mem buffer : Bytes) (row col format : ℕ)
    (rest : List ℕ)
    → IsString mem format (source_all pieces)
    → FitsAll fuel mem pieces
    → length pieces < rounds
    → (q : Printing Console) × (text : List ℕ) × (print_cx_cy rounds fuel s mem buffer row col
          format
          (args_all pieces ++ rest)
        ≡ some q)
      × ShowsAll pieces text
      × (q.state ≡ puts_cx_cy (move_status s row col) text)
      × (q.total ≡ counted_all pieces 0)
unfolding print_cx_cy
print_cx_cy-Printed pieces rounds fuel s mem buffer row col format rest at fits enough =
    let (q, ret, done) =
      format_loop-Printed status_sink status_sink-IsSink pieces rounds fuel mem rest fits enough
        format
        (record {
          state = move_status s row col;
          buffer = buffer;
          params = args_all pieces ++ rest;
          total = 0;
        })
        at refl in
    (q, done.text, ret, done.shows, done.state, done.total)
