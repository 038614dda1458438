-- ===== src/Keyboard/Shown.antt =====
-- What the screen shows after a key.
use mathlib.Core.Path.{subst, ap₂}
use cse508_operating_system.Prelude.{
  ℕ, ◌+◌, ◌*◌, ◌/◌, ◌%◌, ◌^◌, ◌<◌, ◌≡◌, ◌≢◌, refl, ap, sym, ◌∙◌, Bool, true, false, some, List, [],
  ◌∷◌, arith, ◌==◌, ltb, ◌||◌, ◌&&◌, u8, ℕ_discrete, inl, inr, ◌⊎◌, ◌>>=◌,
}
use cse508_operating_system.Prelude.Bits.{holds_below, holds_below-true}
use cse508_operating_system.Pic.{Write}
use cse508_operating_system.Text.{Bytes}
use cse508_operating_system.Text.Strings.{IsString}
use cse508_operating_system.Console.{
  Console, put, putchar, puts, next_row, putchar_cx_cy, puts_cx_cy, move_status,
}
use cse508_operating_system.Console.Cells.{InText, cell, shown, Drawn, Advanced, put-Advanced}
use cse508_operating_system.Console.Status.{status_here, status_before}
use cse508_operating_system.Printf.{Printing, print_cx_cy, printf}
use cse508_operating_system.Printf.Pieces.{character}
use cse508_operating_system.Printf.Loop.{ShowsAll}
use cse508_operating_system.Printf.Format.{printf-Printed, print_cx_cy-Printed}
use cse508_operating_system.Keyboard.{kbc_irq, kbcsc_leftshift, kbcsc_rightshift}
use cse508_operating_system.Keyboard.Layout.{key_in, rows}
use cse508_operating_system.Keyboard.Held.{shift_after, held, kbc_irq_lem}
use cse508_operating_system.Keyboard.Echo.{show_key, kbc_echo}

-- The character stands in the status line and, unless it is the line feed, in the cell of the
-- cursor, which goes to the next cell, or to the next row; the other cells of the text area are as
-- before.
pub record Echoed (s : Console) (c : ℕ) (s' : Console) : Type 0 where
  pub inside : InText s'
  pub status : shown s' (1920 + 52) ≡ c
  pub here : c ≢ 10 → (shown s' (cell s) ≡ c) × (cell s' ≡ (cell s + 1) % 1920)
  pub next_line : c ≡ 10 → cell s' ≡ (cell s / 80 + 1) % 24 * 80
  pub elsewhere : (k : ℕ) → k < 1920 → (c ≢ 10 → k ≢ cell s) → shown s' k ≡ shown s k

-- "%c"
abbrev pub one_character : List ℕ
one_character = b'%' ∷ b'c' ∷ []

-- No character, a line feed, or a character from the blank on.
abbrev is_echoed : ℕ → Bool
is_echoed c = c == 0 || c == 10 || (ltb 31 c && ltb c 127)

echoed_plain : holds_below 256 (λ b. is_echoed (key_in rows b false)) ≡ true
unfolding holds_below
echoed_plain = refl

echoed_shifted : holds_below 256 (λ b. is_echoed (key_in rows b true)) ≡ true
unfolding holds_below
echoed_shifted = refl

-- A key writes nothing, a line feed, or a drawn character.
key_in_cases :
    (b : ℕ) (shift : Bool)
    → b < 256
    → (key_in rows b shift ≡ 0) ⊎ (key_in rows b shift ≡ 10) ⊎ Drawn (key_in rows b shift)
key_in_cases b shift byte =
    let ok : is_echoed (key_in rows b shift) ≡ true = tested shift in cases (key_in rows b shift) ok
  where
    tested : (s : Bool) → is_echoed (key_in rows b s) ≡ true
    tested true = holds_below-true 256 _ echoed_shifted b byte
    tested false = holds_below-true 256 _ echoed_plain b byte

    cases : (c : ℕ) → is_echoed c ≡ true → (c ≡ 0) ⊎ (c ≡ 10) ⊎ Drawn c
    cases c ok = elim (ℕ_discrete c 0) [
      | yes z ↦ inl z
      | no nz ↦ elim (ℕ_discrete c 10) [
        | yes ten ↦ inr (inl ten)
        | no other ↦ inr (inr (ground arith, ground arith, ground arith, other))
      ]
    ]

-- The console after the status line shows `c`.
abbrev marked : Console → ℕ → Console
marked s c = putchar_cx_cy (move_status s 52 24) c

shows_one : (c : ℕ) (text : List ℕ) → c < 256 → ShowsAll (character c ∷ []) text → text ≡ c ∷ []
shows_one c text byte (first, rest, cut, one, none) =
    let low : c % 2 ^ 8 ≡ c = omega arith in cut ∙ rw (one, none, low) refl

show_key_steps :
    (rounds fuel : ℕ) (mem buffer : Bytes) (status text : ℕ) (s : Console) (c : ℕ)
    (p : Printing Console) (q : Printing (Console × List Write))
    → c ≢ 0
    → print_cx_cy rounds fuel s mem buffer 52 24 status (c ∷ []) ≡ some p
    → printf rounds fuel p.state mem p.buffer text (c ∷ []) ≡ some q
    → show_key rounds fuel mem buffer status text s c ≡ some q.state
unfolding show_key
show_key_steps rounds fuel mem buffer status text s c p q some_key first second =
    let nz : (c == 0) ≡ false = ground arith in rw (nz, first, second, ◌>>=◌) refl

-- The two calls end, the console and the port writes are those of `putchar`.
show_key-putchar :
    (rounds fuel : ℕ) (mem buffer : Bytes) (status text : ℕ) (s : Console) (c : ℕ)
    → c < 256
    → c ≢ 0
    → IsString mem status one_character
    → IsString mem text one_character
    → 1 < rounds
    → (writes : List Write) × (show_key rounds fuel mem buffer status text s c
        ≡ some (put (marked s c) (u8 c), writes))
unfolding puts putchar puts_cx_cy
show_key-putchar rounds fuel mem buffer status text s c byte some_key at_status at_text enough =
    let (p, line, shown_there, all, marked_there, total) =
      print_cx_cy-Printed (character c ∷ []) rounds fuel s mem buffer 52 24 status [] at_status
        (tt, tt) (omega arith) in
    let (q, echo, echoed, all', printed, total') =
      printf-Printed (character c ∷ []) rounds fuel p.state mem p.buffer text [] at_text (tt, tt)
        (omega arith) in
    let there : p.state ≡ marked s c =
      marked_there ∙ ap (puts_cx_cy (move_status s 52 24)) (shows_one c line byte all) in
    let behind : q.state ≡ puts (marked s c) (c ∷ []) =
      printed
      ∙ ap (puts p.state) (shows_one c echo byte all')
      ∙ ap (λ (t : Console). puts t (c ∷ [])) there in
    (
      q.state.1,
      show_key_steps rounds fuel mem buffer status text s c p q some_key shown_there echoed
          ∙ ap some (
              ap₂ (λ (x : Console) (y : List Write). (x, y))
                (ap (λ (t : Console × List Write). t.0) behind) refl),
    )

-- A line feed at the cursor.
put_line_feed :
    (s : Console)
    → InText s
    → InText (put s 10)
      × (cell (put s 10) ≡ (cell s / 80 + 1) % 24 * 80)
      × ((k : ℕ) → shown (put s 10) k ≡ shown s k)
unfolding put next_row
put_line_feed s v = (
  record { column = ground arith; row = ground (arith, v.row) },
  ground (arith, v.column, v.row),
  λ k. refl,
)

-- In front of the status line, and the cursor, nothing is changed by its character.
marked-Echoed :
    (s : Console) (c : ℕ) → InText s → (c ≡ 10) ⊎ Drawn c → Echoed s c (put (marked s c) (u8 c))
unfolding putchar_cx_cy move_status
marked-Echoed s c v kind =
    let t : Console = move_status s 52 24 in
    let v1 : InText (marked s c) = record { column = v.column; row = v.row } in
    let there : c < 256 → shown (marked s c) (1920 + 52) ≡ c = λ byte. status_here t c byte refl in
    let front : (k : ℕ) → k < 1920 → shown (marked s c) k ≡ shown s k =
      λ k lt. status_before t c (2 * k) refl (omega arith) in
    elim kind [
      | inl ten ↦
          let low : u8 c ≡ 10 = omega (arith, ten) in
          let (inside, next, same) = put_line_feed (marked s c) v1 in
          subst (λ (x : ℕ). Echoed s c (put (marked s c) x)) (sym low)
            (record {
              inside = inside;
              status = same (1920 + 52) ∙ there (omega (arith, ten));
              here = λ other. absurd (other ten);
              next_line = λ e. next;
              elsewhere = λ k lt out. same k ∙ front k lt;
            })
      | inr drawn ↦
          let a : Advanced (marked s c) c (put (marked s c) (u8 c)) =
            put-Advanced (marked s c) c v1 drawn in
          record {
            inside = a.inside;
            status = a.elsewhere (1920 + 52) (omega (arith, v.column, v.row)) ∙ there drawn.0;
            here = λ other. (a.here, a.next);
            next_line = λ ten. absurd (drawn.3 ten);
            elsewhere = λ k lt out. a.elsewhere k (out drawn.3) ∙ front k lt;
          }
    ]

show_key_lem :
    (rounds fuel : ℕ) (mem buffer : Bytes) (status text : ℕ) (s : Console) (c : ℕ)
    → InText s
    → IsString mem status one_character
    → IsString mem text one_character
    → 1 < rounds
    → (c ≡ 0) ⊎ (c ≡ 10) ⊎ Drawn c
    → (s' : Console) × (writes : List Write) × (show_key rounds fuel mem buffer status text s c
        ≡ some (s', writes))
      × (c ≡ 0 → (s' ≡ s) × (writes ≡ []))
      × (c ≢ 0 → Echoed s c s')
unfolding show_key
show_key_lem rounds fuel mem buffer status text s c v at_status at_text enough kinds =
    elim (ℕ_discrete c 0) [
      | yes z ↦
          let test : (c == 0) ≡ true = ground arith in
          (s, [], rw test refl, λ e. (refl, refl), λ e. absurd (e z))
      | no nz ↦
          let kind : (c ≡ 10) ⊎ Drawn c = elim kinds [
            | inl z ↦ absurd (nz z)
            | inr other ↦ other
          ] in
          let byte : c < 256 = elim kind [ inl ten ↦ omega (arith, ten) | inr drawn ↦ drawn.0 ] in
          let (writes, calls) =
            show_key-putchar rounds fuel mem buffer status text s c byte nz at_status at_text
              enough in
          (
            put (marked s c) (u8 c),
            writes,
            calls,
            λ e. absurd (nz e),
            λ e. marked-Echoed s c v kind,
          )
    ]

kbc_echo_steps :
    (rounds fuel : ℕ) (mem buffer : Bytes) (status text : ℕ) (s s' : Console) (shift b c : ℕ)
    (writes : List Write)
    → (kbc_irq shift b).1 ≡ c
    → show_key rounds fuel mem buffer status text s c ≡ some (s', writes)
    → kbc_echo rounds fuel mem buffer status text s shift b
      ≡ some ((kbc_irq shift b).0, (s', writes))
unfolding kbc_echo
kbc_echo_steps rounds fuel mem buffer status text s s' shift b c writes key shows =
    rw (key, shows, ◌>>=◌) refl

-- The next code after any history of codes, a byte, with the cursor in the text area and "%c" in
-- memory at both addresses: the handler ends with the `shift` of the longer history. If the key has
-- no character, the console stays as it was and nothing is written to the ports. Otherwise its
-- character, shifted if one of the shift keys is held down then, stands at column 52 of the status
-- line and, unless it is the line feed, at the cursor, which goes to the next cell, or from the last
-- to the first; for a line feed the cursor goes to the next row, or from the last to the first. All
-- other cells of the text area are as before.
pub kbc_echo_lem :
    (rounds fuel : ℕ) (mem buffer : Bytes) (status text : ℕ) (s : Console) (history : List ℕ)
    (b : ℕ)
    → b < 256
    → InText s
    → IsString mem status one_character
    → IsString mem text one_character
    → 1 < rounds
    → let c =
        key_in rows b (held kbcsc_leftshift (b ∷ history) || held kbcsc_rightshift (b ∷ history)) in
      (s' : Console) × (writes : List Write) × (kbc_echo rounds fuel mem buffer status text s
          (shift_after history)
          b
        ≡ some (shift_after (b ∷ history), (s', writes)))
      × (c ≡ 0 → (s' ≡ s) × (writes ≡ []))
      × (c ≢ 0 → Echoed s c s')
kbc_echo_lem rounds fuel mem buffer status text s history b byte v at_status at_text enough =
    let down : Bool = held kbcsc_leftshift (b ∷ history) || held kbcsc_rightshift (b ∷ history) in
    let (s', writes, shows, quiet, loud) =
      show_key_lem rounds fuel mem buffer status text s (key_in rows b down) v at_status at_text
        enough (key_in_cases b down byte) in
    (
      s',
      writes,
      kbc_echo_steps rounds fuel mem buffer status text s s' (shift_after history) b
          (key_in rows b down) writes (kbc_irq_lem history b byte) shows,
      quiet,
      loud,
    )
