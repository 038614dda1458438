-- ===== src/Timer/Formats.antt =====
-- The formats of sys/timer.c as pieces, and the time that they show.
use mathlib.Core.List.{append_assoc, append-nil}
use cse508_operating_system.Prelude.{
  ℕ, ◌+◌, ◌/◌, ◌%◌, ◌≤◌, ◌<◌, ◌≡◌, refl, sym, ap, ◌∙◌, List, [], ◌∷◌, ◌++◌, arith, length,
  length-append,
}
use mathlib.Core.Path.{subst, ap₂}
use cse508_operating_system.Text.{Bytes}
use cse508_operating_system.Printf.{int_to_u64}
use cse508_operating_system.Printf.Numerals.{Numeral}
use cse508_operating_system.Printf.Pieces.{Piece, plain, decimal, source, args, Fits}
use cse508_operating_system.Printf.Loop.{source_all, args_all, FitsAll, ShowsAll}
use cse508_operating_system.Timer.{Field, zeros, padded, bare, Uptime}
use cse508_operating_system.Timer.Clock.{TwoDigits, ShowsTime}
use cse508_operating_system.Timer.Digits.{two_digits, one_digit, two_digits_lem}
use cse508_operating_system.Timer.Tick.{
  suffix, field_format, field_params, status_format, status_params,
}

-- The time as "hh:mm:ss system uptime".
abbrev pub clock_text : ℕ → List ℕ
clock_text secs =
    two_digits (secs / 3600)
    ++ (58 ∷ (two_digits (secs / 60 % 60) ++ (58 ∷ (two_digits (secs % 60) ++ suffix))))

-- The pieces of a format.
abbrev pub field_pieces : Field → List Piece
field_pieces zeros = plain 48 ∷ plain 48 ∷ []
field_pieces (padded n) = plain 48 ∷ decimal n ∷ []
field_pieces (bare n) = decimal n ∷ []

abbrev pub suffix_pieces : List ℕ → List Piece
suffix_pieces [] = []
suffix_pieces (c ∷ cs) = plain c ∷ suffix_pieces cs

abbrev pub status_pieces : Uptime → List Piece
status_pieces u =
    field_pieces u.hours
    ++ (plain 58
        ∷ (field_pieces u.mins ++ (plain 58 ∷ (field_pieces u.secs ++ suffix_pieces suffix))))

source_all-append : (xs ys : List Piece) → source_all (xs ++ ys) ≡ source_all xs ++ source_all ys
source_all-append [] ys = refl
source_all-append (x ∷ xs) ys =
    ap (λ (t : List ℕ). source x ++ t) (source_all-append xs ys)
    ∙ sym (append_assoc (source x) (source_all xs) (source_all ys))

args_all-append : (xs ys : List Piece) → args_all (xs ++ ys) ≡ args_all xs ++ args_all ys
args_all-append [] ys = refl
args_all-append (x ∷ xs) ys =
    ap (λ (t : List ℕ). args x ++ t) (args_all-append xs ys)
    ∙ sym (append_assoc (args x) (args_all xs) (args_all ys))

pub FitsAll-append :
    (fuel : ℕ) (mem : Bytes) (xs ys : List Piece)
    → FitsAll fuel mem xs
    → FitsAll fuel mem ys
    → FitsAll fuel mem (xs ++ ys)
FitsAll-append fuel mem [] ys h k = k
FitsAll-append fuel mem (x ∷ xs) ys (fit, h) k = (fit, FitsAll-append fuel mem xs ys h k)

ShowsAll-append :
    (xs ys : List Piece) (text : List ℕ)
    → ShowsAll (xs ++ ys) text
    → (a : List ℕ) × (b : List ℕ) × (text ≡ a ++ b) × ShowsAll xs a × ShowsAll ys b
ShowsAll-append [] ys text h = ([], text, refl, refl, h)
ShowsAll-append (x ∷ xs) ys text (first, rest, cut, shows, more) =
    let (a, b, cut', left, right) = ShowsAll-append xs ys rest more in
    (
      first ++ a,
      b,
      cut ∙ ap (λ (t : List ℕ). first ++ t) cut' ∙ sym (append_assoc first a b),
      (first, a, refl, shows, left),
      right,
    )

source_field : (f : Field) → source_all (field_pieces f) ≡ field_format f
source_field zeros = refl
source_field (padded n) = refl
source_field (bare n) = refl

args_field : (f : Field) → args_all (field_pieces f) ≡ field_params f
args_field zeros = refl
args_field (padded n) = refl
args_field (bare n) = refl

pub fits_field :
    (fuel n : ℕ) (mem : Bytes) (f : Field)
    → TwoDigits f n
    → 117 < fuel
    → FitsAll fuel mem (field_pieces f)
unfolding int_to_u64
fits_field fuel n mem zeros h enough =
    ((omega arith, omega arith), ((omega arith, omega arith), tt))
fits_field fuel n mem (padded k) h enough = ((omega arith, omega arith), (ground arith, tt))
fits_field fuel n mem (bare k) h enough = (ground arith, tt)

pub length_field : (f : Field) → length (field_pieces f) ≤ 2
length_field zeros = omega arith
length_field (padded n) = omega arith
length_field (bare n) = omega arith

same_value : (n : ℕ) → n < 100 → int_to_u64 n ≡ n
unfolding int_to_u64
same_value n lt = ground arith

shows_field :
    (f : Field) (n : ℕ) (text : List ℕ)
    → TwoDigits f n
    → ShowsAll (field_pieces f) text
    → text ≡ two_digits n
shows_field zeros n text h (a, b, cut, here, (c, d, cut', there, done)) =
    cut ∙ rw (here, cut', there, done, h) refl
shows_field (padded k) n text (same, lt) (a, b, cut, here, (c, d, cut', there, done)) =
    let value : int_to_u64 k ≡ n = ap int_to_u64 same ∙ same_value n (omega arith) in
    let ones : c ≡ (48 + n) ∷ [] =
      one_digit n c lt (subst (λ (v : ℕ). Numeral v 10 c) value there) in
    let tens : 48 ≡ 48 + n / 10 = omega arith in
    let low : 48 + n ≡ 48 + n % 10 = omega arith in
    cut ∙ rw (here, cut', ones, done) (ap₂ (λ (x y : ℕ). x ∷ y ∷ []) tens low)
shows_field (bare k) n text (same, ge, lt) (a, b, cut, here, done) =
    let value : int_to_u64 k ≡ n = ap int_to_u64 same ∙ same_value n lt in
    let both : a ≡ two_digits n =
      two_digits_lem n a ge lt (subst (λ (v : ℕ). Numeral v 10 a) value here) in
    cut ∙ rw (both, done) refl

shows_suffix : (cs text : List ℕ) → ShowsAll (suffix_pieces cs) text → text ≡ cs
shows_suffix [] text h = h
shows_suffix (c ∷ cs) text (a, b, cut, here, more) = cut ∙ rw (here, shows_suffix cs b more) refl

source_suffix : (cs : List ℕ) → source_all (suffix_pieces cs) ≡ cs
source_suffix [] = refl
source_suffix (c ∷ cs) = ap (λ (t : List ℕ). c ∷ t) (source_suffix cs)

args_suffix : (cs : List ℕ) → args_all (suffix_pieces cs) ≡ []
args_suffix [] = refl
args_suffix (c ∷ cs) = args_suffix cs

pub status_source : (u : Uptime) → source_all (status_pieces u) ≡ status_format u
status_source u =
    source_all-append (field_pieces u.hours) _
    ∙ rw
        (
          source_field u.hours,
          source_all-append (field_pieces u.mins)
              (plain 58 ∷ (field_pieces u.secs ++ suffix_pieces suffix)),
          source_field u.mins,
          source_all-append (field_pieces u.secs) (suffix_pieces suffix),
          source_field u.secs,
        )
        refl

pub status_args : (u : Uptime) → args_all (status_pieces u) ≡ status_params u
status_args u =
    args_all-append (field_pieces u.hours) _
    ∙ rw
        (
          args_field u.hours,
          args_all-append (field_pieces u.mins)
              (plain 58 ∷ (field_pieces u.secs ++ suffix_pieces suffix)),
          args_field u.mins,
          args_all-append (field_pieces u.secs) (suffix_pieces suffix),
          args_field u.secs,
          append-nil (field_params u.secs),
        )
        refl

pub status_shows :
    (u : Uptime) (secs : ℕ) (text : List ℕ)
    → ShowsTime u secs
    → ShowsAll (status_pieces u) text
    → text ≡ clock_text secs
status_shows u secs text (h, m, s) all =
    let (a, b, cut, hours, (c, d, cut', colon, more)) =
      ShowsAll-append (field_pieces u.hours) _ text all in
    let (e, f, cut'', mins, (g, k, cut3, colon2, rest)) =
      ShowsAll-append (field_pieces u.mins) _ d more in
    let (x, y, cut4, seconds, last) =
      ShowsAll-append (field_pieces u.secs) (suffix_pieces suffix) k rest in
    cut
    ∙ rw
        (
          shows_field u.hours (secs / 3600) a h hours,
          cut',
          colon,
          cut'',
          shows_field u.mins (secs / 60 % 60) e m mins,
          cut3,
          colon2,
          cut4,
          shows_field u.secs (secs % 60) x s seconds,
          shows_suffix suffix y last,
        )
        refl

fits_suffix : (fuel : ℕ) (mem : Bytes) → FitsAll fuel mem (suffix_pieces suffix)
fits_suffix fuel mem = ground arith

pub status_fits :
    (fuel secs : ℕ) (mem : Bytes) (u : Uptime)
    → ShowsTime u secs
    → 117 < fuel
    → FitsAll fuel mem (status_pieces u)
status_fits fuel secs mem u (h, m, s) enough =
    let colon : Fits fuel mem (plain 58) = (omega arith, omega arith) in
    FitsAll-append fuel mem (field_pieces u.hours) _
      (fits_field fuel (secs / 3600) mem u.hours h enough)
      (
        colon,
        FitsAll-append fuel mem (field_pieces u.mins) _
            (fits_field fuel (secs / 60 % 60) mem u.mins m enough)
            (
              colon,
              FitsAll-append fuel mem (field_pieces u.secs) (suffix_pieces suffix)
                  (fits_field fuel (secs % 60) mem u.secs s enough) (fits_suffix fuel mem),
            ),
      )

pub status_length : (u : Uptime) → length (status_pieces u) ≤ 22
status_length u = omega (
  arith,
  length_field u.hours,
  length_field u.mins,
  length_field u.secs,
  length-append (field_pieces u.hours) (
      plain 58
      ∷ (field_pieces u.mins ++ (plain 58 ∷ (field_pieces u.secs ++ suffix_pieces suffix)))),
  length-append (field_pieces u.mins) (plain 58 ∷ (field_pieces u.secs ++ suffix_pieces suffix)),
  length-append (field_pieces u.secs) (suffix_pieces suffix),
)
