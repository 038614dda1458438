-- ===== src/Timer/Digits.antt =====
-- The texts of numbers below 100.
use cse508_operating_system.Prelude.{
  ℕ, suc, ◌+◌, ◌-◌, ◌/◌, ◌%◌, ◌≤◌, ◌<◌, ◌≡◌, ◌≢◌, refl, ap, ◌∙◌, List, [], ◌∷◌, arith, length,
  get_or,
}
use cse508_operating_system.Text.Numbers.{digits_value, AllBelow}
use cse508_operating_system.Itoa.{digit_text}
use cse508_operating_system.Printf.Numerals.{Numeral, from_top}

-- A number below 100 in two digits.
abbrev pub two_digits : ℕ → List ℕ
two_digits n = (48 + n / 10) ∷ (48 + n % 10) ∷ []

-- The highest digit.
abbrev top_digit : List ℕ → ℕ
top_digit [] = 0
top_digit (d ∷ []) = d
top_digit (d ∷ e ∷ ds) = top_digit (e ∷ ds)

last-top_digit : (ds : List ℕ) → get_or ds (length ds - 1) 0 ≡ top_digit ds
last-top_digit [] = refl
last-top_digit (d ∷ []) = refl
last-top_digit (d ∷ e ∷ ds) =
    let index : length (d ∷ e ∷ ds) - 1 ≡ suc (length (e ∷ ds) - 1) = omega arith in
    ap (λ (i : ℕ). get_or (d ∷ e ∷ ds) i 0) index ∙ last-top_digit (e ∷ ds)

-- A number with a digit other than 0 on top is not 0.
value_positive : (ds : List ℕ) → 0 < top_digit ds → 0 < digits_value 10 ds
value_positive [] lead = absurd (omega arith)
value_positive (d ∷ []) lead = omega arith
value_positive (d ∷ e ∷ ds) lead = omega (arith, value_positive (e ∷ ds) lead)

digit_text_lem : (d : ℕ) → d < 10 → digit_text d ≡ 48 + d
unfolding digit_text
digit_text_lem d lt = ground arith

abbrev HasTop : ℕ → List ℕ → Type 0
HasTop n ds = n ≢ 0 → 0 < top_digit ds

one_of :
    (n : ℕ) (text ds : List ℕ)
    → n < 10
    → AllBelow 10 ds
    → digits_value 10 ds ≡ n
    → (0 < length ds) × (length ds ≤ n + 1)
    → HasTop n ds
    → text ≡ from_top (length ds + 0) ds
    → text ≡ (48 + n) ∷ []
one_of n text [] lt below worth (pos, short) lead shows = absurd (omega arith)
one_of n text (d ∷ []) lt below worth (pos, short) lead shows =
    let same : digit_text d ≡ 48 + n = digit_text_lem d (omega arith) ∙ omega arith in
    shows ∙ ap (λ (c : ℕ). c ∷ []) same
one_of n text (d ∷ e ∷ ds) lt below worth (pos, short) lead shows =
    absurd (omega (arith, value_positive (e ∷ ds) (lead (omega arith))))

two_of :
    (n : ℕ) (text ds : List ℕ)
    → 10 ≤ n
    → n < 100
    → AllBelow 10 ds
    → digits_value 10 ds ≡ n
    → HasTop n ds
    → text ≡ from_top (length ds + 0) ds
    → text ≡ two_digits n
two_of n text [] ge lt below worth lead shows = absurd (omega arith)
two_of n text (d ∷ []) ge lt below worth lead shows = absurd (omega arith)
two_of n text (d ∷ e ∷ []) ge lt below worth lead shows =
    let tens : digit_text e ≡ 48 + n / 10 = digit_text_lem e (omega arith) ∙ omega arith in
    let ones : digit_text d ≡ 48 + n % 10 = digit_text_lem d (omega arith) ∙ omega arith in
    shows ∙ rw (tens, ones) refl
two_of n text (d ∷ e ∷ f ∷ ds) ge lt below worth lead shows =
    absurd (omega (arith, value_positive (f ∷ ds) (lead (omega arith))))

pub one_digit : (n : ℕ) (text : List ℕ) → n < 10 → Numeral n 10 text → text ≡ (48 + n) ∷ []
one_digit n text lt m =
    one_of n text m.ds lt m.digits m.worth (m.some_digit, m.short)
      (λ ne. omega (arith, m.lead ne, last-top_digit m.ds)) m.shows

pub two_digits_lem :
    (n : ℕ) (text : List ℕ) → 10 ≤ n → n < 100 → Numeral n 10 text → text ≡ two_digits n
two_digits_lem n text ge lt m =
    two_of n text m.ds ge lt m.digits m.worth (λ ne. omega (arith, m.lead ne, last-top_digit m.ds))
      m.shows
