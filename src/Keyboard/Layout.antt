-- ===== src/Keyboard/Layout.antt =====
-- The keys of sys/kbc_scancodes.c as rows of neighbouring scan codes.
use cse508_operating_system.Prelude.{
  ℕ, ◌+◌, ◌-◌, ◌<◌, ◌≡◌, refl, ◌∙◌, Bool, true, false, not, List, [], ◌∷◌, ltb, leb, ◌==◌, ==_iff,
  ◌&&◌, if◌then◌else◌, get_or, length, Bool-cases, inl, inr,
}
use cse508_operating_system.Prelude.Bits.{holds_below, holds_below-true}
use cse508_operating_system.Keyboard.{kbcsc_tochar}

-- The code of the leftmost key, and what its row writes without and with shift.
pub record Row : Type 0 where
  pub leftmost : ℕ
  pub plain : List ℕ
  pub shifted : List ℕ

abbrev pub rows : List Row
rows =
    record {
      leftmost = 0x02;
      plain = 49 ∷ 50 ∷ 51 ∷ 52 ∷ 53 ∷ 54 ∷ 55 ∷ 56 ∷ 57 ∷ 48 ∷ 45 ∷ 61 ∷ [];
      shifted = 33 ∷ 64 ∷ 35 ∷ 36 ∷ 37 ∷ 94 ∷ 38 ∷ 42 ∷ 40 ∷ 41 ∷ 95 ∷ 43 ∷ [];
    }
    ∷ record {
      leftmost = 0x10;
      plain = 113 ∷ 119 ∷ 101 ∷ 114 ∷ 116 ∷ 121 ∷ 117 ∷ 105 ∷ 111 ∷ 112 ∷ 91 ∷ 93 ∷ [];
      shifted = 81 ∷ 87 ∷ 69 ∷ 82 ∷ 84 ∷ 89 ∷ 85 ∷ 73 ∷ 79 ∷ 80 ∷ 123 ∷ 125 ∷ [];
    }
    ∷ record { leftmost = 0x1c; plain = 10 ∷ []; shifted = 10 ∷ [] }
    ∷ record {
      leftmost = 0x1e;
      plain = 97 ∷ 115 ∷ 100 ∷ 102 ∷ 103 ∷ 104 ∷ 106 ∷ 107 ∷ 108 ∷ 59 ∷ 39 ∷ 39 ∷ [];
      shifted = 65 ∷ 83 ∷ 68 ∷ 70 ∷ 71 ∷ 72 ∷ 74 ∷ 75 ∷ 76 ∷ 58 ∷ 34 ∷ 126 ∷ [];
    }
    ∷ record { leftmost = 0x2b; plain = 92 ∷ []; shifted = 124 ∷ [] }
    ∷ record {
      leftmost = 0x2c;
      plain = 122 ∷ 120 ∷ 99 ∷ 118 ∷ 98 ∷ 110 ∷ 109 ∷ 44 ∷ 46 ∷ 47 ∷ [];
      shifted = 90 ∷ 88 ∷ 67 ∷ 86 ∷ 66 ∷ 78 ∷ 77 ∷ 60 ∷ 62 ∷ 47 ∷ [];
    }
    ∷ record { leftmost = 0x39; plain = 32 ∷ []; shifted = 32 ∷ [] }
    ∷ []

-- The character of a key, 0 for a code outside the rows.
abbrev pub key_in : List Row → (b : ℕ) → (shift : Bool) → ℕ
key_in [] b shift = 0
key_in (r ∷ rs) b shift =
    if leb r.leftmost b && ltb b (r.leftmost + length r.plain)
    then get_or (if shift then r.shifted else r.plain) (b - r.leftmost) 0
    else key_in rs b shift

-- Only whether shift is held matters.
shift_as_Bool : (b shift : ℕ) → kbcsc_tochar b shift ≡ kbcsc_tochar b (if shift == 0 then 0 else 1)
unfolding kbcsc_tochar
shift_as_Bool b shift = elim (Bool-cases (shift == 0)) [ inl up ↦ rw up | inr down ↦ rw down ]

plain_table : holds_below 256 (λ b. kbcsc_tochar b 0 == key_in rows b false) ≡ true
unfolding kbcsc_tochar holds_below
plain_table = refl

shifted_table : holds_below 256 (λ b. kbcsc_tochar b 1 == key_in rows b true) ≡ true
unfolding kbcsc_tochar holds_below
shifted_table = refl

-- `kbcsc_tochar` of a byte gives the character of its key in the rows of the keyboard, shifted if
-- `shift` is not 0, and 0 for any other byte, the codes of released keys among them.
pub kbcsc_tochar_lem :
    (b shift : ℕ) → b < 256 → kbcsc_tochar b shift ≡ key_in rows b (not (shift == 0))
kbcsc_tochar_lem b shift byte = shift_as_Bool b shift ∙ elim (Bool-cases (shift == 0)) [
  | inl up ↦ rw up ((==_iff _ _).0 (holds_below-true 256 _ plain_table b byte))
  | inr down ↦ rw down ((==_iff _ _).0 (holds_below-true 256 _ shifted_table b byte))
]
