-- ===== src/Keyboard/Held.antt =====
-- The shift state of `kbc_irq` after a history of scan codes.
use cse508_operating_system.Prelude.{
  ℕ, ◌+◌, ◌<◌, ◌≡◌, refl, ◌∙◌, ap, Bool, true, false, not, List, [], ◌∷◌, arith, ◌==◌, ◌||◌,
  if◌then◌else◌,
}
use cse508_operating_system.Keyboard.{next_shift, kbc_irq, kbcsc_leftshift, kbcsc_rightshift}
use cse508_operating_system.Keyboard.Layout.{key_in, rows, kbcsc_tochar_lem}

-- The variable `shift` after the codes of a history, the newest first.
abbrev pub shift_after : List ℕ → ℕ
shift_after [] = 0
shift_after (b ∷ older) = (kbc_irq (shift_after older) b).0

-- Of the codes that say that a key goes down or up, the newest says down.
abbrev pub held : (key : ℕ) → List ℕ → Bool
held key [] = false
held key (b ∷ older) = if b == key then true else if b == key + 128 then false else held key older

-- Bit 0 for the left shift key, bit 1 for the right one.
abbrev pub shift_bits : (left right : Bool) → ℕ
shift_bits left right = (if left then 1 else 0) + (if right then 2 else 0)

next_shift_bits :
    (left right : Bool) (b : ℕ)
    → next_shift (shift_bits left right) b
      ≡ shift_bits
          (if b == 0x2a then true else if b == 0xaa then false else left)
          (if b == 0x36 then true else if b == 0xb6 then false else right)
unfolding next_shift
next_shift_bits true true b = ground arith
next_shift_bits true false b = ground arith
next_shift_bits false true b = ground arith
next_shift_bits false false b = ground arith

-- After any history of codes `shift` tells which of the shift keys are held down.
pub shift_after-held :
    (history : List ℕ)
    → shift_after history
      ≡ shift_bits (held kbcsc_leftshift history) (held kbcsc_rightshift history)
unfolding kbc_irq
shift_after-held [] = refl
shift_after-held (b ∷ older) =
    rw (shift_after-held older) (next_shift_bits (held 0x2a older) (held 0x36 older) b)

-- The next code, a byte, writes the character of its key, shifted if one of the shift keys is held
-- down then.
pub kbc_irq_lem :
    (history : List ℕ) (b : ℕ)
    → b < 256
    → (kbc_irq (shift_after history) b).1
      ≡ key_in rows b (held kbcsc_leftshift (b ∷ history) || held kbcsc_rightshift (b ∷ history))
unfolding kbc_irq
kbc_irq_lem history b byte =
    kbcsc_tochar_lem b (next_shift (shift_after history) b) byte
    ∙ ap (key_in rows b) (
        ap (λ (s : ℕ). not (s == 0)) (shift_after-held (b ∷ history))
        ∙ any_bit (held kbcsc_leftshift (b ∷ history)) (held kbcsc_rightshift (b ∷ history)))
  where
    any_bit : (left right : Bool) → not (shift_bits left right == 0) ≡ (left || right)
    any_bit true true = refl
    any_bit true false = refl
    any_bit false true = refl
    any_bit false false = refl
