-- ===== src/Itoa/Reverse.antt =====
-- The loop of `itoa` that turns a stretch of the buffer round.
use cse508_operating_system.Prelude.{
  ℕ, zero, suc, ◌+◌, ◌-◌, ◌≤◌, ◌<◌, ◌≡◌, sym, ◌∙◌, arith, inl, inr, Bool-cases, dec_lt, ℕ_discrete,
  ltb, leb, ◌&&◌, if◌then◌else◌, update,
}
use mathlib.Core.Path.{subst₂}
use cse508_operating_system.Text.{Bytes}
use cse508_operating_system.Itoa.{reverse_loop}

abbrev mirrored : ℕ → ℕ → Bytes → Bytes
mirrored low ptr buf a = if leb low a && leb a ptr then buf (low + ptr - a) else buf a

-- A stretch of at most one byte is its own mirror image.
mirrored_short : (low ptr : ℕ) (buf : Bytes) (a : ℕ) → ptr ≤ low → buf a ≡ mirrored low ptr buf a
mirrored_short low ptr buf a le = ground arith

-- One swap, and the mirror image of what lies between.
mirrored_swap :
    (low k : ℕ) (buf : Bytes) (a : ℕ)
    → mirrored
        (low + 1)
        (low + k)
        (update (update buf low (buf (low + k + 1))) (low + k + 1) (buf low))
        a
      ≡ mirrored low (low + k + 1) buf a
mirrored_swap low k buf a = elim (dec_lt a low) [
  | yes below ↦ ground arith
  | no high ↦ elim (dec_lt (low + k + 1) a) [
    | yes above ↦ ground arith
    | no inside ↦ elim (ℕ_discrete a low) [
      | yes first ↦ ground arith
      | no other ↦ elim (ℕ_discrete a (low + k + 1)) [
        | yes last ↦ ground arith
        | no between ↦ ground arith
      ]
    ]
  ]
]

-- With fuel for half of the stretch, the byte at each place of it changes with its mirror image,
-- and no byte outside changes.
pub reverse_loop_at :
    (fuel low ptr : ℕ) (buf : Bytes) (a : ℕ)
    → ptr < low + fuel + fuel + 1
    → reverse_loop fuel low ptr buf a
      ≡ (if leb low a && leb a ptr then buf (low + ptr - a) else buf a)
unfolding reverse_loop
reverse_loop_at zero low ptr buf a enough = mirrored_short low ptr buf a (omega arith)
reverse_loop_at (suc fuel) low ptr buf a enough = elim (Bool-cases (ltb low ptr)) [
  | inl more ↦
      let k : ℕ = ptr - low - 1 in
      let e : ptr ≡ low + k + 1 = ground arith in
      let e' : ptr - 1 ≡ low + k = ground arith in
      rw more (
        reverse_loop_at fuel (low + 1) (ptr - 1) (update (update buf low (buf ptr)) ptr (buf low)) a
          (ground arith)
        ∙ subst₂
            (λ x y.
              mirrored (low + 1) y (update (update buf low (buf x)) x (buf low)) a
              ≡ mirrored low x buf a)
            (sym e) (sym e') (mirrored_swap low k buf a))
  | inr stop ↦ rw stop (mirrored_short low ptr buf a (ground arith))
]
