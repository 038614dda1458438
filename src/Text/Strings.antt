-- ===== src/Text/Strings.antt =====
-- `strlen` and `strcmp` of sys/write.c and sys/math.c on terminated strings.
use cse508_operating_system.Prelude.{
  ℕ, zero, suc, ◌+◌, ◌-◌, ◌^◌, ◌<◌, ◌≡◌, ◌↔◌, refl, sym, ap, ◌∙◌, some, List, [], ◌∷◌, arith, ◌==◌,
  if◌then◌else◌, length, u32, u64,
}
use cse508_operating_system.Text.{Bytes, strlen_loop, strlen, strcmp}

-- From `p` on stand the bytes `xs`, none of them 0, and a terminator.
abbrev pub IsString : Bytes → ℕ → List ℕ → Type 0
IsString mem p [] = mem p ≡ 0
IsString mem p (x ∷ xs) = (mem p ≡ x) × (0 < x) × (x < 256) × IsString mem (p + 1) xs

strlen_loop_lem :
    (fuel : ℕ) (mem : Bytes) (p len : ℕ) (xs : List ℕ)
    → IsString mem p xs
    → length xs < fuel
    → len + length xs < 2 ^ 64
    → strlen_loop fuel mem p len ≡ some (len + length xs)
unfolding strlen_loop
strlen_loop_lem zero mem p len xs str enough fits = absurd (omega arith)
strlen_loop_lem (suc fuel) mem p len [] str enough fits = ground arith
strlen_loop_lem (suc fuel) mem p len (x ∷ xs) (at, pos, small, rest) enough fits =
    ground (arith, strlen_loop_lem fuel mem (p + 1) (u64 (len + 1)) xs rest)

-- `strlen` of a terminated string ends and returns the number of its bytes.
pub strlen_lem :
    (fuel : ℕ) (mem : Bytes) (p : ℕ) (xs : List ℕ)
    → IsString mem p xs
    → length xs < fuel
    → length xs < 2 ^ 64
    → strlen fuel mem p ≡ some (length xs)
unfolding strlen
strlen_lem fuel mem p xs str enough fits =
    strlen_loop_lem fuel mem p 0 xs str enough (omega arith) ∙ ap some (omega arith)

-- The difference of the first bytes in which two strings differ, their terminators included.
abbrev pub first_difference : List ℕ → List ℕ → ℕ
first_difference [] [] = 0
first_difference [] (y ∷ ys) = 2 ^ 32 - y
first_difference (x ∷ xs) [] = x
first_difference (x ∷ xs) (y ∷ ys) = if x == y then first_difference xs ys else u32 (x + 2 ^ 32 - y)

strcmp_difference :
    (fuel : ℕ) (mem : Bytes) (p q : ℕ) (xs ys : List ℕ)
    → IsString mem p xs
    → IsString mem q ys
    → length xs < fuel
    → strcmp fuel mem p q ≡ some (first_difference xs ys)
unfolding strcmp
strcmp_difference zero mem p q xs ys s t enough = absurd (omega arith)
strcmp_difference (suc fuel) mem p q [] [] s t enough = ground arith
strcmp_difference (suc fuel) mem p q [] (y ∷ ys) s (at, pos, small, rest) enough = ground arith
strcmp_difference (suc fuel) mem p q (x ∷ xs) [] (at, pos, small, rest) t enough = ground arith
strcmp_difference (suc fuel) mem p q (x ∷ xs) (y ∷ ys) (at, pos, small, s) (at', pos', small', t)
      enough =
    ground (arith, strcmp_difference fuel mem (p + 1) (q + 1) xs ys s t (omega arith))

difference_zero :
    (mem : Bytes) (p q : ℕ) (xs ys : List ℕ)
    → IsString mem p xs
    → IsString mem q ys
    → first_difference xs ys ≡ 0
    → xs ≡ ys
difference_zero mem p q [] [] s t e = refl
difference_zero mem p q [] (y ∷ ys) s t e = absurd (omega arith)
difference_zero mem p q (x ∷ xs) [] s t e = absurd (omega arith)
difference_zero mem p q (x ∷ xs) (y ∷ ys) (at, pos, small, s) (at', pos', small', t) e =
    ground (arith, difference_zero mem (p + 1) (q + 1) xs ys s t)

difference_self : (xs : List ℕ) → first_difference xs xs ≡ 0
difference_self [] = refl
difference_self (x ∷ xs) = ground (arith, difference_self xs)

-- `strcmp` of two terminated strings ends and returns the difference, as an `int` pattern, of the
-- first bytes in which they differ; the result is 0 exactly when the strings are the same.
pub strcmp_lem :
    (fuel : ℕ) (mem : Bytes) (p q : ℕ) (xs ys : List ℕ)
    → IsString mem p xs
    → IsString mem q ys
    → length xs < fuel
    → (strcmp fuel mem p q ≡ some (first_difference xs ys))
      × ((strcmp fuel mem p q ≡ some 0) ↔ (xs ≡ ys))
strcmp_lem fuel mem p q xs ys s t enough =
    let returns = strcmp_difference fuel mem p q xs ys s t enough in
    (
      returns,
      (
        λ e. difference_zero mem p q xs ys s t (ground (arith, returns)),
        λ e. returns ∙ ap some (ap (λ l. first_difference xs l) (sym e) ∙ difference_self xs),
      ),
    )
