-- ===== src/Text/Tests.antt =====
-- Runs of the helpers of sys/write.c and sys/math.c, and their theorems at them.
use cse508_operating_system.Prelude.{List, ℕ, ◌≡◌, refl, some, [], ◌∷◌, ◌>>=◌, get_or}
use cse508_operating_system.Text.{Bytes, pow, atoi, octal_decimal}

-- "17" at 0, "1234" at 3, "12" at 8.
abbrev memory : Bytes
memory i = get_or (49 ∷ 55 ∷ 0 ∷ 49 ∷ 50 ∷ 51 ∷ 52 ∷ 0 ∷ 49 ∷ 50 ∷ 0 ∷ []) i 0

abbrev longer : List ℕ
longer = 49 ∷ 50 ∷ 51 ∷ 52 ∷ []

abbrev shorter : List ℕ
shorter = 49 ∷ 50 ∷ []

pow_wraps : pow 40 8 11 ≡ some 0
unfolding pow
pow_wraps = refl

octal_seventeen : (atoi 4 memory 0 >>= octal_decimal 4) ≡ some 15
unfolding atoi octal_decimal
octal_seventeen = refl
