-- ===== src/Itoa/Tests.antt =====
-- Runs of `itoa`, and its theorems at them.
use cse508_operating_system.Prelude.{◌≡◌, refl, some, [], ◌∷◌, map, get_or, ◌>>=◌}
use cse508_operating_system.Text.{Bytes}
use cse508_operating_system.Itoa.{digit_text, itoa}

-- "4321" at 1.
abbrev backwards : Bytes
backwards i = get_or (7 ∷ 52 ∷ 51 ∷ 50 ∷ 49 ∷ 8 ∷ []) i 0

itoa_decimal :
    (itoa 5 1203 backwards 0 10 >>= λ b. some (map b (0 ∷ 1 ∷ 2 ∷ 3 ∷ 4 ∷ [])))
    ≡ some (49 ∷ 50 ∷ 48 ∷ 51 ∷ 0 ∷ [])
unfolding itoa digit_text
itoa_decimal = refl
