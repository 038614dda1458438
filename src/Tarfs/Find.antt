-- ===== src/Tarfs/Find.antt =====
-- `readTarfile` of sys/tarfs.c on an archive that is laid out as the tar format says.
use cse508_operating_system.Prelude.{
  ℕ, zero, suc, ◌+◌, ◌-◌, ◌*◌, ◌/◌, ◌^◌, ◌≤◌, ◌<◌, ◌≡◌, ◌≢◌, refl, ap, ◌∙◌, ◌⊎◌, inl, inr, some,
  List, [], ◌∷◌, map, arith, ltb, ◌==◌, if◌then◌else◌, length, ◌>>=◌, >>=-eq-some, Bool-cases,
}
use cse508_operating_system.Text.{Bytes, strcmp, atoi, octal_decimal}
use cse508_operating_system.Text.Strings.{IsString, first_difference, strcmp_lem}
use cse508_operating_system.Text.Numbers.{
  AllBelow, digits_value, onto, digit_char, octal_decimal-atoi,
}
use cse508_operating_system.Tarfs.{size_offset, next_header, read_loop, read_tarfile}

-- A file of an archive: its name and the octal digits of its size, the highest first.
pub record Entry : Type 0 where
  pub name : List ℕ
  pub size_digits : List ℕ

abbrev pub file_size : Entry → ℕ
file_size e = digits_value 8 (onto e.size_digits [])

-- The blocks of 512 bytes that the contents of a file fill: the size divided, rounded up.
abbrev pub blocks : ℕ → ℕ
blocks size = (size + 511) / 512

-- The header and the blocks of a file.
abbrev pub extent : Entry → ℕ
extent e = 512 * (1 + blocks (file_size e))

-- The header at `h` describes the file.
pub record IsHeader (mem : Bytes) (h : ℕ) (e : Entry) : Type 0 where
  pub name : IsString mem h e.name
  pub digits : AllBelow 8 e.size_digits
  pub size : IsString mem (h + size_offset) (map digit_char e.size_digits)
  pub fits : digits_value 10 (onto e.size_digits []) < 2 ^ 31

-- From `h` to `end` stand the headers and blocks of the files, one behind the other.
abbrev pub Layout : Bytes → ℕ → ℕ → List Entry → Type 0
Layout mem h end [] = end ≤ h
Layout mem h end (e ∷ es) = (h < end) × IsHeader mem h e × Layout mem (h + extent e) end es

-- `r` is the address of the first header with the name, or 0 if no file has it.
abbrev pub Finds : (name : List ℕ) (h : ℕ) → List Entry → (r : ℕ) → Type 0
Finds name h [] r = r ≡ 0
Finds name h (e ∷ es) r =
    ((name ≡ e.name) × (r ≡ h)) ⊎ ((name ≢ e.name) × Finds name (h + extent e) es r)

-- A file of which `readTarfile` skips as many blocks as it fills.
abbrev pub Steps : Entry → Type 0
Steps e = (file_size e ≤ 1024) × (length e.size_digits < 12)

abbrev pub Each : (Entry → Type 0) → List Entry → Type 0
Each P [] = Unit {0}
Each P (e ∷ es) = P e × Each P es

next_header_lem : (h size : ℕ) → size ≤ 1024 → next_header h size ≡ h + 512 * (1 + blocks size)
unfolding next_header
next_header_lem h size small = ground arith

-- One round of `readTarfile`, from what its calls return.
read_round :
    (rounds fuel : ℕ) (mem : Bytes) (p h end k size d : ℕ)
    → atoi fuel mem (h + size_offset) ≡ some k
    → octal_decimal fuel k ≡ some size
    → strcmp fuel mem p h ≡ some d
    → read_loop (suc rounds) fuel mem p h end ≡ (
        if d == 0
        then some h
        else if ltb (next_header h size) end
        then read_loop rounds fuel mem p (next_header h size) end
        else some 0)
unfolding read_loop
read_round rounds fuel mem p h end k size d e1 e2 e3 = rw (e1, e2, e3, ◌>>=◌)

module _ (fuel : ℕ) (mem : Bytes) (p end : ℕ) (name : List ℕ) (asked : IsString mem p name)
    (enough : length name < fuel) (twelve : 12 ≤ fuel) where
  -- A round on a header of the archive, the test of the names aside.
  round_at :
      (rounds h : ℕ) (e : Entry)
      → IsHeader mem h e
      → Steps e
      → ((name ≡ e.name) × (read_loop (suc rounds) fuel mem p h end ≡ some h))
        ⊎ ((name ≢ e.name)
            × (read_loop (suc rounds) fuel mem p h end ≡ (
                if ltb (h + extent e) end
                then read_loop rounds fuel mem p (h + extent e) end
                else some 0)))
  round_at rounds h e header step =
      let sizes =
        (octal_decimal-atoi fuel mem (h + size_offset) e.size_digits header.digits header.size
          header.fits (omega arith)).0 in
      let (k, read, size) = >>=-eq-some (atoi fuel mem (h + size_offset)) _ sizes in
      let cmp = strcmp_lem fuel mem p h name e.name asked header.name enough in
      let round =
        read_round rounds fuel mem p h end k (file_size e) (first_difference name e.name) read size
          cmp.0 in
      let next = next_header_lem h (file_size e) step.0 in
      elim (Bool-cases (first_difference name e.name == 0)) [
        | inl same ↦ inl (cmp.1.0 (cmp.0 ∙ ap some (ground arith)), rw same at round)
        | inr differs ↦
            inr (λ eq. absurd (ground (arith, cmp.1.1 eq, cmp.0)), rw next at (rw differs at round))
      ]

  read_loop_lem :
      (rounds h : ℕ) (e : Entry) (es : List Entry)
      → Layout mem h end (e ∷ es)
      → Each Steps (e ∷ es)
      → length es < rounds
      → (r : ℕ) × (read_loop rounds fuel mem p h end ≡ some r) × Finds name h (e ∷ es) r
  read_loop_lem zero h e es lay steps few = absurd (omega arith)
  read_loop_lem (suc rounds) h e [] (below, header, lay) (step, steps) few =
      elim (round_at rounds h e header step) [
        | inl (same, ret) ↦ (h, ret, inl (same, refl))
        | inr (other, ret) ↦ (0, ret ∙ ground arith, inr (other, refl))
      ]
  read_loop_lem (suc rounds) h e (e' ∷ es) (below, header, lay) (step, steps) few =
      elim (round_at rounds h e header step) [
        | inl (same, ret) ↦ (h, ret, inl (same, refl))
        | inr (other, ret) ↦
            let (r, later, found) =
              read_loop_lem rounds (h + extent e) e' es lay steps (omega arith) in
            (r, ret ∙ ground (arith, later), inr (other, found))
      ]

-- On an archive of files of at most 1024 bytes, laid out with each header followed by the blocks of
-- its file, `readTarfile` ends and returns the address of the first header with the name asked
-- for, or NULL if no file of the archive has it.
pub read_tarfile_lem :
    (rounds fuel : ℕ) (mem : Bytes) (p start end : ℕ) (name : List ℕ) (e : Entry) (es : List Entry)
    → IsString mem p name
    → Layout mem start end (e ∷ es)
    → Each Steps (e ∷ es)
    → length name < fuel
    → 12 ≤ fuel
    → length es < rounds
    → (r : ℕ) × (read_tarfile rounds fuel mem p start end ≡ some r) × Finds name start (e ∷ es) r
unfolding read_tarfile
read_tarfile_lem rounds fuel mem p start end name e es asked lay steps enough twelve few =
    read_loop_lem fuel mem p end name asked enough twelve rounds start e es lay steps few

-- For a file of between 512 * k and 513 * k bytes, k from 2 to 512, the step of `readTarfile` is
-- one block short of the next header: it divides by 513.
pub next_header_short :
    (h k size : ℕ)
    → 2 ≤ k
    → k ≤ 512
    → 512 * k < size
    → size < 513 * k
    → next_header h size + 512 ≡ h + 512 * (1 + blocks size)
unfolding next_header
next_header_short h k size two few low high =
    let code : size / 513 ≡ k - 1 = omega arith in
    let need : (size + 511) / 512 ≡ k + 1 = omega arith in ground (arith, code, need)
