-- ===== src/Loader/Areas.antt =====
-- The list of areas of an `mm_struct`, and `find_vma` of sys/mm.c.
use cse508_operating_system.Prelude.{
  ℕ, zero, suc, ◌≤◌, ◌<◌, ◌≡◌, ◌≢◌, refl, ap, ◌⊎◌, inl, inr, some, List, [], ◌∷◌, ◌++◌, arith,
  length, false, ltb, leb, ◌&&◌, ◌==◌, Bool-cases,
}
use cse508_operating_system.Tasks.Chain.{Chain, Distinct}
use cse508_operating_system.Loader.{VmState, find_loop, find_vma}

-- The areas of `mm`, in the order of the list.
abbrev pub HasAreas : VmState → ℕ → List ℕ → Type 0
HasAreas s mm vs = Chain s.vm_next (s.mmap mm) vs × Distinct vs

abbrev pub Contains : VmState → ℕ → ℕ → Type 0
Contains s addr v = (s.vm_start v ≤ addr) × (addr < s.vm_end v)

abbrev pub NoneContains : VmState → ℕ → List ℕ → Type 0
NoneContains s addr [] = Unit {0}
NoneContains s addr (v ∷ vs) = (Contains s addr v → ⊥) × NoneContains s addr vs

-- The first area of the list that contains the address, or 0 if there is none.
abbrev pub IsFirst : VmState → ℕ → List ℕ → ℕ → Type 0
IsFirst s addr vs r =
    ((r ≡ 0) × NoneContains s addr vs)
    ⊎ ((before : List ℕ) × (behind : List ℕ) × (vs ≡ before ++ (r ∷ behind))
        × Contains s addr r
        × NoneContains s addr before)

one_more :
    (s : VmState) (addr v : ℕ) (vs : List ℕ) (r : ℕ)
    → (Contains s addr v → ⊥)
    → IsFirst s addr vs r
    → IsFirst s addr (v ∷ vs) r
one_more s addr v vs r not_here (inl (null, none)) = inl (null, (not_here, none))
one_more s addr v vs r not_here (inr (before, behind, e, here, none)) =
    inr (v ∷ before, behind, ap (λ (l : List ℕ). v ∷ l) e, here, (not_here, none))

find_loop-IsFirst :
    (fuel : ℕ) (s : VmState) (curr addr : ℕ) (vs : List ℕ)
    → Chain s.vm_next curr vs
    → length vs < fuel
    → (r : ℕ) × (find_loop fuel s curr addr ≡ some r) × IsFirst s addr vs r
unfolding find_loop
find_loop-IsFirst zero s curr addr vs c enough = absurd (omega arith)
find_loop-IsFirst (suc fuel) s curr addr [] c enough = (0, rw c refl, inl (refl, tt))
find_loop-IsFirst (suc fuel) s curr addr (v ∷ vs) (at, ne, c) enough =
    let live : (v == 0) ≡ false = ground arith in
    let (r, found, first) = find_loop-IsFirst fuel s (s.vm_next v) addr vs c (omega arith) in
    elim (Bool-cases (ltb addr (s.vm_end v) && leb (s.vm_start v) addr)) [
      | inl inside ↦ (v, rw (at, live, inside) refl, inr ([], vs, refl, ground arith, tt))
      | inr outside ↦ (
        r,
        rw (at, live, outside) found,
        one_more s addr v vs r (λ h. ground (arith, h.0, h.1)) first,
      )
    ]

-- `find_vma` walks the list of areas to the first that contains the address, start included and end
-- excluded, and returns it; it returns NULL exactly if none does.
pub find_vma-IsFirst :
    (fuel : ℕ) (s : VmState) (mm addr : ℕ) (vs : List ℕ)
    → mm ≢ 0
    → HasAreas s mm vs
    → length vs < fuel
    → (r : ℕ) × (find_vma fuel s mm addr ≡ some r) × IsFirst s addr vs r
unfolding find_vma
find_vma-IsFirst fuel s mm addr vs ne (c, d) enough =
    let live : (mm == 0) ≡ false = ground arith in
    rw live (find_loop-IsFirst fuel s (s.mmap mm) addr vs c enough)
