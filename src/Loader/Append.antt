-- ===== src/Loader/Append.antt =====
-- An area is put at the end of the list of an `mm_struct`.
use mathlib.Core.List.{map-append}
use cse508_operating_system.Prelude.{
  ℕ, ◌≤◌, ◌≡◌, ◌≢◌, refl, sym, ◌∙◌, some, List, [], ◌∷◌, ◌++◌, map, arith, length, true, false,
  ◌==◌, update, update_self, update_ne, ◌>>=◌,
}
use cse508_operating_system.PageTables.{Machine}
use cse508_operating_system.Tasks.{last_task}
use cse508_operating_system.Tasks.Chain.{NotIn, last_of, last_task_lem, ne_last, Chain-link}
use cse508_operating_system.Tasks.Rotate.{Distinct-snoc}
use cse508_operating_system.Loader.{VmState, append_vma}
use cse508_operating_system.Loader.Areas.{HasAreas}

-- What an area says of addresses.
pub record Area : Type 0 where
  pub first : ℕ
  pub behind : ℕ
  pub flags : ℕ

abbrev pub area_of : VmState → ℕ → Area
area_of s v = record { first = s.vm_start v; behind = s.vm_end v; flags = s.vm_flags v }

-- The area `v` stands behind the areas `vs`, which are as before; `left` is the machine behind `kmalloc`.
pub record Added (s : VmState) (m v : ℕ) (vs : List ℕ) (left : Machine) (area : Area) (s' : VmState)
    : Type 0 where
  pub machine : s'.machine ≡ left
  pub areas : HasAreas s' m (vs ++ (v ∷ []))
  pub says : map (area_of s') (vs ++ (v ∷ [])) ≡ map (area_of s) vs ++ (area ∷ [])
  pub mm : s'.mm ≡ s.mm
  pub tasks : s'.tasks ≡ s.tasks

-- Areas that are not written are as before.
pub map-area_of :
    (s s' : VmState) (v : ℕ) (vs : List ℕ)
    → ((u : ℕ) → u ≢ v → area_of s' u ≡ area_of s u)
    → NotIn v vs
    → map (area_of s') vs ≡ map (area_of s) vs
map-area_of s s' v [] same out = refl
map-area_of s s' v (u ∷ us) same (ne, out) =
    rw (same u (λ e. ne (sym e)), map-area_of s s' v us same out) refl

pub says-snoc :
    (s s' : VmState) (v : ℕ) (vs : List ℕ) (area : Area)
    → ((u : ℕ) → u ≢ v → area_of s' u ≡ area_of s u)
    → area_of s' v ≡ area
    → NotIn v vs
    → map (area_of s') (vs ++ (v ∷ [])) ≡ map (area_of s) vs ++ (area ∷ [])
says-snoc s s' v vs area same here out =
    map-append (area_of s') vs (v ∷ []) ∙ rw (map-area_of s s' v vs same out, here) refl

-- What `append_vma` writes: links, and the head of the list if it was empty.
abbrev pub linked : VmState → (next head : ℕ → ℕ) → (mm vma : ℕ) → VmState
linked s next head mm vma = record s { vm_next = next; mmap = head; vm_mm = update s.vm_mm vma mm }

pub append_vma_lem :
    (fuel : ℕ) (s : VmState) (mm vma : ℕ) (vs : List ℕ)
    → HasAreas s mm vs
    → vma ≢ 0
    → NotIn vma vs
    → s.vm_next vma ≡ 0
    → length vs ≤ fuel
    → (next : ℕ → ℕ) × (head : ℕ → ℕ) × (append_vma fuel s mm vma
        ≡ some (linked s next head mm vma))
      × HasAreas (linked s next head mm vma) mm (vs ++ (vma ∷ []))
unfolding append_vma
append_vma_lem fuel s mm vma [] (c, d) ne out ends enough =
    let empty : (s.mmap mm == 0) ≡ true = ground arith in
    (
      s.vm_next,
      update s.mmap mm vma,
      rw (empty, ◌>>=◌) refl,
      ((update_self s.mmap mm vma, ne, ends), (tt, tt)),
    )
append_vma_lem fuel s mm vma (x ∷ xs) ((at, xne, c), d) ne (other, out) ends enough =
    let live : (s.mmap mm == 0) ≡ false = ground arith in
    let last : ℕ = last_of x xs in
    let apart : vma ≢ last = ne_last vma x xs (other, out) in
    let found : last_task fuel s.vm_next (s.mmap mm) ≡ some last =
      last_task_lem fuel s.vm_next (s.mmap mm) x xs (at, xne, c) (omega arith) in
    (
      update s.vm_next last vma,
      s.mmap,
      rw (live, found, ◌>>=◌) refl,
      (
        Chain-link s.vm_next (s.mmap mm) x xs vma d (at, xne, c) ne (vma ∷ [])
            (refl, ne, update_ne s.vm_next last vma vma apart ∙ ends),
        Distinct-snoc vma (x ∷ xs) (other, out) d,
      ),
    )
