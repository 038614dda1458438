-- ===== src/Loader/Load.antt =====
-- `load_elf` of sys/tarfs.c: the areas of a loaded task.
use mathlib.Core.Path.{subst}
use mathlib.Core.List.{append_assoc, append-nil}
use cse508_operating_system.Prelude.{
  ℕ, zero, suc, ◌+◌, ◌≤◌, ◌≡◌, ◌≢◌, refl, sym, ap, ◌∙◌, inl, inr, some, List, [], ◌∷◌, ◌++◌, map,
  arith, length, ◌==◌, if◌then◌else◌, Bool-cases, ◌>>=◌, length-append,
}
use cse508_operating_system.Tasks.Chain.{NotIn}
use cse508_operating_system.Text.{Bytes}
use cse508_operating_system.PageTables.{Machine}
use cse508_operating_system.Paging.{Mmu, kmalloc}
use cse508_operating_system.Loader.{
  VmState, vma_size, p_type, pt_load, phdr_size, populate_task, load_loop,
}
use cse508_operating_system.Loader.Areas.{HasAreas}
use cse508_operating_system.Loader.Append.{Area, area_of, Added}
use cse508_operating_system.Loader.Segments.{segment_area, populate_task-Added}

-- The program headers of type PT_LOAD among the next `n`, in their order.
abbrev pub load_headers : ℕ → Bytes → ℕ → List ℕ
load_headers zero bytes phdr = []
load_headers (suc n) bytes phdr =
    let rest = load_headers n bytes (phdr + phdr_size) in
    if p_type bytes phdr == pt_load then phdr ∷ rest else rest

-- New addresses: none is NULL, and none stands in the list or occurs twice.
abbrev pub Fresh : List ℕ → List ℕ → Type 0
Fresh vs [] = Unit {0}
Fresh vs (w ∷ ws) = (w ≢ 0) × NotIn w vs × Fresh (vs ++ (w ∷ [])) ws

-- `kmalloc` of areas gives the addresses `ws`, one after the other, and leaves the last machine.
abbrev pub Gives : (mmu : Mmu) (fuel : ℕ) → Machine → List ℕ → Machine → Type 0
Gives mmu fuel m [] left = m ≡ left
Gives mmu fuel m (w ∷ ws) left =
    (m' : Machine) × (kmalloc mmu fuel m vma_size ≡ some (m', w)) × Gives mmu fuel m' ws left

-- The areas `ws` stand behind the areas `vs` and say what `new` lists.
pub record Loaded (s : VmState) (m : ℕ) (vs ws : List ℕ) (left : Machine) (new : List Area)
    (s' : VmState) : Type 0 where
  pub machine : s'.machine ≡ left
  pub areas : HasAreas s' m (vs ++ ws)
  pub says : map (area_of s') (vs ++ ws) ≡ map (area_of s) vs ++ new
  pub mm : s'.mm ≡ s.mm
  pub tasks : s'.tasks ≡ s.tasks

Loaded-longer :
    (s s1 s' : VmState) (m w : ℕ) (vs ws : List ℕ) (mid left : Machine) (area : Area)
    (new : List Area)
    → Added s m w vs mid area s1
    → Loaded s1 m (vs ++ (w ∷ [])) ws left new s'
    → Loaded s m vs (w ∷ ws) left (area ∷ new) s'
Loaded-longer s s1 s' m w vs ws mid left area new a l = record {
  machine = l.machine;
  areas = rw append_assoc at l.areas;
  says =
      ap (map (area_of s')) (sym (append_assoc vs (w ∷ []) ws))
      ∙ l.says
      ∙ ap (λ (x : List Area). x ++ new) a.says
      ∙ append_assoc (map (area_of s) vs) (area ∷ []) new;
  mm = l.mm ∙ a.mm;
  tasks = l.tasks ∙ a.tasks;
}

module _ (mmu : Mmu) (fuel : ℕ) (bytes : Bytes) (tsk m : ℕ) (live : m ≢ 0) where
  pub load_loop-Loaded :
      (n : ℕ) (s : VmState) (phdr : ℕ) (vs ws : List ℕ) (left : Machine)
      → Gives mmu fuel s.machine ws left
      → length ws ≡ length (load_headers n bytes phdr)
      → s.mm tsk ≡ m
      → HasAreas s m vs
      → Fresh vs ws
      → length vs + length ws ≤ fuel
      → (s' : VmState) × (load_loop mmu n fuel s bytes phdr tsk ≡ some s')
        × Loaded s m vs ws left (map (segment_area bytes) (load_headers n bytes phdr)) s'
  unfolding load_loop
  load_loop-Loaded zero s phdr vs (w ∷ ws) left calls count at areas fresh enough =
      absurd (omega arith)
  load_loop-Loaded zero s phdr vs [] left calls count at areas fresh enough = (
    s,
    refl,
    record {
      machine = calls;
      areas = rw (append-nil vs) areas;
      says = rw (append-nil vs, append-nil (map (area_of s) vs)) refl;
      mm = refl;
      tasks = refl;
    },
  )
  load_loop-Loaded (suc n) s phdr vs ws left calls count at areas fresh enough =
      elim (Bool-cases (p_type bytes phdr == pt_load)) [
        | inl loads ↦
            rw loads (segment ws calls (rw loads at count) fresh enough (load_loop-Loaded n))
        | inr other ↦
            rw (other, ◌>>=◌)
              (load_loop-Loaded n s (phdr + phdr_size) vs ws left calls (rw other at count) at areas
                fresh enough)
      ]
    where
      segment :
          (ws : List ℕ)
          → Gives mmu fuel s.machine ws left
          → length ws ≡ suc (length (load_headers n bytes (phdr + phdr_size)))
          → Fresh vs ws
          → length vs + length ws ≤ fuel
          → ((s : VmState) (phdr : ℕ) (vs ws : List ℕ) (left : Machine)
              → Gives mmu fuel s.machine ws left
              → length ws ≡ length (load_headers n bytes phdr)
              → s.mm tsk ≡ m
              → HasAreas s m vs
              → Fresh vs ws
              → length vs + length ws ≤ fuel
              → (s' : VmState) × (load_loop mmu n fuel s bytes phdr tsk ≡ some s')
                × Loaded s m vs ws left (map (segment_area bytes) (load_headers n bytes phdr)) s')
          → (s' : VmState) × ((populate_task mmu fuel s bytes phdr tsk
                >>= (λ s1. load_loop mmu n fuel s1 bytes (phdr + phdr_size) tsk))
              ≡ some s')
            × Loaded s m vs ws left
                (segment_area bytes phdr
                  ∷ map (segment_area bytes) (load_headers n bytes (phdr + phdr_size)))
                s'
      segment [] calls count fresh enough ih = absurd (omega arith)
      segment (w ∷ ws) (mid, call, calls) count (ne, out, fresh) enough ih =
          let (s1, first, a) =
            populate_task-Added mmu fuel s bytes phdr tsk m w vs mid call at live areas ne out
              (omega arith) in
          let (s', ret, l) =
            ih s1 (phdr + phdr_size) (vs ++ (w ∷ [])) ws left
              (subst (λ (x : Machine). Gives mmu fuel x ws left) (sym a.machine) calls)
              (omega arith) (ap (λ (f : ℕ → ℕ). f tsk) a.mm ∙ at) a.areas fresh
              (omega (arith, length-append vs (w ∷ []))) in
          (
            s',
            rw (first, ◌>>=◌) ret,
            Loaded-longer s s1 s' m w vs ws mid left (segment_area bytes phdr) _ a l,
          )
