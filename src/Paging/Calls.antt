-- ===== src/Paging/Calls.antt =====
-- `kmalloc` and `kmalloc_page` of sys/pmap.c.
use cse508_operating_system.Prelude.{
  ℕ, ◌+◌, ◌*◌, ◌/◌, ◌^◌, ◌<◌, ◌≡◌, refl, ap, ◌∙◌, inl, inr, some, arith, u32, ◌>>=◌,
}
use cse508_operating_system.Pmap.{page_size, phy_to_virt, virt_offset}
use cse508_operating_system.PageTables.{Machine}
use cse508_operating_system.PageTables.Level.{HasRoom}
use cse508_operating_system.Paging.{Mmu, map_fresh, kmalloc_page, kmalloc_loop, kmalloc}
use cse508_operating_system.Paging.Refine.{Walks}
use cse508_operating_system.Paging.Levels.{Tables}
use cse508_operating_system.Prelude.{Option-cases}
use cse508_operating_system.Paging.Loop.{pages_for, page_at_lem, Allocated, kmalloc_loop_lem}

-- `kmalloc`, with paging on (`Tables`, with zeros in the free pages), room in the bitmap for four
-- pages each page that is asked for and `k` more, and `kernelfree` below 2 ^ 31 behind them: it
-- returns the address of the first page behind `kernelfree`, in the upper half; it maps
-- `size / 4096 + 1` pages from there on, each on a frame of its own that was free and is in use
-- then; `kernelfree` is behind them; there is room for `k` more pages; and every other page
-- outside of the recursive slot that was translated is translated as before.
pub kmalloc_lem :
    (mmu : Mmu) (fuel k : ℕ) (m : Machine) (p size : ℕ)
    → Walks mmu p
    → Tables m p
    → HasRoom fuel (pages_for (size / page_size + 1) k) m.pmap
    → m.pmap.kernelfree + (size / page_size + 1) * page_size < 2 ^ 31
    → (m' : Machine) × (kmalloc mmu fuel m size ≡ some (m', m.pmap.kernelfree + virt_offset))
      × Allocated fuel k (size / page_size + 1) m p m'
unfolding kmalloc
kmalloc_lem mmu fuel k m p size walks t room small =
    let n : ℕ = size / page_size + 1 in
    let (m', loop, a) = kmalloc_loop_lem mmu n fuel k m p walks t room small in
    let count : u32 (size / page_size + 1) ≡ size / page_size + 1 = omega arith in
    let at = page_at_lem m.pmap.kernelfree 0 (omega arith) in
    let sum : phy_to_virt m.pmap.kernelfree ≡ m.pmap.kernelfree + virt_offset =
      ap phy_to_virt (omega arith) ∙ at ∙ omega arith in
    (m', rw (count, loop, ◌>>=◌) (ground (arith, sum)), a)

-- `kmalloc` of less than a page does what `kmalloc_page` does, whatever the translation.
pub kmalloc-kmalloc_page :
    (mmu : Mmu) (fuel : ℕ) (m : Machine) (size : ℕ)
    → size < page_size
    → kmalloc mmu fuel m size ≡ kmalloc_page mmu fuel m
unfolding kmalloc kmalloc_loop kmalloc_page
kmalloc-kmalloc_page mmu fuel m size lt =
    let one : u32 (size / page_size + 1) ≡ 1 = omega arith in
    rw one (elim (Option-cases (map_fresh mmu fuel m (phy_to_virt m.pmap.kernelfree))) [
      | inl nothing ↦ rw nothing refl
      | inr found ↦ rw (found.1, ◌>>=◌) refl
    ])
