-- ===== src/Paging/Virtual.antt =====
-- `kmalloc_virtual` of sys/pmap.c.
use mathlib.Core.Path.{fun_ext, subst}
use cse508_operating_system.Prelude.{
  ℕ, zero, suc, ◌+◌, ◌*◌, ◌/◌, ◌^◌, ◌<◌, ◌≡◌, refl, ap, sym, ◌∙◌, some, arith, u32, u64, ◌>>=◌,
}
use cse508_operating_system.Pmap.{page_size}
use cse508_operating_system.PageTables.{Machine}
use cse508_operating_system.PageTables.Level.{HasRoom}
use cse508_operating_system.Paging.{Mmu, map_fresh, kmalloc_virtual_loop, kmalloc_virtual}
use cse508_operating_system.Paging.Refine.{Walks}
use cse508_operating_system.Paging.Levels.{Tables}
use cse508_operating_system.Paging.Kmalloc.{map_fresh_lem}
use cse508_operating_system.Paging.Run.{MappedRun, MappedRun-none, MappedRun-longer}
use cse508_operating_system.Paging.Loop.{pages_for}

-- Where the code puts page `j` of a block at `virt`.
abbrev pub spread : ℕ → ℕ → ℕ
spread virt j = virt + j * (8 * page_size)

kmalloc_virtual_loop_step :
    (mmu : Mmu) (n fuel : ℕ) (m m1 m' : Machine) (virt next : ℕ)
    → map_fresh mmu fuel m virt ≡ some m1
    → u64 (virt + 8 * page_size) ≡ next
    → kmalloc_virtual_loop mmu n fuel m1 next ≡ some m'
    → kmalloc_virtual_loop mmu (suc n) fuel m virt ≡ some m'
unfolding kmalloc_virtual_loop
kmalloc_virtual_loop_step mmu n fuel m m1 m' virt next call step rest = rw (call, ◌>>=◌, step) rest

kmalloc_virtual_loop_lem :
    (mmu : Mmu) (n fuel : ℕ) (m : Machine) (p virt : ℕ)
    → Walks mmu p
    → Tables m p
    → HasRoom fuel (pages_for n 0) m.pmap
    → virt + n * (8 * page_size) < 2 ^ 47
    → (m' : Machine) × (kmalloc_virtual_loop mmu n fuel m virt ≡ some m')
      × MappedRun (spread virt) n m p m'
unfolding kmalloc_virtual_loop
kmalloc_virtual_loop_lem mmu zero fuel m p virt walks t room small =
    (m, refl, MappedRun-none (spread virt) m p t)
kmalloc_virtual_loop_lem mmu (suc n) fuel m p virt walks t room small =
    let first : spread virt 0 ≡ virt = omega arith in
    let (m1, frame, call, b) =
      map_fresh_lem mmu fuel (pages_for n 0) m p (spread virt 0) walks t room (omega arith) in
    let step : u64 (virt + 8 * page_size) ≡ virt + 8 * page_size = omega arith in
    let (m', rest, a) =
      kmalloc_virtual_loop_lem mmu n fuel m1 p (virt + 8 * page_size) walks b.tables b.room
        (omega arith) in
    let next : spread (virt + 8 * page_size) ≡ (λ j. spread virt (suc j)) =
      fun_ext λ j. omega arith in
    (
      m',
      kmalloc_virtual_loop_step mmu n fuel m m1 m' virt (virt + 8 * page_size)
          (ap (map_fresh mmu fuel m) (sym first) ∙ call) step rest,
      MappedRun-longer (spread virt) n fuel (pages_for n 0) m p frame m1 m' (omega arith)
          (λ j lt e. omega (arith, e)) b (subst (λ (g : ℕ → ℕ). MappedRun g n m1 p m') next a),
    )

-- `kmalloc_virtual`, with paging on, room in the bitmap for four pages each page that is asked for,
-- and a block whose end, eight pages for each, is below 2 ^ 47: it returns `virt` and maps
-- `size_mem / 4096 + 1` pages, each on a frame of its own that was free and is in use then. Page `j`
-- of them is not behind the one before but `8 * j` pages behind `virt`; and every page that is not
-- one of these and not in the recursive slot is translated as before.
pub kmalloc_virtual_lem :
    (mmu : Mmu) (fuel : ℕ) (m : Machine) (p size_mem virt : ℕ)
    → Walks mmu p
    → Tables m p
    → HasRoom fuel (pages_for (size_mem / page_size + 1) 0) m.pmap
    → virt + (size_mem / page_size + 1) * (8 * page_size) < 2 ^ 47
    → (m' : Machine) × (kmalloc_virtual mmu fuel m size_mem virt ≡ some (m', virt))
      × MappedRun (spread virt) (size_mem / page_size + 1) m p m'
unfolding kmalloc_virtual
kmalloc_virtual_lem mmu fuel m p size_mem virt walks t room small =
    let n : ℕ = size_mem / page_size + 1 in
    let (m', loop, run) = kmalloc_virtual_loop_lem mmu n fuel m p virt walks t room small in
    let count : u32 (size_mem / page_size + 1) ≡ size_mem / page_size + 1 = omega arith in
    (m', rw (count, loop, ◌>>=◌) (ground arith), run)
