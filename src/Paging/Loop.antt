-- ===== src/Paging/Loop.antt =====
-- The loop of `kmalloc` of sys/pmap.c: pages mapped one behind the other, from `kernelfree` on.
use mathlib.Core.Path.{fun_ext, subst}
use cse508_operating_system.Paging.Run.{MappedRun, MappedRun-none, MappedRun-longer}
use cse508_operating_system.Prelude.{
  ℕ, zero, suc, ◌+◌, ◌*◌, ◌^◌, ◌<◌, ◌≡◌, refl, ap, sym, ◌∙◌, some, arith, ◌>>=◌,
}
use cse508_operating_system.Pmap.{page_size, phy_to_virt, virt_offset}
use cse508_operating_system.PageTables.{Machine}
use cse508_operating_system.PageTables.Level.{HasRoom}
use cse508_operating_system.Paging.{Mmu, map_fresh, kmalloc_loop}
use cse508_operating_system.Paging.Refine.{Walks}
use cse508_operating_system.Paging.Levels.{Tables}
use cse508_operating_system.Paging.Kmalloc.{map_fresh_lem}

-- Four pages of the bitmap for each round, the page itself and at most three tables, and `k` more.
abbrev pub pages_for : (n k : ℕ) → ℕ
pages_for zero k = k
pages_for (suc n) k = suc (suc (suc (suc (pages_for n k))))

-- The address of the page `j` of a run that starts at `f`.
abbrev pub page_at : ℕ → ℕ → ℕ
page_at f j = phy_to_virt (f + j * page_size)

-- The pages from `kernelfree` on are mapped, `kernelfree` is behind them, and there is room for `k`
-- more pages.
pub record Allocated (fuel k n : ℕ) (m : Machine) (p : ℕ) (m' : Machine) : Type 0 where
  pub run : MappedRun (page_at m.pmap.kernelfree) n m p m'
  pub room : HasRoom fuel k m'.pmap
  pub kernelfree : m'.pmap.kernelfree ≡ m.pmap.kernelfree + n * page_size

pub page_at_lem :
    (f j : ℕ) → f + j * page_size < 2 ^ 31 → page_at f j ≡ f + j * page_size + virt_offset
unfolding phy_to_virt
page_at_lem f j h = omega arith

kmalloc_loop_step :
    (mmu : Mmu) (n fuel : ℕ) (m m1 m' : Machine)
    → map_fresh mmu fuel m (phy_to_virt m.pmap.kernelfree) ≡ some m1
    → kmalloc_loop mmu n fuel m1 ≡ some m'
    → kmalloc_loop mmu (suc n) fuel m ≡ some m'
unfolding kmalloc_loop
kmalloc_loop_step mmu n fuel m m1 m' call rest = rw (call, ◌>>=◌) rest

-- The loop of `kmalloc` with room for four pages a round returns, and maps its pages.
pub kmalloc_loop_lem :
    (mmu : Mmu) (n fuel k : ℕ) (m : Machine) (p : ℕ)
    → Walks mmu p
    → Tables m p
    → HasRoom fuel (pages_for n k) m.pmap
    → m.pmap.kernelfree + n * page_size < 2 ^ 31
    → (m' : Machine) × (kmalloc_loop mmu n fuel m ≡ some m') × Allocated fuel k n m p m'
unfolding kmalloc_loop
kmalloc_loop_lem mmu zero fuel k m p walks t room small = (
  m,
  refl,
  record {
    run = MappedRun-none (page_at m.pmap.kernelfree) m p t;
    room = room;
    kernelfree = omega arith;
  },
)
kmalloc_loop_lem mmu (suc n) fuel k m p walks t room small =
    let f : ℕ = m.pmap.kernelfree in
    let first : page_at f 0 ≡ phy_to_virt f = ap phy_to_virt (omega arith) in
    let at : (j : ℕ) → j < suc n → page_at f j ≡ f + j * page_size + virt_offset =
      λ j lt. page_at_lem f j (omega arith) in
    let (m1, frame, call, b) =
      map_fresh_lem mmu fuel (pages_for n k) m p (page_at f 0) walks t room
        (omega (arith, at 0 (omega arith))) in
    let moved : m1.pmap.kernelfree ≡ f + page_size = b.kernelfree ∙ omega arith in
    let (m', rest, a) =
      kmalloc_loop_lem mmu n fuel k m1 p walks b.tables b.room (omega (arith, moved)) in
    let next : page_at m1.pmap.kernelfree ≡ (λ j. page_at f (suc j)) =
      fun_ext λ j. ap phy_to_virt (omega (arith, moved)) in
    let run : MappedRun (λ j. page_at f (suc j)) n m1 p m' =
      subst (λ (g : ℕ → ℕ). MappedRun g n m1 p m') next a.run in
    (
      m',
      kmalloc_loop_step mmu n fuel m m1 m' (ap (map_fresh mmu fuel m) (sym first) ∙ call) rest,
      record {
        run =
            MappedRun-longer (page_at f) n fuel (pages_for n k) m p frame m1 m'
              (omega (arith, at 0 (omega arith)))
              (λ j lt e. omega (arith, e, at 0 (omega arith), at (suc j) (omega arith))) b run;
        room = a.room;
        kernelfree = omega (arith, a.kernelfree, moved);
      },
    )
