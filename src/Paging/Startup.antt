-- ===== src/Paging/Startup.antt =====
-- `setup_page_tables` of sys/pagetab.c followed by `kmalloc` of sys/pmap.c, as `start` of
-- sys/main.c and what it calls run them: `physfree` is `kernelfree`.
use cse508_operating_system.Prelude.{
  ℕ, suc, ◌+◌, ◌*◌, ◌/◌, ◌%◌, ◌^◌, ◌≤◌, ◌<◌, ◌≡◌, ◌≢◌, sym, ap, ◌∙◌, some, arith,
}
use cse508_operating_system.Pmap.{page_size, virt_offset}
use cse508_operating_system.Pmap.Bitmap.{IsBytes}
use cse508_operating_system.PageTables.{Machine, setup_page_tables}
use cse508_operating_system.PageTables.Walk.{translate}
use cse508_operating_system.PageTables.Level.{HasRoom}
use cse508_operating_system.Paging.{Mmu, kmalloc}
use cse508_operating_system.Paging.Fresh.{FreeIsZero}
use cse508_operating_system.Paging.Refine.{Walks}
use cse508_operating_system.Paging.Loop.{pages_for, page_at, page_at_lem, Allocated}
use cse508_operating_system.Paging.Calls.{kmalloc_lem}
use cse508_operating_system.Paging.Setup.{video_at, SetUp, setup_page_tables-SetUp}

-- The first block behind the kernel, with the kernel and the screen still in their places.
pub record FirstBlock (fuel n base physbase : ℕ) (m1 : Machine) (p : ℕ) (m' : Machine)
    : Type 0 where
  pub block : Allocated fuel 0 n m1 p m'
  pub kernel :
      (phys : ℕ)
      → physbase ≤ phys
      → phys < base / 2 ^ 12 * 2 ^ 12
      → translate m'.words p (virt_offset + phys) ≡ some phys
  pub video :
      (off : ℕ) → off < 2 ^ 12 → translate m'.words p (video_at + off) ≡ some (0xB8000 + off)

module _ (n fuel k kernmem physbase base : ℕ) (m1 : Machine) (p : ℕ) (m' : Machine)
    (at : kernmem / 2 ^ 28 * 2 ^ 28 ≡ virt_offset) (high : 2 ^ 20 ≤ physbase)
    (order : physbase ≤ base) (low : base < 2 ^ 28) (small : base + n * page_size < 2 ^ 31)
    (s : SetUp fuel k base kernmem physbase base p m1) (a : Allocated fuel 0 n m1 p m') where
  -- The block's pages stand at `base` and behind.
  behind :
      (va : ℕ)
      → va / 2 ^ 12 < (virt_offset + base) / 2 ^ 12
      → virt_offset ≤ va
      → (j : ℕ) → j < n
      → va / 2 ^ 12 % 2 ^ 36 ≢ page_at m1.pmap.kernelfree j / 2 ^ 12 % 2 ^ 36
  behind va lt from j less e =
      let same : page_at m1.pmap.kernelfree j ≡ page_at base j =
        ap (λ (f : ℕ). page_at f j) s.kernelfree in
      let sum = same ∙ page_at_lem base j (omega arith) in omega (arith, e, sum)

  kept-FirstBlock : FirstBlock fuel n base physbase m1 p m'
  kept-FirstBlock = record {
    block = a;
    kernel = λ phys from to.
        a.run.others (virt_offset + phys) phys (omega arith)
          (behind (virt_offset + phys) (omega arith) (omega arith))
          (ap (λ (b : ℕ). translate m1.words p (b + phys)) (sym at)
            ∙ s.kernel phys from (omega arith));
    video = λ off lt.
        a.run.others (video_at + off) (0xB8000 + off) (omega arith)
          (behind (video_at + off) (omega arith) (omega arith)) (s.video off lt);
  }

-- `setup_page_tables` and then `kmalloc` under the top table that CR3 got, for a processor that
-- translates by the walk from CR3 on. Its conditions: the kernel starts page-aligned from 1 MB on and
-- below 256 MB, is linked 0xFFFFFFFF80000000 above that, and lies up to `kernelfree`, that address
-- included, in one 2 MB region; the bitmap is one of bytes, the pages free in it that `kmalloc_mem`
-- can hand out hold zeros, and it has room for seven pages and for four more for each page of the
-- block, `size / 4096 + 1` of them; and the block ends below 2 ^ 31. Then both return; the block
-- starts at the kernel's address of `kernelfree`, each of its pages on a frame of its own; and the
-- kernel's whole pages below `kernelfree` and the screen are still translated to themselves.
pub setup_page_tables-kmalloc :
    (cpu : (cr3 : ℕ) → Mmu) (fuel : ℕ) (m : Machine) (kernmem physbase size : ℕ)
    → ((cr3 : ℕ) → Walks (cpu cr3) cr3)
    → IsBytes m.pmap.list
    → FreeIsZero m
    → HasRoom fuel
        (suc (suc (suc (suc (suc (suc (suc (pages_for (size / page_size + 1) 0))))))))
        m.pmap
    → kernmem ≡ virt_offset + physbase
    → physbase ≡ physbase / 2 ^ 12 * 2 ^ 12
    → 2 ^ 20 ≤ physbase
    → physbase ≤ m.pmap.kernelfree
    → physbase < 2 ^ 28
    → m.pmap.kernelfree / 2 ^ 21 ≡ physbase / 2 ^ 21
    → m.pmap.kernelfree + (size / page_size + 1) * page_size < 2 ^ 31
    → (m1 : Machine) × (p : ℕ) × (m' : Machine) × (setup_page_tables fuel m kernmem physbase
          m.pmap.kernelfree
        ≡ some (m1, p))
      × (kmalloc (cpu p) fuel m1 size ≡ some (m', m.pmap.kernelfree + virt_offset))
      × FirstBlock fuel (size / page_size + 1) m.pmap.kernelfree physbase m1 p m'
setup_page_tables-kmalloc cpu fuel m kernmem physbase size walks bytes free room linked aligned high
      order low near small =
    let n : ℕ = size / page_size + 1 in
    let base : ℕ = m.pmap.kernelfree in
    let k : ℕ = pages_for n 0 in
    let (m1, p, ret, s) =
      setup_page_tables-SetUp fuel k m kernmem physbase base bytes free room (omega arith)
        (omega arith) (omega arith) aligned high order near in
    let (m', call, a) =
      kmalloc_lem (cpu p) fuel 0 m1 p size (walks p) s.tables s.room
        (omega (arith, s.kernelfree)) in
    (
      m1,
      p,
      m',
      ret,
      call ∙ ap (λ (f : ℕ). some (m', f + virt_offset)) s.kernelfree,
      kept-FirstBlock n fuel k kernmem physbase base m1 p m' (omega arith) high order (omega arith)
          small s a,
    )
