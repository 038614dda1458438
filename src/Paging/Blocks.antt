-- ===== src/Paging/Blocks.antt =====
-- Calls of `kmalloc` of sys/pmap.c, one after the other.
use mathlib.Core.Path.{subst}
use cse508_operating_system.Prelude.{
  ℕ, ◌+◌, ◌*◌, ◌/◌, ◌%◌, ◌^◌, ◌<◌, ◌≡◌, ◌≢◌, ap, sym, ◌∙◌, some, arith,
}
use cse508_operating_system.Pmap.{page_size, phy_to_virt, virt_offset}
use cse508_operating_system.Pmap.Bitmap.{page_bit}
use cse508_operating_system.PageTables.{Machine}
use cse508_operating_system.PageTables.Walk.{translate}
use cse508_operating_system.PageTables.Level.{HasRoom}
use cse508_operating_system.Paging.{Mmu, kmalloc}
use cse508_operating_system.Paging.Refine.{Walks}
use cse508_operating_system.Paging.Levels.{Tables}
use cse508_operating_system.Paging.Loop.{pages_for, page_at}
use cse508_operating_system.Paging.Calls.{kmalloc_lem}

-- `n` pages behind `kernelfree` have been taken by calls of `kmalloc`, there is room for `k` more in
-- the bitmap, and all pages but these and those of the recursive slot are translated as before.
pub record Blocks (fuel k n : ℕ) (m : Machine) (p : ℕ) (m' : Machine) : Type 0 where
  pub tables : Tables m' p
  pub room : HasRoom fuel k m'.pmap
  pub kernelfree : m'.pmap.kernelfree ≡ m.pmap.kernelfree + n * page_size
  pub used : (q : ℕ) → page_bit m.pmap.list q ≡ 1 → page_bit m'.pmap.list q ≡ 1
  pub others :
      (va' pa' : ℕ)
      → va' / 2 ^ 39 % 512 ≢ 510
      → ((j : ℕ) → j < n → va' / 2 ^ 12 % 2 ^ 36 ≢ page_at m.pmap.kernelfree j / 2 ^ 12 % 2 ^ 36)
      → translate m.words p va' ≡ some pa'
      → translate m'.words p va' ≡ some pa'

pub Blocks-none :
    (fuel k : ℕ) (m : Machine) (p : ℕ) → Tables m p → HasRoom fuel k m.pmap → Blocks fuel k 0 m p m
Blocks-none fuel k m p t room = record {
  tables = t;
  room = room;
  kernelfree = omega arith;
  used = λ q h. h;
  others = λ va' pa' plain apart ok. ok;
}

pub Blocks-append :
    {fuel j k n i : ℕ} {m m1 m2 : Machine} {p : ℕ}
    → Blocks fuel j n m p m1
    → Blocks fuel k i m1 p m2
    → Blocks fuel k (n + i) m p m2
Blocks-append {fuel} {j} {k} {n} {i} {m} {m1} {m2} {p} a b = record {
  tables = b.tables;
  room = b.room;
  kernelfree = omega (arith, a.kernelfree, b.kernelfree);
  used = λ q h. b.used q (a.used q h);
  others = λ va' pa' plain apart ok.
      b.others va' pa' plain
        (λ c lt e.
          apart (n + c) (omega arith) (e ∙ ap (λ (x : ℕ). x / 2 ^ 12 % 2 ^ 36) (shifted c)))
        (a.others va' pa' plain (λ c lt. apart c (omega arith)) ok);
}
  where
    shifted : (c : ℕ) → page_at m1.pmap.kernelfree c ≡ page_at m.pmap.kernelfree (n + c)
    shifted c = ap (λ (f : ℕ). page_at f c) a.kernelfree ∙ ap phy_to_virt (omega arith)

-- One call, for a size of `n` pages.
pub kmalloc-Blocks :
    (mmu : Mmu) (fuel k n : ℕ) (m : Machine) (p size : ℕ)
    → size / page_size + 1 ≡ n
    → Walks mmu p
    → Tables m p
    → HasRoom fuel (pages_for n k) m.pmap
    → m.pmap.kernelfree + n * page_size < 2 ^ 31
    → (m' : Machine) × (kmalloc mmu fuel m size ≡ some (m', m.pmap.kernelfree + virt_offset))
      × Blocks fuel k n m p m'
kmalloc-Blocks mmu fuel k n m p size pages walks t room small =
    let taken : (i : ℕ) → i ≡ n → HasRoom fuel (pages_for i k) m.pmap =
      λ i e. subst (λ (j : ℕ). HasRoom fuel (pages_for j k) m.pmap) (sym e) room in
    let (m', call, a) =
      kmalloc_lem mmu fuel k m p size walks t (taken (size / page_size + 1) pages)
        (omega (arith, pages)) in
    (
      m',
      call,
      subst (λ (i : ℕ). Blocks fuel k i m p m') pages
          (record {
            tables = a.run.tables;
            room = a.room;
            kernelfree = a.kernelfree;
            used = a.run.used;
            others = a.run.others;
          }),
    )
