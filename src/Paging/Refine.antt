-- ===== src/Paging/Refine.antt =====
-- `mmap` against `getPT`: the walk through the recursive slot and the walk on physical addresses
-- do the same to the tables.
use cse508_operating_system.Prelude.{
  ℕ, ◌+◌, ◌*◌, ◌/◌, ◌%◌, ◌^◌, ◌≡◌, ◌≢◌, refl, ◌∙◌, some, arith, update, ◌>>=◌,
}
use cse508_operating_system.Pmap.Bitmap.{IsBytes}
use cse508_operating_system.PageTables.{Machine, entry_at, get_pt, get_pt_index, with_flags}
use cse508_operating_system.PageTables.Walk.{follow, translate, get_index_lem}
use cse508_operating_system.PageTables.Grow.{Tree, Tree-Owned, entry-InUse}
use cse508_operating_system.PageTables.Level.{HasRoom, Found}
use cse508_operating_system.PageTables.GetPt.{
  Levels, get_pt-Levels, Levels-returns, Levels-Grows, Levels-tree1, follow_kept, walk1_first,
  walk2_first, walk2_second, walk3_first, walk3_second, walk3_third,
}
use cse508_operating_system.Paging.{
  Mmu, pml4_addr, pdp_base, pd_base, pt_base, vstore, ensure_entry, mmap,
}
use cse508_operating_system.Paging.Recursive.{slot_pml4, slot_pdp, slot_pd, slot_pt}
use cse508_operating_system.Paging.Fresh.{
  FreeIsZero, ensure_entry-next_table, next_table-FreeIsZero,
}

-- The processor translates by the walk from the top table `p`.
abbrev pub Walks : Mmu → ℕ → Type 0
Walks mmu p = (words : ℕ → ℕ) (va : ℕ) → mmu words va ≡ translate words p va

-- What `setup_page_tables` leaves: a tree of tables whose entry 510 names the top table, and free
-- pages that hold zeros.
pub record Space (m : Machine) (p : ℕ) : Type 0 where
  pub tree : Tree 3 m p
  pub self : follow m.words p 510 ≡ some p
  pub bytes : IsBytes m.pmap.list
  pub free : FreeIsZero m

pub Found-positive :
    {fuel n k : ℕ} {m : Machine} {t i : ℕ} {m' : Machine} {c : ℕ}
    → Found fuel n k m t i m' c
    → c ≢ 0
Found-positive {n} f e = let o = Tree-Owned n f.tree in omega (arith, o.positive)

-- Free pages hold zeros behind each level.
module _ {fuel k : ℕ} {m : Machine} {p va : ℕ} (tree : Tree 3 m p) (bytes : IsBytes m.pmap.list)
    (free : FreeIsZero m) (l : Levels fuel k m p va) where
  pub free1 : FreeIsZero l.m1
  free1 =
      next_table-FreeIsZero fuel m p (va / 2 ^ 39 % 512) l.m1 l.pdp bytes free
        (Found-positive l.first) (entry-InUse (Tree-Owned 3 tree) (va / 2 ^ 39 % 512) (omega arith))
        l.first.returns

  pub free2 : FreeIsZero l.m2
  free2 =
      next_table-FreeIsZero fuel l.m1 l.pdp (va / 2 ^ 30 % 512) l.m2 l.pd l.first.bytes free1
        (Found-positive l.second)
        (entry-InUse (Tree-Owned 2 l.first.tree) (va / 2 ^ 30 % 512) (omega arith)) l.second.returns

  pub free3 : FreeIsZero l.m3
  free3 =
      next_table-FreeIsZero fuel l.m2 l.pd (va / 2 ^ 21 % 512) l.m3 l.pt l.second.bytes free2
        (Found-positive l.third)
        (entry-InUse (Tree-Owned 1 l.second.tree) (va / 2 ^ 21 % 512) (omega arith)) l.third.returns

module _ (mmu : Mmu) {fuel k : ℕ} {m : Machine} {p va : ℕ} (walks : Walks mmu p) (s : Space m p)
    (l : Levels fuel k m p va) where
  self1 : follow l.m1.words p 510 ≡ some p
  self1 = (follow_kept 2 p 510 p s.tree l.first.grows (omega arith) s.self).0

  self2 : follow l.m2.words p 510 ≡ some p
  self2 = (follow_kept 2 p 510 p (Levels-tree1 s.tree l) l.second.grows (omega arith) self1).0

  pub self3 : follow l.m3.words p 510 ≡ some p
  self3 = (follow_kept 2 p 510 p s.tree (Levels-Grows s.tree l) (omega arith) s.self).0

  step1 : ensure_entry mmu fuel m (pml4_addr + 8 * (va / 2 ^ 39 % 512)) ≡ some l.m1
  step1 =
      ensure_entry-next_table mmu fuel m (pml4_addr + 8 * (va / 2 ^ 39 % 512)) p (va / 2 ^ 39 % 512)
        l.m1 l.pdp s.bytes s.free (Found-positive l.first)
        (walks m.words _ ∙ slot_pml4 m.words p s.self (va / 2 ^ 39 % 512) (omega arith))
        l.first.returns

  step2 : ensure_entry mmu fuel l.m1 (pdp_base va + 8 * (va / 2 ^ 30 % 512)) ≡ some l.m2
  step2 =
      ensure_entry-next_table mmu fuel l.m1 (pdp_base va + 8 * (va / 2 ^ 30 % 512)) l.pdp
        (va / 2 ^ 30 % 512) l.m2 l.pd l.first.bytes (free1 s.tree s.bytes s.free l)
        (Found-positive l.second)
        (walks l.m1.words _
          ∙ slot_pdp l.m1.words p self1 va (va / 2 ^ 30 % 512) l.pdp (omega arith)
              (walk1_first s.tree l))
        l.second.returns

  step3 : ensure_entry mmu fuel l.m2 (pd_base va + 8 * (va / 2 ^ 21 % 512)) ≡ some l.m3
  step3 =
      ensure_entry-next_table mmu fuel l.m2 (pd_base va + 8 * (va / 2 ^ 21 % 512)) l.pd
        (va / 2 ^ 21 % 512) l.m3 l.pt l.second.bytes (free2 s.tree s.bytes s.free l)
        (Found-positive l.third)
        (walks l.m2.words _
          ∙ slot_pd l.m2.words p self2 va (va / 2 ^ 21 % 512) l.pdp l.pd (omega arith)
              (walk2_first s.tree l) (walk2_second s.tree l))
        l.third.returns

  step4 :
      (pa : ℕ)
      → vstore mmu l.m3 (pt_base va + 8 * (va / 2 ^ 12 % 512)) (with_flags pa)
        ≡ some (record (l.m3) {
          words = update l.m3.words (entry_at l.pt (va / 2 ^ 12 % 512)) (with_flags pa);
        })
  unfolding vstore
  step4 pa = rw (
      walks l.m3.words (pt_base va + 8 * (va / 2 ^ 12 % 512))
      ∙ slot_pt l.m3.words p self3 va (va / 2 ^ 12 % 512) l.pdp l.pd l.pt (omega arith)
          (walk3_first s.tree l) (walk3_second s.tree l) (walk3_third s.tree l))

  -- The tables that `getPT` leaves, with the entry of the page set.
  abbrev pub mapped : ℕ → Machine
  mapped pa = record (l.m3) {
    words = update l.m3.words (entry_at l.pt (va / 2 ^ 12 % 512)) (with_flags pa);
  }

  pub mmap-Levels : (pa : ℕ) → mmap mmu fuel m va pa ≡ some (mapped pa)
  unfolding mmap
  mmap-Levels pa =
      let (i4, i3, i2, i1) = get_index_lem va in
      rw (i4, i3, i2, i1, step1, step2, step3, ◌>>=◌) (step4 pa)

-- `mmap` through the recursive slot is `getPT` on physical addresses, followed by the entry of
-- the page with the flags PR, RW and US: for a processor that walks from the top table, with
-- entry 510 naming that table, room for three pages in the bitmap, and zeros in the free pages.
pub mmap-get_pt :
    (mmu : Mmu) (fuel : ℕ) (m : Machine) (p va pa : ℕ)
    → Walks mmu p
    → Space m p
    → HasRoom fuel 3 m.pmap
    → mmap mmu fuel m va pa ≡ (do
      (m', pt) ← get_pt fuel m p va
      some (record m' { words = update m'.words (entry_at pt (get_pt_index va)) (with_flags pa) }))
mmap-get_pt mmu fuel m p va pa walks s room =
    let l = get_pt-Levels fuel 0 m p va s.tree s.bytes room in
    mmap-Levels mmu walks s l pa ∙ rw (Levels-returns s.tree l, (get_index_lem va).3) refl
