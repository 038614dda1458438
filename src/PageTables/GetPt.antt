-- ===== src/PageTables/GetPt.antt =====
-- `getPT` of sys/pagetab.c against the processor's walk.
use cse508_operating_system.Prelude.{
  ℕ, suc, ◌+◌, ◌*◌, ◌/◌, ◌%◌, ◌^◌, ◌<◌, ◌≡◌, ◌≢◌, sym, ap, ◌∙◌, inl, inr, Option, some, arith, bit,
  ◌>>=◌, >>=-eq-some,
}
use mathlib.Core.Path.{subst}
use cse508_operating_system.Pmap.Bitmap.{IsBytes}
use cse508_operating_system.PageTables.{Machine, entry_at, get_pt, next_table}
use cse508_operating_system.PageTables.Walk.{frame_of, follow, walk, translate, get_index_lem}
use cse508_operating_system.PageTables.Grow.{
  Owned, Slot, Tree, Grows, Tree-Owned, entry-InUse, Tree-Grows, Grows-trans,
}
use cse508_operating_system.PageTables.Level.{HasRoom, Found, next_table-Found}

-- The processor reads an entry of a tree as the table that was put there.
frame_of_table : {m : Machine} (c : ℕ) → Owned m c → frame_of (c + 7) ≡ some c
frame_of_table c o =
    let e : (c + 7) / 2 ^ 12 % 2 ^ 40 * 2 ^ 12 ≡ c = omega (arith, o.aligned, o.small) in
    let odd : bit (c + 7) 0 ≡ 1 = omega (arith, o.aligned) in rw (odd, e)

pub follow_named :
    {m : Machine} (words : ℕ → ℕ) (t i c : ℕ)
    → words (entry_at t i) ≡ c + 7
    → Owned m c
    → follow words t i ≡ some c
follow_named words t i c e o = ap frame_of e ∙ frame_of_table c o

-- A step of the walk that succeeds is the same after growth, and leads to a subtree.
pub follow_kept :
    {m m' : Machine} (n t i c : ℕ)
    → Tree (suc n) m t
    → Grows m m'
    → i < 512
    → follow m.words t i ≡ some c
    → (follow m'.words t i ≡ some c) × Tree n m c
follow_kept {m} {m'} n t i c tree g lt e = by_slot (tree.1 i lt)
  where
    by_slot : Slot (Tree n m) (m.words (entry_at t i)) → (follow m'.words t i ≡ some c) × Tree n m c
    by_slot (inl z) = absurd (ground arith)
    by_slot (inr (b, named, sub)) =
        let both : ◌≡◌ {A = Option ℕ} (some b) (some c) =
          sym (follow_named m.words t i b named (Tree-Owned n sub)) ∙ e in
        let same : b ≡ c = cc in
        (
          follow_named m'.words t i b (g.keeps _ (entry-InUse tree.0 i lt) (omega arith) ∙ named)
                (Tree-Owned n sub)
              ∙ ap some same,
          subst (Tree n m) same sub,
        )

leaf_kept :
    {m m' : Machine} (t i c : ℕ)
    → Owned m t
    → Grows m m'
    → i < 512
    → follow m.words t i ≡ some c
    → follow m'.words t i ≡ some c
leaf_kept {m} t i c o g lt e =
    let ne : m.words (entry_at t i) ≢ 0 = λ z. ground arith in
    ap frame_of (g.keeps _ (entry-InUse o i lt) ne) ∙ e

-- What the processor translated before growth it translates alike afterwards.
pub translate_kept :
    {m m' : Machine} (pml4 va pa : ℕ)
    → Tree 3 m pml4
    → Grows m m'
    → translate m.words pml4 va ≡ some pa
    → translate m'.words pml4 va ≡ some pa
translate_kept {m} {m'} pml4 va pa tree g ok =
    let (pt, walked, inner) = >>=-eq-some (walk m.words pml4 va) _ ok in
    let (frame, leaf, sum) = >>=-eq-some (follow m.words pt (va / 2 ^ 12 % 512)) _ inner in
    let (pdp, first, rest) = >>=-eq-some (follow m.words pml4 (va / 2 ^ 39 % 512)) _ walked in
    let (pd, second, third) = >>=-eq-some (follow m.words pdp (va / 2 ^ 30 % 512)) _ rest in
    let (first', tree1) = follow_kept 2 pml4 (va / 2 ^ 39 % 512) pdp tree g (omega arith) first in
    let (second', tree2) = follow_kept 1 pdp (va / 2 ^ 30 % 512) pd tree1 g (omega arith) second in
    let (third', tree3) = follow_kept 0 pd (va / 2 ^ 21 % 512) pt tree2 g (omega arith) third in
    let leaf' = leaf_kept pt (va / 2 ^ 12 % 512) frame tree3 g (omega arith) leaf in
    rw (first', second', third', leaf') sum

-- The three levels of `getPT`, one after the other.
get_pt_steps :
    (fuel : ℕ) (m m1 m2 : Machine) (pml4 va pdp pd : ℕ) (r : Option (Machine × ℕ))
    → next_table fuel m pml4 (va / 2 ^ 39 % 512) ≡ some (m1, pdp)
    → next_table fuel m1 pdp (va / 2 ^ 30 % 512) ≡ some (m2, pd)
    → next_table fuel m2 pd (va / 2 ^ 21 % 512) ≡ r
    → get_pt fuel m pml4 va ≡ r
unfolding get_pt
get_pt_steps fuel m m1 m2 pml4 va pdp pd r e1 e2 e3 =
    let (i4, i3, i2, i1) = get_index_lem va in rw (i4, i3, i2, e1, e2, ◌>>=◌) e3

-- The tables that the three levels of `getPT` find or make, and the machine behind each.
pub record Levels (fuel k : ℕ) (m : Machine) (pml4 va : ℕ) : Type 0 where
  pub m1 : Machine
  pub m2 : Machine
  pub m3 : Machine
  pub pdp : ℕ
  pub pd : ℕ
  pub pt : ℕ
  pub first : Found fuel 2 (suc (suc k)) m pml4 (va / 2 ^ 39 % 512) m1 pdp
  pub second : Found fuel 1 (suc k) m1 pdp (va / 2 ^ 30 % 512) m2 pd
  pub third : Found fuel 0 k m2 pd (va / 2 ^ 21 % 512) m3 pt

pub get_pt-Levels :
    (fuel k : ℕ) (m : Machine) (pml4 va : ℕ)
    → Tree 3 m pml4
    → IsBytes m.pmap.list
    → HasRoom fuel (suc (suc (suc k))) m.pmap
    → Levels fuel k m pml4 va
get_pt-Levels fuel k m pml4 va tree bytes room =
    let (m1, pdp, f1) =
      next_table-Found fuel 2 (suc (suc k)) m pml4 (va / 2 ^ 39 % 512) tree (omega arith) bytes
        room in
    let (m2, pd, f2) =
      next_table-Found fuel 1 (suc k) m1 pdp (va / 2 ^ 30 % 512) f1.tree (omega arith) f1.bytes
        f1.room in
    let (m3, pt, f3) =
      next_table-Found fuel 0 k m2 pd (va / 2 ^ 21 % 512) f2.tree (omega arith) f2.bytes f2.room in
    record {
      m1 = m1;
      m2 = m2;
      m3 = m3;
      pdp = pdp;
      pd = pd;
      pt = pt;
      first = f1;
      second = f2;
      third = f3;
    }

module _ {fuel k : ℕ} {m : Machine} {pml4 va : ℕ} (tree : Tree 3 m pml4)
    (l : Levels fuel k m pml4 va) where
  pub Levels-returns : get_pt fuel m pml4 va ≡ some (l.m3, l.pt)
  Levels-returns =
      get_pt_steps fuel m l.m1 l.m2 pml4 va l.pdp l.pd (some (l.m3, l.pt)) l.first.returns
        l.second.returns l.third.returns

  pub Levels-Grows : Grows m l.m3
  Levels-Grows = Grows-trans l.first.grows (Grows-trans l.second.grows l.third.grows)

  pub Levels-tree1 : Tree 3 l.m1 pml4
  Levels-tree1 = Tree-Grows 3 pml4 l.first.grows tree

  pub Levels-tree2 : Tree 2 l.m2 l.pdp
  Levels-tree2 = Tree-Grows 2 l.pdp l.second.grows l.first.tree

  -- The walk, in the machine behind each level.
  pub walk1_first : follow l.m1.words pml4 (va / 2 ^ 39 % 512) ≡ some l.pdp
  walk1_first =
      follow_named l.m1.words pml4 (va / 2 ^ 39 % 512) l.pdp l.first.names
        (Tree-Owned 2 l.first.tree)

  pub walk2_first : follow l.m2.words pml4 (va / 2 ^ 39 % 512) ≡ some l.pdp
  walk2_first =
      (follow_kept 2 pml4 (va / 2 ^ 39 % 512) l.pdp Levels-tree1 l.second.grows (omega arith)
        walk1_first).0

  pub walk2_second : follow l.m2.words l.pdp (va / 2 ^ 30 % 512) ≡ some l.pd
  walk2_second =
      follow_named l.m2.words l.pdp (va / 2 ^ 30 % 512) l.pd l.second.names
        (Tree-Owned 1 l.second.tree)

  pub walk3_first : follow l.m3.words pml4 (va / 2 ^ 39 % 512) ≡ some l.pdp
  walk3_first =
      (follow_kept 2 pml4 (va / 2 ^ 39 % 512) l.pdp (Tree-Grows 3 pml4 l.second.grows Levels-tree1)
        l.third.grows (omega arith) walk2_first).0

  pub walk3_second : follow l.m3.words l.pdp (va / 2 ^ 30 % 512) ≡ some l.pd
  walk3_second =
      (follow_kept 1 l.pdp (va / 2 ^ 30 % 512) l.pd Levels-tree2 l.third.grows (omega arith)
        walk2_second).0

  pub walk3_third : follow l.m3.words l.pd (va / 2 ^ 21 % 512) ≡ some l.pt
  walk3_third = follow_named l.m3.words l.pd (va / 2 ^ 21 % 512) l.pt l.third.names l.third.tree

-- From a tree of tables whose bitmap has room for three pages, `getPT` returns the page table
-- that the processor's walk for the address reaches in the tables as they are then. The tables
-- are a tree again, the page table is a page in use, and every address that was translated before
-- is translated as before.
pub get_pt_lem :
    (fuel : ℕ) (m : Machine) (pml4 va : ℕ)
    → Tree 3 m pml4
    → IsBytes m.pmap.list
    → HasRoom fuel 3 m.pmap
    → (m' : Machine) × (pt : ℕ) × (get_pt fuel m pml4 va ≡ some (m', pt))
      × (walk m'.words pml4 va ≡ some pt)
      × Tree 3 m' pml4
      × Owned m' pt
      × ((va' pa : ℕ)
          → translate m.words pml4 va' ≡ some pa
          → translate m'.words pml4 va' ≡ some pa)
get_pt_lem fuel m pml4 va tree bytes room =
    let l = get_pt-Levels fuel 0 m pml4 va tree bytes room in
    (
      l.m3,
      l.pt,
      Levels-returns tree l,
      rw (walk3_first tree l, walk3_second tree l) (walk3_third tree l),
      Tree-Grows 3 pml4 (Levels-Grows tree l) tree,
      l.third.tree,
      λ va' pa. translate_kept pml4 va' pa tree (Levels-Grows tree l),
    )
