-- ===== src/Paging/Fill.antt =====
-- Filling entries of the page table that the three levels reach: what is translated then.
use cse508_operating_system.Prelude.{
  ℕ, ◌+◌, ◌*◌, ◌/◌, ◌%◌, ◌^◌, ◌≤◌, ◌<◌, ◌≡◌, ◌≢◌, sym, ap, ◌∙◌, List, [], ◌∷◌, some, arith, length,
  bit, refl,
}
use cse508_operating_system.PageTables.{Machine, entry_at}
use cse508_operating_system.PageTables.Walk.{frame_of, follow, translate}
use cse508_operating_system.PageTables.Grow.{Owned, Tree}
use cse508_operating_system.PageTables.GetPt.{
  Levels, Levels-Grows, translate_kept, walk3_first, walk3_second, walk3_third,
}
use cse508_operating_system.Paging.Recursive.{by_indices}
use cse508_operating_system.Paging.Leaf.{
  AtMostSelf, translate-Route, stored-Placed, stored-Tree, stored-FreeIsZero, stored-follow,
}
use cse508_operating_system.Paging.Levels.{Rooted, Standing}

-- The three upper indices of an address tell its page table.
same_table :
    (va va' : ℕ)
    → ◌≡◌ {A = List ℕ}
        (va' / 2 ^ 21 % 512 ∷ va' / 2 ^ 30 % 512 ∷ va' / 2 ^ 39 % 512 ∷ [])
        (va / 2 ^ 21 % 512 ∷ va / 2 ^ 30 % 512 ∷ va / 2 ^ 39 % 512 ∷ [])
    → va' / 2 ^ 21 % 2 ^ 27 ≡ va / 2 ^ 21 % 2 ^ 27
same_table va va' e =
    let e2 : va' / 2 ^ 21 % 512 ≡ va / 2 ^ 21 % 512 = cc in
    let e3 : va' / 2 ^ 30 % 512 ≡ va / 2 ^ 30 % 512 = cc in
    let e4 : va' / 2 ^ 39 % 512 ≡ va / 2 ^ 39 % 512 = cc in omega (arith, e2, e3, e4)

frame_of_page : (pa : ℕ) → pa ≡ pa / 2 ^ 12 * 2 ^ 12 → pa < 2 ^ 52 → frame_of (pa + 7) ≡ some pa
frame_of_page pa aligned small =
    let e : (pa + 7) / 2 ^ 12 % 2 ^ 40 * 2 ^ 12 ≡ pa = omega (arith, aligned, small) in
    let odd : bit (pa + 7) 0 ≡ 1 = omega (arith, aligned) in rw (odd, e)

module _ {fuel k : ℕ} {m : Machine} {p va : ℕ} (tree : Tree 3 m p) (l : Levels fuel k m p va)
    (s : Standing l) (self : AtMostSelf l.m3 p) (written : ℕ → Type 0) (words : ℕ → ℕ)
    (bound : (i : ℕ) → written i → i < 512)
    (miss : (a : ℕ) → ((i : ℕ) → written i → a ≢ entry_at l.pt i) → words a ≡ l.m3.words a) where
  abbrev pub filled : Machine
  filled = record (l.m3) { words = words }

  deep : 3 ≤ length (s.place l.pt)
  deep = omega (arith, ap length s.place0)

  -- A step of the walk from a table that stands elsewhere.
  step_kept :
      (u i c : ℕ)
      → Owned l.m3 u
      → i < 512
      → (u ≡ l.pt → ¬ written i)
      → follow l.m3.words u i ≡ some c
      → follow filled.words u i ≡ some c
  step_kept =
      stored-follow l.m3 p s.place s.placed s.tree l.pt written words l.third.tree deep bound miss

  -- A table with a shorter place is another table.
  shallow : (u : ℕ) (i : ℕ) → length (s.place u) < 3 → u ≡ l.pt → ¬ written i
  shallow u i lt z = absurd (omega (arith, deep, ap (λ (x : ℕ). length (s.place x)) z))

  by_steps :
      (va' q3 q2 q1 frame : ℕ)
      → follow filled.words p (va' / 2 ^ 39 % 512) ≡ some q3
      → follow filled.words q3 (va' / 2 ^ 30 % 512) ≡ some q2
      → follow filled.words q2 (va' / 2 ^ 21 % 512) ≡ some q1
      → follow filled.words q1 (va' / 2 ^ 12 % 512) ≡ some frame
      → translate filled.words p va' ≡ some (frame + va' % 2 ^ 12)
  by_steps va' q3 q2 q1 frame f4 f3 f2 f1 = rw (f4, f3, f2, f1)

  pub others_kept :
      (va' pa' : ℕ)
      → va' / 2 ^ 39 % 512 ≢ 510
      → (va' / 2 ^ 21 % 2 ^ 27 ≡ va / 2 ^ 21 % 2 ^ 27 → ¬ written (va' / 2 ^ 12 % 512))
      → translate m.words p va' ≡ some pa'
      → translate filled.words p va' ≡ some pa'
  others_kept va' pa' out other ok =
      let r =
        translate-Route l.m3 p s.place s.placed s.tree va' pa' out
          (translate_kept p va' pa' tree (Levels-Grows tree l) ok) in
      by_steps va' r.pdp r.pd r.pt r.frame
        (step_kept p _ r.pdp s.tree.0 (omega arith)
          (shallow p _ (omega (arith, ap length s.placed.root))) r.first)
        (step_kept r.pdp _ r.pd r.owned2 (omega arith)
          (shallow r.pdp _ (omega (arith, ap length r.place2))) r.second)
        (step_kept r.pd _ r.pt r.owned1 (omega arith)
          (shallow r.pd _ (omega (arith, ap length r.place1))) r.third)
        (step_kept r.pt _ r.frame r.owned0 (omega arith)
          (λ z. other (same_table va va' (sym r.place0 ∙ ap s.place z ∙ s.place0))) r.leaf)
      ∙ r.address

  -- An address of the page table's reach whose entry is filled with a frame.
  pub filled_at :
      (va' pa : ℕ)
      → va' / 2 ^ 21 % 2 ^ 27 ≡ va / 2 ^ 21 % 2 ^ 27
      → words (entry_at l.pt (va' / 2 ^ 12 % 512)) ≡ pa + 7
      → pa ≡ pa / 2 ^ 12 * 2 ^ 12
      → pa < 2 ^ 52
      → translate filled.words p va' ≡ some (pa + va' % 2 ^ 12)
  filled_at va' pa near word aligned small =
      by_indices filled.words p va' (va / 2 ^ 39 % 512) (va / 2 ^ 30 % 512) (va / 2 ^ 21 % 512)
        (va' / 2 ^ 12 % 512) l.pdp l.pd l.pt pa (va' % 2 ^ 12) (omega arith) (omega arith)
        (omega arith) refl refl
        (step_kept p (va / 2 ^ 39 % 512) l.pdp s.tree.0 (omega arith)
          (shallow p _ (omega (arith, ap length s.placed.root))) (walk3_first tree l))
        (step_kept l.pdp (va / 2 ^ 30 % 512) l.pd s.owned2 (omega arith)
          (shallow l.pdp (va / 2 ^ 30 % 512) (omega (arith, ap length s.place2)))
          (walk3_second tree l))
        (step_kept l.pd (va / 2 ^ 21 % 512) l.pt s.owned1 (omega arith)
          (shallow l.pd (va / 2 ^ 21 % 512) (omega (arith, ap length s.place1)))
          (walk3_third tree l))
        (ap frame_of word ∙ frame_of_page pa aligned small)

  pub filled_self : follow l.m3.words p 510 ≡ some p → follow filled.words p 510 ≡ some p
  filled_self =
      step_kept p 510 p s.tree.0 (omega arith)
        (shallow p _ (omega (arith, ap length s.placed.root)))

  same_start : (i : ℕ) → i < 512 → entry_at p 510 ≡ entry_at l.pt i → p ≡ l.pt
  same_start i lt z = omega (arith, z, s.tree.0.aligned, l.third.tree.aligned)

  pub filled_self_word : words (entry_at p 510) ≡ l.m3.words (entry_at p 510)
  filled_self_word = miss (entry_at p 510) λ i w z. omega (
    arith,
    z,
    bound i w,
    s.tree.0.aligned,
    l.third.tree.aligned,
    deep,
    ap length s.placed.root,
    ap (λ (x : ℕ). length (s.place x)) (same_start i (bound i w) z),
  )

  pub filled-Rooted : Rooted filled p
  filled-Rooted = record {
    tree =
        stored-Tree l.m3 p s.place s.placed s.tree l.pt written words l.third.tree deep bound miss 3
          p self (omega (arith, ap length s.placed.root)) s.tree;
    bytes = l.third.bytes;
    free =
        stored-FreeIsZero l.m3 p s.place s.placed s.tree l.pt written words l.third.tree deep bound
          miss s.free;
    place = s.place;
    placed =
        stored-Placed l.m3 p s.place s.placed s.tree l.pt written words l.third.tree deep bound
          miss;
  }
