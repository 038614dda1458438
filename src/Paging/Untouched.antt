-- ===== src/Paging/Untouched.antt =====
-- Pages in use that are not tables: `mmap` of sys/pagetab.c does not write them.
use cse508_operating_system.Prelude.{
  ℕ, suc, ◌*◌, ◌/◌, ◌%◌, ◌^◌, ◌≤◌, ◌<◌, ◌≡◌, ◌≢◌, ap, ◌∙◌, arith, length,
}
use cse508_operating_system.Pmap.Bitmap.{page_bit}
use cse508_operating_system.PageTables.{Machine, entry_at}
use cse508_operating_system.PageTables.Grow.{Tree-Owned}
use cse508_operating_system.PageTables.GetPt.{Levels}
use cse508_operating_system.Paging.Refine.{free1, free2}
use cse508_operating_system.Paging.Levels.{
  Rooted, level_word, placed1, placed2, placed3, at2, at1, at0,
}

-- A page-aligned page in use that has more than three indices as its place.
pub record IsData {m : Machine} {p : ℕ} (t : Rooted m p) (u : ℕ) : Type 0 where
  pub aligned : u ≡ u / 2 ^ 12 * 2 ^ 12
  pub used : page_bit m.pmap.list (u / 2 ^ 12) ≡ 1
  pub deep : 4 ≤ length (t.place u)

module _ {fuel k : ℕ} {m : Machine} {p va u : ℕ} (t : Rooted m p) (plain : va / 2 ^ 39 % 512 ≢ 510)
    (l : Levels fuel k m p va) (d : IsData t u) where
  used1 : page_bit l.m1.pmap.list (u / 2 ^ 12) ≡ 1
  used1 = l.first.grows.used (u / 2 ^ 12) d.used

  used2 : page_bit l.m2.pmap.list (u / 2 ^ 12) ≡ 1
  used2 = l.second.grows.used (u / 2 ^ 12) used1

  kept1 : (placed1 t plain l).place' u ≡ t.place u
  kept1 = (placed1 t plain l).kept u d.used

  kept2 : (placed2 t plain l).place' u ≡ t.place u
  kept2 = (placed2 t plain l).kept u used1 ∙ kept1

  kept3 : (placed3 t plain l).place' u ≡ t.place u
  kept3 = (placed3 t plain l).kept u used2 ∙ kept2

  top_apart : u ≢ p
  top_apart e = omega (arith, d.deep, ap length t.placed.root, ap (λ (x : ℕ). length (t.place x)) e)

  pdp_apart : u ≢ l.pdp
  pdp_apart e = omega (
    arith,
    d.deep,
    ap length kept1,
    ap length (at2 t plain l),
    ap (λ (x : ℕ). length ((placed1 t plain l).place' x)) e,
  )

  pd_apart : u ≢ l.pd
  pd_apart e = omega (
    arith,
    d.deep,
    ap length kept2,
    ap length (at1 t plain l),
    ap (λ (x : ℕ). length ((placed2 t plain l).place' x)) e,
  )

  pub pt_apart : u ≢ l.pt
  pt_apart e = omega (
    arith,
    d.deep,
    ap length kept3,
    ap length (at0 t plain l),
    ap (λ (x : ℕ). length ((placed3 t plain l).place' x)) e,
  )

  -- An entry of another page-aligned page is not in the page.
  outside :
      (q i a : ℕ)
      → q ≡ q / 2 ^ 12 * 2 ^ 12
      → u ≢ q
      → i < 512
      → a / 2 ^ 12 ≡ u / 2 ^ 12
      → a ≢ entry_at q i
  outside q i a aligned ne lt in_page e = ne (omega (arith, e, aligned, in_page, d.aligned))

  -- The three levels leave the page as it is, and the entry of the page table is not in it.
  pub levels_untouched :
      (a : ℕ)
      → a / 2 ^ 12 ≡ u / 2 ^ 12
      → (l.m3.words a ≡ m.words a) × ((i : ℕ) → i < 512 → a ≢ entry_at l.pt i)
  levels_untouched a in_page = (
    level_word t plain l 0 k l.m2 l.m3 l.pd (va / 2 ^ 21 % 512) l.pt a l.second.bytes
          (free2 t.tree t.bytes t.free l) l.third
          (outside l.pd (va / 2 ^ 21 % 512) a (Tree-Owned 1 l.second.tree).aligned pd_apart
            (omega arith) in_page)
        ∙ level_word t plain l 1 (suc k) l.m1 l.m2 l.pdp (va / 2 ^ 30 % 512) l.pd a l.first.bytes
            (free1 t.tree t.bytes t.free l) l.second
            (outside l.pdp (va / 2 ^ 30 % 512) a (Tree-Owned 2 l.first.tree).aligned pdp_apart
              (omega arith) in_page)
        ∙ level_word t plain l 2 (suc (suc k)) m l.m1 p (va / 2 ^ 39 % 512) l.pdp a t.bytes t.free
            l.first
            (outside p (va / 2 ^ 39 % 512) a (Tree-Owned 3 t.tree).aligned top_apart (omega arith)
              in_page),
    λ i lt. outside l.pt i a (Tree-Owned 0 l.third.tree).aligned pt_apart lt in_page,
  )
