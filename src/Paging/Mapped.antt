-- ===== src/Paging/Mapped.antt =====
-- What `mmap` leaves: the page is translated, and all other translations are as before.
use cse508_operating_system.Prelude.{
  ℕ, suc, ◌+◌, ◌*◌, ◌/◌, ◌%◌, ◌^◌, ◌<◌, ◌≡◌, ◌≢◌, refl, ap, ◌∙◌, some, arith, update, update_self,
  update_ne,
}
use cse508_operating_system.Pmap.Bitmap.{page_bit}
use cse508_operating_system.PageTables.{Machine, entry_at, with_flags}
use cse508_operating_system.PageTables.Walk.{translate}
use cse508_operating_system.PageTables.Level.{HasRoom, with_flags_lem}
use cse508_operating_system.PageTables.GetPt.{Levels, get_pt-Levels, Levels-Grows}
use cse508_operating_system.Paging.{Mmu, mmap}
use cse508_operating_system.Paging.Refine.{Walks, self3, mapped, mmap-Levels}
use cse508_operating_system.Paging.Leaf.{AtMostSelf, follow_word}
use cse508_operating_system.Paging.Levels.{
  Rooted, Tables, Tables-Rooted, as_rooted, Standing, Levels-Standing,
}
use cse508_operating_system.Paging.Untouched.{IsData, levels_untouched}
use cse508_operating_system.Paging.Fill.{filled, filled_at, filled_self, filled-Rooted, others_kept}

-- What maps a page: its address is translated, the addresses of all other pages outside of the
-- recursive slot are translated as before, and the tables can be mapped in again.
pub record Mapped (fuel k : ℕ) (m : Machine) (p va pa : ℕ) (m' : Machine) : Type 0 where
  pub tables : Tables m' p
  pub room : HasRoom fuel k m'.pmap
  pub kernelfree : m'.pmap.kernelfree ≡ m.pmap.kernelfree
  pub used : (q : ℕ) → page_bit m.pmap.list q ≡ 1 → page_bit m'.pmap.list q ≡ 1
  pub here :
      (off : ℕ) → off < 2 ^ 12 → translate m'.words p (va / 2 ^ 12 * 2 ^ 12 + off) ≡ some (pa + off)
  pub others :
      (va' pa' : ℕ)
      → va' / 2 ^ 39 % 512 ≢ 510
      → va' / 2 ^ 12 % 2 ^ 36 ≢ va / 2 ^ 12 % 2 ^ 36
      → translate m.words p va' ≡ some pa'
      → translate m'.words p va' ≡ some pa'

module _ (mmu : Mmu) (fuel k : ℕ) (m : Machine) (p va pa : ℕ) (walks : Walks mmu p) (t : Tables m p)
    (l : Levels fuel k m p va) (s : Standing l) where
  -- The entry of the page.
  abbrev IsEntry : ℕ → Type 0
  IsEntry i = i ≡ va / 2 ^ 12 % 512

  abbrev entry_set : ℕ → ℕ
  entry_set = update l.m3.words (entry_at l.pt (va / 2 ^ 12 % 512)) (with_flags pa)

  entry_bound : (i : ℕ) → IsEntry i → i < 512
  entry_bound i w = omega arith

  entry_miss : (a : ℕ) → ((i : ℕ) → IsEntry i → a ≢ entry_at l.pt i) → entry_set a ≡ l.m3.words a
  entry_miss a out =
      update_ne l.m3.words (entry_at l.pt (va / 2 ^ 12 % 512)) a (with_flags pa)
        (out (va / 2 ^ 12 % 512) refl)

  at_most : AtMostSelf l.m3 p
  at_most c e =
      let word = (follow_word 2 p 510 p s.tree (omega arith) (self3 mmu walks t.space l)).0 in
      omega (arith, e, word)

  abbrev rooted :
      Rooted (filled t.space.tree l s at_most IsEntry entry_set entry_bound entry_miss) p
  rooted = filled-Rooted t.space.tree l s at_most IsEntry entry_set entry_bound entry_miss

  entry_set-Mapped :
      pa ≡ pa / 2 ^ 12 * 2 ^ 12
      → pa < 2 ^ 52
      → Mapped fuel k m p va pa (mapped mmu walks t.space l pa)
  entry_set-Mapped aligned small = record {
    tables = record {
      space = record {
        tree = rooted.tree;
        self =
            filled_self t.space.tree l s at_most IsEntry entry_set entry_bound entry_miss
              (self3 mmu walks t.space l);
        bytes = rooted.bytes;
        free = rooted.free;
      };
      place = rooted.place;
      placed = rooted.placed;
    };
    room = l.third.room;
    kernelfree = s.kernelfree;
    used = (Levels-Grows t.space.tree l).used;
    here = λ off lt.
        (let word : entry_set (entry_at l.pt ((va / 2 ^ 12 * 2 ^ 12 + off) / 2 ^ 12 % 512))
              ≡ pa + 7 =
            (let same : (va / 2 ^ 12 * 2 ^ 12 + off) / 2 ^ 12 % 512 ≡ va / 2 ^ 12 % 512 =
                omega arith in
              rw same (
                update_self l.m3.words (entry_at l.pt (va / 2 ^ 12 % 512)) (with_flags pa)
                ∙ with_flags_lem pa aligned)) in
          let low : (va / 2 ^ 12 * 2 ^ 12 + off) % 2 ^ 12 ≡ off = omega arith in
          filled_at t.space.tree l s at_most IsEntry entry_set entry_bound entry_miss
            (va / 2 ^ 12 * 2 ^ 12 + off) pa (omega arith) word aligned small
          ∙ ap (λ (x : ℕ). some (pa + x)) low);
    others = λ va' pa' out other ok.
        others_kept t.space.tree l s at_most IsEntry entry_set entry_bound entry_miss va' pa' out
          (λ near w. other (omega arith)) ok;
  }

-- `mmap` of a page outside of the recursive slot on a page-aligned frame below 2 ^ 52, in tables
-- in which every table has one place, with zeros in the free pages and room for three pages in
-- the bitmap: it returns; the addresses of the page are translated to those of the frame; every
-- address of another page outside of the recursive slot that was translated is translated as
-- before; pages in use stay so; and the tables are as they must be for the next call.
pub mmap_lem :
    (mmu : Mmu) (fuel k : ℕ) (m : Machine) (p va pa : ℕ)
    → Walks mmu p
    → Tables m p
    → HasRoom fuel (suc (suc (suc k))) m.pmap
    → va / 2 ^ 39 % 512 ≢ 510
    → pa ≡ pa / 2 ^ 12 * 2 ^ 12
    → pa < 2 ^ 52
    → (m' : Machine) × (mmap mmu fuel m va pa ≡ some m') × Mapped fuel k m p va pa m'
mmap_lem mmu fuel k m p va pa walks t room plain aligned small =
    let l = get_pt-Levels fuel k m p va t.space.tree t.space.bytes room in
    let s = Levels-Standing (Tables-Rooted t) plain l in
    (
      mapped mmu walks t.space l pa,
      mmap-Levels mmu walks t.space l pa,
      entry_set-Mapped mmu fuel k m p va pa walks t l s aligned small,
    )

-- `mmap` while the page `u` holds data: that page is as before.
pub mmap-IsData :
    (mmu : Mmu) (fuel k : ℕ) (m : Machine) (p va pa u : ℕ) (t : Tables m p)
    → Walks mmu p
    → HasRoom fuel (suc (suc (suc k))) m.pmap
    → va / 2 ^ 39 % 512 ≢ 510
    → pa ≡ pa / 2 ^ 12 * 2 ^ 12
    → pa < 2 ^ 52
    → IsData (as_rooted t) u
    → (m' : Machine) × (mmap mmu fuel m va pa ≡ some m')
      × Mapped fuel k m p va pa m'
      × ((a : ℕ) → a / 2 ^ 12 ≡ u / 2 ^ 12 → m'.words a ≡ m.words a)
mmap-IsData mmu fuel k m p va pa u t walks room plain aligned small d =
    let l = get_pt-Levels fuel k m p va t.space.tree t.space.bytes room in
    let s = Levels-Standing (Tables-Rooted t) plain l in
    (
      mapped mmu walks t.space l pa,
      mmap-Levels mmu walks t.space l pa,
      entry_set-Mapped mmu fuel k m p va pa walks t l s aligned small,
      λ a in_page.
          (let (levels, out) = levels_untouched (as_rooted t) plain l d a in_page in
            update_ne l.m3.words (entry_at l.pt (va / 2 ^ 12 % 512)) a (with_flags pa)
              (out (va / 2 ^ 12 % 512) (omega arith))
            ∙ levels),
    )
