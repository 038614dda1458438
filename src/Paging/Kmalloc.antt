-- ===== src/Paging/Kmalloc.antt =====
-- The allocators of sys/pmap.c that take pages and map them: `kmalloc_page`, `kmalloc`.
use cse508_operating_system.Prelude.{
  ℕ, suc, ◌+◌, ◌*◌, ◌/◌, ◌%◌, ◌^◌, ◌<◌, ◌≡◌, ◌≢◌, refl, ap, ◌∙◌, ◌⊎◌, inl, inr, some, arith, u64,
  ◌>>=◌,
}
use cse508_operating_system.Pmap.{Pmap, page_size, kmalloc_mem}
use cse508_operating_system.Pmap.Bitmap.{page_bit}
use cse508_operating_system.Pmap.Alloc.{Takes, kmalloc_mem_cases}
use cse508_operating_system.PageTables.{Machine}
use cse508_operating_system.PageTables.Walk.{translate}
use cse508_operating_system.PageTables.Level.{HasRoom}
use cse508_operating_system.Paging.{Mmu, mmap, map_fresh}
use cse508_operating_system.Paging.Room.{HasRoom-moved}
use cse508_operating_system.Paging.Refine.{Walks}
use cse508_operating_system.Paging.Levels.{Tables}
use cse508_operating_system.Paging.Mapped.{mmap-IsData}
use cse508_operating_system.Paging.Taken.{Tables-taken, taken-IsData}

-- A page that is mapped on a frame of its own, in which all words are zero, `kernelfree` moved on.
pub record Backed (fuel k : ℕ) (m : Machine) (p va frame : ℕ) (m' : Machine) : Type 0 where
  pub tables : Tables m' p
  pub room : HasRoom fuel k m'.pmap
  pub kernelfree : m'.pmap.kernelfree ≡ u64 (m.pmap.kernelfree + page_size)
  pub used : (q : ℕ) → page_bit m.pmap.list q ≡ 1 → page_bit m'.pmap.list q ≡ 1
  pub aligned : frame ≡ frame / 2 ^ 12 * 2 ^ 12
  pub was_free : page_bit m.pmap.list (frame / 2 ^ 12) ≡ 0
  pub taken : page_bit m'.pmap.list (frame / 2 ^ 12) ≡ 1
  pub zeros : (a : ℕ) → a / 2 ^ 12 ≡ frame / 2 ^ 12 → m'.words a ≡ 0
  pub here :
      (off : ℕ)
      → off < 2 ^ 12
      → translate m'.words p (va / 2 ^ 12 * 2 ^ 12 + off) ≡ some (frame + off)
  pub others :
      (va' pa' : ℕ)
      → va' / 2 ^ 39 % 512 ≢ 510
      → va' / 2 ^ 12 % 2 ^ 36 ≢ va / 2 ^ 12 % 2 ^ 36
      → translate m.words p va' ≡ some pa'
      → translate m'.words p va' ≡ some pa'

-- `kernelfree` moved on by a page.
abbrev pub advanced : Machine → ℕ → Machine
advanced m f = record m { pmap = record (m.pmap) { kernelfree = u64 (f + page_size) } }

map_fresh_steps :
    (mmu : Mmu) (fuel : ℕ) (m m' : Machine) (s' : Pmap) (va frame : ℕ)
    → kmalloc_mem fuel m.pmap ≡ some (s', frame)
    → mmap mmu fuel (record m { pmap = s' }) va frame ≡ some m'
    → m'.pmap.kernelfree ≡ m.pmap.kernelfree
    → map_fresh mmu fuel m va ≡ some (advanced m' m.pmap.kernelfree)
unfolding map_fresh
map_fresh_steps mmu fuel m m' s' va frame call ret same =
    rw (call, ret, ◌>>=◌) (ap (λ (f : ℕ). some (advanced m' f)) same)

pub map_fresh_lem :
    (mmu : Mmu) (fuel k : ℕ) (m : Machine) (p va : ℕ)
    → Walks mmu p
    → Tables m p
    → HasRoom fuel (suc (suc (suc (suc k)))) m.pmap
    → va / 2 ^ 39 % 512 ≢ 510
    → (m' : Machine) × (frame : ℕ) × (map_fresh mmu fuel m va ≡ some m')
      × Backed fuel k m p va frame m'
map_fresh_lem mmu fuel k m p va walks t (s', frame, call, ne, room) plain =
    by_cases (kmalloc_mem_cases m.pmap fuel s' frame t.space.bytes call)
  where
    by_cases :
        ((page : ℕ) × Takes 528 m.pmap s' frame page) ⊎ ((frame ≡ 0) × (s' ≡ m.pmap))
        → (m' : Machine) × (frame : ℕ) × (map_fresh mmu fuel m va ≡ some m')
          × Backed fuel k m p va frame m'
    by_cases (inr null) = absurd (ne null.0)
    by_cases (inl (page, takes)) =
        let more : (q : ℕ) → page_bit m.pmap.list q ≡ 1 → page_bit s'.list q ≡ 1 =
          λ q h. ground (arith, takes.marks q) in
        let at_page : frame / 2 ^ 12 ≡ page = omega (arith, takes.address) in
        let clear : page_bit m.pmap.list (frame / 2 ^ 12) ≡ 0 =
          rw at_page (takes.was_free page (omega arith) refl) in
        let set : page_bit s'.list (frame / 2 ^ 12) ≡ 1 =
          rw at_page (ground (arith, takes.marks page)) in
        let aligned : frame ≡ frame / 2 ^ 12 * 2 ^ 12 = omega (arith, takes.address) in
        let (t', d) = taken-IsData m p s' frame t more takes.bytes aligned clear set in
        let (m', ret, mapped, same) =
          mmap-IsData mmu fuel k (record m { pmap = s' }) p va frame frame t' walks room plain
            aligned (omega (arith, takes.address, takes.in_list)) d in
        (
          advanced m' m.pmap.kernelfree,
          frame,
          map_fresh_steps mmu fuel m m' s' va frame call ret (mapped.kernelfree ∙ takes.same_free),
          record {
            tables =
                Tables-taken m' p (advanced m' m.pmap.kernelfree).pmap mapped.tables (λ q h. h)
                  mapped.tables.space.bytes;
            room = HasRoom-moved fuel k _ _ m'.pmap mapped.room;
            kernelfree = refl;
            used = λ q h. mapped.used q (more q h);
            aligned = aligned;
            was_free = clear;
            taken = mapped.used (frame / 2 ^ 12) set;
            zeros = λ a in_page.
                same a in_page
                ∙ t.space.free a (omega (arith, in_page, at_page, takes.from_start))
                    (omega (arith, in_page, at_page, takes.in_list))
                    (ap (page_bit m.pmap.list) in_page ∙ clear);
            here = mapped.here;
            others = mapped.others;
          },
        )
