-- ===== src/Paging/Room.antt =====
-- What the choice of a page does not read: `kernelfree`, and where the bitmap is reached.
use cse508_operating_system.Prelude.{
  ℕ, zero, suc, ◌-◌, ◌+◌, ◌*◌, ◌/◌, ◌≤◌, ◌<◌, arith, ◌≡◌, refl, ap, Option, none, some, >>=-eq-some,
}
use cse508_operating_system.Pmap.{
  Pmap, page_size, max_pages, kmalloc_mem, alloc_from, take_page, find_page, skip_full, mark_page,
}
use cse508_operating_system.Pmap.Bitmap.{IsBytes, page_bit}
use cse508_operating_system.Pmap.Run.{IsRun, kmalloc_mem-IsRun}
use cse508_operating_system.PageTables.Level.{HasRoom}

-- The bitmap with another `kernelfree` and another address.
abbrev pub moved : (list_at kernelfree : ℕ) → Pmap → Pmap
moved a f s = record s { list_at = a; kernelfree = f }

take_page-moved :
    (a f : ℕ) (s : Pmap) (r : Option ℕ)
    → take_page (moved a f s) r ≡ (moved a f (take_page s r).0, (take_page s r).1)
unfolding take_page mark_page
take_page-moved a f s none = refl
take_page-moved a f s (some page) = refl

kmalloc_mem-moved :
    (fuel a f : ℕ) (s s' : Pmap) (addr : ℕ)
    → kmalloc_mem fuel s ≡ some (s', addr)
    → kmalloc_mem fuel (moved a f s) ≡ some (moved a f s', addr)
unfolding kmalloc_mem alloc_from
kmalloc_mem-moved fuel a f s s' addr e =
    let (p, scan, ret) = >>=-eq-some (skip_full fuel s.list 528) _ e in
    rw (scan, take_page-moved a f s (find_page (max_pages - p) s.list p))
      (let both : take_page s (find_page (max_pages - p) s.list p) ≡ (s', addr) = cc in
        ap (λ (r : Pmap × ℕ). some (moved a f r.0, r.1)) both)

pub HasRoom-moved : (fuel k a f : ℕ) (s : Pmap) → HasRoom fuel k s → HasRoom fuel k (moved a f s)
HasRoom-moved fuel zero a f s r = tt
HasRoom-moved fuel (suc k) a f s (s', addr, ret, ne, rest) = (
  moved a f s',
  addr,
  kmalloc_mem-moved fuel a f s s' addr ret,
  ne,
  HasRoom-moved fuel k a f s' rest,
)

-- A bitmap of bytes with a run of free pages from page `b` on, up to the end `8 * e` of a byte, which
-- is at most page 8192; `k` pages of the run, with `b` at least the number of the byte of a free page
-- `h` that stands behind the run, where that byte is the 528th or later and the first scan reaches it
-- within the fuel: the next `k` calls of `kmalloc_mem` all return, and each returns a page.
pub IsRun-HasRoom :
    (k fuel h b e : ℕ) (s : Pmap)
    → IsBytes s.list
    → 528 ≤ h / 8
    → h / 8 < 528 + fuel
    → h / 8 ≤ b
    → page_bit s.list h ≡ 0
    → 8 * e ≤ h
    → b + k ≤ 8 * e
    → 8 * e ≤ max_pages
    → IsRun s.list b e
    → HasRoom fuel k s
IsRun-HasRoom zero fuel h b e s bytes from enough first clear below fits in_list run = tt
IsRun-HasRoom (suc k) fuel h b e s bytes from enough first clear below fits in_list run =
    let (s', page, call, le, takes) =
      kmalloc_mem-IsRun fuel h b e s bytes from enough first clear (omega arith) in_list run in
    let still : page_bit s'.list h ≡ 0 = ground (arith, takes.marks h) in
    (
      s',
      page * page_size,
      call,
      omega (arith, takes.from_start),
      IsRun-HasRoom k fuel h (suc b) e s' takes.bytes from enough (omega arith) still below
          (omega arith) in_list (λ q ge lt. ground (arith, takes.marks q, run q)),
    )
