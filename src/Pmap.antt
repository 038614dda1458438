-- ===== src/Pmap.antt =====
-- The page bitmap of sys/pmap.c: one bit a page of 4096 bytes, set if the page is in use.
-- `free_pages_list` is memory from the address `list_at` on, a function of the byte's index: the C
-- code checks no bound on it. Addresses and page numbers are `uint64_t`.
pub mod Bitmap
pub mod Reserve
pub mod Alloc
pub mod Run
pub mod Sequence
mod Tests
use cse508_operating_system.Prelude.{
  ℕ, zero, suc, ◌+◌, ◌-◌, ◌*◌, ◌/◌, ◌%◌, ◌^◌, Bool, true, false, Option, none, some, ltb, leb, ◌==◌,
  ◌&&◌, if◌then◌else◌, update, u64, ◌>>>◌, ◌>>=◌,
}
use cse508_operating_system.Prelude.ByteBits.{set_bit, clear_bit}

-- PAGE_SIZE
abbrev pub page_size : ℕ
page_size = 4096

-- MAX_PAGES
abbrev pub max_pages : ℕ
max_pages = 8192

-- VIRT_OFFSET
abbrev pub virt_offset : ℕ
virt_offset = 0xFFFFFFFF80000000

-- PHY_TO_VIRT
unfoldable pub phy_to_virt : ℕ → ℕ
phy_to_virt phy = u64 (phy + virt_offset)

-- The globals `free_pages_list` (its address and what it points to), `kernelbase`, `kernelfree`.
pub record Pmap : Type 0 where
  pub list_at : ℕ
  pub list : ℕ → ℕ
  pub kernelbase : ℕ
  pub kernelfree : ℕ

-- `free_pages_list[page / 8] &= ~(1 << (page % 8))`
unfoldable pub clear_page : Pmap → ℕ → Pmap
clear_page s page = record s {
  list = update s.list (page / 8) (clear_bit (s.list (page / 8)) (page % 8));
}

-- `free_pages_list[page / 8] |= 1 << (page % 8)`
unfoldable pub mark_page : Pmap → ℕ → Pmap
mark_page s page = record s {
  list = update s.list (page / 8) (set_bit (s.list (page / 8)) (page % 8));
}

unfoldable pub set_page_free : Pmap → ℕ → Pmap
set_page_free s page = if page == 0 then s else clear_page s page

unfoldable pub set_page_used : Pmap → ℕ → Pmap
set_page_used s page = if page == 0 then s else mark_page s page

-- The loop of `init_freelist`, with `n` rounds left.
unfoldable pub fill : ℕ → ℕ → (ℕ → ℕ) → ℕ → ℕ
fill zero counter list = list
fill (suc n) counter list = fill n (counter + 1) (update list counter 255)

-- The list starts at `physfree`; `memory` is what stands there.
unfoldable pub init_freelist : (memory : ℕ → ℕ) (physbase physfree : ℕ) → Pmap
init_freelist memory physbase physfree = record {
  list_at = physfree;
  list = fill max_pages 0 memory;
  kernelbase = physbase;
  kernelfree = u64 (physfree + max_pages);
}

unfoldable pub is_memory_reserved : Pmap → ℕ → Bool
is_memory_reserved s page =
    leb s.kernelbase (u64 (page * page_size)) && leb (u64 (page * page_size)) s.kernelfree

-- The body of the loop of `set_kernel_in_freelist`.
unfoldable pub reserve_page : Pmap → ℕ → Pmap
reserve_page s page = if is_memory_reserved s page then mark_page s page else clear_page s page

-- The loop, with `n` rounds left.
unfoldable pub reserve_loop : ℕ → ℕ → Pmap → Pmap
reserve_loop zero page s = s
reserve_loop (suc n) page s = reserve_loop n (page + 1) (reserve_page s page)

unfoldable pub set_kernel_in_freelist : Pmap → ℕ → ℕ → Pmap
unfolding reserve_loop
set_kernel_in_freelist s start_addr end_addr =
    reserve_loop (end_addr / page_size - start_addr / page_size) (start_addr / page_size) s

-- `while (free_pages_list[page] == 255) page++`. The C loop has no bound: `none` is a run that has
-- not ended when the fuel is used up.
unfoldable pub skip_full : ℕ → (ℕ → ℕ) → ℕ → Option ℕ
skip_full zero list page = none
skip_full (suc fuel) list page =
    let rest = skip_full fuel list (page + 1) in if list page == 255 then rest else some page

-- `!(free_pages_list[page / 8] >> (page % 8)) & 0x01`: `!` binds tighter than `&`.
unfoldable pub is_open : (ℕ → ℕ) → ℕ → Bool
is_open list page = list (page / 8) >>> (page % 8) == 0

-- The `for` loop of both allocators, with `n` rounds left: the page that it stops at.
unfoldable pub find_page : ℕ → (ℕ → ℕ) → ℕ → Option ℕ
find_page zero list page = none
find_page (suc n) list page =
    let rest = find_page n list (page + 1) in if is_open list page then some page else rest

-- What follows the scan: the page is marked and its address returned, or 0 (NULL) is.
unfoldable pub take_page : Pmap → Option ℕ → Pmap × ℕ
take_page s none = (s, 0)
take_page s (some page) = (mark_page s page, page * page_size)

-- Both allocators: `start` is where the first scan begins.
unfoldable pub alloc_from : ℕ → ℕ → Pmap → Option (Pmap × ℕ)
alloc_from start fuel s = do
  page ← skip_full fuel s.list start
  some (take_page s (find_page (max_pages - page) s.list page))

unfoldable pub kmalloc_mem : ℕ → Pmap → Option (Pmap × ℕ)
unfolding alloc_from
kmalloc_mem fuel s = alloc_from 528 fuel s

unfoldable pub malloc_mem : ℕ → Pmap → Option (Pmap × ℕ)
unfolding alloc_from
malloc_mem fuel s = alloc_from 0 fuel s

-- `size_mem` is not looked at.
unfoldable pub malloc : ℕ → Pmap → (size_mem : ℕ) → Option (Pmap × ℕ)
unfolding malloc_mem
malloc fuel s size_mem = malloc_mem fuel s

unfoldable pub remap_bitmap : Pmap → Pmap
unfolding phy_to_virt
remap_bitmap s = record s { list_at = phy_to_virt s.list_at }
