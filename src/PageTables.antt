-- ===== src/PageTables.antt =====
-- The page tables of sys/pagetab.c and include/pagetab.h, on physical memory.
-- A table is 512 entries of 8 bytes; `words` gives the 64-bit word at each address. `getPT` and
-- `setup_page_tables` run before paging is on, so that a physical address is used as a pointer.
pub mod Walk
pub mod Level
pub mod Grow
pub mod GetPt
pub mod Map
mod Tests
use cse508_operating_system.Prelude.{
  ℕ, zero, suc, ◌+◌, ◌-◌, ◌*◌, ◌/◌, ◌%◌, ◌^◌, Bool, true, false, Option, none, some, ltb, leb, ◌==◌,
  ◌&&◌, if◌then◌else◌, update, bit_and, bit_or, u64, ◌>>>◌, ◌>>=◌,
}
use cse508_operating_system.Pmap.{Pmap, page_size, kmalloc_mem, phy_to_virt, remap_bitmap}

-- PR, RW, US
abbrev pub pr : ℕ
pr = 1

abbrev pub rw_flag : ℕ
rw_flag = 2

abbrev pub us : ℕ
us = 4

-- PAGE_ALIGN
abbrev pub page_align : ℕ
page_align = 0xFFFFFFFFFFFFF000

-- VIRT_BASE
abbrev pub virt_base : ℕ
virt_base = 0xFFFFFFFFF0000000

unfoldable pub get_pt_index : ℕ → ℕ
get_pt_index addr = bit_and (addr >>> 12) 0x1FF

unfoldable pub get_pd_index : ℕ → ℕ
get_pd_index addr = bit_and (addr >>> 21) 0x1FF

unfoldable pub get_pdp_index : ℕ → ℕ
get_pdp_index addr = bit_and (addr >>> 30) 0x1FF

unfoldable pub get_pml4_index : ℕ → ℕ
get_pml4_index addr = bit_and (addr >>> 39) 0x1FF

-- Physical memory by 64-bit words at byte addresses, and the page bitmap.
pub record Machine : Type 0 where
  pub words : ℕ → ℕ
  pub pmap : Pmap

-- The address of `table->entries[index]`.
abbrev pub entry_at : ℕ → ℕ → ℕ
entry_at table index = table + 8 * index

-- `page | PR | RW | US`
unfoldable pub with_flags : ℕ → ℕ
with_flags page = bit_or (bit_or (bit_or page pr) rw_flag) us

-- `memset(page, 0, PAGE_SIZE)`
unfoldable pub zero_page : (ℕ → ℕ) → ℕ → ℕ → ℕ
zero_page words page a = if leb page a && ltb a (page + page_size) then 0 else words a

-- One level of `getPT`: the table that the entry names, or a fresh zeroed page put there.
unfoldable pub next_table : ℕ → Machine → (table index : ℕ) → Option (Machine × ℕ)
next_table fuel m table index =
    let entry = bit_and (m.words (entry_at table index)) page_align in
    let fresh : Option (Machine × ℕ) = (do
      (pmap', newpage) ← kmalloc_mem fuel m.pmap
      some (
        record {
          words = update (zero_page m.words newpage) (entry_at table index) (with_flags newpage);
          pmap = pmap';
        },
        newpage,
      )) in
    if entry == 0 then fresh else some (m, entry)

unfoldable pub get_pt : ℕ → Machine → (pml4 virt_addr : ℕ) → Option (Machine × ℕ)
get_pt fuel m pml4 virt_addr = do
  (m1, pdp) ← next_table fuel m pml4 (get_pml4_index virt_addr)
  (m2, pd) ← next_table fuel m1 pdp (get_pdp_index virt_addr)
  next_table fuel m2 pd (get_pd_index virt_addr)

-- The loops of `setup_page_tables` over the pages from `phys` to the limit, with `n` rounds left:
-- `pt->entries[GetPTIndex(virt_base | phys)] = phys | PR | RW | US`.
unfoldable pub map_loop : ℕ → (pt virt phys : ℕ) → (ℕ → ℕ) → ℕ → ℕ
map_loop zero pt virt phys words = words
map_loop (suc n) pt virt phys words =
    map_loop n pt virt (phys + page_size)
      (update words (entry_at pt (get_pt_index (bit_or virt phys))) (with_flags phys))

-- The rounds of `while (phys <= limit) phys += PAGE_SIZE`.
unfoldable pub rounds : ℕ → ℕ → ℕ
rounds phys limit = (limit + page_size - phys) / page_size

-- `setup_page_tables`, up to the load of CR3: the machine, and the table that CR3 gets.
-- `kernmem` is the address that the linker script gives the kernel.
unfoldable pub setup_page_tables :
    ℕ → Machine → (kernmem physbase physfree : ℕ) → Option (Machine × ℕ)
unfolding map_loop rounds
setup_page_tables fuel m kernmem physbase physfree = do
  (pmap1, pml4) ← kmalloc_mem fuel m.pmap
  let m1 : Machine = record { words = zero_page m.words pml4; pmap = pmap1 }
  (m2, pt) ← get_pt fuel m1 pml4 kernmem
  let kernel : ℕ → ℕ =
      map_loop (rounds physbase physfree) pt (bit_and kernmem virt_base) physbase m2.words
  let printf_virt : ℕ = phy_to_virt 0xB8000
  (m3, pt') ← get_pt fuel (record m2 { words = kernel }) pml4 printf_virt
  let video : ℕ → ℕ =
      map_loop (rounds 0xB8000 0xB8FA0) pt' (bit_and printf_virt virt_base) 0xB8000 m3.words
  let looped : ℕ → ℕ = update video (entry_at pml4 510) (with_flags pml4)
  some (record { words = looped; pmap = remap_bitmap m3.pmap }, pml4)
