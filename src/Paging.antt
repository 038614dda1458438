-- ===== src/Paging.antt =====
-- `mmap` of sys/pagetab.c and the allocators of sys/pmap.c on top of it, which run with paging on.
-- Every access to a table goes through a virtual address: `mmu` is the processor's translation
-- under the current CR3, from the words in memory and an address, and no result is a page fault.
pub mod Recursive
pub mod Fresh
pub mod Refine
pub mod Places
pub mod Leaf
pub mod Levels
pub mod Fill
pub mod Top
pub mod Region
pub mod Setup
pub mod Untouched
pub mod Mapped
pub mod Room
pub mod Taken
pub mod Kmalloc
pub mod Run
pub mod Loop
pub mod Virtual
pub mod Calls
pub mod Blocks
pub mod Startup
pub mod Sample
mod Tests
use cse508_operating_system.Prelude.{
  ℕ, zero, suc, ◌+◌, ◌*◌, ◌/◌, Option, none, some, ◌==◌, if◌then◌else◌, update, u32, u64, ◌<<◌,
  ◌>>>◌, bit_and, bit_or, ◌>>=◌,
}
use cse508_operating_system.Pmap.{Pmap, page_size, phy_to_virt, kmalloc_mem}
use cse508_operating_system.PageTables.{
  Machine, get_pml4_index, get_pdp_index, get_pd_index, get_pt_index, page_align, with_flags,
}

abbrev pub recursive_slot : ℕ
recursive_slot = 510

abbrev pub Mmu : Type 0
Mmu = (words : ℕ → ℕ) (va : ℕ) → Option ℕ

-- UPPER_ADDR
abbrev pub upper_addr : ℕ → ℕ
upper_addr x = bit_or (0xFFFF << 48) x

abbrev pub pt_addr : ℕ
pt_addr = upper_addr (recursive_slot << 39)

abbrev pub pd_addr : ℕ
pd_addr = upper_addr (bit_or (recursive_slot << 39) (recursive_slot << 30))

abbrev pub pdp_addr : ℕ
pdp_addr =
    upper_addr
      (bit_or (bit_or (recursive_slot << 39) (recursive_slot << 30)) (recursive_slot << 21))

-- PML4_ADDR, PHY_TO_VIRT_PML4_BASE
abbrev pub pml4_addr : ℕ
pml4_addr = upper_addr (
    bit_or (bit_or (bit_or (recursive_slot << 39) (recursive_slot << 30)) (recursive_slot << 21))
      (recursive_slot << 12))

-- `(virt << 16) >> 16`
abbrev pub low_48 : ℕ → ℕ
low_48 virt = u64 (virt << 16) >>> 16

-- PHY_TO_VIRT_PDP_BASE, PHY_TO_VIRT_PD_BASE, PHY_TO_VIRT_PT_BASE
unfoldable pub pdp_base : (virt : ℕ) → ℕ
pdp_base virt = bit_or pdp_addr (u64 (low_48 virt >>> 39 << 12))

unfoldable pub pd_base : (virt : ℕ) → ℕ
pd_base virt = bit_or pd_addr (u64 (low_48 virt >>> 30 << 12))

unfoldable pub pt_base : (virt : ℕ) → ℕ
pt_base virt = bit_or pt_addr (u64 (low_48 virt >>> 21 << 12))

module _ (mmu : Mmu) where
  unfoldable pub vload : Machine → (va : ℕ) → Option ℕ
  vload m va = do pa ← mmu m.words va; some (m.words pa)

  unfoldable pub vstore : Machine → (va value : ℕ) → Option Machine
  vstore m va value = do pa ← mmu m.words va; some (record m { words = update m.words pa value })

  -- One level of `mmap`: the entry at the address `slot` gets a fresh page, unless it names one.
  unfoldable pub ensure_entry : ℕ → Machine → (slot : ℕ) → Option Machine
  unfolding vload vstore
  ensure_entry fuel m slot = do
    entry ← vload m slot
    let fresh : Option Machine = (do
      (pmap', newpage) ← kmalloc_mem fuel m.pmap
      vstore (record m { pmap = pmap' }) slot (with_flags newpage))
    if bit_and entry page_align == 0 then fresh else some m

  unfoldable pub mmap : ℕ → Machine → (virt_addr phy_addr : ℕ) → Option Machine
  mmap fuel m virt_addr phy_addr = do
    m1 ← ensure_entry fuel m (pml4_addr + 8 * get_pml4_index virt_addr)
    m2 ← ensure_entry fuel m1 (pdp_base virt_addr + 8 * get_pdp_index virt_addr)
    m3 ← ensure_entry fuel m2 (pd_base virt_addr + 8 * get_pd_index virt_addr)
    vstore m3 (pt_base virt_addr + 8 * get_pt_index virt_addr) (with_flags phy_addr)

  -- A fresh page mapped at an address, and `kernelfree` moved on: the body of the loops below.
  unfoldable pub map_fresh : ℕ → Machine → (virt_addr : ℕ) → Option Machine
  map_fresh fuel m virt_addr = do
    (pmap', phys_addr) ← kmalloc_mem fuel m.pmap
    m1 ← mmap fuel (record m { pmap = pmap' }) virt_addr phys_addr
    some (record m1 {
      pmap = record (m1.pmap) { kernelfree = u64 (m1.pmap.kernelfree + page_size) };
    })

  unfoldable pub kmalloc_page : ℕ → Machine → Option (Machine × ℕ)
  kmalloc_page fuel m = do
    let virt_addr : ℕ = phy_to_virt m.pmap.kernelfree
    m1 ← map_fresh fuel m virt_addr
    some (m1, virt_addr)

  -- The loop of `kmalloc`, with `n` rounds left.
  unfoldable pub kmalloc_loop : (n : ℕ) → ℕ → Machine → Option Machine
  kmalloc_loop zero fuel m = some m
  kmalloc_loop (suc n) fuel m = do
    m1 ← map_fresh fuel m (phy_to_virt m.pmap.kernelfree)
    kmalloc_loop n fuel m1

  -- `num` is an `int` that is compared as `uint32_t`; without a round the result is NULL.
  unfoldable pub kmalloc : ℕ → Machine → (size_mem : ℕ) → Option (Machine × ℕ)
  kmalloc fuel m size_mem = do
    let num : ℕ = u32 (size_mem / page_size + 1)
    m1 ← kmalloc_loop num fuel m
    some (m1, if num == 0 then 0 else phy_to_virt m.pmap.kernelfree)

  -- The loop of `kmalloc_virtual`: `virt_addr` is a `uint64_t *`, and PAGE_SIZE is added to it.
  unfoldable pub kmalloc_virtual_loop : (n : ℕ) → ℕ → Machine → (virt_addr : ℕ) → Option Machine
  kmalloc_virtual_loop zero fuel m virt_addr = some m
  kmalloc_virtual_loop (suc n) fuel m virt_addr = do
    m1 ← map_fresh fuel m virt_addr
    kmalloc_virtual_loop n fuel m1 (u64 (virt_addr + 8 * page_size))

  unfoldable pub kmalloc_virtual : ℕ → Machine → (size_mem virt : ℕ) → Option (Machine × ℕ)
  kmalloc_virtual fuel m size_mem virt = do
    let num : ℕ = u32 (size_mem / page_size + 1)
    m1 ← kmalloc_virtual_loop num fuel m virt
    some (m1, if num == 0 then 0 else virt)
