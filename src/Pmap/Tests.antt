-- ===== src/Pmap/Tests.antt =====
-- Runs of sys/pmap.c, and its theorems at them.
use cse508_operating_system.Prelude.{
  ℕ, ◌*◌, ◌/◌, ◌≡◌, refl, ◌⊎◌, some, List, arith, ◌==◌, ltb, leb, ◌&&◌, if◌then◌else◌,
}
use cse508_operating_system.Prelude.ByteBits.{set_bit}
use cse508_operating_system.Pmap.{
  Pmap, page_size, is_memory_reserved, set_kernel_in_freelist, kmalloc_mem, mark_page, skip_full,
  find_page, take_page, is_open,
}
use cse508_operating_system.Pmap.Bitmap.{IsBytes, page_bit}
use cse508_operating_system.Pmap.Reserve.{set_kernel_in_freelist_bit}
use cse508_operating_system.Pmap.Alloc.{Takes, kmalloc_mem_lem}
use cse508_operating_system.Pmap.Sequence.{
  Each, NullOrFree, NoneTwice, alloc_many, alloc_many_fresh,
}

-- Pages 528 to 551 are in bytes 66 to 68: page 530 is in use, with free pages below it.
abbrev table : ℕ → ℕ
table i = if i == 66 then 4 else if i == 67 then 255 else 0

abbrev sample : Pmap
sample = record { list_at = 0; list = table; kernelbase = 0x200000; kernelfree = 0x212000 }

table-IsBytes : IsBytes table
table-IsBytes i = ground arith

-- Pages 528, 529 and 530 are passed over for page 531.
skips_low_pages : kmalloc_mem 5 sample ≡ some (mark_page sample 531, 531 * 4096)
unfolding kmalloc_mem skip_full find_page take_page is_open mark_page set_bit
skips_low_pages = refl

-- Page 513 is reserved, since the kernel starts at page 512.
set_kernel_in_freelist_bit_example :
    page_bit (set_kernel_in_freelist sample 0x100000 0x300000).list 513 ≡ (
      if leb (0x100000 / page_size) 513 && ltb 513 (0x300000 / page_size)
      then if is_memory_reserved sample 513 then 1 else 0
      else page_bit sample.list 513)
set_kernel_in_freelist_bit_example =
    set_kernel_in_freelist_bit sample 0x100000 0x300000 513 table-IsBytes

kmalloc_mem_lem_example :
    (s' : Pmap) × (addr : ℕ) × (kmalloc_mem 5 sample ≡ some (s', addr))
    × (((page : ℕ) × Takes 528 sample s' addr page) ⊎ ((addr ≡ 0) × (s' ≡ sample)))
kmalloc_mem_lem_example =
    kmalloc_mem_lem sample 5 530 table-IsBytes (omega arith) (omega arith) (omega arith)

alloc_many_fresh_example :
    (xs : List ℕ) × (s' : Pmap) × (alloc_many 3 2000 sample ≡ some (xs, s'))
    × Each (NullOrFree sample) xs
    × NoneTwice xs
alloc_many_fresh_example =
    alloc_many_fresh 3 2000 sample 1024 table-IsBytes (omega arith) (omega arith) (omega arith)
