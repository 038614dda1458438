-- ===== src/Paging/Tests.antt =====
-- Theorems of `mmap` and `kmalloc` at a machine with an empty top table.
use cse508_operating_system.Prelude.{ℕ, ◌+◌, ◌≡◌, refl, some, arith, update, ◌>>=◌}
use cse508_operating_system.Pmap.{virt_offset}
use cse508_operating_system.PageTables.{
  Machine, entry_at, get_pt, get_pt_index, with_flags, setup_page_tables,
}
use cse508_operating_system.Paging.Sample.{
  top, cpu, machine, machine-Tables, bitmap, room, blank, bitmap-IsBytes,
}
use cse508_operating_system.Paging.{mmap, kmalloc, kmalloc_virtual}
use cse508_operating_system.Paging.Refine.{mmap-get_pt}
use cse508_operating_system.Paging.Mapped.{Mapped, mmap_lem}
use cse508_operating_system.Paging.Loop.{Allocated}
use cse508_operating_system.Paging.Run.{MappedRun}
use cse508_operating_system.Paging.Virtual.{spread, kmalloc_virtual_lem}
use cse508_operating_system.Paging.Room.{IsRun-HasRoom}
use cse508_operating_system.PageTables.Level.{HasRoom}
use cse508_operating_system.Paging.Setup.{SetUp, setup_page_tables-SetUp}
use cse508_operating_system.Paging.Startup.{FirstBlock, setup_page_tables-kmalloc}
use cse508_operating_system.PageTables.Walk.{translate}
use cse508_operating_system.Paging.Calls.{kmalloc_lem}

-- The kernel's link address.
abbrev kernel_at : ℕ
kernel_at = 0xFFFFFFFF80200000

mmap-get_pt_example : mmap cpu 1 machine kernel_at 0x200000 ≡ (do
  (m', pt) ← get_pt 1 machine top kernel_at
  some (record m' {
    words = update m'.words (entry_at pt (get_pt_index kernel_at)) (with_flags 0x200000);
  }))
mmap-get_pt_example =
    mmap-get_pt cpu 1 machine top kernel_at 0x200000 (λ words va. refl) machine-Tables.space
      (room 3 8 0 refl)

mmap_lem_example :
    (m' : Machine) × (mmap cpu 1 machine kernel_at 0x200000 ≡ some m')
    × Mapped 1 5 machine top kernel_at 0x200000 m'
mmap_lem_example =
    mmap_lem cpu 1 5 machine top kernel_at 0x200000 (λ words va. refl) machine-Tables
      (room 8 3 0 refl) (omega arith) refl (omega arith)

-- Two pages for 5000 bytes.
kmalloc_lem_example :
    (m' : Machine) × (kmalloc cpu 1 machine 5000 ≡ some (m', 0x210000 + virt_offset))
    × Allocated 1 3 2 machine top m'
kmalloc_lem_example =
    kmalloc_lem cpu 1 3 machine top 5000 (λ words va. refl) machine-Tables (room 11 0 0 refl)
      (omega arith)

-- The kernel at 2 MB, from memory full of zeros.
setup_page_tables-SetUp_example :
    (m' : Machine) × (p : ℕ) × (setup_page_tables 1 blank kernel_at 0x200000 0x210000
      ≡ some (m', p))
    × SetUp 1 4 0x210000 kernel_at 0x200000 0x210000 p m'
setup_page_tables-SetUp_example =
    setup_page_tables-SetUp 1 4 blank kernel_at 0x200000 0x210000 bitmap-IsBytes (λ a ge lt h. refl)
      (room 11 0 0 refl) (omega arith) (omega arith) refl refl (omega arith) (omega arith) refl

-- A block of 3000 bytes behind it.
setup_page_tables-kmalloc_example :
    (m1 : Machine) × (p : ℕ) × (m' : Machine) × (setup_page_tables 1 blank kernel_at 0x200000
        0x210000
      ≡ some (m1, p))
    × (kmalloc (λ words va. translate words p va) 1 m1 3000 ≡ some (m', 0x210000 + virt_offset))
    × FirstBlock 1 1 0x210000 0x200000 m1 p m'
setup_page_tables-kmalloc_example =
    setup_page_tables-kmalloc (λ cr3 words va. translate words cr3 va) 1 blank kernel_at 0x200000
      3000 (λ cr3 words va. refl) bitmap-IsBytes (λ a ge lt h. refl) (room 11 0 0 refl) refl refl
      (omega arith) (omega arith) (omega arith) refl (omega arith)

-- The 72 pages in front of page 600.
IsRun-HasRoom_example : HasRoom 1 72 (bitmap 0)
IsRun-HasRoom_example =
    IsRun-HasRoom 72 1 4224 528 75 (bitmap 0) bitmap-IsBytes (omega arith) (omega arith)
      (omega arith) refl (omega arith) (omega arith) (omega arith) (λ q ge lt. ground arith)

-- Two pages for 5000 bytes, asked for at 0x4000.
kmalloc_virtual_lem_example :
    (m' : Machine) × (kmalloc_virtual cpu 1 machine 5000 0x4000 ≡ some (m', 0x4000))
    × MappedRun (spread 0x4000) 2 machine top m'
kmalloc_virtual_lem_example =
    kmalloc_virtual_lem cpu 1 machine top 5000 0x4000 (λ words va. refl) machine-Tables
      (room 8 3 0 refl) (omega arith)
