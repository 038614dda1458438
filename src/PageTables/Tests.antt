-- ===== src/PageTables/Tests.antt =====
-- Runs of sys/pagetab.c, and its theorems at them.
use cse508_operating_system.Prelude.{ℕ, ◌*◌, ◌≡◌, refl, inl, some, arith, ◌==◌, if◌then◌else◌}
use cse508_operating_system.Prelude.ByteBits.{set_bit}
use cse508_operating_system.Pmap.{
  Pmap, kmalloc_mem, mark_page, skip_full, find_page, take_page, is_open,
}
use cse508_operating_system.Pmap.Bitmap.{IsBytes}
use cse508_operating_system.PageTables.{Machine, get_pt}
use cse508_operating_system.PageTables.Walk.{walk, translate}
use cse508_operating_system.PageTables.Grow.{Owned, Tree}
use cse508_operating_system.PageTables.Level.{HasRoom}
use cse508_operating_system.PageTables.GetPt.{get_pt_lem}

-- Page 600 holds the empty top table, and all other pages are free.
abbrev bitmap : Pmap
bitmap = record {
  list_at = 0;
  list = λ i. if i == 75 then 1 else 0;
  kernelbase = 0;
  kernelfree = 0;
}

abbrev machine : Machine
machine = record { words = λ a. 0; pmap = bitmap }

abbrev top : ℕ
top = 600 * 4096

-- The kernel's link address.
abbrev kernel_at : ℕ
kernel_at = 0xFFFFFFFF80200000

top-Owned : Owned machine top
top-Owned = record { aligned = refl; small = omega arith; positive = omega arith; used = refl }

machine-Tree : Tree 3 machine top
machine-Tree = (top-Owned, λ i h. inl refl)

bitmap-IsBytes : IsBytes bitmap.list
bitmap-IsBytes i = ground arith

room : HasRoom 1 3 bitmap
unfolding kmalloc_mem skip_full find_page take_page is_open mark_page set_bit
room = (
  mark_page bitmap 528,
  528 * 4096,
  refl,
  omega arith,
  (
    mark_page (mark_page bitmap 528) 529,
    529 * 4096,
    refl,
    omega arith,
    (mark_page (mark_page (mark_page bitmap 528) 529) 530, 530 * 4096, refl, omega arith, tt),
  ),
)

get_pt_lem_example :
    (m' : Machine) × (pt : ℕ) × (get_pt 1 machine top kernel_at ≡ some (m', pt))
    × (walk m'.words top kernel_at ≡ some pt)
    × Tree 3 m' top
    × Owned m' pt
    × ((va' pa : ℕ)
        → translate machine.words top va' ≡ some pa
        → translate m'.words top va' ≡ some pa)
get_pt_lem_example = get_pt_lem 1 machine top kernel_at machine-Tree bitmap-IsBytes room
