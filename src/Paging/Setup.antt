-- ===== src/Paging/Setup.antt =====
-- `setup_page_tables` of sys/pagetab.c as a whole.
use cse508_operating_system.Prelude.{
  ℕ, suc, ◌+◌, ◌-◌, ◌*◌, ◌/◌, ◌%◌, ◌^◌, ◌≤◌, ◌<◌, ◌≡◌, ◌≢◌, refl, ap, ◌∙◌, inl, inr, some, arith,
  bit_and, ◌>>=◌,
}
use cse508_operating_system.Prelude.Masks.{and_high}
use cse508_operating_system.Prelude.Bits.{bit_and_mask}
use cse508_operating_system.Pmap.{Pmap, kmalloc_mem, phy_to_virt, page_size, remap_bitmap}
use cse508_operating_system.Pmap.Bitmap.{IsBytes}
use cse508_operating_system.Pmap.Alloc.{Takes, kmalloc_mem_cases}
use cse508_operating_system.PageTables.{Machine, virt_base, map_loop, rounds, setup_page_tables}
use cse508_operating_system.PageTables.Walk.{translate}
use cse508_operating_system.PageTables.Level.{HasRoom}
use cse508_operating_system.Paging.Fresh.{FreeIsZero, zero_page_free}
use cse508_operating_system.Paging.Room.{HasRoom-moved}
use cse508_operating_system.Paging.Levels.{Tables}
use cse508_operating_system.Paging.Region.{looped_over, Region, get_pt-Region}
use cse508_operating_system.Paging.Top.{
  empty_top, top_empty, empty_top-Rooted, looped, looped-Tables, looped_kept,
}

-- `x & VIRT_BASE` on a 64-bit word.
virt_mask : (x : ℕ) → x < 2 ^ 64 → bit_and x virt_base ≡ x / 2 ^ 28 * 2 ^ 28
virt_mask x h =
    let split : x ≡ x / 2 ^ 28 * 2 ^ 28 + x % 2 ^ 28 = omega arith in
    ap (λ (t : ℕ). bit_and t virt_base) split
    ∙ and_high 28 (x / 2 ^ 28) (2 ^ 36 - 1) (x % 2 ^ 28) (omega arith)
    ∙ omega (arith, bit_and_mask 36 (x / 2 ^ 28))

-- Where the text screen is mapped.
abbrev pub video_at : ℕ
video_at = 0xFFFFFFFF800B8000

-- What `setup_page_tables` leaves, with top table `p`.
pub record SetUp (fuel k : ℕ) (kernelfree0 kernmem physbase physfree p : ℕ) (m' : Machine)
    : Type 0 where
  pub tables : Tables m' p
  pub room : HasRoom fuel k m'.pmap
  pub kernelfree : m'.pmap.kernelfree ≡ kernelfree0
  pub kernel :
      (phys : ℕ)
      → physbase ≤ phys
      → phys ≤ physfree
      → translate m'.words p (kernmem / 2 ^ 28 * 2 ^ 28 + phys) ≡ some phys
  pub video :
      (off : ℕ) → off < 2 ^ 12 → translate m'.words p (video_at + off) ≡ some (0xB8000 + off)

module _ (fuel k : ℕ) (m : Machine) (kernmem physbase physfree : ℕ) (free : FreeIsZero m)
    (wide : kernmem < 2 ^ 64) (plain : kernmem / 2 ^ 39 % 512 ≢ 510)
    (same : kernmem % 2 ^ 28 ≡ physbase) (aligned : physbase ≡ physbase / 2 ^ 12 * 2 ^ 12)
    (high : 2 ^ 20 ≤ physbase) (order : physbase ≤ physfree)
    (near : physfree / 2 ^ 21 ≡ physbase / 2 ^ 21) where
  module _ (left : Pmap) (p page : ℕ) (call : kmalloc_mem fuel m.pmap ≡ some (left, p))
      (takes : Takes 528 m.pmap left p page)
      (room : HasRoom fuel (suc (suc (suc (suc (suc (suc k)))))) left) where
    abbrev base : ℕ
    base = physbase / 2 ^ 12

    abbrev count : ℕ
    count = (physfree + page_size - physbase) / page_size

    -- The loop over the kernel.
    first :
        Region fuel
          (suc (suc (suc k)))
          (empty_top m left p page takes free)
          p
          kernmem
          (kernmem / 2 ^ 28)
          base
          count
    first =
        get_pt-Region fuel (suc (suc (suc k))) (empty_top m left p page takes free) p kernmem
          (kernmem / 2 ^ 28) base count (empty_top-Rooted m left p page takes free) room plain
          (top_empty m left p page takes free 510 (omega arith)) (omega arith) (omega arith)

    abbrev behind_first : Machine
    behind_first = looped_over first.found first.pt (kernmem / 2 ^ 28) base count

    -- The loop over the screen.
    second : Region fuel k behind_first p video_at (video_at / 2 ^ 28) 0xB8 1
    second =
        get_pt-Region fuel k behind_first p video_at (video_at / 2 ^ 28) 0xB8 1 first.rooted
          first.room (omega arith) first.no_self (omega arith) (omega arith)

    abbrev behind_second : Machine
    behind_second = looped_over second.found second.pt (video_at / 2 ^ 28) 0xB8 1

    abbrev finished : Machine
    finished = looped behind_second p (phy_to_virt second.found.pmap.list_at) second.rooted

    video_rounds : rounds 0xB8000 0xB8FA0 ≡ 1
    unfolding rounds
    video_rounds = refl

    setup_returns : setup_page_tables fuel m kernmem physbase physfree ≡ some (finished, p)
    unfolding setup_page_tables remap_bitmap
    setup_returns =
        let loop : map_loop count first.pt (kernmem / 2 ^ 28 * 2 ^ 28) physbase first.found.words
            ≡ behind_first.words =
          ap (λ (x : ℕ). map_loop count first.pt (kernmem / 2 ^ 28 * 2 ^ 28) x first.found.words)
            aligned in
        rw (
          call,
          ◌>>=◌,
          zero_page_free m p page free takes,
          first.returns,
          virt_mask kernmem wide,
          loop,
          second.returns,
        )

    -- The kernel's addresses are in its page table's reach, and not in the screen's page.
    kernel_kept :
        (phys : ℕ)
        → physbase ≤ phys
        → phys ≤ physfree
        → translate finished.words p (kernmem / 2 ^ 28 * 2 ^ 28 + phys) ≡ some phys
    kernel_kept phys from to =
        let va : ℕ = kernmem / 2 ^ 28 * 2 ^ 28 + phys in
        let mapped =
          first.pages va (phys / 2 ^ 12 - base) (omega arith) (omega arith) (omega arith) in
        let sum : (base + (phys / 2 ^ 12 - base)) * 2 ^ 12 + va % 2 ^ 12 ≡ phys = omega arith in
        looped_kept behind_second p (phy_to_virt second.found.pmap.list_at) second.rooted va phys
          (omega arith)
          (second.others va phys (omega arith) (λ e j lt w. omega arith) (mapped ∙ ap some sum))

    video_mapped :
        (off : ℕ)
        → off < 2 ^ 12
        → translate finished.words p (video_at + off) ≡ some (0xB8000 + off)
    video_mapped off lt =
        let mapped = second.pages (video_at + off) 0 (omega arith) (omega arith) (omega arith) in
        let sum : (0xB8 + 0) * 2 ^ 12 + (video_at + off) % 2 ^ 12 ≡ 0xB8000 + off = omega arith in
        looped_kept behind_second p (phy_to_virt second.found.pmap.list_at) second.rooted
          (video_at + off) (0xB8000 + off) (omega arith) (mapped ∙ ap some sum)

    finished-SetUp : SetUp fuel k m.pmap.kernelfree kernmem physbase physfree p finished
    finished-SetUp = record {
      tables = looped-Tables behind_second p (phy_to_virt second.found.pmap.list_at) second.rooted;
      room =
          HasRoom-moved fuel k (phy_to_virt second.found.pmap.list_at) second.found.pmap.kernelfree
            second.found.pmap second.room;
      kernelfree = second.kernelfree ∙ first.kernelfree ∙ takes.same_free;
      kernel = kernel_kept;
      video = video_mapped;
    }

-- `setup_page_tables`, with zeros in the free pages and room in the bitmap for seven pages, for a
-- kernel that is linked at `kernmem` outside of the recursive slot, starts at the page-aligned
-- physical address `physbase` from 1 MB on that `kernmem` has in its low 28 bits, and lies in one
-- 2 MB region: it returns. The top table that CR3 gets is the root of tables as `mmap` and
-- `kmalloc` need them, each table in one place and entry 510 naming the top table. The addresses
-- of the kernel from `physbase` to `physfree`, based where `kernmem` is, are translated to the
-- kernel's physical addresses, and the page at 0xFFFFFFFF800B8000 to the screen at 0xB8000;
-- `kernelfree` is not moved.
pub setup_page_tables-SetUp :
    (fuel k : ℕ) (m : Machine) (kernmem physbase physfree : ℕ)
    → IsBytes m.pmap.list
    → FreeIsZero m
    → HasRoom fuel (suc (suc (suc (suc (suc (suc (suc k))))))) m.pmap
    → kernmem < 2 ^ 64
    → kernmem / 2 ^ 39 % 512 ≢ 510
    → kernmem % 2 ^ 28 ≡ physbase
    → physbase ≡ physbase / 2 ^ 12 * 2 ^ 12
    → 2 ^ 20 ≤ physbase
    → physbase ≤ physfree
    → physfree / 2 ^ 21 ≡ physbase / 2 ^ 21
    → (m' : Machine) × (p : ℕ) × (setup_page_tables fuel m kernmem physbase physfree ≡ some (m', p))
      × SetUp fuel k m.pmap.kernelfree kernmem physbase physfree p m'
setup_page_tables-SetUp fuel k m kernmem physbase physfree bytes free (left, p, call, ne, room) wide
      plain same aligned high order near =
    elim (kmalloc_mem_cases m.pmap fuel left p bytes call) [
      | inl taken ↦ (
        finished fuel k m kernmem physbase physfree free wide plain same aligned high order near
            left p taken.0 call taken.1 room,
        p,
        setup_returns fuel k m kernmem physbase physfree free wide plain same aligned high order
            near left p taken.0 call taken.1 room,
        finished-SetUp fuel k m kernmem physbase physfree free wide plain same aligned high order
            near left p taken.0 call taken.1 room,
      )
      | inr null ↦ absurd (ne null.0)
    ]
