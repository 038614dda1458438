-- ===== src/Paging/Sample.antt =====
-- A machine with an empty top table in page 600, and a processor that walks from it.
use mathlib.Core.Path.{subst}
use cse508_operating_system.Prelude.{
  ℕ, zero, suc, ◌+◌, ◌*◌, ◌/◌, ◌^◌, ◌≤◌, ◌≡◌, ◌≢◌, refl, sym, inl, inr, arith, ◌==◌, if◌then◌else◌,
  List, [], ◌∷◌, length, update, update_ne, ℕ_discrete,
}
use cse508_operating_system.Prelude.ByteBits.{set_bit}
use cse508_operating_system.Pmap.{
  Pmap, kmalloc_mem, mark_page, skip_full, find_page, take_page, is_open,
}
use cse508_operating_system.Pmap.Bitmap.{IsBytes, page_bit}
use cse508_operating_system.PageTables.{Machine, entry_at}
use cse508_operating_system.PageTables.Walk.{translate}
use cse508_operating_system.PageTables.Grow.{Owned, Slot, Tree}
use cse508_operating_system.PageTables.Level.{HasRoom, room_less}
use cse508_operating_system.Paging.{Mmu}
use cse508_operating_system.Paging.Levels.{Tables}

abbrev pub top : ℕ
top = 600 * 4096

abbrev pub cpu : Mmu
cpu words va = translate words top va

-- The bitmap after `n` pages from 528 on have been taken; page 600 holds the top table.
abbrev pub bitmap : ℕ → Pmap
bitmap zero = record {
  list_at = 0;
  list = λ i. if i == 75 then 1 else 0;
  kernelbase = 0x200000;
  kernelfree = 0x210000;
}
bitmap (suc n) = mark_page (bitmap n) (528 + n)

abbrev pub machine : Machine
machine = record { words = update (λ a. 0) (entry_at top 510) (top + 7); pmap = bitmap 0 }

top-Owned : Owned machine top
top-Owned = record { aligned = refl; small = omega arith; positive = omega arith; used = refl }

other_words : (i : ℕ) → i ≢ 510 → machine.words (entry_at top i) ≡ 0
other_words i ne =
    update_ne (λ a. 0) (entry_at top 510) (entry_at top i) (top + 7) (λ e. ne (omega (arith, e)))

machine-Tree : (n : ℕ) → Tree n machine top
machine-Tree zero = top-Owned
machine-Tree (suc n) = (top-Owned, λ i lt. slot i (machine-Tree n))
  where
    slot : (i : ℕ) → Tree n machine top → Slot (Tree n machine) (machine.words (entry_at top i))
    slot i sub = elim (ℕ_discrete i 510) [
      | yes e ↦ rw e (inr (top, refl, sub))
      | no ne ↦ inl (other_words i ne)
    ]

top_in_use : page_bit machine.pmap.list 600 ≢ 0
top_in_use e = omega arith

place : ℕ → List ℕ
place t = if t == top then [] else 0 ∷ 0 ∷ 0 ∷ []

far : (t : ℕ) → page_bit machine.pmap.list (t / 2 ^ 12) ≡ 0 → 3 ≤ length (place t)
unfolding place
far t h = elim (ℕ_discrete t top) [
  | yes e ↦ absurd (top_in_use (subst (λ (x : ℕ). page_bit machine.pmap.list (x / 2 ^ 12) ≡ 0) e h))
  | no ne ↦ ground (arith, ne)
]

pub bitmap-IsBytes : IsBytes (bitmap 0).list
bitmap-IsBytes i = ground arith

pub machine-Tables : Tables machine top
unfolding place
machine-Tables = record {
  space = record {
    tree = machine-Tree 3;
    self = refl;
    bytes = bitmap-IsBytes;
    free = λ a ge lt h. elim (ℕ_discrete a (entry_at top 510)) [
      | yes e ↦
          absurd (top_in_use (subst (λ (x : ℕ). page_bit machine.pmap.list (x / 2 ^ 12) ≡ 0) e h))
      | no ne ↦ update_ne (λ b. 0) (entry_at top 510) a (top + 7) ne
    ];
  };
  place = place;
  placed = record {
    root = refl;
    child = λ t i c o lt near plain e.
        let is_top : t ≡ top = ground arith in
        let word : machine.words (entry_at t i) ≡ 0 = rw is_top (other_words i (plain is_top)) in
        absurd (omega (arith, e, word));
    far = far;
  };
}

room11 : (fuel : ℕ) → HasRoom (suc fuel) 11 (bitmap 0)
unfolding kmalloc_mem skip_full find_page take_page is_open mark_page set_bit
room11 fuel = (
  bitmap 1,
  528 * 4096,
  refl,
  omega arith,
  (
    bitmap 2,
    529 * 4096,
    refl,
    omega arith,
    (
      bitmap 3,
      530 * 4096,
      refl,
      omega arith,
      (
        bitmap 4,
        531 * 4096,
        refl,
        omega arith,
        (
          bitmap 5,
          532 * 4096,
          refl,
          omega arith,
          (
            bitmap 6,
            533 * 4096,
            refl,
            omega arith,
            (
              bitmap 7,
              534 * 4096,
              refl,
              omega arith,
              (
                bitmap 8,
                535 * 4096,
                refl,
                omega arith,
                (
                  bitmap 9,
                  536 * 4096,
                  refl,
                  omega arith,
                  (
                    bitmap 10,
                    537 * 4096,
                    refl,
                    omega arith,
                    (bitmap 11, 538 * 4096, refl, omega arith, tt),
                  ),
                ),
              ),
            ),
          ),
        ),
      ),
    ),
  ),
)

-- The first `n` of the calls.
fewer : (n more k fuel : ℕ) → k ≡ n + more → HasRoom fuel k (bitmap 0) → HasRoom fuel n (bitmap 0)
fewer n zero k fuel e r = subst (λ j. HasRoom fuel j (bitmap 0)) (omega arith) r
fewer n (suc more) k fuel e r =
    let one_more : k ≡ suc (n + more) = omega arith in
    fewer n more (n + more) fuel refl
      (room_less fuel (n + more) (bitmap 0) (subst (λ j. HasRoom fuel j (bitmap 0)) one_more r))

-- Room for pages in the machine's bitmap.
pub room : (n more fuel : ℕ) → n + more ≡ 11 → HasRoom (suc fuel) n (bitmap 0)
room n more fuel e = fewer n more 11 (suc fuel) (sym e) (room11 fuel)

-- The same memory before it has a top table: all zeros.
abbrev pub blank : Machine
blank = record { words = λ a. 0; pmap = bitmap 0 }
