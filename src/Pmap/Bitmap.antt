-- ===== src/Pmap/Bitmap.antt =====
-- What the bitmap of sys/pmap.c says of each page, and what one update changes.
use cse508_operating_system.Prelude.{
  ℕ, zero, suc, ◌+◌, ◌*◌, ◌/◌, ◌%◌, ◌^◌, ◌≤◌, ◌<◌, ◌≡◌, refl, true, arith, ltb, leb, ◌==◌, ◌&&◌,
  not, if◌then◌else◌, update, bit, ==_iff,
}
use cse508_operating_system.Prelude.ByteBits.{bit-set_bit, bit-clear_bit, set_bit-lt, clear_bit-lt}
use cse508_operating_system.Prelude.Bits.{holds_below, holds_below-true}
use cse508_operating_system.Pmap.{
  Pmap, max_pages, clear_page, mark_page, set_page_free, set_page_used, fill, init_freelist,
}

-- Every entry of the list is an `unsigned char`.
abbrev pub IsBytes : (ℕ → ℕ) → Type 0
IsBytes list = (i : ℕ) → list i < 256

-- The bit of a page: 1 if the page is in use, 0 if it is free.
abbrev pub page_bit : (ℕ → ℕ) → ℕ → ℕ
page_bit list page = bit (list (page / 8)) (page % 8)

module _ (s : Pmap) (p : ℕ) (bytes : IsBytes s.list) where
  pub mark_page_bit :
      (q : ℕ) → page_bit (mark_page s p).list q ≡ (if q == p then 1 else page_bit s.list q)
  unfolding mark_page
  mark_page_bit q = ground (
    arith,
    bit-set_bit (s.list (p / 8)) (p % 8) (q % 8) (bytes (p / 8)) (omega arith) (omega arith),
  )

  pub clear_page_bit :
      (q : ℕ) → page_bit (clear_page s p).list q ≡ (if q == p then 0 else page_bit s.list q)
  unfolding clear_page
  clear_page_bit q = ground (
    arith,
    bit-clear_bit (s.list (p / 8)) (p % 8) (q % 8) (bytes (p / 8)) (omega arith) (omega arith),
  )

  pub mark_page-IsBytes : IsBytes (mark_page s p).list
  unfolding mark_page
  mark_page-IsBytes i = ground (arith, bytes i, set_bit-lt (s.list (p / 8)) (p % 8))

  pub clear_page-IsBytes : IsBytes (clear_page s p).list
  unfolding clear_page
  clear_page-IsBytes i = ground (arith, bytes i, clear_bit-lt (s.list (p / 8)) (p % 8))

-- `set_page_used` and `set_page_free` set the bit of a page other than page 0 as they are named,
-- and change no other page's bit; for page 0 they change nothing.
pub set_page_bits :
    (s : Pmap) (p q : ℕ)
    → IsBytes s.list
    → (page_bit (set_page_used s p).list q
        ≡ (if (q == p) && not (p == 0) then 1 else page_bit s.list q))
      × (page_bit (set_page_free s p).list q
          ≡ (if (q == p) && not (p == 0) then 0 else page_bit s.list q))
unfolding set_page_used set_page_free
set_page_bits s p q bytes = ground (arith, mark_page_bit s p bytes q, clear_page_bit s p bytes q)

-- The loop of `init_freelist` writes 255 at the next `n` places, and nowhere else.
pub fill_at :
    (n c : ℕ) (list : ℕ → ℕ) (i : ℕ)
    → fill n c list i ≡ (if leb c i && ltb i (c + n) then 255 else list i)
unfolding fill
fill_at zero c list i = ground arith
fill_at (suc n) c list i = ground (arith, fill_at n (c + 1) (update list c 255) i)

ones_table : holds_below 8 (λ k. bit 255 k == 1) ≡ true
unfolding holds_below
ones_table = refl

pub ones_bit : (k : ℕ) → k < 8 → bit 255 k ≡ 1
ones_bit k h = (==_iff _ _).0 (holds_below-true 8 _ ones_table k h)

-- After `init_freelist` each of the 65536 pages that the list has bits for is in use, the bytes
-- behind the list are as they were, and the kernel's free memory starts behind the list.
pub init_freelist_lem :
    (memory : ℕ → ℕ) (physbase physfree : ℕ)
    → physfree + max_pages < 2 ^ 64
    → let s = init_freelist memory physbase physfree in
      ((p : ℕ) → p < 8 * max_pages → page_bit s.list p ≡ 1)
      × ((i : ℕ) → max_pages ≤ i → s.list i ≡ memory i)
      × (s.kernelfree ≡ s.list_at + max_pages)
unfolding init_freelist
init_freelist_lem memory physbase physfree fits = (
  λ p h. ground (arith, fill_at max_pages 0 memory (p / 8), ones_bit (p % 8) (omega arith)),
  λ i h. ground (arith, fill_at max_pages 0 memory i),
  omega arith,
)

pub init_freelist-IsBytes :
    (memory : ℕ → ℕ) (physbase physfree : ℕ)
    → IsBytes memory
    → IsBytes (init_freelist memory physbase physfree).list
unfolding init_freelist
init_freelist-IsBytes memory physbase physfree bytes i =
    ground (arith, fill_at max_pages 0 memory i, bytes i)
