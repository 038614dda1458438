-- ===== src/Pmap/Reserve.antt =====
-- `set_kernel_in_freelist` of sys/pmap.c: the pages of a region of physical memory.
use cse508_operating_system.Prelude.{
  ℕ, zero, suc, ◌+◌, ◌-◌, ◌/◌, ◌≡◌, refl, ◌∙◌, arith, ltb, leb, ◌&&◌, if◌then◌else◌, ◌==◌,
}
use cse508_operating_system.Pmap.{
  Pmap, page_size, is_memory_reserved, mark_page, clear_page, reserve_page, reserve_loop,
  set_kernel_in_freelist,
}
use cse508_operating_system.Pmap.Bitmap.{
  IsBytes, page_bit, mark_page_bit, clear_page_bit, mark_page-IsBytes, clear_page-IsBytes,
}

abbrev verdict : Pmap → ℕ → ℕ
verdict s q = if is_memory_reserved s q then 1 else 0

reserved-reserve_page :
    (s : Pmap) (p q : ℕ) → is_memory_reserved (reserve_page s p) q ≡ is_memory_reserved s q
unfolding reserve_page mark_page clear_page is_memory_reserved
reserved-reserve_page s p q = ground arith

module _ (s : Pmap) (p : ℕ) (bytes : IsBytes s.list) where
  reserve_page_bit :
      (q : ℕ)
      → page_bit (reserve_page s p).list q ≡ (if q == p then verdict s p else page_bit s.list q)
  unfolding reserve_page
  reserve_page_bit q = ground (arith, mark_page_bit s p bytes q, clear_page_bit s p bytes q)

  reserve_page-IsBytes : IsBytes (reserve_page s p).list
  unfolding reserve_page
  reserve_page-IsBytes i =
      ground (arith, mark_page-IsBytes s p bytes i, clear_page-IsBytes s p bytes i)

reserve_loop_bit :
    (n p : ℕ) (s : Pmap) (q : ℕ)
    → IsBytes s.list
    → page_bit (reserve_loop n p s).list q
      ≡ (if leb p q && ltb q (p + n) then verdict s q else page_bit s.list q)
unfolding reserve_loop
reserve_loop_bit zero p s q bytes = ground arith
reserve_loop_bit (suc n) p s q bytes = ground (
  arith,
  reserve_loop_bit n (p + 1) (reserve_page s p) q (reserve_page-IsBytes s p bytes),
  reserve_page_bit s p bytes q,
  reserved-reserve_page s p q,
)

pub reserve_loop-IsBytes : (n p : ℕ) (s : Pmap) → IsBytes s.list → IsBytes (reserve_loop n p s).list
unfolding reserve_loop
reserve_loop-IsBytes zero p s bytes = bytes
reserve_loop-IsBytes (suc n) p s bytes =
    reserve_loop-IsBytes n (p + 1) (reserve_page s p) (reserve_page-IsBytes s p bytes)

-- After `set_kernel_in_freelist` a page of the region is in use exactly when it is reserved for
-- the kernel, and free otherwise; the pages outside the region keep their bits.
pub set_kernel_in_freelist_bit :
    (s : Pmap) (start_addr end_addr q : ℕ)
    → IsBytes s.list
    → page_bit (set_kernel_in_freelist s start_addr end_addr).list q ≡ (
        if leb (start_addr / page_size) q && ltb q (end_addr / page_size)
        then if is_memory_reserved s q then 1 else 0
        else page_bit s.list q)
unfolding set_kernel_in_freelist
set_kernel_in_freelist_bit s a b q bytes =
    ground (arith, reserve_loop_bit (b / page_size - a / page_size) (a / page_size) s q bytes)

pub set_kernel_in_freelist-IsBytes :
    (s : Pmap) (start_addr end_addr : ℕ)
    → IsBytes s.list
    → IsBytes (set_kernel_in_freelist s start_addr end_addr).list
unfolding set_kernel_in_freelist
set_kernel_in_freelist-IsBytes s a b bytes =
    reserve_loop-IsBytes (b / page_size - a / page_size) (a / page_size) s bytes

reserved-reserve_loop :
    (n p : ℕ) (s : Pmap) (q : ℕ)
    → is_memory_reserved (reserve_loop n p s) q ≡ is_memory_reserved s q
unfolding reserve_loop
reserved-reserve_loop zero p s q = refl
reserved-reserve_loop (suc n) p s q =
    reserved-reserve_loop n (p + 1) (reserve_page s p) q ∙ reserved-reserve_page s p q

-- Which pages are reserved does not depend on the bitmap.
pub reserved-set_kernel_in_freelist :
    (s : Pmap) (start_addr end_addr q : ℕ)
    → is_memory_reserved (set_kernel_in_freelist s start_addr end_addr) q ≡ is_memory_reserved s q
unfolding set_kernel_in_freelist
reserved-set_kernel_in_freelist s a b q =
    reserved-reserve_loop (b / page_size - a / page_size) (a / page_size) s q

kernelfree-reserve_loop : (n p : ℕ) (s : Pmap) → (reserve_loop n p s).kernelfree ≡ s.kernelfree
unfolding reserve_loop reserve_page mark_page clear_page
kernelfree-reserve_loop zero p s = refl
kernelfree-reserve_loop (suc n) p s =
    let one : (reserve_page s p).kernelfree ≡ s.kernelfree = ground arith in
    kernelfree-reserve_loop n (p + 1) (reserve_page s p) ∙ one

pub kernelfree-set_kernel_in_freelist :
    (s : Pmap) (start_addr end_addr : ℕ)
    → (set_kernel_in_freelist s start_addr end_addr).kernelfree ≡ s.kernelfree
unfolding set_kernel_in_freelist
kernelfree-set_kernel_in_freelist s a b =
    kernelfree-reserve_loop (b / page_size - a / page_size) (a / page_size) s
