-- ===== src/Pmap/Alloc.antt =====
-- The page allocators of sys/pmap.c.
use native.Mathlib.Nat.{pow-le-pow_right, one-le-pow, lt-mul-div-succ, div-eq_of_lt}
use mathlib.Core.Path.{subst}
use cse508_operating_system.Prelude.{
  ℕ, zero, suc, ◌+◌, ◌-◌, ◌*◌, ◌/◌, ◌%◌, ◌^◌, ◌≤◌, ◌<◌, ◌≡◌, ◌≢◌, refl, ◌⊎◌, inl, inr, true, some,
  arith, ◌==◌, if◌then◌else◌, Bool-cases, Option-cases, >>=-eq-some,
}
use cse508_operating_system.Pmap.{
  Pmap, page_size, max_pages, mark_page, skip_full, is_open, find_page, take_page, alloc_from,
  kmalloc_mem, malloc,
}
use cse508_operating_system.Pmap.Bitmap.{IsBytes, page_bit, mark_page_bit, mark_page-IsBytes}

-- The scan of the list ends if it meets a byte other than 255 within the fuel, at that byte or
-- before.
pub skip_full_total :
    (fuel : ℕ) (list : ℕ → ℕ) (page i : ℕ)
    → page ≤ i
    → i < page + fuel
    → list i ≢ 255
    → (q : ℕ) × (skip_full fuel list page ≡ some q) × (q ≤ i)
unfolding skip_full
skip_full_total zero list page i le lt ne = absurd (omega arith)
skip_full_total (suc fuel) list page i le lt ne = elim (Bool-cases (list page == 255)) [
  | inl full ↦ rw full (skip_full_total fuel list (page + 1) i (ground arith) (omega arith) ne)
  | inr other ↦ (page, rw other, le)
]

pub skip_full-le :
    (fuel : ℕ) (list : ℕ → ℕ) (page q : ℕ) → skip_full fuel list page ≡ some q → page ≤ q
unfolding skip_full
skip_full-le zero list page q e = cc
skip_full-le (suc fuel) list page q e = ground (arith, skip_full-le fuel list (page + 1) q)

-- What the second scan finds: the first page whose test passes, or that none passes.
find_page-some :
    (n : ℕ) (list : ℕ → ℕ) (page q : ℕ)
    → find_page n list page ≡ some q
    → (page ≤ q) × (q < page + n) × (is_open list q ≡ true)
unfolding find_page
find_page-some zero list page q e = cc
find_page-some (suc n) list page q e = ground (arith, find_page-some n list (page + 1) q)

pub find_page_first :
    (n : ℕ) (list : ℕ → ℕ) (page : ℕ) (r : ℕ)
    → page ≤ r
    → r < page + n
    → is_open list r ≡ true
    → (q : ℕ) × (find_page n list page ≡ some q) × (q ≤ r)
unfolding find_page
find_page_first zero list page r le lt ok = absurd (omega arith)
find_page_first (suc n) list page r le lt ok = elim (Bool-cases (is_open list page)) [
  | inl here ↦ rw here (page, refl, le)
  | inr not_here ↦ rw not_here (find_page_first n list (page + 1) r (ground arith) (omega arith) ok)
]

high_bits_zero : (x k j : ℕ) → x / 2 ^ k ≡ 0 → k ≤ j → x / 2 ^ j ≡ 0
high_bits_zero x k j e le =
    let small = rw e at (lt-mul-div-succ x {b = 2 ^ k} (one-le-pow k 2 (omega arith))) in
    let wider : 2 ^ k ≤ 2 ^ j = pow-le-pow_right (omega arith) le in
    div-eq_of_lt {n = x} {m = 2 ^ j} (omega arith)

-- A page passes the test only if it and the pages above it in its byte are free.
pub is_open-bit :
    (list : ℕ → ℕ) (p q : ℕ) → is_open list p ≡ true → p ≤ q → q / 8 ≡ p / 8 → page_bit list q ≡ 0
unfolding is_open
is_open-bit list p q ok le same =
    let clear : list (q / 8) / 2 ^ (p % 8) ≡ 0 = rw same (ground arith) in
    omega (arith, high_bits_zero (list (q / 8)) (p % 8) (q % 8) clear (omega arith))

-- A successful allocation of page `page`: its address is returned, it was free and is in use
-- afterwards, as were all pages above it in its byte, and no other page's bit has changed.
pub record Takes (start : ℕ) (s s' : Pmap) (addr page : ℕ) : Type 0 where
  pub address : addr ≡ page * page_size
  pub from_start : start ≤ page
  pub in_list : page < max_pages
  pub was_free : (q : ℕ) → page ≤ q → q / 8 ≡ page / 8 → page_bit s.list q ≡ 0
  pub marks : (q : ℕ) → page_bit s'.list q ≡ (if q == page then 1 else page_bit s.list q)
  pub bytes : IsBytes s'.list
  pub beyond : (i : ℕ) → max_pages / 8 ≤ i → s'.list i ≡ s.list i
  pub same_base : s'.kernelbase ≡ s.kernelbase
  pub same_free : s'.kernelfree ≡ s.kernelfree

module _ (start : ℕ) (s : Pmap) (bytes : IsBytes s.list) where
  pub take_page-Takes :
      (p page : ℕ)
      → start ≤ p
      → find_page (max_pages - p) s.list p ≡ some page
      → Takes start s (mark_page s page) (page * page_size) page
  take_page-Takes p page le e =
      let (low, high, ok) = find_page-some (max_pages - p) s.list p page e in
      record {
        address = refl;
        from_start = omega arith;
        in_list = omega arith;
        was_free = λ q. is_open-bit s.list page q ok;
        marks = mark_page_bit s page bytes;
        bytes = mark_page-IsBytes s page bytes;
        beyond = λ i h. unfold mark_page in ground arith;
        same_base = unfold mark_page in refl;
        same_free = unfold mark_page in refl;
      }

  -- The two ways in which an allocator can return.
  pub alloc_from_cases :
      (fuel : ℕ) (s' : Pmap) (addr : ℕ)
      → alloc_from start fuel s ≡ some (s', addr)
      → ((page : ℕ) × Takes start s s' addr page) ⊎ ((addr ≡ 0) × (s' ≡ s))
  unfolding alloc_from take_page
  alloc_from_cases fuel s' addr e =
      let (p, scan, ret) = >>=-eq-some (skip_full fuel s.list start) _ e in
      elim (Option-cases (find_page (max_pages - p) s.list p)) [
        | inl nothing ↦ inr (ground arith)
        | inr found ↦
            let got : ◌≡◌ {A = Pmap × ℕ} (mark_page s found.0, found.0 * page_size) (s', addr) =
              ground (arith, found.1) in
            inl (
              found.0,
              subst (λ (r : Pmap × ℕ). Takes start s r.0 r.1 found.0) got
                  (take_page-Takes p found.0 (skip_full-le fuel s.list start p scan) found.1),
            )
      ]

  -- With a byte other than 255 in reach of the first scan the allocator returns.
  pub alloc_from_total :
      (fuel i : ℕ)
      → start ≤ i
      → i < start + fuel
      → s.list i ≢ 255
      → (r : Pmap × ℕ) × (alloc_from start fuel s ≡ some r)
  unfolding alloc_from
  alloc_from_total fuel i le lt ne =
      let (p, scan, at_most) = skip_full_total fuel s.list start i le lt ne in
      (take_page s (find_page (max_pages - p) s.list p), rw scan)

-- The two ways in which `kmalloc_mem` can return.
pub kmalloc_mem_cases :
    (s : Pmap) (fuel : ℕ) (s' : Pmap) (addr : ℕ)
    → IsBytes s.list
    → kmalloc_mem fuel s ≡ some (s', addr)
    → ((page : ℕ) × Takes 528 s s' addr page) ⊎ ((addr ≡ 0) × (s' ≡ s))
unfolding kmalloc_mem
kmalloc_mem_cases s fuel s' addr bytes ret = alloc_from_cases 528 s bytes fuel s' addr ret

-- With a byte other than 255 in reach of its first scan `kmalloc_mem` returns. It either takes a
-- page from 528 to 8191 that was free, with all pages above it in its byte free as well: then its
-- address is the result and its bit is the only one that changes. Or it returns NULL and
-- changes nothing.
pub kmalloc_mem_lem :
    (s : Pmap) (fuel i : ℕ)
    → IsBytes s.list
    → 528 ≤ i
    → i < 528 + fuel
    → s.list i ≢ 255
    → (s' : Pmap) × (addr : ℕ) × (kmalloc_mem fuel s ≡ some (s', addr))
      × (((page : ℕ) × Takes 528 s s' addr page) ⊎ ((addr ≡ 0) × (s' ≡ s)))
unfolding kmalloc_mem
kmalloc_mem_lem s fuel i bytes le lt ne =
    let ((s', addr), ret) = alloc_from_total 528 s bytes fuel i le lt ne in
    (s', addr, ret, alloc_from_cases 528 s bytes fuel s' addr ret)

-- `malloc` ignores the size that is asked for, and may hand out any of the first 8192 pages:
-- with a byte other than 255 in reach it takes one page as `kmalloc_mem` does, from 0 on.
pub malloc_lem :
    (s : Pmap) (fuel i size : ℕ)
    → IsBytes s.list
    → i < fuel
    → s.list i ≢ 255
    → (s' : Pmap) × (addr : ℕ) × (malloc fuel s size ≡ some (s', addr))
      × (((page : ℕ) × Takes 0 s s' addr page) ⊎ ((addr ≡ 0) × (s' ≡ s)))
unfolding malloc
malloc_lem s fuel i size bytes lt ne =
    let ((s', addr), ret) = alloc_from_total 0 s bytes fuel i (omega arith) (omega arith) ne in
    (s', addr, ret, alloc_from_cases 0 s bytes fuel s' addr ret)
