-- ===== src/Pmap/Run.antt =====
-- A run of free pages: `kmalloc_mem` of sys/pmap.c hands out its first page, or an earlier one.
use native.Mathlib.Nat.{pow-suc, div-div-eq-div-mul}
use cse508_operating_system.Prelude.{
  ℕ, zero, suc, ◌+◌, ◌-◌, ◌*◌, ◌/◌, ◌%◌, ◌^◌, ◌≤◌, ◌<◌, ◌≡◌, ◌≢◌, ap, ◌∙◌, true, some, arith, bit,
  ==_iff, ◌>>=◌,
}
use cse508_operating_system.Pmap.{
  Pmap, page_size, max_pages, kmalloc_mem, alloc_from, take_page, is_open, mark_page,
}
use cse508_operating_system.Pmap.Bitmap.{IsBytes, page_bit, ones_bit}
use cse508_operating_system.Pmap.Alloc.{
  Takes, take_page-Takes, skip_full_total, skip_full-le, find_page_first,
}

-- A byte whose bits from `k` on are 0.
shifted_out :
    (n x k : ℕ) → k + n ≡ 8 → x < 256 → ((j : ℕ) → k ≤ j → j < 8 → bit x j ≡ 0) → x / 2 ^ k ≡ 0
shifted_out zero x k e lt clear = let last : k ≡ 8 = omega arith in rw last (omega arith)
shifted_out (suc n) x k e lt clear =
    let above : x / 2 ^ suc k ≡ 0 =
      shifted_out n x (suc k) (omega arith) lt (λ j le. clear j (omega arith)) in
    let twice : 2 ^ k * 2 ≡ 2 ^ suc k = omega (arith, pow-suc 2 k) in
    let halves : x / 2 ^ k / 2 ≡ x / 2 ^ suc k =
      div-div-eq-div-mul x (2 ^ k) 2 ∙ ap (λ (d : ℕ). x / d) twice in
    omega (arith, above, halves, clear k (omega arith) (omega arith))

bit-is_open :
    (list : ℕ → ℕ) (p : ℕ)
    → IsBytes list
    → ((q : ℕ) → p ≤ q → q / 8 ≡ p / 8 → page_bit list q ≡ 0)
    → is_open list p ≡ true
unfolding is_open
bit-is_open list p bytes clear =
    let bits : (j : ℕ) → p % 8 ≤ j → j < 8 → bit (list (p / 8)) j ≡ 0 = λ j le lt.
      (let at_byte : (p / 8 * 8 + j) / 8 ≡ p / 8 = omega arith in
        let at_bit : (p / 8 * 8 + j) % 8 ≡ j = omega arith in
        rw (at_byte, at_bit) at (clear (p / 8 * 8 + j) (omega arith) (omega arith))) in
    (==_iff _ _).1
      (shifted_out (8 - p % 8) (list (p / 8)) (p % 8) (omega arith) (bytes (p / 8)) bits)

-- The pages from `b` to the end of byte `e - 1` are free.
abbrev pub IsRun : (ℕ → ℕ) → (b e : ℕ) → Type 0
IsRun list b e = (q : ℕ) → b ≤ q → q < 8 * e → page_bit list q ≡ 0

-- A byte with a free page is not 255.
not_full : (list : ℕ → ℕ) (h : ℕ) → page_bit list h ≡ 0 → list (h / 8) ≢ 255
not_full list h clear full =
    omega (arith, ap (λ (x : ℕ). bit x (h % 8)) full, ones_bit (h % 8) (omega arith), clear)

-- With a run of free pages from page 528 on or later, and a free page `h` in a byte that the first
-- scan reaches and that is not behind the run, a page is taken: the first of the run or an earlier
-- one.
pub kmalloc_mem-IsRun :
    (fuel h b e : ℕ) (s : Pmap)
    → IsBytes s.list
    → 528 ≤ h / 8
    → h / 8 < 528 + fuel
    → h / 8 ≤ b
    → page_bit s.list h ≡ 0
    → b < 8 * e
    → 8 * e ≤ max_pages
    → IsRun s.list b e
    → (s' : Pmap) × (page : ℕ) × (kmalloc_mem fuel s ≡ some (s', page * page_size))
      × (page ≤ b)
      × Takes 528 s s' (page * page_size) page
unfolding kmalloc_mem alloc_from take_page
kmalloc_mem-IsRun fuel h b e s bytes from enough first clear inside in_list run =
    let (p, scan, at_most) =
      skip_full_total fuel s.list 528 (h / 8) from enough (not_full s.list h clear) in
    let at_b = bit-is_open s.list b bytes (λ q le same. run q le (omega arith)) in
    let (page, found, le) =
      find_page_first (max_pages - p) s.list p b (omega arith) (omega arith) at_b in
    (
      mark_page s page,
      page,
      rw (scan, ◌>>=◌, found),
      le,
      take_page-Takes 528 s bytes p page (skip_full-le fuel s.list 528 p scan) found,
    )
