-- ===== src/Text/Memory.antt =====
-- `memcpy` and `memset` of sys/write.c.
use cse508_operating_system.Prelude.{
  ℕ, zero, suc, ◌+◌, ◌≤◌, ◌<◌, ◌≡◌, refl, ◌∙◌, ◌⊎◌, arith, ltb, leb, ◌&&◌, if◌then◌else◌, update,
  update_self, update_ne, u8,
}
use cse508_operating_system.Text.{Bytes, copy_loop, memcpy, set_loop, memset}

set_loop_at :
    (n : ℕ) (mem : Bytes) (p v a : ℕ)
    → set_loop n mem p v a ≡ (if leb p a && ltb a (p + n) then u8 v else mem a)
unfolding set_loop
set_loop_at zero mem p v a = ground arith
set_loop_at (suc n) mem p v a = ground (arith, set_loop_at n (update mem p (u8 v)) (p + 1) v a)

-- `memset` writes the low byte of the value to each of the `count` bytes from `dest` on, changes
-- no other byte, and returns `dest`.
pub memset_lem :
    (mem : Bytes) (dest val count a : ℕ)
    → ((memset mem dest val count).0 a
        ≡ (if leb dest a && ltb a (dest + count) then u8 val else mem a))
      × ((memset mem dest val count).1 ≡ dest)
unfolding memset
memset_lem mem dest val count a = (set_loop_at count mem dest val a, refl)

copy_loop_outside :
    (n : ℕ) (mem : Bytes) (d s a : ℕ) → (a < d) ⊎ (d + n ≤ a) → copy_loop n mem d s a ≡ mem a
unfolding copy_loop
copy_loop_outside zero mem d s a out = refl
copy_loop_outside (suc n) mem d s a out =
    ground (arith, copy_loop_outside n (update mem d (mem s)) (d + 1) (s + 1) a)

-- A copy from front to back reads each byte before it can be overwritten, unless the target starts
-- inside the source.
copy_loop_at :
    (n : ℕ) (mem : Bytes) (d s j : ℕ)
    → j < n
    → (d ≤ s) ⊎ (s + n ≤ d)
    → copy_loop n mem d s (d + j) ≡ mem (s + j)
unfolding copy_loop
copy_loop_at zero mem d s j lt apart = absurd (omega arith)
copy_loop_at (suc n) mem d s zero lt apart =
    let e : d + 0 ≡ d = omega arith in
    let e' : s + 0 ≡ s = omega arith in
    rw (e, e')
      (copy_loop_outside n (update mem d (mem s)) (d + 1) (s + 1) d (omega arith)
        ∙ update_self mem d (mem s))
copy_loop_at (suc n) mem d s (suc j) lt apart =
    let e : d + suc j ≡ d + 1 + j = omega arith in
    let e' : s + suc j ≡ s + 1 + j = omega arith in
    rw (e, e')
      (copy_loop_at n (update mem d (mem s)) (d + 1) (s + 1) j (omega arith) (omega arith)
        ∙ update_ne mem d (s + 1 + j) (mem s) (omega arith))

-- `memcpy` returns `dest` and changes no byte outside the target. Unless the target starts inside
-- the source behind its first byte, the target gets the `count` bytes that the source held.
pub memcpy_lem :
    (mem : Bytes) (dest src count : ℕ)
    → ((memcpy mem dest src count).1 ≡ dest)
      × ((a : ℕ) → (a < dest) ⊎ (dest + count ≤ a) → (memcpy mem dest src count).0 a ≡ mem a)
      × ((j : ℕ)
          → j < count
          → (dest ≤ src) ⊎ (src + count ≤ dest)
          → (memcpy mem dest src count).0 (dest + j) ≡ mem (src + j))
unfolding memcpy
memcpy_lem mem dest src count = (
  refl,
  λ a out. copy_loop_outside count mem dest src a out,
  λ j lt apart. copy_loop_at count mem dest src j lt apart,
)
