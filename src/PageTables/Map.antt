-- ===== src/PageTables/Map.antt =====
-- The loops of `setup_page_tables` of sys/pagetab.c that fill one page table.
use cse508_operating_system.Prelude.{
  ℕ, zero, suc, ◌+◌, ◌*◌, ◌%◌, ◌^◌, ◌≤◌, ◌<◌, ◌≡◌, ◌≢◌, refl, ap, ◌∙◌, arith, update, update_self,
  update_ne, bit_or,
}
use cse508_operating_system.Prelude.Bits.{bit_or_fields}
use cse508_operating_system.Prelude.Masks.{flags_sum}
use cse508_operating_system.PageTables.{entry_at, get_pt_index, with_flags, map_loop}
use cse508_operating_system.PageTables.Walk.{get_index_lem}

module _ (pt v : ℕ) where
  -- `virt_base | phys` of a page in the 256 MB below the next base uses the page's own index.
  loop_index :
      (p : ℕ) → p * 2 ^ 12 < 2 ^ 28 → get_pt_index (bit_or (v * 2 ^ 28) (p * 2 ^ 12)) ≡ p % 512
  loop_index p h =
      (get_index_lem (bit_or (v * 2 ^ 28) (p * 2 ^ 12))).3
      ∙ omega (arith, bit_or_fields 28 v (p * 2 ^ 12) h)

  loop_flags : (p : ℕ) → with_flags (p * 2 ^ 12) ≡ p * 2 ^ 12 + 7
  unfolding with_flags
  loop_flags p = flags_sum p

  -- One round.
  map_loop-suc :
      (n p : ℕ) (words : ℕ → ℕ)
      → p * 2 ^ 12 < 2 ^ 28
      → map_loop (suc n) pt (v * 2 ^ 28) (p * 2 ^ 12) words
        ≡ map_loop n pt
            (v * 2 ^ 28)
            ((p + 1) * 2 ^ 12)
            (update words (entry_at pt (p % 512)) (p * 2 ^ 12 + 7))
  unfolding map_loop
  map_loop-suc n p words h =
      let next : p * 2 ^ 12 + 4096 ≡ (p + 1) * 2 ^ 12 = omega arith in
      rw (loop_index p h, loop_flags p, next)

  map_loop_miss :
      (n p : ℕ) (words : ℕ → ℕ) (a : ℕ)
      → (p + n) * 2 ^ 12 ≤ 2 ^ 28
      → ((k : ℕ) → k < n → a ≢ entry_at pt ((p + k) % 512))
      → map_loop n pt (v * 2 ^ 28) (p * 2 ^ 12) words a ≡ words a
  map_loop_miss zero p words a fits out = unfold map_loop in refl
  map_loop_miss (suc n) p words a fits out =
      ap (λ (w : ℕ → ℕ). w a) (map_loop-suc n p words (omega arith))
      ∙ map_loop_miss n (p + 1) (update words (entry_at pt (p % 512)) (p * 2 ^ 12 + 7)) a
          (omega arith) (λ k lt e. out (suc k) (omega arith) (omega arith))
      ∙ update_ne words (entry_at pt (p % 512)) a (p * 2 ^ 12 + 7)
          (λ e. out 0 (omega arith) (omega arith))

  -- Filling `n` pages from page `p` on, at most one table's worth and below 256 MB, leaves page
  -- `p + k` mapped by the entry of its own index with the flags PR, RW and US, for each `k < n`,
  -- and changes no word but those entries.
  pub map_loop_lem :
      (n p : ℕ) (words : ℕ → ℕ)
      → n ≤ 512
      → (p + n) * 2 ^ 12 ≤ 2 ^ 28
      → ((k : ℕ)
          → k < n
          → map_loop n pt (v * 2 ^ 28) (p * 2 ^ 12) words (entry_at pt ((p + k) % 512))
            ≡ (p + k) * 2 ^ 12 + 7)
        × ((a : ℕ)
            → ((k : ℕ) → k < n → a ≢ entry_at pt ((p + k) % 512))
            → map_loop n pt (v * 2 ^ 28) (p * 2 ^ 12) words a ≡ words a)
  map_loop_lem n p words few fits =
      (λ k lt. hit n p words k few fits lt, λ a out. map_loop_miss n p words a fits out)
    where
      hit :
          (n p : ℕ) (words : ℕ → ℕ) (k : ℕ)
          → n ≤ 512
          → (p + n) * 2 ^ 12 ≤ 2 ^ 28
          → k < n
          → map_loop n pt (v * 2 ^ 28) (p * 2 ^ 12) words (entry_at pt ((p + k) % 512))
            ≡ (p + k) * 2 ^ 12 + 7
      hit zero p words k few fits lt = absurd (omega arith)
      hit (suc n) p words zero few fits lt =
          let here : (p + 0) % 512 ≡ p % 512 = omega arith in
          ap (λ (w : ℕ → ℕ). w (entry_at pt ((p + 0) % 512))) (map_loop-suc n p words (omega arith))
          ∙ map_loop_miss n (p + 1) (update words (entry_at pt (p % 512)) (p * 2 ^ 12 + 7))
              (entry_at pt ((p + 0) % 512)) (omega arith) (λ j lt' e. omega arith)
          ∙ ap (update words (entry_at pt (p % 512)) (p * 2 ^ 12 + 7)) (ap (entry_at pt) here)
          ∙ update_self words (entry_at pt (p % 512)) (p * 2 ^ 12 + 7)
          ∙ omega arith
      hit (suc n) p words (suc k) few fits lt =
          let shift : p + 1 + k ≡ p + suc k = omega arith in
          ap (λ (w : ℕ → ℕ). w (entry_at pt ((p + suc k) % 512)))
            (map_loop-suc n p words (omega arith))
          ∙ rw (← shift) (
              hit n (p + 1) (update words (entry_at pt (p % 512)) (p * 2 ^ 12 + 7)) k (omega arith)
                (omega arith) (omega arith))
