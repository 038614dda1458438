-- ===== src/Boot.antt =====
-- How `start` of sys/main.c fills the page bitmap from the memory map of the boot loader: the
-- 32-bit words from `modulep` on, by index.
pub mod FreeMemory
pub mod Start
pub mod Ready
pub mod Enter
mod Tests
use cse508_operating_system.Prelude.{
  ℕ, zero, suc, ◌+◌, ◌*◌, ◌/◌, ◌^◌, Bool, Option, none, some, List, [], ◌∷◌, ◌==◌, not, ◌&&◌,
  if◌then◌else◌, u32, u64, ◌>>=◌,
}
use cse508_operating_system.Pmap.{Pmap, init_freelist, set_kernel_in_freelist}

-- `struct smap_t`, packed: five words.
pub record Smap : Type 0 where
  pub base : ℕ
  pub length : ℕ
  pub type : ℕ

-- `while (modulep[0] != 0x9001) modulep += modulep[1] + 2`. The C loop has no bound.
unfoldable pub find_module : ℕ → (words : ℕ → ℕ) → (modulep : ℕ) → Option ℕ
find_module zero words modulep = none
find_module (suc fuel) words modulep =
    let rest = find_module fuel words (modulep + u32 (words (modulep + 1) + 2)) in
    if words modulep == 0x9001 then some modulep else rest

abbrev pub smap_at : (words : ℕ → ℕ) (at_word : ℕ) → Smap
smap_at words at_word = record {
  base = words at_word + words (at_word + 1) * 2 ^ 32;
  length = words (at_word + 2) + words (at_word + 3) * 2 ^ 32;
  type = words (at_word + 4);
}

-- The entries that the `for` loop meets, with `n` rounds left.
unfoldable pub smap_entries : ℕ → (words : ℕ → ℕ) → (at_word : ℕ) → List Smap
smap_entries zero words at_word = []
smap_entries (suc n) words at_word = smap_at words at_word ∷ smap_entries n words (at_word + 5)

-- The body of the loop.
unfoldable pub free_entry : Smap → Pmap → Pmap
free_entry e s =
    if e.type == 1 && not (e.length == 0)
    then set_kernel_in_freelist s e.base (u64 (e.base + e.length))
    else s

unfoldable pub free_entries : List Smap → Pmap → Pmap
unfolding free_entry
free_entries [] s = s
free_entries (e ∷ es) s = free_entries es (free_entry e s)

-- From `init_freelist` to the end of the loop. An entry starts at each multiple of 20 bytes below
-- `modulep[1]`. `memory` is what stands at `physfree`.
unfoldable pub setup_memory :
    ℕ → (words : ℕ → ℕ) (modulep : ℕ) (memory : ℕ → ℕ) (physbase physfree : ℕ) → Option Pmap
unfolding find_module smap_entries free_entries
setup_memory fuel words modulep memory physbase physfree = do
  found ← find_module fuel words modulep
  let entries : List Smap = smap_entries ((words (found + 1) + 19) / 20) words (found + 2)
  some (free_entries entries (init_freelist memory physbase physfree))
