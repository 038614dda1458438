-- ===== src/PageTables/Walk.antt =====
-- The walk that an x86-64 processor makes through four levels of tables, as a specification.
use cse508_operating_system.Prelude.{
  ℕ, ◌+◌, ◌*◌, ◌/◌, ◌%◌, ◌^◌, ◌≡◌, Option, none, some, ◌==◌, if◌then◌else◌, bit, ◌>>=◌,
}
use cse508_operating_system.Prelude.Bits.{bit_and_mask}
use cse508_operating_system.PageTables.{
  entry_at, get_pt_index, get_pd_index, get_pdp_index, get_pml4_index,
}

-- An entry with the present bit names the page frame in its bits 12 to 51.
abbrev pub frame_of : ℕ → Option ℕ
frame_of entry = if bit entry 0 == 1 then some (entry / 2 ^ 12 % 2 ^ 40 * 2 ^ 12) else none

abbrev pub follow : (ℕ → ℕ) → ℕ → ℕ → Option ℕ
follow words table index = frame_of (words (entry_at table index))

-- The page table for an address: bits 39, 30 and 21 onwards index the three levels above it.
abbrev pub walk : (ℕ → ℕ) → ℕ → ℕ → Option ℕ
walk words pml4 va = do
  pdp ← follow words pml4 (va / 2 ^ 39 % 512)
  pd ← follow words pdp (va / 2 ^ 30 % 512)
  follow words pd (va / 2 ^ 21 % 512)

-- The physical address.
abbrev pub translate : (ℕ → ℕ) → ℕ → ℕ → Option ℕ
translate words pml4 va = do
  pt ← walk words pml4 va
  frame ← follow words pt (va / 2 ^ 12 % 512)
  some (frame + va % 2 ^ 12)

-- `GetPTIndex` and its siblings take the bits of the address that the walk uses.
pub get_index_lem :
    (va : ℕ)
    → (get_pml4_index va ≡ va / 2 ^ 39 % 512)
      × (get_pdp_index va ≡ va / 2 ^ 30 % 512)
      × (get_pd_index va ≡ va / 2 ^ 21 % 512)
      × (get_pt_index va ≡ va / 2 ^ 12 % 512)
unfolding get_pml4_index get_pdp_index get_pd_index get_pt_index
get_index_lem va = (
  bit_and_mask 9 (va / 2 ^ 39),
  bit_and_mask 9 (va / 2 ^ 30),
  bit_and_mask 9 (va / 2 ^ 21),
  bit_and_mask 9 (va / 2 ^ 12),
)
