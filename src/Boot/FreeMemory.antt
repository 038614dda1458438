-- ===== src/Boot/FreeMemory.antt =====
-- The pages that are free once the memory map has been read.
use cse508_operating_system.Prelude.{
  ℕ, zero, suc, ◌+◌, ◌*◌, ◌/◌, ◌^◌, ◌<◌, ◌≡◌, ◌≢◌, refl, ◌∙◌, Bool, false, some, List, [], ◌∷◌,
  arith, ltb, leb, ◌==◌, not, ◌&&◌, ◌||◌, if◌then◌else◌, u32, u64,
}
use cse508_operating_system.Pmap.{Pmap, page_size, max_pages, init_freelist, is_memory_reserved}
use cse508_operating_system.Pmap.Bitmap.{
  IsBytes, page_bit, init_freelist_lem, init_freelist-IsBytes,
}
use cse508_operating_system.Pmap.Reserve.{
  set_kernel_in_freelist_bit, set_kernel_in_freelist-IsBytes, reserved-set_kernel_in_freelist,
  kernelfree-set_kernel_in_freelist,
}
use cse508_operating_system.Boot.{
  Smap, find_module, smap_entries, free_entry, free_entries, setup_memory,
}

-- The page lies between the ends of an available entry, rounded down to pages.
abbrev pub available : List Smap → ℕ → Bool
available [] q = false
available (e ∷ es) q =
    (e.type == 1
      && not (e.length == 0)
      && leb (e.base / page_size) q
      && ltb q (u64 (e.base + e.length) / page_size))
    || available es q

free_entry_bit :
    (e : Smap) (s : Pmap) (q : ℕ)
    → IsBytes s.list
    → page_bit (free_entry e s).list q ≡ (
        if available (e ∷ []) q then if is_memory_reserved s q then 1 else 0 else page_bit s.list q)
unfolding free_entry
free_entry_bit e s q bytes =
    ground (arith, set_kernel_in_freelist_bit s e.base (u64 (e.base + e.length)) q bytes)

free_entry-IsBytes : (e : Smap) (s : Pmap) → IsBytes s.list → IsBytes (free_entry e s).list
unfolding free_entry
free_entry-IsBytes e s bytes i =
    ground
      (arith, set_kernel_in_freelist-IsBytes s e.base (u64 (e.base + e.length)) bytes i, bytes i)

reserved-free_entry :
    (e : Smap) (s : Pmap) (q : ℕ) → is_memory_reserved (free_entry e s) q ≡ is_memory_reserved s q
unfolding free_entry
reserved-free_entry e s q =
    ground (arith, reserved-set_kernel_in_freelist s e.base (u64 (e.base + e.length)) q)

pub free_entries_bit :
    (es : List Smap) (s : Pmap) (q : ℕ)
    → IsBytes s.list
    → page_bit (free_entries es s).list q
      ≡ (if available es q then if is_memory_reserved s q then 1 else 0 else page_bit s.list q)
unfolding free_entries
free_entries_bit [] s q bytes = refl
free_entries_bit (e ∷ es) s q bytes =
    free_entries_bit es (free_entry e s) q (free_entry-IsBytes e s bytes)
    ∙ rw (reserved-free_entry e s q, free_entry_bit e s q bytes) (ground arith)

pub free_entries-IsBytes :
    (es : List Smap) (s : Pmap) → IsBytes s.list → IsBytes (free_entries es s).list
unfolding free_entries
free_entries-IsBytes [] s bytes = bytes
free_entries-IsBytes (e ∷ es) s bytes =
    free_entries-IsBytes es (free_entry e s) (free_entry-IsBytes e s bytes)

kernelfree-free_entry : (e : Smap) (s : Pmap) → (free_entry e s).kernelfree ≡ s.kernelfree
unfolding free_entry
kernelfree-free_entry e s =
    ground (arith, kernelfree-set_kernel_in_freelist s e.base (u64 (e.base + e.length)))

-- The map does not move `kernelfree`.
pub kernelfree-free_entries :
    (es : List Smap) (s : Pmap) → (free_entries es s).kernelfree ≡ s.kernelfree
unfolding free_entries
kernelfree-free_entries [] s = refl
kernelfree-free_entries (e ∷ es) s =
    kernelfree-free_entries es (free_entry e s) ∙ kernelfree-free_entry e s

-- Behind `n` modules with other tags stands the memory map.
abbrev pub Modules : (n : ℕ) (words : ℕ → ℕ) (modulep found : ℕ) → Type 0
Modules zero words modulep found = (modulep ≡ found) × (words modulep ≡ 0x9001)
Modules (suc n) words modulep found =
    (words modulep ≢ 0x9001) × Modules n words (modulep + u32 (words (modulep + 1) + 2)) found

pub find_module_lem :
    (n fuel : ℕ) (words : ℕ → ℕ) (modulep found : ℕ)
    → Modules n words modulep found
    → n < fuel
    → find_module fuel words modulep ≡ some found
unfolding find_module
find_module_lem n zero words modulep found m lt = absurd (omega arith)
find_module_lem zero (suc fuel) words modulep found (at_map, tag) lt = ground arith
find_module_lem (suc n) (suc fuel) words modulep found (other, m) lt =
    let rest =
      find_module_lem n fuel words (modulep + u32 (words (modulep + 1) + 2)) found m
        (omega arith) in
    ground arith

-- If the module list leads to the memory map in fewer steps than the fuel, the bitmap is set up, and one of its 65536 pages is
-- free exactly when it lies in an available entry of the map and is not reserved for the kernel.
pub setup_memory_lem :
    (n fuel modulep found : ℕ) (words memory : ℕ → ℕ) (physbase physfree q : ℕ)
    → Modules n words modulep found
    → n < fuel
    → physfree + max_pages < 2 ^ 64
    → IsBytes memory
    → q < 8 * max_pages
    → let es = smap_entries ((words (found + 1) + 19) / 20) words (found + 2) in
      let start = init_freelist memory physbase physfree in
      (s : Pmap) × (setup_memory fuel words modulep memory physbase physfree ≡ some s)
      × (page_bit s.list q ≡ (if available es q && not (is_memory_reserved start q) then 0 else 1))
unfolding setup_memory
setup_memory_lem n fuel modulep found words memory physbase physfree q modules enough fits bytes
      small =
    let es : List Smap = smap_entries ((words (found + 1) + 19) / 20) words (found + 2) in
    let start : Pmap = init_freelist memory physbase physfree in
    (
      free_entries es start,
      rw (find_module_lem n fuel words modulep found modules enough),
      free_entries_bit es start q (init_freelist-IsBytes memory physbase physfree bytes)
          ∙ rw ((init_freelist_lem memory physbase physfree fits).0 q small) (ground arith),
    )
