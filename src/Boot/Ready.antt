-- ===== src/Boot/Ready.antt =====
-- The page tables that `start` of sys/main.c sets up from the boot loader's memory map.
use mathlib.Core.Path.{subst}
use cse508_operating_system.Prelude.{
  ℕ, suc, ◌+◌, ◌*◌, ◌/◌, ◌%◌, ◌^◌, ◌≤◌, ◌<◌, ◌≡◌, ◌≢◌, refl, ap, ◌∙◌, true, Option, some, List,
  arith, if◌then◌else◌, ◌>>=◌,
}
use cse508_operating_system.Pmap.{Pmap, page_size, max_pages, init_freelist, is_memory_reserved}
use cse508_operating_system.Pmap.Bitmap.{
  IsBytes, page_bit, init_freelist_lem, init_freelist-IsBytes,
}
use cse508_operating_system.PageTables.{Machine, setup_page_tables}
use cse508_operating_system.Paging.Fresh.{FreeIsZero}
use cse508_operating_system.Paging.Room.{IsRun-HasRoom}
use cse508_operating_system.Paging.Setup.{SetUp, setup_page_tables-SetUp}
use cse508_operating_system.Boot.{Smap, smap_entries, free_entries, setup_memory}
use cse508_operating_system.Boot.Start.{start_memory}
use cse508_operating_system.Boot.FreeMemory.{
  Modules, available, free_entries_bit, free_entries-IsBytes, find_module_lem,
  kernelfree-free_entries,
}

module _ (memory : ℕ → ℕ) (physbase physfree : ℕ) (es : List Smap) (bytes : IsBytes memory)
    (low : physfree + max_pages < 2 ^ 28) (order : physbase ≤ 528 * page_size) where
  abbrev first : Pmap
  first = init_freelist memory physbase physfree

  -- The bitmap behind the memory map.
  abbrev pub left : Pmap
  left = free_entries es first

  pub left-IsBytes : IsBytes left.list
  left-IsBytes =
      free_entries-IsBytes es first (init_freelist-IsBytes memory physbase physfree bytes)

  pub left_kernelfree : left.kernelfree ≡ physfree + max_pages
  unfolding init_freelist
  left_kernelfree = kernelfree-free_entries es first ∙ omega arith

  left_bit :
      (q : ℕ)
      → q < 8 * max_pages
      → page_bit left.list q
        ≡ (if available es q then if is_memory_reserved first q then 1 else 0 else 1)
  left_bit q small =
      free_entries_bit es first q (init_freelist-IsBytes memory physbase physfree bytes)
      ∙ rw ((init_freelist_lem memory physbase physfree (omega arith)).0 q small) refl

  -- An available page above the kernel is free.
  pub above_free :
      (q : ℕ)
      → q < max_pages
      → available es q ≡ true
      → physfree + max_pages < q * page_size
      → page_bit left.list q ≡ 0
  unfolding is_memory_reserved init_freelist
  above_free q small there above = left_bit q (omega arith) ∙ rw there (ground arith)

  -- A free page from 528 on lies above the kernel.
  pub free_above :
      (q : ℕ)
      → 528 ≤ q
      → q < max_pages
      → page_bit left.list q ≡ 0
      → physfree + max_pages < q * page_size
  unfolding is_memory_reserved init_freelist
  free_above q from small clear = ground (arith, left_bit q (omega arith), clear)

setup_memory-left :
    (n fuel modulep found : ℕ) (words memory : ℕ → ℕ) (physbase physfree : ℕ)
    → Modules n words modulep found
    → n < fuel
    → setup_memory fuel words modulep memory physbase physfree
      ≡ some (
          free_entries
            (smap_entries ((words (found + 1) + 19) / 20) words (found + 2))
            (init_freelist memory physbase physfree))
unfolding setup_memory
setup_memory-left n fuel modulep found words memory physbase physfree modules enough =
    rw (find_module_lem n fuel words modulep found modules enough)

start_memory_steps :
    (fuel : ℕ) (words : ℕ → ℕ) (modulep : ℕ) (memory machine_words : ℕ → ℕ)
    (kernmem physbase physfree : ℕ) (s : Pmap) (f : ℕ) (r : Option (Machine × ℕ))
    → setup_memory fuel words modulep memory physbase physfree ≡ some s
    → s.kernelfree ≡ f
    → setup_page_tables fuel (record { words = machine_words; pmap = s }) kernmem physbase f ≡ r
    → start_memory fuel words modulep memory machine_words kernmem physbase physfree ≡ r
unfolding start_memory
start_memory_steps fuel words modulep memory machine_words kernmem physbase physfree s f r found
      behind next =
    rw (found, ◌>>=◌)
      (ap
          (λ (x : ℕ).
            setup_page_tables fuel (record { words = machine_words; pmap = s }) kernmem physbase x)
          behind
        ∙ next)

-- `start` as far as `setup_page_tables`, if the module list leads to the memory map in fewer steps
-- than the fuel; the kernel starts page-aligned from 1 MB on and not behind page 528, where its
-- link address `kernmem` has it in its low 28 bits, and lies with the bitmap behind it in one 2 MB
-- region; the map has available pages behind the bitmap, from some page `b` on from 528 on, `k + 7`
-- of them before the end `8 * e` of the run and one more at page 4224; and the memory behind the
-- bitmap that `kmalloc_mem` can hand out holds zeros. Then it returns page tables in which the
-- kernel, the bitmap and the screen are mapped, in the state that `mmap` and `kmalloc` need, with
-- room for `k` more pages in the bitmap.
pub start_memory-SetUp :
    (n fuel k modulep found : ℕ) (words memory machine_words : ℕ → ℕ)
    (kernmem physbase physfree b e : ℕ)
    → let es = smap_entries ((words (found + 1) + 19) / 20) words (found + 2) in
      Modules n words modulep found
      → n < fuel
      → IsBytes memory
      → physfree + max_pages < 2 ^ 28
      → kernmem < 2 ^ 64
      → kernmem / 2 ^ 39 % 512 ≢ 510
      → kernmem % 2 ^ 28 ≡ physbase
      → physbase ≡ physbase / 2 ^ 12 * 2 ^ 12
      → 2 ^ 20 ≤ physbase
      → physbase ≤ 528 * page_size
      → physbase ≤ physfree
      → (physfree + max_pages) / 2 ^ 21 ≡ physbase / 2 ^ 21
      → 528 ≤ b
      → physfree + max_pages < b * page_size
      → b + suc (suc (suc (suc (suc (suc (suc k)))))) ≤ 8 * e
      → 8 * e ≤ 4224
      → ((q : ℕ) → b ≤ q → q < 8 * e → available es q ≡ true)
      → available es 4224 ≡ true
      → ((a : ℕ)
          → a / 2 ^ 12 < max_pages
          → physfree + max_pages < a / 2 ^ 12 * page_size
          → machine_words a ≡ 0)
      → (m' : Machine) × (p : ℕ) × (start_memory fuel words modulep memory machine_words kernmem
            physbase physfree
          ≡ some (m', p))
        × SetUp fuel k (physfree + max_pages) kernmem physbase (physfree + max_pages) p m'
start_memory-SetUp n fuel k modulep found words memory machine_words kernmem physbase physfree b e
      modules enough bytes fits wide plain same aligned high low order near from above room inside
      there spare zeros =
    let es : List Smap = smap_entries ((words (found + 1) + 19) / 20) words (found + 2) in
    let s : Pmap = left memory physbase physfree es bytes fits low in
    let m : Machine = record { words = machine_words; pmap = s } in
    let behind : s.kernelfree ≡ physfree + max_pages =
      left_kernelfree memory physbase physfree es bytes fits low in
    let is_bytes = left-IsBytes memory physbase physfree es bytes fits low in
    let zero_free : FreeIsZero m = λ a ge lt clear.
      zeros a lt (free_above memory physbase physfree es bytes fits low (a / 2 ^ 12) ge lt clear) in
    let pages =
      IsRun-HasRoom (suc (suc (suc (suc (suc (suc (suc k))))))) fuel 4224 b e s is_bytes
        (omega arith) (omega arith) (omega arith)
        (above_free memory physbase physfree es bytes fits low 4224 (omega arith) spare
          (omega arith))
        (omega arith) room (omega arith)
        (λ q ge lt.
          above_free memory physbase physfree es bytes fits low q (omega arith) (there q ge lt)
            (omega arith)) in
    let (m', p, ret, done) =
      setup_page_tables-SetUp fuel k m kernmem physbase (physfree + max_pages) is_bytes zero_free
        pages wide plain same aligned high (omega arith) near in
    (
      m',
      p,
      start_memory_steps fuel words modulep memory machine_words kernmem physbase physfree s
          (physfree + max_pages) (some (m', p))
          (setup_memory-left n fuel modulep found words memory physbase physfree modules enough)
          behind ret,
      subst (λ (f : ℕ). SetUp fuel k f kernmem physbase (physfree + max_pages) p m') behind done,
    )
