-- ===== src/Pmap/Sequence.antt =====
-- Runs of `kmalloc_mem` calls.
use cse508_operating_system.Prelude.{
  ℕ, zero, suc, ◌+◌, ◌*◌, ◌/◌, ◌≡◌, ◌≢◌, ◌≤◌, ◌<◌, refl, ◌∙◌, ◌⊎◌, inl, inr, Option, some, List, [],
  ◌∷◌, arith, ℕ_discrete, ◌>>=◌,
}
use mathlib.Core.Path.{subst}
use cse508_operating_system.Pmap.{Pmap, page_size, max_pages, kmalloc_mem}
use cse508_operating_system.Pmap.Bitmap.{IsBytes, page_bit}
use cse508_operating_system.Pmap.Alloc.{Takes, kmalloc_mem_lem}

-- The addresses that `n` calls return, in order, and the map that they leave.
pub alloc_many : ℕ → ℕ → Pmap → Option (List ℕ × Pmap)
alloc_many zero fuel s = some ([], s)
alloc_many (suc n) fuel s = do
  (s1, addr) ← kmalloc_mem fuel s
  (rest, s2) ← alloc_many n fuel s1
  some (addr ∷ rest, s2)

abbrev pub Each : (ℕ → Type 0) → List ℕ → Type 0
Each P [] = Unit {0}
Each P (a ∷ xs) = P a × Each P xs

-- NULL, or the address of a page that was free in `s`.
abbrev pub NullOrFree : Pmap → ℕ → Type 0
NullOrFree s a = (a ≡ 0) ⊎ ((p : ℕ) × (a ≡ p * page_size) × (page_bit s.list p ≡ 0))

-- No address but NULL stands twice in the list.
abbrev pub NoneTwice : List ℕ → Type 0
NoneTwice [] = Unit {0}
NoneTwice (a ∷ xs) = Each (λ b. (b ≡ 0) ⊎ (b ≢ a)) xs × NoneTwice xs

Each-mono : {P Q : ℕ → Type 0} (xs : List ℕ) → ((a : ℕ) → P a → Q a) → Each P xs → Each Q xs
Each-mono [] f h = tt
Each-mono (a ∷ xs) f h = (f a h.0, Each-mono xs f h.1)

-- What is free after an allocation was free before it, and is not the page just taken.
free_before :
    {s s' : Pmap} {addr page : ℕ}
    → Takes 528 s s' addr page
    → (b : ℕ) → NullOrFree s' b
    → NullOrFree s b × ((b ≡ 0) ⊎ (b ≢ addr))
free_before t b (inl z) = (inl z, inl z)
free_before t b (inr (p, at, free)) =
    (inr (p, at, ground (arith, t.marks p)), inr (λ e. ground (arith, t.marks p, t.address)))

-- The rest of a run, seen from the map before its first call.
fresh-cons :
    {s s' : Pmap} {addr : ℕ} (xs : List ℕ)
    → ((page : ℕ) × Takes 528 s s' addr page) ⊎ ((addr ≡ 0) × (s' ≡ s))
    → Each (NullOrFree s') xs × NoneTwice xs
    → Each (NullOrFree s) (addr ∷ xs) × NoneTwice (addr ∷ xs)
fresh-cons {s} xs (inl (page, t)) (free, once) = (
  (
    inr (page, t.address, t.was_free page (omega arith) refl),
    Each-mono xs (λ b f. (free_before t b f).0) free,
  ),
  (Each-mono xs (λ b f. (free_before t b f).1) free, once),
)
fresh-cons {s} {addr} xs (inr (null, same)) (free, once) = (
  (inl null, subst (λ r. Each (NullOrFree r) xs) same free),
  (Each-mono xs (λ b f. null_or_ne b) free, once),
)
  where
    null_or_ne : (b : ℕ) → (b ≡ 0) ⊎ (b ≢ addr)
    null_or_ne b = elim (ℕ_discrete b 0) [ yes z ↦ inl z | no ne ↦ inr (λ e. ne (e ∙ null)) ]

IsBytes-after :
    {s s1 : Pmap} {addr : ℕ}
    → IsBytes s.list
    → ((page : ℕ) × Takes 528 s s1 addr page) ⊎ ((addr ≡ 0) × (s1 ≡ s))
    → IsBytes s1.list
IsBytes-after bytes (inl (page, t)) = t.bytes
IsBytes-after bytes (inr (null, same)) = λ i. rw same (bytes i)

sentinel_after :
    {s s1 : Pmap} {addr : ℕ} (i : ℕ)
    → max_pages / 8 ≤ i
    → s.list i ≢ 255
    → ((page : ℕ) × Takes 528 s s1 addr page) ⊎ ((addr ≡ 0) × (s1 ≡ s))
    → s1.list i ≢ 255
sentinel_after i le ne (inl (page, t)) = rw (t.beyond i le) ne
sentinel_after i le ne (inr (null, same)) = rw same ne

-- If a byte from the 1024th on is not 255 and in reach of the first scan, any number of calls of
-- `kmalloc_mem` return. Each result is NULL or the address of a page that was free before the first
-- call, and no page is handed out twice.
pub alloc_many_fresh :
    (n fuel : ℕ) (s : Pmap) (i : ℕ)
    → IsBytes s.list
    → max_pages / 8 ≤ i
    → i < 528 + fuel
    → s.list i ≢ 255
    → (xs : List ℕ) × (s' : Pmap) × (alloc_many n fuel s ≡ some (xs, s'))
      × Each (NullOrFree s) xs
      × NoneTwice xs
unfolding alloc_many
alloc_many_fresh zero fuel s i bytes le lt ne = ([], s, refl, tt, tt)
alloc_many_fresh (suc n) fuel s i bytes le lt ne =
    let (s1, addr, first, step) = kmalloc_mem_lem s fuel i bytes (omega arith) lt ne in
    let (xs, s2, later, free, once) =
      alloc_many_fresh n fuel s1 i (IsBytes-after bytes step) le lt (sentinel_after i le ne step) in
    let (free', once') = fresh-cons xs step (free, once) in
    (addr ∷ xs, s2, rw (first, later), free', once')
