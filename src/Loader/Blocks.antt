-- ===== src/Loader/Blocks.antt =====
-- `load_elf` of sys/tarfs.c on the pages that `kmalloc` hands out: where the structs stand, and what
-- becomes of the bitmap and the page tables.
use mathlib.Core.Path.{subst}
use cse508_operating_system.Prelude.{
  ℕ, zero, suc, ◌+◌, ◌*◌, ◌^◌, ◌<◌, ◌≤◌, ◌≡◌, ◌≢◌, refl, ap, sym, ◌∙◌, inl, inr, some, List, [],
  ◌∷◌, ◌++◌, arith, length, u64,
}
use cse508_operating_system.Pmap.{page_size, virt_offset}
use cse508_operating_system.PageTables.{Machine}
use cse508_operating_system.PageTables.Level.{HasRoom}
use cse508_operating_system.Paging.{Mmu, kmalloc}
use cse508_operating_system.Paging.Refine.{Walks}
use cse508_operating_system.Paging.Levels.{Tables}
use cse508_operating_system.Paging.Loop.{pages_for}
use cse508_operating_system.Paging.Blocks.{Blocks, Blocks-none, Blocks-append, kmalloc-Blocks}
use cse508_operating_system.Text.{Bytes}
use cse508_operating_system.Tarfs.{header_size, read_tarfile}
use cse508_operating_system.Tasks.Chain.{NotIn}
use cse508_operating_system.Loader.{
  VmState, task_size, mm_size, vma_size, e_phoff, e_phnum, load_elf,
}
use cse508_operating_system.Loader.Load.{load_headers, Fresh, Gives}
use cse508_operating_system.Loader.Elf.{IsLoaded, load_elf-IsLoaded}

-- The first addresses of `n` pages that stand one behind the other, from the page at `f` on.
abbrev pub pages_at : (n f : ℕ) → List ℕ
pages_at zero f = []
pages_at (suc n) f = (f + virt_offset) ∷ pages_at n (f + page_size)

pub length-pages_at : (n f : ℕ) → length (pages_at n f) ≡ n
length-pages_at zero f = refl
length-pages_at (suc n) f = ap suc (length-pages_at n (f + page_size))

-- Addresses in front of the page at `f`.
abbrev AllBelow : ℕ → List ℕ → Type 0
AllBelow f [] = Unit {0}
AllBelow f (v ∷ vs) = (v < f + virt_offset) × AllBelow f vs

AllBelow-snoc :
    (f : ℕ) (vs : List ℕ)
    → AllBelow f vs
    → AllBelow (f + page_size) (vs ++ ((f + virt_offset) ∷ []))
AllBelow-snoc f [] h = (omega arith, tt)
AllBelow-snoc f (v ∷ vs) (lt, h) = (omega arith, AllBelow-snoc f vs h)

AllBelow-NotIn : (f x : ℕ) (vs : List ℕ) → AllBelow f vs → f + virt_offset ≤ x → NotIn x vs
AllBelow-NotIn f x [] h le = tt
AllBelow-NotIn f x (v ∷ vs) (lt, h) le = (λ e. omega (arith, e), AllBelow-NotIn f x vs h le)

pages_at-Fresh :
    (n f x : ℕ) (vs : List ℕ)
    → AllBelow f vs
    → x ≡ f + n * page_size + virt_offset
    → Fresh vs (pages_at n f ++ (x ∷ []))
pages_at-Fresh zero f x vs h e =
    (λ z. omega (arith, e, z), AllBelow-NotIn f x vs h (omega (arith, e)), tt)
pages_at-Fresh (suc n) f x vs h e = (
  λ z. omega (arith, z),
  AllBelow-NotIn f (f + virt_offset) vs h (omega arith),
  pages_at-Fresh n (f + page_size) x (vs ++ ((f + virt_offset) ∷ [])) (AllBelow-snoc f vs h)
      (omega (arith, e)),
)

-- A page for each area.
Gives-Blocks :
    (mmu : Mmu) (fuel k n : ℕ) (m : Machine) (p f : ℕ)
    → m.pmap.kernelfree ≡ f
    → Walks mmu p
    → Tables m p
    → HasRoom fuel (pages_for n k) m.pmap
    → f + n * page_size < 2 ^ 31
    → (m' : Machine) × Gives mmu fuel m (pages_at n f) m' × Blocks fuel k n m p m'
Gives-Blocks mmu fuel k zero m p f at walks t room small = (m, refl, Blocks-none fuel k m p t room)
Gives-Blocks mmu fuel k (suc n) m p f at walks t room small =
    let (m1, call, a) =
      kmalloc-Blocks mmu fuel (pages_for n k) 1 m p vma_size (omega arith) walks t room
        (omega (arith, at)) in
    let (m', calls, b) =
      Gives-Blocks mmu fuel k n m1 p (f + page_size) (omega (arith, a.kernelfree, at)) walks
        a.tables a.room (omega arith) in
    (
      m',
      (m1, call ∙ ap (λ (x : ℕ). some (m1, x + virt_offset)) at, calls),
      subst (λ (i : ℕ). Blocks fuel k i m p m') (omega arith) (Blocks-append a b),
    )

-- The number of pages that a program with `n` segments takes: its task, its `mm_struct`, an area for
-- each segment and one for the stack.
abbrev pub program_room : (n k : ℕ) → ℕ
program_room n k = pages_for 9 (pages_for 1 (pages_for n (pages_for 1 k)))

-- The calls of `load_elf`, with the structs one behind the other from the page at `f` on.
pub program-Blocks :
    (mmu : Mmu) (fuel k n : ℕ) (m : Machine) (f p : ℕ)
    → m.pmap.kernelfree ≡ f
    → Walks mmu p
    → Tables m p
    → HasRoom fuel (program_room n k) m.pmap
    → f + (11 + n) * page_size < 2 ^ 31
    → (m1 : Machine) × (m2 : Machine) × (m3 : Machine) × (m4 : Machine) × (kmalloc mmu fuel m
          task_size
        ≡ some (m1, f + virt_offset))
      × (kmalloc mmu fuel m1 mm_size ≡ some (m2, f + 9 * page_size + virt_offset))
      × Gives mmu fuel m2 (pages_at n (f + 10 * page_size)) m3
      × (kmalloc mmu fuel m3 vma_size ≡ some (m4, f + (10 + n) * page_size + virt_offset))
      × Blocks fuel k (11 + n) m p m4
program-Blocks mmu fuel k n m f p at walks t room small =
    let (m1, task, a) =
      kmalloc-Blocks mmu fuel (pages_for 1 (pages_for n (pages_for 1 k))) 9 m p task_size
        (omega arith) walks t room (omega (arith, at)) in
    let (m2, mm, b) =
      kmalloc-Blocks mmu fuel (pages_for n (pages_for 1 k)) 1 m1 p mm_size (omega arith) walks
        a.tables a.room (omega (arith, a.kernelfree, at)) in
    let (m3, areas, c) =
      Gives-Blocks mmu fuel (pages_for 1 k) n m2 p (f + 10 * page_size)
        (omega (arith, a.kernelfree, b.kernelfree, at)) walks b.tables b.room (omega arith) in
    let (m4, stack, d) =
      kmalloc-Blocks mmu fuel k 1 m3 p vma_size (omega arith) walks c.tables c.room
        (omega (arith, a.kernelfree, b.kernelfree, c.kernelfree, at)) in
    (
      m1,
      m2,
      m3,
      m4,
      task ∙ ap (λ (x : ℕ). some (m1, x + virt_offset)) at,
      mm ∙ ap (λ (x : ℕ). some (m2, x)) (omega (arith, a.kernelfree, at)),
      areas,
      stack
          ∙ ap (λ (x : ℕ). some (m4, x))
              (omega (arith, a.kernelfree, b.kernelfree, c.kernelfree, at)),
      subst (λ (i : ℕ). Blocks fuel k i m p m4) (omega arith)
          (Blocks-append (Blocks-append (Blocks-append a b) c) d),
    )

-- `load_elf` of a file that is found, with paging on, room in the bitmap for four pages for each page
-- that the structs take and `k` more, and `kernelfree` below 2 ^ 31 behind them.
pub load_elf-Blocks :
    (mmu : Mmu) (rounds fuel k n : ℕ) (s : VmState) (bytes : Bytes)
    (filename archive_start archive_end header f p : ℕ)
    → read_tarfile rounds fuel bytes filename archive_start archive_end ≡ some header
    → header ≢ 0
    → n
      ≡ length (
          load_headers
            (e_phnum bytes (header + header_size))
            bytes
            (u64 (header + header_size + e_phoff bytes (header + header_size))))
    → n ≤ fuel
    → s.machine.pmap.kernelfree ≡ f
    → Walks mmu p
    → Tables s.machine p
    → HasRoom fuel (program_room n k) s.machine.pmap
    → f + (11 + n) * page_size < 2 ^ 31
    → (s' : VmState) × (load_elf mmu rounds fuel s bytes filename archive_start archive_end
        ≡ some (s', f + virt_offset))
      × IsLoaded s bytes header
          (f + virt_offset)
          (f + 9 * page_size + virt_offset)
          (pages_at n (f + 10 * page_size))
          (f + (10 + n) * page_size + virt_offset)
          s'.machine
          s'
      × Blocks fuel k (11 + n) s.machine p s'.machine
load_elf-Blocks mmu rounds fuel k n s bytes filename archive_start archive_end header f p found ne
      count enough at walks t room small =
    let (m1, m2, m3, m4, task, mm, areas, stack, blocks) =
      program-Blocks mmu fuel k n s.machine f p at walks t room small in
    elim (load_elf-IsLoaded mmu rounds fuel s bytes filename archive_start archive_end header
      (f + virt_offset) (f + 9 * page_size + virt_offset) (f + (10 + n) * page_size + virt_offset)
      (pages_at n (f + 10 * page_size)) m1 m2 m3 m4 found task mm areas stack
      (length-pages_at n (f + 10 * page_size) ∙ count) (λ z. omega (arith, z))
      (pages_at-Fresh n (f + 10 * page_size) (f + (10 + n) * page_size + virt_offset) [] tt
        (omega arith))
      (omega (arith, length-pages_at n (f + 10 * page_size)))) [
        | inl null ↦ absurd (ne null.0)
        | inr (s', loads, l) ↦ (
          s',
          loads,
          subst
              (λ (x : Machine).
                IsLoaded s bytes header (f + virt_offset) (f + 9 * page_size + virt_offset)
                  (pages_at n (f + 10 * page_size)) (f + (10 + n) * page_size + virt_offset) x s')
              (sym l.machine) l,
          subst (λ (x : Machine). Blocks fuel k (11 + n) s.machine p x) (sym l.machine) blocks,
        )
      ]
