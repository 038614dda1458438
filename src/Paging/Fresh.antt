-- ===== src/Paging/Fresh.antt =====
-- A level of `mmap` beside a level of `getPT`, while free pages hold zeros: `mmap` relies on that,
-- since it does not clear the tables that it adds.
use mathlib.Core.Path.{fun_ext, subst}
use cse508_operating_system.Prelude.{
  ℕ, ◌+◌, ◌/◌, ◌^◌, ◌≡◌, ◌≢◌, ◌≤◌, ◌<◌, refl, sym, ap, ◌∙◌, ◌⊎◌, inl, inr, true, false, Option,
  some, leb, ltb, ◌&&◌, arith, ◌==◌, Bool-cases, update, update_ne, bit_and, ◌>>=◌, >>=-eq-some,
}
use cse508_operating_system.Pmap.{Pmap, page_size, max_pages, kmalloc_mem}
use cse508_operating_system.Pmap.Bitmap.{IsBytes, page_bit}
use cse508_operating_system.Pmap.Alloc.{Takes, kmalloc_mem_cases}
use cse508_operating_system.PageTables.{
  Machine, entry_at, page_align, with_flags, zero_page, next_table,
}
use cse508_operating_system.PageTables.Grow.{InUse}
use cse508_operating_system.Paging.{Mmu, ensure_entry}

-- Every word of a free page that `kmalloc_mem` can hand out is 0.
abbrev pub FreeIsZero : Machine → Type 0
FreeIsZero m =
    (a : ℕ)
    → 528 ≤ a / 2 ^ 12
    → a / 2 ^ 12 < max_pages
    → page_bit m.pmap.list (a / 2 ^ 12) ≡ 0
    → m.words a ≡ 0

-- How one level of `getPT` goes: the entry names a table, or a page is taken and put there.
pub record Taken (fuel : ℕ) (m : Machine) (t i : ℕ) (m' : Machine) (c : ℕ) : Type 0 where
  pub empty : (bit_and (m.words (entry_at t i)) page_align == 0) ≡ true
  pub left : Pmap
  pub page : ℕ
  pub call : kmalloc_mem fuel m.pmap ≡ some (left, c)
  pub takes : Takes 528 m.pmap left c page
  pub result : m' ≡ record { words = update m.words (entry_at t i) (with_flags c); pmap = left }

pub zero_page_free :
    {s' : Pmap} (m : Machine) (c page : ℕ)
    → FreeIsZero m
    → Takes 528 m.pmap s' c page
    → zero_page m.words c ≡ m.words
unfolding zero_page
zero_page_free m c page free takes = fun_ext λ a.
    elim (Bool-cases (leb c a && ltb a (c + page_size))) [
      | inl inside ↦
          let at_page : a / 2 ^ 12 ≡ page = ground (arith, takes.address) in
          rw inside (
            sym (
              free a (omega (arith, at_page, takes.from_start))
                (omega (arith, at_page, takes.in_list))
                (rw at_page (takes.was_free page (omega arith) refl))))
      | inr outside ↦ rw outside
    ]

Taken-of_call :
    (fuel : ℕ) (m : Machine) (t i : ℕ) (m' : Machine) (c : ℕ) (left : Pmap) (newpage : ℕ)
    → IsBytes m.pmap.list
    → FreeIsZero m
    → c ≢ 0
    → (bit_and (m.words (entry_at t i)) page_align == 0) ≡ true
    → kmalloc_mem fuel m.pmap ≡ some (left, newpage)
    → ◌≡◌ {A = Option (Machine × ℕ)}
        (some (
          record {
            words = update (zero_page m.words newpage) (entry_at t i) (with_flags newpage);
            pmap = left;
          },
          newpage,
        ))
        (some (m', c))
    → Taken fuel m t i m' c
Taken-of_call fuel m t i m' c left newpage bytes free ne empty call ret =
    let same : newpage ≡ c = cc in
    let made : m' ≡ record {
      words = update (zero_page m.words newpage) (entry_at t i) (with_flags newpage);
      pmap = left;
    } =
      cc in
    elim (kmalloc_mem_cases m.pmap fuel left newpage bytes call) [
      | inl taken ↦ record {
        empty = empty;
        left = left;
        page = taken.0;
        call = call ∙ ap (λ (a : ℕ). some (left, a)) same;
        takes = subst (λ a. Takes 528 m.pmap left a taken.0) same taken.1;
        result = made ∙ rw (zero_page_free m newpage taken.0 free taken.1, same);
      }
      | inr null ↦ absurd (ne (sym same ∙ null.0))
    ]

pub next_table_cases :
    (fuel : ℕ) (m : Machine) (t i : ℕ) (m' : Machine) (c : ℕ)
    → IsBytes m.pmap.list
    → FreeIsZero m
    → c ≢ 0
    → next_table fuel m t i ≡ some (m', c)
    → (((bit_and (m.words (entry_at t i)) page_align == 0) ≡ false) × (m' ≡ m))
      ⊎ Taken fuel m t i m' c
unfolding next_table
next_table_cases fuel m t i m' c bytes free ne ret =
    elim (Bool-cases (bit_and (m.words (entry_at t i)) page_align == 0)) [
      | inl empty ↦
          let (r, call, made) = >>=-eq-some (kmalloc_mem fuel m.pmap) _ (rw empty at ret) in
          inr (Taken-of_call fuel m t i m' c r.0 r.1 bytes free ne empty call made)
      | inr there ↦ inl (there, ground arith)
    ]

-- Under the same walk a level of `mmap` does what the level of `getPT` does.
pub ensure_entry-next_table :
    (mmu : Mmu) (fuel : ℕ) (m : Machine) (slot t i : ℕ) (m' : Machine) (c : ℕ)
    → IsBytes m.pmap.list
    → FreeIsZero m
    → c ≢ 0
    → mmu m.words slot ≡ some (entry_at t i)
    → next_table fuel m t i ≡ some (m', c)
    → ensure_entry mmu fuel m slot ≡ some m'
unfolding ensure_entry
ensure_entry-next_table mmu fuel m slot t i m' c bytes free ne at ret =
    elim (next_table_cases fuel m t i m' c bytes free ne ret) [
      | inl old ↦ rw (at, old.0) (ap some (sym old.1))
      | inr new ↦ rw (at, new.empty, new.call, ◌>>=◌) (ap some (sym new.result))
    ]

-- Free pages still hold zeros behind a level.
pub next_table-FreeIsZero :
    (fuel : ℕ) (m : Machine) (t i : ℕ) (m' : Machine) (c : ℕ)
    → IsBytes m.pmap.list
    → FreeIsZero m
    → c ≢ 0
    → InUse m (entry_at t i)
    → next_table fuel m t i ≡ some (m', c)
    → FreeIsZero m'
next_table-FreeIsZero fuel m t i m' c bytes free ne used ret =
    elim (next_table_cases fuel m t i m' c bytes free ne ret) [
      | inl old ↦ rw old.1 free
      | inr new ↦ rw new.result (kept new.left new.page new.takes)
    ]
  where
    kept :
        (left : Pmap) (page : ℕ)
        → Takes 528 m.pmap left c page
        → FreeIsZero (record { words = update m.words (entry_at t i) (with_flags c); pmap = left })
    kept left page takes a ge lt h =
        let was_free : page_bit m.pmap.list (a / 2 ^ 12) ≡ 0 =
          ground (arith, takes.marks (a / 2 ^ 12)) in
        let other : a ≢ entry_at t i = λ e.
          (let clear : page_bit m.pmap.list (entry_at t i / 2 ^ 12) ≡ 0 = rw (← e) was_free in
            omega (arith, clear, used)) in
        update_ne m.words (entry_at t i) a (with_flags c) other ∙ free a ge lt was_free
