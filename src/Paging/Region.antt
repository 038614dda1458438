-- ===== src/Paging/Region.antt =====
-- One part of `setup_page_tables` of sys/pagetab.c: `getPT` for an address, and the loop that
-- fills that page table with consecutive pages.
use cse508_operating_system.Prelude.{
  ℕ, suc, ◌+◌, ◌*◌, ◌/◌, ◌%◌, ◌^◌, ◌≤◌, ◌<◌, ◌≡◌, ◌≢◌, refl, ◌∙◌, some, arith,
}
use cse508_operating_system.PageTables.{Machine, entry_at, get_pt, map_loop}
use cse508_operating_system.PageTables.Walk.{translate}
use cse508_operating_system.PageTables.Level.{HasRoom}
use cse508_operating_system.PageTables.GetPt.{Levels, get_pt-Levels, Levels-returns}
use cse508_operating_system.PageTables.Map.{map_loop_lem}
use cse508_operating_system.Paging.Leaf.{AtMostSelf}
use cse508_operating_system.Paging.Levels.{Rooted, Standing, Levels-Standing, self_word_kept}
use cse508_operating_system.Paging.Fill.{filled_at, filled_self_word, filled-Rooted, others_kept}

-- The machine behind the loop.
abbrev pub looped_over : Machine → (pt v b n : ℕ) → Machine
looped_over m pt v b n = record m { words = map_loop n pt (v * 2 ^ 28) (b * 2 ^ 12) m.words }

-- What `getPT` for `va` and its loop over `n` pages from page `b` on leave, as long as entry 510
-- is empty.
pub record Region (fuel k : ℕ) (m : Machine) (p va v b n : ℕ) : Type 0 where
  pub found : Machine
  pub pt : ℕ
  pub returns : get_pt fuel m p va ≡ some (found, pt)
  pub rooted : Rooted (looped_over found pt v b n) p
  pub no_self : (looped_over found pt v b n).words (entry_at p 510) ≡ 0
  pub room : HasRoom fuel k found.pmap
  pub kernelfree : found.pmap.kernelfree ≡ m.pmap.kernelfree
  pub pages :
      (va' j : ℕ)
      → j < n
      → va' / 2 ^ 21 % 2 ^ 27 ≡ va / 2 ^ 21 % 2 ^ 27
      → va' / 2 ^ 12 % 512 ≡ (b + j) % 512
      → translate (looped_over found pt v b n).words p va' ≡ some ((b + j) * 2 ^ 12 + va' % 2 ^ 12)
  pub others :
      (va' pa' : ℕ)
      → va' / 2 ^ 39 % 512 ≢ 510
      → (va' / 2 ^ 21 % 2 ^ 27 ≡ va / 2 ^ 21 % 2 ^ 27
          → (j : ℕ) → j < n
          → va' / 2 ^ 12 % 512 ≢ (b + j) % 512)
      → translate m.words p va' ≡ some pa'
      → translate (looped_over found pt v b n).words p va' ≡ some pa'

module _ (fuel k : ℕ) (m : Machine) (p va v b n : ℕ) (t : Rooted m p)
    (plain : va / 2 ^ 39 % 512 ≢ 510) (empty : m.words (entry_at p 510) ≡ 0) (few : n ≤ 512)
    (fits : (b + n) * 2 ^ 12 ≤ 2 ^ 28) (l : Levels fuel k m p va) where
  abbrev s : Standing l
  s = Levels-Standing t plain l

  -- The entries that the loop writes.
  abbrev IsWritten : ℕ → Type 0
  IsWritten i = (j : ℕ) × (j < n) × (i ≡ (b + j) % 512)

  abbrev words : ℕ → ℕ
  words = map_loop n l.pt (v * 2 ^ 28) (b * 2 ^ 12) l.m3.words

  still_empty : l.m3.words (entry_at p 510) ≡ 0
  still_empty = self_word_kept t plain l ∙ empty

  at_most : AtMostSelf l.m3 p
  at_most c e = absurd (omega (arith, e, still_empty))

  bound : (i : ℕ) → IsWritten i → i < 512
  bound i w = omega (arith, w.2)

  miss : (a : ℕ) → ((i : ℕ) → IsWritten i → a ≢ entry_at l.pt i) → words a ≡ l.m3.words a
  miss a out =
      (map_loop_lem l.pt v n b l.m3.words few fits).1 a (λ j lt. out ((b + j) % 512) (j, lt, refl))

  Levels-Region : Region fuel k m p va v b n
  Levels-Region = record {
    found = l.m3;
    pt = l.pt;
    returns = Levels-returns t.tree l;
    rooted = filled-Rooted t.tree l s at_most IsWritten words bound miss;
    no_self = filled_self_word t.tree l s at_most IsWritten words bound miss ∙ still_empty;
    room = l.third.room;
    kernelfree = s.kernelfree;
    pages = λ va' j lt near index.
        filled_at t.tree l s at_most IsWritten words bound miss va' ((b + j) * 2 ^ 12) near
          (rw index ((map_loop_lem l.pt v n b l.m3.words few fits).0 j lt)) (omega arith)
          (omega arith);
    others = λ va' pa' out other ok.
        others_kept t.tree l s at_most IsWritten words bound miss va' pa' out
          (λ near w. other near w.0 w.1 w.2) ok;
  }

pub get_pt-Region :
    (fuel k : ℕ) (m : Machine) (p va v b n : ℕ)
    → Rooted m p
    → HasRoom fuel (suc (suc (suc k))) m.pmap
    → va / 2 ^ 39 % 512 ≢ 510
    → m.words (entry_at p 510) ≡ 0
    → n ≤ 512
    → (b + n) * 2 ^ 12 ≤ 2 ^ 28
    → Region fuel k m p va v b n
get_pt-Region fuel k m p va v b n t room plain empty few fits =
    Levels-Region fuel k m p va v b n t plain empty few fits
      (get_pt-Levels fuel k m p va t.tree t.bytes room)
