-- ===== src/Paging/Run.antt =====
-- Pages that are mapped one after the other, each on a frame of its own.
use cse508_operating_system.Prelude.{
  ℕ, zero, suc, ◌+◌, ◌*◌, ◌/◌, ◌%◌, ◌^◌, ◌<◌, ◌≡◌, ◌≢◌, inl, inr, some, arith,
}
use cse508_operating_system.Pmap.Bitmap.{page_bit}
use cse508_operating_system.PageTables.{Machine}
use cse508_operating_system.PageTables.Walk.{translate}
use cse508_operating_system.Paging.Levels.{Tables}
use cse508_operating_system.Paging.Kmalloc.{Backed}
use cse508_operating_system.Paging.Taken.{page_bit_cases}

-- The page of the address `at j` is mapped on `frame j`, for `j < n`; the frames were free, are in
-- use now, and are different pages; all other pages outside of the recursive slot are translated as
-- before.
pub record MappedRun (at : ℕ → ℕ) (n : ℕ) (m : Machine) (p : ℕ) (m' : Machine) : Type 0 where
  pub tables : Tables m' p
  pub used : (q : ℕ) → page_bit m.pmap.list q ≡ 1 → page_bit m'.pmap.list q ≡ 1
  pub frame : ℕ → ℕ
  pub here :
      (j off : ℕ)
      → j < n
      → off < 2 ^ 12
      → translate m'.words p (at j / 2 ^ 12 * 2 ^ 12 + off) ≡ some (frame j + off)
  pub was_free : (j : ℕ) → j < n → page_bit m.pmap.list (frame j / 2 ^ 12) ≡ 0
  pub taken : (j : ℕ) → j < n → page_bit m'.pmap.list (frame j / 2 ^ 12) ≡ 1
  pub apart : (i j : ℕ) → i < j → j < n → frame i / 2 ^ 12 ≢ frame j / 2 ^ 12
  pub others :
      (va' pa' : ℕ)
      → va' / 2 ^ 39 % 512 ≢ 510
      → ((j : ℕ) → j < n → va' / 2 ^ 12 % 2 ^ 36 ≢ at j / 2 ^ 12 % 2 ^ 36)
      → translate m.words p va' ≡ some pa'
      → translate m'.words p va' ≡ some pa'

pub MappedRun-none : (at : ℕ → ℕ) (m : Machine) (p : ℕ) → Tables m p → MappedRun at 0 m p m
MappedRun-none at m p t = record {
  tables = t;
  used = λ q h. h;
  frame = λ j. 0;
  here = λ j off lt. absurd (omega arith);
  was_free = λ j lt. absurd (omega arith);
  taken = λ j lt. absurd (omega arith);
  apart = λ i j below lt. absurd (omega arith);
  others = λ va' pa' plain apart ok. ok;
}

-- A run of frames with one more in front.
abbrev in_front : ℕ → (ℕ → ℕ) → ℕ → ℕ
in_front first frame zero = first
in_front first frame (suc j) = frame j

module _ (at : ℕ → ℕ) (n fuel k : ℕ) (m : Machine) (p frame0 : ℕ) (m1 m' : Machine)
    (plain : at 0 / 2 ^ 39 % 512 ≢ 510)
    (separate : (j : ℕ) → j < n → at 0 / 2 ^ 12 % 2 ^ 36 ≢ at (suc j) / 2 ^ 12 % 2 ^ 36)
    (b : Backed fuel k m p (at 0) frame0 m1) (a : MappedRun (λ j. at (suc j)) n m1 p m') where
  still_free : (q : ℕ) → page_bit m1.pmap.list q ≡ 0 → page_bit m.pmap.list q ≡ 0
  still_free q h = elim (page_bit_cases m.pmap.list q) [
    | inl clear ↦ clear
    | inr set ↦ absurd (omega (arith, h, b.used q set))
  ]

  apart_behind : (j : ℕ) → j < n → frame0 / 2 ^ 12 ≢ a.frame j / 2 ^ 12
  apart_behind j lt e =
      let free : page_bit m1.pmap.list (frame0 / 2 ^ 12) ≡ 0 = rw e (a.was_free j lt) in
      omega (arith, b.taken, free)

  longer_was_free :
      (j : ℕ) → j < suc n → page_bit m.pmap.list (in_front frame0 a.frame j / 2 ^ 12) ≡ 0
  longer_was_free zero lt = b.was_free
  longer_was_free (suc j) lt = still_free (a.frame j / 2 ^ 12) (a.was_free j (omega arith))

  longer_taken :
      (j : ℕ) → j < suc n → page_bit m'.pmap.list (in_front frame0 a.frame j / 2 ^ 12) ≡ 1
  longer_taken zero lt = a.used (frame0 / 2 ^ 12) b.taken
  longer_taken (suc j) lt = a.taken j (omega arith)

  longer_apart :
      (i j : ℕ)
      → i < j
      → j < suc n
      → in_front frame0 a.frame i / 2 ^ 12 ≢ in_front frame0 a.frame j / 2 ^ 12
  longer_apart i zero below lt = absurd (omega arith)
  longer_apart zero (suc j) below lt = apart_behind j (omega arith)
  longer_apart (suc i) (suc j) below lt = a.apart i j (omega arith) (omega arith)

  longer_here :
      (j off : ℕ)
      → j < suc n
      → off < 2 ^ 12
      → translate m'.words p (at j / 2 ^ 12 * 2 ^ 12 + off) ≡ some (in_front frame0 a.frame j + off)
  longer_here zero off lt short =
      a.others _ _ (omega (arith, plain)) (λ j less e. separate j less (omega (arith, e)))
        (b.here off short)
  longer_here (suc j) off lt short = a.here j off (omega arith) short

  longer_others :
      (va' pa' : ℕ)
      → va' / 2 ^ 39 % 512 ≢ 510
      → ((j : ℕ) → j < suc n → va' / 2 ^ 12 % 2 ^ 36 ≢ at j / 2 ^ 12 % 2 ^ 36)
      → translate m.words p va' ≡ some pa'
      → translate m'.words p va' ≡ some pa'
  longer_others va' pa' outside apart ok =
      a.others va' pa' outside (λ j lt. apart (suc j) (omega arith))
        (b.others va' pa' outside (apart 0 (omega arith)) ok)

  pub MappedRun-longer : MappedRun at (suc n) m p m'
  MappedRun-longer = record {
    tables = a.tables;
    used = λ q h. a.used q (b.used q h);
    frame = in_front frame0 a.frame;
    here = longer_here;
    was_free = longer_was_free;
    taken = longer_taken;
    apart = longer_apart;
    others = longer_others;
  }
