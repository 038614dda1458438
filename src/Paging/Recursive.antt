-- ===== src/Paging/Recursive.antt =====
-- Where the addresses of the recursive slot lead, if entry 510 of the top table names the top
-- table itself: to the tables of a walk.
use cse508_operating_system.Prelude.{
  ℕ, ◌+◌, ◌*◌, ◌/◌, ◌%◌, ◌^◌, ◌<◌, ◌≡◌, ap, ◌∙◌, some, arith, bit_or, u64, ◌<<◌, ◌>>>◌,
}
use cse508_operating_system.Prelude.Bits.{bit_or_fields}
use cse508_operating_system.PageTables.{entry_at}
use cse508_operating_system.PageTables.Walk.{follow, translate}
use cse508_operating_system.Paging.{
  pml4_addr, pdp_addr, pd_addr, pt_addr, low_48, pdp_base, pd_base, pt_base,
}

-- A base as a sum.
base_sum :
    (k high field low : ℕ)
    → field ≡ low
    → low < 2 ^ k
    → bit_or (high * 2 ^ k) field ≡ high * 2 ^ k + low
base_sum k high field low e lt = ap (bit_or (high * 2 ^ k)) e ∙ bit_or_fields k high low lt

pdp_base_sum : (va : ℕ) → pdp_base va ≡ pdp_addr + va / 2 ^ 39 % 2 ^ 9 * 2 ^ 12
unfolding pdp_base
pdp_base_sum va =
    base_sum 21 (pdp_addr / 2 ^ 21) (u64 (low_48 va >>> 39 << 12)) (va / 2 ^ 39 % 2 ^ 9 * 2 ^ 12)
      (omega arith) (omega arith)

pd_base_sum : (va : ℕ) → pd_base va ≡ pd_addr + va / 2 ^ 30 % 2 ^ 18 * 2 ^ 12
unfolding pd_base
pd_base_sum va =
    base_sum 30 (pd_addr / 2 ^ 30) (u64 (low_48 va >>> 30 << 12)) (va / 2 ^ 30 % 2 ^ 18 * 2 ^ 12)
      (omega arith) (omega arith)

pt_base_sum : (va : ℕ) → pt_base va ≡ pt_addr + va / 2 ^ 21 % 2 ^ 27 * 2 ^ 12
unfolding pt_base
pt_base_sum va =
    base_sum 39 (pt_addr / 2 ^ 39) (u64 (low_48 va >>> 21 << 12)) (va / 2 ^ 21 % 2 ^ 27 * 2 ^ 12)
      (omega arith) (omega arith)

-- An address whose four indices are known.
pub by_indices :
    (words : ℕ → ℕ) (p va i4 i3 i2 i1 pdp pd pt frame off : ℕ)
    → va / 2 ^ 39 % 512 ≡ i4
    → va / 2 ^ 30 % 512 ≡ i3
    → va / 2 ^ 21 % 512 ≡ i2
    → va / 2 ^ 12 % 512 ≡ i1
    → va % 2 ^ 12 ≡ off
    → follow words p i4 ≡ some pdp
    → follow words pdp i3 ≡ some pd
    → follow words pd i2 ≡ some pt
    → follow words pt i1 ≡ some frame
    → translate words p va ≡ some (frame + off)
by_indices words p va i4 i3 i2 i1 pdp pd pt frame off e4 e3 e2 e1 eo f4 f3 f2 f1 =
    rw (e4, e3, e2, e1, eo, f4, f3, f2, f1)

module _ (words : ℕ → ℕ) (p : ℕ) (self : follow words p 510 ≡ some p) where
  pub slot_pml4 : (i : ℕ) → i < 512 → translate words p (pml4_addr + 8 * i) ≡ some (entry_at p i)
  slot_pml4 i lt =
      by_indices words p (pml4_addr + 8 * i) 510 510 510 510 p p p p (8 * i) (omega arith)
        (omega arith) (omega arith) (omega arith) (omega arith) self self self self

  pub slot_pdp :
      (va i pdp : ℕ)
      → i < 512
      → follow words p (va / 2 ^ 39 % 512) ≡ some pdp
      → translate words p (pdp_base va + 8 * i) ≡ some (entry_at pdp i)
  slot_pdp va i pdp lt f4 = rw (pdp_base_sum va) (
      by_indices words p (pdp_addr + va / 2 ^ 39 % 2 ^ 9 * 2 ^ 12 + 8 * i) 510 510 510
        (va / 2 ^ 39 % 512) p p p pdp (8 * i) (omega arith) (omega arith) (omega arith)
        (omega arith) (omega arith) self self self f4)

  pub slot_pd :
      (va i pdp pd : ℕ)
      → i < 512
      → follow words p (va / 2 ^ 39 % 512) ≡ some pdp
      → follow words pdp (va / 2 ^ 30 % 512) ≡ some pd
      → translate words p (pd_base va + 8 * i) ≡ some (entry_at pd i)
  slot_pd va i pdp pd lt f4 f3 = rw (pd_base_sum va) (
      by_indices words p (pd_addr + va / 2 ^ 30 % 2 ^ 18 * 2 ^ 12 + 8 * i) 510 510
        (va / 2 ^ 39 % 512) (va / 2 ^ 30 % 512) p p pdp pd (8 * i) (omega arith) (omega arith)
        (omega arith) (omega arith) (omega arith) self self f4 f3)

  pub slot_pt :
      (va i pdp pd pt : ℕ)
      → i < 512
      → follow words p (va / 2 ^ 39 % 512) ≡ some pdp
      → follow words pdp (va / 2 ^ 30 % 512) ≡ some pd
      → follow words pd (va / 2 ^ 21 % 512) ≡ some pt
      → translate words p (pt_base va + 8 * i) ≡ some (entry_at pt i)
  slot_pt va i pdp pd pt lt f4 f3 f2 = rw (pt_base_sum va) (
      by_indices words p (pt_addr + va / 2 ^ 21 % 2 ^ 27 * 2 ^ 12 + 8 * i) 510 (va / 2 ^ 39 % 512)
        (va / 2 ^ 30 % 512) (va / 2 ^ 21 % 512) p pdp pd pt (8 * i) (omega arith) (omega arith)
        (omega arith) (omega arith) (omega arith) self f4 f3 f2)
