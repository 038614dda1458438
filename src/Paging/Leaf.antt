-- ===== src/Paging/Leaf.antt =====
-- Writing entries of a page table, which stands three indices deep: the tables above it and the
-- other entries are as before.
use cse508_operating_system.Prelude.{
  ℕ, zero, suc, ◌+◌, ◌/◌, ◌%◌, ◌^◌, ◌≤◌, ◌<◌, ◌≡◌, ◌≢◌, sym, ap, ◌∙◌, inl, inr, List, [], ◌∷◌,
  Option, some, arith, ℕ_discrete, length, >>=-eq-some,
}
use mathlib.Core.Path.{subst}
use cse508_operating_system.Pmap.Bitmap.{page_bit}
use cse508_operating_system.PageTables.{Machine, entry_at}
use cse508_operating_system.PageTables.Walk.{frame_of, follow, walk, translate}
use cse508_operating_system.PageTables.Grow.{Owned, Slot, Tree, Tree-Owned, entry-InUse}
use cse508_operating_system.PageTables.GetPt.{follow_named}
use cse508_operating_system.Paging.Fresh.{FreeIsZero}
use cse508_operating_system.Paging.Places.{Places, Placed}

-- What the walk follows in a tree is a table that was put there.
pub follow_word :
    {m : Machine} (n t i c : ℕ)
    → Tree (suc n) m t
    → i < 512
    → follow m.words t i ≡ some c
    → (m.words (entry_at t i) ≡ c + 7) × Tree n m c
follow_word {m} n t i c tree lt e = by_slot (tree.1 i lt)
  where
    by_slot :
        Slot (Tree n m) (m.words (entry_at t i)) → (m.words (entry_at t i) ≡ c + 7) × Tree n m c
    by_slot (inl z) = absurd (ground arith)
    by_slot (inr (b, named, sub)) =
        let both : ◌≡◌ {A = Option ℕ} (some b) (some c) =
          sym (follow_named m.words t i b named (Tree-Owned n sub)) ∙ e in
        let same : b ≡ c = cc in (rw (← same) named, subst (Tree n m) same sub)

-- Entry 510 of the top table names no other table.
abbrev pub AtMostSelf : Machine → ℕ → Type 0
AtMostSelf m p = (c : ℕ) → m.words (entry_at p 510) ≡ c + 7 → c ≡ p

-- The walk of an address that is translated, with the places of its tables.
pub record Route (m : Machine) (p : ℕ) (place : Places) (va pa : ℕ) : Type 0 where
  pub pdp : ℕ
  pub pd : ℕ
  pub pt : ℕ
  pub frame : ℕ
  pub owned2 : Owned m pdp
  pub owned1 : Owned m pd
  pub owned0 : Owned m pt
  pub first : follow m.words p (va / 2 ^ 39 % 512) ≡ some pdp
  pub second : follow m.words pdp (va / 2 ^ 30 % 512) ≡ some pd
  pub third : follow m.words pd (va / 2 ^ 21 % 512) ≡ some pt
  pub leaf : follow m.words pt (va / 2 ^ 12 % 512) ≡ some frame
  pub address : ◌≡◌ {A = Option ℕ} (some (frame + va % 2 ^ 12)) (some pa)
  pub place2 : place pdp ≡ va / 2 ^ 39 % 512 ∷ []
  pub place1 : place pd ≡ va / 2 ^ 30 % 512 ∷ va / 2 ^ 39 % 512 ∷ []
  pub place0 : place pt ≡ va / 2 ^ 21 % 512 ∷ va / 2 ^ 30 % 512 ∷ va / 2 ^ 39 % 512 ∷ []

module _ (m : Machine) (p : ℕ) (place : Places) (placed : Placed m p place)
    (tree : Tree 3 m p) where
  -- A table below the top one is not the top one.
  pub below_root : (t i : ℕ) (l : List ℕ) → place t ≡ i ∷ l → t ≢ p
  below_root t i l e z =
      let both : ◌≡◌ {A = List ℕ} [] (i ∷ l) = sym placed.root ∙ ap place (sym z) ∙ e in cc

  pub translate-Route :
      (va pa : ℕ)
      → va / 2 ^ 39 % 512 ≢ 510
      → translate m.words p va ≡ some pa
      → Route m p place va pa
  translate-Route va pa plain ok =
      let i4 : ℕ = va / 2 ^ 39 % 512 in
      let i3 : ℕ = va / 2 ^ 30 % 512 in
      let i2 : ℕ = va / 2 ^ 21 % 512 in
      let (pt, walked, inner) = >>=-eq-some (walk m.words p va) _ ok in
      let (frame, leaf, sum) = >>=-eq-some (follow m.words pt (va / 2 ^ 12 % 512)) _ inner in
      let (pdp, first, rest) = >>=-eq-some (follow m.words p i4) _ walked in
      let (pd, second, third) = >>=-eq-some (follow m.words pdp i3) _ rest in
      let (word2, tree2) = follow_word 2 p i4 pdp tree (omega arith) first in
      let (word1, tree1) = follow_word 1 pdp i3 pd tree2 (omega arith) second in
      let (word0, tree0) = follow_word 0 pd i2 pt tree1 (omega arith) third in
      let at2 : place pdp ≡ i4 ∷ [] =
        (placed.child p i4 pdp tree.0 (omega arith) (omega (arith, ap length placed.root))
          (λ z. plain) word2).0
        ∙ ap (λ (l : List ℕ). i4 ∷ l) placed.root in
      let at1 : place pd ≡ i3 ∷ i4 ∷ [] =
        (placed.child pdp i3 pd tree2.0 (omega arith) (omega (arith, ap length at2))
          (λ z. absurd (below_root pdp i4 [] at2 z)) word1).0
        ∙ ap (λ (l : List ℕ). i3 ∷ l) at2 in
      let at0 : place pt ≡ i2 ∷ i3 ∷ i4 ∷ [] =
        (placed.child pd i2 pt tree1.0 (omega arith) (omega (arith, ap length at1))
          (λ z. absurd (below_root pd i3 (i4 ∷ []) at1 z)) word0).0
        ∙ ap (λ (l : List ℕ). i2 ∷ l) at1 in
      record {
        pdp = pdp;
        pd = pd;
        pt = pt;
        frame = frame;
        owned2 = tree2.0;
        owned1 = tree1.0;
        owned0 = tree0;
        first = first;
        second = second;
        third = third;
        leaf = leaf;
        address = sum;
        place2 = at2;
        place1 = at1;
        place0 = at0;
      }

  module _ (pt : ℕ) (written : ℕ → Type 0) (words : ℕ → ℕ) (o : Owned m pt)
      (deep : 3 ≤ length (place pt)) (bound : (i : ℕ) → written i → i < 512)
      (miss : (a : ℕ) → ((i : ℕ) → written i → a ≢ entry_at pt i) → words a ≡ m.words a) where
    abbrev pub stored : Machine
    stored = record m { words = words }

    -- Another table's entry, or another entry.
    other_word :
        (t i : ℕ)
        → Owned m t
        → i < 512
        → (t ≡ pt → ¬ written i)
        → stored.words (entry_at t i) ≡ m.words (entry_at t i)
    other_word t i ot lt apart = miss (entry_at t i) λ j w z.
        apart (omega (arith, z, bound j w, o.aligned, ot.aligned))
          (subst written (omega (arith, z, bound j w, o.aligned, ot.aligned)) w)

    near_word :
        (t i : ℕ)
        → Owned m t
        → i < 512
        → length (place t) < 3
        → stored.words (entry_at t i) ≡ m.words (entry_at t i)
    near_word t i ot lt near =
        other_word t i ot lt (λ z. absurd (omega (arith, ap (λ (x : ℕ). length (place x)) z)))

    same_Owned : (t : ℕ) → Owned m t → Owned stored t
    same_Owned t h = record {
      aligned = h.aligned;
      small = h.small;
      positive = h.positive;
      used = h.used;
    }

    pub stored-Placed : Placed stored p place
    stored-Placed = record {
      root = placed.root;
      child = λ t i c ot lt near plain e.
          let old : Owned m t = record {
            aligned = ot.aligned;
            small = ot.small;
            positive = ot.positive;
            used = ot.used;
          } in
          let (stands, owned) =
            placed.child t i c old lt near plain (sym (near_word t i old lt near) ∙ e) in
          (stands, same_Owned c owned);
      far = placed.far;
    }

    -- What an entry names stands one index deeper, or is the top table again.
    child_depth :
        (n t i c : ℕ)
        → AtMostSelf m p
        → suc n + length (place t) ≤ 3
        → Owned m t
        → i < 512
        → m.words (entry_at t i) ≡ c + 7
        → n + length (place c) ≤ 3
    child_depth n t i c self le ot lt e =
        let deeper = λ (plain : t ≡ p → i ≢ 510).
          (let stands = ap length (placed.child t i c ot lt (omega arith) plain e).0 in
            let depth : n + length (place c) ≤ 3 = omega (arith, stands, le) in depth) in
        elim (ℕ_discrete t p) [
          | yes top ↦ elim (ℕ_discrete i 510) [
            | yes last ↦
                let again : c ≡ p = self c (rw (top, last) at e) in
                rw (again, placed.root) (omega (arith, le))
            | no other ↦ deeper (λ z. other)
          ]
          | no below ↦ deeper (λ z. absurd (below z))
        ]

    pub stored-Tree :
        (n t : ℕ) → AtMostSelf m p → n + length (place t) ≤ 3 → Tree n m t → Tree n stored t
    stored-Tree zero t self le h = same_Owned t h
    stored-Tree (suc n) t self le (ot, slots) =
        (same_Owned t ot, λ i lt. slot i lt (stored-Tree n) (slots i lt))
      where
        slot :
            (i : ℕ)
            → i < 512
            → ((c : ℕ) → AtMostSelf m p → n + length (place c) ≤ 3 → Tree n m c → Tree n stored c)
            → Slot (Tree n m) (m.words (entry_at t i))
            → Slot (Tree n stored) (stored.words (entry_at t i))
        slot i lt ih (inl z) = inl (near_word t i ot lt (omega arith) ∙ z)
        slot i lt ih (inr (c, e, sub)) = inr (
          c,
          near_word t i ot lt (omega arith) ∙ e,
          ih c self (child_depth n t i c self le ot lt e) sub,
        )

    pub stored-FreeIsZero : FreeIsZero m → FreeIsZero stored
    stored-FreeIsZero free a ge lt h =
        miss a (λ j w z. omega (
          arith,
          h,
          ap (λ (x : ℕ). page_bit m.pmap.list (x / 2 ^ 12)) z,
          entry-InUse o j (bound j w),
        ))
        ∙ free a ge lt h

    pub stored-follow :
        (t i c : ℕ)
        → Owned m t
        → i < 512
        → (t ≡ pt → ¬ written i)
        → follow m.words t i ≡ some c
        → follow stored.words t i ≡ some c
    stored-follow t i c ot lt apart e = ap frame_of (other_word t i ot lt apart) ∙ e
