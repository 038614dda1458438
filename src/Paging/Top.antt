-- ===== src/Paging/Top.antt =====
-- The top table of `setup_page_tables`: fresh and empty at first, and with entry 510 naming the
-- table itself at the end.
use cse508_operating_system.Prelude.{
  ℕ, zero, suc, ◌+◌, ◌/◌, ◌%◌, ◌^◌, ◌≤◌, ◌<◌, ◌≡◌, ◌≢◌, refl, sym, ap, ◌∙◌, inl, inr, List, [], ◌∷◌,
  some, arith, ◌==◌, if◌then◌else◌, ℕ_discrete, length, update, update_self, update_ne,
}
use mathlib.Core.Path.{subst}
use cse508_operating_system.Pmap.{Pmap}
use cse508_operating_system.Pmap.Bitmap.{page_bit}
use cse508_operating_system.Pmap.Alloc.{Takes}
use cse508_operating_system.PageTables.{Machine, entry_at, with_flags}
use cse508_operating_system.PageTables.Level.{with_flags_lem}
use cse508_operating_system.PageTables.Walk.{frame_of, follow, translate}
use cse508_operating_system.PageTables.Grow.{Owned, Slot, Tree, entry-InUse}
use cse508_operating_system.PageTables.GetPt.{follow_named}
use cse508_operating_system.Paging.Recursive.{by_indices}
use cse508_operating_system.Paging.Fresh.{FreeIsZero}
use cse508_operating_system.Paging.Places.{Places}
use cse508_operating_system.Paging.Leaf.{below_root, translate-Route}
use cse508_operating_system.Paging.Levels.{Rooted, Tables}

module _ (m : Machine) (s' : Pmap) (p page : ℕ) (takes : Takes 528 m.pmap s' p page)
    (free : FreeIsZero m) where
  -- The machine after the page of the top table has been taken.
  abbrev pub empty_top : Machine
  empty_top = record m { pmap = s' }

  abbrev top_place : Places
  top_place t = if t == p then [] else 0 ∷ 0 ∷ 0 ∷ []

  at_page : p / 2 ^ 12 ≡ page
  at_page = omega (arith, takes.address)

  top-Owned : Owned empty_top p
  top-Owned = record {
    aligned = omega (arith, takes.address);
    small = omega (arith, takes.address, takes.in_list);
    positive = omega (arith, takes.address, takes.from_start);
    used = rw at_page (ground (arith, takes.marks page));
  }

  pub top_empty : (i : ℕ) → i < 512 → m.words (entry_at p i) ≡ 0
  top_empty i lt =
      let there : entry_at p i / 2 ^ 12 ≡ page = omega (arith, takes.address) in
      free (entry_at p i) (omega (arith, there, takes.from_start))
        (omega (arith, there, takes.in_list)) (rw there (takes.was_free page (omega arith) refl))

  far_from_top : (t : ℕ) → page_bit s'.list (t / 2 ^ 12) ≡ 0 → 3 ≤ length (top_place t)
  far_from_top t h = elim (ℕ_discrete t p) [
    | yes e ↦
        absurd
          (omega (arith, top-Owned.used, subst (λ (x : ℕ). page_bit s'.list (x / 2 ^ 12) ≡ 0) e h))
    | no ne ↦ ground (arith, ne)
  ]

  pub empty_top-Rooted : Rooted empty_top p
  empty_top-Rooted = record {
    tree = (top-Owned, λ i lt. inl (top_empty i lt));
    bytes = takes.bytes;
    free = λ a ge lt h. free a ge lt (ground (arith, takes.marks (a / 2 ^ 12)));
    place = top_place;
    placed = record {
      root = ground arith;
      child = λ t i c o lt near plain e.
          let is_top : t ≡ p = ground arith in
          let word : m.words (entry_at t i) ≡ 0 = rw is_top (top_empty i lt) in
          absurd (omega (arith, e, word));
      far = far_from_top;
    };
  }

-- A tree of `n + 1` levels is one of `n` levels.
Tree-lower : (n : ℕ) {m : Machine} {t : ℕ} → Tree (suc n) m t → Tree n m t
Tree-lower zero h = h.0
Tree-lower (suc n) {m} {t} (o, slots) = (o, λ i lt. lower (λ c. Tree-lower n) (slots i lt))
  where
    lower :
        {w : ℕ}
        → ((c : ℕ) → Tree (suc n) m c → Tree n m c)
        → Slot (Tree (suc n) m) w
        → Slot (Tree n m) w
    lower f (inl z) = inl z
    lower f (inr (c, e, sub)) = inr (c, e, f c sub)

module _ (m : Machine) (p list_at : ℕ) (r : Rooted m p) where
  -- The machine after entry 510 and the address of the bitmap have been set.
  abbrev pub looped : Machine
  looped = record {
    words = update m.words (entry_at p 510) (with_flags p);
    pmap = record (m.pmap) { list_at = list_at };
  }

  looped_word :
      (t i : ℕ)
      → Owned m t
      → i < 512
      → (t ≡ p → i ≢ 510)
      → looped.words (entry_at t i) ≡ m.words (entry_at t i)
  looped_word t i o lt plain = update_ne m.words (entry_at p 510) (entry_at t i) (with_flags p) λ z.
      plain (omega (arith, z, o.aligned, r.tree.0.aligned))
        (omega (arith, z, o.aligned, r.tree.0.aligned))

  self_named : looped.words (entry_at p 510) ≡ p + 7
  self_named =
      update_self m.words (entry_at p 510) (with_flags p) ∙ with_flags_lem p r.tree.0.aligned

  to_looped : (t : ℕ) → Owned m t → Owned looped t
  to_looped t o = record {
    aligned = o.aligned;
    small = o.small;
    positive = o.positive;
    used = o.used;
  }

  from_looped : (t : ℕ) → Owned looped t → Owned m t
  from_looped t o = record {
    aligned = o.aligned;
    small = o.small;
    positive = o.positive;
    used = o.used;
  }

  looped-Tree : (n t : ℕ) → Tree n m p → Tree n m t → Tree n looped t
  looped-Tree zero t top h = to_looped t h
  looped-Tree (suc n) t top (o, slots) = (
    to_looped t o,
    λ i lt.
        slot i lt (looped-Tree n p (Tree-lower n top) (Tree-lower n top))
          (λ c. looped-Tree n c (Tree-lower n top)) (slots i lt),
  )
    where
      old :
          (i : ℕ)
          → i < 512
          → (t ≡ p → i ≢ 510)
          → ((c : ℕ) → Tree n m c → Tree n looped c)
          → Slot (Tree n m) (m.words (entry_at t i))
          → Slot (Tree n looped) (looped.words (entry_at t i))
      old i lt plain ih (inl z) = inl (looped_word t i o lt plain ∙ z)
      old i lt plain ih (inr (c, e, sub)) = inr (c, looped_word t i o lt plain ∙ e, ih c sub)

      slot :
          (i : ℕ)
          → i < 512
          → Tree n looped p
          → ((c : ℕ) → Tree n m c → Tree n looped c)
          → Slot (Tree n m) (m.words (entry_at t i))
          → Slot (Tree n looped) (looped.words (entry_at t i))
      slot i lt itself ih h = elim (ℕ_discrete t p) [
        | yes top ↦ elim (ℕ_discrete i 510) [
          | yes last ↦ inr (p, rw (top, last) self_named, itself)
          | no other ↦ old i lt (λ z. other) ih h
        ]
        | no below ↦ old i lt (λ z. absurd (below z)) ih h
      ]

  pub looped-Tables : Tables looped p
  looped-Tables = record {
    space = record {
      tree = looped-Tree 3 p r.tree r.tree;
      self = follow_named looped.words p 510 p self_named r.tree.0;
      bytes = r.bytes;
      free = λ a ge lt h.
          update_ne m.words (entry_at p 510) a (with_flags p) (λ z. omega (
            arith,
            h,
            ap (λ (x : ℕ). page_bit m.pmap.list (x / 2 ^ 12)) z,
            entry-InUse r.tree.0 510 (omega arith),
          ))
          ∙ r.free a ge lt h;
    };
    place = r.place;
    placed = record {
      root = r.placed.root;
      child = λ t i c o lt near plain e.
          let old = from_looped t o in
          let (stands, owned) =
            r.placed.child t i c old lt near plain (sym (looped_word t i old lt plain) ∙ e) in
          (stands, to_looped c owned);
      far = r.placed.far;
    };
  }

  step_looped :
      (t i c : ℕ)
      → Owned m t
      → i < 512
      → (t ≡ p → i ≢ 510)
      → follow m.words t i ≡ some c
      → follow looped.words t i ≡ some c
  step_looped t i c o lt plain e = ap frame_of (looped_word t i o lt plain) ∙ e

  -- Translations outside of the recursive slot are as before.
  pub looped_kept :
      (va pa : ℕ)
      → va / 2 ^ 39 % 512 ≢ 510
      → translate m.words p va ≡ some pa
      → translate looped.words p va ≡ some pa
  looped_kept va pa plain ok =
      let q = translate-Route m p r.place r.placed r.tree va pa plain ok in
      let below = λ (t i : ℕ) (l : List ℕ) (e : r.place t ≡ i ∷ l) (z : t ≡ p).
        below_root m p r.place r.placed r.tree t i l e z in
      by_indices looped.words p va (va / 2 ^ 39 % 512) (va / 2 ^ 30 % 512) (va / 2 ^ 21 % 512)
        (va / 2 ^ 12 % 512) q.pdp q.pd q.pt q.frame (va % 2 ^ 12) refl refl refl refl refl
        (step_looped p _ q.pdp r.tree.0 (omega arith) (λ z. plain) q.first)
        (step_looped q.pdp _ q.pd q.owned2 (omega arith) (λ z. absurd (below q.pdp _ _ q.place2 z))
          q.second)
        (step_looped q.pd _ q.pt q.owned1 (omega arith) (λ z. absurd (below q.pd _ _ q.place1 z))
          q.third)
        (step_looped q.pt _ q.frame q.owned0 (omega arith) (λ z. absurd (below q.pt _ _ q.place0 z))
          q.leaf)
      ∙ q.address
