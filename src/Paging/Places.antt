-- ===== src/Paging/Places.antt =====
-- Where a table stands in the tree: the indices that lead to it, the last one first. No table
-- stands in two places, but for the top table, which entry 510 names again.
use cse508_operating_system.Prelude.{
  ℕ, ◌+◌, ◌/◌, ◌^◌, ◌≤◌, ◌<◌, ◌≡◌, ◌≢◌, refl, sym, ap, ◌∙◌, inl, inr, List, [], ◌∷◌, arith,
  ℕ_discrete, length, update, update_self, update_ne,
}
use cse508_operating_system.Pmap.{Pmap}
use cse508_operating_system.Pmap.Bitmap.{IsBytes, page_bit}
use cse508_operating_system.Pmap.Alloc.{Takes}
use cse508_operating_system.PageTables.{Machine, entry_at, with_flags}
use cse508_operating_system.PageTables.Grow.{Owned, Tree-Owned}
use cse508_operating_system.PageTables.Level.{Found, with_flags_lem}
use cse508_operating_system.Paging.Fresh.{FreeIsZero, next_table_cases}

abbrev pub Places : Type 0
Places = (table : ℕ) → List ℕ

-- Every page in use with a place of fewer than three indices is a table: what its entries name
-- stands one index further. A page that is free has no such place.
pub record Placed (m : Machine) (p : ℕ) (place : Places) : Type 0 where
  pub root : place p ≡ []
  pub child :
      (t i c : ℕ)
      → Owned m t
      → i < 512
      → length (place t) < 3
      → (t ≡ p → i ≢ 510)
      → m.words (entry_at t i) ≡ c + 7
      → (place c ≡ i ∷ place t) × Owned m c
  pub far : (t : ℕ) → page_bit m.pmap.list (t / 2 ^ 12) ≡ 0 → 3 ≤ length (place t)

-- A level of `getPT` puts the table where its index leads, and moves no page in use.
pub record Extended (m : Machine) (p : ℕ) (place : Places) (m' : Machine) (t i c : ℕ) : Type 0 where
  pub place' : Places
  pub placed : Placed m' p place'
  pub here : place' c ≡ i ∷ place t
  pub kept : (x : ℕ) → page_bit m.pmap.list (x / 2 ^ 12) ≡ 1 → place' x ≡ place x

module _ (fuel n k : ℕ) (m : Machine) (p : ℕ) (place : Places) (placed : Placed m p place)
    (free : FreeIsZero m) (t i : ℕ) (o : Owned m t) (lt : i < 512) (near : length (place t) < 3)
    (plain : t ≡ p → i ≢ 510) where
  module _ (c page : ℕ) (left : Pmap) (takes : Takes 528 m.pmap left c page)
      (flags : with_flags c ≡ c + 7) where
    abbrev grown : Machine
    grown = record { words = update m.words (entry_at t i) (with_flags c); pmap = left }

    abbrev place_c : Places
    place_c = update place c (i ∷ place t)

    at_page : c / 2 ^ 12 ≡ page
    at_page = omega (arith, takes.address)

    not_fresh : (x : ℕ) → page_bit m.pmap.list (x / 2 ^ 12) ≡ 1 → x ≢ c
    not_fresh x used e =
        let clear : page_bit m.pmap.list (c / 2 ^ 12) ≡ 0 =
          rw at_page (takes.was_free page (omega arith) refl) in
        let used' : page_bit m.pmap.list (c / 2 ^ 12) ≡ 1 = rw (← e) used in
        omega (arith, clear, used')

    still_used : (q : ℕ) → page_bit m.pmap.list q ≡ 1 → page_bit left.list q ≡ 1
    still_used q h = ground (arith, takes.marks q)

    grown-Owned : (x : ℕ) → Owned m x → Owned grown x
    grown-Owned x h = record {
      aligned = h.aligned;
      small = h.small;
      positive = h.positive;
      used = still_used (x / 2 ^ 12) h.used;
    }

    fresh-Owned : Owned grown c
    fresh-Owned = record {
      aligned = omega (arith, takes.address);
      small = omega (arith, takes.address, takes.in_list);
      positive = omega (arith, takes.address, takes.from_start);
      used = rw at_page (ground (arith, takes.marks page));
    }

    -- A page other than the fresh one was in use before.
    old-Owned : (x : ℕ) → Owned grown x → x ≢ c → Owned m x
    old-Owned x h ne = record {
      aligned = h.aligned;
      small = h.small;
      positive = h.positive;
      used =
          let other : x / 2 ^ 12 ≢ page = λ e. ne (omega (arith, e, h.aligned, takes.address)) in
          ground (arith, takes.marks (x / 2 ^ 12), h.used);
    }

    child_c :
        (u j b : ℕ)
        → Owned grown u
        → j < 512
        → length (place_c u) < 3
        → (u ≡ p → j ≢ 510)
        → grown.words (entry_at u j) ≡ b + 7
        → (place_c b ≡ j ∷ place_c u) × Owned grown b
    child_c u j b h jt short pl e = elim (ℕ_discrete u c) [
      | yes is_c ↦
          let other : entry_at u j ≢ entry_at t i =
            λ z. not_fresh t o.used (omega (arith, z, is_c, o.aligned, h.aligned)) in
          let in_page : entry_at u j / 2 ^ 12 ≡ page = omega (arith, is_c, takes.address) in
          let zero_there : m.words (entry_at u j) ≡ 0 =
            free (entry_at u j) (omega (arith, in_page, takes.from_start))
              (omega (arith, in_page, takes.in_list))
              (rw in_page (takes.was_free page (omega arith) refl)) in
          let kept_word = update_ne m.words (entry_at t i) (entry_at u j) (with_flags c) other in
          absurd (omega (arith, e, kept_word, zero_there))
      | no apart ↦
          rw (update_ne place c u (i ∷ place t) apart)
            (elim (ℕ_discrete (entry_at u j) (entry_at t i)) [
              | yes same ↦
                  let same_table : u ≡ t = omega (arith, h.aligned, o.aligned) in
                  let same_index : j ≡ i = omega arith in
                  let is_child : b ≡ c = omega (
                    arith,
                    e,
                    flags,
                    ap grown.words same,
                    update_self m.words (entry_at t i) (with_flags c),
                  ) in
                  rw (is_child, update_self place c (i ∷ place t), same_table, same_index)
                    (refl, fresh-Owned)
              | no ne ↦
                  let word : m.words (entry_at u j) ≡ b + 7 =
                    sym (update_ne m.words (entry_at t i) (entry_at u j) (with_flags c) ne) ∙ e in
                  let near_u : length (place u) < 3 =
                    rw (update_ne place c u (i ∷ place t) apart) at short in
                  let (stands, owned) =
                    placed.child u j b (old-Owned u h apart) jt near_u pl word in
                  rw (update_ne place c b (i ∷ place t) (not_fresh b owned.used))
                    (stands, grown-Owned b owned)
            ])
    ]

    root_kept : p ≢ c
    root_kept z =
        let clear : page_bit m.pmap.list (p / 2 ^ 12) ≡ 0 =
          rw (z, at_page) (takes.was_free page (omega arith) refl) in
        omega (arith, placed.far p clear, ap length placed.root)

    far_kept : (x : ℕ) → page_bit left.list (x / 2 ^ 12) ≡ 0 → 3 ≤ length (place_c x)
    far_kept x h =
        let clear : page_bit m.pmap.list (x / 2 ^ 12) ≡ 0 =
          ground (arith, takes.marks (x / 2 ^ 12)) in
        let other : x ≢ c = λ z.
          omega (arith, h, ap (λ (y : ℕ). page_bit left.list (y / 2 ^ 12)) z, fresh-Owned.used) in
        rw (update_ne place c x (i ∷ place t) other) (placed.far x clear)

    Extended-fresh : Extended m p place grown t i c
    Extended-fresh = record {
      place' = place_c;
      placed = record {
        root = update_ne place c p (i ∷ place t) root_kept ∙ placed.root;
        child = child_c;
        far = far_kept;
      };
      here = update_self place c (i ∷ place t);
      kept = λ x h. update_ne place c x (i ∷ place t) (not_fresh x h);
    }

  Extended-old : (c : ℕ) → m.words (entry_at t i) ≡ c + 7 → Extended m p place m t i c
  Extended-old c e = record {
    place' = place;
    placed = placed;
    here = (placed.child t i c o lt near plain e).0;
    kept = λ x h. refl;
  }

  pub next_table-Extended :
      (m' : Machine) (c : ℕ)
      → IsBytes m.pmap.list
      → Found fuel n k m t i m' c
      → Extended m p place m' t i c
  next_table-Extended m' c bytes f =
      let positive = (Tree-Owned n f.tree).positive in
      elim (next_table_cases fuel m t i m' c bytes free (λ z. omega (arith, z, positive))
        f.returns) [
          | inl old ↦
              let named : m.words (entry_at t i) ≡ c + 7 = rw old.1 at f.names in
              rw old.1 (Extended-old c named)
          | inr new ↦ rw new.result (
              Extended-fresh c new.page new.left new.takes
                (with_flags_lem c (Tree-Owned n f.tree).aligned))
        ]
