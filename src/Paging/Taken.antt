-- ===== src/Paging/Taken.antt =====
-- Pages that are taken from the bitmap for data, in the tables of sys/pagetab.c.
use cse508_operating_system.Prelude.{
  ℕ, ◌*◌, ◌/◌, ◌^◌, ◌≤◌, ◌<◌, ◌≡◌, refl, ap, sym, ◌∙◌, ◌⊎◌, List, [], ◌∷◌, update, update_self,
  update_ne, ℕ_discrete, inl, inr, arith, length,
}
use cse508_operating_system.Pmap.{Pmap}
use cse508_operating_system.Pmap.Bitmap.{IsBytes, page_bit}
use cse508_operating_system.PageTables.{Machine}
use cse508_operating_system.PageTables.Grow.{Owned, Grows, Tree-Grows, Tree-Owned}
use cse508_operating_system.Paging.Refine.{Space}
use cse508_operating_system.Paging.Levels.{Tables, as_rooted}
use cse508_operating_system.Paging.Places.{Places, Placed}
use cse508_operating_system.Paging.Untouched.{IsData}

pub page_bit_cases : (list : ℕ → ℕ) (q : ℕ) → (page_bit list q ≡ 0) ⊎ (page_bit list q ≡ 1)
page_bit_cases list q = ground arith

-- Pages that are taken for data, and a new `kernelfree`, leave the tables as they are; the pages that
-- were free may get other places of at least three indices.
Tables-Placed :
    (m : Machine) (p : ℕ) (s' : Pmap) (t : Tables m p) (place' : Places)
    → ((q : ℕ) → page_bit m.pmap.list q ≡ 1 → page_bit s'.list q ≡ 1)
    → IsBytes s'.list
    → ((u : ℕ) → page_bit m.pmap.list (u / 2 ^ 12) ≡ 1 → place' u ≡ t.place u)
    → ((u : ℕ) → page_bit m.pmap.list (u / 2 ^ 12) ≡ 0 → 3 ≤ length (place' u))
    → Placed (record m { pmap = s' }) p place'
Tables-Placed m p s' t place' more bytes same far = record {
  root = same p (Tree-Owned 3 t.space.tree).used ∙ t.placed.root;
  child = λ u i c o lt near plain e.
      (let used : page_bit m.pmap.list (u / 2 ^ 12) ≡ 1 =
          elim (page_bit_cases m.pmap.list (u / 2 ^ 12)) [
            | inl clear ↦ absurd (omega (arith, near, far u clear))
            | inr set ↦ set
          ] in
        let near' : length (t.place u) < 3 = omega (arith, near, ap length (same u used)) in
        let (stands, owned) = t.placed.child u i c (old_Owned u o used) lt near' plain e in
        (
          same c owned.used ∙ stands ∙ ap (λ (x : List ℕ). i ∷ x) (sym (same u used)),
          new_Owned c owned,
        ));
  far = λ u h. far u (still_free (u / 2 ^ 12) h);
}
  where
    still_free : (q : ℕ) → page_bit s'.list q ≡ 0 → page_bit m.pmap.list q ≡ 0
    still_free q h = elim (page_bit_cases m.pmap.list q) [
      | inl clear ↦ clear
      | inr set ↦ absurd (omega (arith, h, more q set))
    ]

    new_Owned : (u : ℕ) → Owned m u → Owned (record m { pmap = s' }) u
    new_Owned u o = record {
      aligned = o.aligned;
      small = o.small;
      positive = o.positive;
      used = more (u / 2 ^ 12) o.used;
    }

    old_Owned :
        (u : ℕ)
        → Owned (record m { pmap = s' }) u
        → page_bit m.pmap.list (u / 2 ^ 12) ≡ 1
        → Owned m u
    old_Owned u o used = record {
      aligned = o.aligned;
      small = o.small;
      positive = o.positive;
      used = used;
    }

-- The invariant of the tables.
Space-taken :
    (m : Machine) (p : ℕ) (s' : Pmap)
    → Space m p
    → ((q : ℕ) → page_bit m.pmap.list q ≡ 1 → page_bit s'.list q ≡ 1)
    → IsBytes s'.list
    → Space (record m { pmap = s' }) p
Space-taken m p s' t more bytes = record {
  tree = Tree-Grows 3 p grown t.tree;
  self = t.self;
  bytes = bytes;
  free = λ a ge lt h. t.free a ge lt (still_free (a / 2 ^ 12) h);
}
  where
    grown : Grows m (record m { pmap = s' })
    grown = record { used = more; keeps = λ a h ne. refl; adds = λ a h z. inl z }

    still_free : (q : ℕ) → page_bit s'.list q ≡ 0 → page_bit m.pmap.list q ≡ 0
    still_free q h = elim (page_bit_cases m.pmap.list q) [
      | inl clear ↦ clear
      | inr set ↦ absurd (omega (arith, h, more q set))
    ]

pub Tables-taken :
    (m : Machine) (p : ℕ) (s' : Pmap)
    → Tables m p
    → ((q : ℕ) → page_bit m.pmap.list q ≡ 1 → page_bit s'.list q ≡ 1)
    → IsBytes s'.list
    → Tables (record m { pmap = s' }) p
Tables-taken m p s' t more bytes = record {
  space = Space-taken m p s' t.space more bytes;
  place = t.place;
  placed = Tables-Placed m p s' t t.place more bytes (λ u h. refl) t.placed.far;
}

-- A place for a page of data.
abbrev data_place : List ℕ
data_place = 0 ∷ 0 ∷ 0 ∷ 0 ∷ []

-- The page that is taken from the free ones has such a place.
module _ (m : Machine) (p : ℕ) (s' : Pmap) (frame : ℕ) (t : Tables m p)
    (more : (q : ℕ) → page_bit m.pmap.list q ≡ 1 → page_bit s'.list q ≡ 1) (bytes : IsBytes s'.list)
    (aligned : frame ≡ frame / 2 ^ 12 * 2 ^ 12)
    (was_free : page_bit m.pmap.list (frame / 2 ^ 12) ≡ 0)
    (taken : page_bit s'.list (frame / 2 ^ 12) ≡ 1) where
  place_frame :
      (u : ℕ)
      → page_bit m.pmap.list (u / 2 ^ 12) ≡ 1
      → update t.place frame data_place u ≡ t.place u
  place_frame u h =
      update_ne t.place frame u data_place
        (λ e. omega (arith, h, was_free, ap (λ (x : ℕ). page_bit m.pmap.list (x / 2 ^ 12)) e))

  far_frame :
      (u : ℕ)
      → page_bit m.pmap.list (u / 2 ^ 12) ≡ 0
      → 3 ≤ length (update t.place frame data_place u)
  far_frame u h = elim (ℕ_discrete u frame) [
    | yes e ↦ rw (e, update_self t.place frame data_place) (omega arith)
    | no ne ↦ rw (update_ne t.place frame u data_place ne) (t.placed.far u h)
  ]

  abbrev data_tables : Tables (record m { pmap = s' }) p
  data_tables = record {
    space = Space-taken m p s' t.space more bytes;
    place = update t.place frame data_place;
    placed =
        Tables-Placed m p s' t (update t.place frame data_place) more bytes place_frame far_frame;
  }

  pub taken-IsData : (t' : Tables (record m { pmap = s' }) p) × IsData (as_rooted t') frame
  taken-IsData = (
    data_tables,
    record {
      aligned = aligned;
      used = taken;
      deep = rw (update_self t.place frame data_place) (omega arith);
    },
  )
