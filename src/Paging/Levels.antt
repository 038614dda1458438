-- ===== src/Paging/Levels.antt =====
-- The tables that the three levels of `mmap` find or make, and their places.
use cse508_operating_system.Prelude.{
  ℕ, suc, ◌/◌, ◌%◌, ◌^◌, ◌≡◌, ◌≢◌, refl, ap, ◌*◌, ◌<◌, update_ne, ◌∙◌, List, [], ◌∷◌, arith, length,
}
use cse508_operating_system.PageTables.{Machine, entry_at, with_flags}
use cse508_operating_system.PageTables.Grow.{Owned, Tree, Tree-Owned, Tree-Grows, Owned-Grows}
use cse508_operating_system.PageTables.Level.{Found}
use cse508_operating_system.PageTables.GetPt.{Levels, Levels-Grows}
use cse508_operating_system.Paging.Fresh.{FreeIsZero, next_table_cases}
use cse508_operating_system.Paging.Refine.{Space, Found-positive, free1, free2, free3}
use cse508_operating_system.Paging.Places.{Places, Placed, Extended, next_table-Extended}
use cse508_operating_system.Prelude.{inl, inr}
use cse508_operating_system.Pmap.Bitmap.{IsBytes}

-- Tables in which every page in use has one place.
pub record Tables (m : Machine) (p : ℕ) : Type 0 where
  pub space : Space m p
  pub place : Places
  pub placed : Placed m p place

-- Tables in which every page in use has one place, with or without the entry 510.
pub record Rooted (m : Machine) (p : ℕ) : Type 0 where
  pub tree : Tree 3 m p
  pub bytes : IsBytes m.pmap.list
  pub free : FreeIsZero m
  pub place : Places
  pub placed : Placed m p place

-- The same, without the entry.
abbrev pub as_rooted : {m : Machine} {p : ℕ} → Tables m p → Rooted m p
as_rooted t = record {
  tree = t.space.tree;
  bytes = t.space.bytes;
  free = t.space.free;
  place = t.place;
  placed = t.placed;
}

pub Tables-Rooted : {m : Machine} {p : ℕ} → Tables m p → Rooted m p
Tables-Rooted t = as_rooted t

-- The machine behind the three levels: its tables, and where those of the address stand.
pub record Standing {fuel k : ℕ} {m : Machine} {p va : ℕ} (l : Levels fuel k m p va) : Type 0 where
  pub tree : Tree 3 l.m3 p
  pub free : FreeIsZero l.m3
  pub place : Places
  pub placed : Placed l.m3 p place
  pub place2 : place l.pdp ≡ va / 2 ^ 39 % 512 ∷ []
  pub place1 : place l.pd ≡ va / 2 ^ 30 % 512 ∷ va / 2 ^ 39 % 512 ∷ []
  pub place0 : place l.pt ≡ va / 2 ^ 21 % 512 ∷ va / 2 ^ 30 % 512 ∷ va / 2 ^ 39 % 512 ∷ []
  pub owned2 : Owned l.m3 l.pdp
  pub owned1 : Owned l.m3 l.pd
  pub kernelfree : l.m3.pmap.kernelfree ≡ m.pmap.kernelfree

module _ {fuel k : ℕ} {m : Machine} {p va : ℕ} (t : Rooted m p) (plain : va / 2 ^ 39 % 512 ≢ 510)
    (l : Levels fuel k m p va) where
  abbrev i4 : ℕ
  i4 = va / 2 ^ 39 % 512

  abbrev i3 : ℕ
  i3 = va / 2 ^ 30 % 512

  abbrev i2 : ℕ
  i2 = va / 2 ^ 21 % 512

  abbrev i1 : ℕ
  i1 = va / 2 ^ 12 % 512

  tree3 : Tree 3 l.m3 p
  tree3 = Tree-Grows 3 p (Levels-Grows t.tree l) t.tree

  pub placed1 : Extended m p t.place l.m1 p i4 l.pdp
  placed1 =
      next_table-Extended fuel 2 (suc (suc k)) m p t.place t.placed t.free p i4
        (Tree-Owned 3 t.tree) (omega arith) (omega (arith, ap length t.placed.root)) (λ z. plain)
        l.m1 l.pdp t.bytes l.first

  pub at2 : placed1.place' l.pdp ≡ i4 ∷ []
  at2 = placed1.here ∙ ap (λ (x : List ℕ). i4 ∷ x) t.placed.root

  pub placed2 : Extended l.m1 p placed1.place' l.m2 l.pdp i3 l.pd
  placed2 =
      next_table-Extended fuel 1 (suc k) l.m1 p placed1.place' placed1.placed
        (free1 t.tree t.bytes t.free l) l.pdp i3 (Tree-Owned 2 l.first.tree) (omega arith)
        (omega (arith, ap length at2))
        (λ z. absurd (
          omega (
            arith,
            ap length at2,
            ap length placed1.placed.root,
            ap (λ (x : ℕ). length (placed1.place' x)) z,
          )))
        l.m2 l.pd l.first.bytes l.second

  pub at1 : placed2.place' l.pd ≡ i3 ∷ i4 ∷ []
  at1 = placed2.here ∙ ap (λ (x : List ℕ). i3 ∷ x) at2

  pub placed3 : Extended l.m2 p placed2.place' l.m3 l.pd i2 l.pt
  placed3 =
      next_table-Extended fuel 0 k l.m2 p placed2.place' placed2.placed
        (free2 t.tree t.bytes t.free l) l.pd i2 (Tree-Owned 1 l.second.tree) (omega arith)
        (omega (arith, ap length at1))
        (λ z. absurd (
          omega (
            arith,
            ap length at1,
            ap length placed2.placed.root,
            ap (λ (x : ℕ). length (placed2.place' x)) z,
          )))
        l.m3 l.pt l.second.bytes l.third

  pub at0 : placed3.place' l.pt ≡ i2 ∷ i3 ∷ i4 ∷ []
  at0 = placed3.here ∙ ap (λ (x : List ℕ). i2 ∷ x) at1

  owned2 : Owned l.m2 l.pdp
  owned2 = Owned-Grows l.second.grows (Tree-Owned 2 l.first.tree)

  pdp_place : placed3.place' l.pdp ≡ i4 ∷ []
  pdp_place =
      placed3.kept l.pdp owned2.used ∙ placed2.kept l.pdp (Tree-Owned 2 l.first.tree).used ∙ at2

  pd_place : placed3.place' l.pd ≡ i3 ∷ i4 ∷ []
  pd_place = placed3.kept l.pd (Tree-Owned 1 l.second.tree).used ∙ at1

  level_free :
      (n j : ℕ) (a b : Machine) (u i c : ℕ)
      → IsBytes a.pmap.list
      → FreeIsZero a
      → Found fuel n j a u i b c
      → b.pmap.kernelfree ≡ a.pmap.kernelfree
  level_free n j a b u i c bytes free f =
      elim (next_table_cases fuel a u i b c bytes free (Found-positive f) f.returns) [
        | inl old ↦ rw old.1 refl
        | inr new ↦ rw new.result (new.takes.same_free)
      ]

  pub level_word :
      (n j : ℕ) (a b : Machine) (u i c x : ℕ)
      → IsBytes a.pmap.list
      → FreeIsZero a
      → Found fuel n j a u i b c
      → x ≢ entry_at u i
      → b.words x ≡ a.words x
  level_word n j a b u i c x bytes free f ne =
      elim (next_table_cases fuel a u i b c bytes free (Found-positive f) f.returns) [
        | inl old ↦ rw old.1 refl
        | inr new ↦ rw new.result (update_ne a.words (entry_at u i) x (with_flags c) ne)
      ]

  -- A table below the top one is not the top one.
  other_table :
      (q i i' : ℕ)
      → q ≡ q / 2 ^ 12 * 2 ^ 12
      → q ≢ p
      → i < 512
      → i' < 512
      → entry_at p i' ≢ entry_at q i
  other_table q i i' aligned ne lt lt' e =
      ne (omega (arith, e, aligned, (Tree-Owned 3 t.tree).aligned))

  -- Entry 510 of the top table is not written.
  pub self_word_kept : l.m3.words (entry_at p 510) ≡ m.words (entry_at p 510)
  self_word_kept =
      level_word 0 k l.m2 l.m3 l.pd i2 l.pt (entry_at p 510) l.second.bytes
        (free2 t.tree t.bytes t.free l) l.third
        (other_table l.pd i2 510 (Tree-Owned 1 l.second.tree).aligned
          (λ z. omega (
            arith,
            ap length at1,
            ap length placed2.placed.root,
            ap (λ (x : ℕ). length (placed2.place' x)) z,
          ))
          (omega arith) (omega arith))
      ∙ level_word 1 (suc k) l.m1 l.m2 l.pdp i3 l.pd (entry_at p 510) l.first.bytes
          (free1 t.tree t.bytes t.free l) l.second
          (other_table l.pdp i3 510 (Tree-Owned 2 l.first.tree).aligned
            (λ z. omega (
              arith,
              ap length at2,
              ap length placed1.placed.root,
              ap (λ (x : ℕ). length (placed1.place' x)) z,
            ))
            (omega arith) (omega arith))
      ∙ level_word 2 (suc (suc k)) m l.m1 p i4 l.pdp (entry_at p 510) t.bytes t.free l.first
          (λ e. plain (omega (arith, e)))

  -- No level moves `kernelfree`.
  same_free : l.m3.pmap.kernelfree ≡ m.pmap.kernelfree
  same_free =
      level_free 0 k l.m2 l.m3 l.pd i2 l.pt l.second.bytes (free2 t.tree t.bytes t.free l) l.third
      ∙ level_free 1 (suc k) l.m1 l.m2 l.pdp i3 l.pd l.first.bytes (free1 t.tree t.bytes t.free l)
          l.second
      ∙ level_free 2 (suc (suc k)) m l.m1 p i4 l.pdp t.bytes t.free l.first

  pub Levels-Standing : Standing l
  Levels-Standing = record {
    tree = tree3;
    free = free3 t.tree t.bytes t.free l;
    place = placed3.place';
    placed = placed3.placed;
    place2 = pdp_place;
    place1 = pd_place;
    place0 = at0;
    owned2 = Owned-Grows l.third.grows owned2;
    owned1 = Owned-Grows l.third.grows (Tree-Owned 1 l.second.tree);
    kernelfree = same_free;
  }
