-- ===== src/PageTables/Level.antt =====
-- One level of `getPT` of sys/pagetab.c.
use cse508_operating_system.Prelude.{
  ℕ, zero, suc, ◌+◌, ◌*◌, ◌/◌, ◌^◌, ◌<◌, ◌≡◌, ◌≢◌, refl, ap, ◌∙◌, inl, inr, some, arith, ℕ_discrete,
  update, update_self, update_ne, bit_and, ◌>>=◌,
}
use cse508_operating_system.Prelude.Masks.{flags_sum, page_mask}
use cse508_operating_system.Pmap.{Pmap, kmalloc_mem}
use cse508_operating_system.Pmap.Bitmap.{IsBytes, page_bit}
use cse508_operating_system.Pmap.Alloc.{Takes, kmalloc_mem_cases}
use cse508_operating_system.PageTables.{
  Machine, entry_at, page_align, with_flags, zero_page, next_table,
}
use cse508_operating_system.PageTables.Grow.{
  Owned, Slot, Tree, InUse, Grows, Tree-Owned, entry-InUse, Grows-refl,
}

-- The next `k` calls of `kmalloc_mem` return pages.
abbrev pub HasRoom : ℕ → ℕ → Pmap → Type 0
HasRoom fuel zero p = Unit {0}
HasRoom fuel (suc k) p =
    (p' : Pmap) × (addr : ℕ) × (kmalloc_mem fuel p ≡ some (p', addr))
    × (addr ≢ 0)
    × HasRoom fuel k p'

pub room_less : (fuel k : ℕ) (p : Pmap) → HasRoom fuel (suc k) p → HasRoom fuel k p
room_less fuel zero p r = tt
room_less fuel (suc k) p (p', addr, ret, ne, rest) = (p', addr, ret, ne, room_less fuel k p' rest)

-- What one level gives: a table that the entry names, in a machine that has grown.
pub record Found (fuel n k : ℕ) (m : Machine) (t i : ℕ) (m' : Machine) (c : ℕ) : Type 0 where
  pub returns : next_table fuel m t i ≡ some (m', c)
  pub tree : Tree n m' c
  pub names : m'.words (entry_at t i) ≡ c + 7
  pub grows : Grows m m'
  pub bytes : IsBytes m'.pmap.list
  pub room : HasRoom fuel k m'.pmap

pub with_flags_lem : (c : ℕ) → c ≡ c / 2 ^ 12 * 2 ^ 12 → with_flags c ≡ c + 7
unfolding with_flags
with_flags_lem c e = rw e (flags_sum (c / 2 ^ 12))

entry_table : (c : ℕ) → c ≡ c / 2 ^ 12 * 2 ^ 12 → c < 2 ^ 25 → bit_and (c + 7) page_align ≡ c
entry_table c e small = page_mask (c + 7) (omega arith) ∙ omega arith

module _ (fuel n k : ℕ) (m : Machine) (t i : ℕ) (tree : Tree (suc n) m t) (lt : i < 512)
    (bytes : IsBytes m.pmap.list) (room : HasRoom fuel (suc k) m.pmap) where
  -- The machine after a fresh page `c` has been put into the entry.
  abbrev grown : Pmap → ℕ → Machine
  grown p' c = record {
    words = update (zero_page m.words c) (entry_at t i) (with_flags c);
    pmap = p';
  }

  occupied : (c : ℕ) → m.words (entry_at t i) ≡ c + 7 → Tree n m c → Found fuel n k m t i m c
  occupied c e sub = record {
    returns =
        unfold next_table in
        (let owned = Tree-Owned n sub in
          let got : bit_and (m.words (entry_at t i)) page_align ≡ c =
            rw e (entry_table c owned.aligned owned.small) in
          rw got (ground (arith, owned.positive)));
    tree = sub;
    names = e;
    grows = Grows-refl m;
    bytes = bytes;
    room = room_less fuel k m.pmap room;
  }

  module _ (p' : Pmap) (c page : ℕ) (takes : Takes 528 m.pmap p' c page)
      (empty : m.words (entry_at t i) ≡ 0) where
    page_of : c / 2 ^ 12 ≡ page
    page_of = omega (arith, takes.address)

    Owned-fresh : Owned (grown p' c) c
    Owned-fresh = record {
      aligned = omega (arith, takes.address);
      small = omega (arith, takes.address, takes.in_list);
      positive = omega (arith, takes.address, takes.from_start);
      used = rw page_of (ground (arith, takes.marks page));
    }

    -- A page in use is not the fresh one.
    elsewhere : (a : ℕ) → InUse m a → a / 2 ^ 12 ≢ page
    elsewhere a h e =
        let free = takes.was_free page (omega arith) refl in
        let used : page_bit m.pmap.list page ≡ 1 = rw (← e) h in omega (arith, free, used)

    slot-InUse : InUse m (entry_at t i)
    slot-InUse = entry-InUse tree.0 i lt

    zeroed : (j : ℕ) → j < 512 → (grown p' c).words (entry_at c j) ≡ 0
    unfolding zero_page
    zeroed j h =
        let other : entry_at c j ≢ entry_at t i =
          λ e. elsewhere (entry_at t i) slot-InUse (omega (arith, page_of, takes.address)) in
        ground arith

    Tree-fresh : (l : ℕ) → Tree l (grown p' c) c
    Tree-fresh zero = Owned-fresh
    Tree-fresh (suc l) = (Owned-fresh, λ j h. inl (zeroed j h))

    flags : with_flags c ≡ c + 7
    flags = with_flags_lem c Owned-fresh.aligned

    untouched : (a : ℕ) → InUse m a → zero_page m.words c a ≡ m.words a
    unfolding zero_page
    untouched a h = ground (arith, elsewhere a h, takes.address)

    adds_fresh :
        (a : ℕ)
        → InUse m a
        → m.words a ≡ 0
        → Slot (λ b. (l : ℕ) → Tree l (grown p' c) b) ((grown p' c).words a)
    adds_fresh a h z = elim (ℕ_discrete a (entry_at t i)) [
      | yes e ↦ inr (
        c,
        rw e (update_self (zero_page m.words c) (entry_at t i) (with_flags c)) ∙ flags,
        Tree-fresh,
      )
      | no ne ↦
          inl
            (update_ne (zero_page m.words c) (entry_at t i) a (with_flags c) ne ∙ untouched a h ∙ z)
    ]

    Grows-fresh : Grows m (grown p' c)
    Grows-fresh = record {
      used = λ q h. ground (arith, takes.marks q);
      keeps = λ a h ne.
          update_ne (zero_page m.words c) (entry_at t i) a (with_flags c)
            (λ e. ne (ap m.words e ∙ empty))
          ∙ untouched a h;
      adds = adds_fresh;
    }

    fresh :
        kmalloc_mem fuel m.pmap ≡ some (p', c)
        → HasRoom fuel k p'
        → Found fuel n k m t i (grown p' c) c
    fresh ret rest = record {
      returns = unfold next_table in rw (empty, ret, ◌>>=◌);
      tree = Tree-fresh n;
      names = update_self (zero_page m.words c) (entry_at t i) (with_flags c) ∙ flags;
      grows = Grows-fresh;
      bytes = takes.bytes;
      room = rest;
    }

  -- Given a tree of tables and room for a page, one level of `getPT` finds or makes the table that
  -- the entry names.
  pub next_table-Found : (m' : Machine) × (c : ℕ) × Found fuel n k m t i m' c
  next_table-Found = by_entry (tree.1 i lt)
    where
      by_call :
          (p' : Pmap) (c : ℕ)
          → kmalloc_mem fuel m.pmap ≡ some (p', c)
          → c ≢ 0
          → HasRoom fuel k p'
          → m.words (entry_at t i) ≡ 0
          → (m' : Machine) × (c : ℕ) × Found fuel n k m t i m' c
      by_call p' c ret ne rest z = elim (kmalloc_mem_cases m.pmap fuel p' c bytes ret) [
        | inl taken ↦ (grown p' c, c, fresh p' c taken.0 taken.1 z ret rest)
        | inr null ↦ absurd (ne null.0)
      ]

      by_entry :
          Slot (Tree n m) (m.words (entry_at t i))
          → (m' : Machine) × (c : ℕ) × Found fuel n k m t i m' c
      by_entry (inl z) = let (p', c, ret, ne, rest) = room in by_call p' c ret ne rest z
      by_entry (inr (c, e, sub)) = (m, c, occupied c e sub)
