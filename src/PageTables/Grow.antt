-- ===== src/PageTables/Grow.antt =====
-- Trees of page tables, and how they grow.
use cse508_operating_system.Prelude.{
  ℕ, zero, suc, ◌+◌, ◌*◌, ◌/◌, ◌^◌, ◌<◌, ◌≡◌, ◌≢◌, refl, sym, ◌∙◌, ◌⊎◌, inl, inr, arith, ℕ_discrete,
}
use cse508_operating_system.Pmap.Bitmap.{page_bit}
use cse508_operating_system.PageTables.{Machine, entry_at}

-- The page at `t` lies in the first 8192 pages, is not page 0 and is in use.
pub record Owned (m : Machine) (t : ℕ) : Type 0 where
  pub aligned : t ≡ t / 2 ^ 12 * 2 ^ 12
  pub small : t < 2 ^ 25
  pub positive : 0 < t
  pub used : page_bit m.pmap.list (t / 2 ^ 12) ≡ 1

-- An entry is empty, or a table with the flags PR, RW and US.
abbrev pub Slot : (ℕ → Type 0) → ℕ → Type 0
Slot P e = (e ≡ 0) ⊎ ((c : ℕ) × (e ≡ c + 7) × P c)

-- The tree of tables `n` levels above the page tables.
abbrev pub Tree : ℕ → Machine → ℕ → Type 0
Tree zero m t = Owned m t
Tree (suc n) m t = Owned m t × ((i : ℕ) → i < 512 → Slot (Tree n m) (m.words (entry_at t i)))

abbrev pub InUse : Machine → ℕ → Type 0
InUse m a = page_bit m.pmap.list (a / 2 ^ 12) ≡ 1

-- Pages in use stay so, and their words are kept, but for empty entries that become new tables.
pub record Grows (m m' : Machine) : Type 0 where
  pub used : (p : ℕ) → page_bit m.pmap.list p ≡ 1 → page_bit m'.pmap.list p ≡ 1
  pub keeps : (a : ℕ) → InUse m a → m.words a ≢ 0 → m'.words a ≡ m.words a
  pub adds : (a : ℕ) → InUse m a → m.words a ≡ 0 → Slot (λ c. (n : ℕ) → Tree n m' c) (m'.words a)

pub Tree-Owned : (n : ℕ) {m : Machine} {t : ℕ} → Tree n m t → Owned m t
Tree-Owned zero h = h
Tree-Owned (suc n) h = h.0

-- The entries of a table lie in its page.
pub entry-InUse : {m : Machine} {t : ℕ} → Owned m t → (i : ℕ) → i < 512 → InUse m (entry_at t i)
entry-InUse {t} o i h =
    let e : (t + 8 * i) / 2 ^ 12 ≡ t / 2 ^ 12 = omega (arith, o.aligned) in rw e o.used

pub Owned-Grows : {m m' : Machine} {t : ℕ} → Grows m m' → Owned m t → Owned m' t
Owned-Grows g o = record {
  aligned = o.aligned;
  small = o.small;
  positive = o.positive;
  used = g.used _ o.used;
}

pub Tree-Grows : {m m' : Machine} (n : ℕ) (t : ℕ) → Grows m m' → Tree n m t → Tree n m' t
Tree-Grows zero t g h = Owned-Grows g h
Tree-Grows {m} {m'} (suc n) t g h = (Owned-Grows g h.0, slots (λ c. Tree-Grows n c g))
  where
    old_table :
        (i : ℕ)
        → i < 512
        → m.words (entry_at t i) ≢ 0
        → ((c : ℕ) → Tree n m c → Tree n m' c)
        → Slot (Tree n m) (m.words (entry_at t i))
        → Slot (Tree n m') (m'.words (entry_at t i))
    old_table i lt ne ih (inl z) = absurd (ne z)
    old_table i lt ne ih (inr (c, e, tree)) =
        inr (c, g.keeps _ (entry-InUse h.0 i lt) ne ∙ e, ih c tree)

    new_table : (w : ℕ) → Slot (λ c. (k : ℕ) → Tree k m' c) w → Slot (Tree n m') w
    new_table w (inl z) = inl z
    new_table w (inr (c, e, tree)) = inr (c, e, tree n)

    slots :
        ((c : ℕ) → Tree n m c → Tree n m' c)
        → (i : ℕ) → i < 512
        → Slot (Tree n m') (m'.words (entry_at t i))
    slots ih i lt = elim (ℕ_discrete (m.words (entry_at t i)) 0) [
      | yes z ↦ new_table _ (g.adds _ (entry-InUse h.0 i lt) z)
      | no ne ↦ old_table i lt ne ih (h.1 i lt)
    ]

pub Grows-refl : (m : Machine) → Grows m m
Grows-refl m = record { used = λ p h. h; keeps = λ a h ne. refl; adds = λ a h z. inl z }

pub Grows-trans : {m m1 m2 : Machine} → Grows m m1 → Grows m1 m2 → Grows m m2
Grows-trans {m} {m1} {m2} g k = record {
  used = λ p h. k.used p (g.used p h);
  keeps = λ a h ne. k.keeps a (g.used _ h) (λ z. ne (sym (g.keeps a h ne) ∙ z)) ∙ g.keeps a h ne;
  adds = λ a h z. later a (g.used _ h) (g.adds a h z);
}
  where
    later :
        (a : ℕ)
        → InUse m1 a
        → Slot (λ c. (n : ℕ) → Tree n m1 c) (m1.words a)
        → Slot (λ c. (n : ℕ) → Tree n m2 c) (m2.words a)
    later a h (inl z) = k.adds a h z
    later a h (inr (c, e, tree)) =
        inr (c, k.keeps a h (omega arith) ∙ e, λ n. Tree-Grows n c k (tree n))
