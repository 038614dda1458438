-- ===== src/Tasks/Chain.antt =====
-- Task lists: which tasks a pointer leads to.
use cse508_operating_system.Prelude.{
  ℕ, zero, suc, ◌<◌, ◌≡◌, ◌≢◌, sym, some, List, [], ◌∷◌, ◌++◌, arith, update, update_ne,
  update_self, length,
}
use mathlib.Core.Path.{subst}
use cse508_operating_system.Tasks.{last_task}

-- From `p` the `next_task` pointers lead through `xs`, none of them NULL, to NULL.
abbrev pub Chain : (ℕ → ℕ) → ℕ → List ℕ → Type 0
Chain next p [] = p ≡ 0
Chain next p (x ∷ xs) = (p ≡ x) × (x ≢ 0) × Chain next (next x) xs

abbrev pub NotIn : ℕ → List ℕ → Type 0
NotIn a [] = Unit {0}
NotIn a (x ∷ xs) = (a ≢ x) × NotIn a xs

abbrev pub Distinct : List ℕ → Type 0
Distinct [] = Unit {0}
Distinct (x ∷ xs) = NotIn x xs × Distinct xs

abbrev pub last_of : ℕ → List ℕ → ℕ
last_of x [] = x
last_of x (y ∷ ys) = last_of y ys

pub last_task_lem :
    (fuel : ℕ) (next : ℕ → ℕ) (p x : ℕ) (xs : List ℕ)
    → Chain next p (x ∷ xs)
    → length xs < fuel
    → last_task fuel next p ≡ some (last_of x xs)
unfolding last_task
last_task_lem zero next p x xs c enough = absurd (omega arith)
last_task_lem (suc fuel) next p x [] (at, ne, c) enough = ground arith
last_task_lem (suc fuel) next p x (y ∷ ys) (at, ne, c) enough =
    ground (arith, last_task_lem fuel next (next p) y ys)

-- A pointer outside the list can change.
pub Chain-update :
    (next : ℕ → ℕ) (a v p : ℕ) (xs : List ℕ)
    → NotIn a xs
    → Chain next p xs
    → Chain (update next a v) p xs
Chain-update next a v p [] out c = c
Chain-update next a v p (x ∷ xs) (ne, out) (at, pos, c) = (
  at,
  pos,
  subst (λ q. Chain (update next a v) q xs) (sym (update_ne next a x v (λ e. ne (sym e))))
      (Chain-update next a v (next x) xs out c),
)

pub ne_last : (a b : ℕ) (zs : List ℕ) → NotIn a (b ∷ zs) → a ≢ last_of b zs
ne_last a b [] n = n.0
ne_last a b (z ∷ zs) n = ne_last a z zs n.1

pub Chain-ext :
    (f g : ℕ → ℕ) (p : ℕ) (xs : List ℕ) → ((a : ℕ) → f a ≡ g a) → Chain f p xs → Chain g p xs
Chain-ext f g p [] e c = c
Chain-ext f g p (x ∷ xs) e (at, ne, c) =
    (at, ne, subst (λ q. Chain g q xs) (e x) (Chain-ext f g (f x) xs e c))

-- Linking the last task to another list joins the lists.
pub Chain-link :
    (next : ℕ → ℕ) (p x : ℕ) (xs : List ℕ) (t : ℕ)
    → Distinct (x ∷ xs)
    → Chain next p (x ∷ xs)
    → t ≢ 0
    → (ys : List ℕ) → Chain (update next (last_of x xs) t) t ys
    → Chain (update next (last_of x xs) t) p ((x ∷ xs) ++ ys)
Chain-link next p x [] t d (at, pos, c) tne ys rest =
    (at, pos, subst (λ q. Chain (update next x t) q ys) (sym (update_self next x t)) rest)
Chain-link next p x (y ∷ ys') t (out, d) (at, pos, c) tne ys rest = (
  at,
  pos,
  subst (λ q. Chain (update next (last_of y ys') t) q ((y ∷ ys') ++ ys))
      (sym (update_ne next (last_of y ys') x t (ne_last x y ys' out)))
      (Chain-link next (next x) y ys' t d c tne ys rest),
)
