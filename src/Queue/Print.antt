-- ===== src/Queue/Print.antt =====
-- `printqueue` of sys/queue.c.
use cse508_operating_system.Prelude.{
  ℕ, zero, suc, ◌+◌, ◌-◌, ◌<◌, ◌≤◌, ◌≡◌, refl, ap, [], arith, length,
}
use cse508_operating_system.Queue.{Queue, print_from, printqueue}
use cse508_operating_system.Queue.Refine.{IsValid}

length-print_from : (slot n i : ℕ) → length (print_from slot n i) ≡ n
unfolding print_from
length-print_from slot zero i = refl
length-print_from slot (suc n) i = ap suc (length-print_from slot n (i + 1))

-- `printqueue` of a valid queue that holds tasks prints a line for each of them as long as they do
-- not wrap round the end of the body, and prints nothing at all as soon as they do.
pub length-printqueue :
    (slot : ℕ) {r : Queue}
    → IsValid r
    → 0 < r.count
    → (r.first ≤ r.last → length (printqueue slot r) ≡ r.count)
      × (r.last < r.first → printqueue slot r ≡ [])
unfolding printqueue print_from
length-printqueue slot {r} v pos = (
  λ h. omega (arith, length-print_from slot (r.last + 1 - r.first) r.first),
  λ h. ap (λ n. print_from slot n r.first) (let e : r.last + 1 - r.first ≡ 0 = omega arith in e),
)
