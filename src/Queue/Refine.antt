-- ===== src/Queue/Refine.antt =====
-- The ring of sys/queue.c implements the bounded FIFO.
use cse508_operating_system.Prelude.{
  ℕ, zero, suc, ◌+◌, ◌-◌, ◌%◌, ◌≤◌, ◌<◌, ◌≡◌, ◌≢◌, ◌↔◌, refl, ap, ◌∙◌, Bool, true, false, Option,
  none, some, List, [], ◌∷◌, ◌++◌, arith, length, get_or, set, length-set, get_or-set_self,
  get_or-set_ne,
}
use mathlib.Core.Path.{ap₂}
use cse508_operating_system.Queue.{
  size, Queue, Warning, empty_dequeue, init_queue, push, pop, front, isempty,
}
use cse508_operating_system.Queue.Fifo
use cse508_operating_system.Queue.Fifo.{Fifo, Op, enqueue, dequeue, Reply, accepted, removed}

-- The body has its 101 places, and `last` is where the `count` tasks from `first` end.
pub record IsValid (r : Queue) : Type 0 where
  pub body : length r.q ≡ size + 1
  pub first_in : r.first < size
  pub last_in : r.last < size
  pub count_in : r.count ≤ size
  pub closes : (r.first + r.count) % size ≡ (r.last + 1) % size

-- The `n` tasks from place `i` on, round the ring.
abbrev pub entries : List ℕ → ℕ → ℕ → Fifo
entries body i zero = []
entries body i (suc n) = get_or body i 0 ∷ entries body ((i + 1) % size) n

abbrev pub waiting : Queue → Fifo
waiting r = entries r.q r.first r.count

length-entries : (body : List ℕ) (i n : ℕ) → length (entries body i n) ≡ n
length-entries body i zero = refl
length-entries body i (suc n) = ap suc (length-entries body ((i + 1) % size) n)

-- A write outside the `n` places is not seen.
entries-set :
    (body : List ℕ) (x s n i : ℕ)
    → i < size
    → ((j : ℕ) → j < n → (i + j) % size ≢ s)
    → entries (set body s x) i n ≡ entries body i n
entries-set body x s zero i hi out = refl
entries-set body x s (suc n) i hi out =
    ap₂ ◌∷◌ (get_or-set_ne body s i x 0 (λ e. out 0 (omega arith) (omega arith))) (
      entries-set body x s n ((i + 1) % size) (omega arith)
        (λ j lt e. out (suc j) (omega arith) (omega arith)))

-- One place more is one task more at the end.
entries_snoc :
    (body : List ℕ) (n i : ℕ)
    → i < size
    → entries body i (suc n) ≡ entries body i n ++ (get_or body ((i + n) % size) 0 ∷ [])
entries_snoc body zero i hi = ap (λ k. get_or body k 0 ∷ []) (omega arith)
entries_snoc body (suc n) i hi =
    ap (λ (w : Fifo). get_or body i 0 ∷ w)
      (entries_snoc body n ((i + 1) % size) (omega arith)
        ∙ ap (λ k. entries body ((i + 1) % size) n ++ (get_or body k 0 ∷ [])) (omega arith))

-- `init_queue` gives a valid queue in which no task waits, whatever the fields held before.
pub init_queue-IsValid :
    (r : Queue) → length r.q ≡ size + 1 → IsValid (init_queue r) × (waiting (init_queue r) ≡ [])
unfolding init_queue
init_queue-IsValid r h = (omega arith, refl)

pub push-IsValid : {r : Queue} (x : ℕ) → IsValid r → IsValid (push r x).0
unfolding push
push-IsValid {r} x v = ground (arith, length-set r.q ((r.last + 1) % size) x)

pub pop-IsValid : {r : Queue} → IsValid r → IsValid (pop r).0
unfolding pop
pop-IsValid v = ground arith

-- The task that `push` writes stands behind those that wait, which it leaves alone.
push_entries :
    {r : Queue} (x : ℕ)
    → IsValid r
    → r.count < size
    → entries (set r.q ((r.last + 1) % size) x) r.first (suc r.count) ≡ waiting r ++ (x ∷ [])
push_entries {r} x v room =
    entries_snoc (set r.q ((r.last + 1) % size) x) r.count r.first v.first_in
    ∙ ap₂ (λ (w : Fifo) (y : ℕ). w ++ (y ∷ []))
        (entries-set r.q x ((r.last + 1) % size) r.count r.first v.first_in
          (λ j lt e. omega (arith, v.closes)))
        (ap (λ k. get_or (set r.q ((r.last + 1) % size) x) k 0) v.closes
          ∙ get_or-set_self r.q ((r.last + 1) % size) x 0 (omega (arith, v.body)))

abbrev pub push_reply : Option Warning → Bool
push_reply none = true
push_reply (some w) = false

abbrev pub pop_reply : ℕ × Option Warning → Option ℕ
pop_reply (x, none) = some x
pop_reply (x, some w) = none

-- `push` accepts a task exactly when fewer than 100 wait, and then puts it behind them; a full
-- queue is left as it is.
pub push_refines :
    {r : Queue} (x : ℕ)
    → IsValid r
    → ◌≡◌ {A = Fifo × Bool}
        (waiting (push r x).0, push_reply (push r x).1)
        (Fifo.push size (waiting r) x)
unfolding push Fifo.push
push_refines {r} x v = ground (arith, length-entries r.q r.first r.count, push_entries x v)

-- What a queue holds when some task waits.
entries_of_pos :
    (body : List ℕ) (i n : ℕ)
    → n ≢ 0
    → entries body i n ≡ get_or body i 0 ∷ entries body ((i + 1) % size) (n - 1)
entries_of_pos body i zero h = absurd (h refl)
entries_of_pos body i (suc n) h =
    ap (λ k. get_or body i 0 ∷ entries body ((i + 1) % size) k) (omega arith)

-- `pop` removes the task that has waited longest and returns it; of an empty queue it returns
-- NULL with a warning and changes nothing.
pub pop_refines :
    {r : Queue}
    → IsValid r
    → ◌≡◌ {A = Fifo × Option ℕ}
        (waiting (pop r).0, pop_reply ((pop r).1, (pop r).2))
        (Fifo.pop (waiting r))
unfolding pop Fifo.pop
pop_refines {r} v = ground (arith, entries_of_pos r.q r.first r.count)

-- `front` shows what `pop` would return, with the same warning, and `isempty` tells whether the
-- queue would give a warning.
pub front-eq-pop :
    (r : Queue)
    → (front r ≡ ((pop r).1, (pop r).2)) × ((isempty r ≡ 1) ↔ ((pop r).2 ≡ some empty_dequeue))
unfolding front pop isempty
front-eq-pop r = grind arith

-- A client's calls on the ring, in order, with what each answers.
unfoldable pub run : Queue → List Op → List Reply
run r [] = []
run r (enqueue x ∷ ops) = let (r', w) = push r x in accepted (push_reply w) ∷ run r' ops
run r (dequeue ∷ ops) = let (r', x, w) = pop r in removed (pop_reply (x, w)) ∷ run r' ops

-- No sequence of `push` and `pop` calls tells a valid queue from the bounded FIFO of the tasks
-- that wait in it.
pub run_refines :
    (ops : List Op) {r : Queue} → IsValid r → run r ops ≡ Fifo.run size (waiting r) ops
unfolding run Fifo.run
run_refines [] v = refl
run_refines (enqueue x ∷ ops) v = rw (run_refines ops (push-IsValid x v), ← push_refines x v)
run_refines (dequeue ∷ ops) v = rw (run_refines ops (pop-IsValid v), ← pop_refines v)
