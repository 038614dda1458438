-- ===== src/Queue.antt =====
-- The task queue of sys/queue.c and include/linux/queue.h: a ring of task pointers.
-- A pointer is a number, 0 is NULL. The `int` fields are numbers: the operations keep them in range.
pub mod Fifo
pub mod Refine
pub mod Print
mod Tests
use cse508_operating_system.Prelude.{
  ℕ, zero, suc, ◌+◌, ◌-◌, ◌%◌, Bool, true, false, Option, none, some, List, [], ◌∷◌, leb,
  if◌then◌else◌, set, get_or, replicate,
}

-- SIZE
abbrev pub size : ℕ
size = 100

-- `queue`; the body has SIZE + 1 places.
pub record Queue : Type 0 where
  pub q : List ℕ
  pub first : ℕ
  pub last : ℕ
  pub count : ℕ

-- What the operations print.
pub data Warning : Type 0 where
  overflow : ℕ → Warning
  empty_dequeue : Warning

unfoldable pub init_queue : Queue → Queue
init_queue r = record r { first = 0; last = size - 1; count = 0 }

unfoldable pub push : Queue → ℕ → Queue × Option Warning
push r x = if leb size r.count then (r, some (overflow x)) else (
  record r { last = (r.last + 1) % size; q = set r.q ((r.last + 1) % size) x; count = r.count + 1 },
  none,
)

unfoldable pub pop : Queue → Queue × ℕ × Option Warning
pop r = if leb r.count 0 then (r, 0, some empty_dequeue) else (
  record r { first = (r.first + 1) % size; count = r.count - 1 },
  get_or r.q r.first 0,
  none,
)

unfoldable pub front : Queue → ℕ × Option Warning
front r = if leb r.count 0 then (0, some empty_dequeue) else (get_or r.q r.first 0, none)

unfoldable pub isempty : Queue → ℕ
isempty r = if leb r.count 0 then 1 else 0

-- The lines of `printqueue` from index `i`, with `n` rounds left. Each shows the index and `slot`,
-- the address of the local variable `t`, since the call passes `&t`.
unfoldable pub print_from : ℕ → ℕ → ℕ → List (ℕ × ℕ)
print_from slot zero i = []
print_from slot (suc n) i = (i, slot) ∷ print_from slot n (i + 1)

-- `for (; i <= last; i++)` from `first` makes `last + 1 - first` rounds, none if `first > last`.
unfoldable pub printqueue : ℕ → Queue → List (ℕ × ℕ)
unfolding print_from
printqueue slot r = print_from slot (r.last + 1 - r.first) r.first
