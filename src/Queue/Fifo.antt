-- ===== src/Queue/Fifo.antt =====
-- What a client of sys/queue.c relies on: a first-in first-out list of at most 100 task pointers.
use cse508_operating_system.Prelude.{
  ℕ, Bool, Option, none, some, List, [], ◌∷◌, ◌++◌, ltb, if◌then◌else◌, length,
}

-- The tasks that wait, oldest first.
abbrev pub Fifo : Type 0
Fifo = List ℕ

-- A full queue refuses the task.
unfoldable pub push : ℕ → Fifo → ℕ → Fifo × Bool
push cap w x = let room = ltb (length w) cap in (if room then w ++ (x ∷ []) else w, room)

unfoldable pub pop : Fifo → Fifo × Option ℕ
pop [] = ([], none)
pop (x ∷ w) = (w, some x)

-- The calls of a client.
pub data Op : Type 0 where
  enqueue : ℕ → Op
  dequeue : Op

pub data Reply : Type 0 where
  accepted : Bool → Reply
  removed : Option ℕ → Reply

unfoldable pub run : ℕ → Fifo → List Op → List Reply
run cap w [] = []
run cap w (enqueue x ∷ ops) = let (w', ok) = push cap w x in accepted ok ∷ run cap w' ops
run cap w (dequeue ∷ ops) = let (w', out) = pop w in removed out ∷ run cap w' ops
