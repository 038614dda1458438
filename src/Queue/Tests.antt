-- ===== src/Queue/Tests.antt =====
-- Runs of sys/queue.c, and its theorems at them.
use cse508_operating_system.Prelude.{
  ◌≡◌, refl, true, some, none, List, [], ◌∷◌, ◌++◌, arith, replicate,
}
use cse508_operating_system.Queue.{size, Queue, push, pop, printqueue}
use cse508_operating_system.Queue.Fifo
use cse508_operating_system.Queue.Fifo.{Fifo, Op, enqueue, dequeue, Reply, accepted, removed}
use cse508_operating_system.Queue.Refine.{IsValid, waiting, run, run_refines}

abbrev zeroed : Queue
zeroed = record { q = replicate 101 0; first = 0; last = 0; count = 0 }

-- Three tasks wait round the end of the body: 41 and 42 at its end, 43 at its start.
abbrev wrapped : Queue
wrapped = record { q = 43 ∷ replicate 97 0 ++ (41 ∷ 42 ∷ 0 ∷ []); first = 98; last = 0; count = 3 }

abbrev straight : Queue
straight = record { q = 41 ∷ 42 ∷ replicate 99 0; first = 0; last = 1; count = 2 }

wrapped-IsValid : IsValid wrapped
wrapped-IsValid = record {
  body = refl;
  first_in = omega arith;
  last_in = omega arith;
  count_in = omega arith;
  closes = refl;
}

straight-IsValid : IsValid straight
straight-IsValid = record {
  body = refl;
  first_in = omega arith;
  last_in = omega arith;
  count_in = omega arith;
  closes = refl;
}

waiting-wrapped : waiting wrapped ≡ 41 ∷ 42 ∷ 43 ∷ []
waiting-wrapped = refl

abbrev script : List Op
script = enqueue 44 ∷ dequeue ∷ dequeue ∷ dequeue ∷ dequeue ∷ dequeue ∷ []

run-wrapped :
    run wrapped script
    ≡ accepted true
      ∷ removed (some 41)
      ∷ removed (some 42)
      ∷ removed (some 43)
      ∷ removed (some 44)
      ∷ removed none
      ∷ []
unfolding run push pop
run-wrapped = refl

print_wrapped : printqueue 7 wrapped ≡ []
unfolding printqueue
print_wrapped = refl

run_refines_example : run wrapped script ≡ Fifo.run size (41 ∷ 42 ∷ 43 ∷ []) script
run_refines_example = run_refines script wrapped-IsValid
