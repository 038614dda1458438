-- ===== src/Tasks/Tests.antt =====
-- Runs of sys/process.c, and its theorems at them.
use cse508_operating_system.Prelude.{◌≡◌, some, [], ◌∷◌, ◌++◌, arith, ◌==◌, if◌then◌else◌}
use cse508_operating_system.Tasks.{Tasks, Resumed, schedule, enqueue_proc, init_process}
use cse508_operating_system.Tasks.Rotate.{
  IsQueue, Rotated, schedule-Rotated, schedule_many, schedule_many_lem,
}
use cse508_operating_system.Tasks.Append.{SameStacks, enqueue_proc_lem}

-- Tasks at 100, 200 and 300, in this order.
abbrev three : Tasks
three = record {
  current = 100;
  next = λ t. if t == 100 then 200 else if t == 200 then 300 else 0;
  saved_rsp = λ t. 7;
  entry = λ t. 0;
  words = λ a. 9;
}

abbrev none_yet : Tasks
none_yet = record three { current = 0 }

three-IsQueue : IsQueue three (100 ∷ 200 ∷ 300 ∷ [])
three-IsQueue = omega arith

schedule-Rotated_example :
    (r : Resumed) × (schedule 5 three 64 ≡ some r) × Rotated three 64 100 (200 ∷ 300 ∷ []) r
schedule-Rotated_example =
    schedule-Rotated 5 three 64 100 (200 ∷ 300 ∷ []) three-IsQueue (omega arith)

schedule_many_lem_example :
    (s' : Tasks) × (schedule_many 5 three (64 ∷ 72 ∷ []) ≡ some s')
    × IsQueue s' ((300 ∷ []) ++ (100 ∷ 200 ∷ []))
schedule_many_lem_example =
    schedule_many_lem 5 three (64 ∷ 72 ∷ []) (100 ∷ 200 ∷ []) (300 ∷ []) three-IsQueue (omega arith)
      (omega arith)

enqueue_proc_lem_example :
    (s' : Tasks) × (enqueue_proc 5 three 400 0x1000 ≡ some s')
    × IsQueue s' ((100 ∷ 200 ∷ 300 ∷ []) ++ (400 ∷ []))
    × SameStacks s' (init_process three 400 0x1000)
enqueue_proc_lem_example =
    enqueue_proc_lem 5 three 400 0x1000 (100 ∷ 200 ∷ 300 ∷ []) three-IsQueue (omega arith)
      (omega arith) (omega arith)
