-- ===== src/Tasks.antt =====
-- The task list of sys/process.c and the context switch.
-- A `struct task_struct` is known by its address; its fields `next_task`, `rsp` and `rip` are
-- functions of it, and its stack is memory by 64-bit words. A read through NULL is a fault.
pub mod Chain
pub mod Rotate
pub mod Append
pub mod Switch
mod Tests
use cse508_operating_system.Prelude.{
  ℕ, zero, suc, ◌+◌, ◌-◌, ◌*◌, ◌^◌, Bool, true, false, Option, none, some, List, [], ◌∷◌, ◌==◌,
  if◌then◌else◌, update, u64, ◌>>=◌,
}

-- `current_task` and the memory that the tasks take.
pub record Tasks : Type 0 where
  pub current : ℕ
  pub next : ℕ → ℕ
  pub saved_rsp : ℕ → ℕ
  pub entry : ℕ → ℕ
  pub words : ℕ → ℕ

-- `&task->stack[i]`: `mm`, `rip` and `rsp` stand before the stack.
abbrev pub stack_at : ℕ → ℕ → ℕ
stack_at task i = task + 24 + 8 * i

unfoldable pub init_process : Tasks → (proc func : ℕ) → Tasks
init_process s proc func =
    let w1 = update s.words (stack_at proc 63) 0x10 in
    let w2 = update w1 (stack_at proc 62) (stack_at proc 63) in
    let w3 = update w2 (stack_at proc 61) 0x20202 in
    let w4 = update w3 (stack_at proc 60) 0x08 in
    let w5 = update w4 (stack_at proc 59) func in
    record s {
      entry = update s.entry proc func;
      words = w5;
      saved_rsp = update s.saved_rsp proc (stack_at proc 45);
    }

-- `while (temp->next_task != NULL) temp = temp->next_task`. No result: a fault, or a list that is
-- longer than the fuel.
unfoldable pub last_task : ℕ → (next : ℕ → ℕ) → (temp : ℕ) → Option ℕ
last_task zero next temp = none
last_task (suc fuel) next temp =
    let rest = last_task fuel next (next temp) in
    if temp == 0 then none else if next temp == 0 then some temp else rest

-- How `add_proc_to_task_list` and `add_userproc_to_task_list` put a task at the end of the list.
unfoldable pub append_task : ℕ → Tasks → ℕ → Option Tasks
append_task fuel s task =
    let behind : Option Tasks = (do
      temp ← last_task fuel s.next s.current
      some (record s { next = update (update s.next temp task) task 0 })) in
    if s.current == 0
    then some (record s { current = task; next = update s.next task 0 })
    else behind

-- `add_proc_to_task_list` behind `kmalloc`, which returned `task`.
unfoldable pub enqueue_proc : ℕ → Tasks → (task func : ℕ) → Option Tasks
unfolding init_process append_task
enqueue_proc fuel s task func = append_task fuel (init_process s task func) task

-- What the processor goes on with: the tasks, its stack pointer, and where it jumps to.
pub record Resumed : Type 0 where
  pub tasks : Tasks
  pub rsp : ℕ
  pub rip : ℕ

-- `schedule` behind its loop, which has stopped at `temp`.
unfoldable pub switch_tasks : Tasks → (rsp temp : ℕ) → Resumed
switch_tasks s rsp temp =
    let saved : ℕ → ℕ = update s.saved_rsp s.current (rsp + 8) in
    let next1 : ℕ → ℕ = update s.next temp s.current in
    let temp' : ℕ = next1 temp in
    let current' : ℕ = next1 s.current in
    let next2 : ℕ → ℕ = update next1 temp' 0 in
    record {
      tasks = record s { current = current'; next = next2; saved_rsp = saved };
      rsp = saved current';
      rip = s.words rsp;
    }

-- `schedule`, entered with the stack pointer `rsp` at its return address.
unfoldable pub schedule : ℕ → Tasks → (rsp : ℕ) → Option Resumed
unfolding switch_tasks
schedule fuel s rsp = do temp ← last_task fuel s.next s.current; some (switch_tasks s rsp temp)

-- The registers that `iretq` loads, and the 14 that are popped before it, r15 to rax.
pub record Frame : Type 0 where
  pub popped : List ℕ
  pub rip : ℕ
  pub cs : ℕ
  pub rflags : ℕ
  pub rsp : ℕ
  pub ss : ℕ

-- `n` pops from the stack pointer on.
unfoldable pub pops : ℕ → (ℕ → ℕ) → ℕ → List ℕ
pops zero words rsp = []
pops (suc n) words rsp = words rsp ∷ pops n words (rsp + 8)

-- `first_switch`: 14 pops from the saved stack pointer of the current task, and `iretq`.
unfoldable pub first_switch : Tasks → Frame
unfolding pops
first_switch s =
    let rsp : ℕ = s.saved_rsp s.current in
    record {
      popped = pops 14 s.words rsp;
      rip = s.words (rsp + 8 * 14);
      cs = s.words (rsp + 8 * 15);
      rflags = s.words (rsp + 8 * 16);
      rsp = s.words (rsp + 8 * 17);
      ss = s.words (rsp + 8 * 18);
    }
