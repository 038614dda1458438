-- ===== src/Tasks/Append.antt =====
-- Tasks are added at the end of the list of sys/process.c.
use cse508_operating_system.Prelude.{
  ℕ, ◌≤◌, ◌≡◌, ◌≢◌, refl, ◌∙◌, some, List, [], ◌∷◌, ◌++◌, arith, true, false, ◌==◌, update,
  update_ne, update_self, length, ◌>>=◌,
}
use cse508_operating_system.Tasks.{Tasks, append_task, enqueue_proc, init_process, last_task}
use cse508_operating_system.Tasks.Chain.{
  Chain, NotIn, last_of, last_task_lem, Chain-update, ne_last, Chain-ext, Chain-link,
}
use cse508_operating_system.Tasks.Rotate.{IsQueue, Distinct-snoc}

-- The same stacks and stack pointers.
abbrev pub SameStacks : Tasks → Tasks → Type 0
SameStacks s t = (s.words ≡ t.words) × (s.saved_rsp ≡ t.saved_rsp)

-- A new task goes to the end of the list, or is the list if there was none.
pub append_task_lem :
    (fuel : ℕ) (s : Tasks) (task : ℕ) (xs : List ℕ)
    → IsQueue s xs
    → task ≢ 0
    → NotIn task xs
    → length xs ≤ fuel
    → (s' : Tasks) × (append_task fuel s task ≡ some s')
      × IsQueue s' (xs ++ (task ∷ []))
      × SameStacks s' s
unfolding append_task
append_task_lem fuel s task [] (c, d) ne new enough =
    let empty : (s.current == 0) ≡ true = ground arith in
    (
      record s { current = task; next = update s.next task 0 },
      rw empty,
      ((refl, ne, update_self s.next task 0), (tt, tt)),
      (refl, refl),
    )
append_task_lem fuel s task (x ∷ xs) ((at, xne, c), (out, d)) ne (new, news) enough =
    let live : (s.current == 0) ≡ false = ground arith in
    let last : ℕ = last_of x xs in
    let apart : task ≢ last = ne_last task x xs (new, news) in
    let found : last_task fuel s.next s.current ≡ some last =
      last_task_lem fuel s.next s.current x xs (at, xne, c) (omega arith) in
    let ends : Chain (update (update s.next task 0) last task) task (task ∷ []) = (
      refl,
      ne,
      update_ne (update s.next task 0) last task task apart ∙ update_self s.next task 0,
    ) in
    (
      record s { next = update (update s.next last task) task 0 },
      rw (live, found, ◌>>=◌),
      (
        Chain-ext (update (update s.next task 0) last task)
            (update (update s.next last task) task 0) s.current ((x ∷ xs) ++ (task ∷ []))
            (λ a. ground arith)
            (Chain-link (update s.next task 0) s.current x xs task (out, d)
              (Chain-update s.next task 0 s.current (x ∷ xs) (new, news) (at, xne, c)) ne
              (task ∷ []) ends),
        Distinct-snoc task (x ∷ xs) (new, news) (out, d),
      ),
      (refl, refl),
    )

-- `add_proc_to_task_list` behind `kmalloc`, which returned a new task, puts it behind the tasks of the list, whose order it keeps,
-- and changes the stacks and the stack pointers as `init_process` does.
pub enqueue_proc_lem :
    (fuel : ℕ) (s : Tasks) (task func : ℕ) (xs : List ℕ)
    → IsQueue s xs
    → task ≢ 0
    → NotIn task xs
    → length xs ≤ fuel
    → (s' : Tasks) × (enqueue_proc fuel s task func ≡ some s')
      × IsQueue s' (xs ++ (task ∷ []))
      × SameStacks s' (init_process s task func)
unfolding enqueue_proc init_process
enqueue_proc_lem fuel s task func xs q ne new enough =
    append_task_lem fuel (init_process s task func) task xs q ne new enough
