-- ===== src/Tasks/Rotate.antt =====
-- `schedule` of sys/process.c takes the tasks in turn.
use cse508_operating_system.Prelude.{
  ℕ, ◌+◌, ◌<◌, ◌≤◌, ◌≡◌, ◌≢◌, refl, sym, ap, ◌∙◌, Option, some, List, [], ◌∷◌, ◌++◌, arith, update,
  update_ne, update_self, length, length-append, ◌>>=◌,
}
use mathlib.Core.List.{append_assoc, append-nil}
use mathlib.Core.Path.{subst, subst₂}
use cse508_operating_system.Tasks.{Tasks, Resumed, schedule, switch_tasks}
use cse508_operating_system.Tasks.Chain.{
  Chain, NotIn, Distinct, last_of, last_task_lem, Chain-update, ne_last, Chain-ext, Chain-link,
}

-- The tasks of the list, in the order in which they will run.
abbrev pub IsQueue : Tasks → List ℕ → Type 0
IsQueue s xs = Chain s.next s.current xs × Distinct xs

-- What `schedule` leaves, of a list whose first task is `x` and whose others are `ys`: `x` stands at
-- the end, and only its saved stack pointer has changed. The processor goes on with the stack of the
-- task that is first now, at the return address of the call.
pub record Rotated (s : Tasks) (rsp x : ℕ) (ys : List ℕ) (r : Resumed) : Type 0 where
  pub queue : IsQueue r.tasks (ys ++ (x ∷ []))
  pub saves : r.tasks.saved_rsp x ≡ rsp + 8
  pub keeps : (t : ℕ) → t ≢ x → r.tasks.saved_rsp t ≡ s.saved_rsp t
  pub loads : r.rsp ≡ r.tasks.saved_rsp r.tasks.current
  pub jumps : r.rip ≡ s.words rsp
  pub stacks : r.tasks.words ≡ s.words

NotIn-append : (a : ℕ) (xs : List ℕ) (b : ℕ) → NotIn a xs → a ≢ b → NotIn a (xs ++ (b ∷ []))
NotIn-append a [] b n ne = (ne, tt)
NotIn-append a (x ∷ xs) b (h, n) ne = (h, NotIn-append a xs b n ne)

pub Distinct-snoc : (x : ℕ) (xs : List ℕ) → NotIn x xs → Distinct xs → Distinct (xs ++ (x ∷ []))
Distinct-snoc x [] n d = (tt, tt)
Distinct-snoc x (y ∷ ys) (ne, n) (out, d) =
    (NotIn-append y ys x out (λ e. ne (sym e)), Distinct-snoc x ys n d)

-- The links that `schedule` writes, for a list of two tasks or more.
relinked :
    (next : ℕ → ℕ) (x y : ℕ) (zs : List ℕ)
    → x ≢ 0
    → Distinct (x ∷ y ∷ zs)
    → Chain next (next x) (y ∷ zs)
    → Chain (update (update next (last_of y zs) x) x 0) (next x) ((y ∷ zs) ++ (x ∷ []))
relinked next x y zs xne (out, d) c =
    let last : ℕ = last_of y zs in
    let apart : x ≢ last = ne_last x y zs out in
    let ends : Chain (update (update next x 0) last x) x (x ∷ []) =
      (refl, xne, update_ne (update next x 0) last x x apart ∙ update_self next x 0) in
    Chain-ext (update (update next x 0) last x) (update (update next last x) x 0) (next x)
      ((y ∷ zs) ++ (x ∷ [])) (λ a. ground arith)
      (Chain-link (update next x 0) (next x) y zs x d
        (Chain-update next x 0 (next x) (y ∷ zs) out c) xne (x ∷ []) ends)

-- The list after the switch, for a running task `x`.
switch-IsQueue :
    (s : Tasks) (rsp x : ℕ) (ys : List ℕ)
    → IsQueue (record s { current = x }) (x ∷ ys)
    → IsQueue (switch_tasks (record s { current = x }) rsp (last_of x ys)).tasks (ys ++ (x ∷ []))
unfolding switch_tasks
switch-IsQueue s rsp x [] ((at, ne, c), d) = (
  (
    update_self s.next x x,
    ne,
    ap (λ a. update (update s.next x x) a 0 x) (update_self s.next x x)
        ∙ update_self (update s.next x x) x 0,
  ),
  d,
)
switch-IsQueue s rsp x (y ∷ zs) ((at, ne, c), (out, d)) = (
  subst₂ (λ a p. Chain (update (update s.next (last_of y zs) x) a 0) p ((y ∷ zs) ++ (x ∷ [])))
      (sym (update_self s.next (last_of y zs) x))
      (sym (update_ne s.next (last_of y zs) x x (ne_last x y zs out)))
      (relinked s.next x y zs ne (out, d) c),
  Distinct-snoc x (y ∷ zs) out d,
)

switch_keeps :
    (s : Tasks) (rsp x temp t : ℕ)
    → t ≢ x
    → (switch_tasks (record s { current = x }) rsp temp).tasks.saved_rsp t ≡ s.saved_rsp t
unfolding switch_tasks
switch_keeps s rsp x temp t ne = update_ne s.saved_rsp x t (rsp + 8) ne

schedule_at :
    (fuel : ℕ) (s : Tasks) (rsp x : ℕ) (ys : List ℕ)
    → IsQueue (record s { current = x }) (x ∷ ys)
    → length ys < fuel
    → (r : Resumed) × (schedule fuel (record s { current = x }) rsp ≡ some r)
      × Rotated (record s { current = x }) rsp x ys r
schedule_at fuel s rsp x ys q enough = (
  switch_tasks (record s { current = x }) rsp (last_of x ys),
  unfold schedule in rw (last_task_lem fuel s.next x x ys q.0 enough, ◌>>=◌),
  record {
    queue = switch-IsQueue s rsp x ys q;
    saves = unfold switch_tasks in update_self s.saved_rsp x (rsp + 8);
    keeps = switch_keeps s rsp x (last_of x ys);
    loads = unfold switch_tasks in refl;
    jumps = unfold switch_tasks in refl;
    stacks = unfold switch_tasks in refl;
  },
)

-- `schedule` moves the running task to the end of the list, saves its stack pointer behind the
-- return address, and goes on at that address with the stack of the task that is first then; no
-- other saved stack pointer and no word of a stack changes.
pub schedule-Rotated :
    (fuel : ℕ) (s : Tasks) (rsp x : ℕ) (ys : List ℕ)
    → IsQueue s (x ∷ ys)
    → length ys < fuel
    → (r : Resumed) × (schedule fuel s rsp ≡ some r) × Rotated s rsp x ys r
schedule-Rotated fuel s rsp x ys ((at, ne, c), d) enough =
    subst
      (λ q.
        (r : Resumed) × (schedule fuel (record s { current = q }) rsp ≡ some r)
        × Rotated (record s { current = q }) rsp x ys r)
      (sym at) (schedule_at fuel s rsp x ys ((refl, ne, c), d) enough)

-- A run of `schedule` calls, each entered with the stack pointer that the running task has then.
unfoldable pub schedule_many : ℕ → Tasks → (rsps : List ℕ) → Option Tasks
schedule_many fuel s [] = some s
schedule_many fuel s (rsp ∷ rsps) = do r ← schedule fuel s rsp; schedule_many fuel r.tasks rsps

-- As many calls of `schedule` as there are tasks in the front part of the list bring the rest of
-- the list to the front, wherever the stack pointers stand: each task runs in its turn, and a full
-- round restores the order.
pub schedule_many_lem :
    (fuel : ℕ) (s : Tasks) (rsps xs ys : List ℕ)
    → IsQueue s (xs ++ ys)
    → length (xs ++ ys) ≤ fuel
    → length rsps ≡ length xs
    → (s' : Tasks) × (schedule_many fuel s rsps ≡ some s') × IsQueue s' (ys ++ xs)
unfolding schedule_many
schedule_many_lem fuel s [] [] ys q enough same = (s, refl, rw (append-nil ys) q)
schedule_many_lem fuel s [] (x ∷ xs) ys q enough same = absurd (omega arith)
schedule_many_lem fuel s (rsp ∷ rsps) [] ys q enough same = absurd (omega arith)
schedule_many_lem fuel s (rsp ∷ rsps) (x ∷ xs) ys q enough same =
    let (r, ret, rot) = schedule-Rotated fuel s rsp x (xs ++ ys) q (omega arith) in
    let q' : IsQueue r.tasks (xs ++ (ys ++ (x ∷ []))) = rw append_assoc at rot.queue in
    let (s', later, done) =
      schedule_many_lem fuel r.tasks rsps xs (ys ++ (x ∷ [])) q'
        (omega (
          arith,
          length-append xs ys,
          length-append xs (ys ++ (x ∷ [])),
          length-append ys (x ∷ []),
        ))
        (omega arith) in
    (s', rw (ret, ◌>>=◌) later, rw append_assoc at done)
