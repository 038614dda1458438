-- ===== src/Stubs/Wrapped.antt =====
-- Code between a push and the pop that matches it.
use cse508_operating_system.Prelude.{
  ℕ, ◌+◌, ◌≤◌, ◌<◌, ◌^◌, ◌≡◌, refl, sym, ap, ◌∙◌, ◌⊎◌, inl, inr, List, [], ◌∷◌, ◌++◌, arith, update,
  update_self, update_ne, ℕ_discrete,
}
use cse508_operating_system.Stubs.{Cpu, Instr, below, step, execute}

-- There is room for `depth` bytes below the stack pointer.
abbrev pub IsDeep : ℕ → Cpu → Type 0
IsDeep depth s = (depth ≤ s.rsp) × (s.rsp < 2 ^ 64)

module _ (handler : Cpu → Cpu) where
  -- Run with room for `depth` bytes on the stack, the code leaves the stack pointer and what is on the
  -- stack as they were, the registers in `Kept`, and the fields that no such code touches.
  pub record Quiet (depth : ℕ) (Kept : ℕ → Type 0) (code : List Instr) : Type 0 where
    pub rsp : (s : Cpu) → IsDeep depth s → (execute handler code s).rsp ≡ s.rsp
    pub stack :
        (s : Cpu)
        → IsDeep depth s
        → (a : ℕ) → s.rsp ≤ a
        → (execute handler code s).stack a ≡ s.stack a
    pub kept :
        (s : Cpu) → IsDeep depth s → (r : ℕ) → Kept r → (execute handler code s).reg r ≡ s.reg r

  pub execute-append :
      (code more : List Instr) (s : Cpu)
      → execute handler (code ++ more) s ≡ execute handler more (execute handler code s)
  unfolding execute
  execute-append [] more s = refl
  execute-append (i ∷ code) more s = execute-append code more (step handler i s)

  -- A register that is pushed in front and popped behind is kept as well.
  pub push-pop-Quiet :
      (depth r : ℕ) (Kept : ℕ → Type 0) (code : List Instr)
      → Quiet depth Kept code
      → Quiet (depth + 8) (λ q. (q ≡ r) ⊎ Kept q) (Instr.push r ∷ (code ++ (Instr.pop r ∷ [])))
  unfolding execute step
  push-pop-Quiet depth r Kept code q =
      let whole =
        λ (s : Cpu). execute-append code (Instr.pop r ∷ []) (step handler (Instr.push r) s) in
      let roomy : (s : Cpu) → IsDeep (depth + 8) s → IsDeep depth (step handler (Instr.push r) s) =
        λ s deep. (omega (arith, deep.0, deep.1), omega arith) in
      record {
        rsp = λ s deep.
            ap (λ (t : Cpu). t.rsp) (whole s)
            ∙ omega (arith, deep.0, deep.1, q.rsp (step handler (Instr.push r) s) (roomy s deep));
        stack = λ s deep a above.
            ap (λ (t : Cpu). t.stack a) (whole s)
            ∙ q.stack (step handler (Instr.push r) s) (roomy s deep) a
                (omega (arith, deep.0, deep.1))
            ∙ update_ne s.stack (below s.rsp) a (s.reg r) (omega (arith, deep.0, deep.1));
        kept = λ s deep p keep.
            ap (λ (t : Cpu). t.reg p) (whole s)
            ∙ popped s p (execute handler code (step handler (Instr.push r) s)).rsp
                (execute handler code (step handler (Instr.push r) s))
                (ap (execute handler code (step handler (Instr.push r) s)).stack
                    (q.rsp (step handler (Instr.push r) s) (roomy s deep))
                  ∙ q.stack (step handler (Instr.push r) s) (roomy s deep) (below s.rsp)
                      (omega arith)
                  ∙ update_self s.stack (below s.rsp) (s.reg r))
                (λ other. q.kept (step handler (Instr.push r) s) (roomy s deep) p other) keep;
      }
    where
      -- The word on top of the stack is the register's old value.
      popped :
          (s : Cpu) (p top : ℕ) (t : Cpu)
          → t.stack top ≡ s.reg r
          → (Kept p → t.reg p ≡ s.reg p)
          → (p ≡ r) ⊎ Kept p
          → update t.reg r (t.stack top) p ≡ s.reg p
      popped s p top t value old keep = elim (ℕ_discrete p r) [
        | yes same ↦
            ap (update t.reg r (t.stack top)) same
            ∙ update_self t.reg r (t.stack top)
            ∙ value
            ∙ ap s.reg (sym same)
        | no other ↦
            update_ne t.reg r p (t.stack top) other
            ∙ elim keep [ inl z ↦ absurd (other z) | inr held ↦ old held ]
      ]

-- Registers that are pushed in front of code and popped behind it, in the other order.
abbrev pub wrap : List ℕ → List Instr → List Instr
wrap [] code = code
wrap (r ∷ rs) code = Instr.push r ∷ (wrap rs code ++ (Instr.pop r ∷ []))

abbrev pub deeper : List ℕ → ℕ → ℕ
deeper [] depth = depth
deeper (r ∷ rs) depth = deeper rs depth + 8

abbrev pub IsAmong : List ℕ → (ℕ → Type 0) → ℕ → Type 0
IsAmong [] Kept q = Kept q
IsAmong (r ∷ rs) Kept q = (q ≡ r) ⊎ IsAmong rs Kept q

pub wrap-Quiet :
    (handler : Cpu → Cpu) (rs : List ℕ) (depth : ℕ) (Kept : ℕ → Type 0) (code : List Instr)
    → Quiet handler depth Kept code
    → Quiet handler (deeper rs depth) (IsAmong rs Kept) (wrap rs code)
wrap-Quiet handler [] depth Kept code q = q
wrap-Quiet handler (r ∷ rs) depth Kept code q =
    push-pop-Quiet handler (deeper rs depth) r (IsAmong rs Kept) (wrap rs code)
      (wrap-Quiet handler rs depth Kept code q)
