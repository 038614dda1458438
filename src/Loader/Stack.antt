-- ===== src/Loader/Stack.antt =====
-- The area of the stack that `load_elf` of sys/tarfs.c adds.
use mathlib.Core.Path.{subst}
use cse508_operating_system.Prelude.{
  ℕ, ◌+◌, ◌-◌, ◌^◌, ◌≤◌, ◌≡◌, ◌≢◌, refl, sym, some, List, [], ◌∷◌, ◌++◌, length, update,
  update_self, update_ne, u64, ◌>>=◌,
}
use mathlib.Core.List.{append_assoc, append-nil}
use cse508_operating_system.Tasks.Chain.{NotIn, Chain-update}
use cse508_operating_system.PageTables.{Machine}
use cse508_operating_system.Paging.{Mmu, kmalloc}
use cse508_operating_system.Loader.{VmState, vma_size, pf_r, pf_w, add_stack, append_vma}
use cse508_operating_system.Loader.Areas.{HasAreas}
use cse508_operating_system.Loader.Append.{Area, Added, says-snoc, linked, append_vma_lem}
use cse508_operating_system.Loader.Segments.{kmalloc_address_lem}
use cse508_operating_system.Loader.Load.{Fresh}

-- The page below the stack pointer.
abbrev pub stack_area : ℕ → Area
stack_area rsp = record { first = u64 (rsp + 2 ^ 64 - 4096); behind = rsp; flags = 6 }

module _ (mmu : Mmu) (fuel : ℕ) (s : VmState) (tsk m v : ℕ) (vs : List ℕ) (left : Machine)
    (call : kmalloc mmu fuel s.machine vma_size ≡ some (left, v)) (at : s.mm tsk ≡ m)
    (areas : HasAreas s m vs) (ne : v ≢ 0) (out : NotIn v vs) (enough : length vs ≤ fuel) where
  abbrev stack_filled : VmState
  stack_filled = record s {
    machine = left;
    vm_mm = update s.vm_mm v (s.mm tsk);
    vm_start = update s.vm_start v (u64 (s.tasks.saved_rsp tsk + 2 ^ 64 - 4096));
    vm_end = update s.vm_end v (s.tasks.saved_rsp tsk);
    vm_flags = update s.vm_flags v (pf_r + pf_w);
    vm_next = update s.vm_next v 0;
  }

  add_stack_steps :
      (s2 : VmState)
      → append_vma fuel stack_filled m v ≡ some s2
      → add_stack mmu fuel s tsk ≡ some s2
  unfolding add_stack
  add_stack_steps s2 ret =
      rw (kmalloc_address_lem mmu fuel s vma_size v left call, ◌>>=◌)
        (subst (λ q. append_vma fuel stack_filled q v ≡ some s2) (sym at) ret)

  pub add_stack-Added :
      (s' : VmState) × (add_stack mmu fuel s tsk ≡ some s')
      × Added s m v vs left (stack_area (s.tasks.saved_rsp tsk)) s'
  add_stack-Added =
      let (next, head, ret, areas') =
        append_vma_lem fuel stack_filled m v vs
          (Chain-update s.vm_next v 0 (s.mmap m) vs out areas.0, areas.1) ne out
          (update_self s.vm_next v 0) enough in
      let rsp : ℕ = s.tasks.saved_rsp tsk in
      let first : ℕ = u64 (rsp + 2 ^ 64 - 4096) in
      (
        linked stack_filled next head m v,
        add_stack_steps (linked stack_filled next head m v) ret,
        record {
          machine = refl;
          areas = areas';
          says =
              says-snoc s (linked stack_filled next head m v) v vs (stack_area rsp)
                (λ u apart.
                  rw
                    (
                      update_ne s.vm_start v u first apart,
                      update_ne s.vm_end v u rsp apart,
                      update_ne s.vm_flags v u (pf_r + pf_w) apart,
                    )
                    refl)
                (rw
                  (
                    update_self s.vm_start v first,
                    update_self s.vm_end v rsp,
                    update_self s.vm_flags v (pf_r + pf_w),
                  )
                  refl)
                out;
          mm = refl;
          tasks = refl;
        },
      )

pub Fresh-split :
    (vs ws : List ℕ) (x : ℕ)
    → Fresh vs (ws ++ (x ∷ []))
    → Fresh vs ws × (x ≢ 0) × NotIn x (vs ++ ws)
Fresh-split vs [] x (ne, out, fresh) = (tt, ne, rw (append-nil vs) out)
Fresh-split vs (w ∷ ws) x (ne, out, fresh) =
    let (front, xne, xout) = Fresh-split (vs ++ (w ∷ [])) ws x fresh in
    ((ne, out, front), xne, rw append_assoc at xout)
