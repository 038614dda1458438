-- ===== src/Loader/Segments.antt =====
-- `populateTask` and the loop of `load_elf` of sys/tarfs.c: an area for each PT_LOAD segment.
use cse508_operating_system.Prelude.{
  ℕ, ◌+◌, ◌≤◌, ◌≡◌, ◌≢◌, refl, inl, inr, some, List, arith, length, false, ◌==◌, Bool-cases, update,
  update_self, update_ne, u64, ◌>>=◌,
}
use cse508_operating_system.Tasks.Chain.{NotIn, Chain-update}
use cse508_operating_system.Text.{Bytes}
use cse508_operating_system.PageTables.{Machine}
use cse508_operating_system.Paging.{Mmu, kmalloc}
use cse508_operating_system.Loader.{
  VmState, vma_size, kmalloc_address, p_flags, p_offset, p_vaddr, p_memsz, pf_r, pf_w, pf_x,
  populate_vma, set_bounds, append_vma, populate_task,
}
use cse508_operating_system.Loader.Areas.{HasAreas}
use cse508_operating_system.Loader.Append.{Area, Added, says-snoc, linked, append_vma_lem}

-- The area of a segment.
abbrev pub segment_area : Bytes → ℕ → Area
segment_area bytes phdr = record {
  first = p_vaddr bytes phdr;
  behind = u64 (p_vaddr bytes phdr + p_memsz bytes phdr);
  flags = p_flags bytes phdr;
}

pub kmalloc_address_lem :
    (mmu : Mmu) (fuel : ℕ) (s : VmState) (size v : ℕ) (left : Machine)
    → kmalloc mmu fuel s.machine size ≡ some (left, v)
    → kmalloc_address mmu fuel s size ≡ some (record s { machine = left }, v)
unfolding kmalloc_address
kmalloc_address_lem mmu fuel s size v left e = rw (e, ◌>>=◌) refl

-- `set_bounds` writes the bounds of code and data only.
set_bounds_cases :
    (s : VmState) (bytes : Bytes) (mm phdr : ℕ)
    → (c : ℕ → ℕ) × (d : ℕ → ℕ) × (e : ℕ → ℕ) × (f : ℕ → ℕ) × (set_bounds s bytes mm phdr
        ≡ record s { start_code = c; end_code = d; start_data = e; end_data = f })
unfolding set_bounds
set_bounds_cases s bytes mm phdr =
    let first : ℕ = p_vaddr bytes phdr in
    let behind : ℕ = u64 (first + p_memsz bytes phdr) in
    elim (Bool-cases (p_flags bytes phdr == pf_r + pf_x)) [
      | inl code ↦ (
        update s.start_code mm first,
        update s.end_code mm behind,
        s.start_data,
        s.end_data,
        rw code refl,
      )
      | inr other ↦ elim (Bool-cases (p_flags bytes phdr == pf_r + pf_w + pf_x)) [
        | inl text ↦ (
          s.start_code,
          s.end_code,
          update s.start_data mm first,
          update s.end_data mm behind,
          rw (other, text) refl,
        )
        | inr plain ↦ (s.start_code, s.end_code, s.start_data, s.end_data, rw (other, plain) refl)
      ]
    ]

module _ (mmu : Mmu) (fuel : ℕ) (s : VmState) (bytes : Bytes) (phdr tsk m v : ℕ) (vs : List ℕ)
    (left : Machine) (call : kmalloc mmu fuel s.machine vma_size ≡ some (left, v))
    (at : s.mm tsk ≡ m) (live : m ≢ 0) (areas : HasAreas s m vs) (ne : v ≢ 0) (out : NotIn v vs)
    (enough : length vs ≤ fuel) where
  -- The fields of the new area.
  abbrev filled : VmState
  filled = record s {
    machine = left;
    vm_start = update s.vm_start v (p_vaddr bytes phdr);
    vm_end = update s.vm_end v (u64 (p_vaddr bytes phdr + p_memsz bytes phdr));
    vm_flags = update s.vm_flags v (p_flags bytes phdr);
    vm_pgoff = update s.vm_pgoff v (p_offset bytes phdr);
    vm_next = update s.vm_next v 0;
  }

  populated : populate_vma mmu fuel s bytes phdr ≡ some (filled, v)
  unfolding populate_vma
  populated = rw (kmalloc_address_lem mmu fuel s vma_size v left call, ◌>>=◌) refl

  populate_task_steps :
      (s1 s2 : VmState)
      → set_bounds filled bytes m phdr ≡ s1
      → append_vma fuel s1 m v ≡ some s2
      → populate_task mmu fuel s bytes phdr tsk ≡ some s2
  unfolding populate_task
  populate_task_steps s1 s2 bounds ret =
      let some_mm : (s.mm tsk == 0) ≡ false = rw at (ground (arith, live)) in
      rw (some_mm, populated, ◌>>=◌, at, bounds) ret

  pub populate_task-Added :
      (s' : VmState) × (populate_task mmu fuel s bytes phdr tsk ≡ some s')
      × Added s m v vs left (segment_area bytes phdr) s'
  populate_task-Added =
      let (c, d, e, f, bounds) = set_bounds_cases filled bytes m phdr in
      let s1 : VmState = record (filled) {
        start_code = c;
        end_code = d;
        start_data = e;
        end_data = f;
      } in
      let (next, head, ret, areas') =
        append_vma_lem fuel s1 m v vs
          (Chain-update s.vm_next v 0 (s.mmap m) vs out areas.0, areas.1) ne out
          (update_self s.vm_next v 0) enough in
      (
        linked s1 next head m v,
        populate_task_steps s1 (linked s1 next head m v) bounds ret,
        record {
          machine = refl;
          areas = areas';
          says =
              says-snoc s (linked s1 next head m v) v vs (segment_area bytes phdr)
                (λ u apart.
                  rw
                    (
                      update_ne s.vm_start v u (p_vaddr bytes phdr) apart,
                      update_ne s.vm_end v u (u64 (p_vaddr bytes phdr + p_memsz bytes phdr)) apart,
                      update_ne s.vm_flags v u (p_flags bytes phdr) apart,
                    )
                    refl)
                (rw
                  (
                    update_self s.vm_start v (p_vaddr bytes phdr),
                    update_self s.vm_end v (u64 (p_vaddr bytes phdr + p_memsz bytes phdr)),
                    update_self s.vm_flags v (p_flags bytes phdr),
                  )
                  refl)
                out;
          mm = refl;
          tasks = refl;
        },
      )
