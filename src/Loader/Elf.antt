-- ===== src/Loader/Elf.antt =====
-- `load_elf` of sys/tarfs.c as a whole.
use cse508_operating_system.Prelude.{
  ℕ, ◌+◌, ◌≤◌, ◌≡◌, ◌≢◌, refl, ap, ◌∙◌, some, List, [], ◌∷◌, ◌++◌, map, arith, length, false,
  ℕ_discrete, ◌⊎◌, inl, inr, ◌==◌, update, update_self, u64, ◌>>=◌,
}
use cse508_operating_system.Tasks.{Tasks, init_process, stack_at}
use cse508_operating_system.Text.{Bytes}
use cse508_operating_system.Tarfs.{header_size, read_tarfile}
use cse508_operating_system.PageTables.{Machine}
use cse508_operating_system.Paging.{Mmu, kmalloc}
use cse508_operating_system.Loader.{
  VmState, task_size, mm_size, vma_size, kmalloc_address, e_entry, e_phoff, e_phnum, load_loop,
  add_stack, load_at, load_elf,
}
use cse508_operating_system.Loader.Areas.{HasAreas}
use cse508_operating_system.Loader.Append.{Area, area_of}
use cse508_operating_system.Loader.Segments.{segment_area}
use cse508_operating_system.Loader.Load.{load_headers, Fresh, Gives, load_loop-Loaded}
use cse508_operating_system.Loader.Stack.{stack_area, add_stack-Added, Fresh-split}

-- What `load_elf` leaves: the task `tsk` with the `mm_struct` at `m`, whose areas are those of the
-- PT_LOAD segments, in the order of the program headers, and that of the stack; the entry, the first
-- stack frame and the stack pointer of the task are as in `init_process`.
pub record IsLoaded (s : VmState) (bytes : Bytes) (header tsk m : ℕ) (ws : List ℕ) (stk : ℕ)
    (left : Machine) (s' : VmState) : Type 0 where
  pub machine : s'.machine ≡ left
  pub mm : s'.mm tsk ≡ m
  pub tasks : s'.tasks ≡ init_process s.tasks tsk (e_entry bytes (header + header_size))
  pub areas : HasAreas s' m (ws ++ (stk ∷ []))
  pub says :
      map (area_of s') (ws ++ (stk ∷ []))
      ≡ map (segment_area bytes) (
          load_headers
            (e_phnum bytes (header + header_size))
            bytes
            (u64 (header + header_size + e_phoff bytes (header + header_size))))
        ++ (stack_area (stack_at tsk 45) ∷ [])

-- The state before the loop over the program headers.
abbrev started : VmState → (bytes : Bytes) (header tsk m : ℕ) (left : Machine) → VmState
started s bytes header tsk m left = record s {
  machine = left;
  tasks = init_process s.tasks tsk (e_entry bytes (header + header_size));
  mm = update s.mm tsk m;
  mmap = update s.mmap m 0;
}

init_process-saved_rsp :
    (t : Tasks) (proc func : ℕ) → (init_process t proc func).saved_rsp proc ≡ stack_at proc 45
unfolding init_process
init_process-saved_rsp t proc func = update_self t.saved_rsp proc (stack_at proc 45)

load_at_steps :
    (mmu : Mmu) (fuel : ℕ) (s s4 s5 : VmState) (bytes : Bytes) (header tsk m : ℕ) (m1 m2 : Machine)
    → kmalloc mmu fuel s.machine task_size ≡ some (m1, tsk)
    → kmalloc mmu fuel m1 mm_size ≡ some (m2, m)
    → load_loop mmu
        (e_phnum bytes (header + header_size))
        fuel
        (started s bytes header tsk m m2)
        bytes
        (u64 (header + header_size + e_phoff bytes (header + header_size)))
        tsk
      ≡ some s4
    → add_stack mmu fuel s4 tsk ≡ some s5
    → load_at mmu fuel s bytes header ≡ some (s5, tsk)
unfolding load_at kmalloc_address
load_at_steps mmu fuel s s4 s5 bytes header tsk m m1 m2 task mm loop stack =
    rw (task, mm, loop, stack, ◌>>=◌) refl

load_at-IsLoaded :
    (mmu : Mmu) (fuel : ℕ) (s : VmState) (bytes : Bytes) (header tsk m stk : ℕ) (ws : List ℕ)
    (m1 m2 m3 left : Machine)
    → kmalloc mmu fuel s.machine task_size ≡ some (m1, tsk)
    → kmalloc mmu fuel m1 mm_size ≡ some (m2, m)
    → Gives mmu fuel m2 ws m3
    → kmalloc mmu fuel m3 vma_size ≡ some (left, stk)
    → length ws
      ≡ length (
          load_headers
            (e_phnum bytes (header + header_size))
            bytes
            (u64 (header + header_size + e_phoff bytes (header + header_size))))
    → m ≢ 0
    → Fresh [] (ws ++ (stk ∷ []))
    → length ws ≤ fuel
    → (s' : VmState) × (load_at mmu fuel s bytes header ≡ some (s', tsk))
      × IsLoaded s bytes header tsk m ws stk left s'
load_at-IsLoaded mmu fuel s bytes header tsk m stk ws m1 m2 m3 left task mm areas stack_call count
      live fresh enough =
    let ehdr : ℕ = header + header_size in
    let phdr : ℕ = u64 (ehdr + e_phoff bytes ehdr) in
    let s3 : VmState = started s bytes header tsk m m2 in
    let (news, ne, out) = Fresh-split [] ws stk fresh in
    let (s4, loop, l) =
      load_loop-Loaded mmu fuel bytes tsk m live (e_phnum bytes ehdr) s3 phdr [] ws m3 areas count
        (update_self s.mm tsk m) (update_self s.mmap m 0, tt) news (omega arith) in
    let at : s4.mm tsk ≡ m = ap (λ (f : ℕ → ℕ). f tsk) l.mm ∙ update_self s.mm tsk m in
    let (s5, stack, a) =
      add_stack-Added mmu fuel s4 tsk m stk ws left
        (ap (λ (x : Machine). kmalloc mmu fuel x vma_size) l.machine ∙ stack_call) at l.areas ne out
        enough in
    let rsp : s4.tasks.saved_rsp tsk ≡ stack_at tsk 45 =
      ap (λ (t : Tasks). t.saved_rsp tsk) l.tasks
      ∙ init_process-saved_rsp s.tasks tsk (e_entry bytes ehdr) in
    (
      s5,
      load_at_steps mmu fuel s s4 s5 bytes header tsk m m1 m2 task mm loop stack,
      record {
        machine = a.machine;
        mm = ap (λ (f : ℕ → ℕ). f tsk) a.mm ∙ at;
        tasks = a.tasks ∙ l.tasks;
        areas = a.areas;
        says =
            a.says
            ∙ ap (λ (x : List Area). x ++ (stack_area (s4.tasks.saved_rsp tsk) ∷ [])) l.says
            ∙ rw rsp refl;
      },
    )

pub load_elf-IsLoaded :
    (mmu : Mmu) (rounds fuel : ℕ) (s : VmState) (bytes : Bytes)
    (filename archive_start archive_end header tsk m stk : ℕ) (ws : List ℕ)
    (m1 m2 m3 left : Machine)
    → read_tarfile rounds fuel bytes filename archive_start archive_end ≡ some header
    → kmalloc mmu fuel s.machine task_size ≡ some (m1, tsk)
    → kmalloc mmu fuel m1 mm_size ≡ some (m2, m)
    → Gives mmu fuel m2 ws m3
    → kmalloc mmu fuel m3 vma_size ≡ some (left, stk)
    → length ws
      ≡ length (
          load_headers
            (e_phnum bytes (header + header_size))
            bytes
            (u64 (header + header_size + e_phoff bytes (header + header_size))))
    → m ≢ 0
    → Fresh [] (ws ++ (stk ∷ []))
    → length ws ≤ fuel
    → ((header ≡ 0)
        × (load_elf mmu rounds fuel s bytes filename archive_start archive_end ≡ some (s, 0)))
      ⊎ ((s' : VmState) × (load_elf mmu rounds fuel s bytes filename archive_start archive_end
            ≡ some (s', tsk))
          × IsLoaded s bytes header tsk m ws stk left s')
unfolding load_elf
load_elf-IsLoaded mmu rounds fuel s bytes filename archive_start archive_end header tsk m stk ws m1
      m2 m3 left found task mm areas stack_call count live fresh enough =
    elim (ℕ_discrete header 0) [
      | yes null ↦ inl (null, rw (found, null, ◌>>=◌) refl)
      | no ne ↦
          let (s', ret, l) =
            load_at-IsLoaded mmu fuel s bytes header tsk m stk ws m1 m2 m3 left task mm areas
              stack_call count live fresh enough in
          let there : (header == 0) ≡ false = ground (arith, ne) in
          inr (s', rw (found, there, ◌>>=◌) ret, l)
    ]
