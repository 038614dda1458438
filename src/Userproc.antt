-- ===== src/Userproc.antt =====
-- `CopyCodeData` of sys/tarfs.c, and `add_proc_to_task_list`, `add_userproc_to_task_list` and
-- `setup_processes` of sys/process.c: the loader, the allocators on virtual memory and the task list
-- together. `mmu` is the processor's translation; no result is a page fault, or a scan that has used
-- up the fuel.
pub mod Copy
pub mod Enqueue
pub mod Processes
pub mod Sample
mod Tests
use cse508_operating_system.Prelude.{
  ℕ, zero, suc, ◌+◌, ◌-◌, ◌*◌, ◌/◌, ◌%◌, ◌^◌, Option, none, some, ◌==◌, if◌then◌else◌, update, u32,
  u64, ◌>>=◌,
}
use cse508_operating_system.Text.{Bytes}
use cse508_operating_system.Tasks.{Frame, enqueue_proc, append_task, first_switch}
use cse508_operating_system.Paging.{Mmu, kmalloc_virtual}
use cse508_operating_system.Loader.{VmState, task_size, kmalloc_address, load_elf}

-- A byte of a memory of 64-bit words.
unfoldable pub byte_at : (words : ℕ → ℕ) → ℕ → ℕ
byte_at words a = words (a / 8 * 8) / 256 ^ (a % 8) % 256

unfoldable pub set_byte : (words : ℕ → ℕ) → (a b : ℕ) → ℕ → ℕ
set_byte words a b =
    update words (a / 8 * 8)
      (words (a / 8 * 8) + b * 256 ^ (a % 8) - byte_at words a * 256 ^ (a % 8))

module _ (mmu : Mmu) where
  -- `while (totSize--) *addr++ = *phyStart++`, with the rounds left. What is written may be part of
  -- the tables that the next access goes through.
  unfoldable pub copy_bytes : (n : ℕ) (words : ℕ → ℕ) → (src dst : ℕ) → Option (ℕ → ℕ)
  copy_bytes zero words src dst = some words
  copy_bytes (suc n) words src dst = do
    from ← mmu words src
    to ← mmu words dst
    copy_bytes n (set_byte words to (byte_at words from)) (src + 1) (dst + 1)

  -- The first area only: the loop over the areas ends in a `break`.
  unfoldable pub copy_code_data : ℕ → VmState → (tsk : ℕ) → Option (VmState × ℕ)
  copy_code_data fuel s tsk =
      let vma : ℕ = s.mmap (s.mm tsk) in
      let first : ℕ = s.vm_start vma in
      let behind : ℕ = s.vm_end vma in
      let copied : Option (VmState × ℕ) = (do
        (machine', base) ← kmalloc_virtual mmu fuel s.machine (u64 (behind + 2 ^ 64 - first)) first
        let size : ℕ = u32 (behind + 2 ^ 64 - first)
        words' ← copy_bytes size machine'.words (s.tasks.entry tsk) first
        some (record s { machine = record machine' { words = words' } }, 1)) in
      if vma == 0 then some (s, 0) else copied

  unfoldable pub add_proc_to_task_list : ℕ → VmState → (func : ℕ) → Option VmState
  add_proc_to_task_list fuel s func = do
    (s1, task) ← kmalloc_address mmu fuel s task_size
    tasks' ← enqueue_proc fuel s1.tasks task func
    some (record s1 { tasks = tasks' })

  -- The archive is read at the addresses `archive`; `filename` is the address of "bin/hello".
  unfoldable pub add_userproc_to_task_list :
      (rounds fuel : ℕ)
      → VmState
      → (archive : Bytes) (filename archive_start archive_end : ℕ) → Option VmState
  add_userproc_to_task_list rounds fuel s archive filename archive_start archive_end = do
    (s1, task) ← load_elf mmu rounds fuel s archive filename archive_start archive_end
    (s2, success) ← (if task == 0 then none else copy_code_data fuel s1 task)
    tasks' ← append_task fuel s2.tasks task
    some (record s2 { tasks = tasks' })

  -- `func1` is the address of the function; the frame is what `first_switch` goes on with.
  unfoldable pub setup_processes :
      (rounds fuel : ℕ)
      → VmState
      → (archive : Bytes) (func1 filename archive_start archive_end : ℕ) → Option (VmState × Frame)
  setup_processes rounds fuel s archive func1 filename archive_start archive_end = do
    s1 ← add_proc_to_task_list fuel s func1
    s2 ← add_userproc_to_task_list rounds fuel s1 archive filename archive_start archive_end
    some (s2, first_switch s2.tasks)
