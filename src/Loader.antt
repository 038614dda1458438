-- ===== src/Loader.antt =====
-- The program loader: sys/mm.c, and `populateTask` and `load_elf` of sys/tarfs.c.
-- A `struct vm_area_struct`, `mm_struct` or `task_struct` is known by its address, and its fields are
-- functions of it. `machine` is the memory and the bitmap that `kmalloc` takes pages from. The ELF
-- file is read from the bytes of the archive.
pub mod Areas
pub mod Append
pub mod Segments
pub mod Load
pub mod Stack
pub mod Elf
pub mod Blocks
pub mod Sample
mod Tests
use cse508_operating_system.Prelude.{
  ℕ, zero, suc, ◌+◌, ◌-◌, ◌*◌, ◌^◌, Option, none, some, List, [], ◌∷◌, ◌==◌, if◌then◌else◌, update,
  u64, ltb, leb, ◌&&◌, ◌>>=◌,
}
use cse508_operating_system.Text.{Bytes}
use cse508_operating_system.Tarfs.{header_size, read_tarfile}
use cse508_operating_system.PageTables.{Machine}
use cse508_operating_system.Paging.{Mmu, kmalloc}
use cse508_operating_system.Tasks.{Tasks, init_process, last_task}

-- PT_LOAD
abbrev pub pt_load : ℕ
pt_load = 1

-- PF_R, PF_W, PF_X
abbrev pub pf_r : ℕ
pf_r = 4

abbrev pub pf_w : ℕ
pf_w = 2

abbrev pub pf_x : ℕ
pf_x = 1

-- The fields of the areas, of the `mm_struct`s and of the tasks.
pub record VmState : Type 0 where
  pub machine : Machine
  pub vm_mm : ℕ → ℕ
  pub vm_start : ℕ → ℕ
  pub vm_end : ℕ → ℕ
  pub vm_next : ℕ → ℕ
  pub vm_flags : ℕ → ℕ
  pub vm_pgoff : ℕ → ℕ
  pub mmap : ℕ → ℕ
  pub start_code : ℕ → ℕ
  pub end_code : ℕ → ℕ
  pub start_data : ℕ → ℕ
  pub end_data : ℕ → ℕ
  pub mm : ℕ → ℕ
  pub tasks : Tasks

-- sizeof(struct task_struct), sizeof(struct mm_struct), sizeof(struct vm_area_struct)
abbrev pub task_size : ℕ
task_size = 24 + 8 * 4096 + 56

abbrev pub mm_size : ℕ
mm_size = 80

abbrev pub vma_size : ℕ
vma_size = 56

-- A number of `n` bytes, the lowest first.
unfoldable pub load : ℕ → Bytes → ℕ → ℕ
load zero bytes a = 0
load (suc n) bytes a = bytes a + 256 * load n bytes (a + 1)

-- The fields of `struct elf64_eheader` that are read, at their offsets.
unfoldable pub e_entry : Bytes → ℕ → ℕ
e_entry bytes ehdr = load 8 bytes (ehdr + 24)

unfoldable pub e_phoff : Bytes → ℕ → ℕ
e_phoff bytes ehdr = load 8 bytes (ehdr + 32)

unfoldable pub e_phnum : Bytes → ℕ → ℕ
e_phnum bytes ehdr = load 2 bytes (ehdr + 56)

-- sizeof(struct elf64_pheader)
abbrev pub phdr_size : ℕ
phdr_size = 56

-- The fields of `struct elf64_pheader` that are read, at their offsets.
unfoldable pub p_type : Bytes → ℕ → ℕ
p_type bytes phdr = load 4 bytes phdr

unfoldable pub p_flags : Bytes → ℕ → ℕ
p_flags bytes phdr = load 4 bytes (phdr + 4)

unfoldable pub p_offset : Bytes → ℕ → ℕ
p_offset bytes phdr = load 8 bytes (phdr + 8)

unfoldable pub p_vaddr : Bytes → ℕ → ℕ
p_vaddr bytes phdr = load 8 bytes (phdr + 16)

unfoldable pub p_memsz : Bytes → ℕ → ℕ
p_memsz bytes phdr = load 8 bytes (phdr + 40)

-- The loop of `find_vma`; 0 is NULL, and no result is a list that is longer than the fuel.
unfoldable pub find_loop : ℕ → VmState → (curr addr : ℕ) → Option ℕ
find_loop zero s curr addr = none
find_loop (suc fuel) s curr addr =
    let rest = find_loop fuel s (s.vm_next curr) addr in
    let next = if ltb addr (s.vm_end curr) && leb (s.vm_start curr) addr then some curr else rest in
    if curr == 0 then some 0 else next

unfoldable pub find_vma : ℕ → VmState → (mm addr : ℕ) → Option ℕ
unfolding find_loop
find_vma fuel s mm addr = if mm == 0 then some 0 else find_loop fuel s (s.mmap mm) addr

-- What `populateTask` and `load_elf` do to put an area at the end of the list, and set its `vm_mm`;
-- their loop over `vm_next` is the loop of `last_task`.
unfoldable pub append_vma : ℕ → VmState → (mm vma : ℕ) → Option VmState
append_vma fuel s mm vma = do
  s1 ←
      (if s.mmap mm == 0 then some (record s { mmap = update s.mmap mm vma }) else (do
        curr ← last_task fuel s.vm_next (s.mmap mm)
        some (record s { vm_next = update s.vm_next curr vma })))
  some (record s1 { vm_mm = update s1.vm_mm vma mm })

-- Where code and data lie, by the flags of the segment.
unfoldable pub set_bounds : VmState → Bytes → (mm phdr : ℕ) → VmState
set_bounds s bytes mm phdr =
    let flags = p_flags bytes phdr in
    let first = p_vaddr bytes phdr in
    let behind = u64 (first + p_memsz bytes phdr) in
    if flags == pf_r + pf_x
    then record s {
      start_code = update s.start_code mm first;
      end_code = update s.end_code mm behind;
    }
    else if flags == pf_r + pf_w + pf_x
    then record s {
      start_data = update s.start_data mm first;
      end_data = update s.end_data mm behind;
    }
    else s

module _ (mmu : Mmu) where
  -- `kmalloc` on the machine of the state.
  unfoldable pub kmalloc_address : (fuel : ℕ) → VmState → (size : ℕ) → Option (VmState × ℕ)
  kmalloc_address fuel s size = do
    (machine', a) ← kmalloc mmu fuel s.machine size
    some (record s { machine = machine' }, a)

  unfoldable pub populate_vma : (fuel : ℕ) → VmState → Bytes → (phdr : ℕ) → Option (VmState × ℕ)
  populate_vma fuel s bytes phdr = do
    (s1, vma) ← kmalloc_address fuel s vma_size
    some (
      record s1 {
        vm_start = update s1.vm_start vma (p_vaddr bytes phdr);
        vm_end = update s1.vm_end vma (u64 (p_vaddr bytes phdr + p_memsz bytes phdr));
        vm_flags = update s1.vm_flags vma (p_flags bytes phdr);
        vm_pgoff = update s1.vm_pgoff vma (p_offset bytes phdr);
        vm_next = update s1.vm_next vma 0;
      },
      vma,
    )

  unfoldable pub populate_task : ℕ → VmState → Bytes → (phdr tsk : ℕ) → Option VmState
  populate_task fuel s bytes phdr tsk =
      let added : Option VmState = (do
        (s1, vma) ← populate_vma fuel s bytes phdr
        append_vma fuel (set_bounds s1 bytes (s1.mm tsk) phdr) (s1.mm tsk) vma) in
      if s.mm tsk == 0 then some s else added

  -- The loop of `load_elf` over the program headers, with `n` rounds left.
  unfoldable pub load_loop : (n : ℕ) → ℕ → VmState → Bytes → (phdr tsk : ℕ) → Option VmState
  load_loop zero fuel s bytes phdr tsk = some s
  load_loop (suc n) fuel s bytes phdr tsk = do
    s1 ← (if p_type bytes phdr == pt_load then populate_task fuel s bytes phdr tsk else some s)
    load_loop n fuel s1 bytes (phdr + phdr_size) tsk

  -- The area of the stack: a page below the saved stack pointer.
  unfoldable pub add_stack : ℕ → VmState → (tsk : ℕ) → Option VmState
  add_stack fuel s tsk = do
    (s1, vma) ← kmalloc_address fuel s vma_size
    append_vma fuel
        (record s1 {
          vm_mm = update s1.vm_mm vma (s1.mm tsk);
          vm_start = update s1.vm_start vma (u64 (s1.tasks.saved_rsp tsk + 2 ^ 64 - 4096));
          vm_end = update s1.vm_end vma (s1.tasks.saved_rsp tsk);
          vm_flags = update s1.vm_flags vma (pf_r + pf_w);
          vm_next = update s1.vm_next vma 0;
        })
        (s1.mm tsk) vma

  -- `load_elf` behind `readTarfile`, for the header that it found. The entry, the stack and the stack
  -- pointer of the task are set as `init_process` sets them.
  unfoldable pub load_at : ℕ → VmState → Bytes → (elf_header : ℕ) → Option (VmState × ℕ)
  load_at fuel s bytes elf_header = do
    let ehdr : ℕ = elf_header + header_size
    (s1, tsk) ← kmalloc_address fuel s task_size
    (s2, mm) ← kmalloc_address fuel s1 mm_size
    let s3 : VmState = record s2 {
      tasks = init_process s2.tasks tsk (e_entry bytes ehdr);
      mm = update s2.mm tsk mm;
      mmap = update s2.mmap mm 0;
    }
    s4 ← load_loop (e_phnum bytes ehdr) fuel s3 bytes (u64 (ehdr + e_phoff bytes ehdr)) tsk
    s5 ← add_stack fuel s4 tsk
    some (s5, tsk)

  -- `rounds` and `fuel` bound `readTarfile`, the walks along the list of areas, and the scan of the
  -- bitmap.
  unfoldable pub load_elf :
      (rounds fuel : ℕ)
      → VmState
      → Bytes
      → (filename archive_start archive_end : ℕ) → Option (VmState × ℕ)
  load_elf rounds fuel s bytes filename archive_start archive_end = do
    elf_header ← read_tarfile rounds fuel bytes filename archive_start archive_end
    if elf_header == 0 then some (s, 0) else load_at fuel s bytes elf_header
