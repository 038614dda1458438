-- ===== src/Boot/Start.antt =====
-- The rest of `start` of sys/main.c: the page tables, the timer, the program in the archive and the
-- processes. What is printed is not modelled. `cpu` is the processor's translation under each value
-- of CR3, `kernmem` the address that the linker script gives the kernel, `func1` the address of the
-- first task's function, and `filename` that of "bin/hello".
use cse508_operating_system.Prelude.{ℕ, ◌+◌, ◌-◌, ◌*◌, ◌^◌, Option, some, List, u64, ◌>>=◌}
use cse508_operating_system.Text.{Bytes}
use cse508_operating_system.PageTables.{Machine, setup_page_tables}
use cse508_operating_system.Paging.{Mmu}
use cse508_operating_system.Tasks.{Frame}
use cse508_operating_system.Loader.{VmState, load_elf}
use cse508_operating_system.Userproc.{setup_processes}
use cse508_operating_system.Pic.{Write}
use cse508_operating_system.Gdt.{Segments, SysSegment, reload_gdt, setup_tss}
use cse508_operating_system.Idt.{Idt, reload_idt}
use cse508_operating_system.Timer.{set_timer_phase}
use cse508_operating_system.Boot.{setup_memory}

-- Up to `setup_page_tables`: the machine, and the table that CR3 gets. `physfree` is `kernelfree` by
-- then.
unfoldable pub start_memory :
    (fuel : ℕ) (words : ℕ → ℕ) (modulep : ℕ) (memory machine_words : ℕ → ℕ)
    (kernmem physbase physfree : ℕ)
    → Option (Machine × ℕ)
start_memory fuel words modulep memory machine_words kernmem physbase physfree = do
  s ← setup_memory fuel words modulep memory physbase physfree
  setup_page_tables fuel (record { words = machine_words; pmap = s }) kernmem physbase s.kernelfree

-- The state when the first task is switched to, what the ports got, and the frame that
-- `first_switch` goes on with. The task of the first `load_elf` is only printed.
unfoldable pub start :
    (cpu : (cr3 : ℕ) → Mmu) (rounds fuel : ℕ)
    → VmState
    → (words : ℕ → ℕ) (modulep : ℕ) (memory : ℕ → ℕ) (kernmem physbase physfree : ℕ)
    → (archive : Bytes) (func1 filename archive_start archive_end : ℕ)
    → Option (VmState × List Write × Frame)
start cpu rounds fuel s words modulep memory kernmem physbase physfree archive func1 filename
      archive_start archive_end =
    do
      (machine', pml4) ←
          start_memory fuel words modulep memory s.machine.words kernmem physbase physfree
      (s1, elf_struct) ←
          load_elf (cpu pml4) rounds fuel (record s { machine = machine' }) archive filename
            archive_start archive_end
      (s', frame) ←
          setup_processes (cpu pml4) rounds fuel s1 archive func1 filename archive_start archive_end
      some (s', set_timer_phase, frame)

-- The addresses of the tables and of the assembly stubs.
pub record Addresses : Type 0 where
  pub gdt_at : ℕ
  pub tss_at : ℕ
  pub idt_at : ℕ
  pub isr0 : ℕ
  pub isr128 : ℕ
  pub irq0 : ℕ
  pub irq1 : ℕ

-- What the processor has been told before `start` runs.
pub record LoadedTables : Type 0 where
  pub segments : Segments
  pub idt : Idt
  pub tss : SysSegment
  pub writes : List Write

unfoldable pub load_tables : (inb : ℕ → ℕ) → Addresses → Idt → SysSegment → LoadedTables
load_tables inb at idt tss =
    let loaded : Idt × List Write =
      reload_idt inb at.isr0 at.isr128 at.irq0 at.irq1 at.idt_at idt in
    record {
      segments = reload_gdt at.gdt_at;
      idt = loaded.0;
      tss = setup_tss tss at.tss_at;
      writes = loaded.1;
    }

-- `boot`, up to its endless loop. `loader_stack` gives the 32-bit words that the loader left on its
-- stack, and `word_at` those in memory; they are read from `modulep` on.
unfoldable pub boot :
    (cpu : (cr3 : ℕ) → Mmu) (rounds fuel : ℕ) (inb : ℕ → ℕ)
    → Addresses
    → Idt
    → SysSegment
    → VmState
    → (word_at loader_stack memory : ℕ → ℕ) (kernmem physbase : ℕ)
    → (archive : Bytes) (func1 filename archive_start archive_end : ℕ)
    → Option (LoadedTables × VmState × List Write × Frame)
boot cpu rounds fuel inb at idt tss s word_at loader_stack memory kernmem physbase archive func1
      filename archive_start archive_end =
    do
      let modulep : ℕ = u64 (loader_stack 3 + kernmem + 2 ^ 64 - physbase)
      (s', writes, frame) ←
          start cpu rounds fuel s (λ i. word_at (u64 (modulep + 4 * i))) 0 memory kernmem physbase
            (loader_stack 4) archive func1 filename archive_start archive_end
      some (load_tables inb at idt tss, s', writes, frame)
