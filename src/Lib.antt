-- ===== src/Lib.antt =====
-- A verification library for the kernel of this repository: the allocators, page tables, task list,
-- program loader, queue, archive reader, console, devices and text helpers of sys/ and include/, as
-- functions that run, with theorems about them.
--
-- How the parts interact. At boot sys/main.c sets up the page bitmap (sys/pmap.c), then the page
-- tables (sys/pagetab.c), whose walk takes fresh pages from the bitmap. With paging on, `kmalloc`
-- maps such pages through the recursive slot of the tables. Kernel tasks (sys/process.c) are
-- allocated with `kmalloc`, are put on a list, and switch by `schedule`. A user program is found in
-- the tar archive that is linked into the kernel (sys/tarfs.c), by string and number helpers
-- (sys/write.c, sys/math.c); its areas are listed, the first is mapped, and its task joins the list.
--
-- Which file models what.
--   Prelude: shared names, Boolean tests, lists, memories as functions, partial results, and lemmas
--     on bits, masks and bytes.
--   Queue: sys/queue.c and include/linux/queue.h. A queue is the record of the C struct; an
--     operation returns the queue and what it prints. Queue/Fifo is the abstract list.
--   Pmap: sys/pmap.c. The bitmap is a function from byte index to byte, since the C code checks no
--     bound on it.
--   PageTables: sys/pagetab.c, `getPT` and `setup_page_tables` on physical memory by 64-bit words.
--     PageTables/Walk is the processor's own walk through the four levels, as a specification.
--     Paging/Setup follows `setup_page_tables` as a whole, and Paging/Startup `kmalloc` behind it.
--   Paging: `mmap` of sys/pagetab.c and `kmalloc_page`, `kmalloc`, `kmalloc_virtual` of sys/pmap.c, with
--     paging on. Each access to a table goes through a virtual address of the recursive slot 510; the
--     processor's translation is a parameter, which the theorems take to be the walk of
--     PageTables/Walk. Paging/Refine sets `mmap` beside `getPT`, Paging/Places gives each table its
--     place in the tree, which tells it from a page of data (Paging/Untouched, Paging/Taken),
--     Paging/Run is about pages that are mapped one after the other, Paging/Loop follows those of one `kmalloc`, Paging/Virtual those of one `kmalloc_virtual`,
--     and Paging/Blocks is about calls of `kmalloc` one after the other.
--   Loader: `find_vma` and `populate_vma` of sys/mm.c, `populateTask` and `load_elf` of sys/tarfs.c, with
--     the `kmalloc` of Paging. The fields of the structs are functions of their addresses, kept apart
--     from the words of memory: they lie in pages that `kmalloc` has mapped, which hold no tables.
--     Loader/Blocks says where the structs of a program stand and what they take.
--   Userproc: `CopyCodeData` of sys/tarfs.c, on the bytes of the words in memory, and
--     `add_proc_to_task_list`, `add_userproc_to_task_list` and `setup_processes` of sys/process.c, where
--     the loader, the allocators on virtual memory and the task list meet.
--     Userproc/Enqueue is about one program, Userproc/Processes about both tasks and the switch.
--   Text: `memcpy`, `memset`, `strlen`, `strcmp`, `atoi`, `octal_decimal`, `pow` and `getSize` of
--     sys/write.c and sys/math.c, over byte memory.
--   Itoa: `itoa` of sys/write.c: Itoa/Digits for its first loop, Itoa/Reverse for its last,
--     Itoa/Render for the whole text.
--   Tarfs: `readTarfile` of sys/tarfs.c, over the bytes of the archive.
--   Boot: `start` of sys/main.c. Boot/FreeMemory follows the bitmap from the boot loader's map on,
--     Boot/Ready the page tables; Boot/Start has the whole sequence, which Boot/Enter follows to the
--     first task.
--   Console: `putchar`, `puts`, `clrscr` and the status line of sys/write.c, over the text memory.
--   Printf: `printf` and `print_cx_cy` of sys/write.c, one loop over what they print with. A variadic
--     argument list is a list of 64-bit numbers. Printf/Pieces says what each conversion shows.
--   Gdt: the table and `setup_tss` of sys/gdt.c. Gdt/Tss reads the descriptor as the processor does.
--   Handlers: `irq_timer` and `irq_kb` of sys/irq.c, `fault_handler` of sys/isr.c.
--   Keyboard: sys/kbc.c and sys/kbc_scancodes.c. Keyboard/Layout is the keyboard as rows of keys,
--     Keyboard/Held says from the history of scan codes which keys are down, Keyboard/Echo is what
--     the handler prints, and Keyboard/Shown what the screen shows then.
--   Timer: sys/timer.c. The twelve formats are told apart by how they write each field; Timer/Tick
--     prints them, and Timer/Line says what the status line shows.
--   Pic: sys/pic.c, as the port writes that an operation makes.
--   Stubs: the assembly of sys/irq.s and sys/isr.s as instructions on registers and the stack.
--     Stubs/Wrapped treats a push and the pop that matches it, Stubs/Return whole stubs.
--   Idt: `idt_set_gate`, `init_idt` and `reload_idt` of sys/idt.c with the gates of sys/isr.c and
--     sys/irq.c; Idt/Vectors sets the vectors of the controllers beside the gates.
--   Tasks: `init_process`, the part of `add_proc_to_task_list` behind `kmalloc`, `schedule` and
--     `first_switch` of sys/process.c; the inline assembly of the two switches is modelled as what it does to the stack
--     pointer, the saved registers and the place of execution.
--
-- Numbers and fuel. A `uint64_t`, an address and a byte are natural numbers, with the wrap-around
-- written out where the code can reach it. An `int` that may be negative is its 32-bit pattern. A loop
-- that the C code does not bound runs on fuel, and `none` is a run that has not ended when the fuel is
-- used up: the scan of the bitmap needs fuel for the distance to a byte other than 255, the walk along
-- the task list or the areas needs the length of the list, a string function the length of the string, `pow`
-- its exponent, the loop of the archive the number of its headers. The theorems prove a result under
-- those bounds.
--
-- Not modelled: the processor's registers beyond the switches, what the devices behind the ports do
-- (the reading back of a mask is a hypothesis), and func1 to func3 of sys/process.c, which only
-- print.
pub mod Stubs
pub mod Userproc
pub mod Gdt
pub mod Handlers
pub mod Printf
pub mod Loader
pub mod Paging
pub mod Boot
pub mod Console
pub mod Keyboard
pub mod Pic
pub mod Idt
pub mod Timer
pub mod Itoa
pub mod Tasks
pub mod Tarfs
pub mod Text
pub mod PageTables
pub mod Pmap
pub mod Queue
pub mod Prelude
