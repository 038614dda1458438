-- ===== src/Userproc/Enqueue.antt =====
-- `add_userproc_to_task_list` of sys/process.c: the program is loaded, its first area is mapped, and
-- its task is put at the end of the list.
use cse508_operating_system.Prelude.{ℕ, ◌+◌, ◌/◌, ◌%◌, ◌^◌, ◌<◌, ◌≡◌, ◌≢◌, List, ◌∷◌, u64}
use cse508_operating_system.Text.{Bytes}
use cse508_operating_system.Tarfs.{header_size}
use cse508_operating_system.Tasks.{Tasks}
use cse508_operating_system.Paging.Blocks.{Blocks}
use cse508_operating_system.Loader.{e_entry, e_phoff, e_phnum, p_vaddr, p_memsz}
use cse508_operating_system.Loader.Load.{load_headers}

-- The PT_LOAD headers of the file at `header`.
abbrev pub headers_of : Bytes → ℕ → List ℕ
headers_of archive header =
    load_headers (e_phnum archive (header + header_size)) archive
      (u64 (header + header_size + e_phoff archive (header + header_size)))

-- A program whose first segment `h` starts at `first`, outside of the recursive slot, and has
-- `size` bytes, less than are left of the page behind the entry, which is `skip` bytes into the
-- segment.
pub record Small (archive : Bytes) (header h : ℕ) (hs : List ℕ) (first size skip : ℕ) : Type 0 where
  pub headers : headers_of archive header ≡ h ∷ hs
  pub start : p_vaddr archive h ≡ first
  pub memory : p_memsz archive h ≡ size
  pub entry : e_entry archive (header + header_size) ≡ first + skip
  pub no_wrap : first + size < 2 ^ 64
  pub one_page : first % 2 ^ 12 + skip + size < 2 ^ 12
  pub plain : first / 2 ^ 39 % 512 ≢ 510
