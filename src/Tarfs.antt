-- ===== src/Tarfs.antt =====
-- The archive reader of sys/tarfs.c: `readTarfile` over the bytes of the archive. A header is the
-- 512 bytes of `struct posix_header_ustar`, its name at offset 0 and its size at offset 124.
pub mod Find
mod Tests
use cse508_operating_system.Prelude.{
  ℕ, zero, suc, ◌+◌, ◌*◌, ◌/◌, ◌^◌, Bool, Option, none, some, ltb, ◌==◌, ◌&&◌, if◌then◌else◌, ◌>>=◌,
}
use cse508_operating_system.Text.{Bytes, strcmp, atoi, octal_decimal}

-- sizeof(struct posix_header_ustar)
abbrev pub header_size : ℕ
header_size = 512

-- The offset of `size`, behind `name`, `mode`, `uid` and `gid`.
abbrev pub size_offset : ℕ
size_offset = 124

-- `header + 1 + (size_of_file / 513 + 1)`, or `header + 1` unless `size_of_file > 0` as an `int`.
unfoldable pub next_header : (header size_of_file : ℕ) → ℕ
next_header header size_of_file =
    if ltb 0 size_of_file && ltb size_of_file (2 ^ 31)
    then header + header_size * (1 + (size_of_file / 513 + 1))
    else header + header_size

-- The loop of `readTarfile`: the address of the header with the name, or 0 (NULL). `rounds` bounds
-- the headers that are looked at, and `fuel` each string function.
unfoldable pub read_loop : (rounds fuel : ℕ) → Bytes → (file_name header archive_end : ℕ) → Option ℕ
unfolding next_header
read_loop zero fuel mem file_name header archive_end = none
read_loop (suc rounds) fuel mem file_name header archive_end = do
  k ← atoi fuel mem (header + size_offset)
  size_of_file ← octal_decimal fuel k
  differs ← strcmp fuel mem file_name header
  let next : ℕ = next_header header size_of_file
  let rest : Option ℕ = read_loop rounds fuel mem file_name next archive_end
  if differs == 0 then some header else if ltb next archive_end then rest else some 0

unfoldable pub read_tarfile :
    (rounds fuel : ℕ) → Bytes → (file_name archive_start archive_end : ℕ) → Option ℕ
unfolding read_loop
read_tarfile rounds fuel mem file_name archive_start archive_end =
    read_loop rounds fuel mem file_name archive_start archive_end
