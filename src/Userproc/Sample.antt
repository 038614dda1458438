-- ===== src/Userproc/Sample.antt =====
-- The program of the small archive.
use cse508_operating_system.Prelude.{refl, [], arith}
use cse508_operating_system.Loader.{e_entry, e_phnum, e_phoff, p_type, p_vaddr, p_memsz, load}
use cse508_operating_system.Loader.Sample.{archive}
use cse508_operating_system.Userproc.Enqueue.{Small}

pub archive-Small : Small archive 4096 4672 [] 0x4000 100 8
unfolding e_entry e_phnum e_phoff p_type p_vaddr p_memsz load
archive-Small = record {
  headers = refl;
  start = refl;
  memory = refl;
  entry = refl;
  no_wrap = omega arith;
  one_page = omega arith;
  plain = omega arith;
}
