-- ===== src/DmaBuf/Programs/Tests.antt =====
-- The theorem about the dma-buf test programs at a concrete environment.
use sample_code.Base.{◌+◌, none, some, List, [], ◌∷◌, length}
use sample_code.Kernel.{val}
use sample_code.Posix.{Sys, exporter, Os}
use sample_code.DmaBuf.Programs.Ends.{Ends}

-- Nothing can be mapped.
abbrev unmapped : Os
unmapped = record {
  open_file = λ l f. some (2 + length l);
  get_dmabuf = λ l fd. some (val (2 + length l));
  ion_alloc = λ l fd len. some (val (2 + length l));
  mmap = λ l size fd. none;
}

-- The log of a process with standard input.
abbrev stdin : List Sys
stdin = Sys.open_file exporter (some 0) ∷ []
