-- ===== src/Posix/Calls.antt =====
-- The system calls, and what a program ends with.
use sample_code.Base.{ℕ, Option}
use sample_code.Kernel.{Ret}

pub data DeviceFile : Type 0 where
  exporter importer ion my_dev : DeviceFile

-- The last argument of a call with a result is its answer; `none` is a failure. A descriptor that
-- a driver stored may be negative.
pub data Sys : Type 0 where
  open_file : DeviceFile → Option ℕ → Sys
  close : Ret → Sys
  get_dmabuf : ℕ → Option Ret → Sys
  -- The ioctl of an importer, with the descriptor that it is given.
  import_dmabuf : ℕ → Ret → Sys
  ion_alloc : ℕ → ℕ → Option Ret → Sys
  sync_start sync_end : Ret → Sys
  -- The size and the descriptor.
  mmap : ℕ → Ret → Option ℕ → Sys
  munmap : ℕ → ℕ → Sys
  -- `strcpy` to an address, and a text read from one.
  write_text read_text : ℕ → Sys

-- The exit code: 0, -1, or -errno.
pub data Exit : Type 0 where
  success minus_one minus_errno : Exit
