-- ===== src/Posix.antt =====
-- The system calls of the programs under dma-buf/NN/dmabuf-test/ and of mmap/test.c. They stand
-- outside this repository: each is an answer of an environment, any function of the log, and an
-- event that records the call.
mod Calls
pub mod Held
pub mod Device
pub use Calls.*
use sample_code.Base.{ℕ, Option, none, some, List}
use sample_code.Effect.{Cmd, call}
use sample_code.Kernel.{Ret}

-- `none` is a failure.
pub record Os : Type 0 where
  pub open_file : List Sys → DeviceFile → Option ℕ
  -- The ioctl of an exporter: the descriptor that it stored, if it did.
  pub get_dmabuf : List Sys → ℕ → Option Ret
  -- ION_IOC_ALLOC: the descriptor of a buffer of so many bytes.
  pub ion_alloc : List Sys → ℕ → ℕ → Option Ret
  pub mmap : List Sys → ℕ → Ret → Option ℕ

module _ (os : Os) where
  abbrev pub open_file : DeviceFile → Cmd Sys (Option ℕ)
  open_file f = call (λ l. os.open_file l f) (Sys.open_file f)

  abbrev pub get_dmabuf : ℕ → Cmd Sys (Option Ret)
  get_dmabuf fd = call (λ l. os.get_dmabuf l fd) (Sys.get_dmabuf fd)

  abbrev pub ion_alloc : ℕ → ℕ → Cmd Sys (Option Ret)
  ion_alloc fd len = call (λ l. os.ion_alloc l fd len) (Sys.ion_alloc fd len)

  abbrev pub mmap : ℕ → Ret → Cmd Sys (Option ℕ)
  mmap size fd = call (λ l. os.mmap l size fd) (Sys.mmap size fd)
