-- ===== src/DmaBuf/Programs/Ends.antt =====
-- What the programs under dma-buf/NN/dmabuf-test/ leave open when they end.
use sample_code.Base.{ℕ, ◌≡◌, ◌⊎◌, Option, none, some, List, ◌∷◌}
use sample_code.Effect.{Cmd}
use sample_code.Effect.Spec
use sample_code.Kernel.{Ret, val, err, Errno}
use sample_code.Posix.{Sys, Exit, success, minus_one, minus_errno, Os, mmap}
use sample_code.Posix.Held.{Item, file_ref, sync_ref, mapping_ref, Keeps}
use sample_code.DmaBuf.Programs.Steps.{asked}
use sample_code.DmaBuf.Programs.{mmap_dmabuf, mmap_exporter, share_fd, dmabuf_sync, ion_test}

pub data Program : Type 0 where
  reads_dmabuf reads_exporter shares syncs allocates : Program

unfoldable pub run_program : Os → Program → Cmd Sys Exit
run_program os reads_dmabuf = mmap_dmabuf os
run_program os reads_exporter = mmap_exporter os
run_program os shares = share_fd os
run_program os syncs = dmabuf_sync os
run_program os allocates = ion_test os

-- The ioctl for a buffer was made, and failed or stored a negative descriptor.
abbrev pub None : List (Option Ret) → List Sys → Type 0
None os l = (asked l ≡ none ∷ os) ⊎ ((e : Errno) × (asked l ≡ some (err e) ∷ os))

-- How a program ends, from standard input and `h` open and the answers `os` of the ioctls made
-- before: its exit code, what its ioctl for a buffer answered if it made one, and what is open.
pub data Ends (os : List (Option Ret)) (h : List Item) : Program → Exit → List Sys → Type 0 where
  not_opened : {l : List Sys} (v : Program) → Keeps l (file_ref 0 ∷ h) → Ends os h v minus_one l
  read :
      {l : List Sys} (g a : ℕ)
      → asked l ≡ some (val g) ∷ os
      → Keeps l (mapping_ref a ∷ file_ref 0 ∷ h)
      → Ends os h reads_dmabuf success l
  -- The ioctl failed: the program reads standard input, and closes it.
  read_stdin :
      {l : List Sys} (a : ℕ)
      → asked l ≡ none ∷ os
      → Keeps l (mapping_ref a ∷ h)
      → Ends os h reads_dmabuf success l
  not_mapped :
      {l : List Sys} (g : ℕ)
      → asked l ≡ some (val g) ∷ os
      → Keeps l (file_ref g ∷ file_ref 0 ∷ h)
      → Ends os h reads_dmabuf minus_errno l
  -- Neither standard input nor a negative descriptor can be mapped.
  nothing_mapped :
      {l : List Sys} → None os l → Keeps l (file_ref 0 ∷ h) → Ends os h reads_dmabuf minus_errno l
  exporter_read :
      {l : List Sys} (a : ℕ)
      → asked l ≡ os
      → Keeps l (mapping_ref a ∷ file_ref 0 ∷ h)
      → Ends os h reads_exporter success l
  exporter_not_mapped :
      {l : List Sys} (fd : ℕ)
      → asked l ≡ os
      → Keeps l (file_ref fd ∷ file_ref 0 ∷ h)
      → Ends os h reads_exporter minus_errno l
  shared :
      {l : List Sys} (g : ℕ)
      → asked l ≡ some (val g) ∷ os
      → Keeps l (file_ref g ∷ file_ref 0 ∷ h)
      → Ends os h shares success l
  -- The importer is given standard input, since the ioctl failed, or a negative descriptor.
  other_shared : {l : List Sys} → None os l → Keeps l (file_ref 0 ∷ h) → Ends os h shares success l
  not_shared :
      {l : List Sys} (g : ℕ)
      → asked l ≡ some (val g) ∷ os
      → Keeps l (file_ref g ∷ file_ref 0 ∷ h)
      → Ends os h shares minus_one l
  synced :
      {l : List Sys} (g a : ℕ)
      → asked l ≡ some (val g) ∷ os
      → Keeps l (mapping_ref a ∷ file_ref g ∷ file_ref 0 ∷ h)
      → Ends os h syncs success l
  -- The ioctl failed.
  stdin_synced :
      {l : List Sys} (a : ℕ)
      → asked l ≡ none ∷ os
      → Keeps l (mapping_ref a ∷ file_ref 0 ∷ h)
      → Ends os h syncs success l
  -- The access was begun and is never ended.
  begun :
      {l : List Sys} (g : ℕ)
      → asked l ≡ some (val g) ∷ os
      → Keeps l (sync_ref g ∷ file_ref g ∷ file_ref 0 ∷ h)
      → Ends os h syncs minus_errno l
  stdin_begun :
      {l : List Sys}
      → asked l ≡ none ∷ os
      → Keeps l (sync_ref 0 ∷ file_ref 0 ∷ h)
      → Ends os h syncs minus_errno l
  -- A negative descriptor cannot be mapped.
  not_begun :
      {l : List Sys} (e : Errno)
      → asked l ≡ some (err e) ∷ os
      → Keeps l (file_ref 0 ∷ h)
      → Ends os h syncs minus_errno l
  allocated :
      {l : List Sys} (g : ℕ)
      → asked l ≡ some (val g) ∷ os
      → Keeps l (file_ref g ∷ file_ref 0 ∷ h)
      → Ends os h allocates success l
  -- The ioctl told of no failure, but stored a negative descriptor.
  not_allocated :
      {l : List Sys} (e : Errno)
      → asked l ≡ some (err e) ∷ os
      → Keeps l (file_ref 0 ∷ h)
      → Ends os h allocates success l

-- `mmap` refuses a negative descriptor.
abbrev pub Refuses : Os → Type 0
Refuses os = (l : List Sys) (size : ℕ) (e : Errno) → os.mmap l size (err e) ≡ none
