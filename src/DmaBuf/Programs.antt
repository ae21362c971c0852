-- ===== src/DmaBuf/Programs.antt =====
-- The programs under dma-buf/NN/dmabuf-test/. What they print is left out.
mod Steps
pub mod Ends
mod Tests
use sample_code.Base.{ℕ, ◌*◌, Option, none, some}
use sample_code.Effect.{Cmd, pure, ◌>>=◌, ◌>>◌, emit}
use sample_code.Kernel.{Ret, val}
use sample_code.Posix.{
  Sys, exporter, importer, ion, Exit, success, minus_one, minus_errno, Os, open_file, get_dmabuf,
  ion_alloc, mmap,
}

-- `dmabuf_fd` after the ioctl: it starts as 0, and a failure leaves it so.
abbrev pub stored_fd : Option Ret → Ret
stored_fd none = val 0
stored_fd (some g) = g

module _ (os : Os) where
  -- `ioctl(fd, 0, &dmabuf_fd); close(fd);`
  unfoldable pub obtain_dmabuf : ℕ → Cmd Sys Ret
  obtain_dmabuf fd = do
    answer ← get_dmabuf os fd
    emit (Sys.close (val fd))
    pure (stored_fd answer)

  -- dma-buf/04/dmabuf-test/mmap_dmabuf.c, from `mmap` on.
  unfoldable pub read_and_close : Ret → Option ℕ → Cmd Sys Exit
  read_and_close dmabuf_fd none = pure minus_errno
  read_and_close dmabuf_fd (some str) = do
    emit (Sys.read_text str)
    emit (Sys.close dmabuf_fd)
    pure success

  unfoldable pub mmap_dmabuf : Cmd Sys Exit
  unfolding obtain_dmabuf read_and_close
  mmap_dmabuf = do
    opened ← open_file os exporter
    elim opened [
      | none ↦ pure minus_one
      | some fd ↦ do
        dmabuf_fd ← obtain_dmabuf fd
        str ← mmap os 4096 dmabuf_fd
        read_and_close dmabuf_fd str
    ]

  -- dma-buf/05/dmabuf-test/mmap_exporter.c
  unfoldable pub mmap_exporter : Cmd Sys Exit
  unfolding read_and_close
  mmap_exporter = do
    opened ← open_file os exporter
    elim opened [
      | none ↦ pure minus_one
      | some fd ↦ do str ← mmap os 4096 (val fd); read_and_close (val fd) str
    ]

  -- dma-buf/06/dmabuf-test/share_fd.c, from the second `open` on.
  unfoldable pub hand_over : Ret → Option ℕ → Cmd Sys Exit
  hand_over dmabuf_fd none = pure minus_one
  hand_over dmabuf_fd (some fd) = do
    emit (Sys.import_dmabuf fd dmabuf_fd)
    emit (Sys.close (val fd))
    pure success

  -- dma-buf/06 and 08/dmabuf-test/share_fd.c
  unfoldable pub share_fd : Cmd Sys Exit
  unfolding obtain_dmabuf hand_over
  share_fd = do
    opened ← open_file os exporter
    elim opened [
      | none ↦ pure minus_one
      | some fd ↦ do
        dmabuf_fd ← obtain_dmabuf fd
        opened' ← open_file os importer
        hand_over dmabuf_fd opened'
    ]

  -- dma-buf/07/dmabuf-test/dmabuf_sync.c, from `mmap` on.
  unfoldable pub read_and_end : Ret → Option ℕ → Cmd Sys Exit
  read_and_end dmabuf_fd none = pure minus_errno
  read_and_end dmabuf_fd (some str) = do
    emit (Sys.read_text str)
    emit (Sys.sync_end dmabuf_fd)
    pure success

  -- dma-buf/07 and 08/dmabuf-test/dmabuf_sync.c
  unfoldable pub dmabuf_sync : Cmd Sys Exit
  unfolding obtain_dmabuf read_and_end
  dmabuf_sync = do
    opened ← open_file os exporter
    elim opened [
      | none ↦ pure minus_one
      | some fd ↦ do
        dmabuf_fd ← obtain_dmabuf fd
        emit (Sys.sync_start dmabuf_fd)
        str ← mmap os 4096 dmabuf_fd
        read_and_end dmabuf_fd str
    ]

  -- dma-buf/09/dmabuf-test/ion_test.c
  unfoldable pub ion_test : Cmd Sys Exit
  ion_test = do
    opened ← open_file os ion
    elim opened [
      | none ↦ pure minus_one
      | some fd ↦ do
        answer ← ion_alloc os fd (3 * 4096)
        emit (Sys.close (val fd))
        elim answer [ none ↦ pure minus_one | some g ↦ pure success ]
    ]
