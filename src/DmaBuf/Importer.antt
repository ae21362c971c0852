-- ===== src/DmaBuf/Importer.antt =====
-- dma-buf/08/importer-page.c, which reads a shared buffer by CPU and through DMA, and the
-- importers of the earlier samples, whose test functions are parts of its own.
pub mod Dma
pub mod Early
pub mod Ioctl
pub mod Synced
mod Tests
use sample_code.Base.{
  none, some, Option, ℕ, Bool, Option, none, some, List, ◌∷◌, if◌then◌else◌, ne_zero,
}
use sample_code.Effect.{Cmd, pure, ◌>>=◌, ◌>>◌, emit}
use sample_code.Posix.{DeviceFile}
use sample_code.Posix.Device.{FileOperations, MiscDevice}
use sample_code.Kernel.{
  Kernel, Ptr, null, at, Ret, val, err, enomem, einval, efault, is_null, is_err, ptr_err, Direction,
  bidirectional, from_device, Event, kzalloc, dma_buf_get, dma_buf_attach, dma_buf_map_attachment,
  dma_buf_kmap, dma_buf_vmap, copy_from_user, misc_register, sgl_of, sg_dma_address, sg_dma_len,
}

module _ (k : Kernel) where
  -- The texts at the two addresses, which go to the kernel's log, are not modelled.
  unfoldable pub importer_test1 : Ptr → Cmd Event Ret
  importer_test1 dmabuf = do
    vaddr ← dma_buf_kmap k dmabuf 0
    emit (Event.dma_buf_kunmap dmabuf 0 vaddr)
    vaddr' ← dma_buf_vmap k dmabuf
    emit (Event.dma_buf_vunmap dmabuf vaddr')
    pure (val 0)

  -- `importer_test2` behind `dma_buf_attach`, whose result is `attachment`.
  unfoldable pub use_attachment : Ptr → Ptr → Cmd Event Ret
  use_attachment dmabuf attachment = if is_err attachment then pure (ptr_err attachment) else do
    table ← dma_buf_map_attachment k attachment bidirectional
    if is_err table
        then (emit (Event.dma_buf_detach dmabuf attachment) >> pure (ptr_err table))
        else do
          sg ← sgl_of k table
          reg_addr ← sg_dma_address k sg
          reg_size ← sg_dma_len k sg
          emit (Event.dma_buf_unmap_attachment attachment table bidirectional)
          emit (Event.dma_buf_detach dmabuf attachment)
          pure (val 0)

  unfoldable pub importer_test2 : Ptr → Cmd Event Ret
  importer_test2 dmabuf = if is_null dmabuf then pure (err einval) else do
    dev ← kzalloc k k.sizeof_device
    if is_null dev
        then pure (err enomem)
        else do attachment ← dma_buf_attach k dmabuf dev; use_attachment dmabuf attachment

  -- The `int` at `arg` is the argument `fd`.
  unfoldable pub importer_ioctl : Ret → Cmd Event Ret
  importer_ioctl fd = do
    missing ← copy_from_user k
    if ne_zero missing then pure (err efault) else do
      dmabuf ← dma_buf_get k fd
      if is_err dmabuf then pure (ptr_err dmabuf) else do
        importer_test1 dmabuf
        importer_test2 dmabuf
        emit (Event.dma_buf_put dmabuf)
        pure (val 0)

  unfoldable pub importer_fops : FileOperations (Ret → Cmd Event Ret) (Unit {0})
  unfolding importer_ioctl
  importer_fops = record { unlocked_ioctl = some importer_ioctl; mmap = none }

  unfoldable pub mdev : MiscDevice (Ret → Cmd Event Ret) (Unit {0})
  unfolding importer_fops
  mdev = record { name = DeviceFile.importer; fops = importer_fops }

  unfoldable pub importer_init : Cmd Event Ret
  importer_init = misc_register k

  unfoldable pub importer_exit : Cmd Event (Unit {0})
  importer_exit = emit Event.misc_deregister
