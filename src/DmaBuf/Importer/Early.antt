-- ===== src/DmaBuf/Importer/Early.antt =====
-- The importers of the earlier samples: dma-buf/02/importer-kmap.c, 03/importer-sg.c,
-- 06/importer-fd.c and 07/importer-sync.c. Their tests repeat those of dma-buf/08 in part.
use sample_code.Base.{none, some, if◌then◌else◌, ne_zero}
use sample_code.Effect.{Cmd, pure, ◌>>=◌, ◌>>◌, emit}
use sample_code.Posix.{DeviceFile}
use sample_code.Posix.Device.{FileOperations, MiscDevice}
use sample_code.Kernel.{
  Kernel, Ptr, Ret, val, err, einval, efault, is_null, is_err, ptr_err, from_device, Event,
  dma_buf_get, copy_from_user, misc_register,
}
use sample_code.DmaBuf.Importer.{importer_test1, importer_test2}

module _ (k : Kernel) where
  -- dma-buf/02
  unfoldable pub importer_test_kmap : Ptr → Cmd Event Ret
  importer_test_kmap dmabuf = if is_null dmabuf then pure (err einval) else importer_test1 k dmabuf

  -- dma-buf/03
  unfoldable pub importer_test_sg : Ptr → Cmd Event Ret
  importer_test_sg dmabuf = importer_test2 k dmabuf

  -- dma-buf/06: the test is that of the CPU access alone. The `int` at `arg` is the argument `fd`.
  unfoldable pub importer_ioctl_fd : Ret → Cmd Event Ret
  importer_ioctl_fd fd = do
    missing ← copy_from_user k
    if ne_zero missing then pure (err efault) else do
      dmabuf ← dma_buf_get k fd
      if is_err dmabuf
          then pure (ptr_err dmabuf)
          else do importer_test1 k dmabuf; emit (Event.dma_buf_put dmabuf); pure (val 0)

  -- dma-buf/07
  unfoldable pub importer_test_sync : Ptr → Cmd Event Ret
  importer_test_sync dmabuf = if is_null dmabuf then pure (err einval) else do
    emit (Event.dma_buf_begin_cpu_access dmabuf from_device)
    importer_test1 k dmabuf
    emit (Event.dma_buf_end_cpu_access dmabuf from_device)
    pure (val 0)

  -- `dmabuf_exported` is the exporter's, with which the modules of 02, 03 and 07 are linked.
  unfoldable pub importer_init_kmap : Ptr → Cmd Event Ret
  unfolding importer_test_kmap
  importer_init_kmap dmabuf_exported = importer_test_kmap dmabuf_exported

  unfoldable pub importer_init_sg : Ptr → Cmd Event Ret
  unfolding importer_test_sg
  importer_init_sg dmabuf_exported = importer_test_sg dmabuf_exported

  unfoldable pub importer_init_sync : Ptr → Cmd Event Ret
  unfolding importer_test_sync
  importer_init_sync dmabuf_exported = importer_test_sync dmabuf_exported

  unfoldable pub importer_fops_fd : FileOperations (Ret → Cmd Event Ret) (Unit {0})
  unfolding importer_ioctl_fd
  importer_fops_fd = record { unlocked_ioctl = some importer_ioctl_fd; mmap = none }

  unfoldable pub mdev_fd : MiscDevice (Ret → Cmd Event Ret) (Unit {0})
  unfolding importer_fops_fd
  mdev_fd = record { name = DeviceFile.importer; fops = importer_fops_fd }

  unfoldable pub importer_init_fd : Cmd Event Ret
  importer_init_fd = misc_register k

  unfoldable pub importer_exit_fd : Cmd Event (Unit {0})
  importer_exit_fd = emit Event.misc_deregister
