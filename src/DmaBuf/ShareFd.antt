-- ===== src/DmaBuf/ShareFd.antt =====
-- dma-buf/06/exporter-fd.c: a zeroed page whose buffer an importer finds by a descriptor.
use sample_code.Base.{none, some, none, some}
use sample_code.Effect.{Cmd, emit}
use sample_code.Posix.{DeviceFile}
use sample_code.Posix.Device.{FileOperations, MiscDevice}
use sample_code.Kernel.{Kernel, Ptr, Ret, Event}
use sample_code.DmaBuf.Core.{DmaBufOps}
use sample_code.DmaBuf.Exported.{
  alloc_zeroed, init_misc, share_fd, free_and_clear, map_nothing, unmap_nothing, kmap_block,
  vmap_block, no_mmap,
}

module _ (k : Kernel) where
  unfoldable pub exp_dmabuf_ops : DmaBufOps Ptr
  exp_dmabuf_ops = record {
    attach = none;
    detach = none;
    map_dma_buf = map_nothing;
    unmap_dma_buf = unmap_nothing;
    release = free_and_clear;
    kmap = kmap_block;
    kunmap = none;
    kmap_atomic = kmap_block;
    kunmap_atomic = none;
    mmap = no_mmap;
    vmap = some vmap_block;
    vunmap = none;
    begin_cpu_access = none;
    end_cpu_access = none;
  }

  unfoldable pub exporter_alloc_page : Cmd Event Ptr
  unfolding alloc_zeroed
  exporter_alloc_page = alloc_zeroed k

  unfoldable pub exporter_ioctl : Ptr → Cmd Event Ret
  unfolding share_fd
  exporter_ioctl = share_fd k

  unfoldable pub exporter_fops : FileOperations (Ptr → Cmd Event Ret) (Unit {0})
  unfolding exporter_ioctl
  exporter_fops = record { unlocked_ioctl = some exporter_ioctl; mmap = none }

  unfoldable pub mdev : MiscDevice (Ptr → Cmd Event Ret) (Unit {0})
  unfolding exporter_fops
  mdev = record { name = DeviceFile.exporter; fops = exporter_fops }

  unfoldable pub exporter_init : Cmd Event (Ret × Ptr)
  unfolding init_misc
  exporter_init = init_misc k exporter_alloc_page

  unfoldable pub exporter_exit : Cmd Event (Unit {0})
  exporter_exit = emit Event.misc_deregister
