-- ===== src/DmaBuf/Sync.antt =====
-- dma-buf/07/exporter-sync.c: a zeroed page whose CPU accesses are bracketed by cache syncs.
use sample_code.Base.{none, some, none, some}
use sample_code.Effect.{Cmd, pure, ◌>>◌, emit}
use sample_code.Posix.{DeviceFile}
use sample_code.Posix.Device.{FileOperations, MiscDevice}
use sample_code.Kernel.{Kernel, Ptr, Ret, Event, val, Vma, Direction, page_size, remap_pfn_range}
use sample_code.DmaBuf.Core.{DmaBuf, DmaBufOps}
use sample_code.DmaBuf.Exported.{
  alloc_zeroed, init_misc, share_fd, free_and_clear, map_nothing, unmap_nothing, kmap_block,
  vmap_block,
}

module _ (k : Kernel) where
  unfoldable pub exporter_mmap : DmaBuf Ptr → Vma → Cmd Event Ret
  exporter_mmap d vma = remap_pfn_range k vma.vm_start (k.virt_to_pfn d.priv) page_size

  unfoldable pub exporter_begin_cpu_access : DmaBuf Ptr → Direction → Cmd Event Ret
  exporter_begin_cpu_access d dir = do
    emit (Event.dma_sync_single_for_cpu (k.virt_to_phys d.priv) page_size dir)
    pure (val 0)

  unfoldable pub exporter_end_cpu_access : DmaBuf Ptr → Direction → Cmd Event Ret
  exporter_end_cpu_access d dir = do
    emit (Event.dma_sync_single_for_device (k.virt_to_phys d.priv) page_size dir)
    pure (val 0)

  unfoldable pub exp_dmabuf_ops : DmaBufOps Ptr
  exp_dmabuf_ops = record {
    attach = none;
    detach = none;
    map_dma_buf = map_nothing;
    unmap_dma_buf = unmap_nothing;
    release = free_and_clear;
    kmap = kmap_block;
    kunmap = none;
    kmap_atomic = kmap_block;
    kunmap_atomic = none;
    mmap = exporter_mmap;
    vmap = some vmap_block;
    vunmap = none;
    begin_cpu_access = some exporter_begin_cpu_access;
    end_cpu_access = some exporter_end_cpu_access;
  }

  unfoldable pub exporter_alloc_page : Cmd Event Ptr
  unfolding alloc_zeroed
  exporter_alloc_page = alloc_zeroed k

  unfoldable pub exporter_ioctl : Ptr → Cmd Event Ret
  unfolding share_fd
  exporter_ioctl = share_fd k

  unfoldable pub exporter_fops : FileOperations (Ptr → Cmd Event Ret) (Unit {0})
  unfolding exporter_ioctl
  exporter_fops = record { unlocked_ioctl = some exporter_ioctl; mmap = none }

  unfoldable pub mdev : MiscDevice (Ptr → Cmd Event Ret) (Unit {0})
  unfolding exporter_fops
  mdev = record { name = DeviceFile.exporter; fops = exporter_fops }

  unfoldable pub exporter_init : Cmd Event (Ret × Ptr)
  unfolding init_misc
  exporter_init = init_misc k exporter_alloc_page

  unfoldable pub exporter_exit : Cmd Event (Unit {0})
  exporter_exit = emit Event.misc_deregister
