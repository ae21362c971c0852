-- ===== src/DmaBuf/PageExporter.antt =====
-- dma-buf/08/exporter-page.c: one page from the page allocator, given out through every callback.
-- The global `dmabuf_exported` is an argument of the functions that read it, and a result of
-- those that write it.
pub mod Alloc
pub mod Map
pub mod Life
mod Tests
use sample_code.Base.{
  none, some, Option, ℕ, ◌≡◌, Bool, true, Option, none, some, List, [], ◌∷◌, if◌then◌else◌, ne_zero,
}
use sample_code.Effect.{Cmd, pure, ◌>>=◌, ◌>>◌, emit}
use sample_code.Posix.{DeviceFile}
use sample_code.Posix.Device.{FileOperations, MiscDevice}
use sample_code.Kernel.{
  Kernel, Ptr, null, err_ptr, at, Ret, val, err, enomem, efault, is_null, is_err, nonzero,
  to_err_ptr, page_size, ExportInfo, Vma, Direction, fd_answer, Event, kmalloc, alloc_page,
  sg_alloc_table, dma_map_page, vmap, kmap, kmap_atomic, remap_pfn_range, dma_buf_export,
  dma_buf_fd, copy_to_user, misc_register, sgl_of, sg_dma_address,
}
use sample_code.DmaBuf.Core.{Attachment, DmaBuf, DmaBufOps}
use sample_code.DmaBuf.Exported.{share_fd, init_misc}

-- `priv` is the page.
abbrev PageBuf : Type 0
PageBuf = DmaBuf Ptr

unfoldable pub exporter_attach : PageBuf → Attachment → Cmd Event (Ret × Attachment)
exporter_attach d a = pure (val 0, a)

unfoldable pub exporter_detach : PageBuf → Attachment → Cmd Event (Unit {0})
exporter_detach d a = pure tt

abbrev pub page_export_info : Ptr → ExportInfo
page_export_info page = record { size = page_size; cloexec = true; priv = page }

module _ (k : Kernel) where
  unfoldable pub exporter_map_dma_buf : PageBuf → Direction → Cmd Event Ptr
  exporter_map_dma_buf d dir = do
    let page = d.priv
    table ← kmalloc k k.sizeof_sg_table
    if is_null table then pure (err_ptr enomem) else do
      r ← sg_alloc_table k table 1
      if nonzero r then (emit (Event.kfree table) >> pure (to_err_ptr r)) else do
        sg ← sgl_of k table
        emit (Event.sg_set_page sg page page_size 0)
        addr ← dma_map_page k page 0 page_size dir
        emit (Event.set_dma_address sg addr)
        pure table

  unfoldable pub exporter_unmap_dma_buf : PageBuf → Ptr → Direction → Cmd Event (Unit {0})
  exporter_unmap_dma_buf d table dir = do
    sg ← sgl_of k table
    addr ← sg_dma_address k sg
    emit (Event.dma_unmap_page addr page_size dir)
    emit (Event.sg_free_table table)
    emit (Event.kfree table)

  unfoldable pub exporter_release : PageBuf → Cmd Event (Option Ptr)
  exporter_release d = emit (Event.put_page d.priv) >> pure none

  unfoldable pub exporter_vmap : PageBuf → Cmd Event Ptr
  exporter_vmap d = vmap k (d.priv ∷ [])

  unfoldable pub exporter_vunmap : PageBuf → Ptr → Cmd Event (Unit {0})
  exporter_vunmap d vaddr = emit (Event.vunmap vaddr)

  unfoldable pub exporter_kmap_atomic : PageBuf → ℕ → Cmd Event Ptr
  exporter_kmap_atomic d page_num = kmap_atomic k d.priv

  unfoldable pub exporter_kunmap_atomic : PageBuf → ℕ → Ptr → Cmd Event (Unit {0})
  exporter_kunmap_atomic d page_num addr = emit (Event.kunmap_atomic addr)

  unfoldable pub exporter_kmap : PageBuf → ℕ → Cmd Event Ptr
  exporter_kmap d page_num = kmap k d.priv

  unfoldable pub exporter_kunmap : PageBuf → ℕ → Ptr → Cmd Event (Unit {0})
  exporter_kunmap d page_num addr = emit (Event.kunmap d.priv)

  unfoldable pub exporter_mmap : PageBuf → Vma → Cmd Event Ret
  exporter_mmap d vma = remap_pfn_range k vma.vm_start (k.page_to_pfn d.priv) page_size

  unfoldable pub exporter_begin_cpu_access : PageBuf → Direction → Cmd Event Ret
  exporter_begin_cpu_access d dir = elim d.attachments [
    | [] ↦ pure (val 0)
    | attachment ∷ rest ↦ do
      sg ← sgl_of k attachment.priv
      emit (Event.dma_sync_sg_for_cpu sg 1 dir)
      pure (val 0)
  ]

  unfoldable pub exporter_end_cpu_access : PageBuf → Direction → Cmd Event Ret
  exporter_end_cpu_access d dir = elim d.attachments [
    | [] ↦ pure (val 0)
    | attachment ∷ rest ↦ do
      sg ← sgl_of k attachment.priv
      emit (Event.dma_sync_sg_for_device sg 1 dir)
      pure (val 0)
  ]

  unfoldable pub exp_dmabuf_ops : DmaBufOps Ptr
  exp_dmabuf_ops = record {
    attach = some exporter_attach;
    detach = some exporter_detach;
    map_dma_buf = exporter_map_dma_buf;
    unmap_dma_buf = exporter_unmap_dma_buf;
    release = exporter_release;
    kmap = exporter_kmap;
    kunmap = some exporter_kunmap;
    kmap_atomic = exporter_kmap_atomic;
    kunmap_atomic = some exporter_kunmap_atomic;
    mmap = exporter_mmap;
    vmap = some exporter_vmap;
    vunmap = some exporter_vunmap;
    begin_cpu_access = some exporter_begin_cpu_access;
    end_cpu_access = some exporter_end_cpu_access;
  }

  unfoldable pub exporter_alloc_page : Cmd Event Ptr
  exporter_alloc_page = do
    page ← alloc_page k
    if is_null page then pure null else do
      dmabuf ← dma_buf_export k (page_export_info page)
      if is_err dmabuf
          then (emit (Event.put_page page) >> pure null)
          else do emit (Event.sprintf_hello (k.page_address page)); pure dmabuf

  unfoldable pub exporter_ioctl : Ptr → Cmd Event Ret
  exporter_ioctl = share_fd k

  unfoldable pub exporter_fops : FileOperations (Ptr → Cmd Event Ret) (Unit {0})
  unfolding exporter_ioctl
  exporter_fops = record { unlocked_ioctl = some exporter_ioctl; mmap = none }

  unfoldable pub mdev : MiscDevice (Ptr → Cmd Event Ret) (Unit {0})
  unfolding exporter_fops
  mdev = record { name = DeviceFile.exporter; fops = exporter_fops }

  unfoldable pub exporter_init : Cmd Event (Ret × Ptr)
  exporter_init = init_misc k exporter_alloc_page

  unfoldable pub exporter_exit : Cmd Event (Unit {0})
  exporter_exit = emit Event.misc_deregister
