-- ===== src/DmaBuf/Sg.antt =====
-- dma-buf/03/exporter-sg.c: a zeroed page that importers reach through DMA.
pub mod Map
use sample_code.Base.{ℕ, none, some, Bool, if◌then◌else◌}
use sample_code.Effect.{Cmd, pure, ◌>>=◌, ◌>>◌, emit}
use sample_code.Kernel.{
  Kernel, Ptr, err_ptr, Ret, val, enomem, is_null, nonzero, to_err_ptr, page_size, Direction, Event,
  kmalloc, sg_alloc_table, dma_map_single, sgl_of, sg_dma_address,
}
use sample_code.DmaBuf.Core.{Attachment, DmaBuf, DmaBufOps}
use sample_code.DmaBuf.Exported.{alloc_zeroed, init_plain, kmap_nothing, no_mmap}

module _ (k : Kernel) where
  unfoldable pub exporter_map_dma_buf : DmaBuf Ptr → Direction → Cmd Event Ptr
  exporter_map_dma_buf d dir = do
    let vaddr = d.priv
    table ← kmalloc k k.sizeof_sg_table
    if is_null table then pure (err_ptr enomem) else do
      r ← sg_alloc_table k table 1
      if nonzero r then (emit (Event.kfree table) >> pure (to_err_ptr r)) else do
        sg ← sgl_of k table
        emit (Event.set_dma_len sg page_size)
        addr ← dma_map_single k vaddr page_size dir
        emit (Event.set_dma_address sg addr)
        pure table

  unfoldable pub exporter_unmap_dma_buf : DmaBuf Ptr → Ptr → Direction → Cmd Event (Unit {0})
  exporter_unmap_dma_buf d table dir = do
    sg ← sgl_of k table
    addr ← sg_dma_address k sg
    emit (Event.dma_unmap_single addr page_size dir)
    emit (Event.sg_free_table table)
    emit (Event.kfree table)

  unfoldable pub exp_dmabuf_ops : DmaBufOps Ptr
  exp_dmabuf_ops = record {
    attach = some (λ d a. pure (val 0, a));
    detach = some (λ d a. pure tt);
    map_dma_buf = exporter_map_dma_buf;
    unmap_dma_buf = exporter_unmap_dma_buf;
    release = λ d. emit (Event.kfree d.priv) >> pure none;
    kmap = kmap_nothing;
    kunmap = none;
    kmap_atomic = kmap_nothing;
    kunmap_atomic = none;
    mmap = no_mmap;
    vmap = none;
    vunmap = none;
    begin_cpu_access = none;
    end_cpu_access = none;
  }

  unfoldable pub exporter_alloc_page : Cmd Event Ptr
  unfolding alloc_zeroed
  exporter_alloc_page = alloc_zeroed k

  unfoldable pub exporter_init : Cmd Event (Ret × Ptr)
  unfolding init_plain
  exporter_init = init_plain k exporter_alloc_page
