-- ===== src/DmaBuf/Kmap.antt =====
-- dma-buf/02/exporter-kmap.c: a zeroed page that importers read by CPU.
use sample_code.Base.{none, some}
use sample_code.Effect.{Cmd, pure, ◌>>◌, emit}
use sample_code.Kernel.{Kernel, Ptr, Ret, Event}
use sample_code.DmaBuf.Core.{DmaBufOps}
use sample_code.DmaBuf.Exported.{
  alloc_zeroed, init_plain, map_nothing, unmap_nothing, kmap_block, vmap_block, no_mmap,
}

module _ (k : Kernel) where
  unfoldable pub exp_dmabuf_ops : DmaBufOps Ptr
  exp_dmabuf_ops = record {
    attach = none;
    detach = none;
    map_dma_buf = map_nothing;
    unmap_dma_buf = unmap_nothing;
    release = λ d. emit (Event.kfree d.priv) >> pure none;
    kmap = kmap_block;
    kunmap = none;
    kmap_atomic = kmap_block;
    kunmap_atomic = none;
    mmap = no_mmap;
    vmap = some vmap_block;
    vunmap = none;
    begin_cpu_access = none;
    end_cpu_access = none;
  }

  unfoldable pub exporter_alloc_page : Cmd Event Ptr
  unfolding alloc_zeroed
  exporter_alloc_page = alloc_zeroed k

  unfoldable pub exporter_init : Cmd Event (Ret × Ptr)
  unfolding init_plain
  exporter_init = init_plain k exporter_alloc_page
