-- ===== src/DmaBuf/Dummy.antt =====
-- dma-buf/01/exporter-dummy.c: a buffer with no memory behind it.
use sample_code.Base.{none, if◌then◌else◌}
use sample_code.Effect.{Cmd, pure, ◌>>=◌}
use sample_code.Kernel.{Kernel, Ptr, Ret, val, is_err, ptr_err, Event, dma_buf_export}
use sample_code.DmaBuf.Core.{DmaBufOps}
use sample_code.DmaBuf.Exported.{map_nothing, unmap_nothing, kmap_nothing, no_mmap, page_info}

unfoldable pub exp_dmabuf_ops : DmaBufOps Ptr
exp_dmabuf_ops = record {
  attach = none;
  detach = none;
  map_dma_buf = map_nothing;
  unmap_dma_buf = unmap_nothing;
  release = λ d. pure none;
  kmap = kmap_nothing;
  kunmap = none;
  kmap_atomic = kmap_nothing;
  kunmap_atomic = none;
  mmap = no_mmap;
  vmap = none;
  vunmap = none;
  begin_cpu_access = none;
  end_cpu_access = none;
}

-- `null_text` is the address of the text "null".
unfoldable pub exporter_init : Kernel → Ptr → Cmd Event Ret
exporter_init k null_text = do
  dmabuf ← dma_buf_export k (page_info null_text)
  if is_err dmabuf then pure (ptr_err dmabuf) else pure (val 0)
