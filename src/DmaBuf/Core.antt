-- ===== src/DmaBuf/Core.antt =====
-- The structures that the kernel hands to an exporter's callbacks.
use sample_code.Base.{ℕ, Option, List}
use sample_code.Effect.{Cmd}
use sample_code.Kernel.{Ptr, Ret, Vma, Direction, Event}

-- A `struct dma_buf_attachment`, of which the drivers read `priv`. (What they read of its device
-- is the name, for a message.)
pub record Attachment : Type 0 where
  pub priv : Ptr

-- A `struct dma_buf`: what its exporter put into `priv`, and its attachments, the first first.
pub record DmaBuf (P : Type 0) : Type 0 where
  pub priv : P
  pub attachments : List Attachment

-- The callbacks of `struct dma_buf_ops`; `none` is a member that the exporter leaves NULL.
-- `release` returns what it stores into the global `dmabuf_exported`, if it does.
-- `attach` returns the attachment as it leaves it. The attachment of `map_dma_buf` is given by its buffer, `attachment->dmabuf`.
pub record DmaBufOps (P : Type 0) : Type 0 where
  pub attach : Option (DmaBuf P → Attachment → Cmd Event (Ret × Attachment))
  pub detach : Option (DmaBuf P → Attachment → Cmd Event (Unit {0}))
  pub map_dma_buf : DmaBuf P → Direction → Cmd Event Ptr
  pub unmap_dma_buf : DmaBuf P → Ptr → Direction → Cmd Event (Unit {0})
  pub release : DmaBuf P → Cmd Event (Option Ptr)
  pub kmap : DmaBuf P → ℕ → Cmd Event Ptr
  pub kunmap : Option (DmaBuf P → ℕ → Ptr → Cmd Event (Unit {0}))
  pub kmap_atomic : DmaBuf P → ℕ → Cmd Event Ptr
  pub kunmap_atomic : Option (DmaBuf P → ℕ → Ptr → Cmd Event (Unit {0}))
  pub mmap : DmaBuf P → Vma → Cmd Event Ret
  pub vmap : Option (DmaBuf P → Cmd Event Ptr)
  pub vunmap : Option (DmaBuf P → Ptr → Cmd Event (Unit {0}))
  pub begin_cpu_access : Option (DmaBuf P → Direction → Cmd Event Ret)
  pub end_cpu_access : Option (DmaBuf P → Direction → Cmd Event Ret)
