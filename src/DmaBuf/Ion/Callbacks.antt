-- ===== src/DmaBuf/Ion/Callbacks.antt =====
-- The callbacks that dma-buf/09/exporter-ion.c puts into its `struct dma_buf_ops`, and the
-- `struct ion_data` that they find behind a buffer.
use sample_code.Base.{
  none, some, Option, ℕ, zero, suc, ◌+◌, ◌%◌, Option, none, some, List, [], ◌∷◌, if◌then◌else◌,
  get_elem?, ℤ, to_uint, rounds, u64_mod, ne_zero, not,
}
use sample_code.Effect.{Cmd, pure, crash, ◌>>=◌, ◌>>◌, emit}
use sample_code.Kernel.{
  Kernel, Ptr, err_ptr, Ret, val, enomem, is_null, nonzero, page_size, Vma, Direction, Event,
  kmalloc, sg_alloc_table, dma_map_sg, vm_map_ram, kmap, kmap_atomic, remap_pfn_range, sgl_of,
  nents_of,
}
use sample_code.DmaBuf.Core.{Attachment, DmaBuf, DmaBufOps}

-- `struct ion_data`
pub record IonData : Type 0 where
  pub addr : Ptr
  pub npages : ℤ
  pub pages : List Ptr

abbrev pub IonBuf : Type 0
IonBuf = DmaBuf IonData

-- A callback that is given an attachment returns it too, as it leaves it.
unfoldable pub ion_attach : IonBuf → Attachment → Cmd Event (Ret × Attachment)
ion_attach d a = pure (val 0, a)

unfoldable pub ion_detach : IonBuf → Attachment → Cmd Event (Unit {0})
ion_detach d a = pure tt

-- `data->pages[i]`; an index past the array is an invalid access.
unfoldable pub page_at : IonData → ℕ → Cmd Event Ptr
page_at ion i = elim (get_elem? ion.pages i) [ none ↦ crash | some p ↦ pure p ]

module _ (k : Kernel) where
  -- `for (i = 0; i < data->npages; i++)` over the entries, from the entry `sg`.
  unfoldable pub set_pages : ℕ → List Ptr → Ptr → Cmd Event (Unit {0})
  set_pages zero ps sg = pure tt
  set_pages (suc n) [] sg = crash
  set_pages (suc n) (p ∷ ps) sg =
      emit (Event.sg_set_page sg p page_size 0) >> set_pages n ps (k.sg_next sg)

  -- `ion_map_dma_buf` from `dma_map_sg` on.
  unfoldable pub map_entries : Ptr → Ptr → Direction → Cmd Event Ptr
  map_entries table sg dir = do
    n ← nents_of k table
    c ← dma_map_sg k sg n dir
    if not (ne_zero c)
        then (do emit (Event.sg_free_table table); emit (Event.kfree table); pure (err_ptr enomem))
        else pure table

  unfoldable pub ion_map_dma_buf : IonBuf → Direction → Cmd Event Ptr
  ion_map_dma_buf d dir = do
    let ion = d.priv
    table ← kmalloc k k.sizeof_sg_table
    if is_null table then pure (err_ptr enomem) else do
      r ← sg_alloc_table k table (to_uint ion.npages)
      if nonzero r then (emit (Event.kfree table) >> pure (err_ptr enomem)) else do
        sg ← sgl_of k table
        set_pages (rounds ion.npages) ion.pages sg
        map_entries table sg dir

  unfoldable pub ion_unmap_dma_buf : IonBuf → Ptr → Direction → Cmd Event (Unit {0})
  ion_unmap_dma_buf d table dir = do
    sg ← sgl_of k table
    n ← nents_of k table
    emit (Event.dma_unmap_sg sg n dir)
    emit (Event.sg_free_table table)
    emit (Event.kfree table)

  -- `for (i = 0; i < data->npages; i++) put_page(data->pages[i]);`
  unfoldable pub put_pages : ℕ → List Ptr → Cmd Event (Unit {0})
  put_pages zero ps = pure tt
  put_pages (suc n) [] = crash
  put_pages (suc n) (p ∷ ps) = emit (Event.put_page p) >> put_pages n ps

  unfoldable pub ion_release : IonBuf → Cmd Event (Option Ptr)
  unfolding put_pages
  ion_release d = do
    let ion = d.priv
    put_pages (rounds ion.npages) ion.pages
    emit (Event.kfree ion.addr)
    pure none

  unfoldable pub ion_vmap : IonBuf → Cmd Event Ptr
  ion_vmap d = vm_map_ram k d.priv.pages (to_uint d.priv.npages)

  unfoldable pub ion_vunmap : IonBuf → Ptr → Cmd Event (Unit {0})
  ion_vunmap d vaddr = emit (Event.vm_unmap_ram vaddr (to_uint d.priv.npages))

  unfoldable pub ion_kmap_atomic : IonBuf → ℕ → Cmd Event Ptr
  unfolding page_at
  ion_kmap_atomic d page_num = do page ← page_at d.priv page_num; kmap_atomic k page

  unfoldable pub ion_kunmap_atomic : IonBuf → ℕ → Ptr → Cmd Event (Unit {0})
  ion_kunmap_atomic d page_num addr = emit (Event.kunmap_atomic addr)

  unfoldable pub ion_kmap : IonBuf → ℕ → Cmd Event Ptr
  unfolding page_at
  ion_kmap d page_num = do page ← page_at d.priv page_num; kmap k page

  unfoldable pub ion_kunmap : IonBuf → ℕ → Ptr → Cmd Event (Unit {0})
  unfolding page_at
  ion_kunmap d page_num addr = do page ← page_at d.priv page_num; emit (Event.kunmap page)

  -- One call a page, whose result the code drops; `vm_start` is an `unsigned long`.
  unfoldable pub remap_pages : ℕ → List Ptr → ℕ → Cmd Event (Unit {0})
  remap_pages zero ps vm_start = pure tt
  remap_pages (suc n) [] vm_start = crash
  remap_pages (suc n) (p ∷ ps) vm_start = do
    remap_pfn_range k vm_start (k.page_to_pfn p) page_size
    remap_pages n ps ((vm_start + page_size) % u64_mod)

  unfoldable pub ion_mmap : IonBuf → Vma → Cmd Event Ret
  unfolding remap_pages
  ion_mmap d vma = remap_pages (rounds d.priv.npages) d.priv.pages vma.vm_start >> pure (val 0)

  -- `list_empty`, else `table = attachment->priv` of the first attachment.
  unfoldable pub ion_begin_cpu_access : IonBuf → Direction → Cmd Event Ret
  ion_begin_cpu_access d dir = elim d.attachments [
    | [] ↦ pure (val 0)
    | attachment ∷ rest ↦ do
      let table = attachment.priv
      sg ← sgl_of k table
      n ← nents_of k table
      emit (Event.dma_sync_sg_for_cpu sg n dir)
      pure (val 0)
  ]

  unfoldable pub ion_end_cpu_access : IonBuf → Direction → Cmd Event Ret
  ion_end_cpu_access d dir = elim d.attachments [
    | [] ↦ pure (val 0)
    | attachment ∷ rest ↦ do
      let table = attachment.priv
      sg ← sgl_of k table
      n ← nents_of k table
      emit (Event.dma_sync_sg_for_device sg n dir)
      pure (val 0)
  ]

  unfoldable pub exp_dmabuf_ops : DmaBufOps IonData
  exp_dmabuf_ops = record {
    attach = some ion_attach;
    detach = some ion_detach;
    map_dma_buf = ion_map_dma_buf;
    unmap_dma_buf = ion_unmap_dma_buf;
    release = ion_release;
    kmap = ion_kmap;
    kunmap = some ion_kunmap;
    kmap_atomic = ion_kmap_atomic;
    kunmap_atomic = some ion_kunmap_atomic;
    mmap = ion_mmap;
    vmap = some ion_vmap;
    vunmap = some ion_vunmap;
    begin_cpu_access = some ion_begin_cpu_access;
    end_cpu_access = some ion_end_cpu_access;
  }
