-- ===== src/Kernel/Log.antt =====
-- The calls that a driver makes of the kernel, with arguments and answers, and what each of
-- them acquires or releases.
use sample_code.Base.{ℕ, zero, suc, Option, List}
use sample_code.Effect.Ledger
use sample_code.Effect.Ledger.{Act, acquire, release, neutral, needs}
use sample_code.Kernel.Types.{
  Ptr, null, err_ptr, at, Ret, val, err, Direction, ExportInfo, Answer, Res, mem_ref, page_ref,
  sg_entries, sg_mapping, dma_mapping, buffer_ref, map_ref, attach_ref, table_ref, kmap_ref,
  vmap_ref, device_ref, Res-discrete,
}

-- The last argument of a call with a result is its answer.
pub data Event : Type 0 where
  kmalloc kzalloc : ℕ → Ptr → Event
  kfree : Ptr → Event
  alloc_page : Ptr → Event
  put_page : Ptr → Event
  get_page : Ptr → Event
  sg_alloc_table : Ptr → ℕ → Ret → Event
  sg_free_table : Ptr → Event
  sg_set_page : Ptr → Ptr → ℕ → ℕ → Event
  set_dma_address set_dma_len : Ptr → ℕ → Event
  dma_map_sg : Ptr → ℕ → Direction → ℕ → Event
  dma_unmap_sg : Ptr → ℕ → Direction → Event
  dma_map_page : Ptr → ℕ → ℕ → Direction → ℕ → Event
  dma_unmap_page : ℕ → ℕ → Direction → Event
  dma_map_single : Ptr → ℕ → Direction → ℕ → Event
  dma_unmap_single : ℕ → ℕ → Direction → Event
  dma_sync_sg_for_cpu dma_sync_sg_for_device : Ptr → ℕ → Direction → Event
  dma_sync_single_for_cpu dma_sync_single_for_device : ℕ → ℕ → Direction → Event
  vmap : List Ptr → Ptr → Event
  vunmap : Ptr → Event
  vm_map_ram : List Ptr → ℕ → Ptr → Event
  vm_unmap_ram : Ptr → ℕ → Event
  kmap kmap_atomic : Ptr → Ptr → Event
  kunmap kunmap_atomic : Ptr → Event
  sprintf_hello : Ptr → Event
  remap_pfn_range : ℕ → ℕ → ℕ → Ret → Event
  vm_insert_page : ℕ → Ptr → Ret → Event
  dma_buf_export : ExportInfo → Ptr → Event
  dma_buf_fd : Ptr → Ret → Event
  dma_buf_get : Ret → Ptr → Event
  dma_buf_put : Ptr → Event
  dma_buf_attach : Ptr → Ptr → Ptr → Event
  dma_buf_detach : Ptr → Ptr → Event
  dma_buf_map_attachment : Ptr → Direction → Ptr → Event
  dma_buf_unmap_attachment : Ptr → Ptr → Direction → Event
  dma_buf_kmap : Ptr → ℕ → Ptr → Event
  dma_buf_kunmap : Ptr → ℕ → Ptr → Event
  dma_buf_vmap : Ptr → Ptr → Event
  dma_buf_vunmap : Ptr → Ptr → Event
  dma_buf_mmap : Ptr → ℕ → Ret → Event
  dma_buf_begin_cpu_access dma_buf_end_cpu_access : Ptr → Direction → Event
  copy_to_user : Answer → ℕ → Event
  copy_from_user : ℕ → Event
  misc_register : Ret → Event
  misc_deregister : Event
  drm_gem_object_init : Ptr → ℕ → Ret → Event
  drm_gem_handle_create : Ptr → ℕ → Event
  dma_alloc_wc : ℕ → Ptr × ℕ → Event
  drm_gem_mmap : Ret → Event

-- A pointer result holds a resource only if it is an address.
abbrev gain : (Ptr → Res) → Ptr → Act Res
gain r null = neutral
gain r (err_ptr e) = neutral
gain r (at a) = acquire (r (at a))

-- `kfree(NULL)` does nothing.
abbrev lose : (Ptr → Res) → Ptr → Act Res
lose r null = neutral
lose r (err_ptr e) = release (r (err_ptr e))
lose r (at a) = release (r (at a))

abbrev if_ok : Res → Ret → Act Res
if_ok r (val zero) = acquire r
if_ok r (val (suc n)) = neutral
if_ok r (err e) = neutral

abbrev if_some : Res → ℕ → Act Res
if_some r zero = neutral
if_some r (suc n) = acquire r

abbrev pub act : Event → Act Res
act (Event.kmalloc n p) = gain mem_ref p
act (Event.kzalloc n p) = gain mem_ref p
act (Event.kfree p) = lose mem_ref p
act (Event.alloc_page p) = gain page_ref p
act (Event.get_page p) = acquire (page_ref p)
act (Event.put_page p) = release (page_ref p)
act (Event.sg_alloc_table t n r) = if_ok (sg_entries t) r
act (Event.sg_free_table t) = needs (mem_ref t) (release (sg_entries t))
act (Event.dma_map_sg sg n dir c) = if_some (sg_mapping sg) c
act (Event.dma_unmap_sg sg n dir) = release (sg_mapping sg)
act (Event.dma_map_page p o n dir a) = acquire (dma_mapping a)
act (Event.dma_unmap_page a n dir) = release (dma_mapping a)
act (Event.dma_map_single p n dir a) = acquire (dma_mapping a)
act (Event.dma_unmap_single a n dir) = release (dma_mapping a)
act (Event.vmap ps v) = gain map_ref v
act (Event.vunmap v) = lose map_ref v
act (Event.vm_map_ram ps n v) = gain map_ref v
act (Event.vm_unmap_ram v n) = release (map_ref v)
act (Event.dma_buf_export i d) = gain buffer_ref d
act (Event.dma_buf_get fd d) = gain buffer_ref d
act (Event.dma_buf_put d) = release (buffer_ref d)
act (Event.dma_buf_attach d dev a) = needs (buffer_ref d) (gain attach_ref a)
act (Event.dma_buf_detach d a) = needs (buffer_ref d) (release (attach_ref a))
act (Event.dma_buf_map_attachment a dir t) = needs (attach_ref a) (gain table_ref t)
act (Event.dma_buf_unmap_attachment a t dir) = needs (attach_ref a) (release (table_ref t))
act (Event.dma_buf_kmap d n p) = needs (buffer_ref d) (acquire (kmap_ref p))
act (Event.dma_buf_kunmap d n p) = needs (buffer_ref d) (release (kmap_ref p))
act (Event.dma_buf_vmap d p) = needs (buffer_ref d) (acquire (vmap_ref p))
act (Event.dma_buf_vunmap d p) = needs (buffer_ref d) (release (vmap_ref p))
act (Event.misc_register r) = if_ok device_ref r
act Event.misc_deregister = release device_ref
act e = neutral

-- What a log of kernel calls leaves held.
abbrev pub held : List Event → Option (List Res)
held = Ledger.ledger Res-discrete act
