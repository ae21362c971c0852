-- ===== src/Kernel.antt =====
-- The kernel functions that the drivers call. They stand outside this repository, so each is
-- an answer of an environment, any function of the log, and an event that records the call.
mod Types
mod Log
pub mod Bag
pub mod Held
pub mod Granting
pub use Types.*
pub use Log.*
use sample_code.Base.{ℕ, Bool, Option, List, ◌∷◌}
use sample_code.Effect.{Cmd, call, pure, crash}

-- What the kernel answers. The types say what its documentation does: an allocator gives an
-- address or NULL (`none`), `dma_buf_export` and its like an address or an ERR_PTR, a plain
-- status is 0 (`none`) or an error. One field for each function whose result a driver uses, and the
-- constants of its headers.
pub record Kernel : Type 0 where
  pub kmalloc : List Event → ℕ → Option ℕ
  pub kzalloc : List Event → ℕ → Option ℕ
  pub alloc_page : List Event → Option ℕ
  pub sg_alloc_table : List Event → Ptr → ℕ → Option Errno
  -- `table->sgl` and `table->nents` of an allocated table, and the entry behind an entry.
  pub sgl : List Event → Ptr → Ptr
  pub nents : List Event → Ptr → ℕ
  pub sg_next : Ptr → Ptr
  -- What the address and the length of an entry read as.
  pub sg_dma_address : List Event → Ptr → ℕ
  pub sg_dma_len : List Event → Ptr → ℕ
  pub dma_map_sg : List Event → Ptr → ℕ → Direction → ℕ
  pub dma_map_page : List Event → Ptr → ℕ → ℕ → Direction → ℕ
  pub dma_map_single : List Event → Ptr → ℕ → Direction → ℕ
  pub vmap : List Event → List Ptr → Option ℕ
  pub vm_map_ram : List Event → List Ptr → ℕ → Option ℕ
  pub kmap : List Event → Ptr → Ptr
  pub kmap_atomic : List Event → Ptr → Ptr
  pub page_to_pfn : Ptr → ℕ
  pub page_address : Ptr → Ptr
  pub virt_to_phys : Ptr → ℕ
  pub virt_to_pfn : Ptr → ℕ
  pub virt_to_page : ℕ → Ptr
  pub remap_pfn_range : List Event → ℕ → ℕ → ℕ → Option Errno
  pub vm_insert_page : List Event → ℕ → Ptr → Option Errno
  pub dma_buf_export : List Event → ExportInfo → Ret
  pub dma_buf_fd : List Event → Ptr → Ret
  pub dma_buf_get : List Event → Ret → Ret
  pub dma_buf_attach : List Event → Ptr → Ptr → Ret
  pub dma_buf_map_attachment : List Event → Ptr → Direction → Ret
  pub dma_buf_kmap : List Event → Ptr → ℕ → Ptr
  pub dma_buf_vmap : List Event → Ptr → Ptr
  pub dma_buf_mmap : List Event → Ptr → ℕ → Option Errno
  -- The bytes that could not be copied.
  pub copy_to_user : List Event → ℕ
  pub copy_from_user : List Event → ℕ
  pub misc_register : List Event → Option Errno
  pub ion_ioc_alloc : ℕ
  pub vm_mixedmap : ℕ
  -- Calls of the DRM core, with what they store through a pointer as the answer: the handle, and
  -- the CPU and bus addresses of the memory.
  pub drm_gem_object_init : List Event → Ptr → ℕ → Ret
  pub drm_gem_handle_create : List Event → Ptr → ℕ
  pub dma_alloc_wc : List Event → ℕ → Ptr × ℕ
  pub drm_gem_mmap : List Event → Ret
  pub sizeof_cma_object : ℕ
  pub sizeof_sg_table : ℕ
  pub sizeof_device : ℕ

module _ (k : Kernel) where
  abbrev pub kmalloc : ℕ → Cmd Event Ptr
  kmalloc size = call (λ l. to_ptr (k.kmalloc l size)) (Event.kmalloc size)

  abbrev pub kzalloc : ℕ → Cmd Event Ptr
  kzalloc size = call (λ l. to_ptr (k.kzalloc l size)) (Event.kzalloc size)

  abbrev pub alloc_page : Cmd Event Ptr
  alloc_page = call (λ l. to_ptr (k.alloc_page l)) Event.alloc_page

  abbrev pub sg_alloc_table : Ptr → ℕ → Cmd Event Ret
  sg_alloc_table t n = call (λ l. to_ret (k.sg_alloc_table l t n)) (Event.sg_alloc_table t n)

  abbrev pub dma_map_sg : Ptr → ℕ → Direction → Cmd Event ℕ
  dma_map_sg sg n dir = call (λ l. k.dma_map_sg l sg n dir) (Event.dma_map_sg sg n dir)

  abbrev pub dma_map_page : Ptr → ℕ → ℕ → Direction → Cmd Event ℕ
  dma_map_page p off size dir =
      call (λ l. k.dma_map_page l p off size dir) (Event.dma_map_page p off size dir)

  abbrev pub dma_map_single : Ptr → ℕ → Direction → Cmd Event ℕ
  dma_map_single p size dir =
      call (λ l. k.dma_map_single l p size dir) (Event.dma_map_single p size dir)

  abbrev pub vmap : List Ptr → Cmd Event Ptr
  vmap pages = call (λ l. to_ptr (k.vmap l pages)) (Event.vmap pages)

  abbrev pub vm_map_ram : List Ptr → ℕ → Cmd Event Ptr
  vm_map_ram pages n = call (λ l. to_ptr (k.vm_map_ram l pages n)) (Event.vm_map_ram pages n)

  abbrev pub kmap : Ptr → Cmd Event Ptr
  kmap page = call (λ l. k.kmap l page) (Event.kmap page)

  abbrev pub kmap_atomic : Ptr → Cmd Event Ptr
  kmap_atomic page = call (λ l. k.kmap_atomic l page) (Event.kmap_atomic page)

  abbrev pub remap_pfn_range : ℕ → ℕ → ℕ → Cmd Event Ret
  remap_pfn_range start pfn size =
      call (λ l. to_ret (k.remap_pfn_range l start pfn size)) (Event.remap_pfn_range start pfn size)

  abbrev pub vm_insert_page : ℕ → Ptr → Cmd Event Ret
  vm_insert_page address page =
      call (λ l. to_ret (k.vm_insert_page l address page)) (Event.vm_insert_page address page)

  abbrev pub dma_buf_export : ExportInfo → Cmd Event Ptr
  dma_buf_export info = call (λ l. ret_ptr (k.dma_buf_export l info)) (Event.dma_buf_export info)

  abbrev pub dma_buf_fd : Ptr → Cmd Event Ret
  dma_buf_fd d = call (λ l. k.dma_buf_fd l d) (Event.dma_buf_fd d)

  abbrev pub dma_buf_get : Ret → Cmd Event Ptr
  dma_buf_get fd = call (λ l. ret_ptr (k.dma_buf_get l fd)) (Event.dma_buf_get fd)

  abbrev pub dma_buf_attach : Ptr → Ptr → Cmd Event Ptr
  dma_buf_attach d dev = call (λ l. ret_ptr (k.dma_buf_attach l d dev)) (Event.dma_buf_attach d dev)

  abbrev pub dma_buf_map_attachment : Ptr → Direction → Cmd Event Ptr
  dma_buf_map_attachment a dir =
      call (λ l. ret_ptr (k.dma_buf_map_attachment l a dir)) (Event.dma_buf_map_attachment a dir)

  abbrev pub dma_buf_kmap : Ptr → ℕ → Cmd Event Ptr
  dma_buf_kmap d n = call (λ l. k.dma_buf_kmap l d n) (Event.dma_buf_kmap d n)

  abbrev pub dma_buf_vmap : Ptr → Cmd Event Ptr
  dma_buf_vmap d = call (λ l. k.dma_buf_vmap l d) (Event.dma_buf_vmap d)

  abbrev pub dma_buf_mmap : Ptr → ℕ → Cmd Event Ret
  dma_buf_mmap d pgoff = call (λ l. to_ret (k.dma_buf_mmap l d pgoff)) (Event.dma_buf_mmap d pgoff)

  abbrev pub copy_to_user : Answer → Cmd Event ℕ
  copy_to_user a = call k.copy_to_user (Event.copy_to_user a)

  abbrev pub copy_from_user : Cmd Event ℕ
  copy_from_user = call k.copy_from_user Event.copy_from_user

  abbrev pub misc_register : Cmd Event Ret
  misc_register = call (λ l. to_ret (k.misc_register l)) Event.misc_register

  -- `table->sgl`, read through the table's pointer.
  abbrev pub sgl_of : Ptr → Cmd Event Ptr
  sgl_of null = crash
  sgl_of (err_ptr e) = crash
  sgl_of (at a) = λ l. pure (k.sgl l (at a)) l

  abbrev pub nents_of : Ptr → Cmd Event ℕ
  nents_of null = crash
  nents_of (err_ptr e) = crash
  nents_of (at a) = λ l. pure (k.nents l (at a)) l

  abbrev pub sg_dma_address : Ptr → Cmd Event ℕ
  sg_dma_address sg = λ l. pure (k.sg_dma_address l sg) l

  abbrev pub sg_dma_len : Ptr → Cmd Event ℕ
  sg_dma_len sg = λ l. pure (k.sg_dma_len l sg) l

  abbrev pub drm_gem_object_init : Ptr → ℕ → Cmd Event Ret
  drm_gem_object_init obj size =
      call (λ l. k.drm_gem_object_init l obj size) (Event.drm_gem_object_init obj size)

  abbrev pub drm_gem_handle_create : Ptr → Cmd Event ℕ
  drm_gem_handle_create obj =
      call (λ l. k.drm_gem_handle_create l obj) (Event.drm_gem_handle_create obj)

  abbrev pub dma_alloc_wc : ℕ → Cmd Event (Ptr × ℕ)
  dma_alloc_wc size = call (λ l. k.dma_alloc_wc l size) (Event.dma_alloc_wc size)

  abbrev pub drm_gem_mmap : Cmd Event Ret
  drm_gem_mmap = call k.drm_gem_mmap Event.drm_gem_mmap
