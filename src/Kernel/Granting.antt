-- ===== src/Kernel/Granting.antt =====
-- A kernel for the tests, which grants every request.
use sample_code.Base.{◌+◌, refl, none, some, [], length}
use sample_code.Effect.Ledger
use sample_code.Kernel.{Kernel, at, val, page_size}
use sample_code.Kernel.Held.{Holds}

-- Every request is granted: an allocator gives the number of calls made so far as the address.
abbrev pub kernel : Kernel
kernel = record {
  kmalloc = λ l n. some (length l + 1);
  kzalloc = λ l n. some (length l + 1);
  alloc_page = λ l. some (length l + 1);
  sg_alloc_table = λ l t n. none;
  sgl = λ l t. t;
  nents = λ l t. 1;
  sg_next = λ sg. sg;
  sg_dma_address = λ l sg. 7;
  sg_dma_len = λ l sg. page_size;
  dma_map_sg = λ l sg n dir. n;
  dma_map_page = λ l p off n dir. 7;
  dma_map_single = λ l p n dir. 7;
  vmap = λ l ps. some (length l + 1);
  vm_map_ram = λ l ps n. some (length l + 1);
  kmap = λ l p. p;
  kmap_atomic = λ l p. p;
  page_to_pfn = λ p. 5;
  page_address = λ p. p;
  virt_to_phys = λ p. 5;
  virt_to_pfn = λ p. 5;
  virt_to_page = λ a. at a;
  remap_pfn_range = λ l start pfn n. none;
  vm_insert_page = λ l a p. none;
  dma_buf_export = λ l i. val (length l + 1);
  dma_buf_fd = λ l d. val 3;
  dma_buf_get = λ l fd. val (length l + 1);
  dma_buf_attach = λ l d dev. val (length l + 1);
  dma_buf_map_attachment = λ l a dir. val (length l + 1);
  dma_buf_kmap = λ l d n. d;
  dma_buf_vmap = λ l d. d;
  dma_buf_mmap = λ l d n. none;
  copy_to_user = λ l. 0;
  copy_from_user = λ l. 0;
  misc_register = λ l. none;
  ion_ioc_alloc = 1;
  vm_mixedmap = 268435456;
  drm_gem_object_init = λ l p n. val 0;
  drm_gem_handle_create = λ l p. 1;
  dma_alloc_wc = λ l n. (at (length l + 1), 8192);
  drm_gem_mmap = λ l. val 0;
  sizeof_cma_object = 200;
  sizeof_sg_table = 16;
  sizeof_device = 100;
}

pub nothing : Holds [] []
unfolding Ledger.ledger
nothing = record { is = refl }
