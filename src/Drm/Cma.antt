-- ===== src/Drm/Cma.antt =====
-- drm/driver/cma/dumb.c: a driver whose dumb buffers are contiguous blocks of DMA memory. The
-- fields of `drm_mode_create_dumb` that the driver computes with are 32 bits wide, but for `size`.
pub mod Size
pub mod Life
mod Tests
use sample_code.Base.{
  ℕ, ◌-◌, ◌*◌, ◌/◌, ◌%◌, Bool, true, false, Option, none, some, if◌then◌else◌, u32_mod,
}
use sample_code.Effect.{Cmd, pure, crash, ◌>>=◌, ◌>>◌}
use sample_code.Kernel.{
  Kernel, Ptr, Ret, val, is_null, page_size, Vma, Event, kzalloc, drm_gem_object_init,
  drm_gem_handle_create, dma_alloc_wc, drm_gem_mmap, remap_pfn_range,
}
use sample_code.Drm.Tables.{CoreFunction, Entry, own, FileOperations, DrmDriver}
use sample_code.Drm.Vkms.{VkmsCall, DrmCore, dev_init, dev_register}

-- `struct drm_gem_cma_object`; its base belongs to the DRM core.
pub record DrmGemCmaObject : Type 0 where
  pub paddr : ℕ
  pub vaddr : Ptr

-- `struct drm_mode_create_dumb`, as far as the driver uses it.
pub record DumbArgs : Type 0 where
  pub height : ℕ
  pub width : ℕ
  pub bpp : ℕ
  pub handle : ℕ
  pub pitch : ℕ
  pub size : ℕ

abbrev pub dumb_pitch : ℕ → ℕ → ℕ
dumb_pitch width bpp = width * bpp % u32_mod / 8

abbrev pub dumb_size : ℕ → ℕ → ℕ
dumb_size pitch height = pitch * height % u32_mod

unfoldable pub mygem_init : DrmCore → Cmd VkmsCall Ret
mygem_init c = do dev_init c; dev_register c; pure (val 0)

module _ (k : Kernel) where
  -- The result, `args` as the function leaves it, and the new object. A NULL object is written to
  -- at the latest when `vaddr` is stored.
  unfoldable pub drm_gem_cma_dumb_create : DumbArgs → Cmd Event (Ret × DumbArgs × DrmGemCmaObject)
  drm_gem_cma_dumb_create args = do
    let pitch = dumb_pitch args.width args.bpp
    let size = dumb_size pitch args.height
    cma_obj ← kzalloc k k.sizeof_cma_object
    drm_gem_object_init k cma_obj size
    handle ← drm_gem_handle_create k cma_obj
    mem ← dma_alloc_wc k size
    if is_null cma_obj
        then crash
        else pure (
          val 0,
          record {
            height = args.height;
            width = args.width;
            bpp = args.bpp;
            handle = handle;
            pitch = pitch;
            size = size;
          },
          record { paddr = mem.1; vaddr = mem.0 },
        )

  -- `private` says what `vm_private_data` points at after `drm_gem_mmap` has returned its result.
  unfoldable pub drm_gem_cma_mmap : (Ret → Option DrmGemCmaObject) → Vma → Cmd Event Ret
  drm_gem_cma_mmap private vma = do
    r ← drm_gem_mmap k
    elim (private r) [
      | none ↦ crash
      | some cma_obj ↦
          remap_pfn_range k vma.vm_start (cma_obj.paddr / page_size) (vma.vm_end - vma.vm_start)
    ]

-- The types of the driver's own mmap and dumb_create.
abbrev pub Mmap : Type 0
Mmap = (Ret → Option DrmGemCmaObject) → Vma → Cmd Event Ret

abbrev pub DumbCreate : Type 0
DumbCreate = DumbArgs → Cmd Event (Ret × DumbArgs × DrmGemCmaObject)

module _ (k : Kernel) where
  unfoldable pub mygem_fops : FileOperations Mmap
  unfolding drm_gem_cma_mmap
  mygem_fops = record {
    open_file = some CoreFunction.drm_open;
    release = some CoreFunction.drm_release;
    unlocked_ioctl = some CoreFunction.drm_ioctl;
    poll = none;
    read = none;
    mmap = some (own (drm_gem_cma_mmap k));
  }

  unfoldable pub mygem_driver : DrmDriver Mmap DumbCreate
  unfolding mygem_fops drm_gem_cma_dumb_create
  mygem_driver = record {
    driver_modeset = false;
    driver_gem = true;
    driver_atomic = false;
    fops = some mygem_fops;
    dumb_create = some (own (drm_gem_cma_dumb_create k));
    gem_vm_ops = true;
    gem_free_object_unlocked = none;
  }
