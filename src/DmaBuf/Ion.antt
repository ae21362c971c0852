-- ===== src/DmaBuf/Ion.antt =====
-- dma-buf/09/exporter-ion.c: a heap that hands out buffers of several pages. The functions keep
-- their names; `struct ion_data` is passed by value together with its address, since only
-- `ion_alloc` writes it. Callbacks has what the users of a buffer call, and here is what makes one.
-- Messages to the kernel log are left out.
mod Callbacks
pub mod Alloc
pub mod Release
pub mod Size
pub mod Cpu
pub mod Mmap
pub mod Ioctl
pub mod Life
mod Tests
pub mod Map
unfoldable pub use Callbacks.*
use sample_code.Base.{
  none, some, Option, ℕ, zero, suc, ◌+◌, ◌*◌, ◌/◌, ◌%◌, Bool, true, false, Option, none, some, List,
  [], ◌∷◌, reverse, ◌==◌, if◌then◌else◌, get_elem?, ℤ, pos, negsuc, to_int, to_size, to_uint,
  rounds, u64_mod, is_zero, ne_zero, not, ◌-◌, leb, length,
}
use sample_code.Effect.{Cmd, pure, crash, ◌>>=◌, ◌>>◌, emit}
use sample_code.Posix.{DeviceFile}
use sample_code.Posix.Device.{FileOperations, MiscDevice}
use sample_code.Kernel.{
  Kernel, Ptr, null, err_ptr, at, Ret, val, err, enomem, einval, efault, is_null, is_err, nonzero,
  page_size, ExportInfo, Vma, Direction, IonAllocationData, ion_answer, Event, kmalloc, alloc_page,
  sg_alloc_table, dma_map_sg, vm_map_ram, kmap, kmap_atomic, remap_pfn_range, dma_buf_export,
  dma_buf_fd, copy_to_user, copy_from_user, misc_register, sgl_of, nents_of,
}
use sample_code.DmaBuf.Core.{Attachment, DmaBuf, DmaBufOps}

-- PAGE_ALIGN of a `size_t`, which wraps.
abbrev pub page_align : ℕ → ℕ
page_align size = (size + (page_size - 1)) % u64_mod / page_size * page_size

-- `npages = PAGE_ALIGN(size) / PAGE_SIZE`, converted to `int`.
abbrev pub npages_of : ℕ → ℤ
npages_of size = to_int (page_align size / page_size)

-- `sizeof(*data) + npages * sizeof(struct page *)`
abbrev pub ion_data_size : ℤ → ℕ
ion_data_size npages = (8 + to_size npages * 8) % u64_mod

-- Whether a store of `n` bytes at the offset `off` stays in a block of `size` bytes. A block of 0
-- bytes has no room at all: `kmalloc(0)` gives ZERO_SIZE_PTR.
abbrev pub fits_block : ℕ → ℕ → ℕ → Bool
fits_block size off n = leb (off + n) size

-- The `exp_info` of `ion_alloc`.
abbrev pub ion_export_info : IonData → ExportInfo
ion_export_info ion = record {
  size = to_size ion.npages * page_size % u64_mod;
  cloexec = true;
  priv = ion.addr;
}

-- No buffer was made.
abbrev pub no_ion : IonData
no_ion = record { addr = null; npages = pos 0; pages = [] }

module _ (k : Kernel) where
  -- What `for (i = 0; i < npages; i++)` leaves: `pages[i-1] … pages[0]`, and whether it ran to
  -- its end. It stops at the first page that is refused. `data->pages[i]` stands behind the 8
  -- bytes of the count, and is stored to before it is tested; a store past the block of `size`
  -- bytes is an invalid access.
  unfoldable pub alloc_pages : ℕ → ℕ → List Ptr → Cmd Event (Bool × List Ptr)
  alloc_pages size zero got = pure (true, got)
  alloc_pages size (suc n) got = do
    p ← alloc_page k
    let rest = alloc_pages size n (p ∷ got)
    if not (fits_block size (8 + length got * 8) 8)
        then crash
        else (if is_null p then pure (false, got) else rest)

  -- `err: while (i--) put_page(data->pages[i]);`, over the pages that were got, the last first.
  unfoldable pub unwind_pages : List Ptr → Cmd Event (Unit {0})
  unwind_pages [] = pure tt
  unwind_pages (p ∷ ps) = emit (Event.put_page p) >> unwind_pages ps

  -- `err:`
  unfoldable pub ion_alloc_err : Ptr → List Ptr → Cmd Event (Ptr × IonData)
  ion_alloc_err p got = do unwind_pages got; emit (Event.kfree p); pure (err_ptr enomem, no_ion)

  -- `ion_alloc` from the end of its loop on.
  -- `data->npages = npages` is a store of 4 bytes at the begin of the block.
  unfoldable pub export_pages : ℤ → Ptr → Bool × List Ptr → Cmd Event (Ptr × IonData)
  export_pages npages p (done, got) =
      if not done
      then ion_alloc_err p got
      else (if not (fits_block (ion_data_size npages) 0 4) then crash else do
        let ion : IonData = record { addr = p; npages = npages; pages = reverse got }
        d ← dma_buf_export k (ion_export_info ion)
        if is_err d then ion_alloc_err p got else pure (d, ion))

  -- The buffer, and the `ion_data` that it carries.
  unfoldable pub ion_alloc : ℕ → Cmd Event (Ptr × IonData)
  ion_alloc size =
      let npages = npages_of size in
      if is_zero npages then pure (err_ptr einval, no_ion) else do
        p ← kmalloc k (ion_data_size npages)
        if is_null p then pure (err_ptr enomem, no_ion) else do
          r ← alloc_pages (ion_data_size npages) (rounds npages) []
          export_pages npages p r

  -- `ion_ioctl` behind the call of `ion_alloc`.
  unfoldable pub ion_answer_fd : IonAllocationData → Ptr → Cmd Event Ret
  ion_answer_fd user d = if is_null d then pure (err enomem) else do
    fd ← dma_buf_fd k d
    left ← copy_to_user k (ion_answer (record user { fd = fd }))
    if ne_zero left then pure (err efault) else pure (val 0)

  -- `ion_ioctl`: what stands at `arg` is the argument `user`.
  unfoldable pub ion_ioctl : ℕ → IonAllocationData → Cmd Event Ret
  ion_ioctl cmd user = do
    missing ← copy_from_user k
    if ne_zero missing
        then pure (err efault)
        else (if not (cmd == k.ion_ioc_alloc)
            then pure (err einval)
            else do (d, ion) ← ion_alloc user.len; ion_answer_fd user d)

  unfoldable pub ion_fops : FileOperations (ℕ → IonAllocationData → Cmd Event Ret) (Unit {0})
  unfolding ion_ioctl
  ion_fops = record { unlocked_ioctl = some ion_ioctl; mmap = none }

  unfoldable pub mdev : MiscDevice (ℕ → IonAllocationData → Cmd Event Ret) (Unit {0})
  unfolding ion_fops
  mdev = record { name = DeviceFile.ion; fops = ion_fops }

  unfoldable pub ion_init : Cmd Event Ret
  ion_init = misc_register k

  unfoldable pub ion_exit : Cmd Event (Unit {0})
  ion_exit = emit Event.misc_deregister
