-- ===== src/Mmap.antt =====
-- The drivers under mmap/, each of which lets a process map three pages of the kernel:
-- mmap1.c all at once, mmap2.c and mmap4.c a page at a time, mmap3.c a page when it is touched.
-- The global `kaddr` or `pages` is an argument, and a result where the function writes it.
pub mod Bounds
pub mod Eager
pub mod Lazy
pub mod Program
pub mod RoundTrip
mod Tests
use Prim.Native.Nat.{bit_or}
use sample_code.Base.{
  none, some, Option, ℕ, ◌+◌, ◌-◌, ◌*◌, ◌/◌, ◌%◌, Bool, Option, none, some, List, [], ◌∷◌,
  if◌then◌else◌, get_elem?, set, ℤ, to_int, to_size, u64_mod,
}
use sample_code.Effect.{Cmd, pure, crash, ◌>>=◌, ◌>>◌, emit}
use sample_code.Posix.{DeviceFile}
use sample_code.Posix.Device.{FileOperations, MiscDevice}
use sample_code.Kernel.{
  Kernel, Ptr, null, at, Ret, val, is_null, nonzero, to_address, page_size, Vma, Event, kzalloc,
  alloc_page, remap_pfn_range, vm_insert_page, misc_register,
}

-- `struct vm_fault`, as far as the drivers read it.
pub record VmFault : Type 0 where
  pub pgoff : ℕ
  pub address : ℕ

-- What a fault handler returns.
pub data FaultResult : Type 0 where
  done sigbus nopage : FaultResult

-- `struct vm_operations_struct`, for a type of fault handlers.
pub record VmOperations (F : Type 0) : Type 0 where
  pub fault : Option F

abbrev pub FaultInt : Type 0
FaultInt = Ptr → VmFault → Cmd Event FaultResult

abbrev pub FaultLazy : Type 0
FaultLazy = List Ptr → VmFault → Cmd Event (FaultResult × List Ptr)

abbrev pub FaultPage : Type 0
FaultPage = Ptr → VmFault → Cmd Event (FaultResult × Ptr)

-- The `my_mmap` of mmap2.c, mmap3.c and mmap4.c: of `vm_flags`, the result, and the new `vm_flags`
-- and `vm_ops`.
abbrev pub MmapFaulting : Type 0 → Type 0
MmapFaulting F = ℕ → Cmd Event (Ret × ℕ × VmOperations F)

-- mmap2.c: `offset` is an `int`.
abbrev pub int_offset : ℕ → ℤ
int_offset pgoff = to_int (pgoff * page_size % u64_mod)

module _ (k : Kernel) where
  -- mmap1.c, mmap2.c and mmap4.c: the result, and the new `kaddr`.
  unfoldable pub my_init : Cmd Event (Ret × Ptr)
  my_init = do kaddr ← kzalloc k (page_size * 3); r ← misc_register k; pure (r, kaddr)

  -- mmap3.c
  unfoldable pub my_init_lazy : Cmd Event Ret
  my_init_lazy = misc_register k

  -- mmap1.c
  unfoldable pub my_mmap_all : Ptr → Vma → Cmd Event Ret
  my_mmap_all kaddr vma =
      remap_pfn_range k vma.vm_start (k.virt_to_phys kaddr / page_size + vma.vm_pgoff)
        (vma.vm_end - vma.vm_start)

  -- mmap2.c
  unfoldable pub my_fault_int : Ptr → VmFault → Cmd Event FaultResult
  my_fault_int kaddr vmf = do
    let offset = int_offset vmf.pgoff
    ret ←
        vm_insert_page k vmf.address
          (k.virt_to_page ((to_address kaddr + to_size offset) % u64_mod))
    if nonzero ret then pure sigbus else pure nopage

  -- mmap3.c, behind the test of `pages[vmf->pgoff]`.
  unfoldable pub insert_page : ℕ → List Ptr → Ptr → Cmd Event (FaultResult × List Ptr)
  insert_page address pages page = do
    ret ← vm_insert_page k address page
    if nonzero ret then pure (sigbus, pages) else pure (nopage, pages)

  -- mmap3.c: the result, and the new `pages`. An index past the array is an invalid access.
  unfoldable pub my_fault_lazy : List Ptr → VmFault → Cmd Event (FaultResult × List Ptr)
  my_fault_lazy pages vmf = elim (get_elem? pages vmf.pgoff) [
    | none ↦ crash
    | some p ↦
        if is_null p
        then (do fresh ← alloc_page k; insert_page vmf.address (set pages vmf.pgoff fresh) fresh)
        else insert_page vmf.address pages p
  ]

  -- mmap4.c: the result, and `vmf->page`. The NULL block has no pages to take a reference to.
  unfoldable pub my_fault_page : Ptr → VmFault → Cmd Event (FaultResult × Ptr)
  my_fault_page kaddr vmf = if is_null kaddr then crash else do
    let page = k.virt_to_page ((to_address kaddr + vmf.pgoff * page_size) % u64_mod)
    emit (Event.get_page page)
    pure (done, page)

  -- mmap1.c
  unfoldable pub my_fops_all : FileOperations (Unit {0}) (Ptr → Vma → Cmd Event Ret)
  unfolding my_mmap_all
  my_fops_all = record { unlocked_ioctl = none; mmap = some my_mmap_all }

  unfoldable pub mdev_all : MiscDevice (Unit {0}) (Ptr → Vma → Cmd Event Ret)
  unfolding my_fops_all
  mdev_all = record { name = DeviceFile.my_dev; fops = my_fops_all }

  -- mmap2.c: the operations of its areas, and what its `my_mmap` writes.
  unfoldable pub vm_ops_int : VmOperations FaultInt
  unfolding my_fault_int
  vm_ops_int = record { fault = some my_fault_int }

  unfoldable pub my_mmap_int : MmapFaulting FaultInt
  unfolding vm_ops_int
  my_mmap_int vm_flags = pure (val 0, bit_or vm_flags k.vm_mixedmap, vm_ops_int)

  unfoldable pub my_fops_int : FileOperations (Unit {0}) (MmapFaulting FaultInt)
  unfolding my_mmap_int
  my_fops_int = record { unlocked_ioctl = none; mmap = some my_mmap_int }

  unfoldable pub mdev_int : MiscDevice (Unit {0}) (MmapFaulting FaultInt)
  unfolding my_fops_int
  mdev_int = record { name = DeviceFile.my_dev; fops = my_fops_int }

  -- mmap3.c: the operations of its areas, and what its `my_mmap` writes.
  unfoldable pub vm_ops_lazy : VmOperations FaultLazy
  unfolding my_fault_lazy
  vm_ops_lazy = record { fault = some my_fault_lazy }

  unfoldable pub my_mmap_lazy : MmapFaulting FaultLazy
  unfolding vm_ops_lazy
  my_mmap_lazy vm_flags = pure (val 0, bit_or vm_flags k.vm_mixedmap, vm_ops_lazy)

  unfoldable pub my_fops_lazy : FileOperations (Unit {0}) (MmapFaulting FaultLazy)
  unfolding my_mmap_lazy
  my_fops_lazy = record { unlocked_ioctl = none; mmap = some my_mmap_lazy }

  unfoldable pub mdev_lazy : MiscDevice (Unit {0}) (MmapFaulting FaultLazy)
  unfolding my_fops_lazy
  mdev_lazy = record { name = DeviceFile.my_dev; fops = my_fops_lazy }

  -- mmap4.c: the operations of its areas, and what its `my_mmap` writes.
  unfoldable pub vm_ops_page : VmOperations FaultPage
  unfolding my_fault_page
  vm_ops_page = record { fault = some my_fault_page }

  unfoldable pub my_mmap_page : MmapFaulting FaultPage
  unfolding vm_ops_page
  my_mmap_page vm_flags = pure (val 0, bit_or vm_flags k.vm_mixedmap, vm_ops_page)

  unfoldable pub my_fops_page : FileOperations (Unit {0}) (MmapFaulting FaultPage)
  unfolding my_mmap_page
  my_fops_page = record { unlocked_ioctl = none; mmap = some my_mmap_page }

  unfoldable pub mdev_page : MiscDevice (Unit {0}) (MmapFaulting FaultPage)
  unfolding my_fops_page
  mdev_page = record { name = DeviceFile.my_dev; fops = my_fops_page }
