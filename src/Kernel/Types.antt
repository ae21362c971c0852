-- ===== src/Kernel/Types.antt =====
-- Pointers, error codes and the small structures that the drivers share with the kernel.
use sample_code.Base.{
  ◌≡◌, refl, ◌⊎◌, inl, inr, ℕ, zero, suc, Bool, true, false, Option, none, some, ℕ_discrete,
}

pub data Errno : Type 0 where
  enomem einval efault enodev : Errno
  other : ℕ → Errno

-- A kernel pointer: NULL, ERR_PTR(-e), or the address of an object.
pub data Ptr : Type 0 where
  null : Ptr
  err_ptr : Errno → Ptr
  at : ℕ → Ptr

-- An `int` result: a value that is not negative, or -e.
pub data Ret : Type 0 where
  val : ℕ → Ret
  err : Errno → Ret

pub data Direction : Type 0 where
  bidirectional to_device from_device : Direction

abbrev pub is_null : Ptr → Bool
is_null null = true
is_null (err_ptr e) = false
is_null (at a) = false

-- IS_ERR
abbrev pub is_err : Ptr → Bool
is_err null = false
is_err (err_ptr e) = true
is_err (at a) = false

-- PTR_ERR: the pointer as a number, so 0 for NULL.
abbrev pub ptr_err : Ptr → Ret
ptr_err null = val 0
ptr_err (err_ptr e) = err e
ptr_err (at a) = val a

-- An allocator's answer, a status, and an answer that is an address or an ERR_PTR.
abbrev pub to_ptr : Option ℕ → Ptr
to_ptr none = null
to_ptr (some a) = at a

abbrev pub to_ret : Option Errno → Ret
to_ret none = val 0
to_ret (some e) = err e

abbrev pub ret_ptr : Ret → Ptr
ret_ptr (val a) = at a
ret_ptr (err e) = err_ptr e

-- A pointer as a number.
abbrev pub to_address : Ptr → ℕ
to_address null = 0
to_address (err_ptr e) = 0
to_address (at a) = a

-- `if (ret)`
abbrev pub nonzero : Ret → Bool
nonzero (val zero) = false
nonzero (val (suc n)) = true
nonzero (err e) = true

-- ERR_PTR of an `int`: an address for a positive number, NULL for 0.
abbrev pub to_err_ptr : Ret → Ptr
to_err_ptr (val zero) = null
to_err_ptr (val (suc n)) = at (suc n)
to_err_ptr (err e) = err_ptr e

abbrev pub page_size : ℕ
page_size = 4096

-- The fields of `struct dma_buf_export_info` that a driver sets; `flags` is O_CLOEXEC in each.
pub record ExportInfo : Type 0 where
  pub size : ℕ
  pub cloexec : Bool
  pub priv : Ptr

-- The fields of `struct vm_area_struct` that a driver reads.
pub record Vma : Type 0 where
  pub vm_start : ℕ
  pub vm_end : ℕ
  pub vm_pgoff : ℕ

-- `struct ion_allocation_data` of the staging header, as far as the drivers use it.
pub record IonAllocationData : Type 0 where
  pub len : ℕ
  pub fd : Ret

-- What a driver copies to user space.
pub data Answer : Type 0 where
  fd_answer : Ret → Answer
  ion_answer : IonAllocationData → Answer

-- What a driver can hold.
pub data Res : Type 0 where
  mem_ref : Ptr → Res
  page_ref : Ptr → Res
  sg_entries : Ptr → Res
  sg_mapping : Ptr → Res
  dma_mapping : ℕ → Res
  buffer_ref : Ptr → Res
  map_ref : Ptr → Res
  attach_ref : Ptr → Res
  table_ref : Ptr → Res
  kmap_ref : Ptr → Res
  vmap_ref : Ptr → Res
  device_ref : Res

pub Errno-discrete : Discrete Errno
Errno-discrete = hlevel ℕ_discrete

pub Ptr-discrete : Discrete Ptr
Ptr-discrete = hlevel (Errno-discrete, ℕ_discrete)

pub Res-discrete : Discrete Res
Res-discrete = hlevel (Ptr-discrete, ℕ_discrete)

pub Ret-cases : (r : Ret) → ((a : ℕ) × (r ≡ val a)) ⊎ ((e : Errno) × (r ≡ err e))
Ret-cases (val a) = inl (a, refl)
Ret-cases (err e) = inr (e, refl)
