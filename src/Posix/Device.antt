-- ===== src/Posix/Device.antt =====
-- What a driver registers with `misc_register`: the name of its file under /dev, and the functions
-- that the system calls on the file run. A member is `none` where the driver leaves it NULL.
use sample_code.Base.{Option, none, some}
use sample_code.Posix.Calls.{DeviceFile}

-- `I` and `M` are the types of the driver's ioctl and mmap.
pub record FileOperations (I M : Type 0) : Type 0 where
  pub unlocked_ioctl : Option I
  pub mmap : Option M

pub record MiscDevice (I M : Type 0) : Type 0 where
  pub name : DeviceFile
  pub fops : FileOperations I M

-- What an ioctl on the file runs; `refuse` where there is no handler.
abbrev pub ioctl_of : {I M : Type 0} → I → MiscDevice I M → I
ioctl_of refuse dev = elim dev.fops.unlocked_ioctl [ none ↦ refuse | some f ↦ f ]

abbrev pub mmap_of : {I M : Type 0} → M → MiscDevice I M → M
mmap_of refuse dev = elim dev.fops.mmap [ none ↦ refuse | some f ↦ f ]
