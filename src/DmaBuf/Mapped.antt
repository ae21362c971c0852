-- ===== src/DmaBuf/Mapped.antt =====
-- A machine on which an exporter of dma-buf/04, 05, 07 or 08 is loaded: the system calls that a
-- program makes on the exporter's device and on descriptors of its buffer run the exporter's
-- callbacks.
mod Shown
mod Tests
use sample_code.Base.{ℕ, ◌+◌, Bool, true, false, Option, none, some, List, [], ◌∷◌, if◌then◌else◌}
use sample_code.Effect.{Run, ok, fault, Cmd, pure, ◌>>=◌, ◌>>◌}
use sample_code.Kernel.{
  Kernel, Ptr, null, err_ptr, at, Ret, val, err, enodev, Direction, from_device, Vma, nonzero,
  Event,
}
use sample_code.Posix.Device.{ioctl_of, MiscDevice}
use sample_code.Posix.{Sys, DeviceFile, Os}
use sample_code.DmaBuf.Core.{DmaBuf, DmaBufOps}
use sample_code.DmaBuf.FdMmap
use sample_code.DmaBuf.MiscMmap
use sample_code.DmaBuf.Machine.{no_ioctl, stored, given}
use sample_code.DmaBuf.PageExporter
use sample_code.DmaBuf.Sync

-- An exporter with its only buffer.
pub record Exporter : Type 0 where
  pub ops : DmaBufOps Ptr
  pub buffer : DmaBuf Ptr
  pub ioctl : Cmd Event Ret
  -- What mapping the device file itself runs, which the exporters but 05 leave out.
  pub mmap : Option (Vma → Cmd Event Ret)

-- dma-buf/04, 05, 07 and 08
pub data Sample : Type 0 where
  fd_mmap misc sync page : Sample

abbrev own_mmap :
    {I : Type 0} → MiscDevice I (Ptr → Vma → Cmd Event Ret) → Ptr → Option (Vma → Cmd Event Ret)
own_mmap dev dmabuf_exported = elim dev.fops.mmap [
  | none ↦ none
  | some f ↦ some (f dmabuf_exported)
]

-- The buffer stands at `dmabuf_exported`, over `priv`, and no device is attached to it.
unfoldable pub exporter_of : Kernel → Ptr → Ptr → Sample → Exporter
exporter_of k dmabuf_exported priv fd_mmap = record {
  ops = FdMmap.exp_dmabuf_ops k;
  buffer = record { priv = priv; attachments = [] };
  ioctl = ioctl_of no_ioctl (FdMmap.mdev k) dmabuf_exported;
  mmap = none;
}
exporter_of k dmabuf_exported priv misc = record {
  ops = MiscMmap.exp_dmabuf_ops k;
  buffer = record { priv = priv; attachments = [] };
  ioctl = no_ioctl dmabuf_exported;
  mmap = own_mmap (MiscMmap.mdev k) dmabuf_exported;
}
exporter_of k dmabuf_exported priv sync = record {
  ops = Sync.exp_dmabuf_ops k;
  buffer = record { priv = priv; attachments = [] };
  ioctl = ioctl_of no_ioctl (Sync.mdev k) dmabuf_exported;
  mmap = none;
}
exporter_of k dmabuf_exported priv page = record {
  ops = PageExporter.exp_dmabuf_ops k;
  buffer = record { priv = priv; attachments = [] };
  ioctl = ioctl_of no_ioctl (PageExporter.mdev k) dmabuf_exported;
  mmap = none;
}

abbrev is_some : Option Ptr → Bool
is_some none = false
is_some (some p) = true

-- A descriptor that the exporter's ioctl gave out.
abbrev is_buffer : Ret → List Event → Bool
is_buffer (val g) l = is_some (given g l)
is_buffer (err e) l = false

abbrev only_if : (List Event → Bool) → Cmd Event (Unit {0}) → Cmd Event (Unit {0})
only_if test m l = (if test l then m else pure tt) l

abbrev answer : Run Event (Option ℕ) → Option ℕ
answer (ok r l) = r
answer (fault l) = none

module _ (x : Exporter) where
  -- The kernel calls what the exporter has set: a program that reads is a device's reader.
  abbrev cpu_access : Option (DmaBuf Ptr → Direction → Cmd Event Ret) → Cmd Event (Unit {0})
  cpu_access none = pure tt
  cpu_access (some f) = f x.buffer from_device >> pure tt

  abbrev map_buffer : Vma → Cmd Event Ret
  map_buffer vma = x.ops.mmap x.buffer vma

  -- Mapping the device runs its handler, and then the callback of the buffer that the handler has
  -- handed to `dma_buf_mmap`.
  abbrev map_device : (Vma → Cmd Event Ret) → Vma → Cmd Event Ret
  map_device f vma = do r ← f vma; if nonzero r then pure r else map_buffer vma

  -- A descriptor is that of the device, where that can be mapped, or of the buffer.
  abbrev map_file : Ret → Vma → Cmd Event Ret
  map_file g vma l = elim x.mmap [
    | some f ↦ map_device f vma l
    | none ↦ (if is_buffer g l then map_buffer vma else pure (err enodev)) l
  ]

  -- At the address that the kernel has chosen, if it has one.
  abbrev map_at : Option ℕ → ℕ → Ret → Cmd Event (Option ℕ)
  map_at none size g = pure none
  map_at (some a) size g = do
    r ← map_file g (record { vm_start = a; vm_end = a + size; vm_pgoff = 0 })
    pure (if nonzero r then none else some a)

  module _ (places : List Sys → ℕ → Option ℕ) where
    -- A system call that is made after those of `l`.
    unfoldable pub serve : Sys → List Sys → Cmd Event (Unit {0})
    serve (Sys.get_dmabuf fd r) l = do x.ioctl; pure tt
    serve (Sys.sync_start g) l = only_if (is_buffer g) (cpu_access x.ops.begin_cpu_access)
    serve (Sys.sync_end g) l = only_if (is_buffer g) (cpu_access x.ops.end_cpu_access)
    serve (Sys.mmap size g r) l = do map_at (places l size) size g; pure tt
    serve s l = pure tt

    unfoldable pub serve_all : List Sys → Cmd Event (Unit {0})
    unfolding serve
    serve_all [] = pure tt
    serve_all (s ∷ l) = serve_all l >> serve s l

    unfoldable pub machine : (List Sys → DeviceFile → Option ℕ) → List Event → Os
    unfolding serve_all
    machine opens l₀ = record {
      open_file = opens;
      get_dmabuf = λ l fd. stored ((serve_all l >> x.ioctl) l₀);
      ion_alloc = λ l fd len. none;
      mmap = λ l size g. answer ((serve_all l >> map_at (places l size) size g) l₀);
    }
