-- ===== src/DmaBuf/Machine.antt =====
-- A machine on which an exporter and an importer are loaded: each ioctl that a program makes runs
-- the handler of the driver, on the log of the kernel that the calls before it have left.

mod Share
mod Kept
mod Reads
mod Tests
use sample_code.Base.{◌==◌, if◌then◌else◌, ℕ, zero, Option, none, some, List, [], ◌∷◌}
use sample_code.Effect.{Run, ok, fault, Cmd, pure, ◌>>=◌, ◌>>◌}
use sample_code.Kernel.{Kernel, Ptr, Ret, val, err, other, Event, fd_answer}
use sample_code.Posix.{Sys, DeviceFile, Os}
use sample_code.Posix.Device.{ioctl_of}
use sample_code.DmaBuf.Importer
use sample_code.DmaBuf.Importer.Early.{mdev_fd}
use sample_code.DmaBuf.PageExporter
use sample_code.DmaBuf.ShareFd

-- The ioctl handlers of /dev/exporter and /dev/importer.
pub record Drivers : Type 0 where
  pub export_fd : Cmd Event Ret
  pub import_fd : Ret → Cmd Event Ret

-- dma-buf/06 and 08
pub data Sample : Type 0 where
  fd_pair page_pair : Sample

-- -ENOTTY
abbrev pub no_ioctl : {A : Type 0} → A → Cmd Event Ret
no_ioctl a = pure (err (other 25))

-- `dmabuf_exported` is what the exporter's load made.
unfoldable pub drivers : Kernel → Ptr → Sample → Drivers
drivers k dmabuf_exported fd_pair = record {
  export_fd = ioctl_of no_ioctl (ShareFd.mdev k) dmabuf_exported;
  import_fd = ioctl_of no_ioctl (mdev_fd k);
}
drivers k dmabuf_exported page_pair = record {
  export_fd = ioctl_of no_ioctl (PageExporter.mdev k) dmabuf_exported;
  import_fd = ioctl_of no_ioctl (Importer.mdev k);
}

-- What an exporter's ioctl stored for its caller, if it told of no failure.
abbrev pub stored : Run Event Ret → Option Ret
stored (ok (val zero) (Event.copy_to_user (fd_answer g) zero ∷ l)) = some g
stored r = none

-- The buffer that a descriptor was last given for.
abbrev pub given : ℕ → List Event → Option Ptr
given g [] = none
given g (Event.dma_buf_fd d (val f) ∷ l) = if g == f then some d else given g l
given g (e ∷ l) = given g l

module _ (d : Drivers) where
  unfoldable pub handle : Sys → Cmd Event (Unit {0})
  handle (Sys.get_dmabuf fd answer) = do d.export_fd; pure tt
  handle (Sys.import_dmabuf fd g) = do d.import_fd g; pure tt
  handle s = pure tt

  -- The handlers of a log of system calls, the newest of which is the first of the list.
  unfoldable pub replay : List Sys → Cmd Event (Unit {0})
  unfolding handle
  replay [] = pure tt
  replay (s ∷ l) = replay l >> handle s

  -- Over the log `l₀` of the kernel. The rest of the operating system is not the drivers'.
  unfoldable pub machine :
      (List Sys → DeviceFile → Option ℕ) → (List Sys → ℕ → Ret → Option ℕ) → List Event → Os
  unfolding replay
  machine opens maps l₀ = record {
    open_file = opens;
    get_dmabuf = λ l fd. stored ((replay l >> d.export_fd) l₀);
    ion_alloc = λ l fd len. none;
    mmap = maps;
  }
