-- ===== src/DmaBuf/Machine/Tests.antt =====
-- The theorems about share_fd.c at two concrete machines.
use sample_code.Base.{ℕ, ◌≡◌, refl, Option, none, some, List, []}
use sample_code.Effect.{ok}
use sample_code.Effect.Spec.{Returns}
use sample_code.Kernel.{Kernel, Ptr, null, err_ptr, at, Ret, val, err, enodev, Event}
use sample_code.Kernel.Granting.{kernel}
use sample_code.Posix.{Sys, DeviceFile, success}
use sample_code.DmaBuf.Machine
use sample_code.DmaBuf.Machine.{given, fd_pair, page_pair, drivers, replay, machine}
use sample_code.DmaBuf.Programs.{share_fd}

abbrev opens : List Sys → DeviceFile → Option ℕ
opens l f = some 4

abbrev maps : List Sys → ℕ → Ret → Option ℕ
maps l size fd = none

share_fd-Shares_example :
    Returns
      (λ x l.
        Machine.Share.Shares
          (drivers kernel (at 9) page_pair)
          opens
          maps
          []
          x
          (replay (drivers kernel (at 9) page_pair) l []))
      (share_fd (machine (drivers kernel (at 9) page_pair) opens maps []) [])
share_fd-Shares_example =
    Machine.Share.share_fd-Shares (drivers kernel (at 9) page_pair) opens maps []

abbrev found : Option Ptr → Ret
found none = err enodev
found (some null) = err enodev
found (some (err_ptr e)) = err e
found (some (at a)) = val a

abbrev find : List Event → Ret → Ret
find l (val g) = found (given g l)
find l (err e) = err e

-- A kernel that keeps the descriptors that it gave.
abbrev finding : Kernel
finding = record kernel { dma_buf_get = find }

finding-Finds : Machine.Reads.Finds finding
finding-Finds l g a e = rw e refl

share_fd-reading_example :
    Returns
      (λ x l.
        (x ≡ success)
        × (replay (drivers finding (at 9) fd_pair) l []
            ≡ ok tt (Machine.Reads.reading finding 9 3 [])))
      (share_fd (machine (drivers finding (at 9) fd_pair) opens maps []) [])
share_fd-reading_example =
    Machine.Reads.share_fd-reading finding 9 3 opens maps [] finding-Finds (λ l f. λ x. cc) refl
      (λ l. refl) (λ l. refl)
