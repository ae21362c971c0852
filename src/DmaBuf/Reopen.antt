-- ===== src/DmaBuf/Reopen.antt =====
-- A second `exporter_ioctl` after the last reference to the buffer is gone, in the samples whose
-- device hands out descriptors: dma-buf/07/exporter-sync.c and 08/exporter-page.c.
use sample_code.Base.{ℕ, ◌≡◌, refl, inl, inr, Option, none, some, List, ◌∷◌, ℕ-cases}
use sample_code.Effect.{Cmd, ◌>>=◌}
use sample_code.Effect.Spec.{Returns, returns}
use sample_code.Kernel.{Kernel, Ptr, null, at, Ret, fd_answer, Event}
use sample_code.DmaBuf.Core.{DmaBuf, DmaBufOps}
use sample_code.DmaBuf.Exported.{share_fd, free_and_clear}
use sample_code.DmaBuf.Sync
use sample_code.DmaBuf.PageExporter

-- `dmabuf_exported` after a release callback.
abbrev pub stored : Option Ptr → Ptr → Ptr
stored none old = old
stored (some new) old = new

-- The kernel drops the buffer `d`, whose address stands in `dmabuf_exported`; then a process
-- asks for a descriptor.
abbrev pub reopen : DmaBufOps Ptr → (Ptr → Cmd Event Ret) → DmaBuf Ptr → Ptr → Cmd Event Ret
reopen ops ioctl d exported = do g ← ops.release d; ioctl (stored g exported)

module _ (k : Kernel) (d : DmaBuf Ptr) (b : ℕ) (l : List Event) where
  -- The last two calls hand the pointer `p` to `dma_buf_fd` and copy the answer out.
  pub record Asked (p : Ptr) (l' : List Event) : Type 0 where
    pub fd : Ret
    pub left : ℕ
    pub before : List Event
    pub log : l' ≡ Event.copy_to_user (fd_answer fd) left ∷ Event.dma_buf_fd p fd ∷ before

  share_fd-Asked : (p : Ptr) (m : List Event) → Returns (λ _. Asked p) (share_fd k p m)
  unfolding share_fd
  share_fd-Asked p m = elim (ℕ-cases (k.copy_to_user (Event.dma_buf_fd p (k.dma_buf_fd m p) ∷ m))) [
    | inl e ↦ rw e (returns (record { fd = _; left = _; before = _; log = refl }))
    | inr (n, e) ↦ rw e (returns (record { fd = _; left = _; before = _; log = refl }))
  ]

  -- The exporter of dma-buf/08 hands the address of the released buffer to `dma_buf_fd`, where
  -- that of dma-buf/07, which clears the global, hands it NULL.
  pub reopen-stale :
      Returns
        (λ _. Asked (at b))
        (reopen (PageExporter.exp_dmabuf_ops k) (PageExporter.exporter_ioctl k) d (at b) l)
      × Returns
          (λ _. Asked null)
          (reopen (Sync.exp_dmabuf_ops k) (Sync.exporter_ioctl k) d (at b) l)
  unfolding PageExporter.exp_dmabuf_ops PageExporter.exporter_release PageExporter.exporter_ioctl
      Sync.exp_dmabuf_ops Sync.exporter_ioctl free_and_clear
  reopen-stale = (share_fd-Asked (at b) _, share_fd-Asked null _)
