-- ===== src/DmaBuf/Zeroed.antt =====
-- The life of the page of dma-buf/02 to 07: `exporter_alloc_page`, `exporter_init` and
-- `exporter_release`.
mod Tests
use sample_code.Base.{ℕ, ◌≡◌, refl, ◌⊎◌, inl, inr, none, some, List, ◌∷◌, Option-cases}
use sample_code.Effect.{Cmd}
use sample_code.Effect.Spec
use sample_code.Effect.Spec.{Returns, returns}
use sample_code.Kernel.{
  Kernel, Ptr, null, err_ptr, at, Ret, val, err, Res, mem_ref, buffer_ref, Ret-cases, page_size,
  Event,
}
use sample_code.Kernel.Held.{Holds, gain, skip, drop}
use sample_code.DmaBuf.Core.{DmaBuf, DmaBufOps}
use sample_code.DmaBuf.Exported.{
  page_info, alloc_zeroed, init_misc, free_and_clear, Exported, Loaded, init_misc-Loaded,
}
use sample_code.DmaBuf.Sync
use sample_code.DmaBuf.ShareFd
use sample_code.DmaBuf.FdMmap
use sample_code.DmaBuf.MiscMmap

-- The samples with a device over a zeroed block: dma-buf/04, 05, 06 and 07.
pub data Sample : Type 0 where
  fd_mmap misc_mmap share_fd sync : Sample

module _ (k : Kernel) where
  unfoldable pub init_of : Sample → Cmd Event (Ret × Ptr)
  unfolding FdMmap.exporter_init MiscMmap.exporter_init ShareFd.exporter_init Sync.exporter_init
      FdMmap.exporter_alloc_page MiscMmap.exporter_alloc_page ShareFd.exporter_alloc_page
      Sync.exporter_alloc_page
  init_of fd_mmap = FdMmap.exporter_init k
  init_of misc_mmap = MiscMmap.exporter_init k
  init_of share_fd = ShareFd.exporter_init k
  init_of sync = Sync.exporter_init k

  unfoldable pub ops_of : Sample → DmaBufOps Ptr
  unfolding FdMmap.exp_dmabuf_ops MiscMmap.exp_dmabuf_ops ShareFd.exp_dmabuf_ops Sync.exp_dmabuf_ops
  ops_of fd_mmap = FdMmap.exp_dmabuf_ops k
  ops_of misc_mmap = MiscMmap.exp_dmabuf_ops k
  ops_of share_fd = ShareFd.exp_dmabuf_ops k
  ops_of sync = Sync.exp_dmabuf_ops k

  pub alloc_zeroed-Exported :
      {l : List Event} {h : List Res} → Holds l h → Returns (Exported mem_ref h) (alloc_zeroed k l)
  unfolding alloc_zeroed
  alloc_zeroed-Exported {l} {h} q = elim (Option-cases (k.kzalloc l page_size)) [
    | inl e ↦ rw e (returns (inl (refl, skip (Event.kzalloc page_size null) refl q)))
    | inr (p, e) ↦
        let l₁ = Event.kzalloc page_size (at p) ∷ l in
        let info = page_info (at p) in
        let q₁ = gain (Event.kzalloc page_size (at p)) refl q in
        rw e (elim (Ret-cases (k.dma_buf_export l₁ info)) [
          | inl (b, f) ↦ rw f (
              returns (
                inr (
                  b,
                  p,
                  refl,
                  skip (Event.sprintf_hello (at p)) refl
                      (gain (Event.dma_buf_export info (at b)) refl q₁),
                )))
          | inr (c, f) ↦ rw f (
              returns (
                inl (
                  refl,
                  drop (Event.kfree (at p)) refl
                      (skip (Event.dma_buf_export info (err_ptr c)) refl q₁),
                )))
        ])
  ]

  -- For every kernel, loading one of the exporters of dma-buf/04 to 07 ends in one of three ways:
  -- loaded, with the block, its buffer and the device held; -ENOMEM, with nothing more held than
  -- before; or the error of `misc_register`, with the block and the buffer still held.
  init_of-Loaded :
      (s : Sample) {l : List Event} {h : List Res}
      → Holds l h
      → Returns (Loaded mem_ref h) (init_of s l)
  unfolding init_of
  init_of-Loaded s {l} {h} q = go s
    where
      all : Returns (Loaded mem_ref h) (init_misc k (alloc_zeroed k) l)
      all = init_misc-Loaded k mem_ref (alloc_zeroed k) l (alloc_zeroed-Exported q)

      go : (s : Sample) → Returns (Loaded mem_ref h) (init_of s l)
      go fd_mmap = all
      go misc_mmap = all
      go share_fd = all
      go sync = all

  -- The release callback of each of them, for a buffer whose block is held on top, frees that
  -- block and clears `dmabuf_exported`.
  release-clears :
      (s : Sample) (d : DmaBuf Ptr) (p : ℕ) {l : List Event} {h : List Res}
      → d.priv ≡ at p
      → Holds l (mem_ref (at p) ∷ h)
      → Returns (λ g l'. (g ≡ some null) × Holds l' h) ((ops_of s).release d l)
  unfolding ops_of free_and_clear
  release-clears s d p {l} {h} e q = go s
    where
      all : Returns (λ g l'. (g ≡ some null) × Holds l' h) (free_and_clear d l)
      all = rw e (returns (refl, drop (Event.kfree (at p)) refl q))

      go : (s : Sample) → Returns (λ g l'. (g ≡ some null) × Holds l' h) ((ops_of s).release d l)
      go fd_mmap = all
      go misc_mmap = all
      go share_fd = all
      go sync = all
