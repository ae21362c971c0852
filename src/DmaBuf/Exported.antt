-- ===== src/DmaBuf/Exported.antt =====
-- What the exporters with a global `dmabuf_exported` have in common, character for character:
-- `exporter_ioctl` and `exporter_init` of dma-buf/04, 06, 07 and 08, `exporter_init` of 05.
use sample_code.Base.{
  ℕ, ◌≡◌, refl, ◌⊎◌, inl, inr, true, Option, some, List, ◌∷◌, if◌then◌else◌, ne_zero, Option-cases,
}
use sample_code.Effect.{Cmd, pure, emit, ◌>>=◌, ◌>>◌}
use sample_code.Effect.Spec
use sample_code.Effect.Spec.{Returns, returns}
use sample_code.Kernel.{
  Kernel, Ptr, null, at, Ret, val, err, Errno, enomem, efault, is_null, fd_answer, Res, buffer_ref,
  device_ref, Event, enodev, is_err, page_size, ExportInfo, Vma, Direction, kzalloc, dma_buf_export,
  dma_buf_fd, copy_to_user, misc_register,
}
use sample_code.DmaBuf.Core.{DmaBuf}
use sample_code.Kernel.Held.{Holds, gain, skip}

module _ (k : Kernel) where
  -- `exporter_ioctl`: a descriptor for the buffer, copied to the caller.
  unfoldable pub share_fd : Ptr → Cmd Event Ret
  share_fd dmabuf_exported = do
    fd ← dma_buf_fd k dmabuf_exported
    left ← copy_to_user k (fd_answer fd)
    if ne_zero left then pure (err efault) else pure (val 0)

  -- `exporter_init` over its `exporter_alloc_page`: the result, and the new `dmabuf_exported`.
  unfoldable pub init_misc : Cmd Event Ptr → Cmd Event (Ret × Ptr)
  init_misc alloc = do
    dmabuf_exported ← alloc
    if is_null dmabuf_exported
        then pure (err enomem, dmabuf_exported)
        else do r ← misc_register k; pure (r, dmabuf_exported)

-- `exp_info` over `vaddr`, as each of them fills it in.
abbrev pub page_info : Ptr → ExportInfo
page_info vaddr = record { size = page_size; cloexec = true; priv = vaddr }

module _ (k : Kernel) where
  -- `exporter_alloc_page` of dma-buf/02 to 07: a zeroed block from the slab allocator.
  unfoldable pub alloc_zeroed : Cmd Event Ptr
  alloc_zeroed = do
    vaddr ← kzalloc k page_size
    if is_null vaddr then pure null else do
      dmabuf ← dma_buf_export k (page_info vaddr)
      if is_err dmabuf
          then (emit (Event.kfree vaddr) >> pure null)
          else do emit (Event.sprintf_hello vaddr); pure dmabuf

  -- `exporter_init` of dma-buf/02 and 03, which registers no device.
  unfoldable pub init_plain : Cmd Event Ptr → Cmd Event (Ret × Ptr)
  init_plain alloc = do
    dmabuf_exported ← alloc
    if is_null dmabuf_exported
        then pure (err enomem, dmabuf_exported)
        else pure (val 0, dmabuf_exported)

-- `exporter_release` of dma-buf/04 to 07 frees the block and clears `dmabuf_exported`.
unfoldable pub free_and_clear : DmaBuf Ptr → Cmd Event (Option Ptr)
free_and_clear d = emit (Event.kfree d.priv) >> pure (some null)

-- The callbacks that most of them share: a map callback that gives NULL, an unmap callback that
-- does nothing, and a mmap callback that refuses.
abbrev pub map_nothing : DmaBuf Ptr → Direction → Cmd Event Ptr
map_nothing d dir = pure null

abbrev pub unmap_nothing : DmaBuf Ptr → Ptr → Direction → Cmd Event (Unit {0})
unmap_nothing d table dir = pure tt

abbrev pub kmap_nothing : DmaBuf Ptr → ℕ → Cmd Event Ptr
kmap_nothing d page_num = pure null

-- The block itself, for every page number.
abbrev pub kmap_block : DmaBuf Ptr → ℕ → Cmd Event Ptr
kmap_block d page_num = pure d.priv

abbrev pub vmap_block : DmaBuf Ptr → Cmd Event Ptr
vmap_block d = pure d.priv

abbrev pub no_mmap : DmaBuf Ptr → Vma → Cmd Event Ret
no_mmap d vma = pure (err enodev)

-- NULL with nothing more held, or a buffer `b` over memory `p`, both held.
module _ (backing : Ptr → Res) where
  abbrev pub Exported : List Res → Ptr → List Event → Type 0
  Exported h r l =
      ((r ≡ null) × Holds l h)
      ⊎ ((b : ℕ) × (p : ℕ) × (r ≡ at b) × Holds l (buffer_ref (at b) ∷ backing (at p) ∷ h))

  -- The three ways `exporter_init` ends: loaded, out of memory, or with the buffer made and no
  -- device.
  pub data Loaded (h : List Res) : Ret × Ptr → List Event → Type 0 where
    loaded :
        {l : List Event} (b p : ℕ)
        → Holds l (device_ref ∷ buffer_ref (at b) ∷ backing (at p) ∷ h)
        → Loaded h (val 0, at b) l
    no_memory : {l : List Event} → Holds l h → Loaded h (err enomem, null) l
    no_device :
        {l : List Event} (b p : ℕ) (e : Errno)
        → Holds l (buffer_ref (at b) ∷ backing (at p) ∷ h)
        → Loaded h (err e, at b) l

module _ (k : Kernel) (backing : Ptr → Res) where
  pub init_misc-Loaded :
      (alloc : Cmd Event Ptr) {h : List Res} (l : List Event)
      → Returns (Exported backing h) (alloc l)
      → Returns (Loaded backing h) (init_misc k alloc l)
  unfolding init_misc
  init_misc-Loaded alloc l ex = Spec.bind ex λ r m got. elim got [
    | inl (e, q) ↦ rw e (returns (no_memory q))
    | inr (b, p, e, q) ↦ rw e (elim (Option-cases (k.misc_register m)) [
      | inl f ↦ rw f (returns (loaded b p (gain (Event.misc_register (val 0)) refl q)))
      | inr (c, f) ↦ rw f (returns (no_device b p c (skip (Event.misc_register (err c)) refl q)))
    ])
  ]
