-- ===== src/DmaBuf/Importer/Ioctl.antt =====
-- `importer_ioctl` of dma-buf/08/importer-page.c.
use sample_code.Base.{ℕ, suc, refl, inl, inr, List, ◌∷◌, ℕ-cases}
use sample_code.Effect.Spec
use sample_code.Effect.Spec.{Returns, returns}
use sample_code.Kernel.{
  Kernel, err_ptr, at, Ret, val, err, Errno, efault, Res, mem_ref, Ret-cases, Event,
}
use sample_code.Kernel.Held.{Holds, here, gain, skip, drop, drop_below}
use sample_code.DmaBuf.Importer.{importer_ioctl}
use sample_code.DmaBuf.Importer.Dma.{importer_test1-Holds, importer_test2-leaks}

-- How a call of `importer_ioctl` ends: without a buffer, or with its reference put again and at
-- most the block of one device held on top.
pub data Imported (h : List Res) : Ret → List Event → Type 0 where
  not_read : {l : List Event} → Holds l h → Imported h (err efault) l
  no_buffer : {l : List Event} (e : Errno) → Holds l h → Imported h (err e) l
  clean : {l : List Event} → Holds l h → Imported h (val 0) l
  leaked : {l : List Event} (dev : ℕ) → Holds l (mem_ref (at dev) ∷ h) → Imported h (val 0) l

-- For every kernel `importer_ioctl` ends in one of the ways of `Imported`, having used the buffer
-- only while it held its reference and the attachment only while it was attached, and unmapped by
-- CPU what it mapped: the reference that it took to the buffer is always put, and once it has the buffer
-- it answers 0, whatever its two tests report.
pub importer_ioctl-Imported :
    (k : Kernel) (fd : Ret) {l : List Event} {h : List Res}
    → Holds l h
    → Returns (Imported h) (importer_ioctl k fd l)
unfolding importer_ioctl
importer_ioctl-Imported k fd {l} q = elim (ℕ-cases (k.copy_from_user l)) [
  | inr (n, e) ↦ rw e (returns (not_read (skip (Event.copy_from_user (suc n)) refl q)))
  | inl e ↦
      let l₁ = Event.copy_from_user 0 ∷ l in
      let q₁ = skip (Event.copy_from_user 0) refl q in
      rw e (elim (Ret-cases (k.dma_buf_get l₁ fd)) [
        | inr (c, f) ↦
            rw f (returns (no_buffer c (skip (Event.dma_buf_get fd (err_ptr c)) refl q₁)))
        | inl (b, f) ↦ rw f (
            Spec.bind
              (importer_test1-Holds k (at b) (here _ _)
                (gain (Event.dma_buf_get fd (at b)) refl q₁))
              λ _ m p₁. Spec.bind (importer_test2-leaks k (at b) (here _ _) p₁.1) λ _ n p₂.
                elim p₂ [
                  | inl (_, p₃) ↦ returns (clean (drop (Event.dma_buf_put (at b)) refl p₃))
                  | inr (dev, p₃) ↦
                      returns (leaked dev (drop_below (Event.dma_buf_put (at b)) refl (λ x. cc) p₃))
                ])
      ])
]
