-- ===== src/DmaBuf/Importer/Dma.antt =====
-- What the DMA test of dma-buf/08/importer-page.c holds when it ends.
use sample_code.Base.{ℕ, ◌≡◌, refl, ◌⊎◌, inl, inr, List, ◌∷◌, Bool-cases, Option-cases}
use sample_code.Effect.Spec
use sample_code.Effect.Spec.{Returns, returns}
use sample_code.Kernel.{
  Kernel, Ptr, null, err_ptr, at, Ret, val, err, enomem, einval, is_null, bidirectional, Res,
  mem_ref, buffer_ref, ret_ptr, Ret-cases, Event,
}
use sample_code.Kernel.Held.{Holds, Has, here, later, gain, skip, gain_from, skip_from, drop_from}
use sample_code.DmaBuf.Importer.{importer_test1, use_attachment, importer_test2}

module _ (k : Kernel) where
  pub importer_test1-Holds :
      (d : Ptr) {l : List Event} {h : List Res}
      → Has (buffer_ref d) h
      → Holds l h
      → Returns (λ r l'. (r ≡ val 0) × Holds l' h) (importer_test1 k d l)
  unfolding importer_test1
  importer_test1-Holds d {l} n q = returns (
    refl,
    drop_from (Event.dma_buf_vunmap d _) refl (later _ _ _ n) (
        gain_from (Event.dma_buf_vmap d _) refl n (
          drop_from (Event.dma_buf_kunmap d 0 _) refl (later _ _ _ n)
            (gain_from (Event.dma_buf_kmap d 0 _) refl n q))),
  )

  -- Whatever comes of the attachment `a` and of its table, both are given back.
  use_attachment-Holds :
      (d dev : Ptr) (a : Ret) {l : List Event} {h : List Res}
      → Has (buffer_ref d) h
      → Holds l h
      → Returns
          (λ r l'. Holds l' h)
          (use_attachment k d (ret_ptr a) (Event.dma_buf_attach d dev (ret_ptr a) ∷ l))
  unfolding use_attachment
  use_attachment-Holds d dev (err e) b q =
      returns (skip_from (Event.dma_buf_attach d dev (err_ptr e)) refl b q)
  use_attachment-Holds d dev (val a) {l} b q =
      let l₁ = Event.dma_buf_attach d dev (at a) ∷ l in
      let q₁ = gain_from (Event.dma_buf_attach d dev (at a)) refl b q in
      elim (Ret-cases (k.dma_buf_map_attachment l₁ (at a) bidirectional)) [
        | inl (t, f) ↦
            let q₂ =
              gain_from (Event.dma_buf_map_attachment (at a) bidirectional (at t)) refl (here _ _)
                q₁ in
            rw f (
              returns (
                drop_from (Event.dma_buf_detach d (at a)) refl (later _ _ _ b) (
                  drop_from (Event.dma_buf_unmap_attachment (at a) (at t) bidirectional) refl
                    (later _ _ _ (here _ _)) q₂)))
        | inr (c, f) ↦ rw f (
            returns (
              drop_from (Event.dma_buf_detach d (at a)) refl (later _ _ _ b) (
                skip_from (Event.dma_buf_map_attachment (at a) bidirectional (err_ptr c)) refl
                  (here _ _) q₁)))
      ]

  -- For every kernel the DMA test of a buffer that is held gives back every attachment and every mapped table, but never
  -- the device that it allocates: it ends with what was held before (a NULL buffer, or no
  -- memory), or with exactly the block of that device held on top.
  pub importer_test2-leaks :
      (d : Ptr) {l : List Event} {h : List Res}
      → Has (buffer_ref d) h
      → Holds l h
      → Returns
          (λ r l'.
            (((r ≡ err einval) ⊎ (r ≡ err enomem)) × Holds l' h)
            ⊎ ((dev : ℕ) × Holds l' (mem_ref (at dev) ∷ h)))
          (importer_test2 k d l)
  unfolding importer_test2
  importer_test2-leaks d {l} b q = elim (Bool-cases (is_null d)) [
    | inl n ↦ rw n (returns (inl (inl refl, q)))
    | inr n ↦ rw n (elim (Option-cases (k.kzalloc l k.sizeof_device)) [
      | inl e ↦ rw e (returns (inl (inr refl, skip (Event.kzalloc _ null) refl q)))
      | inr (dev, e) ↦
          let l₁ = Event.kzalloc k.sizeof_device (at dev) ∷ l in
          rw e (
            Spec.mono
              (use_attachment-Holds d (at dev) (k.dma_buf_attach l₁ d (at dev)) (later _ _ _ b)
                (gain (Event.kzalloc k.sizeof_device (at dev)) refl q))
              λ r l' p. inr (dev, p))
    ])
  ]
