-- ===== src/DmaBuf/PageExporter/Alloc.antt =====
-- What the exporter of dma-buf/08/exporter-page.c holds after loading, release and unloading.
use sample_code.Base.{ℕ, ◌≡◌, refl, inl, inr, List, ◌∷◌, Option-cases, arith}
use sample_code.Effect.{ok}
use sample_code.Effect.Spec
use sample_code.Effect.Spec.{Returns, returns}
use sample_code.Kernel.{
  Kernel, Ptr, null, err_ptr, at, Ret, val, Res, page_ref, buffer_ref, device_ref, Ret-cases, Event,
}
use sample_code.Kernel.Held.{Holds, gain, skip, drop}
use sample_code.DmaBuf.Exported.{Exported, Loaded, loaded, no_memory, no_device, init_misc-Loaded}
use sample_code.DmaBuf.PageExporter.{
  page_export_info, exporter_alloc_page, exporter_init, exporter_exit,
}

module _ (k : Kernel) where
  pub exporter_alloc_page-Exported :
      {l : List Event} {h : List Res}
      → Holds l h
      → Returns (Exported page_ref h) (exporter_alloc_page k l)
  unfolding exporter_alloc_page
  exporter_alloc_page-Exported {l} {h} q = elim (Option-cases (k.alloc_page l)) [
    | inl e ↦ rw e (returns (inl (refl, skip (Event.alloc_page null) refl q)))
    | inr (p, e) ↦
        let l₁ = Event.alloc_page (at p) ∷ l in
        let info = page_export_info (at p) in
        let q₁ = gain (Event.alloc_page (at p)) refl q in
        rw e (elim (Ret-cases (k.dma_buf_export l₁ info)) [
          | inl (b, f) ↦ rw f (
              returns (
                inr (
                  b,
                  p,
                  refl,
                  skip (Event.sprintf_hello _) refl
                      (gain (Event.dma_buf_export info (at b)) refl q₁),
                )))
          | inr (c, f) ↦ rw f (
              returns (
                inl (
                  refl,
                  drop (Event.put_page (at p)) refl
                      (skip (Event.dma_buf_export info (err_ptr c)) refl q₁),
                )))
        ])
  ]

  -- For every kernel, loading ends in one of three ways: loaded, with the page, its buffer and
  -- the device held; -ENOMEM, with nothing more held than before; or the error of
  -- `misc_register`, with the page and the buffer still held though no module stays loaded.
  pub exporter_init-Loaded :
      {l : List Event} {h : List Res} → Holds l h → Returns (Loaded page_ref h) (exporter_init k l)
  unfolding exporter_init
  exporter_init-Loaded {l} q =
      init_misc-Loaded k page_ref (exporter_alloc_page k) l (exporter_alloc_page-Exported q)

  Loaded-buffer :
      {h : List Res} {x : Ret × Ptr} {l : List Event}
      → Loaded page_ref h x l
      → x.0 ≡ val 0
      → (b : ℕ) × (p : ℕ) × (x.1 ≡ at b)
        × Holds l (device_ref ∷ buffer_ref (at b) ∷ page_ref (at p) ∷ h)
  Loaded-buffer (loaded b p q) e = (b, p, refl, q)
  Loaded-buffer (no_memory q) e = cc
  Loaded-buffer (no_device b p c q) e = cc

  -- After a successful load, unloading gives back the device and nothing else: the buffer that
  -- `dmabuf_exported` points to and its page stay held.
  load-unload :
      {l m : List Event} {h : List Res} {b : ℕ}
      → Holds l h
      → exporter_init k l ≡ ok (val 0, at b) m
      → Returns
          (λ _ l'. (p : ℕ) × Holds l' (buffer_ref (at b) ∷ page_ref (at p) ∷ h))
          (exporter_exit k m)
  unfolding exporter_exit
  load-unload {m} {b} q e =
      let (b', p, f, r) =
        Loaded-buffer (Spec.at_result (val 0, at b) m (exporter_init-Loaded q) e) refl in
      let same : b' ≡ b = ground arith in
      returns (p, drop Event.misc_deregister refl (rw same at r))
