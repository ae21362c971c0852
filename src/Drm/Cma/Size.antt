-- ===== src/Drm/Cma/Size.antt =====
-- What the buffers of drm/driver/cma/dumb.c hold, and what becomes of failures.
use sample_code.Base.{
  ℕ, ◌-◌, ◌*◌, ◌/◌, ◌%◌, ◌≤◌, ◌<◌, ◌≡◌, ◌↔◌, refl, inl, inr, Option, none, some, List, ◌∷◌, arith,
  Option-cases, ◌⊎◌, u32_mod,
}
use sample_code.Effect.{ok, fault}
use sample_code.Effect.Spec.{Returns, returns}
use sample_code.Kernel.{Kernel, Ret, val, page_size, Vma, to_ret, Event}
use sample_code.Drm.Cma.{
  DrmGemCmaObject, DumbArgs, dumb_pitch, drm_gem_cma_dumb_create, drm_gem_cma_mmap,
}

pitch-holds : (n : ℕ) → (n ≤ n % u32_mod / 8 * 8) ↔ ((n % 8 ≡ 0) × (n < u32_mod))
pitch-holds n = ((λ h. (omega arith, omega arith)), λ h. omega (arith, h.0, h.1))

size-holds : (n : ℕ) → (n ≤ n % u32_mod) ↔ (n < u32_mod)
size-holds n = ((λ h. omega arith), λ h. omega arith)

-- The answer to a request is right: a row of pixels fits into the pitch, and the rows into the
-- size. A pixel has `bpp` bits.
pub record Holding (args : DumbArgs) : Type 0 where
  pub row : args.width * args.bpp ≤ args.pitch * 8
  pub rows : args.pitch * args.height ≤ args.size

-- The request that `args` answers asks for rows of whole bytes, and for sizes of less than 2^32.
abbrev pub Whole : DumbArgs → Type 0
Whole args =
    (args.width * args.bpp % 8 ≡ 0)
    × (args.width * args.bpp < u32_mod)
    × (args.pitch * args.height < u32_mod)

module _ (k : Kernel) where
  -- For every kernel that has the memory for the object, the driver answers 0, whatever the DRM
  -- core and the DMA allocation answer, and its answer holds the picture asked for exactly if the
  -- rows are whole bytes and no product wraps: a request of any other kind is answered with a
  -- buffer that is too small. With no memory for the object it accesses NULL.
  pub drm_gem_cma_dumb_create-Holding :
      (args : DumbArgs) (l : List Event)
      → ((k.kzalloc l k.sizeof_cma_object ≡ none)
          × ((m : List Event) × (drm_gem_cma_dumb_create k args l ≡ fault m)))
        ⊎ Returns
            (λ r l'.
              (r.0 ≡ val 0)
              × (r.1.width ≡ args.width)
              × (r.1.height ≡ args.height)
              × (r.1.bpp ≡ args.bpp)
              × (Holding r.1 ↔ Whole r.1))
            (drm_gem_cma_dumb_create k args l)
  unfolding drm_gem_cma_dumb_create
  drm_gem_cma_dumb_create-Holding args l = elim (Option-cases (k.kzalloc l k.sizeof_cma_object)) [
    | inl e ↦ inl (e, rw e (_, refl))
    | inr (p, e) ↦ inr (
        rw e (
          returns (
            refl,
            refl,
            refl,
            refl,
            (
              (λ h.
                  let row = (pitch-holds (args.width * args.bpp)).0 h.row in
                  (
                    row.0,
                    row.1,
                    (size-holds (dumb_pitch args.width args.bpp * args.height)).0 h.rows,
                  )),
              λ w. record {
                row = (pitch-holds (args.width * args.bpp)).1 (w.0, w.1);
                rows = (size-holds (dumb_pitch args.width args.bpp * args.height)).1 w.2;
              },
            ),
          )))
  ]

  -- `drm_gem_cma_mmap` does not look at the result of `drm_gem_mmap`: if that leaves no object
  -- behind, it accesses NULL, and otherwise it maps the block of the object with the length of
  -- the area, whatever the size of the block.
  drm_gem_cma_mmap-answers :
      (private : Ret → Option DrmGemCmaObject) (vma : Vma) (l : List Event)
      → let r = k.drm_gem_mmap l in
        ((private r ≡ none) × (drm_gem_cma_mmap k private vma l ≡ fault (Event.drm_gem_mmap r ∷ l)))
        ⊎ ((o : DrmGemCmaObject) × (q : Ret) × (private r ≡ some o)
            × (drm_gem_cma_mmap k private vma l
                ≡ ok q (
                    Event.remap_pfn_range vma.vm_start
                      (o.paddr / page_size)
                      (vma.vm_end - vma.vm_start)
                      q
                    ∷ Event.drm_gem_mmap r
                    ∷ l)))
  unfolding drm_gem_cma_mmap
  drm_gem_cma_mmap-answers private vma l = elim (Option-cases (private (k.drm_gem_mmap l))) [
    | inl e ↦ inl (e, rw (e, drm_gem_cma_mmap) refl)
    | inr (o, e) ↦ inr (
      o,
      to_ret (
          k.remap_pfn_range (Event.drm_gem_mmap (k.drm_gem_mmap l) ∷ l) vma.vm_start
            (o.paddr / page_size) (vma.vm_end - vma.vm_start)),
      e,
      rw (e, drm_gem_cma_mmap) refl,
    )
  ]
