-- ===== src/DmaBuf/Ion/Mmap.antt =====
-- What `ion_mmap` of dma-buf/09/exporter-ion.c maps into a process.
use mathlib.Core.List.{reverse_aux}
use sample_code.Base.{
  ℕ, ◌+◌, ◌*◌, ◌<◌, ◌%◌, ◌≡◌, refl, ◌∙◌, List, [], ◌∷◌, ◌++◌, reverse, length, rounds, arith,
  reverse_aux-append, u64_mod,
}
use sample_code.Effect.Spec
use sample_code.Effect.Spec.{Returns, returns}
use sample_code.Kernel.{Kernel, Ptr, val, page_size, Vma, Event}
use sample_code.DmaBuf.Core.{DmaBuf}
use sample_code.DmaBuf.Ion.{IonData, remap_pages, ion_mmap}

-- The ranges that a log maps, the newest first: user address, frame number and length.
abbrev pub remapped : List Event → List (ℕ × ℕ × ℕ)
remapped [] = []
remapped (Event.remap_pfn_range start pfn size r ∷ l) = (start, pfn, size) ∷ remapped l
remapped (_ ∷ l) = remapped l

module _ (k : Kernel) where
  -- Page `i` of the buffer at `start + i * PAGE_SIZE`.
  abbrev pub page_ranges : ℕ → List Ptr → List (ℕ × ℕ × ℕ)
  page_ranges start [] = []
  page_ranges start (p ∷ ps) =
      (start, k.page_to_pfn p, page_size) ∷ page_ranges (start + page_size) ps

  remap_pages-remapped :
      (ps : List Ptr) (start : ℕ) (l : List Event)
      → start + length ps * page_size < u64_mod
      → Returns
          (λ _ l'. remapped l' ≡ reverse_aux (page_ranges start ps) (remapped l))
          (remap_pages k (length ps) ps start l)
  unfolding remap_pages
  remap_pages-remapped [] start l h = returns refl
  remap_pages-remapped (p ∷ ps) start l h =
      let e : (start + page_size) % u64_mod ≡ start + page_size = omega arith in
      rw e (remap_pages-remapped ps (start + page_size) _ (omega arith))

  -- `ion_mmap` maps every page of the buffer, whole, at consecutive addresses from `vm_start`, in
  -- order, and returns 0, whatever the kernel answers to the single calls and wherever the area
  -- of the caller ends. The addresses are taken not to pass the end of the address space.
  pub ion_mmap-remapped :
      (d : DmaBuf IonData) (vma : Vma) (l : List Event)
      → length d.priv.pages ≡ rounds d.priv.npages
      → vma.vm_start + length d.priv.pages * page_size < u64_mod
      → Returns
          (λ r l'.
            (r ≡ val 0)
            × (remapped l' ≡ reverse (page_ranges vma.vm_start d.priv.pages) ++ remapped l))
          (ion_mmap k d vma l)
  unfolding ion_mmap
  ion_mmap-remapped d vma l n h = rw (← n) (
      Spec.bind (remap_pages-remapped d.priv.pages vma.vm_start l h) λ _ l' q.
        returns (refl, q ∙ reverse_aux-append (page_ranges vma.vm_start d.priv.pages) (remapped l)))
