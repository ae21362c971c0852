-- ===== src/Drm/CmaMachine/Shown.antt =====
-- drm/application/my-gem/dumb.c on drm/driver/cma/dumb.c.
use sample_code.Base.{ℕ, ◌/◌, ◌≡◌, refl, true, none, some, List, [], ◌∷◌, at_start}
use sample_code.Effect.Spec.{Returns, returns}
use sample_code.Kernel.{Kernel, at, val, page_size, Event}
use sample_code.Mmap.Eager.{seen}
use sample_code.Drm.Cma.{mygem_driver, mygem_fops, drm_gem_cma_dumb_create, drm_gem_cma_mmap}
use sample_code.Drm.Libdrm.{Call, Device}
use sample_code.Drm.MyGem.{main, write_mapped, read_mapped}
use sample_code.Drm.CmaMachine.{loaded, serve, serve_all, machine}

-- The blocks of DMA memory obtained, where `dma_alloc_wc` answered with an address, as physical address and size.
unfoldable pub blocks : List Event → List (ℕ × ℕ)
blocks [] = []
blocks (Event.dma_alloc_wc size (at a, paddr) ∷ l) = (paddr, size) ∷ blocks l
blocks (_ ∷ l) = blocks l

-- The areas mapped, as first frame and length.
unfoldable pub mapped : List Event → List (ℕ × ℕ)
mapped [] = []
mapped (Event.remap_pfn_range start pfn size (val n) ∷ l) = (pfn, size) ∷ mapped l
mapped (_ ∷ l) = mapped l

module _ (k : Kernel) (d : Device) (place : List Call → ℕ → ℕ) (object : List Event → ℕ)
    (virtual physical : List Event → ℕ → ℕ) where
  -- Where the driver gets the memory for its object and the DMA memory that it asks for, and `drm_gem_mmap` and `remap_pfn_range`
  -- succeed, the program returns 0, and what it reads through its second mapping is the text that
  -- it wrote through its first, wherever the kernel puts the two. The driver has obtained one
  -- block, of the 307200 bytes that the picture needs, and each mapping is of that whole block.
  pub dumb_main-shows :
      (l₀ : List Event)
      → ((l : List Event) (n : ℕ) → k.kzalloc l n ≡ some (object l))
      → ((l : List Event) (n : ℕ) → k.dma_alloc_wc l n ≡ (at (virtual l n), physical l n))
      → ((l : List Event) → k.drm_gem_mmap l ≡ val 0)
      → ((l : List Event) (s f n : ℕ) → k.remap_pfn_range l s f n ≡ none)
      → Returns
          (λ x l.
            (x ≡ 0)
            × Returns
                (λ s m.
                  (s.shown ≡ some true)
                  × (paddr : ℕ) × (blocks m ≡ (paddr, 307200) ∷ blocks l₀)
                  × (mapped m
                      ≡ (paddr / page_size, 307200) ∷ (paddr / page_size, 307200) ∷ mapped l₀))
                (serve_all k place l loaded l₀))
          (main (machine k place d l₀) [])
  unfolding main write_mapped read_mapped machine serve_all serve mygem_driver mygem_fops
      drm_gem_cma_dumb_create drm_gem_cma_mmap seen blocks mapped
  dumb_main-shows l₀ memory dma finds maps =
      simp (memory, dma, finds, maps)
        (returns (refl, simp (memory, dma, finds, maps, at_start) (returns (refl, _, refl, refl))))
