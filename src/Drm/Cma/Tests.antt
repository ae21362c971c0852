-- ===== src/Drm/Cma/Tests.antt =====
-- The theorems about drm/driver/cma/dumb.c at a concrete kernel.
use sample_code.Base.{ℕ, ◌≡◌, ◌↔◌, ◌⊎◌, none, some, List, [], ◌∷◌}
use sample_code.Effect.{Cmd, emit, fault}
use sample_code.Effect.Spec.{Returns}
use sample_code.Kernel.{Ptr, at, val, mem_ref, Event}
use sample_code.Kernel.Held.{Holds}
use sample_code.Drm.Tables.{CoreFunction}
use sample_code.Kernel.Granting.{kernel, nothing}
use sample_code.Drm.Cma
use sample_code.Drm.Cma.{DrmGemCmaObject, DumbArgs}

abbrev vga : DumbArgs
vga = record { height = 480; width = 640; bpp = 32; handle = 0; pitch = 0; size = 0 }

-- What a core that frees objects would do.
abbrev free : CoreFunction → Ptr → Cmd Event (Unit {0})
free f obj = emit (Event.kfree obj)

drm_gem_cma_dumb_create-Holding_example :
    ((kernel.kzalloc [] kernel.sizeof_cma_object ≡ none)
      × ((m : List Event) × (Cma.drm_gem_cma_dumb_create kernel vga [] ≡ fault m)))
    ⊎ Returns
        (λ r l'.
          (r.0 ≡ val 0)
          × (r.1.width ≡ 640)
          × (r.1.height ≡ 480)
          × (r.1.bpp ≡ 32)
          × (Cma.Size.Holding r.1 ↔ Cma.Size.Whole r.1))
        (Cma.drm_gem_cma_dumb_create kernel vga [])
drm_gem_cma_dumb_create-Holding_example = Cma.Size.drm_gem_cma_dumb_create-Holding kernel vga []

dumb_life-keeps_example :
    ((kernel.kzalloc [] kernel.sizeof_cma_object ≡ none)
      × ((m : List Event) × (Cma.Life.dumb_life kernel free vga [] ≡ fault m)))
    ⊎ ((p : ℕ) × (kernel.kzalloc [] kernel.sizeof_cma_object ≡ some p)
        × Returns (λ _ m. Holds m (mem_ref (at p) ∷ [])) (Cma.Life.dumb_life kernel free vga []))
dumb_life-keeps_example = Cma.Life.dumb_life-keeps kernel free vga nothing
