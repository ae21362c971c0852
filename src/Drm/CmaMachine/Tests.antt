-- ===== src/Drm/CmaMachine/Tests.antt =====
-- The theorem about the program on drm/driver/cma at a concrete kernel.
use sample_code.Base.{ℕ, ◌+◌, ◌*◌, ◌/◌, ◌≡◌, refl, true, some, List, [], ◌∷◌, length}
use sample_code.Effect.Spec.{Returns}
use sample_code.Kernel.{page_size, Event}
use sample_code.Kernel.Granting.{kernel}
use sample_code.Drm.CmaMachine.{loaded, serve_all, machine}
use sample_code.Drm.CmaMachine.Shown.{blocks, mapped, dumb_main-shows}
use sample_code.Drm.Libdrm.Sample.{device}
use sample_code.Drm.Libdrm.{Call}
use sample_code.Drm.MyGem.{main}

abbrev place : List Call → ℕ → ℕ
place l size = (length l + 1) * 1048576

abbrev object : List Event → ℕ
object l = length l + 1

abbrev virtual : List Event → ℕ → ℕ
virtual l n = length l + 1

abbrev physical : List Event → ℕ → ℕ
physical l n = 8192

dumb_main-shows_example :
    Returns
      (λ x l.
        (x ≡ 0)
        × Returns
            (λ s m.
              (s.shown ≡ some true)
              × (paddr : ℕ) × (blocks m ≡ (paddr, 307200) ∷ blocks [])
              × (mapped m ≡ (paddr / page_size, 307200) ∷ (paddr / page_size, 307200) ∷ mapped []))
            (serve_all kernel place l loaded []))
      (main (machine kernel place device []) [])
dumb_main-shows_example =
    dumb_main-shows kernel device place object virtual physical [] (λ l n. refl) (λ l n. refl)
      (λ l. refl) (λ l s f n. refl)
