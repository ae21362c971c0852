-- ===== src/Drm/Planes/Tests.antt =====
-- The theorems about the plane programs at a concrete device.
use sample_code.Base.{refl, [], ◌∷◌}
use sample_code.Effect.Spec.{Returns}
use sample_code.Drm.Libdrm.{crtc_id}
use sample_code.Drm.Libdrm.Held.{Holds}
use sample_code.Drm.Libdrm.Sample.{property, device, nothing}
use sample_code.Drm.Planes
use sample_code.Drm.Planes.Lookup.{Found}

get_property_id-Found_example :
    Returns
      (λ id l'. Found property crtc_id (0 ∷ 1 ∷ 2 ∷ []) id × Holds l' [])
      (Planes.get_property_id device (0 ∷ 1 ∷ 2 ∷ []) crtc_id [])
get_property_id-Found_example =
    Planes.Lookup.get_property_id-Found device property crtc_id (λ l p. refl) (0 ∷ 1 ∷ 2 ∷ [])
      nothing
