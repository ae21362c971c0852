-- ===== src/Drm/Planes/Clean.antt =====
-- What the plane programs hold of the display when they end.
use sample_code.Base.{ℕ, ◌≡◌, some, List, ◌∷◌}
use sample_code.Effect.Spec
use sample_code.Drm.Libdrm.{DrmModeProperty, Call, Device}
use sample_code.Drm.Libdrm.Held.{
  Item, card_ref, resources_ref, plane_resources_ref, connector_ref, blob_ref, Holds,
}
use sample_code.Drm.Modeset.Clean
use sample_code.Drm.Modeset.Clean.{Usable}
use sample_code.Drm.Planes.{PlaneOutput}
use sample_code.Drm.Planes.Lookup.{Answers}

-- A usable device with a plane, which knows the properties of every object.
pub record PlaneUsable (d : Device) : Type 0 where
  pub usable : Usable d
  pub planes :
      (l : List Call)
      → (plane : ℕ) × (rest : List ℕ) × (d.get_plane_resources l ≡ some (plane ∷ rest))
  pub properties : (l : List Call) (obj : ℕ) → (ps : List ℕ) × (d.get_properties l obj ≡ some ps)
  pub at_id : ℕ → DrmModeProperty
  pub known : Answers d at_id

abbrev output : PlaneOutput → List Item → List Item
output out h = connector_ref out.conn ∷ plane_resources_ref ∷ resources_ref ∷ card_ref out.fd ∷ h

-- The program returns 0, and leaves a blob behind.
abbrev pub Leaks : List Item → ℕ → List Call → Type 0
Leaks h r l = (r ≡ 0) × ((blob : ℕ) × Holds l (blob_ref blob ∷ h))
