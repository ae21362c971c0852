-- ===== src/Drm/Modeset/Clean.antt =====
-- What the programs under drm/application/ hold of the display when they end.
use sample_code.Base.{arith, ℕ, zero, suc, ◌≡◌, refl, Option, none, some, List, ◌∷◌, arith}
use sample_code.Effect.{Cmd}
use sample_code.Effect.Spec
use sample_code.Effect.Spec.{Returns, returns}
use sample_code.Drm.Libdrm.{DrmModeModeInfo, Call, Device}
use sample_code.Drm.Libdrm.Held.{
  Item, card_ref, resources_ref, connector_ref, dumb_ref, fb_ref, mapping_ref, Holds, gain, skip,
  drop, drop_below,
}
use sample_code.Drm.Modeset.{
  BufferObject, Output, clear, modeset_destroy_fb, map_fb, modeset_create_white_fb,
}

-- A device with a CRTC and a connector that has a mode, and whose buffers can be mapped.
pub record Usable (d : Device) : Type 0 where
  pub resources :
      (l : List Call)
      → (crtc : ℕ) × (crtcs : List ℕ) × (conn : ℕ) × (conns : List ℕ) × (d.get_resources l
          ≡ some (record { crtcs = crtc ∷ crtcs; connectors = conn ∷ conns }))
  pub connector :
      (l : List Call) (id : ℕ)
      → (mode : DrmModeModeInfo) × (modes : List DrmModeModeInfo) × (d.get_connector l id
          ≡ some (mode ∷ modes))
  pub mapping : (l : List Call) (size offset : ℕ) → (a : ℕ) × (d.mmap l size offset ≡ some a)

-- What a buffer holds, on top of `h`.
abbrev pub buffer : BufferObject → List Item → List Item
buffer bo h = mapping_ref bo.vaddr ∷ fb_ref bo.fb_id ∷ dumb_ref bo.handle ∷ h

abbrev output : Output → List Item → List Item
output out h = connector_ref out.conn_id ∷ resources_ref ∷ card_ref out.fd ∷ h

-- A program that ends with 0 and leaves held what it found.
abbrev pub Restores : Cmd Call ℕ → List Call → List Item → Type 0
Restores main l h = Returns (λ r l'. (r ≡ 0) × Holds l' h) (main l)

module _ {h : List Item} where
  clear-Holds :
      (vaddr : Option ℕ) (byte size a : ℕ) {l : List Call}
      → vaddr ≡ some a
      → Holds l h
      → Returns (λ _ l'. Holds l' h) (clear vaddr byte size l)
  unfolding clear
  clear-Holds vaddr byte zero a e q = returns q
  clear-Holds none byte (suc n) a e q = absurd (ground (arith, e))
  clear-Holds (some b) byte (suc n) a e q = returns (skip (Call.memset _ _ _) refl q)

  pub modeset_destroy_fb-Holds :
      (bo : BufferObject) {l : List Call}
      → Holds l (buffer bo h)
      → Returns (λ _ l'. Holds l' h) (modeset_destroy_fb bo l)
  unfolding modeset_destroy_fb
  modeset_destroy_fb-Holds bo q = returns (
      drop (Call.destroy_dumb _) refl
        (drop (Call.munmap _ _) refl (drop_below (Call.rm_fb _) refl (λ e. cc) q)))

module _ (d : Device) (usable : Usable d) where
  map_fb-Holds :
      (mode : DrmModeModeInfo) {l : List Call} {h : List Item}
      → Holds l h
      → Returns (λ bo l'. (a : ℕ) × (bo.vaddr ≡ some a) × Holds l' (buffer bo h)) (map_fb d mode l)
  unfolding map_fb
  map_fb-Holds mode q =
      let q₁ = gain (Call.create_dumb _ _ _ _) refl q in
      let q₂ = gain (Call.add_fb _ _ _ _ _) refl q₁ in
      let q₃ = skip (Call.map_dumb _ _) refl q₂ in
      let (a, e) = usable.mapping _ _ _ in returns (a, e, gain (Call.mmap _ _ _) refl q₃)

  pub modeset_create_white_fb-Holds :
      (mode : DrmModeModeInfo) {l : List Call} {h : List Item}
      → Holds l h
      → Returns (λ bo l'. Holds l' (buffer bo h)) (modeset_create_white_fb d mode l)
  unfolding modeset_create_white_fb
  modeset_create_white_fb-Holds mode q =
      Spec.bind (map_fb-Holds mode q)
        λ bo m p. Spec.bind (clear-Holds bo.vaddr 255 bo.size p.0 p.1 p.2) λ _ l' r. returns r
