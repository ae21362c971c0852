-- ===== src/Drm/Libdrm.antt =====
-- The calls of libdrm and of the C library that the programs under drm/application/ make of the
-- display device. They stand outside this repository: each is an answer of an environment, any
-- function of the log, and an event that records the call.
mod Calls
pub mod Held
pub mod Sample
pub use Calls.*
pub use sample_code.Effect.{deref}
use sample_code.Base.{ℕ, Option, none, some, List, [], ◌∷◌}
use sample_code.Effect.{Cmd, call, emit, pure, crash}

pub record Device : Type 0 where
  pub open_card : List Call → ℕ
  pub get_resources : List Call → Option DrmModeRes
  pub get_connector : List Call → ℕ → Option (List DrmModeModeInfo)
  pub create_dumb : List Call → ℕ → ℕ → ℕ → Dumb
  pub add_fb : List Call → ℕ → ℕ → ℕ → ℕ → ℕ
  pub map_dumb : List Call → ℕ → ℕ
  pub mmap : List Call → ℕ → ℕ → Option ℕ
  pub get_plane_resources : List Call → Option (List ℕ)
  pub get_properties : List Call → ℕ → Option (List ℕ)
  pub get_property : List Call → ℕ → Option DrmModeProperty
  pub create_blob : List Call → DrmModeModeInfo → ℕ
  pub atomic_alloc : List Call → ℕ

module _ (d : Device) where
  abbrev pub open_card : Cmd Call ℕ
  open_card = call d.open_card Call.open_card

  abbrev pub get_resources : Cmd Call (Option DrmModeRes)
  get_resources = call d.get_resources Call.get_resources

  abbrev pub get_connector : ℕ → Cmd Call (Option (List DrmModeModeInfo))
  get_connector id = call (λ l. d.get_connector l id) (Call.get_connector id)

  abbrev pub create_dumb : ℕ → ℕ → ℕ → Cmd Call Dumb
  create_dumb width height bpp =
      call (λ l. d.create_dumb l width height bpp) (Call.create_dumb width height bpp)

  -- The framebuffer's id. (Its depth is 24, and a pixel has 32 bits.)
  abbrev pub add_fb : ℕ → ℕ → ℕ → ℕ → Cmd Call ℕ
  add_fb width height pitch handle =
      call (λ l. d.add_fb l width height pitch handle) (Call.add_fb width height pitch handle)

  abbrev pub map_dumb : ℕ → Cmd Call ℕ
  map_dumb handle = call (λ l. d.map_dumb l handle) (Call.map_dumb handle)

  abbrev pub mmap : ℕ → ℕ → Cmd Call (Option ℕ)
  mmap size offset = call (λ l. d.mmap l size offset) (Call.mmap size offset)

  abbrev pub get_plane_resources : Cmd Call (Option (List ℕ))
  get_plane_resources = call d.get_plane_resources Call.get_plane_resources

  abbrev pub get_properties : ℕ → Cmd Call (Option (List ℕ))
  get_properties obj = call (λ l. d.get_properties l obj) (Call.get_properties obj)

  abbrev pub get_property : ℕ → Cmd Call (Option DrmModeProperty)
  get_property id = call (λ l. d.get_property l id) (Call.get_property id)

  abbrev pub create_blob : DrmModeModeInfo → Cmd Call ℕ
  create_blob mode = call (λ l. d.create_blob l mode) (Call.create_blob mode)

  abbrev pub atomic_alloc : Cmd Call ℕ
  atomic_alloc = call d.atomic_alloc Call.atomic_alloc

-- `p[0]`
abbrev pub first : {A : Type 0} → List A → Cmd Call A
first [] = crash
first (a ∷ rest) = pure a
