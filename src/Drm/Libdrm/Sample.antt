-- ===== src/Drm/Libdrm/Sample.antt =====
-- A display for the tests.
use sample_code.Base.{ℕ, zero, suc, refl, some, [], ◌∷◌, length}
use sample_code.Effect.Ledger
use sample_code.Drm.Libdrm.{DrmModeModeInfo, DrmModeProperty, active, crtc_id, Device}
use sample_code.Drm.Libdrm.Held.{Holds}

-- The property 0 is ACTIVE, every other is CRTC_ID.
abbrev pub property : ℕ → DrmModeProperty
property zero = record { name = active; prop_id = 9 }
property (suc n) = record { name = crtc_id; prop_id = suc n }

abbrev pub tiny : DrmModeModeInfo
tiny = record { hdisplay = 2; vdisplay = 1 }

-- One CRTC and one connector with a mode of two pixels, and mappings at the address 64.
abbrev pub device : Device
device = record {
  open_card = λ l. 3;
  get_resources = λ l. some (record { crtcs = 10 ∷ []; connectors = 20 ∷ [] });
  get_connector = λ l id. some (tiny ∷ []);
  create_dumb = λ l w h bpp. record { handle = length l; pitch = 8; size = 8 };
  add_fb = λ l w h pitch handle. length l;
  map_dumb = λ l handle. 0;
  mmap = λ l size offset. some 64;
  get_plane_resources = λ l. some (30 ∷ []);
  get_properties = λ l obj. some (0 ∷ 1 ∷ 2 ∷ []);
  get_property = λ l id. some (property id);
  create_blob = λ l mode. 7;
  atomic_alloc = λ l. length l;
}

pub nothing : Holds [] []
unfolding Ledger.ledger
nothing = record { is = refl }
