-- ===== src/Drm/Libdrm/Calls.antt =====
-- The calls that a display program makes, and what they answer.
use sample_code.Base.{ℕ, Option, List}

-- What DRM_IOCTL_MODE_CREATE_DUMB leaves in its argument. The programs zero the argument and do
-- not look at the result, so a failure is an answer whose fields are 0.
pub record Dumb : Type 0 where
  pub handle : ℕ
  pub pitch : ℕ
  pub size : ℕ

pub record DrmModeRes : Type 0 where
  pub crtcs : List ℕ
  pub connectors : List ℕ

pub record DrmModeModeInfo : Type 0 where
  pub hdisplay : ℕ
  pub vdisplay : ℕ

pub data ClientCap : Type 0 where
  universal_planes atomic : ClientCap

-- The names of properties that the programs look for, and any other.
pub data PropertyName : Type 0 where
  crtc_id active mode_id fb_id crtc_x crtc_y crtc_w crtc_h src_x src_y src_w src_h : PropertyName
  other_name : ℕ → PropertyName

pub record DrmModeProperty : Type 0 where
  pub name : PropertyName
  pub prop_id : ℕ

-- The last argument of a call with a result is its answer. An address is that of the mapping, or
-- `none` for MAP_FAILED.
pub data Call : Type 0 where
  open_card : ℕ → Call
  close : ℕ → Call
  get_resources : Option DrmModeRes → Call
  free_resources : Call
  get_connector : ℕ → Option (List DrmModeModeInfo) → Call
  free_connector : ℕ → Call
  create_dumb : ℕ → ℕ → ℕ → Dumb → Call
  destroy_dumb : ℕ → Call
  add_fb : ℕ → ℕ → ℕ → ℕ → ℕ → Call
  rm_fb : ℕ → Call
  map_dumb : ℕ → ℕ → Call
  mmap : ℕ → ℕ → Option ℕ → Call
  munmap : Option ℕ → ℕ → Call
  -- A 32-bit store, and `memset`.
  store : ℕ → ℕ → Call
  memset : ℕ → ℕ → ℕ → Call
  -- `strcpy` of a constant to an address, and a text read from one.
  write_text read_text : ℕ → Call
  set_crtc : ℕ → ℕ → ℕ → DrmModeModeInfo → Call
  page_flip : ℕ → ℕ → Call
  getchar : Call
  set_client_cap : ClientCap → Call
  get_plane_resources : Option (List ℕ) → Call
  free_plane_resources : Call
  -- The plane, the CRTC and the framebuffer.
  set_plane : ℕ → ℕ → ℕ → Call
  -- The object and its properties.
  get_properties : ℕ → Option (List ℕ) → Call
  free_properties : ℕ → Call
  get_property : ℕ → Option DrmModeProperty → Call
  free_property : ℕ → Call
  create_blob : DrmModeModeInfo → ℕ → Call
  atomic_alloc : ℕ → Call
  -- The request, the object, the property and the value.
  add_property : ℕ → ℕ → ℕ → ℕ → Call
  atomic_commit : ℕ → Call
  atomic_free : ℕ → Call
