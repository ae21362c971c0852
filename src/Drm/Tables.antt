-- ===== src/Drm/Tables.antt =====
-- The tables of functions that the drivers under drm/driver hand to the DRM core, of its version
-- 4.19 or so. A member is `none` where the driver leaves it NULL.
use sample_code.Base.{ℕ, Bool, Option, none, some}
use sample_code.Effect.{Cmd, pure}
use sample_code.Kernel.{Ret}
use sample_code.Drm.Vkms.{VkmsCall, HrtimerRestart, CrtcCallbacks}

-- The functions of the DRM core that stand in a table.
pub data CoreFunction : Type 0 where
  drm_open drm_release drm_ioctl drm_poll drm_read : CoreFunction
  drm_gem_cma_mmap drm_gem_cma_dumb_create drm_gem_cma_free_object : CoreFunction
  drm_fb_cma_create : CoreFunction
  drm_crtc_helper_set_config drm_crtc_cleanup : CoreFunction
  drm_primary_helper_update drm_primary_helper_disable drm_plane_cleanup : CoreFunction
  drm_helper_connector_dpms drm_helper_probe_single_connector_modes : CoreFunction
  drm_connector_cleanup drm_encoder_cleanup : CoreFunction
  drm_atomic_helper_set_config drm_atomic_helper_page_flip : CoreFunction
  drm_atomic_helper_update_plane drm_atomic_helper_disable_plane : CoreFunction
  drm_atomic_helper_crtc_reset drm_atomic_helper_crtc_duplicate_state : CoreFunction
  drm_atomic_helper_crtc_destroy_state : CoreFunction
  drm_atomic_helper_plane_reset drm_atomic_helper_plane_duplicate_state : CoreFunction
  drm_atomic_helper_plane_destroy_state : CoreFunction
  drm_atomic_helper_connector_reset drm_atomic_helper_connector_duplicate_state : CoreFunction
  drm_atomic_helper_connector_destroy_state : CoreFunction
  drm_atomic_helper_check drm_atomic_helper_commit : CoreFunction

-- A member that is a function of the core, or one of the driver's own.
pub data Entry (A : Type 0) : Type 0 where
  core : CoreFunction → Entry A
  own : A → Entry A

-- The four kinds of objects of a display, which are static variables of the drivers.
pub data Object : Type 0 where
  primary crtc encoder connector : Object

abbrev Slot : Type 0
Slot = Option CoreFunction

pub record CrtcFuncs : Type 0 where
  pub set_config : Slot
  -- The framebuffer, and the event that it is to send.
  pub page_flip : Option (Entry (ℕ → Option ℕ → Cmd VkmsCall (Ret × ℕ)))
  pub destroy : Slot
  pub reset : Slot
  pub atomic_duplicate_state : Slot
  pub atomic_destroy_state : Slot
  pub enable_vblank : Option (Cmd VkmsCall Ret)
  pub disable_vblank : Option (Cmd VkmsCall (Unit {0}))

pub record PlaneFuncs : Type 0 where
  pub update_plane : Slot
  pub disable_plane : Slot
  pub destroy : Slot
  pub reset : Slot
  pub atomic_duplicate_state : Slot
  pub atomic_destroy_state : Slot

pub record ConnectorFuncs : Type 0 where
  pub dpms : Slot
  pub fill_modes : Slot
  pub destroy : Option (Entry (Cmd VkmsCall (Unit {0})))
  pub reset : Slot
  pub atomic_duplicate_state : Slot
  pub atomic_destroy_state : Slot

pub record EncoderFuncs : Type 0 where
  pub destroy : Slot

pub record ModeConfigFuncs : Type 0 where
  pub fb_create : Slot
  pub atomic_check : Slot
  pub atomic_commit : Slot

pub record CrtcHelperFuncs : Type 0 where
  pub dpms : Option (ℕ → Cmd VkmsCall (Unit {0}))
  pub mode_set : Option (Cmd VkmsCall Ret)
  pub prepare : Option (Cmd VkmsCall (Unit {0}))
  pub commit : Option (Cmd VkmsCall (Unit {0}))
  pub atomic_enable : Option (Cmd VkmsCall (Unit {0}))
  pub atomic_disable : Option (Cmd VkmsCall (Unit {0}))
  -- The event of the new state, before and after.
  pub atomic_flush : Option (Option ℕ → Cmd VkmsCall (Option ℕ))

pub record PlaneHelperFuncs : Type 0 where
  pub atomic_update : Option (Cmd VkmsCall (Unit {0}))

pub record ConnectorHelperFuncs : Type 0 where
  pub get_modes : Option (Cmd VkmsCall ℕ)
  pub best_encoder : Option (Cmd VkmsCall Object)

-- `M` is the type of a driver's own mmap.
pub record FileOperations (M : Type 0) : Type 0 where
  pub open_file : Slot
  pub release : Slot
  pub unlocked_ioctl : Slot
  pub poll : Slot
  pub read : Slot
  pub mmap : Option (Entry M)

-- `C` is the type of a driver's own dumb_create. `gem_vm_ops` says whether the member is set.
pub record DrmDriver (M C : Type 0) : Type 0 where
  pub driver_modeset : Bool
  pub driver_gem : Bool
  pub driver_atomic : Bool
  pub fops : Option (FileOperations M)
  pub dumb_create : Option (Entry C)
  pub gem_vm_ops : Bool
  pub gem_free_object_unlocked : Slot

-- The core skips a helper that a driver leaves NULL.
abbrev call_helper : Option (Cmd VkmsCall (Unit {0})) → Cmd VkmsCall (Unit {0})
call_helper none = pure tt
call_helper (some m) = m

abbrev call_flush : Option (Option ℕ → Cmd VkmsCall (Option ℕ)) → Option ℕ → Cmd VkmsCall (Option ℕ)
call_flush none event = pure event
call_flush (some m) event = m event

-- The callbacks of a display with these tables, whose timer has the function `simulate`.
abbrev pub callbacks_of : CrtcHelperFuncs → CrtcFuncs → Cmd VkmsCall HrtimerRestart → CrtcCallbacks
callbacks_of helpers funcs simulate = record {
  atomic_enable = call_helper helpers.atomic_enable;
  atomic_disable = call_helper helpers.atomic_disable;
  atomic_flush = call_flush helpers.atomic_flush;
  enable_vblank = funcs.enable_vblank;
  disable_vblank = funcs.disable_vblank;
  vblank_simulate = simulate;
}
