-- ===== src/Drm/Vkms.antt =====
-- The virtual display of drm/driver/vkms, step by step: Minimal is vkms_drv_1.c and vkms_drv_2.c,
-- Objects vkms_drv_3.c, Dumb vkms_drv_4.c, Legacy vkms_drv_5.c, Atomic vkms_drv_6.c, and Dynamic
-- vkms_drv.c. Its vertical blanking is a timer.
mod Calls
mod Display
pub mod Minimal
pub mod Objects
pub mod Dumb
pub mod Legacy
pub mod Atomic
pub mod Dynamic
pub mod Setup
mod Complete
pub mod Delivered
pub mod Timer
mod Tests
pub use Calls.*
pub use Display.*
use sample_code.Base.{ℕ, List}
use sample_code.Effect.{Cmd, call}
use sample_code.Kernel.{Ptr, to_ptr, Ret}
use sample_code.Base.{Option}

-- What the DRM core answers.
pub record DrmCore : Type 0 where
  pub kzalloc : List VkmsCall → Option ℕ
  pub dev_init : List VkmsCall → Ret
  pub dev_register : List VkmsCall → Ret
  pub plane_init : List VkmsCall → Ret
  pub crtc_init : List VkmsCall → Ret
  pub encoder_init : List VkmsCall → Ret
  pub connector_init : List VkmsCall → Ret
  pub connector_register : List VkmsCall → Ret
  pub attach_encoder : List VkmsCall → Ret
  pub vblank_init : List VkmsCall → Ret
  pub add_modes_noedid : List VkmsCall → ℕ → ℕ → ℕ

module _ (c : DrmCore) where
  abbrev pub kzalloc : Cmd VkmsCall Ptr
  kzalloc = call (λ l. to_ptr (c.kzalloc l)) VkmsCall.kzalloc

  abbrev pub dev_init : Cmd VkmsCall Ret
  dev_init = call c.dev_init VkmsCall.dev_init

  abbrev pub dev_register : Cmd VkmsCall Ret
  dev_register = call c.dev_register VkmsCall.dev_register

  abbrev pub plane_init : Cmd VkmsCall Ret
  plane_init = call c.plane_init VkmsCall.plane_init

  abbrev pub crtc_init : Cmd VkmsCall Ret
  crtc_init = call c.crtc_init VkmsCall.crtc_init

  abbrev pub encoder_init : Cmd VkmsCall Ret
  encoder_init = call c.encoder_init VkmsCall.encoder_init

  abbrev pub connector_init : Cmd VkmsCall Ret
  connector_init = call c.connector_init VkmsCall.connector_init

  abbrev pub connector_register : Cmd VkmsCall Ret
  connector_register = call c.connector_register VkmsCall.connector_register

  abbrev pub attach_encoder : Cmd VkmsCall Ret
  attach_encoder = call c.attach_encoder VkmsCall.attach_encoder

  abbrev pub vblank_init : Cmd VkmsCall Ret
  vblank_init = call c.vblank_init VkmsCall.vblank_init

  abbrev pub add_modes_noedid : ℕ → ℕ → Cmd VkmsCall ℕ
  add_modes_noedid w h = call (λ l. c.add_modes_noedid l w h) (VkmsCall.add_modes_noedid w h)
