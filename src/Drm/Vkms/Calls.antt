-- ===== src/Drm/Vkms/Calls.antt =====
-- The calls that the virtual display makes of the DRM core and of the timer.
use sample_code.Base.{ℕ}
use sample_code.Kernel.{Ptr, Ret}

-- The last argument of a call with a result is its answer. A `set_` is a store into the structure
-- of the device, which the core reads.
pub data VkmsCall : Type 0 where
  handle_vblank : VkmsCall
  timer_init timer_start timer_forward timer_cancel : VkmsCall
  -- The kernel stops the timer, since its function answered that it should.
  timer_ends : VkmsCall
  lock_events unlock_events : VkmsCall
  send_vblank_event : ℕ → VkmsCall
  vblank_on vblank_off : VkmsCall
  kzalloc : Ptr → VkmsCall
  kfree : Ptr → VkmsCall
  dev_init dev_register : Ret → VkmsCall
  dev_unregister : VkmsCall
  dev_unref : Ptr → VkmsCall
  mode_config_init mode_config_reset : VkmsCall
  plane_init crtc_init encoder_init connector_init : Ret → VkmsCall
  plane_helper_add crtc_helper_add connector_helper_add : VkmsCall
  connector_register attach_encoder vblank_init : Ret → VkmsCall
  connector_unregister connector_cleanup : VkmsCall
  set_max_size set_min_size : ℕ → ℕ → VkmsCall
  set_mode_funcs set_possible_crtcs set_irq_enabled : VkmsCall
  add_modes_noedid : ℕ → ℕ → ℕ → VkmsCall
  set_preferred_mode : ℕ → ℕ → VkmsCall

-- What a timer's function answers.
pub data HrtimerRestart : Type 0 where
  restart no_restart : HrtimerRestart
