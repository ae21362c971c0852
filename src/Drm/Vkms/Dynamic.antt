-- ===== src/Drm/Vkms/Dynamic.antt =====
-- drm/driver/vkms/vkms_drv.c, whose objects are one allocated structure. The global `vkms` is an
-- argument, and a result of `vkms_init`. Its first field is the `struct drm_device`.
use sample_code.Base.{true, ℕ, Option, none, some, if◌then◌else◌}
use sample_code.Effect.{Cmd, pure, crash, ◌>>=◌, ◌>>◌, emit}
use sample_code.Kernel.{Ptr, Ret, val, is_null}
use sample_code.Drm.Tables.{
  CoreFunction, core, own, CrtcFuncs, PlaneFuncs, ConnectorFuncs, EncoderFuncs, ModeConfigFuncs,
  CrtcHelperFuncs, PlaneHelperFuncs, ConnectorHelperFuncs, FileOperations, DrmDriver, callbacks_of,
}
use sample_code.Drm.Vkms.{
  CrtcCallbacks, VkmsCall, handle_vblank, timer_init, timer_start, timer_forward, timer_cancel,
  lock_events, unlock_events, send_vblank_event, vblank_on, vblank_off, mode_config_init,
  mode_config_reset, set_max_size, set_min_size, set_mode_funcs, set_possible_crtcs,
  set_irq_enabled, plane_helper_add, crtc_helper_add, connector_helper_add, connector_unregister,
  connector_cleanup, set_preferred_mode, dev_unregister, dev_unref, kfree, HrtimerRestart, restart,
  DrmCore, kzalloc, dev_init, dev_register, plane_init, crtc_init, encoder_init, connector_init,
  connector_register, attach_encoder, vblank_init, add_modes_noedid,
}

unfoldable pub vkms_vblank_simulate : Cmd VkmsCall HrtimerRestart
vkms_vblank_simulate = do emit handle_vblank; emit timer_forward; pure restart

unfoldable pub vkms_enable_vblank : Cmd VkmsCall Ret
vkms_enable_vblank = do emit timer_init; emit timer_start; pure (val 0)

unfoldable pub vkms_disable_vblank : Cmd VkmsCall (Unit {0})
vkms_disable_vblank = emit timer_cancel

unfoldable pub vkms_crtc_atomic_enable : Cmd VkmsCall (Unit {0})
vkms_crtc_atomic_enable = emit vblank_on

unfoldable pub vkms_crtc_atomic_disable : Cmd VkmsCall (Unit {0})
vkms_crtc_atomic_disable = emit vblank_off

unfoldable pub vkms_crtc_atomic_flush : Option ℕ → Cmd VkmsCall (Option ℕ)
vkms_crtc_atomic_flush none = pure none
vkms_crtc_atomic_flush (some event) = do
  emit lock_events
  emit (send_vblank_event event)
  emit unlock_events
  pure none

unfoldable pub vkms_connector_destroy : Cmd VkmsCall (Unit {0})
vkms_connector_destroy = do emit connector_unregister; emit connector_cleanup

unfoldable pub vkms_crtc_helper_funcs : CrtcHelperFuncs
unfolding vkms_crtc_atomic_enable vkms_crtc_atomic_disable vkms_crtc_atomic_flush
vkms_crtc_helper_funcs = record {
  dpms = none;
  mode_set = none;
  prepare = none;
  commit = none;
  atomic_enable = some vkms_crtc_atomic_enable;
  atomic_disable = some vkms_crtc_atomic_disable;
  atomic_flush = some vkms_crtc_atomic_flush;
}

unfoldable pub vkms_crtc_funcs : CrtcFuncs
unfolding vkms_enable_vblank vkms_disable_vblank
vkms_crtc_funcs = record {
  set_config = some CoreFunction.drm_atomic_helper_set_config;
  page_flip = some (core CoreFunction.drm_atomic_helper_page_flip);
  destroy = some CoreFunction.drm_crtc_cleanup;
  reset = some CoreFunction.drm_atomic_helper_crtc_reset;
  atomic_duplicate_state = some CoreFunction.drm_atomic_helper_crtc_duplicate_state;
  atomic_destroy_state = some CoreFunction.drm_atomic_helper_crtc_destroy_state;
  enable_vblank = some vkms_enable_vblank;
  disable_vblank = some vkms_disable_vblank;
}

unfoldable pub vkms_crtc_callbacks : CrtcCallbacks
unfolding vkms_crtc_helper_funcs vkms_crtc_funcs vkms_vblank_simulate
vkms_crtc_callbacks = callbacks_of vkms_crtc_helper_funcs vkms_crtc_funcs vkms_vblank_simulate

unfoldable pub vkms_plane_funcs : PlaneFuncs
vkms_plane_funcs = record {
  update_plane = some CoreFunction.drm_atomic_helper_update_plane;
  disable_plane = some CoreFunction.drm_atomic_helper_disable_plane;
  destroy = some CoreFunction.drm_plane_cleanup;
  reset = some CoreFunction.drm_atomic_helper_plane_reset;
  atomic_duplicate_state = some CoreFunction.drm_atomic_helper_plane_duplicate_state;
  atomic_destroy_state = some CoreFunction.drm_atomic_helper_plane_destroy_state;
}

unfoldable pub vkms_plane_atomic_update : Cmd VkmsCall (Unit {0})
vkms_plane_atomic_update = pure tt

unfoldable pub vkms_primary_helper_funcs : PlaneHelperFuncs
unfolding vkms_plane_atomic_update
vkms_primary_helper_funcs = record { atomic_update = some vkms_plane_atomic_update }

unfoldable pub vkms_connector_funcs : ConnectorFuncs
unfolding vkms_connector_destroy
vkms_connector_funcs = record {
  dpms = none;
  fill_modes = some CoreFunction.drm_helper_probe_single_connector_modes;
  destroy = some (own vkms_connector_destroy);
  reset = some CoreFunction.drm_atomic_helper_connector_reset;
  atomic_duplicate_state = some CoreFunction.drm_atomic_helper_connector_duplicate_state;
  atomic_destroy_state = some CoreFunction.drm_atomic_helper_connector_destroy_state;
}

unfoldable pub vkms_encoder_funcs : EncoderFuncs
vkms_encoder_funcs = record { destroy = some CoreFunction.drm_encoder_cleanup }

unfoldable pub vkms_mode_funcs : ModeConfigFuncs
vkms_mode_funcs = record {
  fb_create = some CoreFunction.drm_fb_cma_create;
  atomic_check = some CoreFunction.drm_atomic_helper_check;
  atomic_commit = some CoreFunction.drm_atomic_helper_commit;
}

-- `vkms_fops` is made by a macro of the core.
unfoldable pub vkms_driver : FileOperations (Unit {0}) → DrmDriver (Unit {0}) (Unit {0})
vkms_driver vkms_fops = record {
  driver_modeset = true;
  driver_gem = true;
  driver_atomic = true;
  fops = some vkms_fops;
  dumb_create = some (core CoreFunction.drm_gem_cma_dumb_create);
  gem_vm_ops = true;
  gem_free_object_unlocked = some CoreFunction.drm_gem_cma_free_object;
}

unfoldable pub vkms_exit : Ptr → Cmd VkmsCall (Unit {0})
vkms_exit vkms = do emit dev_unregister; emit (dev_unref vkms); emit (kfree vkms)

module _ (c : DrmCore) where
  unfoldable pub vkms_conn_get_modes : Cmd VkmsCall ℕ
  vkms_conn_get_modes = do
    count ← add_modes_noedid c 8192 8192
    emit (set_preferred_mode 1024 768)
    pure count

  unfoldable pub vkms_conn_helper_funcs : ConnectorHelperFuncs
  unfolding vkms_conn_get_modes
  vkms_conn_helper_funcs = record { get_modes = some vkms_conn_get_modes; best_encoder = none }

  unfoldable pub vkms_output_init : Cmd VkmsCall (Unit {0})
  vkms_output_init = do
    plane_init c
    emit plane_helper_add
    crtc_init c
    emit crtc_helper_add
    encoder_init c
    emit set_possible_crtcs
    connector_init c
    emit connector_helper_add
    connector_register c
    attach_encoder c
    pure tt

  unfoldable pub vkms_modeset_init : Cmd VkmsCall (Unit {0})
  unfolding vkms_output_init
  vkms_modeset_init = do
    emit mode_config_init
    emit set_mode_funcs
    emit (set_min_size 32 32)
    emit (set_max_size 8192 8192)
    vkms_output_init
    emit mode_config_reset

  -- The first store into the structure, behind `drm_dev_init`, is that of `irq_enabled`.
  unfoldable pub vkms_init : Cmd VkmsCall (Ret × Ptr)
  unfolding vkms_modeset_init
  vkms_init = do
    vkms ← kzalloc c
    dev_init c
    if is_null vkms then crash else do
      emit set_irq_enabled
      vblank_init c
      vkms_modeset_init
      dev_register c
      pure (val 0, vkms)
