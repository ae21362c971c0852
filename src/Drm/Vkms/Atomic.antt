-- ===== src/Drm/Vkms/Atomic.antt =====
-- drm/driver/vkms/vkms_drv_6.c, the atomic display. `crtc->state->event` is an argument, and a
-- result where it is written.
use sample_code.Base.{true, ℕ, Option, none, some}
use sample_code.Effect.{Cmd, pure, ◌>>=◌, ◌>>◌, emit}
use sample_code.Kernel.{Ret, val}
use sample_code.Drm.Tables.{
  CoreFunction, core, CrtcFuncs, PlaneFuncs, ConnectorFuncs, EncoderFuncs, ModeConfigFuncs,
  CrtcHelperFuncs, PlaneHelperFuncs, ConnectorHelperFuncs, FileOperations, DrmDriver, callbacks_of,
}
use sample_code.Drm.Vkms.{
  CrtcCallbacks, VkmsCall, handle_vblank, timer_init, timer_start, timer_forward, timer_cancel,
  lock_events, unlock_events, send_vblank_event, mode_config_init, mode_config_reset, set_max_size,
  set_mode_funcs, set_irq_enabled, plane_helper_add, crtc_helper_add, connector_helper_add,
  set_preferred_mode, HrtimerRestart, restart, DrmCore, dev_init, dev_register, plane_init,
  crtc_init, encoder_init, connector_init, attach_encoder, vblank_init, add_modes_noedid,
}

unfoldable pub vkms_vblank_simulate : Cmd VkmsCall HrtimerRestart
vkms_vblank_simulate = do emit handle_vblank; emit timer_forward; pure restart

unfoldable pub vkms_crtc_atomic_enable : Cmd VkmsCall (Unit {0})
vkms_crtc_atomic_enable = do emit timer_init; emit timer_start

unfoldable pub vkms_crtc_atomic_disable : Cmd VkmsCall (Unit {0})
vkms_crtc_atomic_disable = emit timer_cancel

unfoldable pub vkms_crtc_atomic_flush : Option ℕ → Cmd VkmsCall (Option ℕ)
vkms_crtc_atomic_flush none = pure none
vkms_crtc_atomic_flush (some event) = do
  emit lock_events
  emit (send_vblank_event event)
  emit unlock_events
  pure none

unfoldable pub vkms_crtc_helper_funcs : CrtcHelperFuncs
unfolding vkms_crtc_atomic_enable vkms_crtc_atomic_disable vkms_crtc_atomic_flush
vkms_crtc_helper_funcs = record {
  dpms = none;
  mode_set = none;
  prepare = none;
  commit = none;
  atomic_enable = some vkms_crtc_atomic_enable;
  atomic_disable = some vkms_crtc_atomic_disable;
  atomic_flush = some vkms_crtc_atomic_flush;
}

unfoldable pub vkms_crtc_funcs : CrtcFuncs
vkms_crtc_funcs = record {
  set_config = some CoreFunction.drm_atomic_helper_set_config;
  page_flip = some (core CoreFunction.drm_atomic_helper_page_flip);
  destroy = some CoreFunction.drm_crtc_cleanup;
  reset = some CoreFunction.drm_atomic_helper_crtc_reset;
  atomic_duplicate_state = some CoreFunction.drm_atomic_helper_crtc_duplicate_state;
  atomic_destroy_state = some CoreFunction.drm_atomic_helper_crtc_destroy_state;
  enable_vblank = none;
  disable_vblank = none;
}

unfoldable pub vkms_crtc_callbacks : CrtcCallbacks
unfolding vkms_crtc_helper_funcs vkms_crtc_funcs vkms_vblank_simulate
vkms_crtc_callbacks = callbacks_of vkms_crtc_helper_funcs vkms_crtc_funcs vkms_vblank_simulate

unfoldable pub vkms_plane_funcs : PlaneFuncs
vkms_plane_funcs = record {
  update_plane = some CoreFunction.drm_atomic_helper_update_plane;
  disable_plane = some CoreFunction.drm_atomic_helper_disable_plane;
  destroy = some CoreFunction.drm_plane_cleanup;
  reset = some CoreFunction.drm_atomic_helper_plane_reset;
  atomic_duplicate_state = some CoreFunction.drm_atomic_helper_plane_duplicate_state;
  atomic_destroy_state = some CoreFunction.drm_atomic_helper_plane_destroy_state;
}

unfoldable pub vkms_plane_atomic_update : Cmd VkmsCall (Unit {0})
vkms_plane_atomic_update = pure tt

unfoldable pub vkms_plane_helper_funcs : PlaneHelperFuncs
unfolding vkms_plane_atomic_update
vkms_plane_helper_funcs = record { atomic_update = some vkms_plane_atomic_update }

unfoldable pub vkms_connector_funcs : ConnectorFuncs
vkms_connector_funcs = record {
  dpms = none;
  fill_modes = some CoreFunction.drm_helper_probe_single_connector_modes;
  destroy = some (core CoreFunction.drm_connector_cleanup);
  reset = some CoreFunction.drm_atomic_helper_connector_reset;
  atomic_duplicate_state = some CoreFunction.drm_atomic_helper_connector_duplicate_state;
  atomic_destroy_state = some CoreFunction.drm_atomic_helper_connector_destroy_state;
}

unfoldable pub vkms_encoder_funcs : EncoderFuncs
vkms_encoder_funcs = record { destroy = some CoreFunction.drm_encoder_cleanup }

unfoldable pub vkms_mode_funcs : ModeConfigFuncs
vkms_mode_funcs = record {
  fb_create = some CoreFunction.drm_fb_cma_create;
  atomic_check = some CoreFunction.drm_atomic_helper_check;
  atomic_commit = some CoreFunction.drm_atomic_helper_commit;
}

unfoldable pub vkms_fops : FileOperations (Unit {0})
vkms_fops = record {
  open_file = some CoreFunction.drm_open;
  release = some CoreFunction.drm_release;
  unlocked_ioctl = some CoreFunction.drm_ioctl;
  poll = some CoreFunction.drm_poll;
  read = some CoreFunction.drm_read;
  mmap = some (core CoreFunction.drm_gem_cma_mmap);
}

unfoldable pub vkms_driver : DrmDriver (Unit {0}) (Unit {0})
unfolding vkms_fops
vkms_driver = record {
  driver_modeset = true;
  driver_gem = true;
  driver_atomic = true;
  fops = some vkms_fops;
  dumb_create = some (core CoreFunction.drm_gem_cma_dumb_create);
  gem_vm_ops = true;
  gem_free_object_unlocked = some CoreFunction.drm_gem_cma_free_object;
}

module _ (c : DrmCore) where
  unfoldable pub vkms_conn_get_modes : Cmd VkmsCall ℕ
  vkms_conn_get_modes = do
    count ← add_modes_noedid c 8192 8192
    emit (set_preferred_mode 1024 768)
    pure count

  unfoldable pub vkms_conn_helper_funcs : ConnectorHelperFuncs
  unfolding vkms_conn_get_modes
  vkms_conn_helper_funcs = record { get_modes = some vkms_conn_get_modes; best_encoder = none }

  unfoldable pub vkms_modeset_init : Cmd VkmsCall (Unit {0})
  vkms_modeset_init = do
    emit mode_config_init
    emit (set_max_size 8192 8192)
    emit set_mode_funcs
    plane_init c
    emit plane_helper_add
    crtc_init c
    emit crtc_helper_add
    encoder_init c
    connector_init c
    emit connector_helper_add
    attach_encoder c
    emit mode_config_reset

  unfoldable pub vkms_init : Cmd VkmsCall Ret
  unfolding vkms_modeset_init
  vkms_init = do
    dev_init c
    vkms_modeset_init
    vblank_init c
    emit set_irq_enabled
    dev_register c
    pure (val 0)
