-- ===== src/Drm/Vkms/Legacy.antt =====
-- drm/driver/vkms/vkms_drv_5.c, with the callbacks of a display that is not atomic.
use sample_code.Base.{true, false, ℕ, Option, none, some}
use sample_code.Effect.{Cmd, pure, ◌>>=◌, ◌>>◌, emit}
use sample_code.Kernel.{Ret, val}
use sample_code.Drm.Tables.{
  CoreFunction, core, own, Object, CrtcFuncs, PlaneFuncs, ConnectorFuncs, EncoderFuncs,
  ModeConfigFuncs, CrtcHelperFuncs, ConnectorHelperFuncs, FileOperations, DrmDriver,
}
use sample_code.Drm.Vkms.{
  VkmsCall, mode_config_init, set_max_size, set_mode_funcs, crtc_helper_add, connector_helper_add,
  lock_events, unlock_events, send_vblank_event, set_preferred_mode, DrmCore, dev_init,
  dev_register, plane_init, crtc_init, encoder_init, connector_init, attach_encoder,
  add_modes_noedid,
}

unfoldable pub vkms_crtc_dpms : ℕ → Cmd VkmsCall (Unit {0})
vkms_crtc_dpms mode = pure tt

unfoldable pub vkms_crtc_mode_set : Cmd VkmsCall Ret
vkms_crtc_mode_set = pure (val 0)

unfoldable pub vkms_crtc_prepare : Cmd VkmsCall (Unit {0})
vkms_crtc_prepare = pure tt

unfoldable pub vkms_crtc_commit : Cmd VkmsCall (Unit {0})
vkms_crtc_commit = pure tt

-- The result, and the new `crtc->primary->fb`.
unfoldable pub vkms_crtc_page_flip : ℕ → Option ℕ → Cmd VkmsCall (Ret × ℕ)
vkms_crtc_page_flip fb none = pure (val 0, fb)
vkms_crtc_page_flip fb (some event) = do
  emit lock_events
  emit (send_vblank_event event)
  emit unlock_events
  pure (val 0, fb)

unfoldable pub vkms_crtc_helper_funcs : CrtcHelperFuncs
unfolding vkms_crtc_dpms vkms_crtc_mode_set vkms_crtc_prepare vkms_crtc_commit
vkms_crtc_helper_funcs = record {
  dpms = some vkms_crtc_dpms;
  mode_set = some vkms_crtc_mode_set;
  prepare = some vkms_crtc_prepare;
  commit = some vkms_crtc_commit;
  atomic_enable = none;
  atomic_disable = none;
  atomic_flush = none;
}

unfoldable pub vkms_crtc_funcs : CrtcFuncs
unfolding vkms_crtc_page_flip
vkms_crtc_funcs = record {
  set_config = some CoreFunction.drm_crtc_helper_set_config;
  page_flip = some (own vkms_crtc_page_flip);
  destroy = some CoreFunction.drm_crtc_cleanup;
  reset = none;
  atomic_duplicate_state = none;
  atomic_destroy_state = none;
  enable_vblank = none;
  disable_vblank = none;
}

unfoldable pub vkms_plane_funcs : PlaneFuncs
vkms_plane_funcs = record {
  update_plane = some CoreFunction.drm_primary_helper_update;
  disable_plane = some CoreFunction.drm_primary_helper_disable;
  destroy = some CoreFunction.drm_plane_cleanup;
  reset = none;
  atomic_duplicate_state = none;
  atomic_destroy_state = none;
}

unfoldable pub vkms_connector_best_encoder : Cmd VkmsCall Object
vkms_connector_best_encoder = pure Object.encoder

unfoldable pub vkms_connector_funcs : ConnectorFuncs
vkms_connector_funcs = record {
  dpms = some CoreFunction.drm_helper_connector_dpms;
  fill_modes = some CoreFunction.drm_helper_probe_single_connector_modes;
  destroy = some (core CoreFunction.drm_connector_cleanup);
  reset = none;
  atomic_duplicate_state = none;
  atomic_destroy_state = none;
}

unfoldable pub vkms_encoder_funcs : EncoderFuncs
vkms_encoder_funcs = record { destroy = some CoreFunction.drm_encoder_cleanup }

unfoldable pub vkms_mode_funcs : ModeConfigFuncs
vkms_mode_funcs = record {
  fb_create = some CoreFunction.drm_fb_cma_create;
  atomic_check = none;
  atomic_commit = none;
}

unfoldable pub vkms_fops : FileOperations (Unit {0})
vkms_fops = record {
  open_file = some CoreFunction.drm_open;
  release = some CoreFunction.drm_release;
  unlocked_ioctl = some CoreFunction.drm_ioctl;
  poll = some CoreFunction.drm_poll;
  read = some CoreFunction.drm_read;
  mmap = some (core CoreFunction.drm_gem_cma_mmap);
}

unfoldable pub vkms_driver : DrmDriver (Unit {0}) (Unit {0})
unfolding vkms_fops
vkms_driver = record {
  driver_modeset = true;
  driver_gem = true;
  driver_atomic = false;
  fops = some vkms_fops;
  dumb_create = some (core CoreFunction.drm_gem_cma_dumb_create);
  gem_vm_ops = true;
  gem_free_object_unlocked = some CoreFunction.drm_gem_cma_free_object;
}

module _ (c : DrmCore) where
  unfoldable pub vkms_connector_get_modes : Cmd VkmsCall ℕ
  vkms_connector_get_modes = do
    count ← add_modes_noedid c 8192 8192
    emit (set_preferred_mode 1024 768)
    pure count

  unfoldable pub vkms_conn_helper_funcs : ConnectorHelperFuncs
  unfolding vkms_connector_get_modes vkms_connector_best_encoder
  vkms_conn_helper_funcs = record {
    get_modes = some vkms_connector_get_modes;
    best_encoder = some vkms_connector_best_encoder;
  }

  unfoldable pub vkms_modeset_init : Cmd VkmsCall (Unit {0})
  vkms_modeset_init = do
    emit mode_config_init
    emit (set_max_size 8192 8192)
    emit set_mode_funcs
    plane_init c
    crtc_init c
    emit crtc_helper_add
    encoder_init c
    connector_init c
    emit connector_helper_add
    attach_encoder c
    pure tt

  unfoldable pub vkms_init : Cmd VkmsCall Ret
  unfolding vkms_modeset_init
  vkms_init = do dev_init c; vkms_modeset_init; dev_register c; pure (val 0)
