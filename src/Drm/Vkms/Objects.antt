-- ===== src/Drm/Vkms/Objects.antt =====
-- drm/driver/vkms/vkms_drv_3.c, which makes the objects of a display.
use sample_code.Base.{none, some, true, false}
use sample_code.Effect.{Cmd, pure, ◌>>◌, emit}
use sample_code.Kernel.{Ret, val}
use sample_code.Drm.Tables.{
  CoreFunction, CrtcFuncs, PlaneFuncs, ConnectorFuncs, EncoderFuncs, FileOperations, DrmDriver,
}
use sample_code.Drm.Vkms.{
  VkmsCall, mode_config_init, DrmCore, dev_init, dev_register, plane_init, crtc_init, encoder_init,
  connector_init,
}

unfoldable pub vkms_plane_funcs : PlaneFuncs
vkms_plane_funcs = record {
  update_plane = none;
  disable_plane = none;
  destroy = none;
  reset = none;
  atomic_duplicate_state = none;
  atomic_destroy_state = none;
}

unfoldable pub vkms_crtc_funcs : CrtcFuncs
vkms_crtc_funcs = record {
  set_config = none;
  page_flip = none;
  destroy = none;
  reset = none;
  atomic_duplicate_state = none;
  atomic_destroy_state = none;
  enable_vblank = none;
  disable_vblank = none;
}

unfoldable pub vkms_encoder_funcs : EncoderFuncs
vkms_encoder_funcs = record { destroy = none }

unfoldable pub vkms_connector_funcs : ConnectorFuncs
vkms_connector_funcs = record {
  dpms = none;
  fill_modes = none;
  destroy = none;
  reset = none;
  atomic_duplicate_state = none;
  atomic_destroy_state = none;
}

unfoldable pub vkms_fops : FileOperations (Unit {0})
vkms_fops = record {
  open_file = some CoreFunction.drm_open;
  release = some CoreFunction.drm_release;
  unlocked_ioctl = some CoreFunction.drm_ioctl;
  poll = some CoreFunction.drm_poll;
  read = some CoreFunction.drm_read;
  mmap = none;
}

unfoldable pub vkms_driver : DrmDriver (Unit {0}) (Unit {0})
unfolding vkms_fops
vkms_driver = record {
  driver_modeset = true;
  driver_gem = false;
  driver_atomic = false;
  fops = some vkms_fops;
  dumb_create = none;
  gem_vm_ops = false;
  gem_free_object_unlocked = none;
}

module _ (c : DrmCore) where
  unfoldable pub vkms_modeset_init : Cmd VkmsCall (Unit {0})
  vkms_modeset_init = do
    emit mode_config_init
    plane_init c
    crtc_init c
    encoder_init c
    connector_init c
    pure tt

  unfoldable pub vkms_init : Cmd VkmsCall Ret
  unfolding vkms_modeset_init
  vkms_init = do dev_init c; vkms_modeset_init; dev_register c; pure (val 0)
