-- ===== src/Drm/Vkms/Minimal.antt =====
-- drm/driver/vkms/vkms_drv_1.c; vkms_drv_2.c adds a table of file operations.
use sample_code.Base.{none, some, false}
use sample_code.Effect.{Cmd, pure, ◌>>◌}
use sample_code.Kernel.{Ret, val}
use sample_code.Drm.Tables.{CoreFunction, FileOperations, DrmDriver}
use sample_code.Drm.Vkms.{VkmsCall, DrmCore, dev_init, dev_register}

unfoldable pub vkms_fops : FileOperations (Unit {0})
vkms_fops = record {
  open_file = some CoreFunction.drm_open;
  release = some CoreFunction.drm_release;
  unlocked_ioctl = some CoreFunction.drm_ioctl;
  poll = some CoreFunction.drm_poll;
  read = some CoreFunction.drm_read;
  mmap = none;
}

unfoldable pub vkms_driver : DrmDriver (Unit {0}) (Unit {0})
unfolding vkms_fops
vkms_driver = record {
  driver_modeset = false;
  driver_gem = false;
  driver_atomic = false;
  fops = some vkms_fops;
  dumb_create = none;
  gem_vm_ops = false;
  gem_free_object_unlocked = none;
}

unfoldable pub vkms_init : DrmCore → Cmd VkmsCall Ret
vkms_init c = do dev_init c; dev_register c; pure (val 0)
