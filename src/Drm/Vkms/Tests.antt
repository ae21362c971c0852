-- ===== src/Drm/Vkms/Tests.antt =====
-- The theorems about drm/driver/vkms at a concrete core and concrete sequences of callbacks.
use sample_code.Base.{◌≡◌, none, some, List, [], ◌∷◌}
use sample_code.Effect.Spec.{Returns}
use sample_code.Kernel.{enomem, err}
use sample_code.Drm.Vkms
use sample_code.Drm.Vkms.{
  VkmsCall, DrmCore, Trigger, commit, expiry, on, off, vblank_wanted, perform_all, running,
  timer_start, timer_init,
}
use sample_code.Drm.Vkms.Delivered.{atomic, dynamic, start}
use sample_code.Drm.Vkms.Timer.{vblanks, blanking, next_all}

-- It has memory, and every other call fails.
abbrev core : DrmCore
core = record {
  kzalloc = λ l. some 7;
  dev_init = λ l. err enomem;
  dev_register = λ l. err enomem;
  plane_init = λ l. err enomem;
  crtc_init = λ l. err enomem;
  encoder_init = λ l. err enomem;
  connector_init = λ l. err enomem;
  connector_register = λ l. err enomem;
  attach_encoder = λ l. err enomem;
  vblank_init = λ l. err enomem;
  add_modes_noedid = λ l w h. 3;
}

abbrev frames : List Trigger
frames = on ∷ commit (some 4) ∷ expiry ∷ commit none ∷ commit (some 5) ∷ off ∷ expiry ∷ []

perform_all-Delivered_example :
    Returns
      (λ event l'. (event ≡ none) × Vkms.Delivered.Delivered (5 ∷ 4 ∷ []) l')
      (perform_all (Vkms.Delivered.callbacks atomic) frames none [])
perform_all-Delivered_example = Vkms.Delivered.perform_all-Delivered atomic frames start

perform_all-blanking_example :
    Returns
      (λ _ l'. blanking l' ≡ next_all atomic frames (blanking []))
      (perform_all (Vkms.Delivered.callbacks atomic) frames none [])
perform_all-blanking_example = Vkms.Timer.perform_all-blanking atomic frames none []

abbrev started : List VkmsCall
started = timer_start ∷ timer_init ∷ []
