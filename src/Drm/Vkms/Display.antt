-- ===== src/Drm/Vkms/Display.antt =====
-- The callbacks of a display, and what makes the kernel call them.
use sample_code.Base.{ℕ, Bool, true, false, Option, none, some, List, [], ◌∷◌, if◌then◌else◌}
use sample_code.Effect.{Cmd, pure, ◌>>=◌, ◌>>◌, emit}
use sample_code.Kernel.{Ret}
use sample_code.Drm.Vkms.Calls.{
  VkmsCall, timer_start, timer_cancel, timer_ends, HrtimerRestart, restart, no_restart,
}

-- The entries of `struct drm_crtc_helper_funcs` and `struct drm_crtc_funcs` that are the driver's
-- own, and the function of its timer. `none` is an entry that the driver leaves NULL.
pub record CrtcCallbacks : Type 0 where
  pub atomic_enable : Cmd VkmsCall (Unit {0})
  pub atomic_disable : Cmd VkmsCall (Unit {0})
  pub atomic_flush : Option ℕ → Cmd VkmsCall (Option ℕ)
  pub enable_vblank : Option (Cmd VkmsCall Ret)
  pub disable_vblank : Option (Cmd VkmsCall (Unit {0}))
  pub vblank_simulate : Cmd VkmsCall HrtimerRestart

-- A commit whose new state carries an event or none, the timer's expiry, and the requests to
-- switch the CRTC, or its vertical blanking, on and off. Where `drm_crtc_vblank_off` makes the core
-- stop the vertical blanking, that is a `vblank_unwanted` of its own after `off`.
pub data Trigger : Type 0 where
  commit : Option ℕ → Trigger
  expiry on off vblank_wanted vblank_unwanted : Trigger

-- Whether the timer runs: from its start to its cancelling, or to an answer that ends it.
abbrev pub running : List VkmsCall → Bool
running [] = false
running (timer_start ∷ l) = true
running (timer_cancel ∷ l) = false
running (timer_ends ∷ l) = false
running (_ ∷ l) = running l

abbrev pub rearm : HrtimerRestart → Cmd VkmsCall (Unit {0})
rearm restart = pure tt
rearm no_restart = emit timer_ends

-- A timer expires only while it runs.
abbrev pub expire : CrtcCallbacks → Cmd VkmsCall (Unit {0})
expire f l = if running l then (f.vblank_simulate >>= rearm) l else pure tt l

abbrev pub wanted : Option (Cmd VkmsCall Ret) → Cmd VkmsCall (Unit {0})
wanted none = pure tt
wanted (some m) = m >> pure tt

abbrev pub unwanted : Option (Cmd VkmsCall (Unit {0})) → Cmd VkmsCall (Unit {0})
unwanted none = pure tt
unwanted (some m) = m

-- The result is the event that is left in the state of the CRTC.
abbrev pub perform : CrtcCallbacks → Trigger → Option ℕ → Cmd VkmsCall (Option ℕ)
perform f (commit next) event = f.atomic_flush next
perform f expiry event = expire f >> pure event
perform f on event = f.atomic_enable >> pure event
perform f off event = f.atomic_disable >> pure event
perform f vblank_wanted event = wanted f.enable_vblank >> pure event
perform f vblank_unwanted event = unwanted f.disable_vblank >> pure event

abbrev pub perform_all : CrtcCallbacks → List Trigger → Option ℕ → Cmd VkmsCall (Option ℕ)
perform_all f [] event = pure event
perform_all f (t ∷ ts) event = perform f t event >>= perform_all f ts
