-- ===== src/Drm/Vkms/Timer.antt =====
-- The vertical blanking of drm/driver/vkms/vkms_drv_6.c and vkms_drv.c.
use sample_code.Base.{
  ℕ, suc, ◌≡◌, refl, Bool, true, false, inl, inr, Option, none, some, List, [], ◌∷◌, if◌then◌else◌,
  Bool-cases,
}
use sample_code.Effect.Spec
use sample_code.Effect.Spec.{Returns, returns}
use sample_code.Drm.Vkms.{
  VkmsCall, handle_vblank, Trigger, commit, expiry, on, off, vblank_wanted, vblank_unwanted,
  running, perform, perform_all,
}
use sample_code.Drm.Vkms.Delivered.{Driver, atomic, dynamic, callbacks}

-- How often a log tells the DRM core of a vertical blanking.
abbrev pub vblanks : List VkmsCall → ℕ
vblanks [] = 0
vblanks (handle_vblank ∷ l) = suc (vblanks l)
vblanks (_ ∷ l) = vblanks l

-- The display as its users see it: whether it blanks, and how often it has.
pub record Blanking : Type 0 where
  pub active : Bool
  pub count : ℕ

-- Atomic: the CRTC and its blanking are switched together. Dynamic: the core asks for blanking.
abbrev pub next : Driver → Trigger → Blanking → Blanking
next v (commit e) b = b
next v expiry b = if b.active then record b { count = suc b.count } else b
next atomic on b = record b { active = true }
next atomic off b = record b { active = false }
next atomic vblank_wanted b = b
next atomic vblank_unwanted b = b
next dynamic on b = b
next dynamic off b = b
next dynamic vblank_wanted b = record b { active = true }
next dynamic vblank_unwanted b = record b { active = false }

abbrev pub next_all : Driver → List Trigger → Blanking → Blanking
next_all v [] b = b
next_all v (t ∷ ts) b = next_all v ts (next v t b)

abbrev pub blanking : List VkmsCall → Blanking
blanking l = record { active = running l; count = vblanks l }

perform-blanking :
    (v : Driver) (t : Trigger) (event : Option ℕ) (l : List VkmsCall)
    → Returns (λ _ l'. blanking l' ≡ next v t (blanking l)) (perform (callbacks v) t event l)
unfolding callbacks
perform-blanking atomic (commit none) event l = returns refl
perform-blanking atomic (commit (some e)) event l = returns refl
perform-blanking atomic expiry event l = elim (Bool-cases (running l)) [
  | inl e ↦ rw e (returns (rw e))
  | inr e ↦ rw e (returns (rw e))
]
perform-blanking atomic on event l = returns refl
perform-blanking atomic off event l = returns refl
perform-blanking atomic vblank_wanted event l = returns refl
perform-blanking atomic vblank_unwanted event l = returns refl
perform-blanking dynamic (commit none) event l = returns refl
perform-blanking dynamic (commit (some e)) event l = returns refl
perform-blanking dynamic expiry event l = elim (Bool-cases (running l)) [
  | inl e ↦ rw e (returns (rw e))
  | inr e ↦ rw e (returns (rw e))
]
perform-blanking dynamic on event l = returns refl
perform-blanking dynamic off event l = returns refl
perform-blanking dynamic vblank_wanted event l = returns refl
perform-blanking dynamic vblank_unwanted event l = returns refl

-- Over every sequence of callbacks the driver's log and timer behave as the blanking display:
-- while it is active, each expiry is told to the core exactly once and the timer runs on, and
-- while it is not, none is told.
pub perform_all-blanking :
    (v : Driver) (ts : List Trigger) (event : Option ℕ) (l : List VkmsCall)
    → Returns
        (λ _ l'. blanking l' ≡ next_all v ts (blanking l))
        (perform_all (callbacks v) ts event l)
perform_all-blanking v [] event l = returns refl
perform_all-blanking v (t ∷ ts) event l =
    Spec.bind (perform-blanking v t event l)
      λ event' m e. rw (← e) (perform_all-blanking v ts event' m)
