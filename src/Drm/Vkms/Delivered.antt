-- ===== src/Drm/Vkms/Delivered.antt =====
-- The events of drm/driver/vkms/vkms_drv_5.c, vkms_drv_6.c and vkms_drv.c.
use sample_code.Base.{ℕ, ◌≡◌, refl, inl, inr, Option, none, some, List, [], ◌∷◌, Bool-cases}
use sample_code.Effect.{ok}
use sample_code.Effect.Spec.{Returns, returns}
use sample_code.Kernel.{val}
use sample_code.Drm.Vkms.{
  VkmsCall, handle_vblank, timer_init, timer_start, timer_forward, timer_cancel, lock_events,
  unlock_events, send_vblank_event, vblank_on, vblank_off, CrtcCallbacks, Trigger, commit, expiry,
  on, off, vblank_wanted, vblank_unwanted, running, perform_all,
}
use sample_code.Drm.Vkms.Legacy.{vkms_crtc_page_flip}
use sample_code.Drm.Vkms.Atomic
use sample_code.Drm.Vkms.Dynamic

-- The two displays that have atomic commits.
pub data Driver : Type 0 where
  atomic dynamic : Driver

unfoldable pub callbacks : Driver → CrtcCallbacks
unfolding Atomic.vkms_crtc_callbacks Dynamic.vkms_crtc_callbacks
callbacks atomic = Atomic.vkms_crtc_callbacks
callbacks dynamic = Dynamic.vkms_crtc_callbacks

-- The events that were handed over, on top of `es`, the newest first.
abbrev pub handed : List Trigger → List ℕ → List ℕ
handed [] es = es
handed (commit none ∷ ts) es = handed ts es
handed (commit (some e) ∷ ts) es = handed ts (e ∷ es)
handed (_ ∷ ts) es = handed ts es

-- The log `l` sends the events `es`, the newest first, each under the lock of the events, which
-- is free at the end.
pub data Delivered : List ℕ → List VkmsCall → Type 0 where
  start : Delivered [] []
  sends :
      {es : List ℕ} {l : List VkmsCall} (e : ℕ)
      → Delivered es l
      → Delivered (e ∷ es) (unlock_events ∷ send_vblank_event e ∷ lock_events ∷ l)
  blanks :
      {es : List ℕ} {l : List VkmsCall}
      → Delivered es l
      → Delivered es (timer_forward ∷ handle_vblank ∷ l)
  starts :
      {es : List ℕ} {l : List VkmsCall}
      → Delivered es l
      → Delivered es (timer_start ∷ timer_init ∷ l)
  cancels : {es : List ℕ} {l : List VkmsCall} → Delivered es l → Delivered es (timer_cancel ∷ l)
  switches_on : {es : List ℕ} {l : List VkmsCall} → Delivered es l → Delivered es (vblank_on ∷ l)
  switches_off : {es : List ℕ} {l : List VkmsCall} → Delivered es l → Delivered es (vblank_off ∷ l)

-- Over every sequence of callbacks of either display, each event that a commit carries is sent
-- exactly once, in order and under the lock, and none is left in the state.
pub perform_all-Delivered :
    (v : Driver) (ts : List Trigger) {es : List ℕ} {l : List VkmsCall}
    → Delivered es l
    → Returns
        (λ event l'. (event ≡ none) × Delivered (handed ts es) l')
        (perform_all (callbacks v) ts none l)
unfolding callbacks
perform_all-Delivered v [] q = returns (refl, q)
perform_all-Delivered atomic (commit none ∷ ts) q = perform_all-Delivered atomic ts q
perform_all-Delivered dynamic (commit none ∷ ts) q = perform_all-Delivered dynamic ts q
perform_all-Delivered atomic (commit (some e) ∷ ts) q = perform_all-Delivered atomic ts (sends e q)
perform_all-Delivered dynamic (commit (some e) ∷ ts) q =
    perform_all-Delivered dynamic ts (sends e q)
perform_all-Delivered atomic (expiry ∷ ts) {l} q = elim (Bool-cases (running l)) [
  | inl e ↦ rw e (perform_all-Delivered atomic ts (blanks q))
  | inr e ↦ rw e (perform_all-Delivered atomic ts q)
]
perform_all-Delivered dynamic (expiry ∷ ts) {l} q = elim (Bool-cases (running l)) [
  | inl e ↦ rw e (perform_all-Delivered dynamic ts (blanks q))
  | inr e ↦ rw e (perform_all-Delivered dynamic ts q)
]
perform_all-Delivered atomic (on ∷ ts) q = perform_all-Delivered atomic ts (starts q)
perform_all-Delivered dynamic (on ∷ ts) q = perform_all-Delivered dynamic ts (switches_on q)
perform_all-Delivered atomic (off ∷ ts) q = perform_all-Delivered atomic ts (cancels q)
perform_all-Delivered dynamic (off ∷ ts) q = perform_all-Delivered dynamic ts (switches_off q)
perform_all-Delivered atomic (vblank_wanted ∷ ts) q = perform_all-Delivered atomic ts q
perform_all-Delivered dynamic (vblank_wanted ∷ ts) q = perform_all-Delivered dynamic ts (starts q)
perform_all-Delivered atomic (vblank_unwanted ∷ ts) q = perform_all-Delivered atomic ts q
perform_all-Delivered dynamic (vblank_unwanted ∷ ts) q =
    perform_all-Delivered dynamic ts (cancels q)

-- The page flip of vkms_drv_5.c hands its event over by the same calls as the flush of either
-- later display: on every log, with an event or without, both return and leave the same log.
page_flip-flush :
    (v : Driver) (fb : ℕ) (event : Option ℕ) (l : List VkmsCall)
    → (l' : List VkmsCall) × (vkms_crtc_page_flip fb event l ≡ ok (val 0, fb) l')
      × ((callbacks v).atomic_flush event l ≡ ok none l')
unfolding vkms_crtc_page_flip callbacks
page_flip-flush atomic fb none l = (l, refl, refl)
page_flip-flush dynamic fb none l = (l, refl, refl)
page_flip-flush atomic fb (some e) l = (_, refl, refl)
page_flip-flush dynamic fb (some e) l = (_, refl, refl)
