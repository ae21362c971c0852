-- ===== src/Drm/FlipMachine.antt =====
-- A machine on which drm/driver/vkms/vkms_drv_5.c is loaded, for the program
-- drm/application/modeset-page-flip: the core hands each page flip to the driver's callback, which
-- is found by the table of the CRTC, with an event that the callback is to send.
mod Pending
mod Tests
use sample_code.Base.{ℕ, ◌+◌, suc, none, some, List, [], ◌∷◌}
use sample_code.Effect.{Cmd, pure, ◌>>=◌}
use sample_code.Drm.Libdrm.{Call}
use sample_code.Drm.Tables.{core, own}
use sample_code.Drm.Vkms.Legacy.{vkms_crtc_funcs}
use sample_code.Drm.Vkms.{VkmsCall, send_vblank_event}

-- The events sent. The program finds each of them once.
unfoldable pub sent : List VkmsCall → ℕ
sent [] = 0
sent (send_vblank_event e ∷ m) = suc (sent m)
sent (c ∷ m) = sent m

module _ (new_event : List VkmsCall → ℕ) where
  abbrev flip : ℕ → ℕ → Cmd VkmsCall ℕ
  flip fb shown m = elim vkms_crtc_funcs.page_flip [
    | none ↦ pure shown m
    | some e ↦ elim e [
      | core f ↦ pure shown m
      | own f ↦ (f fb (some (new_event m)) >>= λ r. pure r.1) m
    ]
  ]

  -- `shown` is the framebuffer that the display shows, `primary->fb`.
  unfoldable pub serve : Call → ℕ → Cmd VkmsCall ℕ
  serve (Call.set_crtc crtc_id fb conn_id mode) shown = pure fb
  serve (Call.page_flip crtc_id fb) shown = flip fb shown
  serve c shown = pure shown

  -- The calls of a log, the oldest first.
  unfoldable pub serve_all : List Call → ℕ → Cmd VkmsCall ℕ
  unfolding serve
  serve_all [] shown = pure shown
  serve_all (c ∷ l) shown = serve_all l shown >>= serve c
