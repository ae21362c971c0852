-- ===== src/Drm/Modeset/Flips.antt =====
-- The page flips of drm/application/modeset-page-flip/modeset-page-flip.c.
use sample_code.Base.{ℕ, zero, suc, ◌+◌, ◌≡◌, refl, List, [], ◌∷◌, arith, length}
use sample_code.Effect.Spec
use sample_code.Effect.Spec.{Returns, returns}
use sample_code.Drm.Libdrm.{Call}
use sample_code.Drm.Modeset.{BufferObject, modeset_page_flip_handler, handle_event}

-- The framebuffers that a log flips to, the newest first.
abbrev pub flips : List Call → List ℕ
flips [] = []
flips (Call.page_flip crtc fb ∷ l) = fb ∷ flips l
flips (c ∷ l) = flips l

-- The flips go to `a` first and then to `b` and `a` in turn; the number says which of the two
-- was the last.
pub data Alternates (a b : ℕ) : ℕ → List ℕ → Type 0 where
  start : Alternates a b 0 (a ∷ [])
  to_second : {fs : List ℕ} → Alternates a b 0 fs → Alternates a b 1 (b ∷ fs)
  to_first : {fs : List ℕ} → Alternates a b 1 fs → Alternates a b 0 (a ∷ fs)

module _ (bo₀ bo₁ : BufferObject) (crtc_id : ℕ) where
  -- After `l`, `n` flips were made, in turn, the last of them to the buffer `i`.
  pub record Flipped (n i : ℕ) (l : List Call) : Type 0 where
    pub turn : Alternates bo₀.fb_id bo₁.fb_id i (flips l)
    pub count : length (flips l) ≡ n

  handler-Flipped :
      (l : List Call) {n i : ℕ} {fs : List ℕ}
      → Alternates bo₀.fb_id bo₁.fb_id i fs
      → flips l ≡ fs
      → length fs ≡ n
      → Returns
          (λ j l'. Flipped (suc n) j l')
          (modeset_page_flip_handler (bo₀ ∷ bo₁ ∷ []) crtc_id i l)
  unfolding modeset_page_flip_handler
  handler-Flipped l start e c =
      returns (record { turn = rw e (to_second start); count = rw e (omega (arith, c)) })
  handler-Flipped l (to_second q) e c =
      returns (record { turn = rw e (to_first (to_second q)); count = rw e (omega (arith, c)) })
  handler-Flipped l (to_first q) e c =
      returns (record { turn = rw e (to_second (to_first q)); count = rw e (omega (arith, c)) })

  pub handle_event-Flipped :
      (m : ℕ) {n i : ℕ} {l : List Call}
      → Flipped n i l
      → Returns (λ j l'. Flipped (m + n) j l') (handle_event (bo₀ ∷ bo₁ ∷ []) crtc_id m i l)
  unfolding handle_event
  handle_event-Flipped zero p = returns (record { turn = p.turn; count = omega (arith, p.count) })
  handle_event-Flipped (suc m) {n} p = Spec.bind (handler-Flipped _ p.turn refl p.count) λ j l q.
      Spec.mono (handle_event-Flipped m q)
        λ j' l' r. record { turn = r.turn; count = omega (arith, r.count) }
