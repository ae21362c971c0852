-- ===== src/Drm/Modeset/Looped.antt =====
-- What the loop of drm/application/modeset-page-flip/modeset-page-flip.c holds of the display.
use sample_code.Base.{
  Bool, true, false, ◌<◌, arith, ℕ, zero, suc, ◌≡◌, refl, ◌⊎◌, inl, inr, some, List, [], ◌∷◌, arith,
}
use sample_code.Effect.Spec
use sample_code.Effect.Spec.{Returns, returns}
use sample_code.Drm.Libdrm.{Call}
use sample_code.Drm.Libdrm.Held.{Item, Holds, skip}
use sample_code.Drm.Modeset.Wait.{wait_loop-Stopped}
use sample_code.Drm.Modeset.{
  BufferObject, modeset_page_flip_handler, handle_event, wait_loop, Round,
}

-- Between two rounds of the loop of modeset-page-flip.c: the static variable of its handler is 0
-- or 1.
abbrev Between : List Item → ℕ → ℕ → List Call → Type 0
Between h t i l = ((i ≡ 0) ⊎ (i ≡ 1)) × Holds l h

module _ {h : List Item} where
  -- The static variable of the handler is 0 or 1.
  handler-Holds :
      (bo₀ bo₁ : BufferObject) (crtc_id i : ℕ) {l : List Call}
      → (i ≡ 0) ⊎ (i ≡ 1)
      → Holds l h
      → Returns
          (λ j l'. ((j ≡ 0) ⊎ (j ≡ 1)) × Holds l' h)
          (modeset_page_flip_handler (bo₀ ∷ bo₁ ∷ []) crtc_id i l)
  unfolding modeset_page_flip_handler
  handler-Holds bo₀ bo₁ crtc_id i (inl e) q =
      rw e (returns (inr refl, skip (Call.page_flip _ _) refl q))
  handler-Holds bo₀ bo₁ crtc_id i (inr e) q =
      rw e (returns (inl refl, skip (Call.page_flip _ _) refl q))

  handle_event-Holds :
      (bo₀ bo₁ : BufferObject) (crtc_id n i : ℕ) {l : List Call}
      → (i ≡ 0) ⊎ (i ≡ 1)
      → Holds l h
      → Returns
          (λ j l'. ((j ≡ 0) ⊎ (j ≡ 1)) × Holds l' h)
          (handle_event (bo₀ ∷ bo₁ ∷ []) crtc_id n i l)
  unfolding handle_event
  handle_event-Holds bo₀ bo₁ crtc_id zero i v q = returns (v, q)
  handle_event-Holds bo₀ bo₁ crtc_id (suc n) i v q =
      Spec.bind (handler-Holds bo₀ bo₁ crtc_id i v q)
        λ j l' p. handle_event-Holds bo₀ bo₁ crtc_id n j p.0 p.1

  pub wait_loop-Holds :
      (bo₀ bo₁ : BufferObject) (crtc_id : ℕ) (rounds : ℕ → Round) (fuel stop : ℕ) (terminate : Bool)
      {l : List Call}
      → suc stop < fuel
      → (rounds stop).interrupted ≡ true
      → Holds l h
      → Returns
          (λ r l'. (j : ℕ) × (r ≡ some j) × Holds l' h)
          (wait_loop (bo₀ ∷ bo₁ ∷ []) crtc_id rounds fuel 0 terminate 0 l)
  unfolding wait_loop
  wait_loop-Holds bo₀ bo₁ crtc_id rounds zero stop terminate lt s q = absurd (omega arith)
  wait_loop-Holds bo₀ bo₁ crtc_id rounds (suc fuel) stop true lt s q = returns (0, refl, q)
  wait_loop-Holds bo₀ bo₁ crtc_id rounds (suc fuel) stop false lt s q =
      Spec.mono
        (wait_loop-Stopped (bo₀ ∷ bo₁ ∷ []) crtc_id rounds (Between h)
          (λ t i l'. λ p. handle_event-Holds bo₀ bo₁ crtc_id (rounds t).flip_events i p.0 p.1)
          (suc fuel) 0 stop stop lt (omega arith) s (inl refl, q))
        λ r l' x. (x.last, x.result, (x.kept _ refl).1)
