-- ===== src/Drm/FlipMachine/Pending.antt =====
-- The loop of modeset-page-flip.c on vkms_drv_5.c.
use native.Mathlib.Nat.{zero-add}
use sample_code.Base.{
  ℕ, zero, suc, ◌+◌, ◌<◌, ◌≡◌, refl, ap, false, List, [], ◌∷◌, get_elem?, some, arith,
}
use sample_code.Effect.{Run, ok, fault, Cmd, pure, ◌>>=◌, and_then}
use sample_code.Effect.Spec
use sample_code.Effect.Spec.{Returns, returns}
use sample_code.Drm.FlipMachine.{sent, serve, serve_all}
use sample_code.Drm.Libdrm.{Call}
use sample_code.Drm.Modeset.Wait.{total}
use sample_code.Drm.Modeset.{
  BufferObject, Round, modeset_page_flip_handler, handle_event, wait_loop,
}
use sample_code.Drm.Vkms.Legacy.{vkms_crtc_funcs, vkms_crtc_page_flip}
use sample_code.Drm.Vkms.{VkmsCall}

next_round :
    {E A B C : Type 0} (r : Run E A) {f : A → Cmd E C} (g : A → Cmd E B) (h : B → Cmd E C)
    → ((a : A) (l : List E) → f a l ≡ and_then (g a l) h)
    → and_then r f ≡ and_then (and_then r g) h
next_round (ok a l) g h e = e a l
next_round (fault l) g h e = refl

-- What is left of a run after its first part.
resume :
    {E A B : Type 0} {P : A → List E → Type 0} {r : Run E A} {f : A → Cmd E B} {w : Run E B}
    → w ≡ and_then r f
    → Returns P r
    → Returns (λ a l. (w ≡ f a l) × P a l) r
resume e (returns p) = returns (e, p)

module _ (bo₀ bo₁ : BufferObject) (crtc_id : ℕ) where
  abbrev buf : List BufferObject
  buf = bo₀ ∷ bo₁ ∷ []

  -- The first `n` rounds of the loop.
  unfoldable pub first_rounds : (ℕ → Round) → ℕ → ℕ → Cmd Call ℕ
  first_rounds rounds zero i = pure i
  first_rounds rounds (suc n) i =
      first_rounds rounds n i >>= handle_event buf crtc_id (rounds n).flip_events

  module _ (new_event : List VkmsCall → ℕ) (shown₀ : ℕ) (m₀ : List VkmsCall) where
    -- The driver has sent `n` events since `m₀`, and shows the buffer `i`.
    data Sent (n : ℕ) (l : List Call) : ℕ → Type 0 where
      first :
          Returns
            (λ s m. (s ≡ bo₀.fb_id) × (sent m ≡ n + sent m₀))
            (serve_all new_event l shown₀ m₀)
          → Sent n l 0
      second :
          Returns
            (λ s m. (s ≡ bo₁.fb_id) × (sent m ≡ n + sent m₀))
            (serve_all new_event l shown₀ m₀)
          → Sent n l 1

    flip-Sent :
        {P : ℕ → List VkmsCall → Type 0} (l : List Call) (n fb : ℕ)
        → Returns (λ s m. P s m × (sent m ≡ n + sent m₀)) (serve_all new_event l shown₀ m₀)
        → Returns
            (λ s m. (s ≡ fb) × (sent m ≡ suc n + sent m₀))
            (serve_all new_event (Call.page_flip crtc_id fb ∷ l) shown₀ m₀)
    unfolding serve_all serve vkms_crtc_funcs vkms_crtc_page_flip sent
    flip-Sent l n fb r = Spec.bind r λ s m (p, e). returns (refl, omega (arith, e))

    handler-Sent :
        (l : List Call) {n i : ℕ}
        → Sent n l i
        → Returns (λ j l'. Sent (suc n) l' j) (modeset_page_flip_handler buf crtc_id i l)
    unfolding modeset_page_flip_handler
    handler-Sent l {n} (first r) = returns (second (flip-Sent l n bo₁.fb_id r))
    handler-Sent l {n} (second r) = returns (first (flip-Sent l n bo₀.fb_id r))

    recount : {n n' i : ℕ} {l : List Call} → n' ≡ n → Sent n l i → Sent n' l i
    recount e p = rw e p

    handle_event-Sent :
        (k : ℕ) (l : List Call) {n i : ℕ}
        → Sent n l i
        → Returns (λ j l'. Sent (k + n) l' j) (handle_event buf crtc_id k i l)
    unfolding handle_event
    handle_event-Sent zero l p = returns (recount (omega arith) p)
    handle_event-Sent (suc k) l p =
        Spec.bind (handler-Sent l p)
          λ j l' q. Spec.mono (handle_event-Sent k l' q) λ j' l'' r. recount (omega arith) r

    first_rounds-Sent :
        (rounds : ℕ → Round) (n : ℕ) (l : List Call) {i : ℕ}
        → Sent 1 l i
        → Returns (λ j l'. Sent (suc (total rounds n)) l' j) (first_rounds rounds n i l)
    unfolding first_rounds
    first_rounds-Sent rounds zero l p = returns p
    first_rounds-Sent rounds (suc n) l p = Spec.bind (first_rounds-Sent rounds n l p) λ j l' q.
        Spec.mono (handle_event-Sent (rounds n).flip_events l' q)
          λ j' l'' r. recount (omega arith) r

  -- The loop makes these rounds, as long as no SIGINT arrives.
  wait_loop-first_rounds :
      (rounds : ℕ → Round) (n fuel i : ℕ) (l : List Call)
      → ((t : ℕ) → t < n → (rounds t).interrupted ≡ false)
      → wait_loop buf crtc_id rounds (n + fuel) 0 false i l
        ≡ and_then (first_rounds rounds n i l) (wait_loop buf crtc_id rounds fuel n false)
  unfolding first_rounds wait_loop
  wait_loop-first_rounds rounds zero fuel i l quiet = rw (zero-add fuel) refl
  wait_loop-first_rounds rounds (suc n) fuel i l quiet =
      let q : (rounds n).interrupted ≡ false = quiet n (omega arith) in
      let e : suc n + fuel ≡ n + suc fuel = omega arith in
      rw (e, wait_loop-first_rounds rounds n (suc fuel) i l λ t h. quiet t (omega arith))
        (next_round (first_rounds rounds n i l) _ _ λ j l'. rw q refl)

  module _ (new_event : List VkmsCall → ℕ) (shown₀ : ℕ) (m₀ : List VkmsCall) where
    -- Before the round `n`, the driver has sent one event more than the rounds have found, and
    -- shows the buffer `i`.
    abbrev pub OnePending : (ℕ → Round) → ℕ → ℕ → List Call → Type 0
    OnePending rounds n i l =
        Returns
          (λ s m.
            (sent m ≡ suc (total rounds n) + sent m₀)
            × ((bo : BufferObject) × (get_elem? buf i ≡ some bo) × (s ≡ bo.fb_id)))
          (serve_all new_event l shown₀ m₀)

    Sent-OnePending :
        (rounds : ℕ → Round) (n : ℕ) {i : ℕ} {l : List Call}
        → Sent new_event shown₀ m₀ (suc (total rounds n)) l i
        → OnePending rounds n i l
    Sent-OnePending rounds n (first r) = Spec.mono r λ s m (e, c). (c, (bo₀, refl, e))
    Sent-OnePending rounds n (second r) = Spec.mono r λ s m (e, c). (c, (bo₁, refl, e))

    -- The loop of modeset-page-flip.c on vkms_drv_5.c, from the first page flip on, after calls that
    -- gave the driver nothing to do. Whatever number of events its rounds find: as long as no
    -- SIGINT arrives, the loop comes to the test before each round `n`, with one unit of fuel less
    -- for each round made, and there the driver has sent exactly one event more than the rounds
    -- have found, for `drmHandleEvent` to find next, and the display shows the buffer `i` of the
    -- static variable.
    pub first_rounds-OnePending :
        (rounds : ℕ → Round) (n fuel : ℕ) (l : List Call)
        → Returns (λ s m. m ≡ m₀) (serve_all new_event l shown₀ m₀)
        → ((t : ℕ) → t < n → (rounds t).interrupted ≡ false)
        → Returns
            (λ i l'.
              (wait_loop buf crtc_id rounds
                  (n + fuel)
                  0
                  false
                  0
                  (Call.page_flip crtc_id bo₀.fb_id ∷ l)
                ≡ wait_loop buf crtc_id rounds fuel n false i l')
              × OnePending rounds n i l')
            (first_rounds rounds n 0 (Call.page_flip crtc_id bo₀.fb_id ∷ l))
    first_rounds-OnePending rounds n fuel l r quiet =
        let p : Sent new_event shown₀ m₀ 1 (Call.page_flip crtc_id bo₀.fb_id ∷ l) 0 = first (
          flip-Sent new_event shown₀ m₀ l 0 bo₀.fb_id
            (Spec.mono r λ s m e. (e, omega (arith, ap sent e)))) in
        resume (wait_loop-first_rounds rounds n fuel 0 _ quiet) (
          Spec.mono (first_rounds-Sent new_event shown₀ m₀ rounds n _ p)
            λ i l'. Sent-OnePending rounds n)
