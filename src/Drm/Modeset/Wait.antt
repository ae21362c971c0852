-- ===== src/Drm/Modeset/Wait.antt =====
-- The loop `while (!terminate)` of drm/application/modeset-page-flip/modeset-page-flip.c, which
-- SIGINT ends.
use sample_code.Base.{
  ℕ, ℕ_discrete, zero, suc, ◌+◌, ◌≤◌, ◌<◌, ◌≡◌, refl, inl, inr, true, false, Option, some, List, [],
  ◌∷◌, Bool-cases, ℕ-cases, arith,
}
use sample_code.Effect.Spec
use sample_code.Effect.Spec.{Returns, returns}
use sample_code.Drm.Libdrm.{Call}
use sample_code.Drm.Modeset.{BufferObject, Round, sigint_handler, handle_event, wait_loop}
use sample_code.Drm.Modeset.Flips.{Flipped, handle_event-Flipped}

-- The loop has ended with `last`, after the `m` rounds from `t` on without SIGINT, at most `most`,
-- and one more in which it arrived. `I` holds, of the number of rounds since the begin.
pub record Stopped (rounds : ℕ → Round) (I : ℕ → ℕ → List Call → Type 0) (t most : ℕ) (r : Option ℕ)
    (l : List Call) : Type 0 where
  pub m : ℕ
  pub last : ℕ
  pub within : m ≤ most
  pub result : r ≡ some last
  pub earlier : (u : ℕ) → t ≤ u → u < m + t → (rounds u).interrupted ≡ false
  pub arrived : (u : ℕ) → u ≡ m + t → (rounds u).interrupted ≡ true
  pub kept : (u : ℕ) → u ≡ suc (m + t) → I u last l

module _ (buf : List BufferObject) (crtc_id : ℕ) (rounds : ℕ → Round)
    (I : ℕ → ℕ → List Call → Type 0)
    (handled : (t i : ℕ) (l : List Call)
      → I t i l
      → Returns (I (suc t)) (handle_event buf crtc_id (rounds t).flip_events i l)) where
  one_more :
      {t d : ℕ} {r : Option ℕ} {l : List Call}
      → (rounds t).interrupted ≡ false
      → Stopped rounds I (suc t) d r l
      → Stopped rounds I t (suc d) r l
  one_more {t} e x = record {
    m = suc x.m;
    last = x.last;
    within = omega (arith, x.within);
    result = x.result;
    earlier = λ u h h'. elim (ℕ_discrete u t) [
      | yes q ↦ rw q e
      | no q ↦ x.earlier u (omega arith) (omega (arith, h'))
    ];
    arrived = λ u h. x.arrived u (omega (arith, h));
    kept = λ u h. x.kept u (omega (arith, h));
  }

  -- A property that every round keeps holds when the loop ends, and with enough fuel it does.
  pub wait_loop-Stopped :
      (fuel t d stop : ℕ) {i : ℕ} {l : List Call}
      → suc d < fuel
      → stop ≡ d + t
      → (rounds stop).interrupted ≡ true
      → I t i l
      → Returns (Stopped rounds I t d) (wait_loop buf crtc_id rounds fuel t false i l)
  unfolding wait_loop sigint_handler
  wait_loop-Stopped zero t d stop lt at_stop s p = absurd (omega arith)
  wait_loop-Stopped (suc zero) t d stop lt at_stop s p = absurd (omega arith)
  wait_loop-Stopped (suc (suc fuel)) t d stop lt at_stop s p =
      elim (Bool-cases (rounds t).interrupted) [
        | inl e ↦ rw e (
            Spec.bind (handled t _ _ p) λ j l' q. returns (record {
              m = 0;
              last = j;
              within = omega arith;
              result = refl;
              earlier = λ u h h'. absurd (omega arith);
              arrived = λ u h. let here : u ≡ t = omega (arith, h) in rw here e;
              kept = λ u h. let here : u ≡ suc t = omega (arith, h) in rw here q;
            }))
        | inr e ↦ rw e (
            Spec.bind (handled t _ _ p) λ j l' q. elim (ℕ-cases d) [
              | inl z ↦ let here : stop ≡ t = omega (arith, z) in absurd (cc)
              | inr (d', z) ↦ rw z (
                  Spec.mono
                    (wait_loop-Stopped (suc fuel) (suc t) d' stop (omega (arith, z))
                      (omega (arith, z)) s q)
                    λ r m x. one_more e x)
            ])
      ]

-- The events of the first `n` rounds.
abbrev pub total : (ℕ → Round) → ℕ → ℕ
total rounds zero = 0
total rounds (suc n) = (rounds n).flip_events + total rounds n

module _ (bo₀ bo₁ : BufferObject) (crtc_id : ℕ) (rounds : ℕ → Round) (n : ℕ) where
  -- `n` flips were made before the loop.
  abbrev pub AllFlipped : ℕ → ℕ → List Call → Type 0
  AllFlipped t i l = Flipped bo₀ bo₁ crtc_id (total rounds t + n) i l

  round-AllFlipped :
      (t i : ℕ) (l : List Call)
      → AllFlipped t i l
      → Returns
          (AllFlipped (suc t))
          (handle_event (bo₀ ∷ bo₁ ∷ []) crtc_id (rounds t).flip_events i l)
  round-AllFlipped t i l p =
      Spec.mono (handle_event-Flipped bo₀ bo₁ crtc_id (rounds t).flip_events p)
        λ j l' q. record { turn = q.turn; count = omega (arith, q.count) }

  -- Where SIGINT arrives in the round `stop` at the latest and the fuel is more than the number of
  -- rounds until then and one more test, the loop ends, after the round in which SIGINT arrives
  -- first, and has answered each flip event of its rounds by one flip, each to the other buffer
  -- than the flip before.
  pub wait_loop-AllFlipped :
      (fuel stop : ℕ) {i : ℕ} {l : List Call}
      → suc stop < fuel
      → (rounds stop).interrupted ≡ true
      → AllFlipped 0 i l
      → Returns
          (Stopped rounds AllFlipped 0 stop)
          (wait_loop (bo₀ ∷ bo₁ ∷ []) crtc_id rounds fuel 0 false i l)
  wait_loop-AllFlipped fuel stop lt s p =
      wait_loop-Stopped (bo₀ ∷ bo₁ ∷ []) crtc_id rounds AllFlipped round-AllFlipped fuel 0 stop stop
        lt (omega arith) s p
