-- ===== src/BufferQueue/Tour/Slots/Consumer.antt =====
-- The calls of the consumer in mytest2.cpp.
use sample_code.Base.{◌≡◌, refl, ℕ, Bool, true, false, some, List, [], ◌∷◌, ==_of_eq}
use sample_code.Effect.Spec.{Returns, known}
use sample_code.BufferQueue.{BufferItem}
use sample_code.BufferQueue.Tour.{
  TourCall, TourFramework, acquire_buffer, release_buffer, consumer_attach_buffer,
  consumer_detach_buffer,
}
use sample_code.BufferQueue.Tour.Contract.{allowed, effect, Grants}
use sample_code.BufferQueue.Tour.Slots.{
  AtRest, Only, next, at_connected, queued_slot, acquired_slot, given, back,
}

module _ {l : List TourCall} where
  module _ (fw : TourFramework) (grants : Grants fw) where
    module _ {s n : ℕ} where
      pub acquire_buffer-Only :
          Only s (queued_slot n) (s ∷ []) l
          → Returns
              (λ a l'.
                (m : ℕ) × (b : ℕ) × (a
                  ≡ some (record { slot = s; frame_number = m; graphic_buffer = some b }))
                × Only s (acquired_slot true m) [] l')
              (acquire_buffer fw l)
      unfolding acquire_buffer
      acquire_buffer-Only r =
          let (m, b, e) = grants.acquires l r.queue s [] r.plays r.stage r.pending in
          let i : BufferItem = record { slot = s; frame_number = m; graphic_buffer = some b } in
          let c = TourCall.acquire_buffer (some i) in
          known (some i) (c ∷ l) (rw e refl) (
            m,
            b,
            refl,
            record {
              queue = effect c r.queue;
              plays = next l c r.plays (at_connected c r.queue r.stage refl);
              stage = r.stage;
              slot = rw (==_of_eq s s refl, r.slot) refl;
              others = λ t d. rw d (r.others t d);
              pending = rw r.pending refl;
            },
          )

      pub release_buffer-AtRest :
          Only s (acquired_slot true n) [] l → Returns (λ _ l'. AtRest l') (release_buffer fw s n l)
      unfolding release_buffer
      release_buffer-AtRest r =
          let c = TourCall.release_buffer s n true in
          let a : allowed c r.queue ≡ true =
            at_connected c r.queue r.stage (rw (r.slot, ==_of_eq n n refl) refl) in
          known true (c ∷ l) (rw (grants.releases l r.queue s n r.plays a) refl)
            (back c _ r refl (next l c r.plays a))

    pub consumer_attach_buffer-Only :
        (b : ℕ)
        → AtRest l
        → Returns
            (λ a l'. (s : ℕ) × (a ≡ some s) × Only s (acquired_slot false 0) [] l')
            (consumer_attach_buffer fw (some b) l)
    unfolding consumer_attach_buffer
    consumer_attach_buffer-Only b r =
        let (s, e, f) = grants.consumer_attaches l r.queue b r.plays r.stage in
        let c = TourCall.consumer_attach_buffer (some b) (some s) in
        known (some s) (c ∷ l) (rw e refl)
          (s, refl, given c s _ r (next l c r.plays (at_connected c r.queue r.stage refl)))

    pub consumer_detach_buffer-AtRest :
        {s n : ℕ} {k : Bool}
        → Only s (acquired_slot k n) [] l
        → Returns (λ _ l'. AtRest l') (consumer_detach_buffer fw s l)
    unfolding consumer_detach_buffer
    consumer_detach_buffer-AtRest {s} r =
        let c = TourCall.consumer_detach_buffer s true in
        let a : allowed c r.queue ≡ true = at_connected c r.queue r.stage (rw r.slot refl) in
        known true (c ∷ l) (rw (grants.consumer_detaches l r.queue s r.plays a) refl)
          (back c _ r refl (next l c r.plays a))

  pub discard_free_buffers-AtRest : AtRest l → AtRest (TourCall.discard_free_buffers ∷ l)
  discard_free_buffers-AtRest r =
      let c = TourCall.discard_free_buffers in
      record {
        queue = effect c r.queue;
        plays = next l c r.plays (at_connected c r.queue r.stage refl);
        stage = r.stage;
        all_free = λ t. rw (r.all_free t) refl;
        pending = r.pending;
      }
