-- ===== src/BufferQueue/Tour/Slots/Producer.antt =====
-- The calls of the producer in mytest2.cpp.
use sample_code.Base.{
  ◌≡◌, refl, ℕ, Bool, true, false, some, List, [], ◌∷◌, ◌==◌, ==_of_eq, eq_of_==, Bool-cases, ◌⊎◌,
  inl, inr,
}
use sample_code.Effect.Spec
use sample_code.Effect.Spec.{Returns, returns, known}
use sample_code.BufferQueue.Tour.{
  TourCall, TourFramework, dequeue_buffer, request_buffer, cancel_buffer, attach_buffer,
  detach_buffer, queue_buffer,
}
use sample_code.BufferQueue.Tour.Contract.{
  Queue, free, dequeued, allowed, effect, wrong, replay, Grants,
}
use sample_code.BufferQueue.Tour.Slots.{
  AtRest, Only, next, at_connected, dequeued_slot, queued_slot, given, back,
}

module _ {l : List TourCall} where
  module _ (fw : TourFramework) (grants : Grants fw) where
    pub dequeue_buffer-Only :
        AtRest l
        → Returns
            (λ a l'.
              (s : ℕ) × (k : Bool) × (n : ℕ) × (a ≡ some s) × Only s (dequeued_slot k n) [] l')
            (dequeue_buffer fw l)
    unfolding dequeue_buffer
    dequeue_buffer-Only r =
        let (s, e, f) = grants.dequeues l r.queue r.plays r.stage in
        let v = r.queue.slots s in
        let c = TourCall.dequeue_buffer (some s) in
        known (some s) (c ∷ l) (rw e refl) (
          s,
          v.requested,
          v.frame,
          refl,
          given c s _ r (next l c r.plays (at_connected c r.queue r.stage refl)),
        )

    module _ {s : ℕ} {k : Bool} {n : ℕ} where
      pub request_buffer-Only :
          Only s (dequeued_slot k n) [] l
          → Returns
              (λ a l'. (b : ℕ) × (a ≡ some b) × Only s (dequeued_slot true n) [] l')
              (request_buffer fw s l)
      unfolding request_buffer
      request_buffer-Only r =
          let (b, e) = grants.requests l r.queue s r.plays r.stage (rw r.slot refl) in
          let c = TourCall.request_buffer s (some b) in
          known (some b) (c ∷ l) (rw e refl) (
            b,
            refl,
            record {
              queue = effect c r.queue;
              plays = next l c r.plays (at_connected c r.queue r.stage (rw r.slot refl));
              stage = r.stage;
              slot = rw (==_of_eq s s refl, r.slot) refl;
              others = λ t d. rw d (r.others t d);
              pending = r.pending;
            },
          )

      pub cancel_buffer-AtRest :
          Only s (dequeued_slot k n) [] l → Returns (λ _ l'. AtRest l') (cancel_buffer fw s l)
      unfolding cancel_buffer
      cancel_buffer-AtRest r =
          let c = TourCall.cancel_buffer s true in
          let a : allowed c r.queue ≡ true = at_connected c r.queue r.stage (rw r.slot refl) in
          known true (c ∷ l) (rw (grants.cancels l r.queue s r.plays a) refl)
            (back c _ r refl (next l c r.plays a))

    pub attach_buffer-Only :
        (b : ℕ)
        → AtRest l
        → Returns
            (λ a l'. (s : ℕ) × (a ≡ some s) × Only s (dequeued_slot true 0) [] l')
            (attach_buffer fw (some b) l)
    unfolding attach_buffer
    attach_buffer-Only b r =
        let (s, e, f) = grants.attaches l r.queue b r.plays r.stage in
        let c = TourCall.attach_buffer (some b) (some s) in
        known (some s) (c ∷ l) (rw e refl)
          (s, refl, given c s _ r (next l c r.plays (at_connected c r.queue r.stage refl)))

    module _ {s n : ℕ} where
      pub detach_buffer-AtRest :
          Only s (dequeued_slot true n) [] l → Returns (λ _ l'. AtRest l') (detach_buffer fw s l)
      unfolding detach_buffer
      detach_buffer-AtRest r =
          let c = TourCall.detach_buffer s true in
          let a : allowed c r.queue ≡ true = at_connected c r.queue r.stage (rw r.slot refl) in
          known true (c ∷ l) (rw (grants.detaches l r.queue s r.plays a) refl)
            (back c _ r refl (next l c r.plays a))

      -- Detaching by a number: that of the slot, or that of a free one.
      pub detach_buffer-cases :
          (t : ℕ)
          → Only s (dequeued_slot true n) [] l
          → Returns
              (λ _ l'.
                AtRest l'
                ⊎ ((b : Bool) × (q : Queue) × ((q.slots t).owner ≡ free)
                    × (replay l' ≡ wrong (TourCall.detach_buffer t b) q)))
              (detach_buffer fw t l)
      unfolding replay detach_buffer
      detach_buffer-cases t r = elim (Bool-cases (t == s)) [
        | inl y ↦ rw (eq_of_== t s y) (Spec.mono (detach_buffer-AtRest r) λ _ _. inl)
        | inr d ↦ returns (
            inr (
              fw.detach_buffer l t,
              r.queue,
              r.others t d,
              rw (r.plays, r.stage, r.others t d) refl,
            ))
      ]

      pub queue_buffer-Only :
          Only s (dequeued_slot true n) [] l
          → Returns (λ _ l'. Only s (queued_slot n) (s ∷ []) l') (queue_buffer fw s l)
      unfolding queue_buffer
      queue_buffer-Only r =
          let c = TourCall.queue_buffer s true in
          let a : allowed c r.queue ≡ true = at_connected c r.queue r.stage (rw r.slot refl) in
          known true (c ∷ l) (rw (grants.queues l r.queue s r.plays a) refl) record {
            queue = effect c r.queue;
            plays = next l c r.plays a;
            stage = r.stage;
            slot = rw (==_of_eq s s refl, r.slot) refl;
            others = λ t d. rw d (r.others t d);
            pending = rw r.pending refl;
          }

      -- A slot whose buffer the producer does not know is refused.
      pub queue_buffer-wrong :
          Only s (dequeued_slot false n) [] l
          → Returns
              (λ _ l'.
                (b : Bool) × (q : Queue) × ((q.slots s).owner ≡ dequeued)
                × ((q.slots s).requested ≡ false)
                × (replay l' ≡ wrong (TourCall.queue_buffer s b) q))
              (queue_buffer fw s l)
      unfolding replay queue_buffer
      queue_buffer-wrong r = returns (
        fw.queue_buffer l s,
        r.queue,
        rw r.slot refl,
        rw r.slot refl,
        rw (r.plays, r.stage, r.slot) refl,
      )
