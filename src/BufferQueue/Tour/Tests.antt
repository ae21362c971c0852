-- ===== src/BufferQueue/Tour/Tests.antt =====
-- The theorem about mytest2.cpp at a concrete framework, which gives a slot out again once it is
-- free, and attaches buffers to new slots.
use sample_code.Base.{
  ◌≡◌, refl, ap, sym, ◌∙◌, ℕ, suc, ◌+◌, ◌≤◌, true, false, Option, none, some, List, [], ◌∷◌, ◌==◌,
  Bool-cases, inl, inr, if◌then◌else◌, arith,
}
use sample_code.Effect.Spec.{Returns}
use sample_code.Effect.{Run, ok, fault}
use sample_code.BufferQueue.{BufferItem}
use sample_code.BufferQueue.Tour.{
  TourCall, TourFramework, main, hand_around, queue_one, take_one, dequeue_buffer, request_buffer,
  cancel_buffer, attach_buffer, detach_buffer, queue_buffer, acquire_buffer, release_buffer,
  consumer_attach_buffer, consumer_detach_buffer,
}
use sample_code.BufferQueue.Tour.Contract.{
  Queue, Owner, free, dequeued, queued, acquired, is_free, allowed, effect, Replay, legal, wrong,
  after, replay, Grants,
}
use sample_code.BufferQueue.Tour.Legal.{Toured, main-Toured}

-- The slot that a call gives out or takes back.
slot_of : TourCall → ℕ
slot_of (TourCall.dequeue_buffer (some s)) = s
slot_of (TourCall.request_buffer s b) = s
slot_of (TourCall.cancel_buffer s b) = s
slot_of (TourCall.attach_buffer b (some s)) = s
slot_of (TourCall.detach_buffer s b) = s
slot_of (TourCall.queue_buffer s b) = s
slot_of (TourCall.acquire_buffer (some i)) = i.slot
slot_of (TourCall.release_buffer s n b) = s
slot_of (TourCall.consumer_attach_buffer b (some s)) = s
slot_of (TourCall.consumer_detach_buffer s b) = s
slot_of c = 0

untouched :
    (c : TourCall) (q : Queue) (t : ℕ)
    → (t == slot_of c) ≡ false
    → (q.slots t).owner ≡ free
    → ((effect c q).slots t).owner ≡ free
unfolding slot_of
untouched TourCall.create_buffer_queue q t n f = refl
untouched TourCall.consumer_connect q t n f = f
untouched TourCall.connect q t n f = f
untouched (TourCall.dequeue_buffer none) q t n f = f
untouched (TourCall.dequeue_buffer (some s)) q t n f = rw n f
untouched (TourCall.request_buffer s none) q t n f = f
untouched (TourCall.request_buffer s (some b)) q t n f = rw n f
untouched (TourCall.cancel_buffer s false) q t n f = f
untouched (TourCall.cancel_buffer s true) q t n f = rw n f
untouched (TourCall.attach_buffer b none) q t n f = f
untouched (TourCall.attach_buffer b (some s)) q t n f = rw n f
untouched (TourCall.detach_buffer s false) q t n f = f
untouched (TourCall.detach_buffer s true) q t n f = rw n f
untouched (TourCall.queue_buffer s false) q t n f = f
untouched (TourCall.queue_buffer s true) q t n f = rw n f
untouched (TourCall.acquire_buffer none) q t n f = f
untouched (TourCall.acquire_buffer (some i)) q t n f = rw n f
untouched (TourCall.release_buffer s m false) q t n f = f
untouched (TourCall.release_buffer s m true) q t n f = rw n f
untouched (TourCall.consumer_attach_buffer b none) q t n f = f
untouched (TourCall.consumer_attach_buffer b (some s)) q t n f = rw n f
untouched (TourCall.consumer_detach_buffer s false) q t n f = f
untouched (TourCall.consumer_detach_buffer s true) q t n f = rw n f
untouched TourCall.discard_free_buffers q t n f = rw f refl

-- A slot that no call has named.
fresh : List TourCall → ℕ
fresh [] = 0
fresh (c ∷ l) = suc (slot_of c) + fresh l

owner_at : Replay → ℕ → Owner
owner_at (legal q) t = (q.slots t).owner
owner_at (wrong c q) t = free

after-free :
    (r : Replay) (c : TourCall) (t : ℕ)
    → (t == slot_of c) ≡ false
    → owner_at r t ≡ free
    → owner_at (after r c) t ≡ free
unfolding owner_at
after-free (legal q) c t n f = elim (Bool-cases (allowed c q)) [
  | inl y ↦ rw y (untouched c q t n f)
  | inr d ↦ rw d refl
]
after-free (wrong d q) c t n f = refl

fresh-free : (l : List TourCall) (t : ℕ) → fresh l ≤ t → owner_at (replay l) t ≡ free
unfolding fresh replay owner_at
fresh-free [] t n = refl
fresh-free (c ∷ l) t n = after-free (replay l) c t (ground arith) (fresh-free l t (omega arith))

-- The slot 0 when it is free, else a new one.
reused : List TourCall → ℕ
reused l = if is_free (owner_at (replay l) 0) then 0 else fresh l

next_pending : Replay → ℕ
next_pending (legal q) = first q.pending
  where
    first : List ℕ → ℕ
    first [] = 0
    first (s ∷ ss) = s
next_pending (wrong c q) = 0

item_of : ℕ → BufferItem
item_of s = record { slot = s; frame_number = 5; graphic_buffer = some 7 }

generous : TourFramework
generous = record {
  dequeue_buffer = λ l. some (reused l);
  request_buffer = λ l s. some 7;
  cancel_buffer = λ l s. true;
  attach_buffer = λ l b. some (fresh l);
  detach_buffer = λ l s. true;
  queue_buffer = λ l s. true;
  acquire_buffer = λ l. some (item_of (next_pending (replay l)));
  release_buffer = λ l s n. true;
  consumer_attach_buffer = λ l b. some (fresh l);
  consumer_detach_buffer = λ l s. true;
}

owner_of :
    (l : List TourCall) (q : Queue) (t : ℕ)
    → replay l ≡ legal q
    → owner_at (replay l) t ≡ free
    → (q.slots t).owner ≡ free
unfolding owner_at
owner_of l q t h f = ap (λ r. owner_at r t) (sym h) ∙ f

fresh-owner :
    (l : List TourCall) (q : Queue) → replay l ≡ legal q → (q.slots (fresh l)).owner ≡ free
fresh-owner l q h = owner_of l q (fresh l) h (fresh-free l (fresh l) (omega arith))

eq_free : (o : Owner) → is_free o ≡ true → o ≡ free
eq_free free e = refl
eq_free dequeued e = cc
eq_free queued e = cc
eq_free acquired e = cc

reused-owner :
    (l : List TourCall) (q : Queue) → replay l ≡ legal q → (q.slots (reused l)).owner ≡ free
unfolding reused
reused-owner l q h = elim (Bool-cases (is_free (owner_at (replay l) 0))) [
  | inl y ↦ rw y (owner_of l q 0 h (eq_free _ y))
  | inr n ↦ rw n (fresh-owner l q h)
]

generous-Grants : Grants generous
unfolding generous item_of next_pending
generous-Grants = record {
  dequeues = λ l q h c. (reused l, refl, reused-owner l q h);
  requests = λ l q s h c o. (7, refl);
  attaches = λ l q b h c. (fresh l, refl, fresh-owner l q h);
  acquires = λ l q s ss h c p. (5, 7, rw (h, p) refl);
  consumer_attaches = λ l q b h c. (fresh l, refl, fresh-owner l q h);
  cancels = λ l q s h a. refl;
  detaches = λ l q s h a. refl;
  queues = λ l q s h a. refl;
  releases = λ l q s n h a. refl;
  consumer_detaches = λ l q s h a. refl;
}

main-Toured_example : Returns (λ r l. (r ≡ 0) × Toured true l) (main generous true 9 (item_of 9) [])
unfolding replay
main-Toured_example = main-Toured generous generous-Grants true 9 (item_of 9) [] refl

-- How the run ends: with the right variable legally, and with another one by a wrong call.
first_wrong : Run TourCall ℕ → Option TourCall
first_wrong (ok r l) = wrong_of (replay l)
  where
    wrong_of : Replay → Option TourCall
    wrong_of (legal q) = none
    wrong_of (wrong c q) = some c
first_wrong (fault l) = none

same_rests : first_wrong (main generous true 9 (item_of 9) []) ≡ none
unfolding first_wrong main hand_around queue_one take_one dequeue_buffer request_buffer
    cancel_buffer attach_buffer detach_buffer queue_buffer acquire_buffer release_buffer
    consumer_attach_buffer consumer_detach_buffer replay generous reused fresh owner_at next_pending
    slot_of item_of
same_rests = refl

other_detaches :
    first_wrong (main generous false 9 (item_of 9) []) ≡ some (TourCall.detach_buffer 0 true)
unfolding first_wrong main hand_around queue_one take_one dequeue_buffer request_buffer
    cancel_buffer attach_buffer detach_buffer queue_buffer acquire_buffer release_buffer
    consumer_attach_buffer consumer_detach_buffer replay generous reused fresh owner_at next_pending
    slot_of item_of
other_detaches = refl
