-- ===== src/BufferQueue/Tour/Legal.antt =====
-- That mytest2.cpp makes each call on a slot that it has, and where it does not.
use sample_code.Base.{◌≡◌, refl, ℕ, Bool, true, false, some, List, [], ◌∷◌, ◌⊎◌, inl, inr}
use sample_code.Effect.{and_then}
use sample_code.Effect.Spec
use sample_code.Effect.Spec.{Returns, returns}
use sample_code.BufferQueue.{BufferItem}
use sample_code.BufferQueue.Tour.{
  TourCall, TourFramework, attached_slot, dequeue_buffer, detach_buffer, queue_buffer,
  acquire_buffer, release_buffer, consumer_attach_buffer, consumer_detach_buffer, hand_around,
  queue_one, take_one, main,
}
use sample_code.BufferQueue.Tour.Contract.{
  Queue, free, dequeued, connected, new_queue, legal, wrong, replay, Grants,
}
use sample_code.BufferQueue.Tour.Slots.Consumer.{
  acquire_buffer-Only, release_buffer-AtRest, consumer_attach_buffer-Only,
  consumer_detach_buffer-AtRest, discard_free_buffers-AtRest,
}
use sample_code.BufferQueue.Tour.Slots.Producer.{
  dequeue_buffer-Only, request_buffer-Only, cancel_buffer-AtRest, attach_buffer-Only,
  detach_buffer-AtRest, detach_buffer-cases, queue_buffer-Only, queue_buffer-wrong,
}
use sample_code.BufferQueue.Tour.Slots.{AtRest, Only, dequeued_slot, queued_slot}

-- At rest, after calls that could all be made; or the first call that could not is `detachBuffer`
-- of a free slot, where `&Slot` is not the address of `slot`, or `queueBuffer` of a slot that the
-- producer dequeued, without `requestBuffer` before.
pub data Toured (same : Bool) (l : List TourCall) : Type 0 where
  rests : AtRest l → Toured same l
  detached :
      (s : ℕ) (b : Bool) (q : Queue)
      → same ≡ false
      → (q.slots s).owner ≡ free
      → replay l ≡ wrong (TourCall.detach_buffer s b) q
      → Toured same l
  unrequested :
      (s : ℕ) (b : Bool) (q : Queue)
      → (q.slots s).owner ≡ dequeued
      → (q.slots s).requested ≡ false
      → replay l ≡ wrong (TourCall.queue_buffer s b) q
      → Toured same l

module _ (fw : TourFramework) where
  -- The rest of the program cannot make up for a wrong call.
  take_one-wrong :
      (l : List TourCall) {c : TourCall} {q : Queue} (i : BufferItem) (slot : ℕ)
      → replay l ≡ wrong c q
      → Returns (λ r l'. (r ≡ 0) × (replay l' ≡ wrong c q)) (take_one fw i slot l)
  unfolding take_one replay acquire_buffer release_buffer consumer_attach_buffer
      consumer_detach_buffer
  take_one-wrong l i slot h = returns (refl, rw h refl)

  queue_one-wrong :
      (l : List TourCall) {c : TourCall} {q : Queue} (slot : ℕ)
      → replay l ≡ wrong c q
      → Returns (λ _ l'. replay l' ≡ wrong c q) (queue_one fw slot l)
  unfolding queue_one replay dequeue_buffer queue_buffer
  queue_one-wrong l slot h = returns (rw h refl)

  module _ (grants : Grants fw) where
    detach_attached :
        {l : List TourCall} {t n : ℕ} (same : Bool) (s : ℕ)
        → Only t (dequeued_slot true n) [] l
        → Returns (λ _ l'. Toured same l') (detach_buffer fw (attached_slot same s (some t)) l)
    detach_attached true s r = Spec.mono (detach_buffer-AtRest fw grants r) λ _ _. rests
    detach_attached false s r =
        Spec.mono (detach_buffer-cases fw grants s r)
          λ _ _ c. elim c [ inl p ↦ rests p | inr (b, q, f, w) ↦ detached s b q refl f w ]

    hand_around-Toured :
        {l : List TourCall} (same : Bool) (unset : ℕ)
        → AtRest l
        → Returns (λ _ l'. Toured same l') (hand_around fw same unset l)
    unfolding hand_around
    hand_around-Toured same unset r =
        Spec.bind (dequeue_buffer-Only fw grants r) λ a l₁ (s, k, n, e, r₁). rw e (
          Spec.bind (request_buffer-Only fw grants r₁) λ a l₂ (b, e₂, r₂). rw e₂ (
            Spec.bind (cancel_buffer-AtRest fw grants r₂) λ a l₃ r₃.
              Spec.bind (attach_buffer-Only fw grants b r₃) λ a l₄ (t, e₄, r₄).
                rw e₄ (Spec.bind (detach_attached same s r₄) λ a l₅ w. returns w)))

    take_one-AtRest :
        {l : List TourCall} {s n : ℕ} (i : BufferItem) (slot : ℕ)
        → Only s (queued_slot n) (s ∷ []) l
        → Returns (λ r l'. (r ≡ 0) × AtRest l') (take_one fw i slot l)
    unfolding take_one
    take_one-AtRest i slot r = Spec.bind (acquire_buffer-Only fw grants r) λ a l₁ (m, b, e, r₁).
        rw e (
          Spec.bind (release_buffer-AtRest fw grants r₁) λ a l₂ r₂.
            Spec.bind (consumer_attach_buffer-Only fw grants b r₂) λ a l₃ (t, e₃, r₃). rw e₃ (
              Spec.bind (consumer_detach_buffer-AtRest fw grants r₃)
                λ a l₄ r₄. returns (refl, discard_free_buffers-AtRest r₄)))

    -- The slot is queued, or was not to be queued.
    abbrev Queued : ℕ → List TourCall → Type 0
    Queued s l =
        ((n : ℕ) × Only s (queued_slot n) (s ∷ []) l)
        ⊎ ((b : Bool) × (q : Queue) × ((q.slots s).owner ≡ dequeued)
            × ((q.slots s).requested ≡ false)
            × (replay l ≡ wrong (TourCall.queue_buffer s b) q))

    queue_known :
        {l : List TourCall} {s n : ℕ} (k : Bool)
        → Only s (dequeued_slot k n) [] l
        → Returns (λ _. Queued s) (queue_buffer fw s l)
    queue_known {n} true r = Spec.mono (queue_buffer-Only fw grants r) λ _ _ r₁. inl (n, r₁)
    queue_known false r = Spec.mono (queue_buffer-wrong fw grants r) λ _ _. inr

    queue_one-Queued :
        {l : List TourCall} (slot : ℕ) → AtRest l → Returns Queued (queue_one fw slot l)
    unfolding queue_one
    queue_one-Queued slot r =
        Spec.bind (dequeue_buffer-Only fw grants r)
          λ a l₁ (s, k, n, e, r₁). rw e (Spec.bind (queue_known k r₁) λ _ l₂ q. returns q)

    rest-Toured :
        {l : List TourCall} (same : Bool) (i : BufferItem) (slot : ℕ)
        → Toured same l
        → Returns
            (λ r l'. (r ≡ 0) × Toured same l')
            (and_then (queue_one fw slot l) (take_one fw i))
    rest-Toured {l} same i slot (rests r) = Spec.bind (queue_one-Queued slot r) λ s l₁ q. elim q [
      | inl (n, r₁) ↦ Spec.mono (take_one-AtRest i s r₁) λ _ _ (z, r₂). (z, rests r₂)
      | inr (b, q, o, u, w) ↦
          Spec.mono (take_one-wrong l₁ i s w) λ _ _ (z, w₂). (z, unrequested s b q o u w₂)
    ]
    rest-Toured {l} same i slot (detached s b q f o w) =
        Spec.bind (queue_one-wrong l slot w) λ s' l₁ w₁.
          Spec.mono (take_one-wrong l₁ i s' w₁) λ _ _ (z, w₂). (z, detached s b q f o w₂)
    rest-Toured {l} same i slot (unrequested s b q o u w) =
        Spec.bind (queue_one-wrong l slot w) λ s' l₁ w₁.
          Spec.mono (take_one-wrong l₁ i s' w₁) λ _ _ (z, w₂). (z, unrequested s b q o u w₂)

    -- On a framework that grants what may be asked for, whatever slots and buffers it gives,
    -- mytest2.cpp returns 0, and in one of three ways. Each of its calls is made by the end that
    -- has the slot, and at its end no slot is with an end or queued. Or the first call that is not
    -- is `queueBuffer`, of a slot that the producer dequeued and whose buffer it has not requested.
    -- Or it is `detachBuffer` of a free slot, but only if `&Slot` is not the address of `slot`.
    pub main-Toured :
        (same : Bool) (unset : ℕ) (new_item : BufferItem) (l : List TourCall) {q : Queue}
        → replay l ≡ legal q
        → Returns (λ r l'. (r ≡ 0) × Toured same l') (main fw same unset new_item l)
    unfolding main replay
    main-Toured same unset new_item l h =
        let start : AtRest
            (TourCall.connect ∷ TourCall.consumer_connect ∷ TourCall.create_buffer_queue ∷ l) =
          record {
            queue = record new_queue { stage = connected };
            plays = rw h refl;
            stage = refl;
            all_free = λ t. refl;
            pending = refl;
          } in
        Spec.bind (hand_around-Toured same unset start)
          λ slot l₁ t. rest-Toured same new_item slot t
