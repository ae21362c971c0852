-- ===== src/BufferQueue/Ends.antt =====
-- How the BufferQueue samples end, whatever the framework answers.
use sample_code.Base.{
  ◌≡◌, refl, ap, ◌∙◌, [], ◌⊎◌, inl, inr, ℕ, Bool, true, false, Option, none, some, List, ◌∷◌,
  Option-cases,
}
use sample_code.Effect.Outcome
use sample_code.Effect.Outcome.{Outcome, ended, faulted}
use sample_code.BufferQueue.Queue.{dequeued}
use sample_code.BufferQueue.{
  QueueCall, read_often, write_often, my_producer, my_consumer, pattern_word, Framework, produce,
  show_item, consume, main, with_interfaces, client,
}
use sample_code.BufferQueue.Held.{
  Item, dequeued_ref, acquired_ref, Keeps, left, gain, skip, drop, queued, released,
}

-- What a crash leaves held, beside `h`: never a lock.
pub data Crashed (h : List Item) (l : List QueueCall) : Type 0 where
  with_nothing : Keeps l h → Crashed h l
  with_dequeued : (s : ℕ) → Keeps l (dequeued_ref s ∷ h) → Crashed h l
  with_acquired : (t : ℕ) → Keeps l (acquired_ref t ∷ h) → Crashed h l
  with_both : (t s : ℕ) → Keeps l (acquired_ref t ∷ dequeued_ref s ∷ h) → Crashed h l

-- A slot that a process gave to `queueBuffer` or `releaseBuffer`, and whether it was taken.
pub data Handed : Type 0 where
  to_queue to_release : ℕ → Bool → Handed

-- All of them, the newest first.
abbrev pub handed : List QueueCall → List Handed
handed [] = []
handed (QueueCall.queue_buffer s q ∷ l) = to_queue s q ∷ handed l
handed (QueueCall.release_buffer t n back ∷ l) = to_release t back ∷ handed l
handed (_ ∷ l) = handed l

-- One slot was queued and then one released, and of the two each that was refused is still held.
abbrev pub Shown : List QueueCall → List Item → ℕ → List QueueCall → Type 0
Shown l₀ h r l =
    (r ≡ 0)
    × (s : ℕ) × (q : Bool) × (t : ℕ) × (back : Bool) × (handed l
        ≡ to_release t back ∷ to_queue s q ∷ handed l₀)
    × Keeps l (left back (acquired_ref t) (left q (dequeued_ref s) h))

-- `requestBuffer` fails for a slot that is not dequeued.
abbrev pub Refuses : Framework → Type 0
Refuses fw = (l : List QueueCall) (s : ℕ) → dequeued l s ≡ false → fw.request_buffer l s ≡ none

module _ (fw : Framework) where
  module _ (unset : ℕ) (refuses : Refuses fw) where
    produce-Outcome :
        {l : List QueueCall} {h : List Item}
        → dequeued l unset ≡ false
        → Keeps l h
        → Outcome
            (λ _ l'.
              (s : ℕ) × (q : Bool) × (handed l' ≡ to_queue s q ∷ handed l)
              × Keeps l' (left q (dequeued_ref s) h))
            (Crashed h)
            (produce fw unset l)
    unfolding produce dequeued
    produce-Outcome {l} {h} o p = elim (Option-cases (fw.dequeue_buffer l)) [
      | inl e ↦
          let p₁ = skip (QueueCall.dequeue_buffer none) refl p in
          rw (e, refuses (QueueCall.dequeue_buffer none ∷ l) unset o)
            (faulted (with_nothing (skip (QueueCall.request_buffer unset none) refl p₁)))
      | inr (s, e) ↦
          let l₁ = QueueCall.dequeue_buffer (some s) ∷ l in
          let p₁ = gain (QueueCall.dequeue_buffer (some s)) refl p in
          rw e (elim (Option-cases (fw.request_buffer l₁ s)) [
            | inl f ↦
                rw f (faulted (with_dequeued s (skip (QueueCall.request_buffer s none) refl p₁)))
            | inr (b, f) ↦
                let l₂ = QueueCall.request_buffer s (some b) ∷ l₁ in
                let p₂ = skip (QueueCall.request_buffer s (some b)) refl p₁ in
                rw f (elim (Option-cases (fw.lock l₂ b write_often)) [
                  | inl g ↦
                      let c = QueueCall.lock b write_often none in
                      rw g (faulted (with_dequeued s (skip c refl p₂)))
                  | inr (a, g) ↦
                      let c = QueueCall.lock b write_often (some a) in
                      let w = QueueCall.store a pattern_word in
                      let u = QueueCall.unlock b in
                      let q = fw.queue_buffer (u ∷ w ∷ c ∷ l₂) s in
                      rw g (
                        ended (s, q, refl, queued s q (drop u refl (skip w refl (gain c refl p₂)))))
                ])
          ])
    ]

  show_item-Outcome :
      {l : List QueueCall} {h : List Item} (t n : ℕ) (buffer : Option ℕ)
      → Keeps l (acquired_ref t ∷ h)
      → Outcome
          (λ r l'.
            (r ≡ 0)
            × (t : ℕ) × (back : Bool) × (handed l' ≡ to_release t back ∷ handed l)
            × Keeps l' (left back (acquired_ref t) h))
          (λ l'. Keeps l' h ⊎ ((t : ℕ) × Keeps l' (acquired_ref t ∷ h)))
          (show_item fw t n buffer l)
  unfolding show_item
  show_item-Outcome t n none p = faulted (inr (t, p))
  show_item-Outcome {l} t n (some b) p = elim (Option-cases (fw.lock l b read_often)) [
    | inl g ↦ let c = QueueCall.lock b read_often none in rw g (faulted (inr (t, skip c refl p)))
    | inr (a, g) ↦
        let c = QueueCall.lock b read_often (some a) in
        let m = QueueCall.load a (fw.load (c ∷ l) a) in
        let u = QueueCall.unlock b in
        let back = fw.release_buffer (u ∷ m ∷ c ∷ l) t n in
        let p₂ = drop u refl (skip m refl (gain c refl p)) in
        rw g (ended (refl, t, back, refl, released t n back p₂))
  ]

  consume-Outcome :
      {l : List QueueCall} {h : List Item}
      → Keeps l h
      → Outcome
          (λ r l'.
            (r ≡ 0)
            × (t : ℕ) × (back : Bool) × (handed l' ≡ to_release t back ∷ handed l)
            × Keeps l' (left back (acquired_ref t) h))
          (λ l'. Keeps l' h ⊎ ((t : ℕ) × Keeps l' (acquired_ref t ∷ h)))
          (consume fw l)
  unfolding consume
  consume-Outcome {l} {h} p = elim (Option-cases (fw.acquire_buffer l)) [
    | inl e ↦ rw e (faulted (inl (skip (QueueCall.acquire_buffer none) refl p)))
    | inr (i, e) ↦
        let p₁ = gain (QueueCall.acquire_buffer (some i)) refl p in
        rw e (show_item-Outcome i.slot i.frame_number i.graphic_buffer p₁)
  ]

  not_consumed :
      {l : List QueueCall} {h : List Item} (s : ℕ) (q : Bool)
      → Keeps l (left q (dequeued_ref s) h)
      → Crashed h l
  not_consumed s true p = with_nothing p
  not_consumed s false p = with_dequeued s p

  consumed :
      (l₀ : List QueueCall) {l : List QueueCall} {h : List Item} (s : ℕ) (q : Bool)
      → handed l ≡ to_queue s q ∷ handed l₀
      → Keeps l (left q (dequeued_ref s) h)
      → Outcome (Shown l₀ h) (Crashed h) (consume fw l)
  consumed l₀ s true g p =
      Outcome.weaken (consume-Outcome p)
        (λ r l' t. (t.0, s, true, t.1, t.2, t.3 ∙ ap (λ x. to_release t.1 t.2 ∷ x) g, t.4))
        λ l' c. elim c [ inl k ↦ with_nothing k | inr (t, k) ↦ with_acquired t k ]
  consumed l₀ s false g p =
      Outcome.weaken (consume-Outcome p)
        (λ r l' t. (t.0, s, false, t.1, t.2, t.3 ∙ ap (λ x. to_release t.1 t.2 ∷ x) g, t.4))
        λ l' c. elim c [ inl k ↦ with_dequeued s k | inr (t, k) ↦ with_both t s k ]

  module _ (unset : ℕ) (refuses : Refuses fw) where
    with_interfaces-Outcome :
        {l : List QueueCall} {h : List Item} (producer consumer : Bool)
        → dequeued l unset ≡ false
        → Keeps l h
        → Outcome (Shown l h) (Crashed h) (with_interfaces fw unset producer consumer l)
    unfolding with_interfaces dequeued
    with_interfaces-Outcome false consumer o p = faulted (with_nothing p)
    with_interfaces-Outcome {l} true true o p =
        Outcome.bind (produce-Outcome unset refuses o (skip QueueCall.connect refl p))
          λ _ l' q. consumed l q.0 q.1 q.2 q.3
    with_interfaces-Outcome true false o p =
        Outcome.bind (produce-Outcome unset refuses o (skip QueueCall.connect refl p))
          λ _ l' q. faulted (not_consumed q.0 q.1 q.3)

    -- Where `requestBuffer` fails for a slot that is not dequeued, and what `slot` holds without a
    -- value is not dequeued either, mytest.cpp and client.cpp each end in one of two ways,
    -- whatever the framework answers: with 0, having given one slot to `queueBuffer` and then one
    -- to `releaseBuffer`, and holding each of them just if the call refused it, or by an access through a pointer that is NULL or
    -- has no value, with at most a dequeued slot and an acquired one held. No end leaves a buffer
    -- locked.
    pub main-Outcome :
        {l : List QueueCall} {h : List Item}
        → dequeued l unset ≡ false
        → Keeps l h
        → Outcome (Shown l h) (Crashed h) (main fw unset l)
          × Outcome (Shown l h) (Crashed h) (client fw unset l)
    unfolding main client dequeued
    main-Outcome {l} {h} o p = (
      (let p₁ = skip QueueCall.create_buffer_queue refl p in
          let p₂ = skip QueueCall.consumer_connect refl p₁ in
          let p₃ = skip QueueCall.connect refl p₂ in
          Outcome.bind (produce-Outcome unset refuses refl p₃)
            λ _ l' q. consumed l q.0 q.1 q.2 q.3),
      with_interfaces-Outcome _ _ o (
          skip (QueueCall.get_service my_consumer _) refl
            (skip (QueueCall.get_service my_producer _) refl p)),
    )
