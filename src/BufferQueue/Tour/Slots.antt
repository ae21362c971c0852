-- ===== src/BufferQueue/Tour/Slots.antt =====
-- The queue of mytest2.cpp while at most one slot is not free; Producer and Consumer say what each
-- call does to it, on a framework that grants what may be asked for.
pub mod Producer
pub mod Consumer
use sample_code.Base.{
  ◌≡◌, refl, ℕ, Bool, true, false, some, List, [], ◌∷◌, ◌==◌, ==_of_eq, eq_of_==, Bool-cases, ◌⊎◌,
  inl, inr,
}
use sample_code.Effect.Spec
use sample_code.Effect.Spec.{Returns, returns, known}
use sample_code.BufferQueue.{BufferItem}
use sample_code.BufferQueue.Tour.{
  TourCall, TourFramework, dequeue_buffer, request_buffer, cancel_buffer, attach_buffer,
  detach_buffer, queue_buffer, acquire_buffer, release_buffer, consumer_attach_buffer,
  consumer_detach_buffer,
}
use sample_code.BufferQueue.Tour.Contract.{
  free, dequeued, queued, acquired, Slot, Queue, Stage, connected, set_slot, fits, fits_stage,
  allowed, effect, legal, wrong, replay, Grants,
}

-- No end has a slot, and none is queued.
pub record AtRest (l : List TourCall) : Type 0 where
  pub queue : Queue
  pub plays : replay l ≡ legal queue
  pub stage : queue.stage ≡ connected
  pub all_free : (t : ℕ) → (queue.slots t).owner ≡ free
  pub pending : queue.pending ≡ []

-- The slot `s` is as `v` says, all others are free, and `p` is queued.
pub record Only (s : ℕ) (v : Slot) (p : List ℕ) (l : List TourCall) : Type 0 where
  pub queue : Queue
  pub plays : replay l ≡ legal queue
  pub stage : queue.stage ≡ connected
  pub slot : queue.slots s ≡ v
  pub others : (t : ℕ) → (t == s) ≡ false → (queue.slots t).owner ≡ free
  pub pending : queue.pending ≡ p

pub next :
    (l : List TourCall) {q : Queue} (c : TourCall)
    → replay l ≡ legal q
    → allowed c q ≡ true
    → replay (c ∷ l) ≡ legal (effect c q)
unfolding replay
next l c h a = rw (h, a) refl

pub at_connected :
    (c : TourCall) (q : Queue) {s : Stage}
    → s ≡ connected
    → fits c q ≡ true
    → fits_stage s c q ≡ true
at_connected c q e f = rw e f

abbrev pub dequeued_slot : Bool → ℕ → Slot
dequeued_slot k n = record { owner = dequeued; requested = k; frame = n }

abbrev pub queued_slot : ℕ → Slot
queued_slot n = record { owner = queued; requested = true; frame = n }

abbrev pub acquired_slot : Bool → ℕ → Slot
acquired_slot k n = record { owner = acquired; requested = k; frame = n }

module _ {l : List TourCall} where
  -- One slot of a queue at rest is given out.
  pub given :
      (c : TourCall) (s : ℕ) (v : Slot) (r : AtRest l)
      → replay (c ∷ l) ≡ legal (set_slot s v r.queue)
      → Only s v [] (c ∷ l)
  given c s v r h = record {
    queue = set_slot s v r.queue;
    plays = h;
    stage = r.stage;
    slot = rw (==_of_eq s s refl) refl;
    others = λ t n. rw n (r.all_free t);
    pending = r.pending;
  }

  -- And it comes back.
  pub back :
      {s : ℕ} {v : Slot} (c : TourCall) (w : Slot) (r : Only s v [] l)
      → w.owner ≡ free
      → replay (c ∷ l) ≡ legal (set_slot s w r.queue)
      → AtRest (c ∷ l)
  back {s} c w r e h = record {
    queue = set_slot s w r.queue;
    plays = h;
    stage = r.stage;
    all_free = λ t. elim (Bool-cases (t == s)) [ inl y ↦ rw y e | inr n ↦ rw n (r.others t n) ];
    pending = r.pending;
  }
