-- ===== src/BufferQueue/Tour/Contract.antt =====
-- What the framework documents of the slots of a queue: who has each, and which calls may be made.
use sample_code.Base.{
  ◌≡◌, ℕ, Bool, true, false, Option, none, some, List, [], ◌∷◌, ◌++◌, ◌==◌, if◌then◌else◌,
}
use sample_code.BufferQueue.Tour.{TourCall, TourFramework}

pub data Owner : Type 0 where
  free dequeued queued acquired : Owner

-- A slot may be queued or detached once the producer knows its buffer: it asked for it, or
-- attached it. The frame is the one acquired last.
pub record Slot : Type 0 where
  pub owner : Owner
  pub requested : Bool
  pub frame : ℕ

pub data Stage : Type 0 where
  created consumer_ready connected : Stage

pub record Queue : Type 0 where
  pub stage : Stage
  pub slots : ℕ → Slot
  -- The slots queued, the oldest first.
  pub pending : List ℕ

abbrev pub empty_slot : Slot
empty_slot = record { owner = free; requested = false; frame = 0 }

abbrev pub new_queue : Queue
new_queue = record { stage = created; slots = λ s. empty_slot; pending = [] }

abbrev pub is_free : Owner → Bool
is_free free = true
is_free _ = false

abbrev pub is_dequeued : Owner → Bool
is_dequeued dequeued = true
is_dequeued _ = false

abbrev pub is_acquired : Owner → Bool
is_acquired acquired = true
is_acquired _ = false

abbrev is_known : Option ℕ → Bool
is_known none = false
is_known (some b) = true

-- The producer has the slot, and knows its buffer.
abbrev is_known_slot : Slot → Bool
is_known_slot s = if is_dequeued s.owner then s.requested else false

-- Whether a call may be made once both ends are connected.
abbrev pub fits : TourCall → Queue → Bool
fits (TourCall.request_buffer s _) q = is_dequeued (q.slots s).owner
fits (TourCall.cancel_buffer s _) q = is_dequeued (q.slots s).owner
fits (TourCall.detach_buffer s _) q = is_known_slot (q.slots s)
fits (TourCall.queue_buffer s _) q = is_known_slot (q.slots s)
fits (TourCall.attach_buffer b _) q = is_known b
fits (TourCall.release_buffer s n _) q =
    if is_acquired (q.slots s).owner then (q.slots s).frame == n else false
fits (TourCall.consumer_attach_buffer b _) q = is_known b
fits (TourCall.consumer_detach_buffer s _) q = is_acquired (q.slots s).owner
fits _ q = true

abbrev pub set_slot : ℕ → Slot → Queue → Queue
set_slot s v q = record q { slots = λ t. if t == s then v else q.slots t }

abbrev pub set_owner : ℕ → Owner → Queue → Queue
set_owner s o q = set_slot s (record (q.slots s) { owner = o }) q

abbrev rest : List ℕ → List ℕ
rest [] = []
rest (s ∷ ss) = ss

-- A free slot without its buffer.
abbrev pub discarded : Slot → Slot
discarded v = if is_free v.owner then empty_slot else v

-- What a call that the framework granted makes of the queue.
abbrev pub effect : TourCall → Queue → Queue
effect TourCall.create_buffer_queue q = new_queue
effect TourCall.consumer_connect q = record q { stage = consumer_ready }
effect TourCall.connect q = record q { stage = connected }
effect (TourCall.dequeue_buffer (some s)) q = set_owner s dequeued q
effect (TourCall.request_buffer s (some b)) q =
    set_slot s (record (q.slots s) { requested = true }) q
effect (TourCall.cancel_buffer s true) q = set_owner s free q
effect (TourCall.attach_buffer b (some s)) q =
    set_slot s (record { owner = dequeued; requested = true; frame = 0 }) q
effect (TourCall.detach_buffer s true) q = set_slot s empty_slot q
effect (TourCall.queue_buffer s true) q = record (set_owner s queued q) {
  pending = q.pending ++ (s ∷ []);
}
effect (TourCall.acquire_buffer (some i)) q =
    record (set_slot i.slot (record (q.slots i.slot) { owner = acquired; frame = i.frame_number })
      q) { pending = rest q.pending }
effect (TourCall.release_buffer s n true) q = set_owner s free q
effect (TourCall.consumer_attach_buffer b (some s)) q =
    set_slot s (record { owner = acquired; requested = false; frame = 0 }) q
effect (TourCall.consumer_detach_buffer s true) q = set_slot s empty_slot q
effect TourCall.discard_free_buffers q = record q { slots = λ s. discarded (q.slots s) }
effect _ q = q

-- A queue gets its consumer first, then its producer; then it can be used.
abbrev pub fits_stage : Stage → TourCall → Queue → Bool
fits_stage created TourCall.consumer_connect q = true
fits_stage consumer_ready TourCall.connect q = true
fits_stage connected c q = fits c q
fits_stage _ _ q = false

abbrev pub allowed : TourCall → Queue → Bool
allowed TourCall.create_buffer_queue q = true
allowed c q = fits_stage q.stage c q

-- The queue after calls that could all be made, or the first one that could not, with the queue
-- that it found.
pub data Replay : Type 0 where
  legal : Queue → Replay
  wrong : TourCall → Queue → Replay

abbrev pub after : Replay → TourCall → Replay
after (legal q) c = if allowed c q then legal (effect c q) else wrong c q
after (wrong d q) c = wrong d q

unfoldable pub replay : List TourCall → Replay
replay [] = legal new_queue
replay (c ∷ l) = after (replay l) c

-- A framework that grants what may be asked for. `dequeueBuffer` and `attachBuffer` give a free
-- slot, and `acquireBuffer` the oldest of those queued, with its buffer.
pub record Grants (fw : TourFramework) : Type 0 where
  pub dequeues :
      (l : List TourCall) (q : Queue)
      → replay l ≡ legal q
      → q.stage ≡ connected
      → (s : ℕ) × (fw.dequeue_buffer l ≡ some s) × ((q.slots s).owner ≡ free)
  pub requests :
      (l : List TourCall) (q : Queue) (s : ℕ)
      → replay l ≡ legal q
      → q.stage ≡ connected
      → (q.slots s).owner ≡ dequeued
      → (b : ℕ) × (fw.request_buffer l s ≡ some b)
  pub attaches :
      (l : List TourCall) (q : Queue) (b : ℕ)
      → replay l ≡ legal q
      → q.stage ≡ connected
      → (s : ℕ) × (fw.attach_buffer l (some b) ≡ some s) × ((q.slots s).owner ≡ free)
  pub acquires :
      (l : List TourCall) (q : Queue) (s : ℕ) (ss : List ℕ)
      → replay l ≡ legal q
      → q.stage ≡ connected
      → q.pending ≡ s ∷ ss
      → (n : ℕ) × (b : ℕ) × (fw.acquire_buffer l
          ≡ some (record { slot = s; frame_number = n; graphic_buffer = some b }))
  pub consumer_attaches :
      (l : List TourCall) (q : Queue) (b : ℕ)
      → replay l ≡ legal q
      → q.stage ≡ connected
      → (s : ℕ) × (fw.consumer_attach_buffer l (some b) ≡ some s) × ((q.slots s).owner ≡ free)
  -- A call that may be made succeeds.
  pub cancels :
      (l : List TourCall) (q : Queue) (s : ℕ)
      → replay l ≡ legal q
      → allowed (TourCall.cancel_buffer s true) q ≡ true
      → fw.cancel_buffer l s ≡ true
  pub detaches :
      (l : List TourCall) (q : Queue) (s : ℕ)
      → replay l ≡ legal q
      → allowed (TourCall.detach_buffer s true) q ≡ true
      → fw.detach_buffer l s ≡ true
  pub queues :
      (l : List TourCall) (q : Queue) (s : ℕ)
      → replay l ≡ legal q
      → allowed (TourCall.queue_buffer s true) q ≡ true
      → fw.queue_buffer l s ≡ true
  pub releases :
      (l : List TourCall) (q : Queue) (s n : ℕ)
      → replay l ≡ legal q
      → allowed (TourCall.release_buffer s n true) q ≡ true
      → fw.release_buffer l s n ≡ true
  pub consumer_detaches :
      (l : List TourCall) (q : Queue) (s : ℕ)
      → replay l ≡ legal q
      → allowed (TourCall.consumer_detach_buffer s true) q ≡ true
      → fw.consumer_detach_buffer l s ≡ true
