-- ===== src/BufferQueue/Queue.antt =====
-- What the framework is documented to know of the queue after a log of calls.
use sample_code.Base.{ℕ, Bool, true, false, some, List, [], ◌∷◌, ◌++◌, ◌==◌, if◌then◌else◌}
use sample_code.BufferQueue.{QueueCall, Service, my_producer, my_consumer}

abbrev rest : List ℕ → List ℕ
rest [] = []
rest (s ∷ ss) = ss

-- The slots queued and not acquired, the oldest first. A new queue is empty.
unfoldable pub pending : List QueueCall → List ℕ
pending [] = []
pending (QueueCall.create_buffer_queue ∷ l) = []
pending (QueueCall.queue_buffer s true ∷ l) = pending l ++ (s ∷ [])
pending (QueueCall.acquire_buffer (some i) ∷ l) = rest (pending l)
pending (_ ∷ l) = pending l

-- Whether a slot is dequeued, and not queued since.
unfoldable pub dequeued : List QueueCall → ℕ → Bool
dequeued [] s = false
dequeued (QueueCall.create_buffer_queue ∷ l) s = false
dequeued (QueueCall.dequeue_buffer (some t) ∷ l) s = if t == s then true else dequeued l s
dequeued (QueueCall.queue_buffer t true ∷ l) s = if t == s then false else dequeued l s
dequeued (_ ∷ l) s = dequeued l s

-- Whether the consumer was given a buffer: an item carries its buffer only the first time.
unfoldable pub acquired : List QueueCall → Bool
acquired [] = false
acquired (QueueCall.create_buffer_queue ∷ l) = false
acquired (QueueCall.acquire_buffer (some i) ∷ l) = true
acquired (_ ∷ l) = acquired l

-- Whether the queue made last has its consumer, and then its producer.
unfoldable pub consumer_ready : List QueueCall → Bool
consumer_ready [] = false
consumer_ready (QueueCall.create_buffer_queue ∷ l) = false
consumer_ready (QueueCall.consumer_connect ∷ l) = true
consumer_ready (_ ∷ l) = consumer_ready l

unfoldable pub connected : List QueueCall → Bool
unfolding consumer_ready
connected [] = false
connected (QueueCall.create_buffer_queue ∷ l) = false
connected (QueueCall.connect ∷ l) = consumer_ready l
connected (_ ∷ l) = connected l

-- Whether a slot is acquired, and not released since.
unfoldable pub taken : List QueueCall → ℕ → Bool
taken [] s = false
taken (QueueCall.create_buffer_queue ∷ l) s = false
taken (QueueCall.acquire_buffer (some i) ∷ l) s = if i.slot == s then true else taken l s
taken (QueueCall.release_buffer t n true ∷ l) s = if t == s then false else taken l s
taken (_ ∷ l) s = taken l s

-- Whether a buffer is locked. The buffers of a new queue are not.
unfoldable pub locked : List QueueCall → ℕ → Bool
locked [] b = false
locked (QueueCall.create_buffer_queue ∷ l) b = false
locked (QueueCall.lock c u (some a) ∷ l) b = if c == b then true else locked l b
locked (QueueCall.unlock c ∷ l) b = if c == b then false else locked l b
locked (_ ∷ l) b = locked l b

unfoldable pub added : Service → List QueueCall → Bool
added s [] = false
added my_producer (QueueCall.add_service my_producer ∷ l) = true
added my_consumer (QueueCall.add_service my_consumer ∷ l) = true
added s (_ ∷ l) = added s l
