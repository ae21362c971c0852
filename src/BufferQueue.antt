-- ===== src/BufferQueue.antt =====
-- The samples under Android/BufferQueue: mytest/mytest.cpp, and the two processes
-- mytest3/server.cpp and mytest3/client.cpp. The framework stands outside this repository: each
-- call is an answer of an environment, any function of the log, and an event that records it.
mod Calls
pub mod Held
pub mod Queue
pub mod Ends
pub mod Pipe
pub mod Tour
mod Tests
pub use Calls.*
use sample_code.Base.{ℕ, Bool, true, false, Option, none, some, List, if◌then◌else◌}
use sample_code.Effect.{Cmd, pure, crash, ◌>>=◌, ◌>>◌, emit, call, deref}

pub record Framework : Type 0 where
  pub dequeue_buffer : List QueueCall → Option ℕ
  pub request_buffer : List QueueCall → ℕ → Option ℕ
  pub lock : List QueueCall → ℕ → Usage → Option ℕ
  pub load : List QueueCall → ℕ → ℕ
  pub queue_buffer : List QueueCall → ℕ → Bool
  pub acquire_buffer : List QueueCall → Option BufferItem
  pub release_buffer : List QueueCall → ℕ → ℕ → Bool
  pub get_service : List QueueCall → Service → Bool

module _ (fw : Framework) where
  abbrev pub dequeue_buffer : Cmd QueueCall (Option ℕ)
  dequeue_buffer = call fw.dequeue_buffer QueueCall.dequeue_buffer

  abbrev pub request_buffer : ℕ → Cmd QueueCall (Option ℕ)
  request_buffer slot = call (λ l. fw.request_buffer l slot) (QueueCall.request_buffer slot)

  abbrev pub lock : ℕ → Usage → Cmd QueueCall (Option ℕ)
  lock buffer usage = call (λ l. fw.lock l buffer usage) (QueueCall.lock buffer usage)

  abbrev pub load : ℕ → Cmd QueueCall ℕ
  load a = call (λ l. fw.load l a) (QueueCall.load a)

  abbrev pub queue_buffer : ℕ → Cmd QueueCall Bool
  queue_buffer slot = call (λ l. fw.queue_buffer l slot) (QueueCall.queue_buffer slot)

  abbrev pub acquire_buffer : Cmd QueueCall (Option BufferItem)
  acquire_buffer = call fw.acquire_buffer QueueCall.acquire_buffer

  abbrev pub release_buffer : ℕ → ℕ → Cmd QueueCall Bool
  release_buffer slot frame =
      call (λ l. fw.release_buffer l slot frame) (QueueCall.release_buffer slot frame)

  abbrev pub get_service : Service → Cmd QueueCall Bool
  get_service s = call (λ l. fw.get_service l s) (QueueCall.get_service s)

-- 0x12345678
abbrev pub pattern_word : ℕ
pattern_word = 305419896

-- The variable `slot` has no initial value: `unset` stands for what it holds, which it keeps when
-- `dequeueBuffer` fails.
abbrev pub slot_after : ℕ → Option ℕ → ℕ
slot_after unset none = unset
slot_after unset (some s) = s

module _ (fw : Framework) where
  -- The part of `main` called Producer. A failed `lock` leaves `dataIn` without a value.
  unfoldable pub produce : ℕ → Cmd QueueCall (Unit {0})
  produce unset = do
    dequeued ← dequeue_buffer fw
    requested ← request_buffer fw (slot_after unset dequeued)
    buffer ← deref requested
    locked ← lock fw buffer write_often
    data_in ← deref locked
    emit (QueueCall.store data_in pattern_word)
    emit (QueueCall.unlock buffer)
    queue_buffer fw (slot_after unset dequeued)
    pure tt

  -- The part of `main` called Consumer, from the item on.
  unfoldable pub show_item : ℕ → ℕ → Option ℕ → Cmd QueueCall ℕ
  show_item slot frame_number none = crash
  show_item slot frame_number (some buffer) = do
    locked ← lock fw buffer read_often
    data_out ← deref locked
    load fw data_out
    emit (QueueCall.unlock buffer)
    release_buffer fw slot frame_number
    pure 0

  -- After a failure, the item has no buffer.
  unfoldable pub consume : Cmd QueueCall ℕ
  unfolding show_item
  consume = do
    acquired ← acquire_buffer fw
    item ← deref acquired
    show_item item.slot item.frame_number item.graphic_buffer

  -- mytest/mytest.cpp
  unfoldable pub main : ℕ → Cmd QueueCall ℕ
  unfolding produce consume
  main unset = do
    emit QueueCall.create_buffer_queue
    emit QueueCall.consumer_connect
    emit QueueCall.connect
    produce unset
    consume

  -- mytest3/client.cpp, from the interfaces on: without a service, one is NULL.
  unfoldable pub with_interfaces : ℕ → Bool → Bool → Cmd QueueCall ℕ
  unfolding produce consume
  with_interfaces unset false consumer = crash
  with_interfaces unset true consumer = do
    emit QueueCall.connect
    produce unset
    if consumer then consume else crash

  unfoldable pub client : ℕ → Cmd QueueCall ℕ
  unfolding with_interfaces
  client unset = do
    producer ← get_service fw my_producer
    consumer ← get_service fw my_consumer
    with_interfaces unset producer consumer

-- mytest3/server.cpp
unfoldable pub server : Cmd QueueCall ℕ
server = do
  emit QueueCall.create_buffer_queue
  emit QueueCall.consumer_connect
  emit (QueueCall.add_service my_producer)
  emit (QueueCall.add_service my_consumer)
  emit QueueCall.start_thread_pool
  emit QueueCall.join_thread_pool
  pure 0
