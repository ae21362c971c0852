-- ===== src/BufferQueue/Calls.antt =====
-- The calls that the BufferQueue samples make of the Android framework, and what they answer.
use sample_code.Base.{ℕ, Bool, Option}

-- `BufferItem`, as far as the samples use it. The buffer may be NULL.
pub record BufferItem : Type 0 where
  pub slot : ℕ
  pub frame_number : ℕ
  pub graphic_buffer : Option ℕ

pub data Usage : Type 0 where
  read_often write_often : Usage

-- The names "MyProducer" and "MyConsumer".
pub data Service : Type 0 where
  my_producer my_consumer : Service

-- The last argument of a call with a result is its answer; `none` and `false` are failures.
pub data QueueCall : Type 0 where
  create_buffer_queue consumer_connect connect : QueueCall
  dequeue_buffer : Option ℕ → QueueCall
  request_buffer : ℕ → Option ℕ → QueueCall
  -- The address of the buffer.
  lock : ℕ → Usage → Option ℕ → QueueCall
  unlock : ℕ → QueueCall
  -- A 32-bit word stored, and one read and printed.
  store load : ℕ → ℕ → QueueCall
  queue_buffer : ℕ → Bool → QueueCall
  acquire_buffer : Option BufferItem → QueueCall
  -- The slot and the frame number.
  release_buffer : ℕ → ℕ → Bool → QueueCall
  add_service : Service → QueueCall
  get_service : Service → Bool → QueueCall
  start_thread_pool join_thread_pool : QueueCall
