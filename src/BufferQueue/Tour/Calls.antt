-- ===== src/BufferQueue/Tour/Calls.antt =====
-- The calls that Android/BufferQueue/mytest2/mytest2.cpp makes of the Android framework.
use sample_code.Base.{ℕ, Bool, Option}
use sample_code.BufferQueue.{BufferItem}

-- A slot is its number, a buffer its address. The last argument of a call with a result is its
-- answer; `none` and `false` are failures.
pub data TourCall : Type 0 where
  create_buffer_queue consumer_connect connect : TourCall
  dequeue_buffer : Option ℕ → TourCall
  request_buffer : ℕ → Option ℕ → TourCall
  cancel_buffer detach_buffer queue_buffer : ℕ → Bool → TourCall
  -- The buffer, which may be NULL, and the slot.
  attach_buffer : Option ℕ → Option ℕ → TourCall
  acquire_buffer : Option BufferItem → TourCall
  -- The slot and the frame number.
  release_buffer : ℕ → ℕ → Bool → TourCall
  -- The calls of the same names that the consumer makes.
  consumer_attach_buffer : Option ℕ → Option ℕ → TourCall
  consumer_detach_buffer : ℕ → Bool → TourCall
  discard_free_buffers : TourCall
