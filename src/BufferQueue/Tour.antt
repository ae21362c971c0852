-- ===== src/BufferQueue/Tour.antt =====
-- Android/BufferQueue/mytest2/mytest2.cpp, which makes each call of a producer and of a consumer
-- once. It passes `&Slot`, a name that it does not declare: `same` says whether that is the
-- variable `slot`, or another one, which nothing reads. Messages, the fence, the output of
-- `connect` and `queueBuffer`, the listeners and constant arguments are left out.
mod Calls
pub mod Contract
mod Slots
pub mod Legal
mod Tests
pub use Calls.*
use sample_code.Base.{ℕ, Bool, true, false, Option, none, some, List, if◌then◌else◌}
use sample_code.Effect.{Cmd, pure, ◌>>=◌, ◌>>◌, emit, call}
use sample_code.BufferQueue.{BufferItem, slot_after}

pub record TourFramework : Type 0 where
  pub dequeue_buffer : List TourCall → Option ℕ
  pub request_buffer : List TourCall → ℕ → Option ℕ
  pub cancel_buffer : List TourCall → ℕ → Bool
  pub attach_buffer : List TourCall → Option ℕ → Option ℕ
  pub detach_buffer : List TourCall → ℕ → Bool
  pub queue_buffer : List TourCall → ℕ → Bool
  pub acquire_buffer : List TourCall → Option BufferItem
  pub release_buffer : List TourCall → ℕ → ℕ → Bool
  pub consumer_attach_buffer : List TourCall → Option ℕ → Option ℕ
  pub consumer_detach_buffer : List TourCall → ℕ → Bool

module _ (fw : TourFramework) where
  unfoldable pub dequeue_buffer : Cmd TourCall (Option ℕ)
  dequeue_buffer = call fw.dequeue_buffer TourCall.dequeue_buffer

  unfoldable pub request_buffer : ℕ → Cmd TourCall (Option ℕ)
  request_buffer slot = call (λ l. fw.request_buffer l slot) (TourCall.request_buffer slot)

  unfoldable pub cancel_buffer : ℕ → Cmd TourCall Bool
  cancel_buffer slot = call (λ l. fw.cancel_buffer l slot) (TourCall.cancel_buffer slot)

  unfoldable pub attach_buffer : Option ℕ → Cmd TourCall (Option ℕ)
  attach_buffer buffer = call (λ l. fw.attach_buffer l buffer) (TourCall.attach_buffer buffer)

  unfoldable pub detach_buffer : ℕ → Cmd TourCall Bool
  detach_buffer slot = call (λ l. fw.detach_buffer l slot) (TourCall.detach_buffer slot)

  unfoldable pub queue_buffer : ℕ → Cmd TourCall Bool
  queue_buffer slot = call (λ l. fw.queue_buffer l slot) (TourCall.queue_buffer slot)

  unfoldable pub acquire_buffer : Cmd TourCall (Option BufferItem)
  acquire_buffer = call fw.acquire_buffer TourCall.acquire_buffer

  unfoldable pub release_buffer : ℕ → ℕ → Cmd TourCall Bool
  release_buffer slot frame =
      call (λ l. fw.release_buffer l slot frame) (TourCall.release_buffer slot frame)

  unfoldable pub consumer_attach_buffer : Option ℕ → Cmd TourCall (Option ℕ)
  consumer_attach_buffer buffer =
      call (λ l. fw.consumer_attach_buffer l buffer) (TourCall.consumer_attach_buffer buffer)

  unfoldable pub consumer_detach_buffer : ℕ → Cmd TourCall Bool
  consumer_detach_buffer slot =
      call (λ l. fw.consumer_detach_buffer l slot) (TourCall.consumer_detach_buffer slot)

-- The item, which a failed `acquireBuffer` leaves as it was.
abbrev pub item_after : BufferItem → Option BufferItem → BufferItem
item_after unset none = unset
item_after unset (some item) = item

-- The variable `slot` after `attachBuffer(&Slot, buffer)`.
abbrev pub attached_slot : Bool → ℕ → Option ℕ → ℕ
attached_slot true slot attached = slot_after slot attached
attached_slot false slot attached = slot

module _ (fw : TourFramework) where
  -- The part of `main` called Producer, up to `detachBuffer`. It leaves a slot in `slot`. The
  -- buffer is NULL after a failed `requestBuffer`.
  unfoldable pub hand_around : Bool → ℕ → Cmd TourCall ℕ
  hand_around same unset = do
    dequeued ← dequeue_buffer fw
    buffer ← request_buffer fw (slot_after unset dequeued)
    cancel_buffer fw (slot_after unset dequeued)
    attached ← attach_buffer fw buffer
    detach_buffer fw (attached_slot same (slot_after unset dequeued) attached)
    pure (attached_slot same (slot_after unset dequeued) attached)

  -- The rest of that part.
  unfoldable pub queue_one : ℕ → Cmd TourCall ℕ
  queue_one slot = do
    dequeued ← dequeue_buffer fw
    queue_buffer fw (slot_after slot dequeued)
    pure (slot_after slot dequeued)

  -- The part of `main` called Consumer.
  unfoldable pub take_one : BufferItem → ℕ → Cmd TourCall ℕ
  take_one new_item slot = do
    acquired ← acquire_buffer fw
    release_buffer fw (item_after new_item acquired).slot
        (item_after new_item acquired).frame_number
    attached ← consumer_attach_buffer fw (item_after new_item acquired).graphic_buffer
    consumer_detach_buffer fw (slot_after slot attached)
    emit TourCall.discard_free_buffers
    pure 0

  -- `new_item` is the item as its constructor leaves it.
  unfoldable pub main : Bool → ℕ → BufferItem → Cmd TourCall ℕ
  unfolding hand_around queue_one take_one
  main same unset new_item = do
    emit TourCall.create_buffer_queue
    emit TourCall.consumer_connect
    emit TourCall.connect
    slot ← hand_around same unset
    queued ← queue_one slot
    take_one new_item queued
