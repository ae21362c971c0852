-- ===== src/BufferQueue/Held.antt =====
-- What a log of framework calls leaves a process with: slots of the queue, and locks.
use sample_code.Base.{◌≡◌, refl, ℕ, ℕ_discrete, Bool, true, false, some, List, [], ◌∷◌}
use sample_code.Effect.Bag
use sample_code.Effect.Ledger
use sample_code.Effect.Ledger.{Act, acquire, release, neutral}
use sample_code.BufferQueue.{QueueCall}

-- A slot that the producer dequeued, one that the consumer acquired, and a locked buffer.
pub data Item : Type 0 where
  dequeued_ref acquired_ref lock_ref : ℕ → Item

pub Item-discrete : Discrete Item
Item-discrete = hlevel ℕ_discrete

abbrev pub act : QueueCall → Act Item
act (QueueCall.dequeue_buffer (some s)) = acquire (dequeued_ref s)
act (QueueCall.queue_buffer s true) = release (dequeued_ref s)
act (QueueCall.acquire_buffer (some i)) = acquire (acquired_ref i.slot)
act (QueueCall.release_buffer s n true) = release (acquired_ref s)
act (QueueCall.lock b u (some a)) = acquire (lock_ref b)
act (QueueCall.unlock b) = release (lock_ref b)
act c = neutral

abbrev pub Keeps : List QueueCall → List Item → Type 0
Keeps = Bag.Keeps Item-discrete act

-- What is held of a slot when its return was answered so.
abbrev pub left : Bool → Item → List Item → List Item
left true i h = h
left false i h = i ∷ h

module _ {l : List QueueCall} {h : List Item} where
  pub gain : (c : QueueCall) {r : Item} → act c ≡ acquire r → Keeps l h → Keeps (c ∷ l) (r ∷ h)
  gain = Bag.gain Item-discrete act

  pub skip : (c : QueueCall) → act c ≡ neutral → Keeps l h → Keeps (c ∷ l) h
  skip = Bag.skip Item-discrete act

  pub drop : (c : QueueCall) {r : Item} → act c ≡ release r → Keeps l (r ∷ h) → Keeps (c ∷ l) h
  drop = Bag.drop Item-discrete act

module _ {l : List QueueCall} {h : List Item} where
  pub queued :
      (s : ℕ) (q : Bool)
      → Keeps l (dequeued_ref s ∷ h)
      → Keeps (QueueCall.queue_buffer s q ∷ l) (left q (dequeued_ref s) h)
  queued s true p = drop (QueueCall.queue_buffer s true) refl p
  queued s false p = skip (QueueCall.queue_buffer s false) refl p

  pub released :
      (s n : ℕ) (r : Bool)
      → Keeps l (acquired_ref s ∷ h)
      → Keeps (QueueCall.release_buffer s n r ∷ l) (left r (acquired_ref s) h)
  released s n true p = drop (QueueCall.release_buffer s n true) refl p
  released s n false p = skip (QueueCall.release_buffer s n false) refl p

-- A process of which nothing is counted.
pub nothing : Keeps [] []
unfolding Ledger.ledger
nothing = Bag.Keeps-Holds Item-discrete act (record { is = refl })
