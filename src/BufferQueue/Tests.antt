-- ===== src/BufferQueue/Tests.antt =====
-- The theorems about the BufferQueue samples at a concrete framework.
use sample_code.Base.{
  ℕ, suc, refl, Bool, true, false, Option, none, some, List, [], ◌∷◌, length, if◌then◌else◌,
}
use sample_code.Effect.{◌>>◌}
use sample_code.Effect.Outcome.{Outcome}
use sample_code.Effect.Spec.{Returns}
use sample_code.BufferQueue.{BufferItem, Framework, main, client, server}
use sample_code.BufferQueue.Queue.{pending, dequeued, acquired, added}
use sample_code.BufferQueue.Held.{nothing}
use sample_code.BufferQueue.Ends.{Shown, Crashed, main-Outcome}
use sample_code.BufferQueue.Pipe.{latest, Works, Piped, main-Piped}

-- The slot s has the buffer s + 1, at the address s + 1. The consumer is given it once.
abbrev item_of : Bool → List ℕ → Option BufferItem
item_of again [] = none
item_of true (s ∷ ss) = some (record { slot = s; frame_number = 0; graphic_buffer = none })
item_of false (s ∷ ss) = some (record { slot = s; frame_number = 0; graphic_buffer = some (suc s) })

abbrev word_of : Option ℕ → ℕ
word_of none = 0
word_of (some w) = w

working : Framework
unfolding pending dequeued acquired added latest
working = record {
  dequeue_buffer = λ l. some (length l);
  request_buffer = λ l s. if dequeued l s then some (suc s) else none;
  lock = λ l b u. some b;
  load = λ l a. word_of (latest l a);
  queue_buffer = dequeued;
  acquire_buffer = λ l. item_of (acquired l) (pending l);
  release_buffer = λ l s n. true;
  get_service = λ l s. added s l;
}

working-Works : Works working
unfolding working
working-Works = record {
  buffer_of = suc;
  address = λ b. b;
  dequeues = λ l c. (length l, refl);
  requests = λ l s o. rw o refl;
  locks = λ l b u o. refl;
  queues = λ l s o. o;
  releases = λ l s n o. refl;
  acquires = λ l s ss n e. (0, rw (n, e) refl);
  loads = λ l a w e. rw e refl;
  finds = λ l s f. f;
}

main-Piped_example :
    Returns Piped (main working 9 []) × Returns Piped ((server >> client working 9) [])
main-Piped_example = main-Piped working working-Works 9 []

-- No slot is free.
full : Framework
unfolding working
full = record working { dequeue_buffer = λ l. none }

main-Outcome_example :
    Outcome (Shown [] []) (Crashed []) (main full 9 [])
    × Outcome (Shown [] []) (Crashed []) (client full 9 [])
unfolding full dequeued
main-Outcome_example = main-Outcome full 9 (λ l s o. rw o refl) refl nothing
