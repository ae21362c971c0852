-- ===== src/BufferQueue/Pipe.antt =====
-- That the BufferQueue samples show the word that they wrote, on a framework without failures.
use sample_code.Base.{
  ◌≡◌, refl, ℕ, Bool, true, false, Option, none, some, List, [], ◌∷◌, ◌==◌, ==_of_eq, if◌then◌else◌,
}
use sample_code.Effect.Spec
use sample_code.Effect.Spec.{Returns, returns}
use sample_code.Effect.{◌>>◌}
use sample_code.BufferQueue.Queue.{
  pending, dequeued, acquired, added, consumer_ready, connected, taken, locked,
}
use sample_code.BufferQueue.{
  BufferItem, QueueCall, read_often, write_often, Usage, my_producer, my_consumer, Service,
  pattern_word, Framework, produce, show_item, consume, main, with_interfaces, client, server,
}

-- The word stored last at an address.
unfoldable pub latest : List QueueCall → ℕ → Option ℕ
latest [] a = none
latest (QueueCall.store b w ∷ l) a = if b == a then some w else latest l a
latest (_ ∷ l) a = latest l a

-- The word printed last.
unfoldable pub shown : List QueueCall → Option ℕ
shown [] = none
shown (QueueCall.load a w ∷ l) = some w
shown (_ ∷ l) = shown l

-- Nothing fails that is asked for at its time (a slot once both ends are connected, a lock of a
-- buffer that is not locked, a return of a slot that is held), the queue is first in, first out, each slot has one
-- buffer, a buffer has one address, and memory keeps what was stored.
pub record Works (fw : Framework) : Type 0 where
  pub buffer_of : ℕ → ℕ
  pub address : ℕ → ℕ
  pub dequeues :
      (l : List QueueCall) → connected l ≡ true → (s : ℕ) × (fw.dequeue_buffer l ≡ some s)
  pub requests :
      (l : List QueueCall) (s : ℕ)
      → dequeued l s ≡ true
      → fw.request_buffer l s ≡ some (buffer_of s)
  pub locks :
      (l : List QueueCall) (b : ℕ) (u : Usage)
      → locked l b ≡ false
      → fw.lock l b u ≡ some (address b)
  pub queues : (l : List QueueCall) (s : ℕ) → dequeued l s ≡ true → fw.queue_buffer l s ≡ true
  pub acquires :
      (l : List QueueCall) (s : ℕ) (ss : List ℕ)
      → acquired l ≡ false
      → pending l ≡ s ∷ ss
      → (n : ℕ) × (fw.acquire_buffer l
          ≡ some (record { slot = s; frame_number = n; graphic_buffer = some (buffer_of s) }))
  pub releases : (l : List QueueCall) (s n : ℕ) → taken l s ≡ true → fw.release_buffer l s n ≡ true
  pub loads : (l : List QueueCall) (a w : ℕ) → latest l a ≡ some w → fw.load l a ≡ w
  pub finds : (l : List QueueCall) (s : Service) → added s l ≡ true → fw.get_service l s ≡ true

-- No slot is with the producer or the consumer, and no buffer is locked.
pub record AllBack (l : List QueueCall) : Type 0 where
  pub none_dequeued : (s : ℕ) → dequeued l s ≡ false
  pub none_taken : (s : ℕ) → taken l s ≡ false
  pub none_locked : (b : ℕ) → locked l b ≡ false

-- A queue that nothing went through.
abbrev IsNew : List QueueCall → Type 0
IsNew l = (pending l ≡ []) × (acquired l ≡ false) × AllBack l

-- The word is printed last, the queue is empty, and all is given back.
abbrev pub Piped : ℕ → List QueueCall → Type 0
Piped r l = (r ≡ 0) × (shown l ≡ some pattern_word) × (pending l ≡ []) × AllBack l

-- What was taken and then given back is not held, if it was not before.
given_back :
    (x : Bool) {b : Bool} → b ≡ false → (if x then false else if x then true else b) ≡ false
given_back true h = refl
given_back false h = h

module _ (fw : Framework) (works : Works fw) where
  -- The buffer of the slot `s` is queued, and nothing else, and holds the pattern.
  abbrev Queued : ℕ → List QueueCall → Type 0
  Queued s l =
      (pending l ≡ s ∷ [])
      × (acquired l ≡ false)
      × (latest l (works.address (works.buffer_of s)) ≡ some pattern_word)
      × AllBack l

  produce-Queued :
      (unset : ℕ) (l : List QueueCall)
      → connected l ≡ true
      → IsNew l
      → Returns (λ _ l'. (s : ℕ) × Queued s l') (produce fw unset l)
  unfolding produce pending acquired dequeued latest taken locked
  produce-Queued unset l c (p, n, back) =
      let (s, e) = works.dequeues l c in
      let b = works.buffer_of s in
      let a = works.address b in
      let l₁ = QueueCall.dequeue_buffer (some s) ∷ l in
      let l₂ = QueueCall.request_buffer s (some b) ∷ l₁ in
      let l₃ = QueueCall.lock b write_often (some a) ∷ l₂ in
      let l₄ = QueueCall.unlock b ∷ QueueCall.store a pattern_word ∷ l₃ in
      let out : (if s == s then true else dequeued l s) ≡ true = rw (==_of_eq s s refl) refl in
      rw
        (
          e,
          works.requests l₁ s out,
          works.locks l₂ b write_often (back.none_locked b),
          works.queues l₄ s out,
        )
        (returns (
          s,
          (
            rw p refl,
            n,
            rw (==_of_eq a a refl) refl,
            record {
              none_dequeued = λ t. given_back (s == t) (back.none_dequeued t);
              none_taken = back.none_taken;
              none_locked = λ c. given_back (b == c) (back.none_locked c);
            },
          ),
        ))

  consume-Piped : (s : ℕ) (l : List QueueCall) → Queued s l → Returns Piped (consume fw l)
  unfolding consume show_item pending dequeued latest shown taken locked
  consume-Piped s l (p, n, v, back) =
      let (f, e) = works.acquires l s [] n p in
      let b = works.buffer_of s in
      let i : BufferItem = record { slot = s; frame_number = f; graphic_buffer = some b } in
      let m =
        QueueCall.lock b read_often (some (works.address b))
        ∷ QueueCall.acquire_buffer (some i)
        ∷ l in
      let l₁ = QueueCall.acquire_buffer (some i) ∷ l in
      let l₂ = QueueCall.unlock b ∷ QueueCall.load (works.address b) pattern_word ∷ m in
      let held : (if s == s then true else taken l s) ≡ true = rw (==_of_eq s s refl) refl in
      rw
        (
          e,
          works.locks l₁ b read_often (back.none_locked b),
          works.loads m (works.address b) pattern_word v,
          works.releases l₂ s f held,
        )
        (returns (
          refl,
          refl,
          rw p refl,
          record {
            none_dequeued = back.none_dequeued;
            none_taken = λ t. given_back (s == t) (back.none_taken t);
            none_locked = λ c. given_back (b == c) (back.none_locked c);
          },
        ))

  all_back : {l : List QueueCall} → AllBack l → AllBack (QueueCall.connect ∷ l)
  unfolding dequeued taken locked
  all_back back = record {
    none_dequeued = back.none_dequeued;
    none_taken = back.none_taken;
    none_locked = back.none_locked;
  }

  with_interfaces-Piped :
      (unset : ℕ) (l : List QueueCall)
      → consumer_ready l ≡ true
      → IsNew l
      → Returns Piped (with_interfaces fw unset true true l)
  unfolding with_interfaces pending dequeued acquired connected taken locked
  with_interfaces-Piped unset l c (p, n, back) =
      Spec.bind (produce-Queued unset (QueueCall.connect ∷ l) c (p, n, all_back back))
        λ _ l' q. consume-Piped q.0 l' q.1

  -- On a framework where nothing fails that is asked for at its time, as `Works` says, whose queue is first in,
  -- first out, and whose memory keeps what was stored, mytest.cpp, and client.cpp after the calls
  -- of server.cpp, return 0; the word that they print last is the word 0x12345678 that they
  -- wrote, the queue is empty, no slot is with the producer or the consumer, and no buffer is
  -- locked.
  pub main-Piped :
      (unset : ℕ) (l : List QueueCall)
      → Returns Piped (main fw unset l) × Returns Piped ((server >> client fw unset) l)
  unfolding main server client pending acquired added dequeued taken locked connected consumer_ready
  main-Piped unset l = (
    (Spec.bind
        (produce-Queued unset _ refl (
          refl,
          refl,
          record { none_dequeued = λ s. refl; none_taken = λ s. refl; none_locked = λ b. refl },
        ))
        λ _ l' q. consume-Piped q.0 l' q.1),
    (let l₁ =
          QueueCall.join_thread_pool
          ∷ QueueCall.start_thread_pool
          ∷ QueueCall.add_service my_consumer
          ∷ QueueCall.add_service my_producer
          ∷ QueueCall.consumer_connect
          ∷ QueueCall.create_buffer_queue
          ∷ l in
        let l₂ = QueueCall.get_service my_producer true ∷ l₁ in
        rw (works.finds l₁ my_producer refl, works.finds l₂ my_consumer refl)
          (with_interfaces-Piped unset _ refl (
            refl,
            refl,
            record { none_dequeued = λ s. refl; none_taken = λ s. refl; none_locked = λ b. refl },
          ))),
  )
