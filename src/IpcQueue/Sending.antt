-- ===== src/IpcQueue/Sending.antt =====
-- `send`, `try_send` and `clear` against the list of messages that the queue holds.
use log.Prelude.{
  ℕ, ◌+◌, ◌≡◌, refl, ◌∙◌, Bool, true, false, List, [], ◌∷◌, ◌++◌, arith, ltb, leb, if◌then◌else◌,
  Bool-cases, inl, inr, length,
}
use log.IpcQueue.{
  Queue, Outcome, OverflowPolicy, succeeded, aborted, message_too_big, nonfull_all, notify, sub32,
  lock_queue, clear_queue, overflow_outcome, send_locked, send,
}
use log.IpcQueue.Blocks.{span, Short, estimate_lem, capacity_small}
use log.IpcQueue.Contents.{total, Holds, enqueue-Holds, Holds-notify}

-- What is left after `lock_queue`: nothing, if the mutex's owner has died.
abbrev pub survivors : Queue → List (List ℕ) → List (List ℕ)
survivors q ms = if q.owner_dead then [] else ms

emptied : Queue → Bool → Queue
emptied q dead = record q {
  hdr = record (q.hdr) { size = 0; put_pos = 0; get_pos = 0; owner_dead = dead };
}

emptied-Holds :
    (q : Queue) (dead : Bool) (ms : List (List ℕ)) → Holds q ms → Holds (emptied q dead) []
unfolding emptied
emptied-Holds q dead ms h = record {
  shape = record { pow = h.pow; mask = h.mask; big = h.big; area = h.area };
  get_lt = omega (arith, h.get_lt);
  put_at = ground (arith, h.get_lt);
  counted = refl;
  room = omega arith;
  short = tt;
  stored = tt;
}

pub clear_queue-Holds : (q : Queue) (ms : List (List ℕ)) → Holds q ms → Holds (clear_queue q) []
unfolding clear_queue emptied
clear_queue-Holds q ms h =
    Holds-notify (emptied q q.owner_dead) nonfull_all [] (emptied-Holds q q.owner_dead ms h)

-- `lock_queue` leaves a queue that holds messages well formed: with the same messages, or, where
-- the mutex's owner has died, with none, so that messages sent with success are dropped.
pub lock_queue-Holds :
    (q : Queue) (ms : List (List ℕ)) → Holds q ms → Holds (lock_queue q) (survivors q ms)
unfolding lock_queue clear_queue emptied
lock_queue-Holds q ms h =
    elim q.owner_dead as (λ d. Holds (if d then notified else q) (if d then [] else ms)) [
      | true ↦ Holds-notify (emptied q false) nonfull_all [] (emptied-Holds q false ms h)
      | false ↦ h
    ]
  where
    notified : Queue
    notified = notify nonfull_all (emptied q false)

pub lock_queue_alive : (q : Queue) → q.owner_dead ≡ false → lock_queue q ≡ q
unfolding lock_queue
lock_queue_alive q e = simp e

-- Locking keeps the geometry of the queue and its policy.
pub lock_queue_same :
    (q : Queue)
    → ((lock_queue q).capacity ≡ q.capacity)
      × ((lock_queue q).block_size ≡ q.block_size)
      × ((lock_queue q).overflow_policy ≡ q.overflow_policy)
      × ((lock_queue q).owner_dead ≡ false)
      × ((lock_queue q).stop ≡ q.stop)
unfolding lock_queue clear_queue
lock_queue_same q = ground arith

-- What a queue of messages with `capacity` blocks of `b` bytes does on `send` when it is not
-- stopped and the message is not too big.
abbrev pub spec_locked : ℕ → ℕ → OverflowPolicy → List (List ℕ) → List ℕ → List (List ℕ) × Outcome
spec_locked capacity b policy held m =
    if leb (total b held + span b (length m)) capacity
    then (held ++ m ∷ [], succeeded)
    else (held, overflow_outcome policy)

-- What it does on `send`. Where the mutex's owner has died, the queue loses its messages first,
-- unless the call returns before it locks the queue.
abbrev pub spec_send : Queue → List (List ℕ) → List ℕ → List (List ℕ) × Outcome
spec_send q ms m =
    if ltb q.capacity (span q.block_size (length m))
    then (ms, message_too_big)
    else (if q.stop
        then (ms, aborted)
        else spec_locked q.capacity q.block_size q.overflow_policy (survivors q ms) m)

-- The test for free space, on a queue that has been locked.
fits_iff :
    (q : Queue) (ms : List (List ℕ)) (k : ℕ)
    → Holds q ms
    → leb k (sub32 q.capacity q.size) ≡ leb (total q.block_size ms + k) q.capacity
fits_iff q ms k h = ground (arith, h.counted, h.room, capacity_small q h.shape)

send_locked_refines :
    (q : Queue) (ms : List (List ℕ)) (m : List ℕ) (capacity b : ℕ) (policy : OverflowPolicy)
    → Holds q ms
    → Short q (length m)
    → q.capacity ≡ capacity
    → q.block_size ≡ b
    → q.overflow_policy ≡ policy
    → q.stop ≡ false
    → Holds (send_locked q m (span b (length m))).0 (spec_locked capacity b policy ms m).0
      × ((send_locked q m (span b (length m))).1 ≡ (spec_locked capacity b policy ms m).1)
unfolding send_locked
send_locked_refines q ms m capacity b policy h s e f g running =
    rw (← e, ← f, ← g, fits_iff q ms (span q.block_size (length m)) h)
      (elim (Bool-cases (leb (total q.block_size ms + span q.block_size (length m)) q.capacity)) [
        | inl room ↦
            simp (running, room) (enqueue-Holds q ms m h (ground (arith, h.counted)) s, refl)
        | inr full ↦ simp (running, full) (h, refl)
      ])

-- On a well-formed queue, `send` does to the shared memory what a bounded queue of messages does
-- that loses them all where the mutex's owner has died, although they were sent with success: on
-- every branch the outcome is the one of `spec_send`, and the memory holds the messages of
-- `spec_send`. The message is assumed short enough for the 32-bit sum in `estimate_block_count`.
pub send_refines :
    (q : Queue) (ms : List (List ℕ)) (m : List ℕ)
    → Holds q ms
    → Short q (length m)
    → Holds (send q m).0 (spec_send q ms m).0 × ((send q m).1 ≡ (spec_send q ms m).1)
unfolding send
send_refines q ms m h s =
    let r = lock_queue q in
    let (same_capacity, same_size, same_policy, _, same_stop) = lock_queue_same q in
    rw (estimate_lem q (length m) h.shape s)
      (elim (Bool-cases (ltb q.capacity (span q.block_size (length m)))) [
        | inl big ↦ rw big (h, refl)
        | inr small ↦ rw small (elim (Bool-cases q.stop) [
          | inl stopped ↦ simp stopped (h, refl)
          | inr running ↦ simp running (
              send_locked_refines r (survivors q ms) m q.capacity q.block_size q.overflow_policy
                (lock_queue-Holds q ms h) (omega arith) same_capacity same_size same_policy
                (same_stop ∙ running))
        ])
      ])
