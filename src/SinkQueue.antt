-- ===== src/SinkQueue.antt =====
-- The bounded queue of an asynchronous sink: include/boost/log/sinks/bounded_fifo_queue.hpp with
-- the strategies of drop_on_overflow.hpp and block_on_overflow.hpp beside it.
--
-- Records are named by numbers. Every operation runs under the queue's mutex and is one step, up
-- to its return or its wait on a condition variable. A thread whose wait is over goes on in a step
-- of its own, whenever it gets the mutex; other threads may come first.
pub mod History
use log.Prelude.{
  ℕ, zero, suc, ◌+◌, Bool, true, false, List, [], ◌∷◌, ◌++◌, Option, none, some, leb, ltb, ◌==◌,
  if◌then◌else◌, length,
}

-- `OverflowStrategyT`
pub data Strategy : Type 0 where
  drop_on_overflow block_on_overflow : Strategy

-- `bounded_fifo_queue` with its base. `blocked` are the records of the threads in
-- `m_thread_contexts`, oldest first; `resuming` and `cancelled` those of the threads that have been
-- unlinked with the result `true` or `false`, and do not yet have the mutex. `asleep` says that
-- the feeding thread waits on `m_cond` and has not been notified.
pub record BoundedQueue : Type 0 where
  pub max_size : ℕ
  pub strategy : Strategy
  pub queue : List ℕ
  pub interruption_requested : Bool
  pub blocked : List ℕ
  pub resuming : List ℕ
  pub cancelled : List ℕ
  pub asleep : Bool

-- What becomes of a record at `enqueue`.
pub data Fate : Type 0 where
  enqueued dropped blocks : Fate

-- `m_queue.push(rec); if (size == 0) m_cond.notify_one();`
abbrev pub push : BoundedQueue → ℕ → BoundedQueue
push q rec = record q {
  queue = q.queue ++ rec ∷ [];
  asleep = if length q.queue == 0 then false else q.asleep;
}

-- `on_overflow`, up to its wait.
abbrev pub on_overflow : Strategy → BoundedQueue → ℕ → BoundedQueue × Fate
on_overflow drop_on_overflow q rec = (q, dropped)
on_overflow block_on_overflow q rec = (record q { blocked = q.blocked ++ rec ∷ [] }, blocks)

-- `enqueue`, and its loop's next round.
unfoldable pub enqueue : BoundedQueue → ℕ → BoundedQueue × Fate
enqueue q rec =
    if leb q.max_size (length q.queue) then on_overflow q.strategy q rec else (push q rec, enqueued)

-- `try_enqueue`; `owns` is what `try_to_lock` gave.
unfoldable pub try_enqueue : BoundedQueue → ℕ → Bool → BoundedQueue × Bool
try_enqueue q rec owns =
    if owns
    then (if ltb (length q.queue) q.max_size then (push q rec, true) else (q, false))
    else (q, false)

-- `on_queue_space_available`; without blocked threads both strategies do nothing.
abbrev pub on_queue_space_available : List ℕ → BoundedQueue → BoundedQueue
on_queue_space_available [] q = q
on_queue_space_available (rec ∷ rest) q = record q {
  blocked = rest;
  resuming = q.resuming ++ rec ∷ [];
}

-- `rec.swap(m_queue.front()); m_queue.pop();` and the notice of free space, where there is a record.
abbrev pub pop_front : List ℕ → BoundedQueue → BoundedQueue × Option ℕ
pop_front [] q = (q, none)
pop_front (rec ∷ rest) q =
    (on_queue_space_available q.blocked (record q { queue = rest }), some rec)

unfoldable pub try_dequeue : BoundedQueue → BoundedQueue × Option ℕ
try_dequeue q = pop_front q.queue q

-- The body of the loop of `dequeue_ready`: a record, or a wait.
abbrev pub take_or_wait : List ℕ → BoundedQueue → BoundedQueue × Option ℕ
take_or_wait [] q = (record q { asleep = true }, none)
take_or_wait (rec ∷ rest) q = pop_front (rec ∷ rest) q

-- `dequeue_ready` of the feeding thread, up to its return or its wait. A return with `false` takes
-- the interruption back.
unfoldable pub dequeue_ready : BoundedQueue → BoundedQueue × Option ℕ
dequeue_ready q =
    if q.interruption_requested
    then (record q { interruption_requested = false; asleep = false }, none)
    else take_or_wait q.queue (record q { asleep = false })

-- The loop of `block_on_overflow::interrupt`.
pub cancel_all : List ℕ → List ℕ → List ℕ
cancel_all [] cancelled = cancelled
cancel_all (rec ∷ rest) cancelled = cancel_all rest (cancelled ++ rec ∷ [])

unfoldable pub interrupt_dequeue : BoundedQueue → BoundedQueue
interrupt_dequeue q = record q {
  interruption_requested = true;
  blocked = [];
  cancelled = cancel_all q.blocked q.cancelled;
  asleep = false;
}
