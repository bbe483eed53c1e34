-- ===== src/AsyncSink.antt =====
-- The asynchronous frontend with the bounded queue: include/boost/log/sinks/async_frontend.hpp.
--
-- The frontend's calls and the loop of the feeding thread are cut into steps at the loads and
-- stores of the atomic flags, the sections under the frontend's mutex and the calls of the queue,
-- so that threads may come between; where `flush` stores its flag and interrupts the queue, under
-- the frontend's mutex, that is one step. The queue is that of SinkQueue, with its history.
pub mod Steps
pub mod Exclusion
pub mod Order
pub mod Composed
pub mod Flushing
pub mod Stranding
mod Tests
use log.Prelude.{
  ℕ, zero, suc, ◌+◌, Bool, true, false, List, [], ◌∷◌, ◌++◌, Option, none, some, if◌then◌else◌,
}
use log.SinkQueue.History.{
  Trace, Event, enqueues, tries_enqueue, resumes, gives_up, tries_dequeue, dequeues, interrupts,
}
use log.SinkQueue.History.{step as queue_step}

-- `operation`
pub data Operation : Type 0 where
  idle feeding_records flushing : Operation

-- The loop that a thread runs: that of `run`, or `do_feed_records` once, in `feed_records` and in
-- `flush`.
pub data Loop : Type 0 where
  runs once : Loop

-- Where a thread is between `start_feeding_operation` and `complete_feeding_operation`.
pub data Feeder : Type 0 where
  -- `while (!m_StopRequested)`
  tests_stop : Loop → Feeder
  -- `m_FlushRequested.load()`, for the choice of the call
  reads_flush : Loop → Feeder
  -- `try_dequeue`, or `try_dequeue_ready`
  dequeues_record : Loop → Bool → Feeder
  -- `feed_record`
  feeds : Loop → ℕ → Feeder
  -- `if (m_FlushRequested)`
  tests_flush : Loop → Feeder
  -- `flush_backend`
  flushes : Loop → Feeder
  -- The destructor of `scoped_flag`, and whether an exception is passing.
  clears_flag : Loop → Bool → Feeder
  -- Behind `do_feed_records`
  fed : Loop → Feeder
  -- `dequeue_ready`
  waits : Feeder
  -- The destructor of `scoped_feeding_operation`
  completes : Feeder

-- A call that has found `m_FlushRequested` not set: `enqueue`, or `try_enqueue` with what
-- `try_to_lock` will give.
pub data Entry : Type 0 where
  blocking : ℕ → Entry
  trying : ℕ → Bool → Entry

-- `asynchronous_sink`, with the threads that run its functions: those in a feeding operation, in
-- `consume` and `try_consume` before the queue's function, and those that wait on `m_BlockCond` in
-- `consume`, in `start_feeding_operation` and in `flush`. `stopping` counts those in `stop`, between
-- the store and `interrupt_dequeue`. `delivered` are the records passed to the
-- backend, and `flushed` counts the calls of its `flush`.
pub record AsyncSink : Type 0 where
  pub queue : Trace
  pub active_operation : Operation
  pub stop_requested : Bool
  pub flush_requested : Bool
  pub feeders : List Feeder
  pub entering : List Entry
  pub blocked_consumers : List ℕ
  pub blocked_starts : List Loop
  pub blocked_flushes : ℕ
  pub stopping : ℕ
  pub delivered : List ℕ
  pub flushed : ℕ

-- One thread of a list, by its place, and the others.
abbrev pub besides : {A : Type 0} → A → Option (A × List A) → Option (A × List A)
besides x none = none
besides x (some (y, ys)) = some (y, x ∷ ys)

abbrev pub pick_out : {A : Type 0} → ℕ → List A → Option (A × List A)
pick_out i [] = none
pick_out zero (x ∷ xs) = some (x, xs)
pick_out (suc i) (x ∷ xs) = besides x (pick_out i xs)

abbrev pub on_queue : AsyncSink → Event → AsyncSink
on_queue s e = record s { queue = queue_step s.queue e }

-- `consume` and `try_consume` up to the queue's function, and that function.
unfoldable pub consume : AsyncSink → ℕ → AsyncSink
consume s rec =
    if s.flush_requested
    then record s { blocked_consumers = s.blocked_consumers ++ rec ∷ [] }
    else record s { entering = s.entering ++ blocking rec ∷ [] }

unfoldable pub try_consume : AsyncSink → ℕ → Bool → AsyncSink
try_consume s rec owns =
    if s.flush_requested then s else record s { entering = s.entering ++ trying rec owns ∷ [] }

abbrev pub enter_queue : AsyncSink → Option (Entry × List Entry) → AsyncSink
enter_queue s none = s
enter_queue s (some (blocking rec, rest)) = on_queue (record s { entering = rest }) (enqueues rec)
enter_queue s (some (trying rec owns, rest)) =
    on_queue (record s { entering = rest }) (tries_enqueue rec owns)

-- The next round of the loop of `consume`.
abbrev pub consume_again : AsyncSink → Option (ℕ × List ℕ) → AsyncSink
consume_again s none = s
consume_again s (some (rec, rest)) =
    if s.flush_requested
    then s
    else record s { blocked_consumers = rest; entering = s.entering ++ blocking rec ∷ [] }

-- What a test of `start_feeding_operation` leads to.
pub data Start : Type 0 where
  started unexpected_call stopped must_wait : Start

abbrev pub may_start : Operation → Bool → Start
may_start idle stop = started
may_start feeding_records stop = unexpected_call
may_start flushing stop = if stop then stopped else must_wait

-- `run` and `feed_records`, from their call or after a wait; a thread that waits has not been
-- listed again.
abbrev pub begin : AsyncSink → Loop → Start → AsyncSink
begin s loop started = record s {
  active_operation = feeding_records;
  feeders = tests_stop loop ∷ s.feeders;
}
begin s loop unexpected_call = s
begin s loop stopped = record s { stop_requested = false }
begin s loop must_wait = record s { blocked_starts = loop ∷ s.blocked_starts }

unfoldable pub start_feeding : AsyncSink → Loop → AsyncSink
start_feeding s loop = begin s loop (may_start s.active_operation s.stop_requested)

abbrev pub start_again : AsyncSink → Option (Loop × List Loop) → AsyncSink
start_again s none = s
start_again s (some (loop, rest)) = start_feeding (record s { blocked_starts = rest }) loop

-- `stop` up to the store, and its call of `interrupt_dequeue`. The frontend's mutex, which `stop`
-- holds in between, is left out: any other step may come there.
unfoldable pub stop : AsyncSink → AsyncSink
stop s = record s { stop_requested = true; stopping = s.stopping + 1 }

abbrev pub stop_interrupts : AsyncSink → ℕ → AsyncSink
stop_interrupts s zero = s
stop_interrupts s (suc n) = on_queue (record s { stopping = n }) interrupts

-- The part of `flush` that flushes itself.
abbrev pub flush_here : AsyncSink → AsyncSink
flush_here s = record s {
  active_operation = flushing;
  flush_requested = true;
  feeders = tests_stop once ∷ s.feeders;
}

-- `flush` up to its wait.
abbrev pub flush_by : Operation → AsyncSink → AsyncSink
flush_by idle s = flush_here s
flush_by _ s =
    on_queue
      (record s {
        flush_requested = true;
        blocked_flushes = if s.stop_requested then s.blocked_flushes else s.blocked_flushes + 1;
      })
      interrupts

unfoldable pub flush : AsyncSink → AsyncSink
flush s = flush_by s.active_operation s

-- `flush` behind its wait.
abbrev pub flush_after : Operation → AsyncSink → AsyncSink
flush_after idle s = flush_here s
flush_after _ s = s

-- Whether the loop of `flush` waits on.
abbrev pub flush_waits : AsyncSink → Bool
flush_waits s = if s.stop_requested then false else s.flush_requested

abbrev pub flush_again : AsyncSink → ℕ → AsyncSink
flush_again s zero = s
flush_again s (suc n) =
    if flush_waits s then s else flush_after s.active_operation (record s { blocked_flushes = n })
