-- ===== src/AsyncSink/Steps.antt =====
-- The steps of a thread that feeds records, and histories of all threads' steps
-- (include/boost/log/sinks/async_frontend.hpp).
use log.Prelude.{ℕ, ◌+◌, Bool, false, List, [], ◌∷◌, ◌++◌, Option, none, some, if◌then◌else◌}
use log.SinkQueue.{try_dequeue, dequeue_ready}
use log.SinkQueue.History.{resumes, gives_up, tries_dequeue, dequeues}
use log.AsyncSink.{
  AsyncSink, idle, Loop, runs, once, Feeder, tests_stop, reads_flush, dequeues_record, feeds,
  tests_flush, flushes, clears_flag, fed, waits, completes, on_queue, pick_out, consume,
  try_consume, enter_queue, consume_again, start_feeding, start_again, stop, stop_interrupts, flush,
  flush_again,
}

-- The state behind a step of a feeding thread, and where the thread is then; `none` is a thread
-- that has completed the operation.
abbrev pub Moved : Type 0
Moved = AsyncSink × Option Feeder

abbrev pub test_stop : AsyncSink → Loop → Moved
test_stop s loop = (s, some (if s.stop_requested then tests_flush loop else reads_flush loop))

-- What `try_dequeue` gives, and what follows.
abbrev pub got : AsyncSink → Loop → Option ℕ → Moved
got s loop none = (s, some (tests_flush loop))
got s loop (some rec) = (s, some (feeds loop rec))

-- What `dequeue_ready` gives: a record, `false`, or a wait.
abbrev pub got_ready : AsyncSink → Option ℕ → Moved
got_ready s none = (s, some (if s.queue.state.asleep then waits else tests_stop runs))
got_ready s (some rec) = (s, some (feeds runs rec))

abbrev pub hand_over : AsyncSink → ℕ → AsyncSink
hand_over s rec = record s { delivered = s.delivered ++ rec ∷ [] }

abbrev pub after_fed : AsyncSink → Loop → Feeder
after_fed s once = completes
after_fed s runs = if s.stop_requested then completes else waits

abbrev pub complete_feeding_operation : AsyncSink → AsyncSink
complete_feeding_operation s = record s { active_operation = idle; stop_requested = false }

-- One step; `throws` says whether the call of the backend lets an exception out.
unfoldable pub advance_feeder : AsyncSink → Feeder → Bool → Moved
advance_feeder s (tests_stop loop) throws = test_stop s loop
advance_feeder s (reads_flush loop) throws = (s, some (dequeues_record loop s.flush_requested))
advance_feeder s (dequeues_record loop flush) throws =
    got (on_queue s tries_dequeue) loop (try_dequeue s.queue.state).1
advance_feeder s (feeds loop rec) throws =
    (hand_over s rec, some (if throws then completes else tests_stop loop))
advance_feeder s (tests_flush loop) throws =
    (s, some (if s.flush_requested then flushes loop else fed loop))
advance_feeder s (flushes loop) throws =
    (record s { flushed = s.flushed + 1 }, some (clears_flag loop throws))
advance_feeder s (clears_flag loop thrown) throws =
    (record s { flush_requested = false }, some (if thrown then completes else fed loop))
advance_feeder s (fed loop) throws = (s, some (after_fed s loop))
advance_feeder s waits throws = got_ready (on_queue s dequeues) (dequeue_ready s.queue.state).1
advance_feeder s completes throws = (complete_feeding_operation s, none)

abbrev pub put_back : Moved → AsyncSink
put_back (s, none) = s
put_back (s, some f) = record s { feeders = f ∷ s.feeders }

abbrev pub advance_one : AsyncSink → Bool → Option (Feeder × List Feeder) → AsyncSink
advance_one s throws none = s
advance_one s throws (some (f, rest)) =
    put_back (advance_feeder (record s { feeders = rest }) f throws)

-- What threads do, each as far as one step goes; a number is the place of a thread in its list.
pub data Act : Type 0 where
  consumes : ℕ → Act
  tries_consume : ℕ → Bool → Act
  enters consumes_again : ℕ → Act
  enqueues_again discards : ℕ → Act
  starts : Loop → Act
  starts_again : ℕ → Act
  stops stop_goes_on flush_begins flush_goes_on : Act
  advances : ℕ → Bool → Act

unfoldable pub act : AsyncSink → Act → AsyncSink
act s (consumes rec) = consume s rec
act s (tries_consume rec owns) = try_consume s rec owns
act s (enters i) = enter_queue s (pick_out i s.entering)
act s (consumes_again i) = consume_again s (pick_out i s.blocked_consumers)
act s (enqueues_again i) = on_queue s (resumes i)
act s (discards i) = on_queue s (gives_up i)
act s (starts loop) = start_feeding s loop
act s (starts_again i) = start_again s (pick_out i s.blocked_starts)
act s stops = stop s
act s stop_goes_on = stop_interrupts s s.stopping
act s flush_begins = flush s
act s flush_goes_on = flush_again s s.blocked_flushes
act s (advances i throws) = advance_one s throws (pick_out i s.feeders)

abbrev pub act_all : AsyncSink → List Act → AsyncSink
act_all s [] = s
act_all s (a ∷ acts) = act_all (act s a) acts
