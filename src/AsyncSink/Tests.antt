-- ===== src/AsyncSink/Tests.antt =====
-- Runs of an asynchronous sink, and examples of its theorems.
use log.Prelude.{◌≡◌, refl, true, false, [], ◌∷◌, ◌++◌, List, length, arith}
use log.SinkQueue.{
  block_on_overflow, enqueue, try_enqueue, try_dequeue, dequeue_ready, interrupt_dequeue,
}
use log.SinkQueue.History.{Trace, step}
use log.AsyncSink.{AsyncSink, idle, runs, consume, try_consume, start_feeding, stop, flush}
use log.AsyncSink.Steps.{
  Act, consumes, tries_consume, enters, consumes_again, starts, stops, stop_goes_on, flush_begins,
  flush_goes_on, advances, advance_feeder, act, act_all,
}
use log.AsyncSink.Exclusion.{hands}
use log.AsyncSink.Composed.{Running, act_all_lem}
use log.AsyncSink.Flushing.{feed, rounds, drained_sink, flush_delivers}
use log.AsyncSink.Stranding.{Stranded, Stuck, act_all-Stuck}

abbrev new_sink : AsyncSink
new_sink = record {
  queue = record {
    state = record {
      max_size = 2;
      strategy = block_on_overflow;
      queue = [];
      interruption_requested = false;
      blocked = [];
      resuming = [];
      cancelled = [];
      asleep = false;
    };
    asked = [];
    entered = [];
    left = [];
    discarded = [];
  };
  active_operation = idle;
  stop_requested = false;
  flush_requested = false;
  feeders = [];
  entering = [];
  blocked_consumers = [];
  blocked_starts = [];
  blocked_flushes = 0;
  stopping = 0;
  delivered = [];
  flushed = 0;
}

new_sink-Running : Running new_sink
new_sink-Running = record {
  orderly = record { single = tt; in_order = refl };
  queue_kept = record { fifo = refl; all_kept = λ a. refl };
  queue_sound = record {
    bounded = omega arith;
    promised = λ h. omega arith;
    awake = λ h. absurd (cc);
  };
}

-- Two records come, and a thread of `run` passes the first one on.
abbrev busy : List Act
busy =
    consumes 5
    ∷ consumes 6
    ∷ enters 0
    ∷ enters 0
    ∷ starts runs
    ∷ advances 0 false
    ∷ advances 0 false
    ∷ advances 0 false
    ∷ advances 0 false
    ∷ []

-- `flush` and `stop` come when the thread of `run` has left `do_feed_records`.
abbrev crossing : List Act
crossing =
    starts runs
    ∷ advances 0 false
    ∷ advances 0 false
    ∷ advances 0 false
    ∷ advances 0 false
    ∷ flush_begins
    ∷ stops
    ∷ stop_goes_on
    ∷ advances 0 false
    ∷ advances 0 false
    ∷ []

acts_run :
    ((act_all new_sink busy).delivered ≡ 5 ∷ [])
    × ((act_all new_sink busy).queue.state.queue ≡ 6 ∷ [])
    × ((act_all new_sink crossing).blocked_flushes ≡ 1)
    × ((act_all new_sink crossing).flush_requested ≡ true)
    × ((act_all new_sink crossing).stop_requested ≡ false)
    × ((act_all new_sink crossing).feeders ≡ [])
unfolding act consume try_consume start_feeding stop flush advance_feeder step enqueue try_enqueue
    try_dequeue dequeue_ready interrupt_dequeue
acts_run = (refl, refl, refl, refl, refl, refl)

act_all_lem_example :
    Running (act_all new_sink busy)
    × ((act_all new_sink busy).queue.entered
        ≡ (act_all new_sink busy).delivered
          ++ hands (act_all new_sink busy).feeders
          ++ (act_all new_sink busy).queue.state.queue)
act_all_lem_example = act_all_lem new_sink busy new_sink-Running

-- Two records wait in the queue, and nobody feeds.
abbrev filled : AsyncSink
filled = act_all new_sink (consumes 5 ∷ consumes 6 ∷ enters 0 ∷ enters 0 ∷ [])

quiet : (filled.active_operation ≡ idle) × (filled.stop_requested ≡ false) × (filled.feeders ≡ [])
unfolding act consume step
quiet = (refl, refl, refl)

flush_delivers_example :
    (t : Trace) × (feed (rounds (length filled.queue.state.queue)) (act filled flush_begins)
      ≡ drained_sink filled t (filled.delivered ++ filled.queue.state.queue))
    × (t.state.queue ≡ [])
flush_delivers_example = flush_delivers filled quiet.0 quiet.1 quiet.2

abbrev crossed : AsyncSink
crossed = act_all new_sink crossing

crossed-Stranded : Stranded crossed
crossed-Stranded = record { nobody = acts_run.5; not_stopped = acts_run.4; requested = acts_run.3 }

act_all-Stuck_example :
    Stranded
      (act_all crossed (consumes 7 ∷ flush_goes_on ∷ tries_consume 8 true ∷ consumes_again 0 ∷ []))
    × Stuck crossed (
        act_all crossed (consumes 7 ∷ flush_goes_on ∷ tries_consume 8 true ∷ consumes_again 0 ∷ []))
act_all-Stuck_example =
    act_all-Stuck crossed
      (consumes 7 ∷ flush_goes_on ∷ tries_consume 8 true ∷ consumes_again 0 ∷ []) crossed-Stranded
      (tt, (tt, (tt, (tt, tt))))
