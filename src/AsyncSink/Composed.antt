-- ===== src/AsyncSink/Composed.antt =====
-- The asynchronous sink with what its queue guarantees: records on their way from `consume` to the
-- backend (include/boost/log/sinks/async_frontend.hpp, bounded_fifo_queue.hpp).
use log.Prelude.{
  ℕ, zero, suc, ◌≡◌, refl, ap, ◌∙◌, Bool, List, [], ◌∷◌, ◌++◌, Option, none, some, inl, inr,
  Bool-cases,
}
use log.SinkQueue.{try_dequeue, dequeue_ready}
use log.SinkQueue.History.{
  Trace, Event, enqueues, tries_enqueue, resumes, gives_up, tries_dequeue, dequeues, interrupts,
  run, step,
}
use log.SinkQueue.History.Conservation.{run-Kept, Kept}
use log.SinkQueue.History.Invariant.{Sound, run-Sound}
use log.AsyncSink.{
  AsyncSink, Operation, idle, feeding_records, flushing, Loop, Feeder, tests_stop, reads_flush,
  dequeues_record, feeds, tests_flush, flushes, clears_flag, fed, waits, completes, Entry, blocking,
  trying, on_queue, pick_out, consume, try_consume, enter_queue, consume_again, start_feeding,
  start_again, stop, stop_interrupts, flush, flush_again, flush_by, flush_after, flush_waits, begin,
  may_start, Start, started, unexpected_call, stopped, must_wait,
}
use log.AsyncSink.Steps.{
  Moved, got, got_ready, advance_feeder, put_back, advance_one, Act, consumes, tries_consume,
  enters, consumes_again, enqueues_again, discards, starts, starts_again, stops, stop_goes_on,
  flush_begins, flush_goes_on, advances, act, act_all,
}
use log.AsyncSink.Exclusion.{Orderly, hands}
use log.AsyncSink.Order.{act-Orderly}

-- What an act does to the queue is nothing or one of the queue's events.
abbrev ByQueue : Trace → Trace → Type 0
ByQueue t t' = (es : List Event) × (t' ≡ run t es)

none_by : (t t' : Trace) → t' ≡ t → ByQueue t t'
unfolding run
none_by t t' e = ([], e)

one_by : (t t' : Trace) (e : Event) → t' ≡ step t e → ByQueue t t'
unfolding run
one_by t t' e h = (e ∷ [], h)

begin-queue : (s : AsyncSink) (loop : Loop) (r : Start) → (begin s loop r).queue ≡ s.queue
begin-queue s loop started = refl
begin-queue s loop unexpected_call = refl
begin-queue s loop stopped = refl
begin-queue s loop must_wait = refl

flush_after-queue : (s : AsyncSink) (op : Operation) → (flush_after op s).queue ≡ s.queue
flush_after-queue s idle = refl
flush_after-queue s feeding_records = refl
flush_after-queue s flushing = refl

put_back-queue : (r : Moved) → (put_back r).queue ≡ r.0.queue
put_back-queue (s, none) = refl
put_back-queue (s, some f) = refl

advance_feeder-queue :
    (s : AsyncSink) (f : Feeder) (throws : Bool)
    → ByQueue s.queue (advance_feeder s f throws).0.queue
unfolding advance_feeder
advance_feeder-queue s (tests_stop loop) throws = none_by s.queue _ refl
advance_feeder-queue s (reads_flush loop) throws = none_by s.queue _ refl
advance_feeder-queue s (dequeues_record loop b) throws =
    one_by s.queue _ tries_dequeue (go (try_dequeue s.queue.state).1)
  where
    go :
        (r : Option ℕ)
        → (got (on_queue s tries_dequeue) loop r).0.queue ≡ step s.queue tries_dequeue
    go none = refl
    go (some rec) = refl
advance_feeder-queue s (feeds loop rec) throws = none_by s.queue _ refl
advance_feeder-queue s (tests_flush loop) throws = none_by s.queue _ refl
advance_feeder-queue s (flushes loop) throws = none_by s.queue _ refl
advance_feeder-queue s (clears_flag loop thrown) throws = none_by s.queue _ refl
advance_feeder-queue s (fed loop) throws = none_by s.queue _ refl
advance_feeder-queue s waits throws = one_by s.queue _ dequeues (go (dequeue_ready s.queue.state).1)
  where
    go : (r : Option ℕ) → (got_ready (on_queue s dequeues) r).0.queue ≡ step s.queue dequeues
    go none = refl
    go (some rec) = refl
advance_feeder-queue s completes throws = none_by s.queue _ refl

act-queue : (s : AsyncSink) (a : Act) → ByQueue s.queue (act s a).queue
unfolding act consume try_consume start_feeding stop flush
act-queue s (consumes rec) =
    none_by s.queue _
      (elim (Bool-cases s.flush_requested) [ inl c ↦ rw c refl | inr c ↦ rw c refl ])
act-queue s (tries_consume rec owns) =
    none_by s.queue _
      (elim (Bool-cases s.flush_requested) [ inl c ↦ rw c refl | inr c ↦ rw c refl ])
act-queue s (enters i) = go (pick_out i s.entering)
  where
    go : (r : Option (Entry × List Entry)) → ByQueue s.queue (enter_queue s r).queue
    go none = none_by s.queue _ refl
    go (some (blocking rec, rest)) = one_by s.queue _ (enqueues rec) refl
    go (some (trying rec owns, rest)) = one_by s.queue _ (tries_enqueue rec owns) refl
act-queue s (consumes_again i) = none_by s.queue _ (go (pick_out i s.blocked_consumers))
  where
    go : (r : Option (ℕ × List ℕ)) → (consume_again s r).queue ≡ s.queue
    go none = refl
    go (some (rec, rest)) = elim (Bool-cases s.flush_requested) [
      | inl c ↦ rw c refl
      | inr c ↦ rw c refl
    ]
act-queue s (enqueues_again i) = one_by s.queue _ (resumes i) refl
act-queue s (discards i) = one_by s.queue _ (gives_up i) refl
act-queue s (starts loop) =
    none_by s.queue _ (begin-queue s loop (may_start s.active_operation s.stop_requested))
act-queue s (starts_again i) = none_by s.queue _ (go (pick_out i s.blocked_starts))
  where
    go : (r : Option (Loop × List Loop)) → (start_again s r).queue ≡ s.queue
    go none = refl
    go (some (loop, rest)) =
        begin-queue (record s { blocked_starts = rest }) loop
          (may_start s.active_operation s.stop_requested)
act-queue s stops = none_by s.queue _ refl
act-queue s stop_goes_on = go s.stopping
  where
    go : (n : ℕ) → ByQueue s.queue (stop_interrupts s n).queue
    go zero = none_by s.queue _ refl
    go (suc n) = one_by s.queue _ interrupts refl
act-queue s flush_begins = go s.active_operation
  where
    go : (op : Operation) → ByQueue s.queue (flush_by op s).queue
    go idle = none_by s.queue _ refl
    go feeding_records = one_by s.queue _ interrupts refl
    go flushing = one_by s.queue _ interrupts refl
act-queue s flush_goes_on = none_by s.queue _ (go s.blocked_flushes)
  where
    go : (n : ℕ) → (flush_again s n).queue ≡ s.queue
    go zero = refl
    go (suc n) = elim (Bool-cases (flush_waits s)) [
      | inl c ↦ rw c refl
      | inr c ↦ rw c (flush_after-queue (record s { blocked_flushes = n }) s.active_operation)
    ]
act-queue s (advances i throws) = go (pick_out i s.feeders)
  where
    go : (r : Option (Feeder × List Feeder)) → ByQueue s.queue (advance_one s throws r).queue
    go none = none_by s.queue _ refl
    go (some (f, rest)) =
        let r = advance_feeder (record s { feeders = rest }) f throws in
        let (es, h) = advance_feeder-queue (record s { feeders = rest }) f throws in
        (es, put_back-queue r ∙ h)

-- An orderly sink with a queue that is sound and has kept its records.
pub record Running (s : AsyncSink) : Type 0 where
  pub orderly : Orderly s
  pub queue_kept : Kept s.queue
  pub queue_sound : Sound s.queue.state

act-Running : (s : AsyncSink) (a : Act) → Running s → Running (act s a)
act-Running s a h =
    let (es, e) = act-queue s a in
    record {
      orderly = act-Orderly s a h.orderly;
      queue_kept = rw e (run-Kept s.queue es h.queue_kept);
      queue_sound = rw e (run-Sound s.queue es h.queue_sound);
    }

act_all-Running : (s : AsyncSink) (acts : List Act) → Running s → Running (act_all s acts)
act_all-Running s [] h = h
act_all-Running s (a ∷ acts) h = act_all-Running (act s a) acts (act-Running s a h)

-- Whatever threads do in whatever order, and whatever the backend throws: at most one thread is in a
-- feeding operation, and exactly where the active operation is not `idle`; the records that entered
-- the queue are those passed to the backend, then the one that a thread is about to pass, and then
-- those in the queue, in the order in which they entered; and the queue keeps what it guarantees.
pub act_all_lem :
    (s : AsyncSink) (acts : List Act)
    → Running s
    → Running (act_all s acts)
      × ((act_all s acts).queue.entered
          ≡ (act_all s acts).delivered
            ++ hands (act_all s acts).feeders
            ++ (act_all s acts).queue.state.queue)
act_all_lem s acts h =
    let r = act_all-Running s acts h in
    (r, r.queue_kept.fifo ∙ ap (λ l. l ++ (act_all s acts).queue.state.queue) r.orderly.in_order)
