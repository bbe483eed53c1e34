-- ===== src/AsyncSink/Flushing.antt =====
-- What `flush` does where no other thread feeds (include/boost/log/sinks/async_frontend.hpp).
use mathlib.Core.Path.{subst}
use mathlib.Core.List.{append_assoc, append-nil}
use log.Prelude.{
  ℕ, zero, suc, ◌+◌, ◌≡◌, refl, ap, ◌∙◌, sym, true, false, List, [], ◌∷◌, ◌++◌, Option, none, some,
  length,
}
use log.SinkQueue.{BoundedQueue, try_dequeue, pop_front, on_queue_space_available}
use log.SinkQueue.History.{Trace, step, after_dequeue}
use log.AsyncSink.{AsyncSink, idle, flushing, once, Feeder, tests_stop, waits, flush, flush_by}
use log.AsyncSink.Steps.{advance_feeder, flush_begins, advances, act, got, put_back}

-- Steps of the first feeding thread alone, the backend throwing nothing.
abbrev pub feed : ℕ → AsyncSink → AsyncSink
feed zero s = s
feed (suc n) s = feed n (act s (advances 0 false))

-- Steps that are enough for so many records.
abbrev pub rounds : ℕ → ℕ
rounds zero = 8
rounds (suc n) = suc (suc (suc (suc (rounds n))))

space-queue : (b : List ℕ) (q : BoundedQueue) → (on_queue_space_available b q).queue ≡ q.queue
space-queue [] q = refl
space-queue (rec ∷ rest) q = refl

try_dequeue-some :
    (q : BoundedQueue) (rec : ℕ) (rest : List ℕ)
    → q.queue ≡ rec ∷ rest
    → (q' : BoundedQueue) × (try_dequeue q ≡ (q', some rec)) × (q'.queue ≡ rest)
unfolding try_dequeue
try_dequeue-some q rec rest e = (
  on_queue_space_available q.blocked (record q { queue = rest }),
  ap (λ l. pop_front l q) e,
  space-queue q.blocked (record q { queue = rest }),
)

try_dequeue-none : (q : BoundedQueue) → q.queue ≡ [] → try_dequeue q ≡ (q, none)
unfolding try_dequeue
try_dequeue-none q e = ap (λ l. pop_front l q) e

module _ (s : AsyncSink) where
  -- The sink while a thread flushes it.
  abbrev during : Trace → List ℕ → Feeder → AsyncSink
  during t d f = record s {
    queue = t;
    active_operation = flushing;
    stop_requested = false;
    flush_requested = true;
    feeders = f ∷ [];
    delivered = d;
  }

  -- And when it has done so.
  abbrev pub drained_sink : Trace → List ℕ → AsyncSink
  drained_sink t d = record s {
    queue = t;
    active_operation = idle;
    stop_requested = false;
    flush_requested = false;
    feeders = [];
    delivered = d;
    flushed = s.flushed + 1;
  }

  -- Behind the call of the queue, with what it gives.
  abbrev dequeued : Trace → List ℕ → BoundedQueue × Option ℕ → AsyncSink
  dequeued t d r =
      put_back
        (got (record (during t d waits) { queue = after_dequeue t r; feeders = [] }) once r.1)

  -- What is left to do when the queue holds `l`.
  abbrev Drains : List ℕ → List ℕ → ℕ → AsyncSink → Type 0
  Drains l d n s' = (t' : Trace) × (feed n s' ≡ drained_sink t' (d ++ l)) × (t'.state.queue ≡ [])

  drained :
      (l : List ℕ) (t : Trace) (d : List ℕ)
      → t.state.queue ≡ l
      → Drains l d (rounds (length l)) (during t d (tests_stop once))
  unfolding act advance_feeder step
  drained [] t d e =
      subst (λ r. Drains [] d 5 (dequeued t d r)) (sym (try_dequeue-none t.state e))
        (record t { state = t.state }, ap (drained_sink t) (sym (append-nil d)), e)
  drained (rec ∷ rest) t d e =
      let (q, h, k) = try_dequeue-some t.state rec rest e in
      let t' = after_dequeue t (q, some rec) in
      let (u, a, b) = drained rest t' (d ++ rec ∷ []) k in
      subst (λ r. Drains (rec ∷ rest) d (suc (rounds (length rest))) (dequeued t d r)) (sym h)
        (u, a ∙ ap (drained_sink u) (append_assoc d (rec ∷ []) rest), b)

  -- Where no operation is active and no stop requested, a thread that calls `flush` and is not
  -- disturbed, by other threads or by an exception of the backend, passes every record of the queue
  -- to the backend in order, calls the backend's `flush` once, and ends with the queue empty, the
  -- request cleared and no operation active.
  pub flush_delivers :
      s.active_operation ≡ idle
      → s.stop_requested ≡ false
      → s.feeders ≡ []
      → (t : Trace) × (feed (rounds (length s.queue.state.queue)) (act s flush_begins)
          ≡ drained_sink t (s.delivered ++ s.queue.state.queue))
        × (t.state.queue ≡ [])
  unfolding act flush
  flush_delivers e f g =
      let (t, a, b) = drained s.queue.state.queue s.queue s.delivered refl in
      (t, ap (feed (rounds (length s.queue.state.queue))) begun ∙ a, b)
    where
      begun : flush s ≡ during s.queue s.delivered (tests_stop once)
      begun =
          ap (λ op. flush_by op s) e
          ∙ ap
              (λ b. record s {
                active_operation = flushing;
                stop_requested = b;
                flush_requested = true;
                feeders = tests_stop once ∷ s.feeders;
              })
              f
          ∙ ap
              (λ fs. record (during s.queue s.delivered (tests_stop once)) {
                feeders = tests_stop once ∷ fs;
              })
              g
