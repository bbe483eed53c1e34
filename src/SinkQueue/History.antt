-- ===== src/SinkQueue/History.antt =====
-- Histories of the bounded queue: threads that enqueue, wait and go on in any order.
pub mod Invariant
pub mod Conservation
pub mod Overflow
pub mod Interruption
mod Tests
use log.Prelude.{ℕ, zero, suc, ◌+◌, Bool, true, false, List, [], ◌∷◌, ◌++◌, Option, none, some}
use log.SinkQueue.{
  BoundedQueue, Fate, enqueued, dropped, blocks, enqueue, try_enqueue, try_dequeue, dequeue_ready,
  interrupt_dequeue,
}

-- The queue with what has happened: the records that threads have asked to enqueue, those that
-- went into the queue, those that came out and those that were discarded.
pub record Trace : Type 0 where
  pub state : BoundedQueue
  pub asked : List ℕ
  pub entered : List ℕ
  pub left : List ℕ
  pub discarded : List ℕ

-- `resumes` and `gives_up` are the next steps of a thread whose wait in `on_overflow` is over, by
-- its place among those threads.
pub data Event : Type 0 where
  enqueues : ℕ → Event
  tries_enqueue : ℕ → Bool → Event
  resumes gives_up : ℕ → Event
  tries_dequeue dequeues interrupts : Event

abbrev pub behind : ℕ → Option (ℕ × List ℕ) → Option (ℕ × List ℕ)
behind x none = none
behind x (some (y, ys)) = some (y, x ∷ ys)

-- An item by its place, and the others.
pub pick : ℕ → List ℕ → Option (ℕ × List ℕ)
pick i [] = none
pick zero (x ∷ xs) = some (x, xs)
pick (suc i) (x ∷ xs) = behind x (pick i xs)

abbrev pub after_enqueue : Trace → ℕ → BoundedQueue × Fate → Trace
after_enqueue t rec (q, enqueued) = record t { state = q; entered = t.entered ++ rec ∷ [] }
after_enqueue t rec (q, dropped) = record t { state = q; discarded = t.discarded ++ rec ∷ [] }
after_enqueue t rec (q, blocks) = record t { state = q }

abbrev pub after_try : Trace → ℕ → BoundedQueue × Bool → Trace
after_try t rec (q, true) = record t {
  state = q;
  asked = t.asked ++ rec ∷ [];
  entered = t.entered ++ rec ∷ [];
}
after_try t rec (q, false) = record t { state = q }

abbrev pub after_dequeue : Trace → BoundedQueue × Option ℕ → Trace
after_dequeue t (q, none) = record t { state = q }
after_dequeue t (q, some rec) = record t { state = q; left = t.left ++ rec ∷ [] }

-- The thread is no longer one of those that are about to go on: it runs the loop of `enqueue`.
abbrev pub after_resume : Trace → Option (ℕ × List ℕ) → Trace
after_resume t none = t
after_resume t (some (rec, rest)) =
    after_enqueue t rec (enqueue (record (t.state) { resuming = rest }) rec)

-- `on_overflow` returns `false`, and `enqueue` returns.
abbrev pub after_cancel : Trace → Option (ℕ × List ℕ) → Trace
after_cancel t none = t
after_cancel t (some (rec, rest)) = record t {
  state = record (t.state) { cancelled = rest };
  discarded = t.discarded ++ rec ∷ [];
}

unfoldable pub step : Trace → Event → Trace
step t (enqueues rec) =
    after_enqueue (record t { asked = t.asked ++ rec ∷ [] }) rec (enqueue t.state rec)
step t (tries_enqueue rec owns) = after_try t rec (try_enqueue t.state rec owns)
step t (resumes i) = after_resume t (pick i t.state.resuming)
step t (gives_up i) = after_cancel t (pick i t.state.cancelled)
step t tries_dequeue = after_dequeue t (try_dequeue t.state)
step t dequeues = after_dequeue t (dequeue_ready t.state)
step t interrupts = record t { state = interrupt_dequeue t.state }

unfoldable pub run : Trace → List Event → Trace
run t [] = t
run t (e ∷ es) = run (step t e) es
