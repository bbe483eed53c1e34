-- ===== src/SinkQueue/History/Tests.antt =====
-- Runs of the bounded queue, and examples of its theorems.
use log.Prelude.{◌+◌, ◌≤◌, count, ◌≡◌, refl, true, false, List, [], ◌∷◌, arith}
use log.SinkQueue.{
  Strategy, drop_on_overflow, block_on_overflow, enqueue, try_enqueue, try_dequeue, dequeue_ready,
  interrupt_dequeue, cancel_all,
}
use log.SinkQueue.History.{
  Trace, Event, enqueues, tries_enqueue, resumes, gives_up, tries_dequeue, dequeues, interrupts,
  pick, step, run,
}
use log.SinkQueue.History.Invariant.{Sound, run-Sound}
use log.SinkQueue.History.Conservation.{Kept, run-Kept}
use log.SinkQueue.History.Overflow.{Patient, run-Patient}
use log.SinkQueue.History.Interruption.{lost, give_up, interrupt_discards}

abbrev new : Strategy → Trace
new strategy = record {
  state = record {
    max_size = 2;
    strategy = strategy;
    queue = [];
    interruption_requested = false;
    blocked = [];
    resuming = [];
    cancelled = [];
    asleep = false;
  };
  asked = [];
  entered = [];
  left = [];
  discarded = [];
}

-- The feeding thread sleeps; then four threads come, of which two find the queue full. The first
-- of them is woken, but another record takes its place, and it waits again.
abbrev busy : List Event
busy =
    dequeues
    ∷ enqueues 1
    ∷ enqueues 2
    ∷ enqueues 3
    ∷ enqueues 4
    ∷ dequeues
    ∷ tries_enqueue 5 true
    ∷ resumes 0
    ∷ tries_dequeue
    ∷ resumes 0
    ∷ []

abbrev stopped : List Event
stopped = interrupts ∷ gives_up 0 ∷ dequeues ∷ dequeues ∷ []

blocking_run :
    ((run (new block_on_overflow) busy).state.queue ≡ 5 ∷ 4 ∷ [])
    × ((run (new block_on_overflow) busy).state.blocked ≡ 3 ∷ [])
    × ((run (run (new block_on_overflow) busy) stopped).discarded ≡ 3 ∷ [])
    × ((run (run (new block_on_overflow) busy) stopped).left ≡ 1 ∷ 2 ∷ 5 ∷ [])
unfolding run step enqueue try_enqueue try_dequeue dequeue_ready interrupt_dequeue cancel_all pick
blocking_run = (refl, refl, refl, refl)

dropping_run : (run (new drop_on_overflow) busy).discarded ≡ 3 ∷ 4 ∷ []
unfolding run step enqueue try_enqueue try_dequeue dequeue_ready interrupt_dequeue cancel_all pick
dropping_run = refl

run-Sound_example : Sound (run (new block_on_overflow) busy).state
run-Sound_example =
    run-Sound (new block_on_overflow) busy
      (record { bounded = omega arith; promised = λ b. omega arith; awake = λ s. absurd (cc) })

run-Kept_example : Kept (run (new drop_on_overflow) busy)
run-Kept_example =
    run-Kept (new drop_on_overflow) busy (record { fifo = refl; all_kept = λ a. refl })

run-Patient_example : Patient (run (new block_on_overflow) busy)
run-Patient_example =
    run-Patient (new block_on_overflow) busy tt
      (record { blocking = refl; none_cancelled = refl; none_discarded = refl })

-- Two threads are blocked, and the later of them goes on first.
abbrev crowded : Trace
crowded = run (new block_on_overflow) (enqueues 1 ∷ enqueues 2 ∷ enqueues 3 ∷ enqueues 4 ∷ [])

gives_up_reversed : (run crowded (interrupts ∷ give_up (1 ∷ 0 ∷ []))).discarded ≡ 4 ∷ 3 ∷ []
unfolding run step enqueue interrupt_dequeue cancel_all pick
gives_up_reversed = refl

interrupt_discards_example :
    (lost 4 crowded + count 4 crowded.state.blocked ≤ lost 4 (run crowded (interrupts ∷ stopped)))
    × (lost 4 (run crowded (interrupts ∷ give_up (1 ∷ 0 ∷ [])))
        ≡ lost 4 crowded + count 4 crowded.state.blocked)
    × ((run crowded (interrupts ∷ give_up (1 ∷ 0 ∷ []))).state.queue ≡ crowded.state.queue)
interrupt_discards_example = interrupt_discards crowded stopped (1 ∷ 0 ∷ []) 4
