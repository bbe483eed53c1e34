-- ===== src/SinkQueue/History/Interruption.antt =====
-- What `interrupt_dequeue` does to the records of threads that are blocked in `on_overflow`
-- (include/boost/log/sinks/bounded_fifo_queue.hpp).
use log.Prelude.{
  ap, ◌∙◌, ℕ, ◌+◌, ◌≤◌, ◌≡◌, arith, count, count-append, refl, Bool, true, false, List, [], ◌∷◌,
  ◌++◌, Option, none, some, Bool-cases, inl, inr, leb, ltb, length,
}
use log.SinkQueue.History.Invariant.{Picked, pick-Picked}
use log.SinkQueue.History.Conservation.{count-cancel_all}
use log.SinkQueue.{
  Strategy, drop_on_overflow, block_on_overflow, BoundedQueue, enqueue, try_enqueue, try_dequeue,
  dequeue_ready, interrupt_dequeue, on_overflow,
}
use log.SinkQueue.History.{
  Trace, Event, enqueues, tries_enqueue, resumes, gives_up, tries_dequeue, dequeues, interrupts,
  pick, step, run, after_enqueue, after_try, after_dequeue, after_resume, after_cancel,
}
use log.SinkQueue.History.Overflow.{Same, pop_front-Same, dequeue_ready-Same}

-- How often a record is lost, or held by a thread that is to lose it.
abbrev pub lost : ℕ → Trace → ℕ
lost a t = count a t.discarded + count a t.state.cancelled

enqueue-lost :
    (a : ℕ) (t : Trace) (q : BoundedQueue) (rec : ℕ)
    → q.cancelled ≡ t.state.cancelled
    → lost a t ≤ lost a (after_enqueue t rec (enqueue q rec))
unfolding enqueue
enqueue-lost a t q rec e = elim (Bool-cases (leb q.max_size (length q.queue))) [
  | inl full ↦ rw full (go q.strategy)
  | inr space ↦ rw space (omega (arith, ap (count a) e))
]
  where
    go : (s : Strategy) → lost a t ≤ lost a (after_enqueue t rec (on_overflow s q rec))
    go drop_on_overflow = omega (arith, ap (count a) e, count-append a t.discarded (rec ∷ []))
    go block_on_overflow = omega (arith, ap (count a) e)

try_enqueue-lost :
    (a : ℕ) (t : Trace) (rec : ℕ) (owns : Bool)
    → lost a t ≤ lost a (after_try t rec (try_enqueue t.state rec owns))
unfolding try_enqueue
try_enqueue-lost a t rec false = omega arith
try_enqueue-lost a t rec true = elim (Bool-cases (ltb (length t.state.queue) t.state.max_size)) [
  | inl space ↦ rw space (omega arith)
  | inr full ↦ rw full (omega arith)
]

after_dequeue-lost :
    (a : ℕ) (t : Trace) (r : BoundedQueue × Option ℕ)
    → Same t.state r.0
    → lost a t ≤ lost a (after_dequeue t r)
unfolding Same
after_dequeue-lost a t (q, none) (_, e) = omega (arith, ap (count a) e)
after_dequeue-lost a t (q, some rec) (_, e) = omega (arith, ap (count a) e)

after_cancel-lost :
    (a : ℕ) (t : Trace) (r : Option (ℕ × List ℕ))
    → Picked t.state.cancelled r
    → lost a (after_cancel t r) ≡ lost a t
after_cancel-lost a t none p = refl
after_cancel-lost a t (some (rec, rest)) (_, c) =
    omega (arith, c a, count-append a t.discarded (rec ∷ []))

-- Nobody gets out of the threads that are to lose their records otherwise than by losing it.
step-lost : (a : ℕ) (t : Trace) (e : Event) → lost a t ≤ lost a (step t e)
unfolding step try_dequeue interrupt_dequeue
step-lost a t (enqueues rec) =
    enqueue-lost a (record t { asked = t.asked ++ rec ∷ [] }) t.state rec refl
step-lost a t (tries_enqueue rec owns) = try_enqueue-lost a t rec owns
step-lost a t (resumes i) = go (pick i t.state.resuming)
  where
    go : (r : Option (ℕ × List ℕ)) → lost a t ≤ lost a (after_resume t r)
    go none = omega arith
    go (some (rec, rest)) = enqueue-lost a t (record (t.state) { resuming = rest }) rec refl
step-lost a t (gives_up i) =
    omega
      (arith, after_cancel-lost a t (pick i t.state.cancelled) (pick-Picked i t.state.cancelled))
step-lost a t tries_dequeue =
    after_dequeue-lost a t (try_dequeue t.state) (pop_front-Same t.state.queue t.state)
step-lost a t dequeues = after_dequeue-lost a t (dequeue_ready t.state) (dequeue_ready-Same t.state)
step-lost a t interrupts = omega (arith, count-cancel_all a t.state.blocked t.state.cancelled)

run-lost : (a : ℕ) (t : Trace) (es : List Event) → lost a t ≤ lost a (run t es)
unfolding run
run-lost a t [] = omega arith
run-lost a t (e ∷ es) = omega (arith, step-lost a t e, run-lost a (step t e) es)

-- Cancelled threads that go on, by their places, in any order.
abbrev pub give_up : List ℕ → List Event
give_up [] = []
give_up (i ∷ order) = gives_up i ∷ give_up order

give_up_lem :
    (a : ℕ) (t : Trace) (order : List ℕ)
    → (lost a (run t (give_up order)) ≡ lost a t)
      × ((run t (give_up order)).state.queue ≡ t.state.queue)
unfolding run step
give_up_lem a t [] = (refl, refl)
give_up_lem a t (i ∷ order) =
    let (kept, same) = give_up_lem a (step t (gives_up i)) order in
    (
      kept ∙ after_cancel-lost a t (pick i t.state.cancelled) (pick-Picked i t.state.cancelled),
      same ∙ queue_same (pick i t.state.cancelled),
    )
  where
    queue_same : (r : Option (ℕ × List ℕ)) → (after_cancel t r).state.queue ≡ t.state.queue
    queue_same none = refl
    queue_same (some (rec, rest)) = refl

-- `interrupt_dequeue` makes every thread that is blocked in `on_overflow` lose its record. Whatever
-- threads do afterwards, in whatever order, each of those records has been discarded or is held by
-- a cancelled thread, which can only discard it, at least as often as it was held by a blocked
-- thread, beside those cancelled or discarded before. If only cancelled threads go on, in any
-- order, that is exactly as often, and the queue holds what it held.
pub interrupt_discards :
    (t : Trace) (es : List Event) (order : List ℕ) (a : ℕ)
    → (lost a t + count a t.state.blocked ≤ lost a (run t (interrupts ∷ es)))
      × (lost a (run t (interrupts ∷ give_up order)) ≡ lost a t + count a t.state.blocked)
      × ((run t (interrupts ∷ give_up order)).state.queue ≡ t.state.queue)
unfolding run step interrupt_dequeue
interrupt_discards t es order a =
    let c = count-cancel_all a t.state.blocked t.state.cancelled in
    let (kept, same) = give_up_lem a (step t interrupts) order in
    (omega (arith, c, run-lost a (step t interrupts) es), omega (arith, c, kept), same)
