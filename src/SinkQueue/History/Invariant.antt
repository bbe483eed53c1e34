-- ===== src/SinkQueue/History/Invariant.antt =====
-- What every history of the bounded queue keeps.
use log.Prelude.{
  ℕ, zero, suc, ◌+◌, ◌≤◌, ◌<◌, ◌≡◌, refl, Bool, true, false, List, [], ◌∷◌, ◌++◌, Option, none,
  some, arith, ap, length, length-append, count, Bool-cases, inl, inr, leb, ltb, if◌then◌else◌,
}
use log.SinkQueue.{
  Strategy, drop_on_overflow, block_on_overflow, BoundedQueue, Fate, enqueued, dropped, blocks,
  enqueue, try_enqueue, try_dequeue, dequeue_ready, interrupt_dequeue, pop_front, on_overflow,
  on_queue_space_available, take_or_wait,
}
use log.SinkQueue.History.{
  Trace, Event, enqueues, tries_enqueue, resumes, gives_up, tries_dequeue, dequeues, interrupts,
  pick, behind, step, run, after_enqueue, after_try, after_dequeue, after_resume, after_cancel,
}

-- The queue's own part: it is never longer than allowed; a thread is blocked only while no space
-- is free but for what threads about to go on may take; the feeding thread sleeps only while the
-- queue is empty and no interruption is requested.
pub record Sound (q : BoundedQueue) : Type 0 where
  pub bounded : length q.queue ≤ q.max_size
  pub promised : 0 < length q.blocked → q.max_size ≤ length q.queue + length q.resuming
  pub awake : q.asleep ≡ true → (length q.queue ≡ 0) × (q.interruption_requested ≡ false)

-- The item picked, and the others, are the items that were there.
abbrev pub Picked : List ℕ → Option (ℕ × List ℕ) → Type 0
Picked xs none = Unit {0}
Picked xs (some (x, rest)) =
    (length xs ≡ suc (length rest)) × ((a : ℕ) → count a xs ≡ count a (x ∷ rest))

pub pick-Picked : (i : ℕ) (xs : List ℕ) → Picked xs (pick i xs)
unfolding pick
pick-Picked i [] = tt
pick-Picked zero (x ∷ xs) = (refl, λ a. refl)
pick-Picked (suc i) (x ∷ xs) = go (pick i xs) (pick-Picked i xs)
  where
    go : (r : Option (ℕ × List ℕ)) → Picked xs r → Picked (x ∷ xs) (behind x r)
    go none h = tt
    go (some (y, ys)) (l, c) = (omega (arith, l), λ a. omega (arith, c a))

-- A thread that goes on gives up a promise of space; the loop of `enqueue` makes up for it.
enqueue-Sound :
    (q : BoundedQueue) (rec : ℕ)
    → length q.queue ≤ q.max_size
    → (0 < length q.blocked → q.max_size ≤ length q.queue + suc (length q.resuming))
    → (q.asleep ≡ true → (length q.queue ≡ 0) × (q.interruption_requested ≡ false))
    → Sound (enqueue q rec).0
unfolding enqueue
enqueue-Sound q rec short weak awake = elim (Bool-cases (leb q.max_size (length q.queue))) [
  | inl full ↦ rw full (go q.strategy (ground (arith, full)))
  | inr space ↦ rw space (record {
    bounded = ground (arith, length-append q.queue (rec ∷ []));
    promised = λ b. ground (arith, weak b, length-append q.queue (rec ∷ []));
    awake = λ s. absurd (ground (arith, awake));
  })
]
  where
    go : (strategy : Strategy) → q.max_size ≤ length q.queue → Sound (on_overflow strategy q rec).0
    go drop_on_overflow full = record {
      bounded = short;
      promised = λ b. omega arith;
      awake = awake;
    }
    go block_on_overflow full = record {
      bounded = short;
      promised = λ b. omega arith;
      awake = awake;
    }

try_enqueue-Sound :
    (q : BoundedQueue) (rec : ℕ) (owns : Bool) → Sound q → Sound (try_enqueue q rec owns).0
unfolding try_enqueue
try_enqueue-Sound q rec false h = h
try_enqueue-Sound q rec true h = elim (Bool-cases (ltb (length q.queue) q.max_size)) [
  | inl space ↦ rw space (record {
    bounded = ground (arith, length-append q.queue (rec ∷ []));
    promised = λ b. ground (arith, h.promised b, length-append q.queue (rec ∷ []));
    awake = λ s. absurd (ground (arith, h.awake));
  })
  | inr full ↦ rw full h
]

pop_front-Sound : (l : List ℕ) (q : BoundedQueue) → q.queue ≡ l → Sound q → Sound (pop_front l q).0
pop_front-Sound [] q e h = h
pop_front-Sound (rec ∷ rest) q e h = go q.blocked refl
  where
    go :
        (b : List ℕ)
        → q.blocked ≡ b
        → Sound (on_queue_space_available b (record q { queue = rest }))
    go [] f = record {
      bounded = omega (arith, h.bounded, ap length e);
      promised = λ b. absurd (omega (arith, b, ap length f));
      awake = λ s. absurd (omega (arith, (h.awake s).0, ap length e));
    }
    go (x ∷ xs) f = record {
      bounded = omega (arith, h.bounded, ap length e);
      promised = λ b. omega (
        arith,
        h.promised (omega (arith, ap length f)),
        ap length e,
        length-append q.resuming (x ∷ []),
      );
      awake = λ s. absurd (omega (arith, (h.awake s).0, ap length e));
    }

dequeue_ready-Sound : (q : BoundedQueue) → Sound q → Sound (dequeue_ready q).0
unfolding dequeue_ready
dequeue_ready-Sound q h = choose q.interruption_requested refl
  where
    go :
        (l : List ℕ)
        → q.queue ≡ l
        → q.interruption_requested ≡ false
        → Sound (take_or_wait l (record q { asleep = false })).0
    go [] e f = record { bounded = h.bounded; promised = h.promised; awake = λ s. (ap length e, f) }
    go (x ∷ xs) e f =
        pop_front-Sound (x ∷ xs) (record q { asleep = false }) e
          (record { bounded = h.bounded; promised = h.promised; awake = λ s. absurd (cc) })

    choose :
        (b : Bool)
        → q.interruption_requested ≡ b
        → Sound
            (if b
              then (record q { interruption_requested = false; asleep = false }, none)
              else take_or_wait q.queue (record q { asleep = false })).0
    choose true f = record { bounded = h.bounded; promised = h.promised; awake = λ s. absurd (cc) }
    choose false f = go q.queue refl f

interrupt_dequeue-Sound : (q : BoundedQueue) → Sound q → Sound (interrupt_dequeue q)
unfolding interrupt_dequeue
interrupt_dequeue-Sound q h = record {
  bounded = h.bounded;
  promised = λ b. absurd (omega arith);
  awake = λ s. absurd (cc);
}

-- The cases in which the state of a trace is one that an operation has left.
after_enqueue-Sound :
    (t : Trace) (rec : ℕ) (r : BoundedQueue × Fate)
    → Sound r.0
    → Sound (after_enqueue t rec r).state
after_enqueue-Sound t rec (q, enqueued) h = h
after_enqueue-Sound t rec (q, dropped) h = h
after_enqueue-Sound t rec (q, blocks) h = h

after_try-Sound :
    (t : Trace) (rec : ℕ) (r : BoundedQueue × Bool) → Sound r.0 → Sound (after_try t rec r).state
after_try-Sound t rec (q, true) h = h
after_try-Sound t rec (q, false) h = h

after_dequeue-Sound :
    (t : Trace) (r : BoundedQueue × Option ℕ) → Sound r.0 → Sound (after_dequeue t r).state
after_dequeue-Sound t (q, none) h = h
after_dequeue-Sound t (q, some rec) h = h

after_resume-Sound :
    (t : Trace) (r : Option (ℕ × List ℕ))
    → Picked t.state.resuming r
    → Sound t.state
    → Sound (after_resume t r).state
after_resume-Sound t none p h = h
after_resume-Sound t (some (rec, rest)) (l, _) h =
    after_enqueue-Sound t rec (enqueue (record (t.state) { resuming = rest }) rec) (
      enqueue-Sound (record (t.state) { resuming = rest }) rec h.bounded
        (λ b. omega (arith, h.promised b, l)) h.awake)

after_cancel-Sound :
    (t : Trace) (r : Option (ℕ × List ℕ)) → Sound t.state → Sound (after_cancel t r).state
after_cancel-Sound t none h = h
after_cancel-Sound t (some (rec, rest)) h = record {
  bounded = h.bounded;
  promised = h.promised;
  awake = h.awake;
}

step-Sound : (t : Trace) (e : Event) → Sound t.state → Sound (step t e).state
unfolding step try_dequeue
step-Sound t (enqueues rec) h =
    after_enqueue-Sound (record t { asked = t.asked ++ rec ∷ [] }) rec (enqueue t.state rec)
      (enqueue-Sound t.state rec h.bounded (λ b. omega (arith, h.promised b)) h.awake)
step-Sound t (tries_enqueue rec owns) h =
    after_try-Sound t rec (try_enqueue t.state rec owns) (try_enqueue-Sound t.state rec owns h)
step-Sound t (resumes i) h =
    after_resume-Sound t (pick i t.state.resuming) (pick-Picked i t.state.resuming) h
step-Sound t (gives_up i) h = after_cancel-Sound t (pick i t.state.cancelled) h
step-Sound t tries_dequeue h =
    after_dequeue-Sound t (try_dequeue t.state) (pop_front-Sound t.state.queue t.state refl h)
step-Sound t dequeues h =
    after_dequeue-Sound t (dequeue_ready t.state) (dequeue_ready-Sound t.state h)
step-Sound t interrupts h = interrupt_dequeue-Sound t.state h

-- From a sound state, whatever threads do and in whatever order they get the mutex, the queue is never longer than
-- `MaxQueueSizeV`; a thread is blocked in `on_overflow` only while every free place in the queue
-- is promised to a thread that has been woken; and the feeding thread sleeps in `dequeue_ready`
-- only while the queue is empty and no interruption is requested, so no wake-up is lost.
pub run-Sound : (t : Trace) (es : List Event) → Sound t.state → Sound (run t es).state
unfolding run
run-Sound t [] h = h
run-Sound t (e ∷ es) h = run-Sound (step t e) es (step-Sound t e h)
