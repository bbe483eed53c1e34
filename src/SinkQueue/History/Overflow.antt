-- ===== src/SinkQueue/History/Overflow.antt =====
-- What the two strategies do with records that find the queue full.
use log.Prelude.{
  ℕ, ◌≡◌, refl, Bool, true, false, List, [], ◌∷◌, ◌++◌, Option, none, some, Bool-cases, inl, inr,
  leb, ltb, if◌then◌else◌, length,
}
use log.SinkQueue.{
  Strategy, drop_on_overflow, block_on_overflow, BoundedQueue, enqueue, try_enqueue, try_dequeue,
  dequeue_ready, pop_front, on_overflow, on_queue_space_available, take_or_wait,
}
use log.SinkQueue.History.{
  Trace, Event, enqueues, tries_enqueue, resumes, gives_up, tries_dequeue, dequeues, interrupts,
  pick, step, run, after_enqueue, after_try, after_dequeue, after_resume, after_cancel,
}

abbrev pub Uninterrupted : List Event → Type 0
Uninterrupted [] = Unit {0}
Uninterrupted (interrupts ∷ es) = ⊥
Uninterrupted (_ ∷ es) = Uninterrupted es

-- A blocking queue where nobody has been cancelled and nothing discarded.
pub record Patient (t : Trace) : Type 0 where
  pub blocking : t.state.strategy ≡ block_on_overflow
  pub none_cancelled : t.state.cancelled ≡ []
  pub none_discarded : t.discarded ≡ []

-- What is left of a queue by an operation that cancels nobody.
unfoldable pub Same : BoundedQueue → BoundedQueue → Type 0
Same q r = (r.strategy ≡ q.strategy) × (r.cancelled ≡ q.cancelled)

enqueue-Patient :
    (t : Trace) (q : BoundedQueue) (rec : ℕ)
    → q.strategy ≡ block_on_overflow
    → q.cancelled ≡ []
    → t.discarded ≡ []
    → Patient (after_enqueue t rec (enqueue q rec))
unfolding enqueue
enqueue-Patient t q rec b c d = elim (Bool-cases (leb q.max_size (length q.queue))) [
  | inl full ↦ rw full (go q.strategy b)
  | inr space ↦ rw space (record { blocking = b; none_cancelled = c; none_discarded = d })
]
  where
    go :
        (s : Strategy) → s ≡ block_on_overflow → Patient (after_enqueue t rec (on_overflow s q rec))
    go drop_on_overflow e = absurd (cc)
    go block_on_overflow e = record { blocking = b; none_cancelled = c; none_discarded = d }

try_enqueue-Patient :
    (t : Trace) (rec : ℕ) (owns : Bool)
    → Patient t
    → Patient (after_try t rec (try_enqueue t.state rec owns))
unfolding try_enqueue
try_enqueue-Patient t rec false h = record {
  blocking = h.blocking;
  none_cancelled = h.none_cancelled;
  none_discarded = h.none_discarded;
}
try_enqueue-Patient t rec true h = elim (Bool-cases (ltb (length t.state.queue) t.state.max_size)) [
  | inl space ↦ rw space (record {
    blocking = h.blocking;
    none_cancelled = h.none_cancelled;
    none_discarded = h.none_discarded;
  })
  | inr full ↦ rw full (record {
    blocking = h.blocking;
    none_cancelled = h.none_cancelled;
    none_discarded = h.none_discarded;
  })
]

after_dequeue-Patient :
    (t : Trace) (r : BoundedQueue × Option ℕ)
    → Same t.state r.0
    → Patient t
    → Patient (after_dequeue t r)
unfolding Same
after_dequeue-Patient t (q, none) (a, b) h = record {
  blocking = cc;
  none_cancelled = cc;
  none_discarded = h.none_discarded;
}
after_dequeue-Patient t (q, some rec) (a, b) h = record {
  blocking = cc;
  none_cancelled = cc;
  none_discarded = h.none_discarded;
}

pub pop_front-Same : (l : List ℕ) (q : BoundedQueue) → Same q (pop_front l q).0
unfolding Same
pop_front-Same [] q = (refl, refl)
pop_front-Same (rec ∷ rest) q = go q.blocked
  where
    go : (b : List ℕ) → Same q (on_queue_space_available b (record q { queue = rest }))
    go [] = (refl, refl)
    go (x ∷ xs) = (refl, refl)

pub dequeue_ready-Same : (q : BoundedQueue) → Same q (dequeue_ready q).0
unfolding dequeue_ready Same
dequeue_ready-Same q = choose q.interruption_requested
  where
    awakened : BoundedQueue
    awakened = record q { asleep = false }

    go : (l : List ℕ) → Same q (take_or_wait l awakened).0
    go [] = (refl, refl)
    go (x ∷ xs) = pop_front-Same (x ∷ xs) awakened

    choose :
        (b : Bool)
        → Same q
            (if b
              then (record q { interruption_requested = false; asleep = false }, none)
              else take_or_wait q.queue awakened).0
    choose true = (refl, refl)
    choose false = go q.queue

step-Patient : (t : Trace) (e : Event) → Uninterrupted (e ∷ []) → Patient t → Patient (step t e)
unfolding step try_dequeue pick
step-Patient t (enqueues rec) u h =
    enqueue-Patient (record t { asked = t.asked ++ rec ∷ [] }) t.state rec h.blocking
      h.none_cancelled h.none_discarded
step-Patient t (tries_enqueue rec owns) u h = try_enqueue-Patient t rec owns h
step-Patient t (resumes i) u h = go (pick i t.state.resuming)
  where
    go : (r : Option (ℕ × List ℕ)) → Patient (after_resume t r)
    go none = h
    go (some (rec, rest)) =
        enqueue-Patient t (record (t.state) { resuming = rest }) rec h.blocking h.none_cancelled
          h.none_discarded
step-Patient t (gives_up i) u h = go t.state.cancelled h.none_cancelled
  where
    go : (l : List ℕ) → l ≡ [] → Patient (after_cancel t (pick i l))
    go [] e = h
    go (x ∷ xs) e = absurd (cc)
step-Patient t tries_dequeue u h =
    after_dequeue-Patient t (try_dequeue t.state) (pop_front-Same t.state.queue t.state) h
step-Patient t dequeues u h =
    after_dequeue-Patient t (dequeue_ready t.state) (dequeue_ready-Same t.state) h
step-Patient t interrupts u h = absurd u

-- With `block_on_overflow`, and with no thread cancelled and nothing discarded so far, no record
-- is discarded while nobody calls `interrupt_dequeue`,
-- however full the queue is.
pub run-Patient : (t : Trace) (es : List Event) → Uninterrupted es → Patient t → Patient (run t es)
unfolding run
run-Patient t [] u h = h
run-Patient t (e ∷ es) u h =
    run-Patient (step t e) es (later e es u) (step-Patient t e (first e es u) h)
  where
    later : (e : Event) (es : List Event) → Uninterrupted (e ∷ es) → Uninterrupted es
    later (enqueues rec) es u = u
    later (tries_enqueue rec owns) es u = u
    later (resumes i) es u = u
    later (gives_up i) es u = u
    later tries_dequeue es u = u
    later dequeues es u = u
    later interrupts es u = absurd u

    first : (e : Event) (es : List Event) → Uninterrupted (e ∷ es) → Uninterrupted (e ∷ [])
    first (enqueues rec) es u = tt
    first (tries_enqueue rec owns) es u = tt
    first (resumes i) es u = tt
    first (gives_up i) es u = tt
    first tries_dequeue es u = tt
    first dequeues es u = tt
    first interrupts es u = u
