-- ===== src/SinkQueue/History/Conservation.antt =====
-- The records of a history of the bounded queue: none is lost, doubled or overtaken.
use mathlib.Core.List.{append_assoc}
use log.Prelude.{
  ℕ, ◌+◌, ◌≡◌, refl, sym, ap, ◌∙◌, Bool, true, false, List, [], ◌∷◌, ◌++◌, Option, none, some,
  arith, count, count-append, Bool-cases, inl, inr, leb, ltb, if◌then◌else◌, length,
}
use log.SinkQueue.{
  Strategy, drop_on_overflow, block_on_overflow, BoundedQueue, enqueue, try_enqueue, try_dequeue,
  dequeue_ready, interrupt_dequeue, cancel_all, pop_front, on_overflow, on_queue_space_available,
  take_or_wait,
}
use log.SinkQueue.History.{
  Trace, Event, enqueues, tries_enqueue, resumes, gives_up, tries_dequeue, dequeues, interrupts,
  pick, step, run, after_enqueue, after_try, after_dequeue, after_resume, after_cancel,
}
use log.SinkQueue.History.Invariant.{Picked, pick-Picked}

-- A record's occurrences outside the queue's list and in it, before and after.
abbrev pub places : BoundedQueue → Trace → ℕ → ℕ
places q t a =
    count a t.entered
    + count a q.blocked
    + count a q.resuming
    + count a q.cancelled
    + count a t.discarded

-- First in, first out, with every record that was to be enqueued in one place.
pub record Kept (t : Trace) : Type 0 where
  pub fifo : t.entered ≡ t.left ++ t.state.queue
  pub all_kept : (a : ℕ) → count a t.asked ≡ places t.state t a

-- The same with one record in the hands of a thread that is about to enqueue it into `q`.
record InHand (t : Trace) (q : BoundedQueue) (rec : ℕ) : Type 0 where
  queued : t.entered ≡ t.left ++ q.queue
  all_but_one : (a : ℕ) → count a t.asked ≡ places q t a + count a (rec ∷ [])

-- A record put behind those in the queue.
enter :
    (entered left queue : List ℕ) (rec : ℕ)
    → entered ≡ left ++ queue
    → entered ++ rec ∷ [] ≡ left ++ (queue ++ rec ∷ [])
enter entered left queue rec e = ap (λ l. l ++ rec ∷ []) e ∙ append_assoc left queue (rec ∷ [])

enqueue-Kept :
    (t : Trace) (q : BoundedQueue) (rec : ℕ)
    → InHand t q rec
    → Kept (after_enqueue t rec (enqueue q rec))
unfolding enqueue
enqueue-Kept t q rec h = elim (Bool-cases (leb q.max_size (length q.queue))) [
  | inl full ↦ rw full (go q.strategy)
  | inr space ↦ rw space (record {
    fifo = enter t.entered t.left q.queue rec h.queued;
    all_kept = λ a. omega (arith, h.all_but_one a, count-append a t.entered (rec ∷ []));
  })
]
  where
    go : (strategy : Strategy) → Kept (after_enqueue t rec (on_overflow strategy q rec))
    go drop_on_overflow = record {
      fifo = h.queued;
      all_kept = λ a. omega (arith, h.all_but_one a, count-append a t.discarded (rec ∷ []));
    }
    go block_on_overflow = record {
      fifo = h.queued;
      all_kept = λ a. omega (arith, h.all_but_one a, count-append a q.blocked (rec ∷ []));
    }

-- `try_enqueue` leaves the queue alone or pushes the record.
try_enqueue-Kept :
    (t : Trace) (rec : ℕ) (owns : Bool)
    → Kept t
    → Kept (after_try t rec (try_enqueue t.state rec owns))
unfolding try_enqueue
try_enqueue-Kept t rec false h = record { fifo = h.fifo; all_kept = h.all_kept }
try_enqueue-Kept t rec true h = elim (Bool-cases (ltb (length t.state.queue) t.state.max_size)) [
  | inl space ↦ rw space (record {
    fifo = enter t.entered t.left t.state.queue rec h.fifo;
    all_kept = λ a. omega (
      arith,
      h.all_kept a,
      count-append a t.asked (rec ∷ []),
      count-append a t.entered (rec ∷ []),
    );
  })
  | inr full ↦ rw full (record { fifo = h.fifo; all_kept = h.all_kept })
]

pop_front-Kept :
    (t : Trace) (q : BoundedQueue) (l : List ℕ)
    → q.queue ≡ l
    → t.entered ≡ t.left ++ q.queue
    → ((a : ℕ) → count a t.asked ≡ places q t a)
    → Kept (after_dequeue t (pop_front l q))
pop_front-Kept t q [] e f k = record { fifo = f; all_kept = k }
pop_front-Kept t q (rec ∷ rest) e f k = go q.blocked refl
  where
    moved : t.entered ≡ (t.left ++ rec ∷ []) ++ rest
    moved = f ∙ ap (λ l. t.left ++ l) e ∙ sym (append_assoc t.left (rec ∷ []) rest)

    go :
        (b : List ℕ)
        → q.blocked ≡ b
        → Kept (after_dequeue t (on_queue_space_available b (record q { queue = rest }), some rec))
    go [] g = record { fifo = moved; all_kept = k }
    go (x ∷ xs) g = record {
      fifo = moved;
      all_kept = λ a. omega (arith, k a, ap (count a) g, count-append a q.resuming (x ∷ []));
    }

dequeue_ready-Kept : (t : Trace) → Kept t → Kept (after_dequeue t (dequeue_ready t.state))
unfolding dequeue_ready
dequeue_ready-Kept t h = choose t.state.interruption_requested
  where
    awakened : BoundedQueue
    awakened = record (t.state) { asleep = false }

    go : (l : List ℕ) → t.state.queue ≡ l → Kept (after_dequeue t (take_or_wait l awakened))
    go [] e = record { fifo = h.fifo; all_kept = h.all_kept }
    go (x ∷ xs) e = pop_front-Kept t awakened (x ∷ xs) e h.fifo h.all_kept

    choose :
        (b : Bool)
        → Kept (
            after_dequeue t (
              if b
              then (record (t.state) { interruption_requested = false; asleep = false }, none)
              else take_or_wait t.state.queue awakened))
    choose true = record { fifo = h.fifo; all_kept = h.all_kept }
    choose false = go t.state.queue refl

pub count-cancel_all :
    (a : ℕ) (blocked cancelled : List ℕ)
    → count a (cancel_all blocked cancelled) ≡ count a blocked + count a cancelled
unfolding cancel_all
count-cancel_all a [] cancelled = omega arith
count-cancel_all a (x ∷ xs) cancelled =
    omega (arith, count-cancel_all a xs (cancelled ++ x ∷ []), count-append a cancelled (x ∷ []))

after_resume-Kept :
    (t : Trace) (r : Option (ℕ × List ℕ))
    → Picked t.state.resuming r
    → Kept t
    → Kept (after_resume t r)
after_resume-Kept t none p h = h
after_resume-Kept t (some (rec, rest)) (_, c) h =
    enqueue-Kept t (record (t.state) { resuming = rest }) rec
      (record { queued = h.fifo; all_but_one = λ a. omega (arith, h.all_kept a, c a) })

after_cancel-Kept :
    (t : Trace) (r : Option (ℕ × List ℕ))
    → Picked t.state.cancelled r
    → Kept t
    → Kept (after_cancel t r)
after_cancel-Kept t none p h = h
after_cancel-Kept t (some (rec, rest)) (_, c) h = record {
  fifo = h.fifo;
  all_kept = λ a. omega (arith, h.all_kept a, c a, count-append a t.discarded (rec ∷ []));
}

step-Kept : (t : Trace) (e : Event) → Kept t → Kept (step t e)
unfolding step try_dequeue interrupt_dequeue
step-Kept t (enqueues rec) h =
    enqueue-Kept (record t { asked = t.asked ++ rec ∷ [] }) t.state rec
      (record {
        queued = h.fifo;
        all_but_one = λ a. omega (arith, h.all_kept a, count-append a t.asked (rec ∷ []));
      })
step-Kept t (tries_enqueue rec owns) h = try_enqueue-Kept t rec owns h
step-Kept t (resumes i) h =
    after_resume-Kept t (pick i t.state.resuming) (pick-Picked i t.state.resuming) h
step-Kept t (gives_up i) h =
    after_cancel-Kept t (pick i t.state.cancelled) (pick-Picked i t.state.cancelled) h
step-Kept t tries_dequeue h = pop_front-Kept t t.state t.state.queue refl h.fifo h.all_kept
step-Kept t dequeues h = dequeue_ready-Kept t h
step-Kept t interrupts h = record {
  fifo = h.fifo;
  all_kept = λ a. omega (arith, h.all_kept a, count-cancel_all a t.state.blocked t.state.cancelled);
}

-- Whatever threads do and in whatever order they get the mutex, records leave the queue in the
-- order in which they entered it, and each record that was to be enqueued has entered the queue,
-- is held by a thread in `on_overflow`, or was discarded, exactly as often as it was to be
-- enqueued.
pub run-Kept : (t : Trace) (es : List Event) → Kept t → Kept (run t es)
unfolding run
run-Kept t [] h = h
run-Kept t (e ∷ es) h = run-Kept (step t e) es (step-Kept t e h)
