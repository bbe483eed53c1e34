-- ===== src/AsyncSink/Exclusion.antt =====
-- At most one thread feeds at a time, so that records reach the backend in the order in which they
-- leave the queue (include/boost/log/sinks/async_frontend.hpp).
use mathlib.Core.List.{append-nil}
use log.Prelude.{
  ℕ, ◌≡◌, refl, ap, ◌∙◌, sym, Bool, true, false, List, [], ◌∷◌, ◌++◌, Option, none, some, ◌⊎◌, inl,
  inr, Bool-cases,
}
use log.SinkQueue.{BoundedQueue, Fate, enqueued, dropped, blocks, try_dequeue, dequeue_ready}
use log.SinkQueue.History.{
  Trace, Event, enqueues, tries_enqueue, resumes, gives_up, tries_dequeue, dequeues, interrupts,
  after_enqueue, after_try, after_dequeue, after_resume, after_cancel, step, pick,
}
use log.AsyncSink.{
  AsyncSink, Operation, idle, feeding_records, flushing, runs, once, Feeder, tests_stop,
  reads_flush, dequeues_record, feeds, tests_flush, flushes, clears_flag, fed, waits, completes,
}
use log.AsyncSink.Steps.{Moved, got, got_ready, advance_feeder}

-- No thread where the operation is `idle`, and one otherwise.
abbrev pub Single : Operation → List Feeder → Type 0
Single idle [] = Unit {0}
Single idle (f ∷ fs) = ⊥
Single feeding_records [] = ⊥
Single feeding_records (f ∷ []) = Unit {0}
Single feeding_records (f ∷ g ∷ fs) = ⊥
Single flushing [] = ⊥
Single flushing (f ∷ []) = Unit {0}
Single flushing (f ∷ g ∷ fs) = ⊥

-- The record that a thread has taken and not yet passed on.
abbrev pub hand : Feeder → List ℕ
hand (feeds loop rec) = rec ∷ []
hand _ = []

abbrev pub hands : List Feeder → List ℕ
hands [] = []
hands (f ∷ fs) = hand f ++ hands fs

pub record Orderly (s : AsyncSink) : Type 0 where
  pub single : Single s.active_operation s.feeders
  pub in_order : s.queue.left ≡ s.delivered ++ hands s.feeders

-- Only the dequeuing operations take a record out.
left-after_enqueue :
    (t : Trace) (rec : ℕ) (r : BoundedQueue × Fate) → (after_enqueue t rec r).left ≡ t.left
left-after_enqueue t rec (q, enqueued) = refl
left-after_enqueue t rec (q, dropped) = refl
left-after_enqueue t rec (q, blocks) = refl

left-after_try : (t : Trace) (rec : ℕ) (r : BoundedQueue × Bool) → (after_try t rec r).left ≡ t.left
left-after_try t rec (q, true) = refl
left-after_try t rec (q, false) = refl

abbrev pub Takes : Event → Type 0
Takes tries_dequeue = Unit {0}
Takes dequeues = Unit {0}
Takes _ = ⊥

pub left-step : (t : Trace) (e : Event) → Takes e ⊎ ((step t e).left ≡ t.left)
unfolding step
left-step t (enqueues rec) =
    inr (left-after_enqueue (record t { asked = t.asked ++ rec ∷ [] }) rec _)
left-step t (tries_enqueue rec owns) = inr (left-after_try t rec _)
left-step t (resumes i) = inr (go (pick i t.state.resuming))
  where
    go : (o : Option (ℕ × List ℕ)) → (after_resume t o).left ≡ t.left
    go none = refl
    go (some (rec, rest)) =
        left-after_enqueue (record t { state = record (t.state) { resuming = rest } }) rec _
left-step t (gives_up i) = inr (go (pick i t.state.cancelled))
  where
    go : (o : Option (ℕ × List ℕ)) → (after_cancel t o).left ≡ t.left
    go none = refl
    go (some (rec, rest)) = refl
left-step t tries_dequeue = inl tt
left-step t dequeues = inl tt
left-step t interrupts = inr refl

abbrev pub as_list : Option ℕ → List ℕ
as_list none = []
as_list (some rec) = rec ∷ []

left-after_dequeue :
    (t : Trace) (r : BoundedQueue × Option ℕ) → (after_dequeue t r).left ≡ t.left ++ as_list r.1
left-after_dequeue t (q, none) = sym (append-nil t.left)
left-after_dequeue t (q, some rec) = refl

-- A step of the thread that feeds, which keeps the order of the records.
abbrev pub hands_of : Option Feeder → List ℕ
hands_of none = []
hands_of (some f) = hand f

abbrev pub operation_of : Operation → Option Feeder → Operation
operation_of op none = idle
operation_of op (some f) = op

abbrev pub Kept : AsyncSink → Feeder → Moved → Type 0
Kept s f (s', o) =
    (s'.active_operation ≡ operation_of s.active_operation o)
    × (s'.feeders ≡ s.feeders)
    × (s.queue.left ≡ s.delivered ++ hand f → s'.queue.left ≡ s'.delivered ++ hands_of o)

pub advance_feeder-Kept :
    (s : AsyncSink) (f : Feeder) (throws : Bool) → Kept s f (advance_feeder s f throws)
unfolding advance_feeder step
advance_feeder-Kept s (tests_stop loop) throws = elim (Bool-cases s.stop_requested) [
  | inl c ↦ rw c (refl, refl, λ h. h)
  | inr c ↦ rw c (refl, refl, λ h. h)
]
advance_feeder-Kept s (reads_flush loop) throws = (refl, refl, λ h. h)
advance_feeder-Kept s (dequeues_record loop b) throws = go (try_dequeue s.queue.state)
  where
    go :
        (r : BoundedQueue × Option ℕ)
        → Kept s
            (dequeues_record loop b)
            (got (record s { queue = after_dequeue s.queue r }) loop r.1)
    go (q, none) = (refl, refl, λ h. h)
    go (q, some rec) = (refl, refl, λ h. ap (λ l. l ++ rec ∷ []) (h ∙ append-nil s.delivered))
advance_feeder-Kept s (feeds loop rec) throws =
    let end : s.delivered ++ rec ∷ [] ≡ (s.delivered ++ rec ∷ []) ++ [] =
      sym (append-nil (s.delivered ++ rec ∷ [])) in
    elim (Bool-cases throws) [
      | inl c ↦ rw c (refl, refl, λ h. h ∙ end)
      | inr c ↦ rw c (refl, refl, λ h. h ∙ end)
    ]
advance_feeder-Kept s (tests_flush loop) throws = elim (Bool-cases s.flush_requested) [
  | inl c ↦ rw c (refl, refl, λ h. h)
  | inr c ↦ rw c (refl, refl, λ h. h)
]
advance_feeder-Kept s (flushes loop) throws = (refl, refl, λ h. h)
advance_feeder-Kept s (clears_flag loop thrown) throws = elim (Bool-cases thrown) [
  | inl c ↦ rw c (refl, refl, λ h. h)
  | inr c ↦ rw c (refl, refl, λ h. h)
]
advance_feeder-Kept s (fed once) throws = (refl, refl, λ h. h)
advance_feeder-Kept s (fed runs) throws = elim (Bool-cases s.stop_requested) [
  | inl c ↦ rw c (refl, refl, λ h. h)
  | inr c ↦ rw c (refl, refl, λ h. h)
]
advance_feeder-Kept s waits throws = go (dequeue_ready s.queue.state)
  where
    go :
        (r : BoundedQueue × Option ℕ)
        → Kept s waits (got_ready (record s { queue = after_dequeue s.queue r }) r.1)
    go (q, none) = elim (Bool-cases q.asleep) [
      | inl c ↦ rw c (refl, refl, λ h. h)
      | inr c ↦ rw c (refl, refl, λ h. h)
    ]
    go (q, some rec) = (refl, refl, λ h. ap (λ l. l ++ rec ∷ []) (h ∙ append-nil s.delivered))
advance_feeder-Kept s completes throws = (refl, refl, λ h. h)
