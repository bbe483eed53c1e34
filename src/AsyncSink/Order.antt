-- ===== src/AsyncSink/Order.antt =====
-- Any history of an asynchronous sink keeps one feeding thread and the order of the records
-- (include/boost/log/sinks/async_frontend.hpp).
use mathlib.Core.Path.{subst}
use mathlib.Core.List.{append-nil}
use log.Prelude.{
  ℕ, zero, suc, ◌+◌, ◌≡◌, refl, ap, ◌∙◌, sym, Bool, true, List, [], ◌∷◌, ◌++◌, Option, none, some,
  ◌⊎◌, inl, inr, Bool-cases, if◌then◌else◌,
}
use log.SinkQueue.History.{Event, enqueues, tries_enqueue, resumes, gives_up, interrupts}
use log.AsyncSink.{
  AsyncSink, Operation, idle, feeding_records, flushing, Loop, once, Feeder, tests_stop, Entry,
  blocking, trying, on_queue, pick_out, consume, try_consume, enter_queue, consume_again,
  start_feeding, start_again, stop, stop_interrupts, flush, flush_again, flush_by, flush_after,
  flush_waits, begin, may_start,
}
use log.AsyncSink.Steps.{
  Moved, advance_feeder, put_back, advance_one, Act, consumes, tries_consume, enters,
  consumes_again, enqueues_again, discards, starts, starts_again, stops, stop_goes_on, flush_begins,
  flush_goes_on, advances, act,
}
use log.AsyncSink.Exclusion.{
  Single, hand, hands, Orderly, Takes, left-step, Kept, advance_feeder-Kept,
}

-- The thread that feeds is the only one in the list.
alone :
    (op : Operation) (fs : List Feeder) (i : ℕ)
    → Single op fs
    → (pick_out i fs ≡ none)
      ⊎ ((f : Feeder) × (pick_out i fs ≡ some (f, [])) × (fs ≡ f ∷ []) × Single op (f ∷ []))
alone op [] i h = inl refl
alone idle (f ∷ fs) i h = absurd h
alone feeding_records (f ∷ []) zero h = inr (f, refl, refl, h)
alone feeding_records (f ∷ []) (suc i) h = inl refl
alone feeding_records (f ∷ g ∷ fs) i h = absurd h
alone flushing (f ∷ []) zero h = inr (f, refl, refl, h)
alone flushing (f ∷ []) (suc i) h = inl refl
alone flushing (f ∷ g ∷ fs) i h = absurd h

Single-other : (op : Operation) (f g : Feeder) → Single op (f ∷ []) → Single op (g ∷ [])
Single-other idle f g h = h
Single-other feeding_records f g h = h
Single-other flushing f g h = h

nobody : (fs : List Feeder) → Single idle fs → fs ≡ []
nobody [] h = refl
nobody (f ∷ fs) h = absurd h

on_queue-Orderly : (s : AsyncSink) (e : Event) → (Takes e → ⊥) → Orderly s → Orderly (on_queue s e)
on_queue-Orderly s e h o = record {
  single = o.single;
  in_order = elim (left-step s.queue e) [ inl t ↦ absurd (h t) | inr k ↦ k ∙ o.in_order ];
}

-- A thread that begins where nobody feeds.
begin-Orderly :
    (s : AsyncSink) (op : Operation) (loop : Loop) (flag : Bool)
    → (Single op (tests_stop loop ∷ []))
    → s.active_operation ≡ idle
    → Orderly s
    → Orderly (record s {
      active_operation = op;
      flush_requested = flag;
      feeders = tests_stop loop ∷ s.feeders;
    })
begin-Orderly s op loop flag h e o = record {
  single =
      let empty : s.feeders ≡ [] = nobody s.feeders (subst (λ a. Single a s.feeders) e o.single) in
      subst (λ fs. Single op (tests_stop loop ∷ fs)) (sym empty) h;
  in_order = o.in_order;
}

start_feeding-Orderly : (s : AsyncSink) (loop : Loop) → Orderly s → Orderly (start_feeding s loop)
unfolding start_feeding
start_feeding-Orderly s loop o = go s.active_operation refl
  where
    go :
        (op : Operation)
        → s.active_operation ≡ op
        → Orderly (begin s loop (may_start op s.stop_requested))
    go idle e = begin-Orderly s feeding_records loop s.flush_requested tt e o
    go feeding_records e = o
    go flushing e = elim (Bool-cases s.stop_requested) [
      | inl c ↦ rw c (record { single = o.single; in_order = o.in_order })
      | inr c ↦ rw c (record { single = o.single; in_order = o.in_order })
    ]

flush_by-Orderly : (s : AsyncSink) → Orderly s → Orderly (flush s)
unfolding flush
flush_by-Orderly s o = go s.active_operation refl
  where
    waiting : AsyncSink
    waiting = record s {
      flush_requested = true;
      blocked_flushes = if s.stop_requested then s.blocked_flushes else s.blocked_flushes + 1;
    }

    waiting-Orderly : Orderly (on_queue waiting interrupts)
    waiting-Orderly =
        on_queue-Orderly waiting interrupts (λ x. x)
          (record { single = o.single; in_order = o.in_order })

    go : (op : Operation) → s.active_operation ≡ op → Orderly (flush_by op s)
    go idle e = begin-Orderly s flushing once true tt e o
    go feeding_records e = waiting-Orderly
    go flushing e = waiting-Orderly

flush_again-Orderly : (s : AsyncSink) (n : ℕ) → Orderly s → Orderly (flush_again s n)
flush_again-Orderly s zero o = o
flush_again-Orderly s (suc n) o = elim (Bool-cases (flush_waits s)) [
  | inl c ↦ rw c o
  | inr c ↦ rw c (go s.active_operation refl)
]
  where
    fewer : AsyncSink
    fewer = record s { blocked_flushes = n }

    fewer-Orderly : Orderly fewer
    fewer-Orderly = record { single = o.single; in_order = o.in_order }

    go : (op : Operation) → s.active_operation ≡ op → Orderly (flush_after op fewer)
    go idle e = begin-Orderly fewer flushing once true tt e fewer-Orderly
    go feeding_records e = fewer-Orderly
    go flushing e = fewer-Orderly

advance_one-Orderly :
    (s : AsyncSink) (i : ℕ) (throws : Bool)
    → Orderly s
    → Orderly (advance_one s throws (pick_out i s.feeders))
advance_one-Orderly s i throws o = elim (alone s.active_operation s.feeders i o.single) [
  | inl h ↦ rw h o
  | inr (f, h, e, one) ↦ rw h (
      go f one
        (o.in_order
          ∙ ap (λ fs. s.delivered ++ hands fs) e
          ∙ ap (λ l. s.delivered ++ l) (append-nil (hand f)))
        (advance_feeder (record s { feeders = [] }) f throws)
        (advance_feeder-Kept (record s { feeders = [] }) f throws))
]
  where
    go :
        (f : Feeder)
        → Single s.active_operation (f ∷ [])
        → s.queue.left ≡ s.delivered ++ hand f
        → (r : Moved) → Kept (record s { feeders = [] }) f r
        → Orderly (put_back r)
    go f one h (s', none) (op, fs, keep) = record {
      single = rw (op, fs) tt;
      in_order = keep h ∙ ap (λ l. s'.delivered ++ hands l) (sym fs);
    }
    go f one h (s', some g) (op, fs, keep) = record {
      single = rw (op, fs) (Single-other s.active_operation f g one);
      in_order = rw fs (keep h ∙ ap (λ l. s'.delivered ++ l) (sym (append-nil (hand g))));
    }

enter_queue-Orderly :
    (s : AsyncSink) (r : Option (Entry × List Entry)) → Orderly s → Orderly (enter_queue s r)
enter_queue-Orderly s none o = o
enter_queue-Orderly s (some (blocking rec, rest)) o =
    on_queue-Orderly (record s { entering = rest }) (enqueues rec) (λ x. x)
      (record { single = o.single; in_order = o.in_order })
enter_queue-Orderly s (some (trying rec owns, rest)) o =
    on_queue-Orderly (record s { entering = rest }) (tries_enqueue rec owns) (λ x. x)
      (record { single = o.single; in_order = o.in_order })

pub act-Orderly : (s : AsyncSink) (a : Act) → Orderly s → Orderly (act s a)
unfolding act consume try_consume stop
act-Orderly s (consumes rec) o = elim (Bool-cases s.flush_requested) [
  | inl c ↦ rw c (record { single = o.single; in_order = o.in_order })
  | inr c ↦ rw c (record { single = o.single; in_order = o.in_order })
]
act-Orderly s (tries_consume rec owns) o = elim (Bool-cases s.flush_requested) [
  | inl c ↦ rw c (record { single = o.single; in_order = o.in_order })
  | inr c ↦ rw c (record { single = o.single; in_order = o.in_order })
]
act-Orderly s (enters i) o = enter_queue-Orderly s (pick_out i s.entering) o
act-Orderly s (consumes_again i) o = go (pick_out i s.blocked_consumers)
  where
    go : (r : Option (ℕ × List ℕ)) → Orderly (consume_again s r)
    go none = o
    go (some (rec, rest)) = elim (Bool-cases s.flush_requested) [
      | inl c ↦ rw c (record { single = o.single; in_order = o.in_order })
      | inr c ↦ rw c (record { single = o.single; in_order = o.in_order })
    ]
act-Orderly s (enqueues_again i) o = on_queue-Orderly s (resumes i) (λ x. x) o
act-Orderly s (discards i) o = on_queue-Orderly s (gives_up i) (λ x. x) o
act-Orderly s (starts loop) o = start_feeding-Orderly s loop o
act-Orderly s (starts_again i) o = go (pick_out i s.blocked_starts)
  where
    go : (r : Option (Loop × List Loop)) → Orderly (start_again s r)
    go none = o
    go (some (loop, rest)) =
        start_feeding-Orderly (record s { blocked_starts = rest }) loop
          (record { single = o.single; in_order = o.in_order })
act-Orderly s stops o = record { single = o.single; in_order = o.in_order }
act-Orderly s stop_goes_on o = go s.stopping
  where
    go : (n : ℕ) → Orderly (stop_interrupts s n)
    go zero = o
    go (suc n) =
        on_queue-Orderly (record s { stopping = n }) interrupts (λ x. x)
          (record { single = o.single; in_order = o.in_order })
act-Orderly s flush_begins o = flush_by-Orderly s o
act-Orderly s flush_goes_on o = flush_again-Orderly s s.blocked_flushes o
act-Orderly s (advances i throws) o = advance_one-Orderly s i throws o
