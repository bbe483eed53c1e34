-- ===== src/AsyncSink/Stranding.antt =====
-- A request to flush that the feeding thread leaves behind
-- (include/boost/log/sinks/async_frontend.hpp).
use mathlib.Core.Path.{subst}
use mathlib.Core.List.{append_assoc, append-nil}
use log.Prelude.{
  ℕ, zero, suc, ◌≡◌, refl, ap, ◌∙◌, sym, true, false, List, [], ◌∷◌, ◌++◌, Option, none, some,
  if◌then◌else◌,
}
use log.SinkQueue.History.{Event, enqueues, tries_enqueue, resumes, gives_up, interrupts}
use log.AsyncSink.{
  AsyncSink, Entry, blocking, trying, pick_out, on_queue, consume, try_consume, enter_queue,
  consume_again, stop_interrupts, flush_again, flush_waits, flush_after,
}
use log.AsyncSink.Steps.{
  Act, consumes, tries_consume, enters, consumes_again, enqueues_again, discards, starts,
  starts_again, stops, stop_goes_on, flush_begins, flush_goes_on, advances, act, act_all,
  advance_one,
}

-- Nobody feeds, and a flush is requested.
pub record Stranded (s : AsyncSink) : Type 0 where
  pub nobody : s.feeders ≡ []
  pub not_stopped : s.stop_requested ≡ false
  pub requested : s.flush_requested ≡ true

-- Steps other than the calls of `run`, `feed_records`, `flush` and `stop`, and than going on with
-- the first two.
abbrev pub Passive : Act → Type 0
Passive (starts loop) = ⊥
Passive (starts_again i) = ⊥
Passive stops = ⊥
Passive flush_begins = ⊥
Passive _ = Unit {0}

abbrev pub AllPassive : List Act → Type 0
AllPassive [] = Unit {0}
AllPassive (a ∷ acts) = Passive a × AllPassive acts

-- Nobody's wait ends, and nothing reaches the backend.
pub record Stuck (s s' : AsyncSink) : Type 0 where
  pub flushes_wait : s'.blocked_flushes ≡ s.blocked_flushes
  pub consumers_wait : (more : List ℕ) × (s'.blocked_consumers ≡ s.blocked_consumers ++ more)
  pub same_delivered : s'.delivered ≡ s.delivered

stay : (s : AsyncSink) → Stuck s s
stay s = record {
  flushes_wait = refl;
  consumers_wait = ([], sym (append-nil s.blocked_consumers));
  same_delivered = refl;
}

Stuck-trans : (s t u : AsyncSink) → Stuck s t → Stuck t u → Stuck s u
Stuck-trans s t u a b =
    let (m, e) = a.consumers_wait in
    let (n, f) = b.consumers_wait in
    record {
      flushes_wait = b.flushes_wait ∙ a.flushes_wait;
      consumers_wait = (m ++ n, f ∙ ap (λ l. l ++ n) e ∙ append_assoc s.blocked_consumers m n);
      same_delivered = b.same_delivered ∙ a.same_delivered;
    }

abbrev Stays : AsyncSink → AsyncSink → Type 0
Stays s s' = Stranded s' × Stuck s s'

on_queue-Stays :
    (s : AsyncSink) (left : List Entry) (n : ℕ) (e : Event)
    → Stranded s
    → Stays s (on_queue (record s { entering = left; stopping = n }) e)
on_queue-Stays s left n e h = (
  record { nobody = h.nobody; not_stopped = h.not_stopped; requested = h.requested },
  record {
    flushes_wait = refl;
    consumers_wait = ([], sym (append-nil s.blocked_consumers));
    same_delivered = refl;
  },
)

enter_queue-Stays :
    (s : AsyncSink) (r : Option (Entry × List Entry)) → Stranded s → Stays s (enter_queue s r)
enter_queue-Stays s none h = (h, stay s)
enter_queue-Stays s (some (blocking rec, rest)) h =
    on_queue-Stays s rest s.stopping (enqueues rec) h
enter_queue-Stays s (some (trying rec owns, rest)) h =
    on_queue-Stays s rest s.stopping (tries_enqueue rec owns) h

act-Stays : (s : AsyncSink) (a : Act) → Passive a → Stranded s → Stays s (act s a)
unfolding act consume try_consume
act-Stays s (consumes rec) p h =
    subst
      (λ b. Stays s (
        if b
        then record s { blocked_consumers = s.blocked_consumers ++ rec ∷ [] }
        else record s { entering = s.entering ++ blocking rec ∷ [] }))
      (sym h.requested)
      (
        record { nobody = h.nobody; not_stopped = h.not_stopped; requested = h.requested },
        record { flushes_wait = refl; consumers_wait = (rec ∷ [], refl); same_delivered = refl },
      )
act-Stays s (tries_consume rec owns) p h =
    subst
      (λ b. Stays s (if b then s else record s { entering = s.entering ++ trying rec owns ∷ [] }))
      (sym h.requested) (h, stay s)
act-Stays s (enters i) p h = enter_queue-Stays s (pick_out i s.entering) h
act-Stays s (consumes_again i) p h = go (pick_out i s.blocked_consumers)
  where
    go : (r : Option (ℕ × List ℕ)) → Stays s (consume_again s r)
    go none = (h, stay s)
    go (some (rec, rest)) =
        subst
          (λ b. Stays s (
            if b
            then s
            else record s { blocked_consumers = rest; entering = s.entering ++ blocking rec ∷ [] }))
          (sym h.requested) (h, stay s)
act-Stays s (enqueues_again i) p h = on_queue-Stays s s.entering s.stopping (resumes i) h
act-Stays s (discards i) p h = on_queue-Stays s s.entering s.stopping (gives_up i) h
act-Stays s (starts loop) p h = absurd p
act-Stays s (starts_again i) p h = absurd p
act-Stays s stops p h = absurd p
act-Stays s stop_goes_on p h = go s.stopping
  where
    go : (n : ℕ) → Stays s (stop_interrupts s n)
    go zero = (h, stay s)
    go (suc n) = on_queue-Stays s s.entering n interrupts h
act-Stays s flush_begins p h = absurd p
act-Stays s flush_goes_on p h = go s.blocked_flushes
  where
    waiting : flush_waits s ≡ true
    waiting = ap (λ b. if b then false else s.flush_requested) h.not_stopped ∙ h.requested

    go : (n : ℕ) → Stays s (flush_again s n)
    go zero = (h, stay s)
    go (suc n) =
        subst
          (λ b.
            Stays s
              (if b then s else flush_after s.active_operation (record s { blocked_flushes = n })))
          (sym waiting) (h, stay s)
act-Stays s (advances i throws) p h =
    subst (λ fs. Stays s (advance_one s throws (pick_out i fs))) (sym h.nobody) (h, stay s)

-- Once nobody feeds while a flush is requested and no stop is, then until `run`, `feed_records`,
-- `flush` or `stop` is called or goes on: a thread that waits in `flush` or `consume` is never let go,
-- however often it is woken, and nothing reaches the backend.
pub act_all-Stuck :
    (s : AsyncSink) (acts : List Act)
    → Stranded s
    → AllPassive acts
    → Stranded (act_all s acts) × Stuck s (act_all s acts)
act_all-Stuck s [] h p = (h, stay s)
act_all-Stuck s (a ∷ acts) h (p, ps) =
    let (h', x) = act-Stays s a p h in
    let (h'', y) = act_all-Stuck (act s a) acts h' ps in (h'', Stuck-trans s (act s a) _ x y)
