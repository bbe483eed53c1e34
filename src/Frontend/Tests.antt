-- ===== src/Frontend/Tests.antt =====
-- Runs of synchronous sinks, and an example of their theorem.
use log.Prelude.{ℕ, ◌+◌, ◌≡◌, refl, true, false, [], ◌∷◌, none, some, ◌==◌, if◌then◌else◌, count}
use log.Core.Env.{Env, returned, thrown, bind}
use log.Core.Opening.{Private}
use log.Core.Pushing.{State, push_record_move}
use log.Frontend.{
  Frontend, set_filter, reset_filter, set_exception_handler, reset_exception_handler, will_consume,
  feed_record, feed_record_unlocked, try_feed_record, flush_backend,
}
use log.Frontend.Sinks.{synchronous, synchronous_served}

-- The world counts calls. The backend of sink 3 throws; the filters throw.
abbrev sinks : ℕ → Frontend ℕ ℕ
sinks s = record {
  filter = λ v w. (thrown, w);
  exception_handler = some (λ w. (returned tt, w + 10));
  flushes = true;
  backend_consume = λ v w. (if s == 3 then thrown else returned tt, w + 1);
  backend_flush = λ w. (returned tt, w + 1);
  backend_lock = λ w. (returned tt, w);
  backend_try_lock = λ w. (returned true, w);
}

abbrev env : Env
env = synchronous sinks (λ v w. (returned v, w)) (λ v. v) (λ w. (w, w))

abbrev opened : Private env
opened = record {
  values = 5;
  accepting = 1 ∷ 3 ∷ [];
  capacity = 2;
  detach_needed = false;
  overrun = false;
}

calls :
    (try_feed_record (sinks 1) 5 0 ≡ (returned true, 1))
    × (try_feed_record (sinks 3) 5 0 ≡ (returned true, 11))
    × (feed_record (sinks 3) 5 0 ≡ (returned tt, 11))
    × (feed_record (reset_exception_handler (sinks 3)) 5 0 ≡ (thrown, 1))
    × (will_consume (sinks 1) 5 0 ≡ (returned false, 10))
    × (will_consume (reset_filter (sinks 1)) 5 0 ≡ (returned true, 0))
    × (will_consume (set_filter (sinks 1) (λ v w. (returned false, w))) 5 0 ≡ (returned false, 0))
    × (will_consume (set_exception_handler (sinks 1) (λ w. (thrown, w))) 5 0 ≡ (thrown, 0))
    × (flush_backend (sinks 1) 0 ≡ (returned tt, 1))
unfolding try_feed_record feed_record feed_record_unlocked will_consume flush_backend
    reset_exception_handler reset_filter set_filter set_exception_handler bind
calls = (refl, refl, refl, refl, refl, refl, refl, refl, refl)

synchronous_served_example :
    (s : State env) × (push_record_move {env = env} none (λ _. true) opened 0 ≡ some (returned s))
    × ((a : ℕ) → count a s.delivered ≡ (if true then count a opened.accepting else 0))
synchronous_served_example =
    synchronous_served sinks (λ v w. (returned v, w)) (λ v. v) (λ w. (w, w))
      (λ s. record { handler = λ w. (returned tt, w + 10); is_set = refl; calm = λ w. refl }) none
      (λ _. true) opened 0
