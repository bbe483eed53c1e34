-- ===== src/Frontend.antt =====
-- Sink frontends: include/boost/log/sinks/basic_sink_frontend.hpp and sync_frontend.hpp.
--
-- A backend, a filter and an exception handler are functions on a world that may throw; so may
-- locking the backend's mutex. A lock that is held only within one call is not a state.
pub mod Sinks
mod Tests
use log.Prelude.{ℕ, Bool, true, false, Option, none, some, if◌then◌else◌}
use log.Core.Env.{Reply, returned, thrown, bind}

-- `basic_sink_frontend` with the backend of `synchronous_sink`. `flushes` is
-- `has_requirement< frontend_requirements, flushing >`.
pub record Frontend (W V : Type 0) : Type 0 where
  pub filter : V → W → Reply Bool × W
  pub exception_handler : Option (W → Reply (Unit {0}) × W)
  pub flushes : Bool
  pub backend_consume : V → W → Reply (Unit {0}) × W
  pub backend_flush : W → Reply (Unit {0}) × W
  pub backend_lock : W → Reply (Unit {0}) × W
  pub backend_try_lock : W → Reply Bool × W

-- `if (m_ExceptionHandler.empty()) throw; m_ExceptionHandler();`, and what is returned then.
abbrev pub handled : {W A : Type 0} → Option (W → Reply (Unit {0}) × W) → A → W → Reply A × W
handled none a w = (thrown, w)
handled (some handler) a w = bind (handler w) (λ _ w'. (returned a, w'))

module _ {W V : Type 0} where
  pub set_filter : Frontend W V → (V → W → Reply Bool × W) → Frontend W V
  set_filter f filter = record f { filter = filter }

  -- An empty filter passes all values.
  pub reset_filter : Frontend W V → Frontend W V
  reset_filter f = record f { filter = λ v w. (returned true, w) }

  pub set_exception_handler : Frontend W V → (W → Reply (Unit {0}) × W) → Frontend W V
  set_exception_handler f handler = record f { exception_handler = some handler }

  pub reset_exception_handler : Frontend W V → Frontend W V
  reset_exception_handler f = record f { exception_handler = none }

  -- A `try` block with its `catch (...)` block.
  abbrev pub guarded : {A : Type 0} → Frontend W V → A → Reply A × W → Reply A × W
  guarded f a (returned b, w) = (returned b, w)
  guarded f a (thrown, w) = handled f.exception_handler a w

  unfoldable pub will_consume : Frontend W V → V → W → Reply Bool × W
  will_consume f v w = guarded f false (f.filter v w)

  -- `feed_record` with the backend's mutex, and with a `fake_mutex`.
  unfoldable pub feed_record : Frontend W V → V → W → Reply (Unit {0}) × W
  feed_record f rec w = guarded f tt (bind (f.backend_lock w) (λ _ w'. f.backend_consume rec w'))

  unfoldable pub feed_record_unlocked : Frontend W V → V → W → Reply (Unit {0}) × W
  feed_record_unlocked f rec w = guarded f tt (f.backend_consume rec w)

  -- What follows `try_lock`, which has given `true`, or `false`, or has thrown.
  abbrev pub after_try_lock : Frontend W V → V → Reply Bool × W → Reply Bool × W
  after_try_lock f rec (returned true, w) =
      bind (feed_record_unlocked f rec w) (λ _ w'. (returned true, w'))
  after_try_lock f rec (returned false, w) = (returned false, w)
  after_try_lock f rec (thrown, w) = guarded f false (thrown, w)

  unfoldable pub try_feed_record : Frontend W V → V → W → Reply Bool × W
  try_feed_record f rec w = after_try_lock f rec (f.backend_try_lock w)

  unfoldable pub flush_backend : Frontend W V → W → Reply (Unit {0}) × W
  flush_backend f w =
      if f.flushes
      then guarded f tt (bind (f.backend_lock w) (λ _ w'. f.backend_flush w'))
      else (returned tt, w)
