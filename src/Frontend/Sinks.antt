-- ===== src/Frontend/Sinks.antt =====
-- Synchronous sinks registered in the core: include/boost/log/sinks/sync_frontend.hpp seen through
-- `sinks::sink`, as src/core.cpp uses it.
use log.Prelude.{ℕ, ◌≡◌, refl, ◌≢◌, Bool, true, false, some, if◌then◌else◌, count}
use log.Core.Env.{Env, Reply, returned, thrown, Handler, bind}
use log.Core.Opening.{Private}
use log.Core.Pushing.{State, lock, push_record_move}
use log.Core.Pushing.Quiet.{push_record_move_quiet}
use log.Frontend.{
  Frontend, guarded, will_consume, feed_record, feed_record_unlocked, after_try_lock,
  try_feed_record, flush_backend,
}

-- The handler of the frontend is set and does not throw.
pub record Guarded {W V : Type 0} (f : Frontend W V) : Type 0 where
  pub handler : W → Reply (Unit {0}) × W
  pub is_set : f.exception_handler ≡ some handler
  pub calm : (w : W) → (handler w).0 ≡ returned tt

module _ {W V : Type 0} (f : Frontend W V) (g : Guarded f) where
  bind-calm :
      {A : Type 0} (a : A) (r : Reply (Unit {0}) × W)
      → r.0 ≡ returned tt
      → (bind r (λ _ w. (returned a, w))).0 ≢ thrown
  unfolding bind
  bind-calm a (returned _, w) e = λ h. absurd (cc)
  bind-calm a (thrown, w) e = absurd (cc)

  guarded-calm : {A : Type 0} (a : A) (r : Reply A × W) → (guarded f a r).0 ≢ thrown
  guarded-calm a (returned b, w) = λ h. absurd (cc)
  guarded-calm a (thrown, w) = rw g.is_set (bind-calm a (g.handler w) (g.calm w))

  feed_record-calm : (rec : V) (w : W) → (feed_record f rec w).0 ≢ thrown
  unfolding feed_record
  feed_record-calm rec w = guarded-calm tt _

  try_feed_record-calm : (rec : V) (w : W) → (try_feed_record f rec w).0 ≢ thrown
  unfolding try_feed_record bind feed_record_unlocked
  try_feed_record-calm rec w = go (f.backend_try_lock w)
    where
      fed :
          (r : Reply (Unit {0}) × W)
          → r.0 ≢ thrown
          → (bind r (λ _ w'. (returned true, w'))).0 ≢ thrown
      fed (returned _, w) h = λ e. absurd (cc)
      fed (thrown, w) h = absurd (h refl)

      go : (r : Reply Bool × W) → (after_try_lock f rec r).0 ≢ thrown
      go (returned true, w) = fed (feed_record_unlocked f rec w) (guarded-calm tt _)
      go (returned false, w) = λ e. absurd (cc)
      go (thrown, w) = guarded-calm false (thrown, w)

-- `synchronous_sink` as the core sees it: `consume`, `try_consume` and `flush` feed and flush the
-- backend. It does not pass records between threads.
module _ {W V : Type 0} (sinks : ℕ → Frontend W V) (freeze : V → W → Reply V × W) (detach : V → V)
    (rng : W → ℕ × W) where
  abbrev pub synchronous : Env
  synchronous = record {
    World = W;
    Values = V;
    is_cross_thread = λ _. false;
    will_consume = λ s v w. will_consume (sinks s) v w;
    try_consume = λ s v w. try_feed_record (sinks s) v w;
    consume = λ s v w. feed_record (sinks s) v w;
    flush = λ s w. flush_backend (sinks s) w;
    freeze = freeze;
    detach_from_thread = detach;
    rng = rng;
  }

  -- Synchronous sinks whose frontends have exception handlers that do not throw keep the
  -- exceptions of their backends and locks from the core and from each other: whatever these
  -- throw, `push_record_move` returns, even without a handler in the core, and every accepting
  -- sink that is still alive has been called to a successful end, as often as it is listed, and no
  -- other.
  pub synchronous_served :
      ((s : ℕ) → Guarded (sinks s))
      → (handler : Handler synchronous) (alive : ℕ → Bool) (p : Private synchronous) (w : W)
      → (s : State synchronous) × (push_record_move {env = synchronous} handler alive p w
          ≡ some (returned s))
        × ((a : ℕ) → count a s.delivered ≡ (if alive a then count a p.accepting else 0))
  synchronous_served guards handler alive p w =
      push_record_move_quiet {env = synchronous} handler alive p w
        (λ x w'. try_feed_record-calm (sinks x) (guards x) (lock p).values w')
        (λ x w'. feed_record-calm (sinks x) (guards x) (lock p).values w')
