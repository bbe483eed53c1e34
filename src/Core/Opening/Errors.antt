-- ===== src/Core/Opening/Errors.antt =====
-- Exceptions of filters, sinks and attribute values while a record is opened.
use log.Prelude.{ℕ, ◌≡◌, refl, ap, ◌≢◌, Bool, false, List, [], ◌∷◌, Option, none, arith, length}
use log.Core.Env.{Env, Reply, returned, thrown, Handler, handle, bind}
use log.Core.Sinks.{Core}
use log.Core.Opening.{
  Private, current, apply_sink_filter, filter_sinks, freeze_values, targets, settle, ask_sinks,
  attempt, caught, open_record, failed,
}

-- The handler is set and does not throw.
abbrev pub Calm : (env : Env) → Handler env → Type 0
Calm env handler = (w : env.World) → (handle env handler w).0 ≡ returned tt

module _ {env : Env} where
  module _ (handler : Handler env) (calm : Calm env handler) where
    one_calm :
        (s : ℕ) (impl : Option (Private env)) (v : env.Values) (n : ℕ) (w : env.World)
        → (apply_sink_filter handler s impl v n w).0 ≢ thrown
    unfolding apply_sink_filter
    one_calm s impl v n w = ground (arith, calm (env.will_consume s (current impl v) w).1)

    loop_calm :
        (ss : List ℕ) (impl : Option (Private env)) (v : env.Values) (w : env.World)
        → (filter_sinks handler ss impl v w).0 ≢ thrown
    unfolding filter_sinks bind
    loop_calm [] impl v w = λ e. cc
    loop_calm (s ∷ ss) impl v w =
        go (λ mid w'. loop_calm ss mid v w')
          (apply_sink_filter handler s impl v (length (s ∷ ss)) w) refl
      where
        go :
            ((mid : Option (Private env)) (w' : env.World)
              → (filter_sinks handler ss mid v w').0 ≢ thrown)
            → (r : Reply (Option (Private env)) × env.World)
            → apply_sink_filter handler s impl v (length (s ∷ ss)) w ≡ r
            → (filter_sinks handler (s ∷ ss) impl v w).0 ≢ thrown
        go rest (returned mid, w') f = rw f (rest mid w')
        go rest (thrown, w') f = absurd (one_calm s impl v (length (s ∷ ss)) w (ap (λ p. p.0) f))

  module _ {G : Type 0} (c : Core env G) (calm : Calm env c.exception_handler) where
    ask_calm : (v : env.Values) (w : env.World) → (ask_sinks c v w).0 ≢ failed false
    unfolding ask_sinks settle freeze_values
    ask_calm v w =
        ground (arith, loop_calm c.exception_handler calm (targets c.sinks c.default_sink) none v w)

    -- With an exception handler that does not throw, `open_record` never lets an exception out,
    -- whatever the filters, the sinks and the attribute values throw.
    pub open_record_calm :
        (v : env.Values) (still : Bool) (w : env.World) → (open_record c v still w).0 ≢ thrown
    unfolding open_record caught attempt
    open_record_calm v still w =
        ground (arith, ask_calm v (c.filter v w).1, calm (attempt c v still w).1)
