-- ===== src/Core/Opening/Acceptance.antt =====
-- Which sinks a record is opened for, and that their list fits the memory allocated for it.
use mathlib.Core.List.{append-nil, append_assoc}
use log.Prelude.{
  ℕ, suc, ◌+◌, ◌≤◌, ◌<◌, ◌≡◌, refl, sym, ap, ◌∙◌, Bool, true, false, List, [], ◌∷◌, ◌++◌, Option,
  none, some, arith, ◌||◌, length, length-append, inl, inr, ◌⊎◌,
}
use log.Core.Env.{Env, Reply, returned, thrown, Handler, bind}
use log.Core.Sinks.{Core}
use log.Core.Opening.{
  Private, accept, apply_sink_filter, filter_sinks, freeze_values, targets, settle, ask_sinks,
  attempt, caught, open_record, Attempt, done, failed,
}

-- `xs` is `ys` with some items left out.
pub data Within : List ℕ → List ℕ → Type 0 where
  none_left : Within [] []
  keep : {xs ys : List ℕ} (x : ℕ) → Within xs ys → Within (x ∷ xs) (x ∷ ys)
  drop : {xs ys : List ℕ} (x : ℕ) → Within xs ys → Within xs (x ∷ ys)

-- Whether a sink of the list passes records between threads.
abbrev pub any_cross : (env : Env) → List ℕ → Bool
any_cross env [] = false
any_cross env (s ∷ ss) = env.is_cross_thread s || any_cross env ss

any_cross-append :
    (env : Env) (xs : List ℕ) (s : ℕ)
    → any_cross env (xs ++ s ∷ []) ≡ (any_cross env xs || env.is_cross_thread s)
any_cross-append env [] s = ground arith
any_cross-append env (x ∷ xs) s = ground (arith, any_cross-append env xs s)

-- Record data with room for `room` more sinks.
pub record Fits (env : Env) (p : Private env) (room : ℕ) : Type 0 where
  pub spare : length p.accepting + room ≤ p.capacity
  pub intact : p.overrun ≡ false
  pub detaches : p.detach_needed ≡ any_cross env p.accepting
  pub taken : 0 < length p.accepting

abbrev FitsOption : (env : Env) → Option (Private env) → ℕ → Type 0
FitsOption env none room = Unit {0}
FitsOption env (some p) room = Fits env p room

module _ {env : Env} where
  accept-Fits :
      (impl : Option (Private env)) (v : env.Values) (s room : ℕ)
      → FitsOption env impl (suc room)
      → Fits env (accept impl v (suc room) s) room
  accept-Fits none v s room f = record {
    spare = omega arith;
    intact = ground arith;
    detaches = ground arith;
    taken = omega arith;
  }
  accept-Fits (some p) v s room f = record {
    spare = omega (arith, length-append p.accepting (s ∷ []));
    intact = ground arith;
    detaches = ground (arith, any_cross-append env p.accepting s);
    taken = omega (arith, length-append p.accepting (s ∷ []));
  }

  abbrev held : Option (Private env) → List ℕ
  held none = []
  held (some p) = p.accepting

  -- What the loop has made of the record `impl` when it returns `next`.
  record Asked (ss : List ℕ) (impl next : Option (Private env)) (room : ℕ) : Type 0 where
    fits : FitsOption env next room
    extra : List ℕ
    within : Within extra ss
    added : held next ≡ held impl ++ extra

  held-accept :
      (impl : Option (Private env)) (v : env.Values) (s n : ℕ)
      → held (some (accept impl v n s)) ≡ held impl ++ s ∷ []
  held-accept none v s n = refl
  held-accept (some p) v s n = refl

  less_room :
      (impl : Option (Private env)) (room : ℕ)
      → FitsOption env impl (suc room)
      → FitsOption env impl room
  less_room none room f = tt
  less_room (some p) room f = record {
    spare = omega (arith, f.spare);
    intact = f.intact;
    detaches = f.detaches;
    taken = f.taken;
  }

  module _ (handler : Handler env) where
    one_result :
        (s : ℕ) (impl next : Option (Private env)) (v : env.Values) (n : ℕ) (w : env.World)
        → (apply_sink_filter handler s impl v n w).0 ≡ returned next
        → (some (accept impl v n s) ≡ next) ⊎ (impl ≡ next)
    unfolding apply_sink_filter
    one_result s impl next v n w e = ground arith

    loop_result :
        (s : ℕ) (ss : List ℕ) (impl next : Option (Private env)) (v : env.Values) (w : env.World)
        → (filter_sinks handler (s ∷ ss) impl v w).0 ≡ returned next
        → (mid : Option (Private env)) × (w' : env.World) × ((some
                (accept impl v (length (s ∷ ss)) s)
              ≡ mid)
            ⊎ (impl ≡ mid))
          × ((filter_sinks handler ss mid v w').0 ≡ returned next)
    unfolding filter_sinks bind
    loop_result s ss impl next v w e =
        go (apply_sink_filter handler s impl v (length (s ∷ ss)) w) refl
      where
        go :
            (r : Reply (Option (Private env)) × env.World)
            → apply_sink_filter handler s impl v (length (s ∷ ss)) w ≡ r
            → (mid : Option (Private env)) × (w' : env.World) × ((some
                    (accept impl v (length (s ∷ ss)) s)
                  ≡ mid)
                ⊎ (impl ≡ mid))
              × ((filter_sinks handler ss mid v w').0 ≡ returned next)
        go (returned mid, w') f =
            (mid, w', one_result s impl mid v (length (s ∷ ss)) w (ap (λ p. p.0) f), rw f at e)
        go (thrown, w') f = let h = rw f at e in absurd (ground arith)

    loop-Asked :
        (ss : List ℕ) (impl next : Option (Private env)) (v : env.Values) (w : env.World)
        → FitsOption env impl (length ss)
        → (filter_sinks handler ss impl v w).0 ≡ returned next
        → Asked ss impl next 0
    unfolding filter_sinks
    loop-Asked [] impl next v w f e =
        let same : impl ≡ next = cc in
        rw (← same) (record {
          fits = f;
          extra = [];
          within = none_left;
          added = sym (append-nil (held impl));
        })
    loop-Asked (s ∷ ss) impl next v w f e =
        let (mid, w', step, rest) = loop_result s ss impl next v w e in
        elim step [
          | inl took ↦
              let g : FitsOption env mid (length ss) =
                rw (← took) (accept-Fits impl v s (length ss) f) in
              let a = loop-Asked ss mid next v w' g rest in
              record {
                fits = a.fits;
                extra = s ∷ a.extra;
                within = keep s a.within;
                added =
                    a.added
                    ∙ ap (λ o. held o ++ a.extra) (sym took)
                    ∙ ap (λ l. l ++ a.extra) (held-accept impl v s (length (s ∷ ss)))
                    ∙ append_assoc (held impl) (s ∷ []) a.extra;
              }
          | inr passed ↦
              let g : FitsOption env mid (length ss) =
                rw (← passed) (less_room impl (length ss) f) in
              let a = loop-Asked ss mid next v w' g rest in
              record {
                fits = a.fits;
                extra = a.extra;
                within = drop s a.within;
                added = a.added ∙ ap (λ o. held o ++ a.extra) (sym passed);
              }
        ]

  frozen_from :
      (impl : Option (Private env)) (v : env.Values) (w : env.World) (p : Private env)
      → (freeze_values impl v w).0 ≡ done (some p)
      → (q : Private env) × (impl ≡ some q)
        × (q.accepting ≡ p.accepting)
        × (q.detach_needed ≡ p.detach_needed)
        × (q.overrun ≡ p.overrun)
        × (q.capacity ≡ p.capacity)
  unfolding freeze_values
  frozen_from none v w p e = absurd (ground arith)
  frozen_from (some q) v w p e = (q, refl, ground arith, ground arith, ground arith, ground arith)

  -- What `open_record` guarantees of the record that it returns.
  pub record Opened {G : Type 0} (c : Core env G) (v : env.Values) (still : Bool) (w : env.World)
      (p : Private env) : Type 0 where
    pub on : c.enabled ≡ true
    pub still_on : still ≡ true
    pub passes : (c.filter v w).0 ≡ returned true
    pub asked : Within p.accepting (targets c.sinks c.default_sink)
    pub some_sink : 0 < length p.accepting
    pub in_capacity : length p.accepting ≤ p.capacity
    pub no_overrun : p.overrun ≡ false
    pub detaches : p.detach_needed ≡ any_cross env p.accepting

  module _ {G : Type 0} (c : Core env G) (v : env.Values) (still : Bool) (w : env.World)
      (p : Private env) where
    caught_done :
        (a : Attempt env × env.World) → (caught c a).0 ≡ returned (some p) → a.0 ≡ done (some p)
    unfolding caught
    caught_done (done r, w) e = ground arith
    caught_done (failed false, w) e = absurd (ground arith)
    caught_done (failed true, w) e = absurd (ground arith)

    asked_lem :
        (w' : env.World)
        → (ask_sinks c v w').0 ≡ done (some p)
        → (impl : Option (Private env)) × (w'' : env.World) × ((filter_sinks c.exception_handler
              (targets c.sinks c.default_sink)
              none
              v
              w').0
            ≡ returned impl)
          × ((freeze_values impl v w'').0 ≡ done (some p))
    unfolding ask_sinks settle
    asked_lem w' e =
        go (filter_sinks c.exception_handler (targets c.sinks c.default_sink) none v w') refl
      where
        go :
            (r : Reply (Option (Private env)) × env.World)
            → filter_sinks c.exception_handler (targets c.sinks c.default_sink) none v w' ≡ r
            → (impl : Option (Private env)) × (w'' : env.World) × ((filter_sinks c.exception_handler
                  (targets c.sinks c.default_sink)
                  none
                  v
                  w').0
                ≡ returned impl)
              × ((freeze_values impl v w'').0 ≡ done (some p))
        go (returned impl, w'') f = (impl, w'', ap (λ p. p.0) f, rw f at e)
        go (thrown, w'') f = let h = rw f at e in absurd (ground arith)

    attempt_lem :
        (attempt c v still w).0 ≡ done (some p)
        → (still ≡ true)
          × ((c.filter v w).0 ≡ returned true)
          × ((ask_sinks c v (c.filter v w).1).0 ≡ done (some p))
    unfolding attempt
    attempt_lem e = ground arith

    -- A record is opened only where logging is enabled, at both reads of the flag, and the global
    -- filter passes the values. Its accepting sinks are some of the sinks asked (the registered
    -- ones, or the default sink where there are none), in their order, and at least one; they lie
    -- within the capacity that was allocated, so no sink is written past it; and the record is
    -- marked for detaching from the thread exactly if one of them passes records between threads.
    pub open_record-Opened : (open_record c v still w).0 ≡ returned (some p) → Opened c v still w p
    unfolding open_record
    open_record-Opened e =
        let on : c.enabled ≡ true = ground arith in
        let tried : (caught c (attempt c v still w)).0 ≡ returned (some p) = ground arith in
        let (still_on, passes, asked) = attempt_lem (caught_done (attempt c v still w) tried) in
        let (impl, w'', looped, frozen) = asked_lem (c.filter v w).1 asked in
        let (q, is_q, same_sinks, same_detach, same_overrun, same_capacity) =
          frozen_from impl v w'' p frozen in
        let a =
          loop-Asked c.exception_handler (targets c.sinks c.default_sink) none (some q) v
            (c.filter v w).1 tt (rw is_q at looped) in
        let within : Within q.accepting (targets c.sinks c.default_sink) = rw a.added a.within in
        record {
          on = on;
          still_on = still_on;
          passes = passes;
          asked = rw same_sinks at within;
          some_sink = rw same_sinks at a.fits.taken;
          in_capacity = grind (arith, a.fits.spare, same_capacity, ap length same_sinks);
          no_overrun = sym same_overrun ∙ a.fits.intact;
          detaches = sym same_detach ∙ a.fits.detaches ∙ ap (any_cross env) same_sinks;
        }
