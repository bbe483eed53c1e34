-- ===== src/Core/Pushing/Quiet.antt =====
-- `push_record_move` where the sinks do not throw.
use log.Prelude.{
  ℕ, zero, suc, ◌≡◌, refl, ap, ◌∙◌, ◌≢◌, Bool, true, false, List, [], ◌∷◌, Option, none, some,
  arith, if◌then◌else◌, count, length,
}
use log.Core.Env.{Env, Reply, returned, thrown, Handler}
use log.Core.Opening.{Private}
use log.Core.Pushing.{
  random_shuffle, State, End, finished, escaped, Next, go_on, stop, try_one, block_on, block_first,
  end_of_pass, visit, step, run, cost, start, outer, distribute, lock, lock_sinks, push_record_move,
}
use log.Core.Pushing.Progress.{Ended}
use log.Core.Pushing.Outcome.{count-lock_sinks, ends}

-- A round in which no sink throws.
abbrev Unharmed : {env : Env} → State env → Next env → Type 0
Unharmed s (go_on t) = t.failed ≡ s.failed
Unharmed s (stop finished t) = t.failed ≡ s.failed
Unharmed s (stop escaped t) = ⊥

module _ {env : Env} (handler : Handler env) (v : env.Values)
    (tries : (x : ℕ) (w : env.World) → (env.try_consume x v w).0 ≢ thrown)
    (consumes : (x : ℕ) (w : env.World) → (env.consume x v w).0 ≢ thrown) where
  try_one-Unharmed :
      (s : State env) (x : ℕ) (rest : List ℕ) → Unharmed s (try_one handler v s x rest)
  unfolding try_one
  try_one-Unharmed s x rest = go (env.try_consume x v s.world).0 refl
    where
      go :
          (r : Reply Bool)
          → (env.try_consume x v s.world).0 ≡ r
          → Unharmed s (try_one handler v s x rest)
      go (returned true) e = rw (e, try_one) refl
      go (returned false) e = rw (e, try_one) refl
      go thrown e = absurd (tries x s.world e)

  block_on-Unharmed :
      (s : State env) (x : ℕ) (rest : List ℕ) → Unharmed s (block_on handler v s x rest)
  unfolding block_on
  block_on-Unharmed s x rest = go (env.consume x v s.world).0 refl
    where
      go :
          (r : Reply (Unit {0}))
          → (env.consume x v s.world).0 ≡ r
          → Unharmed s (block_on handler v s x rest)
      go (returned _) e = rw (e, block_on) refl
      go thrown e = absurd (consumes x s.world e)

  block_first-Unharmed : (s : State env) (l : List ℕ) → Unharmed s (block_first handler v s l)
  unfolding block_first
  block_first-Unharmed s [] = refl
  block_first-Unharmed s (x ∷ rest) = block_on-Unharmed s x rest

  same_failed : (s t : State env) (n : Next env) → t.failed ≡ s.failed → Unharmed t n → Unharmed s n
  same_failed s t (go_on u) e h = h ∙ e
  same_failed s t (stop finished u) e h = h ∙ e
  same_failed s t (stop escaped u) e h = h

  end_of_pass-Unharmed : (s : State env) (l : List ℕ) → Unharmed s (end_of_pass handler v s l)
  unfolding end_of_pass
  end_of_pass-Unharmed s [] = refl
  end_of_pass-Unharmed s (x ∷ rest) = choose s.all_locked s.shuffled
    where
      fresh : State env
      fresh = record s { before = []; after = x ∷ rest; all_locked = true }

      mixed : State env
      mixed =
          let r = random_shuffle env (x ∷ rest) s.world in
          record fresh { after = r.0; shuffled = true; world = r.1 }

      choose :
          (a b : Bool)
          → Unharmed s (
              if a
              then (if b
                  then block_first handler v fresh (x ∷ rest)
                  else block_first handler v mixed mixed.after)
              else go_on fresh)
      choose true true = same_failed s fresh _ refl (block_first-Unharmed fresh (x ∷ rest))
      choose true false = same_failed s mixed _ refl (block_first-Unharmed mixed mixed.after)
      choose false b = refl

  step-Unharmed : (s : State env) → Unharmed s (step handler v s)
  unfolding step visit
  step-Unharmed s = go s.after
    where
      go : (l : List ℕ) → Unharmed s (visit handler v s l)
      go [] = end_of_pass-Unharmed s s.before
      go (x ∷ rest) = try_one-Unharmed s x rest

  -- The loop does not end with an exception, and no sink has failed.
  abbrev Clean : State env → Option (End × State env) → Type 0
  Clean s none = Unit {0}
  Clean s (some (finished, t)) = t.failed ≡ s.failed
  Clean s (some (escaped, t)) = ⊥

  run-Clean : (fuel : ℕ) (s : State env) → Clean s (run handler v fuel s)
  unfolding run
  run-Clean zero s = tt
  run-Clean (suc fuel) s = go (λ t. run-Clean fuel t) (step handler v s) refl (step-Unharmed s)
    where
      carry :
          (t : State env) (o : Option (End × State env))
          → t.failed ≡ s.failed
          → Clean t o
          → Clean s o
      carry t none e h = tt
      carry t (some (finished, u)) e h = h ∙ e
      carry t (some (escaped, u)) e h = h

      go :
          ((t : State env) → Clean t (run handler v fuel t))
          → (n : Next env) → step handler v s ≡ n
          → Unharmed s n
          → Clean s (run handler v (suc fuel) s)
      go rest (go_on t) e h = rw (e, run) (carry t (run handler v fuel t) h (rest t))
      go rest (stop finished t) e h = rw (e, run) h
      go rest (stop escaped t) e h = absurd h

  quiet_ends :
      (sinks : List ℕ) (w : env.World) (a : ℕ)
      → (s : State env) × (run handler v (cost (length sinks)) (start sinks w) ≡ some (finished, s))
        × (count a s.delivered ≡ count a sinks)
  unfolding start
  quiet_ends sinks w a =
      go (ends handler v sinks w a) (run-Clean (cost (length sinks)) (start sinks w))
    where
      go :
          (r : End × State env) × (run handler v (cost (length sinks)) (start sinks w) ≡ some r)
            × Ended handler a (start sinks w) r
          → Clean (start sinks w) (run handler v (cost (length sinks)) (start sinks w))
          → (s : State env) × (run handler v (cost (length sinks)) (start sinks w)
              ≡ some (finished, s))
            × (count a s.delivered ≡ count a sinks)
      go ((finished, t), f, (_, _, h)) c =
          let none_failed : t.failed ≡ [] = rw f at c in
          (t, f, omega (arith, h, ap (count a) none_failed))
      go ((escaped, t), f, _) c = absurd (rw f at c)

-- Where no sink throws, `push_record_move` returns, with or without an exception handler, and has
-- handed the record to every accepting sink that is still alive, as often as it is listed, and to
-- no other, however busy the sinks are.
pub push_record_move_quiet :
    {env : Env} (handler : Handler env) (alive : ℕ → Bool) (p : Private env) (w : env.World)
    → ((x : ℕ) (w : env.World) → (env.try_consume x (lock p).values w).0 ≢ thrown)
    → ((x : ℕ) (w : env.World) → (env.consume x (lock p).values w).0 ≢ thrown)
    → (s : State env) × (push_record_move handler alive p w ≡ some (returned s))
      × ((a : ℕ) → count a s.delivered ≡ (if alive a then count a p.accepting else 0))
unfolding push_record_move distribute outer
push_record_move_quiet {env} handler alive p w tries consumes =
    let sinks = lock_sinks alive p.accepting in
    let (s, e, _) = quiet_ends handler (lock p).values tries consumes sinks w 0 in
    (s, rw e refl, λ a. same a (quiet_ends handler (lock p).values tries consumes sinks w a) e)
  where
    same :
        {s : State env} (a : ℕ)
        → (t : State env) × (run handler
              (lock p).values
              (cost (length (lock_sinks alive p.accepting)))
              (start (lock_sinks alive p.accepting) w)
            ≡ some (finished, t))
          × (count a t.delivered ≡ count a (lock_sinks alive p.accepting))
        → run handler
            (lock p).values
            (cost (length (lock_sinks alive p.accepting)))
            (start (lock_sinks alive p.accepting) w)
          ≡ some (finished, s)
        → count a s.delivered ≡ (if alive a then count a p.accepting else 0)
    same {s} a (t, f, h) e = let eq : s ≡ t = cc in rw eq (h ∙ count-lock_sinks alive p.accepting a)
