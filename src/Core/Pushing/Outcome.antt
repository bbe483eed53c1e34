-- ===== src/Core/Pushing/Outcome.antt =====
-- What `push_record_move` has done when it returns.
use log.Prelude.{
  count, ℕ, ◌+◌, ◌≡◌, refl, ap, ◌∙◌, ◌≢◌, List, [], ◌∷◌, none, some, arith, length, inl, inr, Bool,
  if◌then◌else◌, ◌==◌, ==_iff, Bool-cases,
}
use log.Core.Env.{Env, returned, Handler}
use log.Core.Opening.{Private}
use log.Core.Opening.Errors.{Calm}
use log.Core.Pushing.{
  State, End, finished, escaped, run, cost, start, outer, distribute, lock, lock_sinks,
  push_record_move,
}
use log.Core.Pushing.Progress.{measure, below, below-lt-cost, Ended, run-Ended}

module _ {env : Env} (handler : Handler env) (v : env.Values) (sinks : List ℕ) (w : env.World) where
  abbrev pub begun : State env
  begun = start sinks w

  pub ends :
      (a : ℕ)
      → (r : End × State env) × (run handler v (cost (length sinks)) begun ≡ some r)
        × Ended handler a begun r
  unfolding start
  ends a =
      let e : measure begun ≡ length sinks + 1 + below (0 + length sinks) = refl in
      let f : below (0 + length sinks) ≡ below (length sinks) = ap below (omega arith) in
      run-Ended handler v a (cost (length sinks)) begun
        (omega (arith, e, f, below-lt-cost (length sinks)))

  outer-ne-none : (r : End × State env) → outer handler (some r) ≢ none
  unfolding outer
  outer-ne-none (finished, s) e = cc
  outer-ne-none (escaped, s) e = cc

  distribute_total : distribute {env = env} handler v sinks w ≢ none
  unfolding distribute
  distribute_total = let (r, e, _) = ends 0 in rw e (outer-ne-none r)

  finishes :
      Calm env handler
      → (s : State env) × (run handler v (cost (length sinks)) begun ≡ some (finished, s))
  finishes calm = go (ends 0)
    where
      go :
          (r : End × State env) × (run handler v (cost (length sinks)) begun ≡ some r)
            × Ended handler 0 begun r
          → (s : State env) × (run handler v (cost (length sinks)) begun ≡ some (finished, s))
      go ((finished, s), e, _) = (s, e)
      go ((escaped, s), e, (w', h)) = absurd (ground (arith, calm w'))

  serves :
      (s : State env) (a : ℕ)
      → run handler v (cost (length sinks)) begun ≡ some (finished, s)
      → count a s.delivered + count a s.failed ≡ count a sinks
  unfolding start
  serves s a e = go (ends a)
    where
      go :
          (r : End × State env) × (run handler v (cost (length sinks)) begun ≡ some r)
            × Ended handler a begun r
          → count a s.delivered + count a s.failed ≡ count a sinks
      go ((finished, t), f, (_, _, h)) = let same : s ≡ t = cc in rw same (omega (arith, h))
      go ((escaped, t), f, _) = absurd (cc)

  distribute_serves :
      Calm env handler
      → (s : State env) × (distribute {env = env} handler v sinks w ≡ some (returned s))
        × ((a : ℕ) → count a s.delivered + count a s.failed ≡ count a sinks)
  unfolding distribute outer
  distribute_serves calm = let (s, e) = finishes calm in (s, rw e refl, λ a. serves s a e)

pub count-lock_sinks :
    (alive : ℕ → Bool) (xs : List ℕ) (a : ℕ)
    → count a (lock_sinks alive xs) ≡ (if alive a then count a xs else 0)
count-lock_sinks alive [] a = ground arith
count-lock_sinks alive (x ∷ xs) a = elim (Bool-cases (x == a)) [
  | inl e ↦
      let same : x ≡ a = (==_iff x a).0 e in rw same (grind (arith, count-lock_sinks alive xs a))
  | inr e ↦ grind (arith, count-lock_sinks alive xs a)
]

module _ {env : Env} (handler : Handler env) (alive : ℕ → Bool) (p : Private env)
    (w : env.World) where
  -- `push_record_move` always comes to an end, by returning or by throwing.
  pub push_record_move_total : push_record_move handler alive p w ≢ none
  unfolding push_record_move
  push_record_move_total = distribute_total handler (lock p).values (lock_sinks alive p.accepting) w

  -- With an exception handler that does not throw, `push_record_move` returns and has served every
  -- accepting sink that is still alive, whatever the sinks do: each has either taken the record or
  -- thrown, as often as it is listed, so none gets the record twice and none is left out; and no
  -- sink that is gone is called.
  pub push_record_move_serves :
      Calm env handler
      → (s : State env) × (push_record_move handler alive p w ≡ some (returned s))
        × ((a : ℕ)
            → count a s.delivered + count a s.failed ≡ (if alive a then count a p.accepting else 0))
  unfolding push_record_move
  push_record_move_serves calm =
      let (s, e, same) =
        distribute_serves handler (lock p).values (lock_sinks alive p.accepting) w calm in
      (s, e, λ a. same a ∙ count-lock_sinks alive p.accepting a)
