-- ===== src/Core/Pushing/Progress.antt =====
-- The loop of `push_record_move` hands the record over to a sink, or passes a busy one, in every
-- round: it ends, and it loses no sink.
use log.Prelude.{
  ℕ, zero, suc, ◌+◌, ◌≤◌, ◌<◌, ◌≡◌, refl, sym, ap, ◌∙◌, Bool, true, false, List, [], ◌∷◌, ◌++◌,
  some, arith, if◌then◌else◌, length, length-append, count, count-append,
}
use log.Core.Env.{Env, Reply, returned, thrown, Handler, handle}
use log.Core.Pushing.{
  swap_out, random_shuffle, State, End, finished, escaped, Next, go_on, stop, skip, try_one,
  block_on, block_first, end_of_pass, visit, step, run, cost,
}
use log.Core.Pushing.Counting.{
  count-swap_out, length-swap_out, count-random_shuffle, length-random_shuffle,
}

-- The occurrences of a sink among those left and those done.
abbrev pub held : {env : Env} → ℕ → State env → ℕ
held a s = count a s.before + count a s.after + count a s.delivered + count a s.failed

-- The rounds after this pass, if it finds every sink busy.
abbrev pub below : ℕ → ℕ
below zero = 0
below (suc n) = cost n

-- A bound on the rounds left.
abbrev pub measure : {env : Env} → State env → ℕ
measure s =
    let n = length s.before + length s.after in
    length s.after + 1 + (if s.all_locked then below n else cost n)

-- The handler of an exception is not set, or throws.
abbrev pub Escapes : (env : Env) → Handler env → Type 0
Escapes env handler = (w : env.World) × ((handle env handler w).0 ≡ thrown)

-- A round that goes on loses no sink and comes closer to the end.
abbrev pub Good : {env : Env} → Handler env → ℕ → State env → Next env → Type 0
Good handler a s (go_on t) = (held a t ≡ held a s) × (measure t < measure s)
Good handler a s (stop finished t) = (t.before ≡ []) × (t.after ≡ []) × (held a t ≡ held a s)
Good {env} handler a s (stop escaped t) = Escapes env handler

pub below-lt-cost : (n : ℕ) → n + 1 + below n ≤ cost n
below-lt-cost zero = omega arith
below-lt-cost (suc n) = omega arith

-- A round that blocks: what is left is a pass over one sink less.
abbrev Blocked : {env : Env} → Handler env → ℕ → State env → ℕ → Next env → Type 0
Blocked handler a s m (go_on t) = (held a t ≡ held a s) × (measure t ≤ cost m)
Blocked handler a s m (stop finished t) = ⊥
Blocked {env} handler a s m (stop escaped t) = Escapes env handler

-- `cost` at the length that a list of sinks turns out to have.
cost_at : (n m : ℕ) → n ≡ m → cost n ≡ cost m
cost_at n m e = ap cost e

below_at : (n m : ℕ) → n ≡ m → below n ≡ below m
below_at n m e = ap below e

module _ {env : Env} (handler : Handler env) (v : env.Values) (a : ℕ) where
  module _ (s : State env) (x : ℕ) (rest : List ℕ) (at_x : s.after ≡ x ∷ rest) where
    abbrev n : ℕ
    n = length s.before + length rest

    -- The lengths and costs before and after a sink is taken out.
    facts :
        (length s.after ≡ suc (length rest))
        × (count a s.after ≡ count a (x ∷ rest))
        × (cost (length s.before + length s.after) ≡ n + 2 + cost n)
        × (below (length s.before + length s.after) ≡ cost n)
        × (cost (length s.before + length (swap_out rest)) ≡ cost n)
        × (n + 1 + below (length s.before + length (swap_out rest)) ≤ cost n)
    facts =
        let l : length s.after ≡ suc (length rest) = ap length at_x in
        let e : length s.before + length s.after ≡ suc n = omega (arith, l) in
        let f : length s.before + length (swap_out rest) ≡ n =
          omega (arith, length-swap_out rest) in
        (
          l,
          ap (count a) at_x,
          omega (arith, cost_at _ _ e),
          below_at _ (suc n) e,
          cost_at _ _ f,
          omega (arith, below-lt-cost n, below_at _ _ f),
        )

    skip-Good : (w : env.World) → Good handler a s (skip handler v s x rest w)
    unfolding skip
    skip-Good w = go (handle env handler w).0 refl
      where
        go :
            (r : Reply (Unit {0}))
            → (handle env handler w).0 ≡ r
            → Good handler a s (skip handler v s x rest w)
        go (returned _) e =
            let (l, c, big, small, after_big, after_small) = facts in
            rw (e, skip) (ground (arith, count-swap_out a rest, length-swap_out rest))
        go thrown e = rw (e, skip) (w, e)

    skip-Blocked :
        s.before ≡ []
        → (w : env.World) → Blocked handler a s (length rest) (skip handler v s x rest w)
    unfolding skip
    skip-Blocked first w = go (handle env handler w).0 refl
      where
        go :
            (r : Reply (Unit {0}))
            → (handle env handler w).0 ≡ r
            → Blocked handler a s (length rest) (skip handler v s x rest w)
        go (returned _) e =
            let (l, c, big, small, after_big, after_small) = facts in
            rw (e, skip)
              (ground (arith, count-swap_out a rest, length-swap_out rest, ap length first))
        go thrown e = rw (e, skip) (w, e)

    try_one-Good : Good handler a s (try_one handler v s x rest)
    unfolding try_one
    try_one-Good = go (env.try_consume x v s.world).0 refl
      where
        go :
            (r : Reply Bool)
            → (env.try_consume x v s.world).0 ≡ r
            → Good handler a s (try_one handler v s x rest)
        go (returned true) e =
            let (l, c, big, small, after_big, after_small) = facts in
            rw (e, try_one) (ground (arith, count-swap_out a rest, length-swap_out rest))
        go (returned false) e =
            let (l, c, big, small, after_big, after_small) = facts in
            let same : length (s.before ++ x ∷ []) + length rest
                ≡ length s.before + length s.after =
              omega (arith, l, length-append s.before (x ∷ [])) in
            rw (e, try_one)
              (ground
                (arith, count-append a s.before (x ∷ []), cost_at _ _ same, below_at _ _ same))
        go thrown e = rw (e, try_one) (skip-Good (env.try_consume x v s.world).1)

    -- Every sink was busy when `consume` is called.
    block_on-lem :
        s.all_locked ≡ true
        → s.before ≡ []
        → Blocked handler a s (length rest) (block_on handler v s x rest)
    unfolding block_on
    block_on-lem locked first = go (env.consume x v s.world).0 refl
      where
        go :
            (r : Reply (Unit {0}))
            → (env.consume x v s.world).0 ≡ r
            → Blocked handler a s (length rest) (block_on handler v s x rest)
        go (returned _) e =
            let (l, c, big, small, after_big, after_small) = facts in
            rw (e, block_on)
              (ground (arith, count-swap_out a rest, length-swap_out rest, ap length first))
        go thrown e = rw (e, block_on) (skip-Blocked first (env.consume x v s.world).1)

  block_first-lem :
      (s : State env) (l : List ℕ) (m : ℕ)
      → length l ≡ suc m
      → s.after ≡ l
      → s.all_locked ≡ true
      → s.before ≡ []
      → Blocked handler a s m (block_first handler v s l)
  unfolding block_first
  block_first-lem s [] m some_left e locked first = absurd (omega arith)
  block_first-lem s (x ∷ rest) m some_left e locked first =
      let f : length rest ≡ m = omega arith in rw f at (block_on-lem s x rest e locked first)

  -- The sinks of a pass are set out again, in the same order or in another.
  abbrev restarted : State env → List ℕ → Bool → env.World → State env
  restarted s l b w = record s {
    before = [];
    after = l;
    all_locked = true;
    shuffled = b;
    world = w;
  }

  after_block :
      (s : State env) (l : List ℕ) (m : ℕ) (b : Bool) (w : env.World)
      → s.after ≡ []
      → s.all_locked ≡ true
      → length s.before ≡ suc m
      → count a s.before ≡ count a l
      → length l ≡ suc m
      → Good handler a s (block_first handler v (restarted s l b w) l)
  after_block s l m b w none_left locked size same_count same_size =
      go (block_first handler v (restarted s l b w) l)
        (block_first-lem (restarted s l b w) l m same_size refl refl refl)
    where
      go : (r : Next env) → Blocked handler a (restarted s l b w) m r → Good handler a s r
      go (go_on t) (h, k) =
          let e : length s.before + length s.after ≡ suc m = omega (arith, ap length none_left) in
          (
            omega (arith, ap (count a) none_left),
            ground (arith, ap length none_left, below_at _ _ e),
          )
      go (stop finished t) h = absurd h
      go (stop escaped t) h = h

  end_of_pass-Good :
      (s : State env) (l : List ℕ)
      → s.after ≡ []
      → s.before ≡ l
      → Good handler a s (end_of_pass handler v s l)
  unfolding end_of_pass
  end_of_pass-Good s [] none_left same = (same, none_left, refl)
  end_of_pass-Good s (x ∷ rest) none_left same =
      either s.all_locked _ _
        (λ locked.
          either s.shuffled _ _
            (λ _.
              after_block s (x ∷ rest) (length rest) s.shuffled s.world none_left locked size
                (ap (count a) same) refl)
            (λ _.
              after_block s (random_shuffle env (x ∷ rest) s.world).0 (length rest) true
                (random_shuffle env (x ∷ rest) s.world).1 none_left locked size
                (ap (count a) same ∙ sym (count-random_shuffle env a (x ∷ rest) s.world))
                (length-random_shuffle env (x ∷ rest) s.world)))
        (λ unlocked. (
          omega (arith, ap (count a) none_left, ap (count a) same),
          ground (
            arith,
            size,
            ap length none_left,
            below-lt-cost (suc (length rest)),
            cost_at (length s.before + length s.after) (suc (length rest))
                (omega (arith, size, ap length none_left)),
          ),
        ))
    where
      size : length s.before ≡ suc (length rest)
      size = ap length same

      either :
          (b : Bool) (p q : Next env)
          → (b ≡ true → Good handler a s p)
          → (b ≡ false → Good handler a s q)
          → Good handler a s (if b then p else q)
      either true p q f g = f refl
      either false p q f g = g refl

  visit-Good : (s : State env) (l : List ℕ) → s.after ≡ l → Good handler a s (visit handler v s l)
  unfolding visit
  visit-Good s [] e = end_of_pass-Good s s.before e refl
  visit-Good s (x ∷ rest) e = try_one-Good s x rest e

  pub step-Good : (s : State env) → Good handler a s (step handler v s)
  unfolding step
  step-Good s = visit-Good s s.after refl

-- What the loop leaves when it ends: nothing to do, or an exception that was not handled.
abbrev pub Ended : {env : Env} → Handler env → ℕ → State env → End × State env → Type 0
Ended handler a s (finished, t) =
    (t.before ≡ []) × (t.after ≡ []) × (count a t.delivered + count a t.failed ≡ held a s)
Ended {env} handler a s (escaped, t) = Escapes env handler

module _ {env : Env} (handler : Handler env) (v : env.Values) (a : ℕ) where
  pub run-Ended :
      (fuel : ℕ) (s : State env)
      → measure s ≤ fuel
      → (r : End × State env) × (run handler v fuel s ≡ some r) × Ended handler a s r
  unfolding run
  run-Ended zero s h = absurd (ground arith)
  run-Ended (suc fuel) s h =
      go (λ t k. run-Ended fuel t k) (step handler v s) refl (step-Good handler v a s)
    where
      go :
          ((t : State env)
            → measure t ≤ fuel
            → (r : End × State env) × (run handler v fuel t ≡ some r) × Ended handler a t r)
          → (n : Next env) → step handler v s ≡ n
          → Good handler a s n
          → (r : End × State env) × (run handler v (suc fuel) s ≡ some r) × Ended handler a s r
      go rest (go_on t) e (same, less) =
          let (r, f, ended) = rest t (omega arith) in (r, rw (e, run) f, carry r t same ended)
        where
          carry :
              (r : End × State env) (t : State env)
              → held a t ≡ held a s
              → Ended handler a t r
              → Ended handler a s r
          carry (finished, u) t k (b, c, d) = (b, c, d ∙ k)
          carry (escaped, u) t k d = d
      go rest (stop finished t) e (b, c, d) = (
        (finished, t),
        rw (e, run) refl,
        (b, c, omega (arith, d, ap (count a) b, ap (count a) c)),
      )
      go rest (stop escaped t) e d = ((escaped, t), rw (e, run) refl, d)
