-- ===== src/Core/Pushing.antt =====
-- `core::push_record_move`: the record is handed to each of its accepting sinks, first to those
-- that are not busy.
pub mod Counting
pub mod Progress
pub mod Outcome
pub mod Quiet
use log.Prelude.{
  ℕ, zero, suc, ◌+◌, ◌%◌, Bool, true, false, List, [], ◌∷◌, ◌++◌, Option, none, some, leb,
  if◌then◌else◌, length,
}
use log.Core.Env.{Env, Reply, returned, thrown, Handler, handle}
use log.Core.Opening.{Private}

-- One round of `random_shuffle`: the next element goes to place `where` of those before it, and
-- what stood there to its own place. Past the end the element stays.
unfoldable pub swap_in : List ℕ → ℕ → ℕ → List ℕ
swap_in [] x j = x ∷ []
swap_in (y ∷ ys) x zero = x ∷ (ys ++ y ∷ [])
swap_in (y ∷ ys) x (suc j) = y ∷ swap_in ys x j

abbrev under_head : ℕ → List ℕ → List ℕ
under_head x [] = x ∷ []
under_head x (l ∷ r) = l ∷ x ∷ r

-- `--end; end->swap(*it)` at the head: the last sink takes the place of the one that is done.
unfoldable pub last_first : ℕ → List ℕ → List ℕ
last_first x [] = x ∷ []
last_first x (y ∷ ys) = under_head x (last_first y ys)

unfoldable pub swap_out : List ℕ → List ℕ
swap_out [] = []
swap_out (x ∷ xs) = last_first x xs

-- The loop's variables. `before` are the sinks that `it` has passed, `after` those from `it` to
-- `end`. `delivered` and `failed` are the sinks that have taken the record and those that have
-- thrown, last first.
pub record State (env : Env) : Type 0 where
  pub before : List ℕ
  pub after : List ℕ
  pub all_locked : Bool
  pub shuffled : Bool
  pub world : env.World
  pub delivered : List ℕ
  pub failed : List ℕ

pub data End : Type 0 where
  finished escaped : End

pub data Next (env : Env) : Type 0 where
  go_on : State env → Next env
  stop : End → State env → Next env

-- The loop of `random_shuffle`; the first list holds the elements before `it`, in order.
unfoldable pub shuffle_from : (env : Env) → List ℕ → List ℕ → env.World → List ℕ × env.World
shuffle_from env front [] w = (front, w)
shuffle_from env front (x ∷ xs) w =
    shuffle_from env (swap_in front x ((env.rng w).0 % (length front + 1))) xs (env.rng w).1

unfoldable pub random_shuffle : (env : Env) → List ℕ → env.World → List ℕ × env.World
random_shuffle env [] w = ([], w)
random_shuffle env (x ∷ xs) w = shuffle_from env (x ∷ []) xs w

module _ {env : Env} where
  open env use {World, Values, try_consume, consume}

  module _ (handler : Handler env) (v : Values) where
    -- The inner `catch (...)`, for sink `x` at `it` with `rest` behind it.
    unfoldable pub skip : State env → ℕ → List ℕ → World → Next env
    skip s x rest w =
        let h = handle env handler w in
        let s' = record s { world = h.1; failed = x ∷ s.failed } in
        elim h.0 [
          | returned _ ↦ go_on (record s' { after = swap_out rest; all_locked = true })
          | thrown ↦ stop escaped s'
        ]

    -- One round of the inner loop.
    unfoldable pub try_one : State env → ℕ → List ℕ → Next env
    try_one s x rest =
        let w = (try_consume x v s.world).1 in
        elim (try_consume x v s.world).0 [
          | returned true ↦ go_on (record s {
            after = swap_out rest;
            all_locked = false;
            world = w;
            delivered = x ∷ s.delivered;
          })
          | returned false ↦
              go_on (record s { before = s.before ++ x ∷ []; after = rest; world = w })
          | thrown ↦ skip s x rest w
        ]

    -- Blocking on the first sink, when all of them are busy.
    unfoldable pub block_on : State env → ℕ → List ℕ → Next env
    block_on s x rest =
        let w = (consume x v s.world).1 in
        elim (consume x v s.world).0 [
          | returned _ ↦
              go_on (record s { after = swap_out rest; world = w; delivered = x ∷ s.delivered })
          | thrown ↦ skip s x rest w
        ]

    unfoldable pub block_first : State env → List ℕ → Next env
    block_first s [] = stop finished s
    block_first s (x ∷ rest) = block_on s x rest

    -- What follows the inner loop, with `it` at the beginning again.
    unfoldable pub end_of_pass : State env → List ℕ → Next env
    end_of_pass s [] = stop finished s
    end_of_pass s (x ∷ rest) =
        let fresh = record s { before = []; after = x ∷ rest; all_locked = true } in
        if s.all_locked
        then (if s.shuffled
            then block_first fresh (x ∷ rest)
            else (let r = random_shuffle env (x ∷ rest) s.world in
                block_first (record fresh { after = r.0; shuffled = true; world = r.1 }) r.0))
        else go_on fresh

    unfoldable pub visit : State env → List ℕ → Next env
    visit s [] = end_of_pass s s.before
    visit s (x ∷ rest) = try_one s x rest

    unfoldable pub step : State env → Next env
    step s = visit s s.after

    unfoldable pub run : ℕ → State env → Option (End × State env)
    run zero s = none
    run (suc fuel) s = elim (step s) [ go_on s' ↦ run fuel s' | stop e s' ↦ some (e, s') ]

-- Rounds that are enough for so many sinks from the beginning of a pass.
abbrev pub cost : ℕ → ℕ
cost zero = 1
cost (suc n) = suc n + 1 + cost n

-- The accepting sinks whose weak pointers could be locked; `alive` says which these are.
abbrev pub lock_sinks : (ℕ → Bool) → List ℕ → List ℕ
lock_sinks alive [] = []
lock_sinks alive (x ∷ xs) = let rest = lock_sinks alive xs in if alive x then x ∷ rest else rest

module _ {env : Env} where
  unfoldable pub start : List ℕ → env.World → State env
  start sinks w = record {
    before = [];
    after = sinks;
    all_locked = true;
    shuffled = leb (length sinks) 1;
    world = w;
    delivered = [];
    failed = [];
  }

  -- The outer `catch (...)`.
  unfoldable pub outer : Handler env → Option (End × State env) → Option (Reply (State env))
  outer handler none = none
  outer handler (some (finished, s)) = some (returned s)
  outer handler (some (escaped, s)) =
      let h = handle env handler s.world in
      let s' = record s { world = h.1 } in
      some (elim h.0 [ returned _ ↦ returned s' | thrown ↦ thrown ])

  -- The loop of `push_record_move` over the sinks that could be locked. `none` would be a loop that
  -- does not end.
  unfoldable pub distribute :
      Handler env → env.Values → List ℕ → env.World → Option (Reply (State env))
  distribute handler v sinks w = outer handler (run handler v (cost (length sinks)) (start sinks w))

  -- `record::lock`: the values are detached from the thread where a sink needs it.
  abbrev pub lock : Private env → Private env
  lock p = if p.detach_needed then record p { values = env.detach_from_thread p.values } else p

  -- `push_record_move`
  unfoldable pub push_record_move :
      Handler env → (ℕ → Bool) → Private env → env.World → Option (Reply (State env))
  push_record_move handler alive p w =
      distribute handler (lock p).values (lock_sinks alive p.accepting) w
