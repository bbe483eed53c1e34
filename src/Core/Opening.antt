-- ===== src/Core/Opening.antt =====
-- `core::implementation::open_record` and the record data that it allocates.
pub mod Acceptance
pub mod Exact
pub mod Errors
use log.Prelude.{
  ℕ, suc, ◌+◌, ◌≡◌, Bool, true, false, List, [], ◌∷◌, ◌++◌, Option, none, some, leb, ◌==◌, ◌||◌,
  if◌then◌else◌, length,
}
use log.Core.Env.{Env, Reply, returned, thrown, Handler, handle, bind}
use log.Core.Sinks.{Core}

-- `record_view::private_data`, with its accepting sinks, oldest first. `overrun` says that a sink
-- was written past the capacity that was allocated. Sinks are counted without the bound of
-- `uint32_t`.
pub record Private (env : Env) : Type 0 where
  pub values : env.Values
  pub accepting : List ℕ
  pub capacity : ℕ
  pub detach_needed : Bool
  pub overrun : Bool

pub data Attempt (env : Env) : Type 0 where
  done : Option (Private env) → Attempt env
  failed : Bool → Attempt env

-- The sinks that are asked: the default sink, where no other is registered.
abbrev pub targets : List ℕ → ℕ → List ℕ
targets [] d = d ∷ []
targets (s ∷ ss) d = s ∷ ss

module _ {env : Env} where
  open env use {World, Values, is_cross_thread, will_consume, freeze, detach_from_thread}

  -- `private_data::create`
  abbrev pub create : Values → ℕ → Private env
  create v capacity = record {
    values = v;
    accepting = [];
    capacity = capacity;
    detach_needed = false;
    overrun = false;
  }

  abbrev pub push_back_accepting_sink : Private env → ℕ → Private env
  push_back_accepting_sink p s = record p {
    accepting = p.accepting ++ s ∷ [];
    detach_needed = p.detach_needed || is_cross_thread s;
    overrun = p.overrun || leb p.capacity (length p.accepting);
  }

  -- The record is created by the first sink that accepts it.
  abbrev pub accept : Option (Private env) → Values → ℕ → ℕ → Private env
  accept none v remaining s = push_back_accepting_sink (create v remaining) s
  accept (some p) v remaining s = push_back_accepting_sink p s

  -- The values that the sink filters see: they move into the record when it is created.
  abbrev pub current : Option (Private env) → Values → Values
  current none v = v
  current (some p) v = p.values

  -- `apply_sink_filter`; an exception that is handled leaves the record as it is.
  unfoldable pub apply_sink_filter :
      Handler env
      → ℕ
      → Option (Private env)
      → Values
      → ℕ
      → World
      → Reply (Option (Private env)) × World
  apply_sink_filter handler s impl v remaining w =
      let asked = will_consume s (current impl v) w in
      elim asked.0 [
        | returned true ↦ (returned (some (accept impl v remaining s)), asked.1)
        | returned false ↦ (returned impl, asked.1)
        | thrown ↦
            let h = handle env handler asked.1 in
            elim h.0 [ returned _ ↦ (returned impl, h.1) | thrown ↦ (thrown, h.1) ]
      ]

  -- The loop over the sinks. `remaining_capacity` is the number of sinks from here on.
  unfoldable pub filter_sinks :
      Handler env
      → List ℕ
      → Option (Private env)
      → Values
      → World
      → Reply (Option (Private env)) × World
  filter_sinks handler [] impl v w = (returned impl, w)
  filter_sinks handler (s ∷ ss) impl v w =
      bind (apply_sink_filter handler s impl v (length (s ∷ ss)) w)
        (λ next w'. filter_sinks handler ss next v w')

  -- What follows the loop: a record that no sink accepted is dropped, any other is frozen. A
  -- failure carries `invoke_exception_handler`.
  unfoldable pub freeze_values : Option (Private env) → Values → World → Attempt env × World
  freeze_values none v w = elim (freeze v w).0 [
    | returned _ ↦ (done none, (freeze v w).1)
    | thrown ↦ (failed true, (freeze v w).1)
  ]
  freeze_values (some p) v w =
      if length p.accepting == 0 then (done none, w) else elim (freeze p.values w).0 [
        | returned v' ↦ (done (some (record p { values = v' })), (freeze p.values w).1)
        | thrown ↦ (failed true, (freeze p.values w).1)
      ]

  unfoldable pub settle : Values → Reply (Option (Private env)) × World → Attempt env × World
  settle v (returned impl, w) = freeze_values impl v w
  settle v (thrown, w) = (failed false, w)

  module _ {G : Type 0} where
    unfoldable pub ask_sinks : Core env G → Values → World → Attempt env × World
    ask_sinks c v w =
        settle v (filter_sinks c.exception_handler (targets c.sinks c.default_sink) none v w)

    -- The `try` block. `still` is what the second read of `m_enabled` gives, under the lock.
    unfoldable pub attempt : Core env G → Values → Bool → World → Attempt env × World
    attempt c v still w =
        if still
        then elim (c.filter v w).0 [
          | returned true ↦ ask_sinks c v (c.filter v w).1
          | returned false ↦ (done none, (c.filter v w).1)
          | thrown ↦ (failed true, (c.filter v w).1)
        ]
        else (done none, w)

    -- The `catch (...)` block.
    unfoldable pub caught : Core env G → Attempt env × World → Reply (Option (Private env)) × World
    caught c (done r, w) = (returned r, w)
    caught c (failed false, w) = (thrown, w)
    caught c (failed true, w) =
        let h = handle env c.exception_handler w in
        elim h.0 [ returned _ ↦ (returned none, h.1) | thrown ↦ (thrown, h.1) ]

    -- `open_record`; `v` is the view composed of source, thread and global attributes.
    unfoldable pub open_record :
        Core env G → Values → Bool → World → Reply (Option (Private env)) × World
    open_record c v still w =
        let tried = caught c (attempt c v still w) in
        if c.enabled then tried else (returned none, w)
