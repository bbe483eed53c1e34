-- ===== src/Core/Tests.antt =====
-- Runs of the core in src/core.cpp with sinks of four kinds, and examples of its theorems.
use log.Prelude.{
  count, ℕ, ◌+◌, ◌≡◌, ◌≢◌, ◌↔◌, refl, true, false, List, [], ◌∷◌, Option, none, some, ◌==◌, ltb,
  if◌then◌else◌,
}
use log.Core.Env.{Env, returned, thrown, Handler, bind}
use log.Core.Sinks.{
  Core, contains, set_logging_enabled, get_logging_enabled, set_global_attributes,
  get_global_attributes, set_filter, reset_filter, set_exception_handler, flush, flush_sinks,
}
use log.Core.Sinks.Registry.{Change, adds, removes, Distinct, changes, spec_changes, changes_refine}
use log.Core.Opening.{
  Private, apply_sink_filter, filter_sinks, freeze_values, settle, ask_sinks, attempt, caught,
  open_record, targets,
}
use log.Core.Opening.Acceptance.{Opened, open_record-Opened}
use log.Core.Opening.Exact.{held, select, open_record_exact}
use log.Core.Opening.Errors.{Calm, open_record_calm}
use log.Core.Pushing.{
  State, push_record_move, distribute, outer, start, run, step, visit, end_of_pass, block_first,
  block_on, try_one, skip, random_shuffle, shuffle_from, swap_in, last_first, swap_out,
}
use log.Core.Pushing.Quiet.{push_record_move_quiet}
use log.Core.Pushing.Outcome.{push_record_move_total, push_record_move_serves}

-- The world counts the calls. Sink 3 throws, sink 2 is busy for the first five calls and passes
-- records between threads, sink 4 accepts nothing.
abbrev env : Env
env = record {
  World = ℕ;
  Values = ℕ;
  is_cross_thread = λ s. s == 2;
  will_consume = λ s v w. (returned (ltb s 4), w);
  try_consume =
      λ s v w. (if s == 3 then thrown else returned (if s == 2 then ltb 5 w else true), w + 1);
  consume = λ s v w. ((if s == 3 then thrown else returned tt), w + 1);
  flush = λ s w. ((if s == 3 then thrown else returned tt), w + 1);
  freeze = λ v w. (returned v, w);
  detach_from_thread = λ v. v + 100;
  rng = λ w. (w, w + 1);
}

-- A handler that counts too, and returns.
abbrev quiet : Handler env
quiet = some (λ w. (returned tt, w + 1))

quiet-Calm : Calm env quiet
quiet-Calm w = refl

abbrev core : Core env ℕ
core = record {
  sinks = 1 ∷ 2 ∷ 3 ∷ 4 ∷ [];
  default_sink = 9;
  global_attributes = 7;
  enabled = true;
  filter = λ v w. (returned true, w);
  exception_handler = quiet;
}

abbrev all_but_4 : Private env
all_but_4 = record {
  values = 5;
  accepting = 1 ∷ 2 ∷ 3 ∷ [];
  capacity = 4;
  detach_needed = true;
  overrun = false;
}

opens : open_record core 5 true 0 ≡ (returned (some all_but_4), 0)
unfolding open_record caught attempt ask_sinks settle freeze_values filter_sinks apply_sink_filter
    bind
opens = refl

-- Sink 2 is reached when all others are done, and sink 3 has thrown.
pushes :
    (s : State env) × (push_record_move quiet (λ _. true) all_but_4 0 ≡ some (returned s))
    × (s.delivered ≡ 2 ∷ 1 ∷ [])
    × (s.failed ≡ 3 ∷ [])
unfolding push_record_move distribute outer start run step visit end_of_pass block_first block_on
    try_one skip random_shuffle shuffle_from swap_in last_first swap_out
pushes = (_, refl, refl, refl)

flushes : flush core 0 ≡ (returned tt, 5)
unfolding flush flush_sinks
flushes = refl

settings :
    ((set_logging_enabled core false).1 ≡ true)
    × (get_logging_enabled (set_logging_enabled core false).0 ≡ false)
    × (get_global_attributes (set_global_attributes core 8) ≡ 8)
    × (((reset_filter (set_filter core (λ v w. (thrown, w)))).filter 5 0) ≡ (returned true, 0))
    × ((set_exception_handler core none).exception_handler ≡ none)
unfolding set_logging_enabled get_logging_enabled set_global_attributes get_global_attributes
    set_filter reset_filter set_exception_handler
settings = (refl, refl, refl, refl, refl)

-- Sink 2 is taken out, and a sink that is there is added again.
abbrev history : List Change
history = removes 2 ∷ adds 5 ∷ adds 1 ∷ removes 8 ∷ []

changes_refine_example :
    Distinct (changes core history).sinks
    × ((t : ℕ)
        → contains (changes core history).sinks t ≡ spec_changes (contains core.sinks) history t)
unfolding contains
changes_refine_example = changes_refine core history (refl, (refl, (refl, (refl, tt))))

open_record-Opened_example : Opened core 5 true 0 all_but_4
unfolding open_record caught attempt ask_sinks settle freeze_values filter_sinks apply_sink_filter
    bind
open_record-Opened_example = open_record-Opened core 5 true 0 all_but_4 refl

open_record_exact_example :
    (r : Option (Private env)) × ((open_record core 5 true 0).0 ≡ returned r)
    × (held r ≡ select (λ s. ltb s 4) (targets core.sinks core.default_sink))
    × ((r ≡ none) ↔ (select (λ s. ltb s 4) (targets core.sinks core.default_sink) ≡ []))
open_record_exact_example =
    open_record_exact core 5 (λ s. ltb s 4) 0 refl refl (λ s w. refl) (λ w. (5, refl))

open_record_calm_example : (open_record core 5 true 0).0 ≢ thrown
open_record_calm_example = open_record_calm core quiet-Calm 5 true 0

push_record_move_total_example : push_record_move quiet (λ _. true) all_but_4 0 ≢ none
push_record_move_total_example = push_record_move_total quiet (λ _. true) all_but_4 0

push_record_move_serves_example :
    (s : State env) × (push_record_move quiet (λ _. true) all_but_4 0 ≡ some (returned s))
    × ((a : ℕ)
        → count a s.delivered + count a s.failed
          ≡ (if true then count a all_but_4.accepting else 0))
push_record_move_serves_example = push_record_move_serves quiet (λ _. true) all_but_4 0 quiet-Calm

-- The same sinks, with sink 3 that does not throw, and no exception handler.
abbrev gentle : Env
gentle = record env {
  try_consume = λ s v w. (returned (if s == 2 then ltb 5 w else true), w + 1);
  consume = λ s v w. (returned tt, w + 1);
}

abbrev gentle_record : Private gentle
gentle_record = record {
  values = 5;
  accepting = 1 ∷ 2 ∷ 3 ∷ [];
  capacity = 4;
  detach_needed = true;
  overrun = false;
}

push_record_move_quiet_example :
    (s : State gentle) × (push_record_move {env = gentle} none (λ _. true) gentle_record 0
      ≡ some (returned s))
    × ((a : ℕ) → count a s.delivered ≡ (if true then count a gentle_record.accepting else 0))
push_record_move_quiet_example =
    push_record_move_quiet {env = gentle} none (λ _. true) gentle_record 0 (λ x w e. absurd (cc))
      (λ x w e. absurd (cc))
