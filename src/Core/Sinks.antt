-- ===== src/Core/Sinks.antt =====
-- The core's state and the operations on its set of sinks.
pub mod Registry
use log.Prelude.{
  ℕ, ◌≡◌, refl, ◌≢◌, ◌↔◌, Bool, true, false, List, [], ◌∷◌, ◌++◌, Option, none, some, arith, ◌==◌,
  ◌||◌, if◌then◌else◌, Bool-cases, inl, inr, ==_iff,
}
use log.Core.Env.{Env, Reply, returned, thrown, Handler, handle}

-- `core::implementation`; `G` is the type of the global attribute set.
pub record Core (env : Env) (G : Type 0) : Type 0 where
  pub sinks : List ℕ
  pub default_sink : ℕ
  pub global_attributes : G
  pub enabled : Bool
  pub filter : env.Values → env.World → Reply Bool × env.World
  pub exception_handler : Handler env

-- `std::find(...) != end()`
unfoldable pub contains : List ℕ → ℕ → Bool
contains [] s = false
contains (x ∷ xs) s = x == s || contains xs s

-- `erase(std::find(...))`
pub erase : List ℕ → ℕ → List ℕ
erase [] s = []
erase (x ∷ xs) s = if x == s then xs else x ∷ erase xs s

module _ {env : Env} {G : Type 0} where
  unfoldable pub set_logging_enabled : Core env G → Bool → Core env G × Bool
  set_logging_enabled c b = (record c { enabled = b }, c.enabled)

  unfoldable pub get_logging_enabled : Core env G → Bool
  get_logging_enabled c = c.enabled

  pub add_sink : Core env G → ℕ → Core env G
  add_sink c s = if contains c.sinks s then c else record c { sinks = c.sinks ++ s ∷ [] }

  pub remove_sink : Core env G → ℕ → Core env G
  remove_sink c s = if contains c.sinks s then record c { sinks = erase c.sinks s } else c

  pub remove_all_sinks : Core env G → Core env G
  remove_all_sinks c = record c { sinks = [] }

  unfoldable pub set_global_attributes : Core env G → G → Core env G
  set_global_attributes c g = record c { global_attributes = g }

  unfoldable pub get_global_attributes : Core env G → G
  get_global_attributes c = c.global_attributes

  unfoldable pub set_filter :
      Core env G → (env.Values → env.World → Reply Bool × env.World) → Core env G
  set_filter c f = record c { filter = f }

  -- An empty filter accepts every record.
  unfoldable pub reset_filter : Core env G → Core env G
  reset_filter c = record c { filter = λ v w. (returned true, w) }

  unfoldable pub set_exception_handler : Core env G → Handler env → Core env G
  set_exception_handler c h = record c { exception_handler = h }

  -- The loop of `flush`: an exception that is handled does not stop it.
  unfoldable pub flush_sinks : Core env G → List ℕ → env.World → Reply (Unit {0}) × env.World
  flush_sinks c [] w = (returned tt, w)
  flush_sinks c (s ∷ ss) w =
      let after = flush_sinks c ss in
      elim (env.flush s w).0 [
        | returned _ ↦ after (env.flush s w).1
        | thrown ↦
            let h = handle env c.exception_handler (env.flush s w).1 in
            elim h.0 [ returned _ ↦ after h.1 | thrown ↦ h ]
      ]

  unfoldable pub flush : Core env G → env.World → Reply (Unit {0}) × env.World
  flush c w = elim c.sinks [
    | [] ↦ flush_sinks c (c.default_sink ∷ []) w
    | s ∷ ss ↦ flush_sinks c (s ∷ ss) w
  ]
