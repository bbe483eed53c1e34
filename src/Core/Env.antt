-- ===== src/Core/Env.antt =====
-- What the core calls: sinks, filters, exception handlers, attribute values and the random number
-- generator. A call returns or throws, and changes the world.
use log.Prelude.{ℕ, Bool, Option, none, some}

pub data Reply (A : Type 0) : Type 0 where
  returned : A → Reply A
  thrown : Reply A

-- `sinks::sink`, `attribute_value_set` and `taus88`, as far as core.cpp uses them.
pub record Env : Type 1 where
  pub World : Type 0
  pub Values : Type 0
  pub is_cross_thread : ℕ → Bool
  pub will_consume : ℕ → Values → World → Reply Bool × World
  pub try_consume : ℕ → Values → World → Reply Bool × World
  pub consume : ℕ → Values → World → Reply (Unit {0}) × World
  pub flush : ℕ → World → Reply (Unit {0}) × World
  pub freeze : Values → World → Reply Values × World
  pub detach_from_thread : Values → Values
  pub rng : World → ℕ × World

-- `exception_handler_type`; `none` is an empty handler.
abbrev pub Handler : Env → Type 0
Handler env = Option (env.World → Reply (Unit {0}) × env.World)

-- `if (m_exception_handler.empty()) throw; m_exception_handler();` in a `catch (...)` block.
abbrev pub handle : (env : Env) → Handler env → env.World → Reply (Unit {0}) × env.World
handle env none w = (thrown, w)
handle env (some h) w = h w

-- What follows a call that returned; an exception passes through.
unfoldable pub bind : {W A B : Type 0} → Reply A × W → (A → W → Reply B × W) → Reply B × W
bind (returned a, w) k = k a w
bind (thrown, w) k = (thrown, w)
