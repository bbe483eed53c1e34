-- ===== src/Core.antt =====
-- src/core.cpp: the logging core. Sinks are named by the identity of their shared pointers.
--
-- What a sink, a filter, an exception handler or an attribute value does is not the core's code:
-- it is an `Env`, whose calls may throw and may change a world that they share.
pub mod Env
pub mod Sinks
pub mod Opening
pub mod Pushing
mod Tests
